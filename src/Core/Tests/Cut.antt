-- ===== src/Core/Tests/Cut.antt =====
-- Replacements that are cut short.
use xray_vps_manager.Core.Fs.{
  rename, run_prepare, swap, build_new, write_new, clear_leftovers, remove_tree, make_parent, Disk,
  succeeds, raises, dies, nothing, half, whole, partial, raised, died, replace_directory,
  replace_file, prepared_content,
}
use xray_vps_manager.Base.{◌≡◌, refl, ℕ, suc, none, some, [], ◌∷◌}
use xray_vps_manager.Core.Fs.Replaced.{Ends, Replaced, Safe, served, replace_directory-Replaced}
use xray_vps_manager.Core.Fs.File.{Swapped, Either, replace_file-Swapped}

-- The second rename raises after the first one has set the old tree aside.
abbrev interrupted : Disk ℕ
interrupted = record {
  destination = some (whole 1);
  new_dir = some partial;
  old_dir = none;
  answers = succeeds ∷ succeeds ∷ succeeds ∷ succeeds ∷ succeeds ∷ raises nothing ∷ [];
}

replace_directory-Replaced_example :
    Ends
      (Replaced (served interrupted) (prepared_content (some suc) 4))
      (Safe (served interrupted) (prepared_content (some suc) 4))
      (replace_directory (some suc) 4 interrupted)
replace_directory-Replaced_example = replace_directory-Replaced (some suc) 4 interrupted

rolled_back : replace_directory (some suc) 4 interrupted ≡ (
  raised,
  record { destination = some (whole 1); new_dir = none; old_dir = none; answers = [] },
)
unfolding replace_directory make_parent clear_leftovers build_new swap remove_tree rename write_new
    run_prepare
rolled_back = refl

-- The process dies while it writes the copy of the file.
abbrev killed : Disk ℕ
killed = record {
  destination = some (whole 1);
  new_dir = none;
  old_dir = none;
  answers = succeeds ∷ dies half ∷ [];
}

replace_file-Swapped_example :
    Ends
      (Swapped killed.destination (prepared_content none 2))
      (Either killed.destination (prepared_content none 2))
      (replace_file none 2 killed)
replace_file-Swapped_example = replace_file-Swapped none 2 killed

left_half : replace_file none 2 killed ≡ (
  died,
  record { destination = some (whole 1); new_dir = some partial; old_dir = none; answers = [] },
)
unfolding replace_file make_parent remove_tree write_new run_prepare
left_half = refl
