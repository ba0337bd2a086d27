-- ===== src/Core/Fs/File.antt =====
-- What `replace_file` of fs.py leaves at its destination, however the run ends.
use xray_vps_manager.Base.{◌≡◌, refl, ◌⊎◌, Option, none, some, arith}
use xray_vps_manager.Core.Fs.{
  Tree, whole, Disk, then_do, on_error, remove_tree, write_new, run_prepare, make_parent, replace,
  replace_file, prepared_content, destination, new_dir,
}
use xray_vps_manager.Core.Fs.Replaced.{Ends, then_do-Ends, on_error-Ends}

module _ {ℓ} {A : Type ℓ} (start : Option (Tree A)) (content : A) where
  abbrev Same : Disk A → Type ℓ
  Same d = d.destination ≡ start

  -- The destination is as before, or it is the new content.
  abbrev pub Either : Disk A → Type ℓ
  Either d = (d.destination ≡ start) ⊎ (d.destination ≡ some (whole content))

  -- The hidden copy holds a whole content.
  abbrev Written : A → Disk A → Type ℓ
  Written first d = Same d × (d.new_dir ≡ some (whole first))

  -- The destination is the new content, and no copy is left.
  abbrev pub Swapped : Disk A → Type ℓ
  Swapped d = (d.destination ≡ some (whole content)) × (d.new_dir ≡ none)

  make_parent-Same : (d : Disk A) → Same d → Ends Same Either (make_parent d)
  unfolding make_parent
  make_parent-Same d h = ground arith

  remove_new-Same : (d : Disk A) → Same d → Ends Same Either (remove_tree new_dir d)
  unfolding remove_tree
  remove_new-Same d h = ground arith

  remove_new-Either : (d : Disk A) → Either d → Ends Either Either (remove_tree new_dir d)
  unfolding remove_tree
  remove_new-Either d h = ground arith

  write_new-Written :
      (first : A) (d : Disk A) → Same d → Ends (Written first) Either (write_new first d)
  unfolding write_new
  write_new-Written first d h = ground arith

  run_prepare-Written :
      (prepare : Option (A → A)) (first : A) (d : Disk A)
      → prepared_content prepare first ≡ content
      → Written first d
      → Ends (Written content) Either (run_prepare prepare first d)
  unfolding run_prepare
  run_prepare-Written none first d e h = ground arith
  run_prepare-Written (some f) first d e h = ground arith

  replace-Swapped :
      (d : Disk A) → Written content d → Ends Swapped Either (replace new_dir destination d)
  unfolding replace
  replace-Swapped d h = ground arith

  replace_file-Ends :
      (prepare : Option (A → A)) (bytes : A) (d : Disk A)
      → prepared_content prepare bytes ≡ content
      → Same d
      → Ends Swapped Either (replace_file prepare bytes d)
  unfolding replace_file
  replace_file-Ends prepare bytes d e h =
      let put = replace new_dir destination in
      let body = then_do (write_new bytes) (then_do (run_prepare prepare bytes) put) in
      let guarded = on_error body (remove_tree new_dir) in
      then_do-Ends Same Swapped Either make_parent (then_do (remove_tree new_dir) guarded) d
        (make_parent-Same d h)
        λ d₁ h₁.
          then_do-Ends Same Swapped Either (remove_tree new_dir) guarded d₁ (remove_new-Same d₁ h₁)
            λ d₂ h₂.
              on_error-Ends Swapped Either body (remove_tree new_dir) d₂
                (then_do-Ends (Written bytes) Swapped Either (write_new bytes)
                  (then_do (run_prepare prepare bytes) put) d₂ (write_new-Written bytes d₂ h₂)
                  λ d₃ h₃.
                    then_do-Ends (Written content) Swapped Either (run_prepare prepare bytes) put d₃
                      (run_prepare-Written prepare bytes d₃ e h₃) replace-Swapped)
                remove_new-Either

-- If `replace_file` returns, the destination is the prepared content and no hidden copy is left.
-- However else it ends, failed or killed at any call, the destination is as it was or is the whole
-- prepared content.
pub replace_file-Swapped {ℓ} :
    {A : Type ℓ} (prepare : Option (A → A)) (bytes : A) (d : Disk A)
    → let content = prepared_content prepare bytes in
      Ends
        (Swapped d.destination content)
        (Either d.destination content)
        (replace_file prepare bytes d)
replace_file-Swapped prepare bytes d =
    replace_file-Ends d.destination (prepared_content prepare bytes) prepare bytes d refl refl
