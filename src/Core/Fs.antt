-- ===== src/Core/Fs.antt =====
-- xray_vps_manager/core/fs.py: the replacement of a directory or of a file. Every call of the
-- system takes one answer from a list, so that a run may fail or be killed at any call.
pub mod Replaced
pub mod File
use xray_vps_manager.Base.{
  if◌then◌else◌, Bool, true, false, Option, none, some, List, [], ◌∷◌, is_some, not, ◌&&◌,
}

-- How much of its effect a call has had when it is cut short.
pub data Effect : Type 0 where
  nothing half all : Effect

-- How a call ends: `raises` is an OSError or Ctrl-C, `dies` is the end of the process.
pub data Answer : Type 0 where
  succeeds : Answer
  raises dies : Effect → Answer

pub data Outcome : Type 0 where
  returned raised died : Outcome

-- A file or a tree: complete, or left half written or half removed.
pub data Tree {ℓ} (A : Type ℓ) : Type ℓ where
  whole : A → Tree A
  partial : Tree A

-- `destination`, `<destination>.new` and `<destination>.old`.
pub data Slot : Type 0 where
  destination new_dir old_dir : Slot

pub record Disk {ℓ} (A : Type ℓ) : Type ℓ where
  pub destination : Option (Tree A)
  pub new_dir : Option (Tree A)
  pub old_dir : Option (Tree A)
  pub answers : List Answer

-- A statement: it returns, raises or is killed, and changes the disk.
abbrev pub Step {ℓ} : Type ℓ → Type ℓ
Step A = Disk A → Outcome × Disk A

-- After a handler has run, the error is raised again.
abbrev pub reraised : Outcome → Outcome
reraised returned = raised
reraised o = o

module _ {ℓ} {A : Type ℓ} where
  abbrev pub at : Slot → Disk A → Option (Tree A)
  at destination d = d.destination
  at new_dir d = d.new_dir
  at old_dir d = d.old_dir

  abbrev pub put_at : Slot → Option (Tree A) → Disk A → Disk A
  put_at destination t d = record d { destination = t }
  put_at new_dir t d = record d { new_dir = t }
  put_at old_dir t d = record d { old_dir = t }

  -- `_exists(path)`
  abbrev pub exists : Slot → Disk A → Bool
  exists slot d = is_some (at slot d)

  abbrev pub answer : Disk A → Answer
  answer d = elim d.answers [ [] ↦ succeeds | a ∷ _ ↦ a ]

  abbrev pub answered : Disk A → Disk A
  answered d = elim d.answers [ [] ↦ d | _ ∷ rest ↦ record d { answers = rest } ]

  abbrev pub skip : Step A
  skip d = (returned, d)

  abbrev pub raise : Step A
  raise d = (raised, d)

  -- One statement after the other.
  abbrev pub then_do : Step A → Step A → Step A
  then_do p q d =
      let (o, d') = p d in
      let after = q d' in elim o [ returned ↦ after | raised ↦ (raised, d') | died ↦ (died, d') ]

  -- `try: p except BaseException: h; raise`
  abbrev pub on_error : Step A → Step A → Step A
  on_error p h d =
      let (o, d') = p d in
      let (o', d'') = h d' in
      elim o [ returned ↦ (returned, d') | raised ↦ (reraised o', d'') | died ↦ (died, d') ]

  abbrev pub when : Bool → Step A → Step A
  when true p d = p d
  when false p d = (returned, d)

  -- A call whose effects on the disk are `effect`.
  unfoldable pub call : (Effect → Disk A → Disk A) → Step A
  call effect d =
      let d' = answered d in
      elim (answer d) [
        | succeeds ↦ (returned, effect all d')
        | raises e ↦ (raised, effect e d')
        | dies e ↦ (died, effect e d')
      ]

  abbrev moved : Slot → Slot → Effect → Disk A → Disk A
  moved from to all d = put_at from none (put_at to (at from d) d)
  moved from to _ d = d

  -- `os.rename` of a directory: it fails where the source is missing or the target is there.
  unfoldable pub rename : Slot → Slot → Step A
  unfolding call
  rename from to d = if exists from d && not (exists to d) then call (moved from to) d else raise d

  -- `os.replace` of a file: it takes the place of the target.
  unfoldable pub replace : Slot → Slot → Step A
  unfolding call
  replace from to d = if exists from d then call (moved from to) d else raise d

  abbrev removed : Slot → Effect → Disk A → Disk A
  removed slot nothing d = d
  removed slot half d = put_at slot (some partial) d
  removed slot all d = put_at slot none d

  -- `_remove_tree(path)`: a missing path needs no call.
  unfoldable pub remove_tree : Slot → Step A
  unfolding call
  remove_tree slot d = if exists slot d then call (removed slot) d else skip d

  abbrev built : A → Effect → Disk A → Disk A
  built content nothing d = d
  built content half d = put_at new_dir (some partial) d
  built content all d = put_at new_dir (some (whole content)) d

  -- `shutil.copytree(source, new_dir)` and `new_file.write_bytes(data)`
  unfoldable pub write_new : A → Step A
  unfolding call
  write_new content = call (built content)

  -- `if prepare is not None: prepare(new_dir)`
  unfoldable pub run_prepare : Option (A → A) → A → Step A
  unfolding call
  run_prepare none content = skip
  run_prepare (some f) content = call (built (f content))

  -- `destination.parent.mkdir(...)` changes none of the three.
  unfoldable pub make_parent : Step A
  unfolding call
  make_parent = call (λ e d. d)

  abbrev pub prepared_content : Option (A → A) → A → A
  prepared_content none content = content
  prepared_content (some f) content = f content

  -- What an interrupted run has left is put in order.
  unfoldable pub clear_leftovers : Step A
  clear_leftovers d =
      then_do (when (exists old_dir d && not (exists destination d)) (rename old_dir destination))
        (then_do (remove_tree new_dir) (remove_tree old_dir)) d

  unfoldable pub build_new : Option (A → A) → A → Step A
  build_new prepare source =
      on_error (then_do (write_new source) (run_prepare prepare source)) (remove_tree new_dir)

  -- The two renames and the removal of the old tree.
  unfoldable pub swap : Step A
  swap d =
      let had_destination = exists destination d in
      then_do (when had_destination (rename destination old_dir))
        (then_do
          (on_error (rename new_dir destination)
            (then_do (when had_destination (rename old_dir destination)) (remove_tree new_dir)))
          (when had_destination (remove_tree old_dir)))
        d

  unfoldable pub replace_directory : Option (A → A) → A → Step A
  replace_directory prepare source =
      then_do make_parent (then_do clear_leftovers (then_do (build_new prepare source) swap))

  -- Here `new_dir` is the hidden file `.<name>.new`.
  unfoldable pub replace_file : Option (A → A) → A → Step A
  replace_file prepare content = then_do make_parent (
      then_do (remove_tree new_dir) (
        on_error
          (then_do (write_new content)
            (then_do (run_prepare prepare content) (replace new_dir destination)))
          (remove_tree new_dir)))
