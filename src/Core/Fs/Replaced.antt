-- ===== src/Core/Fs/Replaced.antt =====
-- What `replace_directory` of fs.py leaves at its destination, however the run ends.
use xray_vps_manager.Base.{
  inl, refl, true, Bool, is_some, ◌||◌, not, false, ◌&&◌, ◌⊎◌, ◌≡◌, Option, none, some, arith,
}
use xray_vps_manager.Core.Fs.{
  replace_directory, raised, died, prepared_content, build_new, run_prepare, swap, clear_leftovers,
  write_new, new_dir, exists, make_parent, remove_tree, when, whole, Outcome, returned, Tree, Disk,
  Step, then_do, on_error, rename, destination, old_dir,
}

module _ {ℓ} {A : Type ℓ} where
  -- The tree that is served: the destination or, where that is missing, the tree set aside.
  abbrev pub served : Disk A → Option (Tree A)
  served d = elim d.destination [ some t ↦ some t | none ↦ d.old_dir ]

  -- The result of a step: `Q` holds of the disk if it returned, else `E`.
  abbrev pub Ends : (Disk A → Type ℓ) → (Disk A → Type ℓ) → Outcome × Disk A → Type ℓ
  Ends Q E (returned, d) = Q d
  Ends Q E (_, d) = E d

  pub then_do-Ends :
      (Q R E : Disk A → Type ℓ) (p q : Step A) (d : Disk A)
      → Ends Q E (p d)
      → ((d' : Disk A) → Q d' → Ends R E (q d'))
      → Ends R E (then_do p q d)
  then_do-Ends Q R E p q d h k = ground (arith, k (p d).1)

  pub on_error-Ends :
      (Q E : Disk A → Type ℓ) (p h : Step A) (d : Disk A)
      → Ends Q E (p d)
      → ((d' : Disk A) → E d' → Ends E E (h d'))
      → Ends Q E (on_error p h d)
  on_error-Ends Q E p h d k l = ground (arith, l (p d).1)

  pub Ends-weaker :
      (Q E F : Disk A → Type ℓ) (r : Outcome × Disk A)
      → Ends Q E r
      → ((d : Disk A) → E d → F d)
      → Ends Q F r
  Ends-weaker Q E F (returned, d) h k = h
  Ends-weaker Q E F (raised, d) h k = k d h
  Ends-weaker Q E F (died, d) h k = k d h

  pub always-Ends : (E : Disk A → Type ℓ) (r : Outcome × Disk A) → E r.1 → Ends E E r
  always-Ends E (returned, d) h = h
  always-Ends E (raised, d) h = h
  always-Ends E (died, d) h = h

  -- Putting the old tree back, if it can be, does not change what is served.
  served-rename_old :
      (b : Bool) (d : Disk A) → served (when b (rename old_dir destination) d).1 ≡ served d
  unfolding rename
  served-rename_old true d = ground arith
  served-rename_old false d = refl

  served-remove_new : (d : Disk A) → served (remove_tree new_dir d).1 ≡ served d
  unfolding remove_tree
  served-remove_new d = ground arith

  module _ (start : Option (Tree A)) (content : A) where
    abbrev Kept : Disk A → Type ℓ
    Kept d = served d ≡ start

    -- What was served, or the new content.
    abbrev pub Safe : Disk A → Type ℓ
    Safe d = (served d ≡ start) ⊎ (served d ≡ some (whole content))

    -- The destination is as at the start and nothing is set aside.
    abbrev Cleared : Disk A → Type ℓ
    Cleared d = (d.destination ≡ start) × (d.old_dir ≡ none)

    -- The new tree is ready besides.
    abbrev Built : Disk A → Type ℓ
    Built d = Cleared d × (d.new_dir ≡ some (whole content))

    -- The old tree is set aside and the new one is ready.
    abbrev Ready : Disk A → Type ℓ
    Ready d = (d.destination ≡ none) × (d.old_dir ≡ start) × (d.new_dir ≡ some (whole content))

    -- The new tree is in its place.
    abbrev Placed : Disk A → Type ℓ
    Placed d = (d.destination ≡ some (whole content)) × (d.old_dir ≡ start) × (d.new_dir ≡ none)

    -- The new tree is in its place, and nothing else is left.
    abbrev pub Replaced : Disk A → Type ℓ
    Replaced d = (d.destination ≡ some (whole content)) × (d.old_dir ≡ none) × (d.new_dir ≡ none)

    abbrev Recovered : Disk A → Type ℓ
    Recovered d = Kept d × ((exists destination d || not (exists old_dir d)) ≡ true)

    make_parent-Kept : (d : Disk A) → Kept d → Ends Kept Kept (make_parent d)
    unfolding make_parent
    make_parent-Kept d h = ground arith

    recover-Recovered :
        (d : Disk A)
        → Kept d
        → Ends Recovered Kept
            (when (exists old_dir d && not (exists destination d)) (rename old_dir destination) d)
    unfolding rename
    recover-Recovered d h = ground arith

    remove_new-Recovered : (d : Disk A) → Recovered d → Ends Recovered Kept (remove_tree new_dir d)
    unfolding remove_tree
    remove_new-Recovered d (h, k) = ground arith

    remove_old-Cleared : (d : Disk A) → Recovered d → Ends Cleared Kept (remove_tree old_dir d)
    unfolding remove_tree
    remove_old-Cleared d (h, k) = ground arith

    clear_leftovers-Cleared : (d : Disk A) → Kept d → Ends Cleared Kept (clear_leftovers d)
    unfolding clear_leftovers
    clear_leftovers-Cleared d h =
        then_do-Ends Recovered Cleared Kept
          (when (exists old_dir d && not (exists destination d)) (rename old_dir destination))
          (then_do (remove_tree new_dir) (remove_tree old_dir)) d (recover-Recovered d h)
          λ d' h'.
            then_do-Ends Recovered Cleared Kept (remove_tree new_dir) (remove_tree old_dir) d'
              (remove_new-Recovered d' h') remove_old-Cleared

    abbrev Written : A → Disk A → Type ℓ
    Written first d = Cleared d × (d.new_dir ≡ some (whole first))

    write_new-Written :
        (d : Disk A) (first : A) → Cleared d → Ends (Written first) Cleared (write_new first d)
    unfolding write_new
    write_new-Written d first h = ground arith

    run_prepare-Built :
        (prepare : Option (A → A)) (first : A) (d : Disk A)
        → prepared_content prepare first ≡ content
        → Written first d
        → Ends Built Cleared (run_prepare prepare first d)
    unfolding run_prepare
    run_prepare-Built none first d e h = ground arith
    run_prepare-Built (some f) first d e h = ground arith

    remove_new-Cleared : (d : Disk A) → Cleared d → Ends Cleared Cleared (remove_tree new_dir d)
    unfolding remove_tree
    remove_new-Cleared d h = ground arith

    set_aside-Ready :
        (d : Disk A)
        → Built d
        → Ends Ready Kept (when (exists destination d) (rename destination old_dir) d)
    unfolding rename
    set_aside-Ready d h = ground arith

    rename_new-Placed : (d : Disk A) → Ready d → Ends Placed Safe (rename new_dir destination d)
    unfolding rename
    rename_new-Placed d h = ground arith

    roll_back-Safe :
        (had_destination : Bool) (d : Disk A)
        → Safe d
        → Ends Safe Safe
            (then_do (when had_destination (rename old_dir destination)) (remove_tree new_dir) d)
    roll_back-Safe had_destination d h =
        let back = when had_destination (rename old_dir destination) in
        then_do-Ends Safe Safe Safe back (remove_tree new_dir) d
          (always-Ends Safe (back d) (rw (served-rename_old had_destination d) h))
          λ d' h'. always-Ends Safe (remove_tree new_dir d') (rw (served-remove_new d') h')

    Cleared-Kept : (d : Disk A) → Cleared d → Kept d
    Cleared-Kept d h = ground arith

    remove_old-Replaced :
        (d : Disk A) → Placed d → Ends Replaced Safe (when (is_some start) (remove_tree old_dir) d)
    unfolding remove_tree
    remove_old-Replaced d h = ground arith

    build_new-Built :
        (prepare : Option (A → A)) (source : A) (d : Disk A)
        → prepared_content prepare source ≡ content
        → Cleared d
        → Ends Built Cleared (build_new prepare source d)
    unfolding build_new
    build_new-Built prepare source d e h =
        on_error-Ends Built Cleared (then_do (write_new source) (run_prepare prepare source))
          (remove_tree new_dir) d
          (then_do-Ends (Written source) Built Cleared (write_new source)
            (run_prepare prepare source) d (write_new-Written d source h)
            λ d' h'. run_prepare-Built prepare source d' e h')
          remove_new-Cleared

    swap-Replaced : (d : Disk A) → Built d → Ends Replaced Safe (swap d)
    unfolding swap
    swap-Replaced d h =
        let had = exists destination d in
        let had_start : had ≡ is_some start = ground arith in
        let place =
          on_error (rename new_dir destination)
            (then_do (when had (rename old_dir destination)) (remove_tree new_dir)) in
        then_do-Ends Ready Replaced Safe (when had (rename destination old_dir))
          (then_do place (when had (remove_tree old_dir))) d
          (Ends-weaker Ready Kept Safe (when had (rename destination old_dir) d)
            (set_aside-Ready d h) λ d' k. inl k)
          λ d' h'.
            then_do-Ends Placed Replaced Safe place (when had (remove_tree old_dir)) d'
              (on_error-Ends Placed Safe (rename new_dir destination)
                (then_do (when had (rename old_dir destination)) (remove_tree new_dir)) d'
                (rename_new-Placed d' h') (roll_back-Safe had))
              λ d'' h''. rw had_start (remove_old-Replaced d'' h'')

  -- If `replace_directory` returns, the destination is the prepared copy of the source and neither
  -- `.new` nor `.old` is left. However else it ends, killed at any call or failed at any call and at
  -- any call of its handlers, the destination or, where that is missing, `.old` is the tree that was
  -- so served before, or is the complete copy.
  pub replace_directory-Replaced :
      (prepare : Option (A → A)) (source : A) (d : Disk A)
      → let content = prepared_content prepare source in
        Ends
          (Replaced (served d) content)
          (Safe (served d) content)
          (replace_directory prepare source d)
  unfolding replace_directory
  replace_directory-Replaced prepare source d =
      let content = prepared_content prepare source in
      let start = served d in
      let K = Kept start content in
      let S = Safe start content in
      let C = Cleared start content in
      let B = Built start content in
      let R = Replaced start content in
      let finish = then_do (build_new prepare source) swap in
      then_do-Ends K R S make_parent (then_do clear_leftovers finish) d
        (Ends-weaker K K S (make_parent d) (make_parent-Kept start content d refl) λ e h. inl h)
        λ d₁ h₁.
          then_do-Ends C R S clear_leftovers finish d₁
            (Ends-weaker C K S (clear_leftovers d₁) (clear_leftovers-Cleared start content d₁ h₁)
              λ e h. inl h)
            λ d₂ h₂.
              then_do-Ends B R S (build_new prepare source) swap d₂
                (Ends-weaker B C S (build_new prepare source d₂)
                  (build_new-Built start content prepare source d₂ refl h₂)
                  λ e h. inl (Cleared-Kept start content e h))
                (swap-Replaced start content)
