-- ===== src/Storage/Root/Ends.antt =====
-- Where a path ends in the tree in memory: what runs there, and what it leaves there.
use mathlib.Core.Path.{subst}
use httplock.Base.{
  ◌≡◌, refl, ◌∙◌, sym, ap, false, Bool, ◌&&◌, some, List, [], ◌∷◌, Str, str_eq_refl, Bool-cases, ok,
  Result-cases, inl, inr, arith,
}
use httplock.Storage.Errors.{Res}
use httplock.Storage.Backend.{Backend, Codec}
use httplock.Storage.Tree.{Dir, dir_entry, to_dir, entries, find}
use httplock.Storage.Tree.Laws.{find-put_in}
use package.httplock.Storage.Root.{Root, At, entered, walk, get_dir, load_root, touch, touch_hash}
use package.httplock.Storage.Root.Reach.{
  walk-step, walk-stop, walk-nil, get_dir-loaded, get_dir-not_loaded, get_dir-frozen,
}

-- The path leads through directories in memory, and ends at a directory.
abbrev pub EndsAt : List Str → Dir → Dir → Type 0
EndsAt [] d end = d ≡ end
EndsAt (name ∷ path) d end =
    (h : Str) × (c : Dir) × (find name (entries d) ≡ some (dir_entry h (to_dir c)))
    × EndsAt path c end

module _ (B : Backend) (J : Codec) where
  load_root-there : (s : B.State) (r : Root) (d : Dir) → r.dir ≡ to_dir d → load_root B J s r ≡ ok d
  unfolding load_root
  load_root-there s r d there = rw there

  entered-there :
      (write : Bool) (s : B.State) (name : Str) (d c : Dir) (h : Str)
      → find name (entries d) ≡ some (dir_entry h (to_dir c))
      → entered B J write s name (find name (entries d)) ≡ ok (h, c)
  unfolding entered
  entered-there write s name d c h there = rw there

module _ (B : Backend) (J : Codec) {A : Type 0} where
  -- What a walk does when its path ends at a directory.
  abbrev Walks : List Str → At B J A → B.State → Res A × Dir × B.State → Dir → Type 0
  Walks path k s x end = (x.0 ≡ (k s end).0) × (x.2 ≡ (k s end).2) × EndsAt path x.1 (k s end).1

  Walks-under :
      (write : Bool) (name : Str) (path : List Str) (k : At B J A) (s : B.State) (d c end : Dir)
      (h : Str)
      → entered B J write s name (find name (entries d)) ≡ ok (h, c)
      → Walks path k s (walk B J write path k s c) end
      → Walks (name ∷ path) k s (walk B J write (name ∷ path) k s d) end
  Walks-under write name path k s d c end h found (same, state, ends) =
      subst (λ x. Walks (name ∷ path) k s x end)
        (sym (walk-step B J write name path k s d h c found))
        (
          same,
          state,
          (
            touch_hash B J write h,
            (walk B J write path k s c).1,
            rw (find-put_in, str_eq_refl),
            ends,
          ),
        )

  walk-EndsAt :
      (write : Bool) (path : List Str) (k : At B J A) (s : B.State) (d end : Dir)
      → EndsAt path d end
      → Walks path k s (walk B J write path k s d) (touch B J write end)
  walk-EndsAt write [] k s d end ends =
      let e = walk-nil B J write k s d ∙ ap (λ x. k s (touch B J write x)) ends in
      (ap (λ x. x.0) e, ap (λ x. x.2) e, ap (λ x. x.1) e)
  walk-EndsAt write (name ∷ path) k s d end (h, c, there, ends) =
      Walks-under write name path k s d c (touch B J write end) h
        (entered-there B J write s name d c h there) (walk-EndsAt write path k s c end ends)

  walk-ok :
      (write : Bool) (path : List Str) (k : At B J A) (s : B.State) (d : Dir) (a : A)
      → (walk B J write path k s d).0 ≡ ok a
      → (end : Dir) × Walks path k s (walk B J write path k s d) end
  walk-ok write [] k s d a done =
      let e = walk-nil B J write k s d in
      (touch B J write d, (ap (λ x. x.0) e, ap (λ x. x.2) e, ap (λ x. x.1) e))
  walk-ok write (name ∷ path) k s d a done =
      elim (Result-cases (entered B J write s name (find name (entries d)))) [
        | inr (e, failed) ↦
            absurd (cc (ap (λ x. x.0) (walk-stop B J write name path k s d e failed), done))
        | inl ((h, c), found) ↦
            let inner = ap (λ x. x.0) (walk-step B J write name path k s d h c found) in
            let (end, walks) = walk-ok write path k s c a (sym inner ∙ done) in
            (end, Walks-under write name path k s d c end h found walks)
      ]

-- The root is in memory along the path, which ends at a directory.
abbrev pub RootEndsAt : List Str → Root → Dir → Type 0
RootEndsAt path r end = (d : Dir) × (r.dir ≡ to_dir d) × EndsAt path d end

module _ (B : Backend) (J : Codec) {A : Type 0} where
  -- What `getDir` does when the path ends at a directory.
  abbrev pub Goes : List Str → At B J A → B.State → Root → Res A × Root × B.State → Dir → Type 0
  Goes path k s r x end =
      (x.0 ≡ (k s end).0)
      × (x.2 ≡ (k s end).2)
      × (x.1.readonly ≡ r.readonly)
      × RootEndsAt path x.1 (k s end).1

  Goes-loaded :
      (write : Bool) (path : List Str) (k : At B J A) (s : B.State) (r : Root) (d end : Dir)
      → (r.readonly && write) ≡ false
      → load_root B J s r ≡ ok d
      → Walks B J path k s (walk B J write path k s d) end
      → Goes path k s r (get_dir B J write path k s r) end
  Goes-loaded write path k s r d end may loaded (same, state, ends) =
      subst (λ x. Goes path k s r x end) (sym (get_dir-loaded B J write path k s r d may loaded))
        (same, state, refl, ((walk B J write path k s d).1, refl, ends))

  pub get_dir-RootEndsAt :
      (write : Bool) (path : List Str) (k : At B J A) (s : B.State) (r : Root) (end : Dir)
      → (r.readonly && write) ≡ false
      → RootEndsAt path r end
      → Goes path k s r (get_dir B J write path k s r) (touch B J write end)
  get_dir-RootEndsAt write path k s r end may (d, there, ends) =
      Goes-loaded write path k s r d (touch B J write end) may (load_root-there B J s r d there)
        (walk-EndsAt B J write path k s d end ends)

  pub get_dir-ok :
      (write : Bool) (path : List Str) (k : At B J A) (s : B.State) (r : Root) (a : A)
      → (get_dir B J write path k s r).0 ≡ ok a
      → (end : Dir) × Goes path k s r (get_dir B J write path k s r) end
  get_dir-ok write path k s r a done = elim (Bool-cases (r.readonly && write)) [
    | inl frozen ↦ absurd (cc (ap (λ x. x.0) (get_dir-frozen B J write path k s r frozen), done))
    | inr may ↦ elim (Result-cases (load_root B J s r)) [
      | inr (e, failed) ↦
          absurd (ground (arith, get_dir-not_loaded B J write path k s r e failed, done, may))
      | inl (d, loaded) ↦
          let inner = ap (λ x. x.0) (get_dir-loaded B J write path k s r d may loaded) in
          let (end, walks) = walk-ok B J write path k s d a (sym inner ∙ done) in
          (end, Goes-loaded write path k s r d end may loaded walks)
    ]
  ]
