-- ===== src/Storage/Root/Reach.antt =====
-- Following a path to write, and following it again to read.
use mathlib.Core.Path.{subst}
use httplock.Base.{
  ◌≡◌, refl, ◌∙◌, sym, ap, true, false, Bool, ◌&&◌, inl, inr, List, [], ◌∷◌, Str, str_eq_refl,
  Bool-cases, ok, err, Result-cases, arith, if◌then◌else◌,
}
use httplock.Storage.Errors.{Error, read_only}
use httplock.Storage.Backend.{Backend, Codec}
use httplock.Storage.Tree.{Dir, dir_entry, to_dir, entries, put_in, find, clear_hash}
use httplock.Storage.Tree.Laws.{find-put_in}
use package.httplock.Storage.Root.{
  Root, At, entered, walk, get_dir, load_root, write, touch, touch_hash,
}

module _ (B : Backend) (J : Codec) {A : Type 0} where
  -- One round of the loop over the names.
  pub walk-step :
      (write : Bool) (name : Str) (path : List Str) (k : At B J A) (s : B.State) (d : Dir) (h : Str)
      (c : Dir)
      → entered B J write s name (find name (entries d)) ≡ ok (h, c)
      → walk B J write (name ∷ path) k s d ≡ (
        (walk B J write path k s c).0,
        put_in name
            (dir_entry (touch_hash B J write h) (to_dir (walk B J write path k s c).1))
            (touch B J write d),
        (walk B J write path k s c).2,
      )
  unfolding walk
  walk-step write name path k s d h c found = rw (found, walk)

  pub walk-stop :
      (write : Bool) (name : Str) (path : List Str) (k : At B J A) (s : B.State) (d : Dir)
      (e : Error)
      → entered B J write s name (find name (entries d)) ≡ err e
      → walk B J write (name ∷ path) k s d ≡ (err e, touch B J write d, s)
  unfolding walk
  walk-stop write name path k s d e failed = rw (failed, walk)

  -- A walk that writes leaves behind what its continuation left at the end of the path, where a
  -- later walk that reads finds it.
  pub record Reached (path : List Str) (k : At B J A) (s : B.State) (d' : Dir) (a : A) (t : B.State)
      : Type 1 where
    pub at : Dir
    pub left : Dir
    pub ran : k s at ≡ (ok a, left, t)
    pub again :
        {C : Type 0} (k' : At B J C) (u : B.State) → (walk B J false path k' u d').0 ≡ (k' u left).0

module _ (B : Backend) (J : Codec) where
  -- The entry that a walk has written leads to the directory that it came back with.
  pub entered-put :
      (write : Bool) (u : B.State) (name : Str) (h : Str) (c d : Dir)
      → entered B J write u name (find name (entries (put_in name (dir_entry h (to_dir c)) d)))
        ≡ ok (h, c)
  unfolding entered
  entered-put write u name h c d = rw (find-put_in, str_eq_refl)

  pub walk-nil :
      {A : Type 0} (write : Bool) (k : At B J A) (s : B.State) (d : Dir)
      → walk B J write [] k s d ≡ k s (touch B J write d)
  unfolding walk
  walk-nil write k s d = refl

  walk-again :
      {C : Type 0} (name : Str) (path : List Str) (k : At B J C) (u : B.State) (h : Str) (c d : Dir)
      → (walk B J false (name ∷ path) k u (put_in name (dir_entry h (to_dir c)) d)).0
        ≡ (walk B J false path k u c).0
  walk-again name path k u h c d =
      ap (λ x. x.0) (walk-step B J false name path k u _ h c (entered-put false u name h c d))

module _ (B : Backend) (J : Codec) {A : Type 0} where
  walk-Reached :
      (path : List Str) (k : At B J A) (s : B.State) (d d' : Dir) (a : A) (t : B.State)
      → walk B J true path k s d ≡ (ok a, d', t)
      → Reached B J path k s d' a t
  walk-Reached [] k s d d' a t done = record {
    at = touch B J true d;
    left = d';
    ran = sym (walk-nil B J true k s d) ∙ done;
    again = λ k' u. ap (λ x. x.0) (walk-nil B J false k' u d');
  }
  walk-Reached (name ∷ path) k s d d' a t done =
      elim (Result-cases (entered B J true s name (find name (entries d)))) [
        | inr (e, failed) ↦ absurd (cc (walk-stop B J true name path k s d e failed, done))
        | inl ((h, c), found) ↦
            let X = walk B J true path k s c in
            let e = sym (walk-step B J true name path k s d h c found) ∙ done in
            let ih = walk-Reached path k s c X.1 a t (λ i. ((e i).0, X.1, (e i).2)) in
            record {
              at = ih.at;
              left = ih.left;
              ran = ih.ran;
              again = λ k' u.
                  subst (λ x. (walk B J false (name ∷ path) k' u x).0 ≡ (k' u ih.left).0)
                    (λ i. (e i).1)
                    (walk-again B J name path k' u [] X.1 (clear_hash d) ∙ ih.again k' u);
            }
      ]

module _ (B : Backend) (J : Codec) {A : Type 0} where
  -- `getDir` once the root's directory is known.
  pub get_dir-loaded :
      (write : Bool) (path : List Str) (k : At B J A) (s : B.State) (r : Root) (d : Dir)
      → (r.readonly && write) ≡ false
      → load_root B J s r ≡ ok d
      → get_dir B J write path k s r ≡ (
        (walk B J write path k s d).0,
        record r { hash = touch_hash B J write r.hash; dir = to_dir (walk B J write path k s d).1 },
        (walk B J write path k s d).2,
      )
  unfolding get_dir
  get_dir-loaded write path k s r d may loaded = rw (may, loaded)

  pub get_dir-not_loaded :
      (write : Bool) (path : List Str) (k : At B J A) (s : B.State) (r : Root) (e : Error)
      → load_root B J s r ≡ err e
      → (get_dir B J write path k s r).0 ≡ (if r.readonly && write then err read_only else err e)
  unfolding get_dir
  get_dir-not_loaded write path k s r e failed = elim (Bool-cases (r.readonly && write)) [
    | inl frozen ↦ rw frozen
    | inr may ↦ rw (may, failed)
  ]

  pub get_dir-frozen :
      (write : Bool) (path : List Str) (k : At B J A) (s : B.State) (r : Root)
      → (r.readonly && write) ≡ true
      → get_dir B J write path k s r ≡ (err read_only, r, s)
  unfolding get_dir
  get_dir-frozen write path k s r frozen = rw frozen

  -- The directory that `getDir` went to in order to write, what was left there, and that a later
  -- `getDir` that reads finds it.
  pub record RootReached (path : List Str) (k : At B J A) (s : B.State) (r' : Root) (a : A)
      (t : B.State) : Type 1 where
    pub at : Dir
    pub left : Dir
    pub ran : k s at ≡ (ok a, left, t)
    pub again :
        {C : Type 0} (k' : At B J C) (u : B.State)
        → (get_dir B J false path k' u r').0 ≡ (k' u left).0

pub &&-false : (b : Bool) → (b && false) ≡ false
&&-false true = refl
&&-false false = refl

module _ (B : Backend) (J : Codec) where
  get_dir-again :
      {C : Type 0} (path : List Str) (k : At B J C) (u : B.State) (r : Root) (h : Str) (d : Dir)
      → (get_dir B J false path k u (record r { hash = h; dir = to_dir d })).0
        ≡ (walk B J false path k u d).0
  unfolding load_root
  get_dir-again path k u r h d =
      ap (λ x. x.0)
        (get_dir-loaded B J false path k u (record r { hash = h; dir = to_dir d }) d
          (&&-false r.readonly) refl)

module _ (B : Backend) (J : Codec) {A : Type 0} where
  get_dir-walked :
      (path : List Str) (k : At B J A) (s : B.State) (r r' : Root) (d : Dir) (a : A) (t : B.State)
      → get_dir B J true path k s r ≡ (ok a, r', t)
      → (r.readonly && true) ≡ false
      → load_root B J s r ≡ ok d
      → RootReached B J path k s r' a t
  get_dir-walked path k s r r' d a t done may loaded =
      let X = walk B J true path k s d in
      let e = sym (get_dir-loaded B J true path k s r d may loaded) ∙ done in
      let w = walk-Reached B J path k s d X.1 a t (λ i. ((e i).0, X.1, (e i).2)) in
      record {
        at = w.at;
        left = w.left;
        ran = w.ran;
        again = λ k' u.
            subst (λ x. (get_dir B J false path k' u x).0 ≡ (k' u w.left).0) (λ i. (e i).1)
              (get_dir-again B J path k' u r [] X.1 ∙ w.again k' u);
      }

  pub get_dir-reached :
      (path : List Str) (k : At B J A) (s : B.State) (r r' : Root) (a : A) (t : B.State)
      → get_dir B J true path k s r ≡ (ok a, r', t)
      → RootReached B J path k s r' a t
  get_dir-reached path k s r r' a t done = elim (Bool-cases (r.readonly && true)) [
    | inl frozen ↦ absurd (cc (get_dir-frozen B J true path k s r frozen, done))
    | inr may ↦ elim (Result-cases (load_root B J s r)) [
      | inl (d, loaded) ↦ get_dir-walked path k s r r' d a t done may loaded
      | inr (e, failed) ↦
          absurd (ground (arith, get_dir-not_loaded B J true path k s r e failed, done, may))
    ]
  ]
