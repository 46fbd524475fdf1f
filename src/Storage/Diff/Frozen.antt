-- ===== src/Storage/Diff/Frozen.antt =====
-- What DiffRoots leaves alone of the two roots: a root that is read-only keeps its hash.
use httplock.Base.{
  ℕ, zero, suc, ◌≡◌, refl, Option, List, [], ◌∷◌, Str, ok, err, arith, Result-cases, Bool, true,
  if◌then◌else◌, false, ◌++◌, inl, inr,
}
use httplock.Storage.Errors.{Error, Res, Status}
use httplock.Storage.Backend.{Backend, Codec}
use httplock.Storage.Tree.{Dir, DirRef, to_dir, no_dir}
use httplock.Storage.Root.{Root, load_root}
use httplock.Storage.Root.Hash.{hash_dir}
use httplock.Storage.Root.Frozen.{IsKept, IsKept-trans, IsKept-refl}
use package.httplock.Storage.Diff.{
  DiffIter, DiffEntry, DiffReport, Frame, Advance, failed, moved, eof, Compared, finish, continue,
  next, after_first, after_second, after_both, side, first, second, both, compare_turn,
  compare_loop, root_of, Side, cur_path, compare_files, deleted, added, new_diff_iter,
  require_root_hash, name_hashed, hash_root, compare_roots, hash_second, hash_first, diff_roots,
}
use package.httplock.Storage.Diff.Rooted.{Same, Same-trans, Same-IsKept, next-Same}

abbrev first_of : Compared → DiffIter
first_of (finish e es a b) = a
first_of (continue es a b) = a

abbrev second_of : Compared → DiffIter
second_of (finish e es a b) = b
second_of (continue es a b) = b

module _ (B : Backend) (J : Codec) where
  path-Same :
      (r : Root) (h : Str) (frames : List Frame)
      → Same r (root_of B J (record { r = r; frames = frames; cur_file_hash = h }))
  path-Same r h [] = (refl, refl)
  path-Same r h (f ∷ fs) = (refl, refl)

  root_of-Same : (r : Root) (di : DiffIter) → Same r di.r → Same r (root_of B J di)
  root_of-Same r di same =
      Same-trans r di.r (root_of B J di) same (path-Same di.r di.cur_file_hash di.frames)

  -- The roots under the two iterators that a turn leaves.
  abbrev Both : Root → Root → Compared → Type 0
  Both r q c = Same r (first_of c).r × Same q (second_of c).r

  after_first-Same :
      (r q : Root) (acc : List DiffEntry) (x : Advance × DiffIter) (b : DiffIter)
      → Same r x.1.r
      → Same q b.r
      → Both r q (after_first acc x b)
  unfolding after_first
  after_first-Same r q acc (failed e, a) b here there = (here, there)
  after_first-Same r q acc (moved p, a) b here there = (here, there)
  after_first-Same r q acc (eof, a) b here there = (here, there)

  after_second-Same :
      (r q : Root) (acc : List DiffEntry) (a : DiffIter) (y : Advance × DiffIter)
      → Same r a.r
      → Same q y.1.r
      → Both r q (after_second acc a y)
  unfolding after_second
  after_second-Same r q acc a (failed e, b) here there = (here, there)
  after_second-Same r q acc a (moved p, b) here there = (here, there)
  after_second-Same r q acc a (eof, b) here there = (here, there)

  after_both-Same :
      (r q : Root) (acc : List DiffEntry) (x y : Advance × DiffIter) (b : DiffIter)
      → Same r x.1.r
      → Same q y.1.r
      → Same q b.r
      → Both r q (after_both acc x y b)
  unfolding after_both
  after_both-Same r q acc (failed e, a) (y, b') b here there old = (here, old)
  after_both-Same r q acc (moved p, a) (failed e, b') b here there old = (here, there)
  after_both-Same r q acc (eof, a) (failed e, b') b here there old = (here, there)
  after_both-Same r q acc (moved p, a) (moved p', b') b here there old = (here, there)
  after_both-Same r q acc (moved p, a) (eof, b') b here there old = (here, there)
  after_both-Same r q acc (eof, a) (moved p', b') b here there old = (here, there)
  after_both-Same r q acc (eof, a) (eof, b') b here there old = (here, there)

  abbrev compared : ℕ → B.State → List DiffEntry → DiffIter → DiffIter → Side → Compared
  compared n s acc a b x = elim x [
    | first ↦ after_first (acc ++ (deleted (cur_path a) a.cur_file_hash ∷ [])) (next B J n s a) b
    | second ↦ after_second (acc ++ (added (cur_path b) b.cur_file_hash ∷ [])) a (next B J n s b)
    | both ↦
        after_both (acc ++ compare_files (cur_path a) a.cur_file_hash b.cur_file_hash)
          (next B J n s a) (next B J n s b) b
  ]

  compared-Same :
      (n : ℕ) (s : B.State) (acc : List DiffEntry) (a b : DiffIter) (r q : Root) (x : Side)
      → Same r a.r
      → Same q b.r
      → Both r q (compared n s acc a b x)
  compared-Same n s acc a b r q x here there =
      let moved_a = Same-trans r a.r (next B J n s a).1.r here (next-Same B J n s a) in
      let moved_b = Same-trans q b.r (next B J n s b).1.r there (next-Same B J n s b) in
      elim x as (λ y. Both r q (compared n s acc a b y)) [
        | first ↦ after_first-Same r q _ (next B J n s a) b moved_a there
        | second ↦ after_second-Same r q _ a (next B J n s b) here moved_b
        | both ↦ after_both-Same r q _ (next B J n s a) (next B J n s b) b moved_a moved_b there
      ]

  compare_turn-Same :
      (n : ℕ) (s : B.State) (acc : List DiffEntry) (a b : DiffIter) (r q : Root)
      → Same r a.r
      → Same q b.r
      → Both r q (compare_turn B J n s acc a b)
  unfolding compare_turn
  compare_turn-Same n s acc a b r q here there =
      compared-Same n s acc a b r q (side (cur_path a) (cur_path b)) here there

  abbrev Loop : Type 0
  Loop = Option Error × List DiffEntry × DiffIter × DiffIter

  abbrev went_on : ℕ → ℕ → B.State → Compared → Loop
  went_on m n s c = elim c [
    | finish e acc a b ↦ (e, acc, a, b)
    | continue acc a b ↦ compare_loop B J m n s acc a b
  ]

  went_on-Same :
      (m n : ℕ) (s : B.State) (r q : Root) (c : Compared)
      → ((acc : List DiffEntry) (a b : DiffIter)
          → Same r a.r
          → Same q b.r
          → Same r (compare_loop B J m n s acc a b).2.r
            × Same q (compare_loop B J m n s acc a b).3.r)
      → Both r q c
      → Same r (went_on m n s c).2.r × Same q (went_on m n s c).3.r
  went_on-Same m n s r q (finish e acc a b) after same = same
  went_on-Same m n s r q (continue acc a b) after same = after acc a b same.0 same.1

  loop-Same :
      (m n : ℕ) (s : B.State) (acc : List DiffEntry) (a b : DiffIter) (r q : Root)
      → Same r a.r
      → Same q b.r
      → Same r (compare_loop B J m n s acc a b).2.r × Same q (compare_loop B J m n s acc a b).3.r
  unfolding compare_loop
  loop-Same zero n s acc a b r q here there = (here, there)
  loop-Same (suc m) n s acc a b r q here there =
      went_on-Same m n s r q (compare_turn B J n s acc a b)
        (λ acc' a' b' x y. loop-Same m n s acc' a' b' r q x y)
        (compare_turn-Same n s acc a b r q here there)

  -- The two roots that a comparison leaves.
  abbrev pub BothKept : Root → Root → Option Error × DiffReport × Root × Root × B.State → Type 0
  BothKept r q x = IsKept r x.2 × IsKept q x.3

  new_diff_iter-Same :
      (s : B.State) (r : Root) (a : DiffIter) → new_diff_iter B J s r ≡ ok a → Same r a.r
  unfolding new_diff_iter
  new_diff_iter-Same s r a done = elim (Result-cases (load_root B J s r)) [
    | inr (e, why) ↦ absurd (ground arith)
    | inl (d, loaded) ↦ ground arith
  ]

  compare_roots-BothKept :
      (m n : ℕ) (dr : DiffReport) (s : B.State) (r q : Root)
      → BothKept r q (compare_roots B J m n dr s r q)
  unfolding compare_roots
  compare_roots-BothKept m n dr s r q = elim (Result-cases (new_diff_iter B J s r)) [
    | inr (e, why) ↦ rw (why, compare_roots) (IsKept-refl r, IsKept-refl q)
    | inl (a, one) ↦
        let here = new_diff_iter-Same s r a one in
        elim (Result-cases (new_diff_iter B J s q)) [
          | inr (e, why) ↦
              rw (one, compare_roots)
                (rw (why) (Same-IsKept r (root_of B J a) (root_of-Same r a here), IsKept-refl q))
          | inl (b, two) ↦
              let (x, y) = loop-Same m n s [] a b r q here (new_diff_iter-Same s q b two) in
              let l = compare_loop B J m n s [] a b in
              rw (one, compare_roots)
                (rw (two) (
                  Same-IsKept r (root_of B J l.2) (root_of-Same r l.2 x),
                  Same-IsKept q (root_of B J l.3) (root_of-Same q l.3 y),
                ))
        ]
  ]

  name_hashed-IsKept :
      (i : ℕ) (r : Root) (x : Status × Dir × B.State)
      → r.readonly ≡ false
      → IsKept r (name_hashed B J i r x).1
  unfolding name_hashed
  name_hashed-IsKept i r (err e, d, s) may = record {
    readonly_kept = refl;
    hash_kept = λ frozen. refl;
  }
  name_hashed-IsKept i r (ok u, d, s) may = record {
    readonly_kept = refl;
    hash_kept = λ frozen. absurd (ground arith);
  }

  abbrev hashed_dir : ℕ → B.State → Root → DirRef → Res Str × Root × B.State
  hashed_dir i s r x = elim x [
    | no_dir ↦ (require_root_hash B J i r, r, s)
    | to_dir d ↦ name_hashed B J i r (hash_dir B J s d)
  ]

  hashed_dir-IsKept :
      (i : ℕ) (s : B.State) (r : Root) (x : DirRef)
      → r.readonly ≡ false
      → IsKept r (hashed_dir i s r x).1
  hashed_dir-IsKept i s r no_dir may = IsKept-refl r
  hashed_dir-IsKept i s r (to_dir d) may = name_hashed-IsKept i r (hash_dir B J s d) may

  chosen-IsKept :
      (i : ℕ) (s : B.State) (r : Root) (b : Bool)
      → r.readonly ≡ b
      → IsKept r (if b then (require_root_hash B J i r, r, s) else hashed_dir i s r r.dir).1
  chosen-IsKept i s r true frozen = IsKept-refl r
  chosen-IsKept i s r false may = hashed_dir-IsKept i s r r.dir may

  pub hash_root-IsKept : (i : ℕ) (s : B.State) (r : Root) → IsKept r (hash_root B J i s r).1
  unfolding hash_root
  hash_root-IsKept i s r = chosen-IsKept i s r r.readonly refl

  hash_second-BothKept :
      (m n : ℕ) (h : Str) (r q r' : Root) (x : Res Str × Root × B.State)
      → IsKept r r'
      → IsKept q x.1
      → BothKept r q (hash_second B J m n h r' x)
  unfolding hash_second
  hash_second-BothKept m n h r q r' (err e, q', s) here there = (here, there)
  hash_second-BothKept m n h r q r' (ok k, q', s) here there =
      let (x, y) = compare_roots-BothKept m n (record { r1 = h; r2 = k; entries = [] }) s r' q' in
      (IsKept-trans r r' _ here x, IsKept-trans q q' _ there y)

  pub hash_first-BothKept :
      (m n : ℕ) (r q q' : Root) (x : Res Str × Root × B.State)
      → IsKept r x.1
      → IsKept q q'
      → BothKept r q (hash_first B J m n x q')
  unfolding hash_first
  hash_first-BothKept m n r q q' (err e, r', s) here there = (here, there)
  hash_first-BothKept m n r q q' (ok h, r', s) here there =
      hash_second-BothKept m n h r q r' (hash_root B J 2 s q') here
        (IsKept-trans q q' _ there (hash_root-IsKept 2 s q'))

  pub diff_roots-BothKept :
      (m n : ℕ) (s : B.State) (r q : Root) → BothKept r q (diff_roots B J m n s r q)
  unfolding diff_roots
  diff_roots-BothKept m n s r q =
      hash_first-BothKept m n r q q (hash_root B J 1 s r) (hash_root-IsKept 1 s r) (IsKept-refl q)
