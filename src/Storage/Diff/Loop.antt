-- ===== src/Storage/Diff/Loop.antt =====
-- The loop of `DiffRoots` merges the files of the two iterators.
use mathlib.Core.Path.{subst, ap₂}
use httplock.Base.{
  ℕ, zero, suc, ◌+◌, ◌<◌, ◌≡◌, refl, ◌∙◌, sym, ap, Option, none, List, [], ◌∷◌, ◌++◌, Str, length,
  inl, inr, arith,
}
use httplock.Storage.Backend.{Backend, Codec}
use httplock.Storage.Errors.{Error}
use package.httplock.Storage.Diff.{
  DiffEntry, deleted, added, DiffIter, cur_path, path_to, next, first, second, both, side,
  cmp_paths, compare_files, Compared, finish, continue, compare_turn, compare_loop,
}
use package.httplock.Storage.Diff.Order.{Ordering-cases, cmp_paths_eq, cmp_paths_gt}
use package.httplock.Storage.Diff.Merge.{Files, After, merge}
use package.httplock.Storage.Diff.Iterator.{Holds, Arrives}
use package.httplock.Storage.Diff.Sides.{
  side-first, side-second, side-end, side-start, side-both, append_nil, append_assoc, merge-end,
  merge-first, merge-second, merge-both,
}
use package.httplock.Storage.Diff.Turns.{
  outcome, step, step_end, turn-first, turn-second, turn-both,
}

module _ (B : Backend) (J : Codec) (s : B.State) where
  abbrev Looped : Type 0
  Looped = Option Error × List DiffEntry × DiffIter × DiffIter

  abbrev proceed : ℕ → ℕ → Compared → Looped
  proceed m n c = elim c [
    | finish e acc a b ↦ (e, acc, a, b)
    | continue acc a b ↦ compare_loop B J m n s acc a b
  ]

  -- The loop ends without an error, with these entries.
  abbrev pub Ends : List DiffEntry → Looped → Type 0
  Ends es res = (res.0 ≡ none) × (res.1 ≡ es)

  proceed-Ends :
      (m n : ℕ) (acc : List DiffEntry) (a b : DiffIter) (c : Compared) (es : List DiffEntry)
      → compare_turn B J n s acc a b ≡ c
      → Ends es (proceed m n c)
      → Ends es (compare_loop B J (suc m) n s acc a b)
  unfolding compare_loop
  proceed-Ends m n acc a b c es e ends = subst (λ z. Ends es (proceed m n z)) (sym e) ends

  placed :
      (acc : List DiffEntry) (x : DiffEntry) (es fs : List DiffEntry)
      → es ≡ x ∷ fs
      → (acc ++ (x ∷ [])) ++ fs ≡ acc ++ es
  placed acc x es fs e = append_assoc acc (x ∷ []) fs ∙ ap (λ t. acc ++ t) (sym e)

  first-Ends :
      (m n : ℕ) (acc : List DiffEntry) (a b : DiffIter) (p : List Str) (h : Str) (xs : Files)
      (es fs : List DiffEntry)
      → Holds B J s n ((p, h) ∷ xs) a
      → side p (cur_path b) ≡ first
      → es ≡ deleted p h ∷ fs
      → Ends
          ((acc ++ (deleted p h ∷ [])) ++ fs)
          (compare_loop B J m n s (acc ++ (deleted p h ∷ [])) (next B J n s a).1 b)
      → Ends (acc ++ es) (compare_loop B J (suc m) n s acc a b)
  first-Ends m n acc a b p h xs es fs holds e starts ends =
      proceed-Ends m n acc a b _ _ (turn-first B J s n acc a b p h xs holds e)
        (ends.0, ends.1 ∙ placed acc (deleted p h) es fs starts)

  second-Ends :
      (m n : ℕ) (acc : List DiffEntry) (a b : DiffIter) (q : List Str) (k : Str) (ys : Files)
      (es fs : List DiffEntry)
      → Holds B J s n ((q, k) ∷ ys) b
      → side (cur_path a) q ≡ second
      → es ≡ added q k ∷ fs
      → Ends
          ((acc ++ (added q k ∷ [])) ++ fs)
          (compare_loop B J m n s (acc ++ (added q k ∷ [])) a (next B J n s b).1)
      → Ends (acc ++ es) (compare_loop B J (suc m) n s acc a b)
  second-Ends m n acc a b q k ys es fs holds e starts ends =
      proceed-Ends m n acc a b _ _ (turn-second B J s n acc a b q k ys holds e)
        (ends.0, ends.1 ∙ placed acc (added q k) es fs starts)

  outcome-Ends :
      (m n : ℕ) (acc : List DiffEntry) (xs ys : Files) (a b : DiffIter)
      → Ends (acc ++ merge xs ys) (compare_loop B J m n s acc a b)
      → Ends (acc ++ merge xs ys) (proceed m n (outcome B J s acc xs ys a b))
  unfolding merge
  outcome-Ends m n acc [] [] a b ends = (refl, sym (append_nil acc))
  outcome-Ends m n acc [] (y ∷ ys) a b ends = ends
  outcome-Ends m n acc (x ∷ xs) ys a b ends = ends

  -- What the two iterators stand at is compared.
  abbrev compared : DiffIter → DiffIter → List DiffEntry
  compared a b = compare_files (cur_path a) a.cur_file_hash b.cur_file_hash

  pub both-Ends :
      (m n : ℕ) (acc : List DiffEntry) (a b : DiffIter) (xs ys : Files) (cf : List DiffEntry)
      → side (cur_path a) (cur_path b) ≡ both
      → compared a b ≡ cf
      → Arrives B J s n xs (next B J n s a)
      → Arrives B J s n ys (next B J n s b)
      → Ends
          ((acc ++ cf) ++ merge xs ys)
          (compare_loop B J m n s (acc ++ cf) (next B J n s a).1 (next B J n s b).1)
      → Ends ((acc ++ cf) ++ merge xs ys) (compare_loop B J (suc m) n s acc a b)
  both-Ends m n acc a b xs ys cf e files arrives arrives' ends =
      proceed-Ends m n acc a b _ _
        (turn-both B J s n acc a b xs ys e arrives arrives'
          ∙ ap (λ z. outcome B J s (acc ++ z) xs ys (next B J n s a).1 (next B J n s b).1) files)
        (outcome-Ends m n (acc ++ cf) xs ys (next B J n s a).1 (next B J n s b).1 ends)

  at_end : (a : DiffIter) → a.frames ≡ [] → cur_path a ≡ []
  at_end a e = ap (λ fs. path_to fs []) e

  -- Enough turns are one more than there are files.
  pub compare_loop-merge :
      (m n : ℕ) (acc : List DiffEntry) (xs ys : Files) (a b : DiffIter)
      → After [] xs
      → After [] ys
      → Holds B J s n xs a
      → Holds B J s n ys b
      → 0 < n
      → length xs + length ys < m
      → Ends (acc ++ merge xs ys) (compare_loop B J m n s acc a b)
  unfolding merge compare_files
  compare_loop-merge zero n acc xs ys a b fx fy ha hb some' enough = absurd (omega arith)
  compare_loop-merge (suc m) n acc [] [] a b fx fy ha hb some' enough =
      proceed-Ends m n acc a b _ _
        (turn-both B J s n acc a b [] [] (ap₂ side (at_end a ha) (at_end b hb) ∙ side-both [])
          (step_end B J s n a ha some') (step_end B J s n b hb some'))
        (refl, ap (λ z. acc ++ compare_files z a.cur_file_hash b.cur_file_hash) (at_end a ha))
  compare_loop-merge (suc m) n acc ((p, h) ∷ xs) [] a b (full, fx) fy ha hb some' enough =
      first-Ends m n acc a b p h xs _ (merge xs []) ha (ap (side p) (at_end b hb) ∙ side-end p full)
        (merge-end p h xs)
        (compare_loop-merge m n (acc ++ (deleted p h ∷ [])) xs [] _ b fx fy
          (step B J s n (p, h) xs a ha).1 hb some' (omega arith))
  compare_loop-merge (suc m) n acc [] ((q, k) ∷ ys) a b fx (full, fy) ha hb some' enough =
      second-Ends m n acc a b q k ys _ (merge [] ys) hb
        (ap (λ z. side z q) (at_end a ha) ∙ side-start q full) refl
        (compare_loop-merge m n (acc ++ (added q k ∷ [])) [] ys a _ fx fy ha
          (step B J s n (q, k) ys b hb).1 some' (omega arith))
  compare_loop-merge (suc m) n acc ((p, h) ∷ xs) ((q, k) ∷ ys) a b (full, fx) (full', fy) ha hb
        some' enough =
      elim (Ordering-cases (cmp_paths p q)) [
        | inl lt ↦
            first-Ends m n acc a b p h xs _ (merge xs ((q, k) ∷ ys)) ha
              (ap (side p) hb.0 ∙ side-first p q full lt) (merge-first p q h k xs ys lt)
              (compare_loop-merge m n (acc ++ (deleted p h ∷ [])) xs ((q, k) ∷ ys) _ b fx
                (full', fy) (step B J s n (p, h) xs a ha).1 hb some' (omega arith))
        | inr (inl gt) ↦
            second-Ends m n acc a b q k ys _ (merge ((p, h) ∷ xs) ys) hb
              (ap (λ z. side z q) ha.0 ∙ side-second p q full' ((cmp_paths_gt p q).0 gt))
              (merge-second p q h k xs ys gt)
              (compare_loop-merge m n (acc ++ (added q k ∷ [])) ((p, h) ∷ xs) ys a _ (full, fx) fy
                ha (step B J s n (q, k) ys b hb).1 some' (omega arith))
        | inr (inr eq) ↦
            let cf = compare_files p h k in
            subst (λ z. Ends z (compare_loop B J (suc m) n s acc a b))
              (append_assoc acc cf (merge xs ys)
                ∙ ap (λ z. acc ++ z) (sym (merge-both p q h k xs ys eq)))
              (both-Ends m n acc a b xs ys cf
                (ap₂ side ha.0 hb.0 ∙ ap (side p) (sym (cmp_paths_eq p q eq)) ∙ side-both p)
                (λ i. compare_files (ha.0 i) (ha.1 i) (hb.1 i)) (step B J s n (p, h) xs a ha)
                (step B J s n (q, k) ys b hb)
                (compare_loop-merge m n (acc ++ cf) xs ys _ _ fx fy (step B J s n (p, h) xs a ha).1
                  (step B J s n (q, k) ys b hb).1 some' (omega arith)))
      ]
