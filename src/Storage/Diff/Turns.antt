-- ===== src/Storage/Diff/Turns.antt =====
-- What one turn of the loop of `DiffRoots` does.
use mathlib.Core.Path.{subst, ap₂}
use httplock.Base.{ℕ, ◌<◌, ◌≡◌, ◌∙◌, sym, ap, none, List, [], ◌∷◌, ◌++◌, Str, arith}
use httplock.Storage.Backend.{Backend, Codec}
use package.httplock.Storage.Diff.{
  DiffEntry, deleted, added, DiffIter, cur_path, Advance, next, first, second, both, side,
  compare_files, Compared, finish, continue, after_first, after_second, after_both, compare_turn,
}
use package.httplock.Storage.Diff.Merge.{Files}
use package.httplock.Storage.Diff.Iterator.{
  nothing, ahead, ahead_turns, Holds, Arrives, next-Arrives,
}
use package.httplock.Storage.Diff.Sides.{pick_side}

module _ (B : Backend) (J : Codec) (s : B.State) where
  after_first-Arrives :
      (n : ℕ) (acc : List DiffEntry) (xs : Files) (got : Advance × DiffIter) (b : DiffIter)
      → Arrives B J s n xs got
      → after_first acc got b ≡ continue acc got.1 b
  unfolding after_first
  after_first-Arrives n acc [] (x, a) b (e, holds) = rw e
  after_first-Arrives n acc (y ∷ xs) (x, a) b (e, holds) = rw e

  after_second-Arrives :
      (n : ℕ) (acc : List DiffEntry) (a : DiffIter) (ys : Files) (got : Advance × DiffIter)
      → Arrives B J s n ys got
      → after_second acc a got ≡ continue acc a got.1
  unfolding after_second
  after_second-Arrives n acc a [] (x, b) (e, holds) = rw e
  after_second-Arrives n acc a (y ∷ ys) (x, b) (e, holds) = rw e

  -- The loop ends when both iterators do.
  abbrev pub outcome : List DiffEntry → Files → Files → DiffIter → DiffIter → Compared
  outcome acc [] [] a b = finish none acc a b
  outcome acc [] (y ∷ ys) a b = continue acc a b
  outcome acc (x ∷ xs) ys a b = continue acc a b

  after_both-Arrives :
      (n : ℕ) (acc : List DiffEntry) (xs ys : Files) (got got' : Advance × DiffIter) (b : DiffIter)
      → Arrives B J s n xs got
      → Arrives B J s n ys got'
      → after_both acc got got' b ≡ outcome acc xs ys got.1 got'.1
  unfolding after_both
  after_both-Arrives n acc [] [] (x, a) (y, b') b (e, holds) (e', holds') = rw (e, e')
  after_both-Arrives n acc [] (z ∷ ys) (x, a) (y, b') b (e, holds) (e', holds') = rw (e, e')
  after_both-Arrives n acc (z ∷ xs) [] (x, a) (y, b') b (e, holds) (e', holds') = rw (e, e')
  after_both-Arrives n acc (z ∷ xs) (v ∷ ys) (x, a) (y, b') b (e, holds) (e', holds') = rw (e, e')

  pub step :
      (n : ℕ) (x : List Str × Str) (xs : Files) (a : DiffIter)
      → Holds B J s n (x ∷ xs) a
      → Arrives B J s n xs (next B J n s a)
  step n (p, h) xs a (at, has, (ah, e, bound)) =
      subst (λ zs. Arrives B J s n zs (next B J n s a)) e
        (next-Arrives B J s n n a.r a.cur_file_hash ah bound (omega arith))

  pub step_end :
      (n : ℕ) (a : DiffIter) → a.frames ≡ [] → 0 < n → Arrives B J s n [] (next B J n s a)
  unfolding ahead ahead_turns
  step_end n a e bound =
      subst (λ fs. Arrives B J s n [] (next B J n s (record a { frames = fs }))) (sym e)
        (next-Arrives B J s n n a.r a.cur_file_hash nothing bound (omega arith))

  pub turn-first :
      (n : ℕ) (acc : List DiffEntry) (a b : DiffIter) (p : List Str) (h : Str) (xs : Files)
      → Holds B J s n ((p, h) ∷ xs) a
      → side p (cur_path b) ≡ first
      → compare_turn B J n s acc a b ≡ continue (acc ++ (deleted p h ∷ [])) (next B J n s a).1 b
  unfolding compare_turn
  turn-first n acc a b p h xs holds e =
      ap
        (λ z.
          pick_side z
            (after_first (acc ++ (deleted (cur_path a) a.cur_file_hash ∷ [])) (next B J n s a) b)
            (after_second (acc ++ (added (cur_path b) b.cur_file_hash ∷ [])) a (next B J n s b))
            (after_both (acc ++ compare_files (cur_path a) a.cur_file_hash b.cur_file_hash)
              (next B J n s a) (next B J n s b) b))
        (ap (λ z. side z (cur_path b)) holds.0 ∙ e)
      ∙ after_first-Arrives n _ xs (next B J n s a) b (step n (p, h) xs a holds)
      ∙ ap₂ (λ z k. continue (acc ++ (deleted z k ∷ [])) (next B J n s a).1 b) holds.0 holds.1

  pub turn-second :
      (n : ℕ) (acc : List DiffEntry) (a b : DiffIter) (q : List Str) (k : Str) (ys : Files)
      → Holds B J s n ((q, k) ∷ ys) b
      → side (cur_path a) q ≡ second
      → compare_turn B J n s acc a b ≡ continue (acc ++ (added q k ∷ [])) a (next B J n s b).1
  unfolding compare_turn
  turn-second n acc a b q k ys holds e =
      ap
        (λ z.
          pick_side z
            (after_first (acc ++ (deleted (cur_path a) a.cur_file_hash ∷ [])) (next B J n s a) b)
            (after_second (acc ++ (added (cur_path b) b.cur_file_hash ∷ [])) a (next B J n s b))
            (after_both (acc ++ compare_files (cur_path a) a.cur_file_hash b.cur_file_hash)
              (next B J n s a) (next B J n s b) b))
        (ap (λ z. side (cur_path a) z) holds.0 ∙ e)
      ∙ after_second-Arrives n _ a ys (next B J n s b) (step n (q, k) ys b holds)
      ∙ ap₂ (λ z h. continue (acc ++ (added z h ∷ [])) a (next B J n s b).1) holds.0 holds.1

  pub turn-both :
      (n : ℕ) (acc : List DiffEntry) (a b : DiffIter) (xs ys : Files)
      → side (cur_path a) (cur_path b) ≡ both
      → Arrives B J s n xs (next B J n s a)
      → Arrives B J s n ys (next B J n s b)
      → compare_turn B J n s acc a b
        ≡ outcome
            (acc ++ compare_files (cur_path a) a.cur_file_hash b.cur_file_hash)
            xs
            ys
            (next B J n s a).1
            (next B J n s b).1
  unfolding compare_turn
  turn-both n acc a b xs ys e arrives arrives' =
      ap
        (λ z.
          pick_side z
            (after_first (acc ++ (deleted (cur_path a) a.cur_file_hash ∷ [])) (next B J n s a) b)
            (after_second (acc ++ (added (cur_path b) b.cur_file_hash ∷ [])) a (next B J n s b))
            (after_both (acc ++ compare_files (cur_path a) a.cur_file_hash b.cur_file_hash)
              (next B J n s a) (next B J n s b) b))
        e
      ∙ after_both-Arrives n _ xs ys (next B J n s a) (next B J n s b) b arrives arrives'
