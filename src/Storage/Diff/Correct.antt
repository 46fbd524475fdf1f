-- ===== src/Storage/Diff/Correct.antt =====
-- What `DiffRoots` reports of two trees.
use mathlib.Core.Path.{subst}
use httplock.Base.{
  ℕ, suc, ◌+◌, ◌<◌, ◌≡◌, refl, ◌∙◌, sym, ap, none, some, List, [], ◌∷◌, ◌++◌, Str, length, map, ok,
  err, arith, str_eq,
}
use httplock.Storage.Backend.{Backend, Codec}
use httplock.Storage.Errors.{Res}
use httplock.Storage.Tree.{Dir}
use httplock.Storage.Root.{Root, load_root}
use package.httplock.Storage.Diff.{
  DiffEntry, DiffReport, DiffIter, in_root, new_frame, keys, hash_root, compare_roots, compare_loop,
  diff_roots, new_diff_iter, Diffed, give, root_of, next, hash_first, hash_second, compare_files,
}
use package.httplock.Storage.Diff.Merge.{Files, hash_at, entry_at, verdict, merge, entry_at-merge}
use package.httplock.Storage.Diff.Ascending.{IsOrdered, merge-IsOrdered}
use package.httplock.Storage.Diff.Files.{
  Walks, IsUp, shows, files, turns, files-filled, files-IsAscending,
}
use package.httplock.Storage.Diff.Iterator.{
  nothing, in_dir, ahead, ahead_turns, Arrives, next-Arrives,
}
use package.httplock.Storage.Diff.Loop.{Ends, compare_loop-merge, both-Ends}
use package.httplock.Storage.Diff.Sides.{side-both}

-- A report that says of each path what it should, by the hashes of the files in the two trees, and
-- no path twice.
pub record IsDiff (xs ys : Files) (es : List DiffEntry) : Type 0 where
  pub says : (p : List Str) → entry_at p es ≡ verdict p (hash_at p xs) (hash_at p ys)
  pub ordered : IsOrdered es

module _ (B : Backend) (J : Codec) where
  abbrev iter_of : Root → Dir → DiffIter
  iter_of r d = record { r = in_root d r; frames = new_frame d ∷ []; cur_file_hash = [] }

  place_nil : (s : B.State) (xs : Files) → map (λ (x : List Str × Str). (x.0, x.1)) xs ++ [] ≡ xs
  place_nil s [] = refl
  place_nil s (x ∷ xs) = ap (λ t. x ∷ t) (place_nil s xs)

  iter-Arrives :
      (s : B.State) (n : ℕ) (r : Root) (d : Dir) (w : Walks B J s (shows d) (keys d))
      → suc (turns B J s w) < n
      → Arrives B J s n (files B J s w) (next B J n s (iter_of r d))
  unfolding ahead ahead_turns
  iter-Arrives s n r d w bound =
      subst (λ z. Arrives B J s n z (next B J n s (iter_of r d))) (place_nil s (files B J s w))
        (next-Arrives B J s n n (in_root d r) []
          (in_dir d (keys d) [] (shows d) (λ k. refl) w nothing) (omega arith) (omega arith))

  loop-files :
      (s : B.State) (m n : ℕ) (r1 r2 : Root) (d1 d2 : Dir) (w1 : Walks B J s (shows d1) (keys d1))
      (w2 : Walks B J s (shows d2) (keys d2))
      → suc (turns B J s w1) < n
      → suc (turns B J s w2) < n
      → length (files B J s w1) + length (files B J s w2) < m
      → Ends B J s
          (merge (files B J s w1) (files B J s w2))
          (compare_loop B J (suc m) n s [] (iter_of r1 d1) (iter_of r2 d2))
  unfolding compare_files str_eq
  loop-files s m n r1 r2 d1 d2 w1 w2 few few' enough =
      let to1 = iter-Arrives s n r1 d1 w1 few in
      let to2 = iter-Arrives s n r2 d2 w2 few' in
      both-Ends B J s m n [] (iter_of r1 d1) (iter_of r2 d2) (files B J s w1) (files B J s w2) []
        (side-both ([] ∷ [])) refl to1 to2
        (compare_loop-merge B J s m n [] (files B J s w1) (files B J s w2) _ _
          (files-filled B J s w1) (files-filled B J s w2) to1.1 to2.1 (omega arith) enough)

  merge-IsDiff :
      (s : B.State) (d1 d2 : Dir) (w1 : Walks B J s (shows d1) (keys d1))
      (w2 : Walks B J s (shows d2) (keys d2))
      → IsUp (keys d1)
      → IsUp (keys d2)
      → IsDiff (files B J s w1) (files B J s w2) (merge (files B J s w1) (files B J s w2))
  merge-IsDiff s d1 d2 w1 w2 up1 up2 =
      let up = files-IsAscending B J s w1 up1 in
      let up' = files-IsAscending B J s w2 up2 in
      record {
        says =
            λ p. entry_at-merge p (files B J s w1) (files B J s w2) (files-filled B J s w1) up up';
        ordered = merge-IsOrdered (files B J s w1) (files B J s w2) up up';
      }

  new_diff_iter-loaded :
      (s : B.State) (r : Root) (d : Dir)
      → load_root B J s r ≡ ok d
      → new_diff_iter B J s r ≡ ok (iter_of r d)
  unfolding new_diff_iter
  new_diff_iter-loaded s r d loaded =
      ap (λ (l : Res Dir). elim l [ err e ↦ err e | ok d ↦ ok (iter_of r d) ]) loaded

  abbrev second_iter : ℕ → ℕ → DiffReport → B.State → Root → DiffIter → Res DiffIter → Diffed B J
  second_iter m n dr s r2 a (err e) = (some e, dr, root_of B J a, r2, s)
  second_iter m n dr s r2 a (ok b) = give B J dr s (compare_loop B J m n s [] a b)

  compare_roots-loaded :
      (m n : ℕ) (dr : DiffReport) (s : B.State) (r1 r2 : Root) (d1 d2 : Dir)
      → load_root B J s r1 ≡ ok d1
      → load_root B J s r2 ≡ ok d2
      → compare_roots B J m n dr s r1 r2
        ≡ give B J dr s (compare_loop B J m n s [] (iter_of r1 d1) (iter_of r2 d2))
  unfolding compare_roots
  compare_roots-loaded m n dr s r1 r2 d1 d2 loaded1 loaded2 =
      ap
        (λ (i : Res DiffIter). elim i [
          | err e ↦ (some e, dr, r1, r2, s)
          | ok a ↦ second_iter m n dr s r2 a (new_diff_iter B J s r2)
        ])
        (new_diff_iter-loaded s r1 d1 loaded1)
      ∙ ap (second_iter m n dr s r2 (iter_of r1 d1)) (new_diff_iter-loaded s r2 d2 loaded2)

  -- No error, the names of the two roots, and a right report.
  pub record Reports (h1 h2 : Str) (xs ys : Files) (res : Diffed B J) : Type 0 where
    pub fine : res.0 ≡ none
    pub names : (res.1.r1 ≡ h1) × (res.1.r2 ≡ h2)
    pub right : IsDiff xs ys res.1.entries

  -- Two roots that get their hashes and load, with trees whose directories the storage has and
  -- whose names are distinct, are compared without an error, given more turns than the two trees
  -- have files and each tree has steps; the report names both roots, and it says of each path,
  -- once, that its file was deleted, added or changed, as the hashes of the files in the two trees
  -- tell.
  pub diff_roots-Reports :
      (s t u : B.State) (m n : ℕ) (r1 r2 r1' r2' : Root) (h1 h2 : Str) (d1 d2 : Dir)
      (w1 : Walks B J u (shows d1) (keys d1)) (w2 : Walks B J u (shows d2) (keys d2))
      → hash_root B J 1 s r1 ≡ (ok h1, r1', t)
      → hash_root B J 2 t r2 ≡ (ok h2, r2', u)
      → load_root B J u r1' ≡ ok d1
      → load_root B J u r2' ≡ ok d2
      → IsUp (keys d1)
      → IsUp (keys d2)
      → suc (turns B J u w1) < n
      → suc (turns B J u w2) < n
      → length (files B J u w1) + length (files B J u w2) < m
      → Reports h1 h2 (files B J u w1) (files B J u w2) (diff_roots B J (suc m) n s r1 r2)
  unfolding diff_roots hash_first hash_second
  diff_roots-Reports s t u m n r1 r2 r1' r2' h1 h2 d1 d2 w1 w2 hashed1 hashed2 loaded1 loaded2 up1
        up2 few1 few2 enough =
      let ends = loop-files u m n r1' r2' d1 d2 w1 w2 few1 few2 enough in
      rw
        (
          hashed1,
          hash_first,
          hashed2,
          hash_second,
          compare_roots-loaded (suc m) n _ u r1' r2' d1 d2 loaded1 loaded2,
        )
        (record {
          fine = ends.0;
          names = (refl, refl);
          right =
              subst (IsDiff (files B J u w1) (files B J u w2)) (sym ends.1)
                (merge-IsDiff u d1 d2 w1 w2 up1 up2);
        })
