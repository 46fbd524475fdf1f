-- ===== src/Storage/Diff/Sides.antt =====
-- Which of two paths is behind, and what a merge makes of it.
use Prim.Native.Nat.{Ordering}
use httplock.Base.{◌≡◌, refl, ap, List, [], ◌∷◌, ◌++◌, Str, arith}
use package.httplock.Storage.Diff.{
  DiffEntry, deleted, added, Side, first, second, both, side, cmp_paths, compare_files, Compared,
}
use package.httplock.Storage.Diff.Order.{cmp_paths_gt, cmp_paths_refl}
use package.httplock.Storage.Diff.Merge.{Files, merge, merge_with}

pub side-first :
    (p q : List Str) → cmp_paths [] p ≡ Ordering.lt → cmp_paths p q ≡ Ordering.lt → side p q ≡ first
unfolding side cmp_paths
side-first [] q filled lt = ground arith
side-first (a ∷ p) [] filled lt = refl
side-first (a ∷ p) (b ∷ q) filled lt = ground (arith, lt)

pub side-second :
    (p q : List Str)
    → cmp_paths [] q ≡ Ordering.lt
    → cmp_paths q p ≡ Ordering.lt
    → side p q ≡ second
unfolding side cmp_paths
side-second p [] filled lt = ground arith
side-second [] (b ∷ q) filled lt = refl
side-second (a ∷ p) (b ∷ q) filled lt = ground (arith, cmp_paths_gt (a ∷ p) (b ∷ q), lt)

pub side-end : (p : List Str) → cmp_paths [] p ≡ Ordering.lt → side p [] ≡ first
unfolding side cmp_paths
side-end [] filled = ground arith
side-end (a ∷ p) filled = refl

pub side-start : (q : List Str) → cmp_paths [] q ≡ Ordering.lt → side [] q ≡ second
unfolding side cmp_paths
side-start [] filled = ground arith
side-start (b ∷ q) filled = refl

pub side-both : (p : List Str) → side p p ≡ both
unfolding side cmp_paths
side-both [] = refl
side-both (a ∷ p) = ground (arith, cmp_paths_refl (a ∷ p))

pub append_nil : (acc : List DiffEntry) → acc ++ [] ≡ acc
append_nil [] = refl
append_nil (x ∷ xs) = ap (λ t. x ∷ t) (append_nil xs)

pub append_assoc : (xs ys zs : List DiffEntry) → (xs ++ ys) ++ zs ≡ xs ++ (ys ++ zs)
append_assoc [] ys zs = refl
append_assoc (x ∷ xs) ys zs = ap (λ t. x ∷ t) (append_assoc xs ys zs)

abbrev pick : Ordering → List DiffEntry → List DiffEntry → List DiffEntry → List DiffEntry
pick o less more same = elim o [ Ordering.lt ↦ less | Ordering.gt ↦ more | Ordering.eq ↦ same ]

pub merge-end :
    (p : List Str) (h : Str) (xs : Files) → merge ((p, h) ∷ xs) [] ≡ deleted p h ∷ merge xs []
unfolding merge merge_with
merge-end p h xs = refl

pub merge-first :
    (p q : List Str) (h k : Str) (xs ys : Files)
    → cmp_paths p q ≡ Ordering.lt
    → merge ((p, h) ∷ xs) ((q, k) ∷ ys) ≡ deleted p h ∷ merge xs ((q, k) ∷ ys)
unfolding merge merge_with
merge-first p q h k xs ys lt =
    ap
      (λ o.
        pick o (deleted p h ∷ merge xs ((q, k) ∷ ys)) (added q k ∷ merge ((p, h) ∷ xs) ys)
          (compare_files p h k ++ merge xs ys))
      lt

pub merge-second :
    (p q : List Str) (h k : Str) (xs ys : Files)
    → cmp_paths p q ≡ Ordering.gt
    → merge ((p, h) ∷ xs) ((q, k) ∷ ys) ≡ added q k ∷ merge ((p, h) ∷ xs) ys
unfolding merge merge_with
merge-second p q h k xs ys gt =
    ap
      (λ o.
        pick o (deleted p h ∷ merge xs ((q, k) ∷ ys)) (added q k ∷ merge ((p, h) ∷ xs) ys)
          (compare_files p h k ++ merge xs ys))
      gt

pub merge-both :
    (p q : List Str) (h k : Str) (xs ys : Files)
    → cmp_paths p q ≡ Ordering.eq
    → merge ((p, h) ∷ xs) ((q, k) ∷ ys) ≡ compare_files p h k ++ merge xs ys
unfolding merge merge_with
merge-both p q h k xs ys eq =
    ap
      (λ o.
        pick o (deleted p h ∷ merge xs ((q, k) ∷ ys)) (added q k ∷ merge ((p, h) ∷ xs) ys)
          (compare_files p h k ++ merge xs ys))
      eq

abbrev pub pick_side : Side → Compared → Compared → Compared → Compared
pick_side z x y w = elim z [ first ↦ x | second ↦ y | both ↦ w ]
