-- ===== src/Storage/Diff/Order.antt =====
-- The order of paths that `cmpPaths` decides.
use Prim.Native.Nat.{Ordering}
use httplock.Base.{
  ◌≡◌, ◌↔◌, ◌⊎◌, refl, List, [], ◌∷◌, Str, compare_str, str_lt, str_lt_irrefl, str_lt_trans,
  str_lt_total, true, inl, inr, arith,
}
use package.httplock.Storage.Diff.{cmp_paths}

pub compare_str_refl : (s : Str) → compare_str s s ≡ Ordering.eq
unfolding compare_str
compare_str_refl s = simp (str_lt_irrefl s)

compare_str_lt : (s t : Str) → (compare_str s t ≡ Ordering.lt) ↔ (str_lt s t ≡ true)
unfolding compare_str
compare_str_lt s t = ground arith

compare_str_gt : (s t : Str) → (compare_str s t ≡ Ordering.gt) ↔ (compare_str t s ≡ Ordering.lt)
unfolding compare_str
compare_str_gt s t = ground (arith, str_lt_trans s t s, str_lt_irrefl s)

compare_str_eq : (s t : Str) → compare_str s t ≡ Ordering.eq → s ≡ t
unfolding compare_str
compare_str_eq s t same = ground (arith, str_lt_total s t)

pub cmp_paths_refl : (p : List Str) → cmp_paths p p ≡ Ordering.eq
unfolding cmp_paths
cmp_paths_refl [] = refl
cmp_paths_refl (a ∷ p) = ground (arith, compare_str_refl a, cmp_paths_refl p)

pub cmp_paths_eq : (p q : List Str) → cmp_paths p q ≡ Ordering.eq → p ≡ q
unfolding cmp_paths
cmp_paths_eq [] [] same = refl
cmp_paths_eq [] (b ∷ q) same = ground arith
cmp_paths_eq (a ∷ p) [] same = ground arith
cmp_paths_eq (a ∷ p) (b ∷ q) same = ground (arith, compare_str_eq a b, cmp_paths_eq p q)

pub cmp_paths_gt : (p q : List Str) → (cmp_paths p q ≡ Ordering.gt) ↔ (cmp_paths q p ≡ Ordering.lt)
unfolding cmp_paths
cmp_paths_gt [] [] = ground arith
cmp_paths_gt [] (b ∷ q) = ground arith
cmp_paths_gt (a ∷ p) [] = ground arith
cmp_paths_gt (a ∷ p) (b ∷ q) = ground (
  arith,
  compare_str_gt a b,
  compare_str_gt b a,
  compare_str_eq a b,
  compare_str_eq b a,
  compare_str_refl a,
  cmp_paths_gt p q,
)

compare_str_trans :
    (s t u : Str)
    → compare_str s t ≡ Ordering.lt
    → compare_str t u ≡ Ordering.lt
    → compare_str s u ≡ Ordering.lt
compare_str_trans s t u h k =
    (compare_str_lt s u).1
      (str_lt_trans s t u ((compare_str_lt s t).0 h) ((compare_str_lt t u).0 k))

pub cmp_paths_trans :
    (p q r : List Str)
    → cmp_paths p q ≡ Ordering.lt
    → cmp_paths q r ≡ Ordering.lt
    → cmp_paths p r ≡ Ordering.lt
unfolding cmp_paths
cmp_paths_trans p [] [] h k = ground arith
cmp_paths_trans p (b ∷ q) [] h k = ground arith
cmp_paths_trans [] q (c ∷ r) h k = refl
cmp_paths_trans (a ∷ p) [] (c ∷ r) h k = ground arith
cmp_paths_trans (a ∷ p) (b ∷ q) (c ∷ r) h k = ground (
  arith,
  compare_str_trans a b c,
  compare_str_eq a b,
  compare_str_eq b c,
  compare_str_refl a,
  cmp_paths_trans p q r,
)

pub Ordering-cases : (o : Ordering) → (o ≡ Ordering.lt) ⊎ (o ≡ Ordering.gt) ⊎ (o ≡ Ordering.eq)
Ordering-cases Ordering.lt = inl refl
Ordering-cases Ordering.gt = inr (inl refl)
Ordering-cases Ordering.eq = inr (inr refl)
