-- ===== src/Storage/Diff/Ascending.antt =====
-- A merge of two ascending lists of files is ascending too: no path has two entries.
use Prim.Native.Nat.{Ordering}
use mathlib.Core.Path.{subst}
use httplock.Base.{
  ◌≡◌, List, [], ◌∷◌, ◌++◌, Str, str_eq, map, All, if◌then◌else◌, sym, inl, inr, Bool-cases,
}
use package.httplock.Storage.Diff.{cmp_paths, DiffEntry, deleted, added, changed, compare_files}
use package.httplock.Storage.Diff.Order.{Ordering-cases, cmp_paths_eq, cmp_paths_gt}
use package.httplock.Storage.Diff.Merge.{
  Files, After, IsAscending, path_of, added_file, merge_with, merge, After-trans,
}

-- The entries of a report, in the order of their paths.
abbrev pub Follows : List Str → List DiffEntry → Type 0
Follows p = All (λ e. cmp_paths p (path_of e) ≡ Ordering.lt)

abbrev pub IsOrdered : List DiffEntry → Type 0
IsOrdered [] = Unit
IsOrdered (e ∷ es) = Follows (path_of e) es × IsOrdered es

added-Follows : (p : List Str) (ys : Files) → After p ys → Follows p (map added_file ys)
added-Follows p [] above = tt
added-Follows p ((q, k) ∷ ys) (lt, above) = (lt, added-Follows p ys above)

added-IsOrdered : (ys : Files) → IsAscending ys → IsOrdered (map added_file ys)
added-IsOrdered [] up = tt
added-IsOrdered ((q, k) ∷ ys) (above, up) = (added-Follows q ys above, added-IsOrdered ys up)

-- The files of a path, compared, and the entries after them.
compare_files-Follows :
    (p q : List Str) (h k : Str) (es : List DiffEntry)
    → cmp_paths p q ≡ Ordering.lt
    → Follows p es
    → Follows p (compare_files q h k ++ es)
unfolding compare_files
compare_files-Follows p [] h k es lt above = above
compare_files-Follows p (a ∷ q) h k es lt above = elim (Bool-cases (str_eq h k)) [
  | inl same ↦
      subst (λ b. Follows p ((if b then [] else changed (a ∷ q) h k ∷ []) ++ es)) (sym same) above
  | inr other ↦
      subst (λ b. Follows p ((if b then [] else changed (a ∷ q) h k ∷ []) ++ es)) (sym other)
        (lt, above)
]

compare_files-IsOrdered :
    (q : List Str) (h k : Str) (es : List DiffEntry)
    → Follows q es
    → IsOrdered es
    → IsOrdered (compare_files q h k ++ es)
unfolding compare_files
compare_files-IsOrdered [] h k es above up = up
compare_files-IsOrdered (a ∷ q) h k es above up = elim (Bool-cases (str_eq h k)) [
  | inl same ↦
      subst (λ b. IsOrdered ((if b then [] else changed (a ∷ q) h k ∷ []) ++ es)) (sym same) up
  | inr other ↦
      subst (λ b. IsOrdered ((if b then [] else changed (a ∷ q) h k ∷ []) ++ es)) (sym other)
        (above, up)
]

-- What a merge with the first file `(q, h)` does at the first file `(r, k)` of the other list, by
-- the order of the two paths.
merge_with-cases :
    (q : List Str) (h : Str) (rest : Files → List DiffEntry) (r : List Str) (k : Str) (ys : Files)
    (P : List DiffEntry → Type 0)
    → (cmp_paths q r ≡ Ordering.lt → P (deleted q h ∷ rest ((r, k) ∷ ys)))
    → (cmp_paths r q ≡ Ordering.lt → P (added r k ∷ merge_with (q, h) rest ys))
    → (q ≡ r → P (compare_files q h k ++ rest ys))
    → P (merge_with (q, h) rest ((r, k) ∷ ys))
unfolding merge_with
merge_with-cases q h rest r k ys P less more same = elim (Ordering-cases (cmp_paths q r)) [
  | inl lt ↦ subst (λ o. P (pick o)) (sym lt) (less lt)
  | inr (inl gt) ↦ subst (λ o. P (pick o)) (sym gt) (more ((cmp_paths_gt q r).0 gt))
  | inr (inr eq) ↦ subst (λ o. P (pick o)) (sym eq) (same (cmp_paths_eq q r eq))
]
  where
    pick : Ordering → List DiffEntry
    pick o = elim o [
      | Ordering.lt ↦ deleted q h ∷ rest ((r, k) ∷ ys)
      | Ordering.gt ↦ added r k ∷ merge_with (q, h) rest ys
      | Ordering.eq ↦ compare_files q h k ++ rest ys
    ]

merge_with-Follows :
    (p q : List Str) (h : Str) (rest : Files → List DiffEntry)
    → cmp_paths p q ≡ Ordering.lt
    → ((ys : Files) → After p ys → Follows p (rest ys))
    → (ys : Files) → After p ys
    → Follows p (merge_with (q, h) rest ys)
unfolding merge_with
merge_with-Follows p q h rest lt follow [] above = (lt, follow [] tt)
merge_with-Follows p q h rest lt follow ((r, k) ∷ ys) (less, above) =
    merge_with-cases q h rest r k ys (Follows p) (λ _. (lt, follow ((r, k) ∷ ys) (less, above)))
      (λ _. (less, merge_with-Follows p q h rest lt follow ys above))
      (λ _. compare_files-Follows p q h k (rest ys) lt (follow ys above))

merge-Follows : (p : List Str) (xs ys : Files) → After p xs → After p ys → Follows p (merge xs ys)
unfolding merge
merge-Follows p [] ys above above' = added-Follows p ys above'
merge-Follows p ((q, h) ∷ xs) ys (lt, above) above' =
    merge_with-Follows p q h (merge xs) lt (λ zs over. merge-Follows p xs zs above over) ys above'

merge_with-IsOrdered :
    (q : List Str) (h : Str) (xs : Files) (rest : Files → List DiffEntry)
    → After q xs
    → ((p : List Str) (ys : Files) → After p xs → After p ys → Follows p (rest ys))
    → ((ys : Files) → IsAscending ys → IsOrdered (rest ys))
    → (ys : Files) → IsAscending ys
    → IsOrdered (merge_with (q, h) rest ys)
unfolding merge_with
merge_with-IsOrdered q h xs rest above follow order [] up = (follow q [] above tt, order [] tt)
merge_with-IsOrdered q h xs rest above follow order ((r, k) ∷ ys) (over, up) =
    merge_with-cases q h rest r k ys IsOrdered
      (λ lt. (
        follow q ((r, k) ∷ ys) above (lt, After-trans q r ys lt over),
        order ((r, k) ∷ ys) (over, up),
      ))
      (λ lt. (
        merge_with-Follows r q h rest lt
            (λ zs over'. follow r zs (After-trans r q xs lt above) over') ys over,
        merge_with-IsOrdered q h xs rest above follow order ys up,
      ))
      (λ same.
        compare_files-IsOrdered q h k (rest ys)
          (follow q ys above (subst (λ p. After p ys) (sym same) over)) (order ys up))

pub merge-IsOrdered : (xs ys : Files) → IsAscending xs → IsAscending ys → IsOrdered (merge xs ys)
unfolding merge
merge-IsOrdered [] ys up up' = added-IsOrdered ys up'
merge-IsOrdered ((q, h) ∷ xs) ys (above, up) up' =
    merge_with-IsOrdered q h xs (merge xs) above
      (λ p zs above' over. merge-Follows p xs zs above' over)
      (λ zs up''. merge-IsOrdered xs zs up up'') ys up'
