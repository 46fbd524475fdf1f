-- ===== src/Storage/Diff/Merge.antt =====
-- The report that two ascending lists of files should have, independent of the iterators: what it
-- says of each path.
use Prim.Native.Nat.{Ordering}
use httplock.Base.{
  ◌≡◌, refl, Option, none, some, List, [], ◌∷◌, ◌++◌, Str, str_eq, map, All, if◌then◌else◌, arith,
}
use package.httplock.Storage.Diff.{cmp_paths, DiffEntry, deleted, added, changed, compare_files}
use package.httplock.Storage.Diff.Order.{
  cmp_paths_refl, cmp_paths_eq, cmp_paths_gt, cmp_paths_trans,
}

-- The files of a tree: their paths and hashes.
abbrev pub Files : Type 0
Files = List (List Str × Str)

-- All files come after a path, and the files are in the order of their paths.
abbrev pub After : List Str → Files → Type 0
After p = All (λ (x : List Str × Str). cmp_paths p x.0 ≡ Ordering.lt)

abbrev pub IsAscending : Files → Type 0
IsAscending [] = Unit
IsAscending ((p, h) ∷ xs) = After p xs × IsAscending xs

-- The hash of the file at a path.
unfoldable pub hash_at : List Str → Files → Option Str
hash_at p [] = none
hash_at p ((q, h) ∷ xs) = elim (cmp_paths q p) [ Ordering.eq ↦ some h | _ ↦ hash_at p xs ]

abbrev pub path_of : DiffEntry → List Str
path_of (deleted p h) = p
path_of (added p h) = p
path_of (changed p h k) = p

-- What a report says of a path.
unfoldable pub entry_at : List Str → List DiffEntry → Option DiffEntry
entry_at p [] = none
entry_at p (e ∷ es) = elim (cmp_paths (path_of e) p) [ Ordering.eq ↦ some e | _ ↦ entry_at p es ]

-- What it should say, from the hashes that the path has in the two trees.
abbrev pub verdict : List Str → Option Str → Option Str → Option DiffEntry
verdict p none none = none
verdict p (some h) none = some (deleted p h)
verdict p none (some k) = some (added p k)
verdict p (some h) (some k) = if str_eq h k then none else some (changed p h k)

abbrev pub deleted_file : List Str × Str → DiffEntry
deleted_file (p, h) = deleted p h

abbrev pub added_file : List Str × Str → DiffEntry
added_file (p, h) = added p h

-- The merge of two lists: `rest` merges what follows the first of the one with the other.
unfoldable pub merge_with : List Str × Str → (Files → List DiffEntry) → Files → List DiffEntry
merge_with x rest [] = deleted_file x ∷ rest []
merge_with x rest (y ∷ ys) =
    let more = merge_with x rest ys in
    elim (cmp_paths x.0 y.0) [
      | Ordering.lt ↦ deleted_file x ∷ rest (y ∷ ys)
      | Ordering.gt ↦ added_file y ∷ more
      | Ordering.eq ↦ compare_files x.0 x.1 y.1 ++ rest ys
    ]

unfoldable pub merge : Files → Files → List DiffEntry
merge [] ys = map added_file ys
merge (x ∷ xs) ys = merge_with x (merge xs) ys

hash_at-After : (p : List Str) (xs : Files) → After p xs → hash_at p xs ≡ none
unfolding hash_at
hash_at-After p [] above = refl
hash_at-After p ((q, h) ∷ xs) (lt, above) =
    ground (arith, cmp_paths_eq q p, cmp_paths_refl p, hash_at-After p xs above)

pub After-trans :
    (p q : List Str) (xs : Files) → cmp_paths p q ≡ Ordering.lt → After q xs → After p xs
After-trans p q [] lt above = tt
After-trans p q ((r, h) ∷ xs) lt (less, above) =
    (cmp_paths_trans p q r lt less, After-trans p q xs lt above)

entry_at-added :
    (p : List Str) (ys : Files) → entry_at p (map added_file ys) ≡ verdict p none (hash_at p ys)
unfolding entry_at hash_at
entry_at-added p [] = refl
entry_at-added p ((q, k) ∷ ys) = ground (arith, cmp_paths_eq q p, entry_at-added p ys)

entry_at-compare_files :
    (p q : List Str) (h k : Str) (es : List DiffEntry)
    → cmp_paths [] q ≡ Ordering.lt
    → entry_at p (compare_files q h k ++ es) ≡ (elim (cmp_paths q p) [
      | Ordering.eq ↦ if str_eq h k then entry_at p es else some (changed q h k)
      | _ ↦ entry_at p es
    ])
unfolding entry_at compare_files cmp_paths
entry_at-compare_files p [] h k es filled = ground arith
entry_at-compare_files p (a ∷ q) h k es filled = ground arith

abbrev Right : List Str → Files → Files → List DiffEntry → Type 0
Right p xs ys es = entry_at p es ≡ verdict p (hash_at p xs) (hash_at p ys)

entry_at-merge_with :
    (p q : List Str) (h : Str) (xs : Files) (rest : Files → List DiffEntry)
    → cmp_paths [] q ≡ Ordering.lt
    → After q xs
    → ((ys : Files) → IsAscending ys → Right p xs ys (rest ys))
    → (ys : Files) → IsAscending ys
    → Right p ((q, h) ∷ xs) ys (merge_with (q, h) rest ys)
unfolding entry_at hash_at merge_with
entry_at-merge_with p q h xs rest filled above right [] up =
    ground (arith, cmp_paths_eq q p, right [] tt, hash_at-After q xs above)
entry_at-merge_with p q h xs rest filled above right ((r, k) ∷ ys) (over, up) =
    let ih = entry_at-merge_with p q h xs rest filled above right ys up in
    let files = entry_at-compare_files p q h k (rest ys) filled in
    ground (
      arith,
      cmp_paths_eq q p,
      cmp_paths_eq r p,
      cmp_paths_eq q r,
      cmp_paths_refl p,
      cmp_paths_refl q,
      cmp_paths_gt q r,
      right ((r, k) ∷ ys) (over, up),
      right ys up,
      hash_at-After q xs above,
      hash_at-After r ys over,
      λ (lt : cmp_paths q r ≡ Ordering.lt). hash_at-After q ys (After-trans q r ys lt over),
      λ (lt : cmp_paths r q ≡ Ordering.lt). hash_at-After r xs (After-trans r q xs lt above),
    )

pub entry_at-merge :
    (p : List Str) (xs ys : Files)
    → After [] xs
    → IsAscending xs
    → IsAscending ys
    → Right p xs ys (merge xs ys)
unfolding merge hash_at
entry_at-merge p [] ys filled up up' = entry_at-added p ys
entry_at-merge p ((q, h) ∷ xs) ys (full, filled) (above, up) up' =
    entry_at-merge_with p q h xs (merge xs) full above
      (λ zs up''. entry_at-merge p xs zs filled up up'') ys up'
