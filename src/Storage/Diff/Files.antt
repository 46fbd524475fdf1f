-- ===== src/Storage/Diff/Files.antt =====
-- The files of a stored tree, directory after directory in the order of their names, and the turns
-- that the iterator takes to go through them.
use Prim.Native.Nat.{Ordering}
use httplock.Base.{
  ℕ, suc, ◌+◌, ◌≡◌, refl, Option, none, some, List, [], ◌∷◌, ◌++◌, Str, map, All, ok, compare_str,
  arith,
}
use httplock.Storage.Kind.{kind_dir, kind_file}
use httplock.Storage.Backend.{Backend, Codec, Info}
use httplock.Storage.Tree.{Dir, DirEntry, entries, find, info}
use httplock.Storage.Root.{load_dir}
use package.httplock.Storage.Diff.{keys, cmp_paths}
use package.httplock.Storage.Diff.Order.{compare_str_refl}
use package.httplock.Storage.Diff.Merge.{Files, After, IsAscending}

-- What JSON shows of the entry with a name.
abbrev pub shown : Option DirEntry → Option Info
shown none = none
shown (some e) = some (info e)

abbrev pub shows : Dir → Str → Option Info
shows d name = shown (find name (entries d))

-- Names in their order, without repetition.
abbrev pub IsUp : List Str → Type 0
IsUp [] = Unit
IsUp (k ∷ ks) = All (λ j. compare_str k j ≡ Ordering.lt) ks × IsUp ks

module _ (B : Backend) (J : Codec) (s : B.State) where
  -- The storage has the directories under some names of a directory that shows `look`.
  pub data Walks : (Str → Option Info) → List Str → Type 0 where
    ended : {look : Str → Option Info} → Walks look []
    a_file :
        {look : Str → Option Info} (k : Str) {ks : List Str} (h : Str)
        → look k ≡ some (record { hash = h; kind = kind_file })
        → Walks look ks
        → Walks look (k ∷ ks)
    a_dir :
        {look : Str → Option Info} (k : Str) {ks : List Str} (h : Str) (c : Dir)
        → look k ≡ some (record { hash = h; kind = kind_dir })
        → load_dir B J s h ≡ ok c
        → IsUp (keys c)
        → Walks (shows c) (keys c)
        → Walks look ks
        → Walks look (k ∷ ks)

  abbrev pub under : Str → List Str × Str → List Str × Str
  under k (p, h) = (k ∷ p, h)

  unfoldable pub files : {look : Str → Option Info} {ks : List Str} → Walks look ks → Files
  files ended = []
  files (a_file k h found w) = (k ∷ [], h) ∷ files w
  files (a_dir k h c found loaded up inside w) = map (under k) (files inside) ++ files w

  unfoldable pub turns : {look : Str → Option Info} {ks : List Str} → Walks look ks → ℕ
  turns ended = 0
  turns (a_file k h found w) = suc (turns w)
  turns (a_dir k h c found loaded up inside w) = suc (suc (turns inside + turns w))

  under-After :
      (k : Str) (p : List Str) (xs : Files) → After p xs → After (k ∷ p) (map (under k) xs)
  unfolding cmp_paths
  under-After k p [] above = tt
  under-After k p ((q, h) ∷ xs) (lt, above) =
      (ground (arith, compare_str_refl k, lt), under-After k p xs above)

  under-IsAscending : (k : Str) (xs : Files) → IsAscending xs → IsAscending (map (under k) xs)
  under-IsAscending k [] up = tt
  under-IsAscending k ((q, h) ∷ xs) (above, up) =
      (under-After k q xs above, under-IsAscending k xs up)

  under-filled : (k : Str) (xs : Files) → After [] (map (under k) xs)
  unfolding cmp_paths
  under-filled k [] = tt
  under-filled k ((q, h) ∷ xs) = (refl, under-filled k xs)

  -- Files in a directory whose name comes later.
  under-later :
      (i k : Str) (p : List Str) (xs : Files)
      → compare_str i k ≡ Ordering.lt
      → After (i ∷ p) (map (under k) xs)
  unfolding cmp_paths
  under-later i k p [] lt = tt
  under-later i k p ((q, h) ∷ xs) lt = (ground (arith, lt), under-later i k p xs lt)

  append-After : (p : List Str) (xs ys : Files) → After p xs → After p ys → After p (xs ++ ys)
  append-After p [] ys above above' = above'
  append-After p (x ∷ xs) ys (lt, above) above' = (lt, append-After p xs ys above above')

  files-later :
      (i : Str) (p : List Str) {look : Str → Option Info} {ks : List Str} (w : Walks look ks)
      → All (λ j. compare_str i j ≡ Ordering.lt) ks
      → After (i ∷ p) (files w)
  unfolding files cmp_paths
  files-later i p ended later = tt
  files-later i p (a_file k h found w) (lt, later) = (ground (arith, lt), files-later i p w later)
  files-later i p (a_dir k h c found loaded up inside w) (lt, later) =
      append-After (i ∷ p) (map (under k) (files inside)) (files w)
        (under-later i k p (files inside) lt) (files-later i p w later)

  pub files-filled :
      {look : Str → Option Info} {ks : List Str} (w : Walks look ks) → After [] (files w)
  unfolding files cmp_paths
  files-filled ended = tt
  files-filled (a_file k h found w) = (refl, files-filled w)
  files-filled (a_dir k h c found loaded up inside w) =
      append-After [] (map (under k) (files inside)) (files w) (under-filled k (files inside))
        (files-filled w)

  -- The files of a directory, followed by files whose paths begin with later names.
  before-IsAscending :
      (k : Str) (xs ys : Files)
      → IsAscending xs
      → ((p : List Str) → After (k ∷ p) ys)
      → IsAscending ys
      → IsAscending (map (under k) xs ++ ys)
  before-IsAscending k [] ys up later up' = up'
  before-IsAscending k ((p, h) ∷ xs) ys (above, up) later up' = (
    append-After (k ∷ p) (map (under k) xs) ys (under-After k p xs above) (later p),
    before-IsAscending k xs ys up later up',
  )

  pub files-IsAscending :
      {look : Str → Option Info} {ks : List Str} (w : Walks look ks)
      → IsUp ks
      → IsAscending (files w)
  unfolding files
  files-IsAscending ended up = tt
  files-IsAscending (a_file k h found w) (later, up) =
      (files-later k [] w later, files-IsAscending w up)
  files-IsAscending (a_dir k h c found loaded up' inside w) (later, up) =
      before-IsAscending k (files inside) (files w) (files-IsAscending inside up')
        (λ p. files-later k p w later) (files-IsAscending w up)
