-- ===== src/Storage/Diff.antt =====
-- `DiffRoots` and its iterator (internal/storage/root.go). An iterator holds the directories from
-- the root of its tree to the one that it is in. `de.dir = …` changes the tree through a pointer:
-- here a directory that is left is put into the one above it.
use httplock.Base.{
  ℕ, zero, suc, true, false, not, ◌&&◌, ◌||◌, Option, none, some, List, [], ◌∷◌, ◌++◌, Str, str_eq,
  compare_str, sort_strs, ok, err, if◌then◌else◌, Bool,
}
pub mod Order
pub mod Merge
pub mod Ascending
pub mod Files
pub mod Iterator
pub mod Sides
pub mod Turns
pub mod Loop
pub mod Correct
pub mod Rooted
pub mod Frozen
use Prim.Native.Nat.{Ordering}
use httplock.Storage.Errors.{
  Error, Res, Status, diff_hash_failed, diff_hash_missing, lookup_failed, dir_failed, out_of_turns,
}
use httplock.Storage.Backend.{Backend, Codec}
use httplock.Storage.Tree.{
  Dir, directory, Entries, nil, cons, DirEntry, dir_entry, file_entry, DirRef, no_dir, to_dir,
  dir_hash, entries, find, put_in,
}
use httplock.Storage.Root.{Root, load_dir, load_root}
use httplock.Storage.Root.Hash.{hash_dir}

abbrev names : Entries → List Str
names nil = []
names (cons k e es) = k ∷ names es

-- `Dir.keys`
unfoldable pub keys : Dir → List Str
keys d = sort_strs (names (entries d))

-- `cmpPaths`: `Ordering.gt` is +1.
unfoldable pub cmp_paths : List Str → List Str → Ordering
cmp_paths [] [] = Ordering.eq
cmp_paths [] (b ∷ p2) = Ordering.lt
cmp_paths (a ∷ p1) [] = Ordering.gt
cmp_paths (a ∷ p1) (b ∷ p2) = elim (compare_str a b) [ Ordering.eq ↦ cmp_paths p1 p2 | o ↦ o ]

-- The action is the constructor, with the hashes that are not left empty.
pub data DiffEntry : Type 0 where
  deleted : List Str → Str → DiffEntry
  added : List Str → Str → DiffEntry
  changed : List Str → Str → Str → DiffEntry

pub record DiffReport : Type 0 where
  pub r1 : Str
  pub r2 : Str
  pub entries : List DiffEntry

-- One of `curDirs`, with its `remainingEntries` and its part of `curPath`.
pub record Frame : Type 0 where
  pub dir : Dir
  pub remaining : List Str
  pub name : Str

-- The frame of the directory that the iterator is in comes first.
pub record DiffIter : Type 0 where
  pub r : Root
  pub frames : List Frame
  pub cur_file_hash : Str

abbrev pub path_to : List Frame → List Str → List Str
path_to [] p = p
path_to (f ∷ fs) p = path_to fs (f.name ∷ p)

-- `curPath`
abbrev pub cur_path : DiffIter → List Str
cur_path di = path_to di.frames []

abbrev pub new_frame : Dir → Frame
new_frame d = record { dir = d; remaining = keys d; name = [] }

-- `de.dir = …`
abbrev pub point_to : Str → DirRef → Dir → Dir
point_to name c d = elim (find name (entries d)) [
  | some (dir_entry h x) ↦ put_in name (dir_entry h c) d
  | _ ↦ d
]

abbrev pub in_root : Dir → Root → Root
in_root d r = record r { dir = to_dir d }

-- The leaf is removed.
unfoldable pub leave : Dir → List Frame → DiffIter → DiffIter
leave d [] di = record { r = in_root d di.r; frames = []; cur_file_hash = [] }
leave d (f ∷ fs) di = record di {
  frames = record f { dir = point_to f.name (to_dir d) f.dir } ∷ fs;
  cur_file_hash = [];
}

-- What `next` returns, and the two ways in which a turn of its loop ends.
pub data Advance : Type 0 where
  moved : List Str → Advance
  eof : Advance
  failed : Error → Advance

pub data Turn : Type 0 where
  stop : Advance → DiffIter → Turn
  again : DiffIter → Turn

module _ (B : Backend) (J : Codec) where
  unfoldable pub new_diff_iter : B.State → Root → Res DiffIter
  new_diff_iter s r = elim (load_root B J s r) [
    | err e ↦ err e
    | ok d ↦ ok (record { r = in_root d r; frames = new_frame d ∷ []; cur_file_hash = [] })
  ]

  unfoldable pub enter : Str → Res Dir → Frame → List Frame → DiffIter → Turn
  enter name (err e) f fs di =
      stop (failed (dir_failed (path_to (f ∷ fs) []) e))
        (record di { frames = record f { dir = point_to name no_dir f.dir } ∷ fs })
  enter name (ok c) f fs di = again (record di {
    frames = new_frame c ∷ record f { dir = point_to name (to_dir c) f.dir } ∷ fs;
    cur_file_hash = [];
  })

  -- The entry that the leaf `f` has just moved to.
  unfoldable pub visit : B.State → Option DirEntry → Frame → List Frame → DiffIter → Turn
  visit s none f fs di =
      stop (failed (lookup_failed (path_to (f ∷ fs) []))) (record di { frames = f ∷ fs })
  visit s (some (file_entry h x)) f fs di =
      stop (moved (path_to (f ∷ fs) [])) (record di { frames = f ∷ fs; cur_file_hash = h })
  visit s (some (dir_entry h x)) f fs di = enter f.name (load_dir B J s h) f fs di

  -- A turn of the loop of `next`.
  unfoldable pub turn : B.State → DiffIter → Turn
  turn s di = elim di.frames [
    | [] ↦ stop eof di
    | f ∷ fs ↦ elim f.remaining [
      | [] ↦ again (leave f.dir fs di)
      | k ∷ ks ↦ visit s (find k (entries f.dir)) (record f { remaining = ks; name = k }) fs di
    ]
  ]

  unfoldable pub next : ℕ → B.State → DiffIter → Advance × DiffIter
  next zero s di = (failed out_of_turns, di)
  next (suc n) s di = elim (turn s di) [ stop a di' ↦ (a, di') | again di' ↦ next n s di' ]

-- Which of the two iterators is behind.
pub data Side : Type 0 where
  first second both : Side

abbrev is_empty : List Str → Bool
is_empty [] = true
is_empty (a ∷ p) = false

abbrev is_lt : Ordering → Bool
is_lt o = elim o [ Ordering.lt ↦ true | _ ↦ false ]

abbrev is_gt : Ordering → Bool
is_gt o = elim o [ Ordering.gt ↦ true | _ ↦ false ]

unfoldable pub side : List Str → List Str → Side
side p1 p2 =
    if not (is_empty p1) && (is_empty p2 || is_lt (cmp_paths p1 p2))
    then first
    else if not (is_empty p2) && (is_empty p1 || is_gt (cmp_paths p1 p2))
    then second
    else both

-- `changed` if the paths lead to files with different hashes.
unfoldable pub compare_files : List Str → Str → Str → List DiffEntry
compare_files [] h1 h2 = []
compare_files (a ∷ p) h1 h2 = if str_eq h1 h2 then [] else changed (a ∷ p) h1 h2 ∷ []

-- What a turn of the loop of `DiffRoots` leaves.
pub data Compared : Type 0 where
  finish : Option Error → List DiffEntry → DiffIter → DiffIter → Compared
  continue : List DiffEntry → DiffIter → DiffIter → Compared

unfoldable pub after_first : List DiffEntry → Advance × DiffIter → DiffIter → Compared
after_first acc (failed e, a) b = finish (some e) acc a b
after_first acc (_, a) b = continue acc a b

unfoldable pub after_second : List DiffEntry → DiffIter → Advance × DiffIter → Compared
after_second acc a (failed e, b) = finish (some e) acc a b
after_second acc a (_, b) = continue acc a b

abbrev is_eof : Advance → Bool
is_eof eof = true
is_eof _ = false

unfoldable pub after_both :
    List DiffEntry → Advance × DiffIter → Advance × DiffIter → DiffIter → Compared
after_both acc (failed e, a) moved2 b = finish (some e) acc a b
after_both acc (x, a) (failed e, b') b = finish (some e) acc a b'
after_both acc (x, a) (y, b') b =
    if is_eof x && is_eof y then finish none acc a b' else continue acc a b'

module _ (B : Backend) (J : Codec) where
  -- `n` turns are given to each call of `next`.
  unfoldable pub compare_turn : ℕ → B.State → List DiffEntry → DiffIter → DiffIter → Compared
  compare_turn n s acc a b = elim (side (cur_path a) (cur_path b)) [
    | first ↦ after_first (acc ++ (deleted (cur_path a) a.cur_file_hash ∷ [])) (next B J n s a) b
    | second ↦ after_second (acc ++ (added (cur_path b) b.cur_file_hash ∷ [])) a (next B J n s b)
    | both ↦
        after_both (acc ++ compare_files (cur_path a) a.cur_file_hash b.cur_file_hash)
          (next B J n s a) (next B J n s b) b
  ]

  unfoldable pub compare_loop :
      ℕ
      → ℕ
      → B.State
      → List DiffEntry
      → DiffIter
      → DiffIter
      → Option Error × List DiffEntry × DiffIter × DiffIter
  compare_loop zero n s acc a b = (some out_of_turns, acc, a, b)
  compare_loop (suc m) n s acc a b = elim (compare_turn n s acc a b) [
    | finish e acc a b ↦ (e, acc, a, b)
    | continue acc a b ↦ compare_loop m n s acc a b
  ]

  abbrev pub unwind : Dir → List Frame → Dir
  unwind d [] = d
  unwind d (f ∷ fs) = unwind (point_to f.name (to_dir d) f.dir) fs

  -- The root of an iterator, as it is in memory.
  abbrev pub root_of : DiffIter → Root
  root_of di = elim di.frames [ [] ↦ di.r | f ∷ fs ↦ in_root (unwind f.dir fs) di.r ]

  -- The hash of the root number `i`.
  unfoldable pub require_root_hash : ℕ → Root → Res Str
  require_root_hash i r = elim r.hash [ [] ↦ err (diff_hash_missing i) | c ∷ h ↦ ok (c ∷ h) ]

  unfoldable pub name_hashed : ℕ → Root → Status × Dir × B.State → Res Str × Root × B.State
  name_hashed i r (err e, d, s) = (err (diff_hash_failed i e), in_root d r, s)
  name_hashed i r (ok _, d, s) =
      let named = record r { hash = dir_hash d; dir = to_dir d } in
      (require_root_hash i named, named, s)

  unfoldable pub hash_root : ℕ → B.State → Root → Res Str × Root × B.State
  hash_root i s r = if r.readonly then (require_root_hash i r, r, s) else elim r.dir [
    | no_dir ↦ (require_root_hash i r, r, s)
    | to_dir d ↦ name_hashed i r (hash_dir B J s d)
  ]

  abbrev pub Diffed : Type 0
  Diffed = Option Error × DiffReport × Root × Root × B.State

  abbrev pub give :
      DiffReport → B.State → Option Error × List DiffEntry × DiffIter × DiffIter → Diffed
  give dr s (e, es, a, b) = (e, record dr { entries = es }, root_of a, root_of b, s)

  unfoldable pub compare_roots : ℕ → ℕ → DiffReport → B.State → Root → Root → Diffed
  compare_roots m n dr s r1 r2 = elim (new_diff_iter B J s r1) [
    | err e ↦ (some e, dr, r1, r2, s)
    | ok a ↦ elim (new_diff_iter B J s r2) [
      | err e ↦ (some e, dr, root_of a, r2, s)
      | ok b ↦ give dr s (compare_loop m n s [] a b)
    ]
  ]

  unfoldable pub hash_second : ℕ → ℕ → Str → Root → Res Str × Root × B.State → Diffed
  hash_second m n h1 r1 (err e, r2, s) =
      (some e, record { r1 = h1; r2 = []; entries = [] }, r1, r2, s)
  hash_second m n h1 r1 (ok h2, r2, s) =
      compare_roots m n (record { r1 = h1; r2 = h2; entries = [] }) s r1 r2

  unfoldable pub hash_first : ℕ → ℕ → Res Str × Root × B.State → Root → Diffed
  hash_first m n (err e, r1, s) r2 = (some e, record { r1 = []; r2 = []; entries = [] }, r1, r2, s)
  hash_first m n (ok h1, r1, s) r2 = hash_second m n h1 r1 (hash_root 2 s r2)

  -- `DiffRoots`, with `m` turns for its loop and `n` for each call of `next`.
  unfoldable pub diff_roots : ℕ → ℕ → B.State → Root → Root → Diffed
  diff_roots m n s r1 r2 = hash_first m n (hash_root 1 s r1) r2
