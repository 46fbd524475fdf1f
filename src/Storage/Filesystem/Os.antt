-- ===== src/Storage/Filesystem/Os.antt =====
-- What internal/storage/filesystem.go uses of package os: files and directories by their clean
-- paths. Each call meets the next of `faults`, which says whether the system refuses it; a path in
-- `unreadable` is refused to a reader. The numbers of the errors are Linux's.
use httplock.Base.{
  ℕ, zero, suc, ◌+◌, Bool, true, false, Option, none, some, List, [], ◌∷◌, ◌++◌, Str, text, length,
  take, str_eq, has_prefix, ◌>>=◌, if◌then◌else◌, ◌||◌, ok, err,
}
use httplock.Base.Dict.{Dict, lookup, insert, erase}
use httplock.Hasher.{Bytes, Wrote}
use httplock.Storage.Errors.{Error, Res, Status, not_exist, io}
use package.httplock.Storage.Filesystem.Paths.{parent, prefixes}

pub data Node : Type 0 where
  directory : Node
  regular : Bytes → Node

-- `written` is how much a refused `Write` has written.
pub record Fault : Type 0 where
  pub error : ℕ
  pub written : ℕ

-- `names` are the random names that `os.CreateTemp` draws, and `drawn` is how many it has drawn.
pub record Disk : Type 0 where
  pub nodes : Dict Node
  pub unreadable : Dict ℕ
  pub faults : List (Option Fault)
  pub names : ℕ → Str
  pub drawn : ℕ

-- An `*os.File` that is open for writing.
pub record Handle : Type 0 where
  pub name : Str
  pub closed : Bool

-- EBADF, ENOTDIR and EISDIR
abbrev pub bad_file : Error
bad_file = io 9

abbrev pub not_directory : Error
not_directory = io 20

abbrev pub is_directory : Error
is_directory = io 21

abbrev head_fault : List (Option Fault) → Option Fault
head_fault [] = none
head_fault (f ∷ rest) = f

abbrev tail_faults : List (Option Fault) → List (Option Fault)
tail_faults [] = []
tail_faults (f ∷ rest) = rest

abbrev pub next_fault : Disk → Option Fault × Disk
next_fault d = (head_fault d.faults, record d { faults = tail_faults d.faults })

-- A call that does nothing when it is refused.
unfoldable pub attempt : {A : Type 0} → (Disk → Res A × Disk) → Disk → Res A × Disk
attempt call d =
    let (f, d') = next_fault d in
    elim f [ none ↦ call d' | some fault ↦ (err (io fault.error), d') ]

-- Is there a directory at the path? The root and the working directory are always there.
unfoldable pub is_dir : Dict Node → Str → Bool
is_dir nodes path = (str_eq path (text "/") || str_eq path (text ".")) || elim (lookup path nodes) [
  | none ↦ false
  | some n ↦ elim n [ directory ↦ true | regular b ↦ false ]
]

-- `os.Stat`, for `IsDir`.
abbrev pub find_node : Str → Disk → Res Bool × Disk
find_node path d =
    if is_dir d.nodes path
    then (ok true, d)
    else elim (lookup path d.nodes) [ none ↦ (err not_exist, d) | some n ↦ (ok false, d) ]

unfoldable pub stat : Str → Disk → Res Bool × Disk
unfolding attempt
stat path = attempt (find_node path)

abbrev pub make_dirs : List Str → Disk → Status × Disk
make_dirs [] d = (ok tt, d)
make_dirs (path ∷ paths) d =
    let made = make_dirs paths (record d { nodes = insert path directory d.nodes }) in
    let kept = make_dirs paths d in
    if is_dir d.nodes path
    then kept
    else elim (lookup path d.nodes) [ none ↦ made | some n ↦ (err not_directory, d) ]

-- `os.MkdirAll`
unfoldable pub mkdir_all : Str → Disk → Status × Disk
unfolding attempt prefixes
mkdir_all path = attempt (make_dirs (prefixes [] path))

-- Opening a file for reading, and what reading it to its end gives.
unfoldable pub open_file : Disk → Str → Res (Res Bytes)
open_file d path = elim (lookup path d.unreadable) [
  | some e ↦ err (io e)
  | none ↦ elim (lookup path d.nodes) [
    | none ↦ err not_exist
    | some n ↦ elim n [ directory ↦ ok (err is_directory) | regular b ↦ ok (ok b) ]
  ]
]

unfoldable pub read_file : Disk → Str → Res Bytes
unfolding open_file
read_file d path = open_file d path >>= λ content. content

abbrev pub new_handle : Str → Handle
new_handle path = record { name = path; closed = false }

abbrev pub put_file : Str → Bytes → Disk → Disk
put_file path b d = record d { nodes = insert path (regular b) d.nodes }

abbrev pub make_file : Str → Disk → Res Handle × Disk
make_file path d =
    if is_dir d.nodes path
    then (err is_directory, d)
    else if is_dir d.nodes (parent path)
    then (ok (new_handle path), put_file path [] d)
    else (err not_exist, d)

-- `os.Create`: a file that is there loses its content.
unfoldable pub create : Str → Disk → Res Handle × Disk
unfolding attempt
create path = attempt (make_file path)

-- `os.CreateTemp dir "*"` tries 10000 names before it gives up.
unfoldable pub try_names : ℕ → Str → Disk → Res Handle × Disk
try_names zero dir d = (err (io 17), d)
try_names (suc n) dir d =
    let path = dir ++ (b'/' ∷ d.names d.drawn) in
    let d' = record d { drawn = d.drawn + 1 } in
    elim (lookup path d.nodes) [
      | some there ↦ try_names n dir d'
      | none ↦ (ok (new_handle path), put_file path [] d')
    ]

abbrev pub make_temp : Str → Disk → Res Handle × Disk
make_temp dir d = if is_dir d.nodes dir then try_names 10000 dir d else (err not_exist, d)

unfoldable pub create_temp : Str → Disk → Res Handle × Disk
unfolding attempt
create_temp dir = attempt (make_temp dir)

-- Bytes at the end of a file, if it is still there.
unfoldable pub append_file : Str → Bytes → Disk → Disk
append_file path p d = elim (lookup path d.nodes) [
  | none ↦ d
  | some n ↦ elim n [ directory ↦ d | regular b ↦ put_file path (b ++ p) d ]
]

abbrev pub count_of : Bytes → Option Fault → Wrote Error
count_of p none = record { count = length p; error = none }
count_of p (some f) = record { count = length (take f.written p); error = some (io f.error) }

abbrev pub kept_of : Bytes → Option Fault → Bytes
kept_of p none = p
kept_of p (some f) = take f.written p

-- `Write` and `Close` of an `*os.File`.
unfoldable pub file_write : Handle × Disk → Bytes → Wrote Error × (Handle × Disk)
unfolding append_file
file_write (h, d) p =
    let (f, d') = next_fault d in
    if h.closed
    then (record { count = 0; error = some bad_file }, (h, d))
    else (count_of p f, (h, append_file h.name (kept_of p f) d'))

unfoldable pub file_close : Handle × Disk → Option Error × (Handle × Disk)
file_close (h, d) =
    let (f, d') = next_fault d in
    let done = record h { closed = true } in
    if h.closed
    then (some bad_file, (h, d))
    else elim f [ none ↦ (none, (done, d')) | some fault ↦ (some (io fault.error), (done, d')) ]

abbrev pub move_file : Str → Str → Disk → Status × Disk
move_file old to d =
    if is_dir d.nodes to
    then (err is_directory, d)
    else if is_dir d.nodes (parent to)
    then elim (lookup old d.nodes) [
      | none ↦ (err not_exist, d)
      | some n ↦ (ok tt, record d { nodes = insert to n (erase old d.nodes) })
    ]
    else (err not_exist, d)

-- `os.Rename` of a file.
unfoldable pub rename : Str → Str → Disk → Status × Disk
unfolding attempt
rename old to = attempt (move_file old to)

-- `os.Remove` of a file.
abbrev pub drop_file : Str → Disk → Status × Disk
drop_file path d = elim (lookup path d.nodes) [
  | none ↦ (err not_exist, d)
  | some n ↦ (ok tt, record d { nodes = erase path d.nodes })
]

unfoldable pub remove : Str → Disk → Status × Disk
unfolding attempt
remove path = attempt (drop_file path)

-- `os.MkdirTemp` in the directory for temporary files, of which one name is tried.
abbrev pub make_temp_dir : Str → Disk → Res Str × Disk
make_temp_dir prefix d =
    let path = prefix ++ d.names d.drawn in
    let d' = record d { drawn = d.drawn + 1 } in
    elim (lookup path d.nodes) [
      | some there ↦ (err (io 17), d')
      | none ↦ (ok path, record d' { nodes = insert path directory d.nodes })
    ]

unfoldable pub mkdir_temp : Str → Disk → Res Str × Disk
unfolding attempt
mkdir_temp prefix = attempt (make_temp_dir prefix)

-- The nodes that are neither at the path nor below it.
abbrev pub outside : Str → Dict Node → Dict Node
outside path [] = []
outside path ((p, n) ∷ nodes) =
    let rest = outside path nodes in
    if str_eq p path || has_prefix p (path ++ (b'/' ∷ [])) then rest else (p, n) ∷ rest

-- `os.RemoveAll`
abbrev pub drop_all : Str → Disk → Status × Disk
drop_all path d = (ok tt, record d { nodes = outside path d.nodes })

unfoldable pub remove_all : Str → Disk → Status × Disk
unfolding attempt
remove_all path = attempt (drop_all path)
