-- ===== src/Storage/Filesystem/Calls.antt =====
-- The calls of package os one by one: what each leaves on the disk.
use httplock.Base.{
  ◌≡◌, none, some, List, [], ◌∷◌, ◌++◌, Str, ok, str_eq_iff, Option-cases, Bool-cases, inl, inr,
  arith,
}
use httplock.Base.Dict.{lookup, insert, lookup-insert}
use httplock.Hasher.{Bytes}
use httplock.Storage.Errors.{Res}
use package.httplock.Storage.Filesystem.Paths.{prefixes, parent}
use package.httplock.Storage.Filesystem.Os.{
  Disk, Handle, directory, regular, next_fault, attempt, is_dir, stat, find_node, make_dirs,
  mkdir_all, create, make_file, new_handle, put_file, file_write, append_file, open_file, read_file,
}

-- A file that is on the disk, and may be read.
abbrev pub Holds : Disk → Str → Bytes → Type 0
Holds d path b = (lookup path d.nodes ≡ some (regular b)) × (lookup path d.unreadable ≡ none)

pub read_file-Holds : (d : Disk) (path : Str) {b : Bytes} → Holds d path b → read_file d path ≡ ok b
unfolding read_file open_file
read_file-Holds d path (there, readable) = rw (readable, read_file, open_file) (rw there)

-- A call that makes nothing of a file.
abbrev pub Keeps : {A : Type 0} → (Disk → Res A × Disk) → Type 0
Keeps call = (d : Disk) (path : Str) (b : Bytes) → Holds d path b → Holds (call d).1 path b

pub attempt-Keeps : {A : Type 0} (call : Disk → Res A × Disk) → Keeps call → Keeps (attempt call)
unfolding attempt
attempt-Keeps call keeps d path b there = elim (Option-cases (next_fault d).0) [
  | inl free ↦ rw (free, attempt) (keeps (next_fault d).1 path b there)
  | inr (f, refused) ↦ rw (refused, attempt) there
]

find_node-Keeps : (path : Str) → Keeps (find_node path)
find_node-Keeps path d p b there = elim (Bool-cases (is_dir d.nodes path)) [
  | inl dir ↦ rw dir there
  | inr other ↦ elim (Option-cases (lookup path d.nodes)) [
    | inl gone ↦ rw (other, gone) there
    | inr (n, found) ↦ rw (other, found) there
  ]
]

-- A directory is made where there was nothing.
put_dir-Holds :
    (at : Str) (d : Disk) (p : Str) (b : Bytes)
    → lookup at d.nodes ≡ none
    → Holds d p b
    → Holds (record d { nodes = insert at directory d.nodes }) p b
put_dir-Holds at d p b gone (there, readable) =
    (ground (arith, lookup-insert at p directory d.nodes, str_eq_iff at p, gone, there), readable)

make_dirs-Keeps : (paths : List Str) → Keeps (make_dirs paths)
make_dirs-Keeps [] d p b there = there
make_dirs-Keeps (path ∷ paths) d p b there = elim (Bool-cases (is_dir d.nodes path)) [
  | inl dir ↦ rw dir (make_dirs-Keeps paths d p b there)
  | inr other ↦ elim (Option-cases (lookup path d.nodes)) [
    | inl gone ↦
        rw (other, gone) (make_dirs-Keeps paths _ p b (put_dir-Holds path d p b gone there))
    | inr (n, found) ↦ rw (other, found) there
  ]
]

pub stat-Keeps : (path : Str) → Keeps (stat path)
unfolding stat
stat-Keeps path = attempt-Keeps (find_node path) (find_node-Keeps path)

pub mkdir_all-Keeps : (path : Str) → Keeps (mkdir_all path)
unfolding mkdir_all
mkdir_all-Keeps path =
    attempt-Keeps (make_dirs (prefixes [] path)) (make_dirs-Keeps (prefixes [] path))

make_file-ok :
    (path : Str) (d : Disk) {h : Handle} {d' : Disk}
    → make_file path d ≡ (ok h, d')
    → (h ≡ new_handle path) × (d' ≡ put_file path [] d)
make_file-ok path d done = elim (Bool-cases (is_dir d.nodes path)) [
  | inl dir ↦ ground arith
  | inr other ↦ elim (Bool-cases (is_dir d.nodes (parent path))) [
    | inl home ↦ ground arith
    | inr homeless ↦ ground arith
  ]
]

-- A file that was made is empty and open, and nothing else has changed.
pub create-ok :
    (path : Str) (d : Disk) {h : Handle} {d' : Disk}
    → create path d ≡ (ok h, d')
    → (h ≡ new_handle path) × (d' ≡ put_file path [] (next_fault d).1)
unfolding create attempt
create-ok path d {h} {d'} done = elim (Option-cases (next_fault d).0) [
  | inr (f, refused) ↦ ground arith
  | inl free ↦ make_file-ok path (next_fault d).1 (ground arith)
]

-- A file that is open and that was written without an error has the bytes at its end.
pub file_write-ok :
    (path : Str) (d : Disk) (p old : Bytes)
    → lookup path d.nodes ≡ some (regular old)
    → (file_write (new_handle path, d) p).0.error ≡ none
    → (file_write (new_handle path, d) p).1
      ≡ (new_handle path, put_file path (old ++ p) (next_fault d).1)
unfolding file_write append_file
file_write-ok path d p old there done = elim (Option-cases (next_fault d).0) [
  | inr (f, refused) ↦ ground arith
  | inl free ↦ rw (free, file_write) (rw (there, append_file))
]
