-- ===== src/Storage/Root.antt =====
-- The methods of `Root` (internal/storage/root.go). A pointer that a method follows into the tree
-- is a continuation that is run at the directory it points to; the tree is put together again
-- round what that returns. A method returns its result, the root and the state of the storage.
pub mod Hash
pub mod Hashing
pub mod Order
pub mod Saving
pub mod Frozen
pub mod Reach
pub mod Ends
pub mod Written
pub mod Walking
pub mod Report
pub mod ReadWrite
pub mod Digest
use Hash.{hash_file, hash_dir}
use httplock.Base.{
  ℕ, Bool, true, false, ◌&&◌, not, Option, none, some, List, [], ◌∷◌, Str, split_last, Result, ok,
  err, ◌>>=◌, if◌then◌else◌,
}
use httplock.Hasher.{Bytes}
use httplock.Storage.Errors.{
  Res, Status, read_only, not_found, not_a_file, not_a_directory, load_failed, hash_missing, panic,
}
use httplock.Storage.Backend.{Backend, Codec, Listing}
use httplock.Storage.Tree.{
  File, Dir, directory, Entries, DirEntry, dir_entry, file_entry, DirRef, no_dir, to_dir, dir_hash,
  entries, clear_hash, empty_dir, find, put_in, from_listing,
}

pub record Root : Type 0 where
  pub hash : Str
  pub dir : DirRef
  pub readonly : Bool

unfoldable pub new_root : Root
new_root = record { hash = []; dir = to_dir empty_dir; readonly = false }

unfoldable pub new_root_hash : Str → Root
new_root_hash hash = record { hash = hash; dir = no_dir; readonly = true }

-- `loadFile`
abbrev pub load_file : Str → File
load_file hash = record { hash = hash; blob_w = none }

-- The entry that `Write` leaves before it has a writer: an entry that is there keeps its hash.
unfoldable pub open_entry : Str → Option DirEntry → Res (Str × File)
open_entry name none = ok ([], record { hash = []; blob_w = none })
open_entry name (some (dir_entry h d)) = err (not_a_file name)
open_entry name (some (file_entry h (some f))) = ok (h, f)
open_entry name (some (file_entry h none)) = ok (h, load_file h)

module _ (B : Backend) (J : Codec) where
  -- What runs at the directory that a path leads to.
  abbrev pub At : Type 0 → Type 0
  At A = B.State → Dir → Res A × Dir × B.State

  unfoldable pub load_dir : B.State → Str → Res Dir
  load_dir s hash = do b ← B.blob_open s hash; l ← J.unmarshal b; ok (directory [] (from_listing l))

  -- The directory that an entry points to, loaded if it is not in memory, with the entry's hash.
  unfoldable pub entered : Bool → B.State → Str → Option DirEntry → Res (Str × Dir)
  entered write s name none = if write then ok ([], empty_dir) else err (not_found name)
  entered write s name (some (file_entry h f)) = err (not_a_directory name)
  entered write s name (some (dir_entry h (to_dir d))) = ok (h, d)
  entered write s name (some (dir_entry h no_dir)) = elim (load_dir s h) [
    | ok d ↦ ok (h, d)
    | err e ↦ err (load_failed name e)
  ]

  abbrev pub touch : Bool → Dir → Dir
  touch write d = if write then clear_hash d else d

  abbrev pub touch_hash : Bool → Str → Str
  touch_hash write h = if write then [] else h

  -- The loop of `getDir` over the names of a path. A write clears the hashes on its way.
  unfoldable pub walk : {A : Type 0} → Bool → List Str → At A → At A
  walk write [] k s d = k s (touch write d)
  walk write (name ∷ path) k s d = elim (entered write s name (find name (entries d))) [
    | err e ↦ (err e, touch write d, s)
    | ok (h, c) ↦
        let (r, c', s') = walk write path k s c in
        (r, put_in name (dir_entry (touch_hash write h) (to_dir c')) (touch write d), s')
  ]

  -- `loadRoot`: the directory of the root.
  unfoldable pub load_root : B.State → Root → Res Dir
  load_root s r = elim r.dir [ to_dir d ↦ ok d | no_dir ↦ load_dir s r.hash ]

  unfoldable pub get_dir :
      {A : Type 0} → Bool → List Str → At A → B.State → Root → Res A × Root × B.State
  get_dir write path k s r =
      if r.readonly && write then (err read_only, r, s) else elim (load_root s r) [
        | err e ↦ (err e, r, s)
        | ok d ↦
            let (a, d', s') = walk write path k s d in
            (a, record r { hash = touch_hash write r.hash; dir = to_dir d' }, s')
      ]

  -- A path is a slice of names; its last name is looked up in the directory that the others lead
  -- to. `path[len(path)-1]` panics on an empty one.
  abbrev pub on_path :
      {A : Type 0}
      → (List Str → Str → B.State → Root → Res A × Root × B.State)
      → List Str
      → B.State
      → Root
      → Res A × Root × B.State
  on_path f [] s r = (err panic, r, s)
  on_path f (n ∷ path) s r = let (front, name) = split_last n path in f front name s r

  pub link_at : Str → Str → At (Unit {0})
  link_at name blob s d = elim (find name (entries d)) [
    | some (dir_entry h c) ↦ (err (not_a_file name), d, s)
    | _ ↦ (ok tt, put_in name (file_entry [] (some (record { hash = blob; blob_w = none }))) d, s)
  ]

  unfoldable pub link : List Str → Str → B.State → Root → Status × Root × B.State
  unfolding link_at
  link path blob = on_path (λ front name. get_dir true front (link_at name blob)) path

  list_at : At Entries
  list_at s d = (ok (entries d), d, s)

  -- `List`
  unfoldable pub list_dir : List Str → B.State → Root → Res Entries × Root × B.State
  unfolding list_at
  list_dir path = get_dir false path list_at

  pub read_hashed : Str → Str → Status × File → At Bytes
  read_hashed name h (err e, f) s d = (err e, put_in name (file_entry h (some f)) d, s)
  read_hashed name h (ok _, f) s d =
      (B.blob_open s f.hash, put_in name (file_entry f.hash (some f)) d, s)

  unfoldable pub read_at : Str → At Bytes
  unfolding read_hashed
  read_at name s d = elim (find name (entries d)) [
    | none ↦ (err (not_found name), d, s)
    | some (dir_entry h c) ↦ (err (not_a_file name), d, s)
    | some (file_entry h none) ↦ (B.blob_open s h, d, s)
    | some (file_entry h (some f)) ↦ read_hashed name h (hash_file B s f) s d
  ]

  -- `Read`, and the reader read to its end.
  unfoldable pub read : List Str → B.State → Root → Res Bytes × Root × B.State
  read path = on_path (λ front name. get_dir false front (read_at name)) path

  pub write_into : Str → Str × File → Res ℕ × B.State → Dir → Res ℕ × Dir × B.State
  write_into name (h, f) (err e, s) d = (err e, put_in name (file_entry h (some f)) d, s)
  write_into name (h, f) (ok w, s) d =
      (ok w, put_in name (file_entry h (some (record f { blob_w = some w }))) d, s)

  unfoldable pub write_at : Str → At ℕ
  unfolding write_into
  write_at name s d = elim (open_entry name (find name (entries d))) [
    | err e ↦ (err e, d, s)
    | ok (h, f) ↦ write_into name (h, f) (B.blob_create s) d
  ]

  -- `Write`: the number of the writer.
  unfoldable pub write : List Str → B.State → Root → Res ℕ × Root × B.State
  write path s r =
      if r.readonly
      then (err read_only, r, s)
      else on_path (λ front name. get_dir true front (write_at name)) path s r

  -- `Save`
  name_root : Status × Dir × B.State → Root → Res Str × Root × B.State
  name_root (err e, d, s) r = (err e, record r { dir = to_dir d }, s)
  name_root (ok _, d, s) r = elim (dir_hash d) [
    | [] ↦ (err hash_missing, record r { hash = []; dir = to_dir d }, s)
    | c ∷ h ↦ (ok (c ∷ h), record r { hash = c ∷ h; dir = to_dir d }, s)
  ]

  root_hash : B.State → Root → Res Str × Root × B.State
  root_hash s r = elim r.hash [ [] ↦ (err hash_missing, r, s) | c ∷ h ↦ (ok (c ∷ h), r, s) ]

  unfoldable pub save : B.State → Root → Res Str × Root × B.State
  unfolding name_root root_hash
  save s r =
      if r.readonly
      then root_hash s r
      else elim r.dir [ no_dir ↦ root_hash s r | to_dir d ↦ name_root (hash_dir B J s d) r ]
