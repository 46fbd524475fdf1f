-- ===== src/Storage/Import.antt =====
-- internal/storage/import.go: an archive is unpacked to a temporary directory, and the blobs that a
-- root needs are read from there. The readers of compress/gzip and archive/tar are a parameter, and
-- `n` is the depth to which directories are followed.
pub mod Archive
pub mod Verified
pub mod Outcome
pub mod Found
pub mod Complete
use httplock.Base.{
  ℕ, zero, suc, ◌==◌, Option, none, some, List, [], ◌∷◌, ◌++◌, Str, text, str_eq, length, ok, err,
  if◌then◌else◌,
}
use httplock.Base.Dict.{Dict, lookup}
use httplock.Hasher.{Bytes}
use httplock.Storage.Errors.{Error, Res, Status, hash_mismatch, out_of_turns}
use httplock.Storage.Backend.{Backend, Codec, push}
use httplock.Storage.Tree.{
  File, Dir, directory, Entries, nil, cons, DirEntry, dir_entry, file_entry, to_dir, from_listing,
}
use httplock.Storage.Root.{Root, load_file}
use httplock.Storage.Memory.{MemStorage, root_save}
use httplock.Storage.Memory.Blobs.{memory}
use httplock.Storage.Filesystem.{index_file}
use httplock.Storage.Filesystem.Paths.{clean, join_path}
use httplock.Storage.Filesystem.Os.{
  Disk, open_file, read_file, mkdir_all, create, file_write, file_close, mkdir_temp, remove_all,
}

-- The file of a name that an archive gives, under a directory that it cannot leave.
unfoldable pub inside : Str → Str → Str
inside tmp_dir name = join_path tmp_dir (clean (b'/' ∷ name))

module _ (B : Backend) (J : Codec) (tmp_dir : Str) (d : Disk) where
  -- The hash of a blob that was pushed is compared with its name.
  unfoldable pub verified : Str → Status × Str × B.State → Status × B.State
  verified hash (err e, h, s) = (err e, s)
  verified hash (ok _, h, s) = (if str_eq h hash then ok tt else err (hash_mismatch h hash), s)

  -- `io.Copy` whose reader fails: the writer is closed.
  abbrev pub copy_failed : Error → Res ℕ × B.State → Res File × B.State
  copy_failed e (err x, s) = (err x, s)
  copy_failed e (ok w, s) = (err e, (B.blob_close s w).1)

  abbrev pub file_or_error : Str → Status × B.State → Res File × B.State
  file_or_error hash (err e, s) = (err e, s)
  file_or_error hash (ok _, s) = (ok (load_file hash), s)

  abbrev pub copied : Str → B.State → Res Bytes → Res File × B.State
  copied hash s (err e) = copy_failed e (B.blob_create s)
  copied hash s (ok b) = file_or_error hash (verified hash (push B s [] b))

  -- `importFile`
  unfoldable pub import_file : Str → B.State → Res File × B.State
  import_file hash s = elim (open_file d (inside tmp_dir hash)) [
    | err e ↦ (err e, s)
    | ok content ↦ copied hash s content
  ]

  abbrev pub Importer : Type 0
  Importer = Str → B.State → Res Dir × B.State

  abbrev pub in_dir_entry : Str → Res Dir × B.State → Res DirEntry × B.State
  in_dir_entry h (err e, s) = (err e, s)
  in_dir_entry h (ok c, s) = (ok (dir_entry h (to_dir c)), s)

  abbrev pub in_file_entry : Str → Res File × B.State → Res DirEntry × B.State
  in_file_entry h (err e, s) = (err e, s)
  in_file_entry h (ok f, s) = (ok (file_entry h (some f)), s)

  unfoldable pub import_entry : Importer → DirEntry → B.State → Res DirEntry × B.State
  import_entry go (dir_entry h c) s = in_dir_entry h (go h s)
  import_entry go (file_entry h f) s = in_file_entry h (import_file h s)

  abbrev pub with_entry : Str → DirEntry → Res Entries × B.State → Res Entries × B.State
  with_entry k e (err x, s) = (err x, s)
  with_entry k e (ok es, s) = (ok (cons k e es), s)

  abbrev pub next_entry :
      Str → Res DirEntry → B.State → Res Entries × B.State → Res Entries × B.State
  next_entry k (err x) s rest = (err x, s)
  next_entry k (ok e) s rest = with_entry k e rest

  unfoldable pub import_entries : Importer → Entries → B.State → Res Entries × B.State
  import_entries go nil s = (ok nil, s)
  import_entries go (cons k e es) s =
      let (r, s') = import_entry go e s in
      let rest = import_entries go es s' in next_entry k r s' rest

  abbrev pub dir_or_error : Str → Res Entries × B.State → Res Dir × B.State
  dir_or_error hash (err e, s) = (err e, s)
  dir_or_error hash (ok es, s) = (ok (directory hash es), s)

  abbrev pub then_entries : Importer → Str → Entries → Status × B.State → Res Dir × B.State
  then_entries go hash es (err e, s) = (err e, s)
  then_entries go hash es (ok _, s) = dir_or_error hash (import_entries go es s)

  -- `importDir` once the blob of the directory is read.
  unfoldable pub import_bytes : Importer → Str → Bytes → B.State → Res Dir × B.State
  import_bytes go hash b s = elim (J.unmarshal b) [
    | err e ↦ (err e, s)
    | ok l ↦ then_entries go hash (from_listing l) (verified hash (push B s [] b))
  ]

  -- `importDir`
  unfoldable pub import_dir : ℕ → Importer
  import_dir zero hash s = (err out_of_turns, s)
  import_dir (suc n) hash s = elim (read_file d (inside tmp_dir hash)) [
    | err e ↦ (err e, s)
    | ok b ↦ import_bytes (import_dir n) hash b s
  ]
