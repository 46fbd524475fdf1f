-- ===== src/Storage/Import/Archive.antt =====
-- `Import` (internal/storage/import.go) over the storage in memory. A step of it either goes on, or
-- returns: `some`, with what is returned.
use httplock.Base.{
  ℕ, false, ◌==◌, Option, none, some, List, [], ◌∷◌, ◌++◌, Str, text, str_eq, length, ok, err,
  if◌then◌else◌,
}
use httplock.Base.Dict.{Dict, lookup}
use httplock.Hasher.{Bytes}
use httplock.Storage.Errors.{Error, Res, Status, hash_mismatch}
use httplock.Storage.Backend.{Codec}
use httplock.Storage.Tree.{Dir, to_dir}
use httplock.Storage.Memory.{MemStorage, root_save}
use httplock.Storage.Memory.Blobs.{MemBlobs, memory}
use httplock.Storage.Filesystem.{index_file}
use httplock.Storage.Filesystem.Paths.{join_path}
use httplock.Storage.Filesystem.Os.{
  Disk, Handle, read_file, mkdir_all, create, file_write, file_close, mkdir_temp, remove_all,
}
use package.httplock.Storage.Import.{inside, import_dir}

-- `th.Typeflag`
pub data Flag : Type 0 where
  type_dir type_reg type_other : Flag

-- An entry of an archive; reading its content may end in an error.
pub record TarItem : Type 0 where
  pub name : Str
  pub flag : Flag
  pub size : ℕ
  pub content : Bytes
  pub broken : Option Error

-- What the readers find: the entries, and the error after the last one, if it is not `io.EOF`.
pub record Tar : Type 0 where
  pub items : List TarItem
  pub broken : Option Error

-- Readers of the formats of an archive; `unmarshal_version` reads a `fileHTTPLock`.
pub record Readers : Type 0 where
  pub gunzip : Bytes → Res Tar
  pub unmarshal_version : Bytes → Res Str
  pub unmarshal_index : Bytes → Res (Dict ℕ)

-- `filenameHTTPLock`
abbrev pub version_file : Str
version_file = text "httplock"

-- The directory and the prefix of `os.MkdirTemp("", "httplock-*")`.
abbrev pub temp_prefix : Str
temp_prefix = text "/tmp/httplock-"

-- What the function returns, if it does.
abbrev pub Stop : Type 0
Stop = Option Status

abbrev stop_on : Option Error → Stop
stop_on none = none
stop_on (some e) = some (err e)

abbrev first_error : Option Error → Option Error → Option Error
first_error none e = e
first_error (some x) e = some x

-- After `io.Copy`: too few bytes end the import without an error.
abbrev checked_size : Option Error → ℕ → ℕ → Stop
checked_size (some e) n size = some (err e)
checked_size none n size = if n == size then none else some (ok tt)

abbrev copy_item : TarItem → Res Handle × Disk → Stop × Disk
copy_item i (err e, d) = (some (err e), d)
copy_item i (ok h, d) =
    let (n, held) = file_write (h, d) i.content in
    let (e, held') = file_close held in
    (checked_size (first_error n.error i.broken) n.count i.size, held'.1)

abbrev made_dir : Status × Disk → Stop × Disk
made_dir (err e, d) = (some (err e), d)
made_dir (ok _, d) = (none, d)

unfoldable pub extract_item : Str → TarItem → Disk → Stop × Disk
unfolding inside mkdir_all create file_write file_close
extract_item tmp_dir i d = elim i.flag [
  | type_dir ↦ made_dir (mkdir_all (inside tmp_dir i.name) d)
  | type_reg ↦ copy_item i (create (inside tmp_dir i.name) d)
  | type_other ↦ (none, d)
]

-- The loop over the archive.
unfoldable pub extract : Str → List TarItem → Option Error → Disk → Stop × Disk
unfolding extract_item
extract tmp_dir [] broken d = (stop_on broken, d)
extract tmp_dir (i ∷ items) broken d =
    let (stop, d') = extract_item tmp_dir i d in
    elim stop [ some st ↦ (some st, d') | none ↦ extract tmp_dir items broken d' ]

-- Another version ends the import without an error, and so does an index without the root.
abbrev right_version : Res Str → Stop
right_version (err e) = some (err e)
right_version (ok v) = if str_eq v (text "1.0") then none else some (ok tt)

abbrev has_root : Str → Res (Dict ℕ) → Stop
has_root id (err e) = some (err e)
has_root id (ok index) = elim (lookup id index) [ none ↦ some (ok tt) | some used ↦ none ]

abbrev pub or_else : Stop → Stop → Stop
or_else none s = s
or_else (some st) s = some st

abbrev decoded {ℓ} : {A : Type ℓ} → (Bytes → Res A) → Res Bytes → Res A
decoded f (err e) = err e
decoded f (ok b) = f b

module _ (X : Readers) where
  -- The files that tell what the archive is.
  unfoldable pub check_archive : Str → Str → Disk → Stop
  check_archive id tmp_dir d =
      or_else
        (right_version (decoded X.unmarshal_version (read_file d (join_path tmp_dir version_file))))
        (has_root id (decoded X.unmarshal_index (read_file d (join_path tmp_dir index_file))))

  module _ (digest : Bytes → Str) (J : Codec) (n : ℕ) where
    -- `newRoot` is an object without a name until it is saved.
    abbrev pub hold : Dir → MemStorage → MemStorage
    hold c m = record m {
      objects = m.objects ++ (record { hash = []; dir = to_dir c; readonly = false } ∷ []);
    }

    abbrev pub same_hash : Str → Res Str × MemStorage → Status × MemStorage
    same_hash id (err e, m) = (err e, m)
    same_hash id (ok hash, m) = (if str_eq hash id then ok tt else err (hash_mismatch id hash), m)

    unfoldable pub save_imported : Str → ℕ → MemStorage → Res Dir × MemBlobs → Status × MemStorage
    save_imported id now m (err e, s) = (err e, record m { blobs = s })
    save_imported id now m (ok c, s) =
        same_hash id (root_save digest J (length m.objects) now (hold c (record m { blobs = s })))

    unfoldable pub import_root : Str → ℕ → Str → MemStorage → Disk → Status × MemStorage
    import_root id now tmp_dir m d =
        save_imported id now m (import_dir (memory digest) J tmp_dir d n id m.blobs)

    abbrev pub Imported : Type 0
    Imported = Status × MemStorage × Disk

    abbrev pub stopped_or : Status × MemStorage → MemStorage → Stop → Status × MemStorage
    stopped_or go_on m (some st) = (st, m)
    stopped_or go_on m none = go_on

    -- `defer os.RemoveAll(tmpDir)`
    abbrev pub cleaned : Str → Disk → Status × MemStorage → Imported
    cleaned tmp_dir d (st, m) = (st, m, (remove_all tmp_dir d).1)

    abbrev pub import_tar : Str → ℕ → Str → MemStorage → Disk → Res Tar → Imported
    import_tar id now tmp_dir m d (err e) = cleaned tmp_dir d (err e, m)
    import_tar id now tmp_dir m d (ok tar) =
        let (stop, d') = extract tmp_dir tar.items tar.broken d in
        cleaned tmp_dir d' (
          stopped_or (import_root id now tmp_dir m d') m
            (or_else stop (check_archive id tmp_dir d')))

    abbrev pub import_to : Str → ℕ → Bytes → MemStorage → Res Str × Disk → Imported
    import_to id now archive m (err e, d) = (err e, m, d)
    import_to id now archive m (ok tmp_dir, d) = import_tar id now tmp_dir m d (X.gunzip archive)

    -- `Import`
    unfoldable pub import_archive : Str → ℕ → Bytes → MemStorage → Disk → Imported
    unfolding mkdir_temp remove_all extract check_archive import_root save_imported
    import_archive id now archive m d = import_to id now archive m (mkdir_temp temp_prefix d)
