-- ===== src/Storage/Export.antt =====
-- internal/storage/export.go: the files of an archive of a root, in their order. The writer of
-- archive/tar over the one of compress/gzip, and the encoders of the first two files, are
-- parameters; `n` is the depth to which directories are followed.
use httplock.Base.{ℕ, [], ◌∷◌, ◌++◌, Str, text, length, ok, err}
use httplock.Hasher.{Bytes}
use httplock.Storage.Errors.{Error, Res, Status, hash_missing, file_hash_missing}
use httplock.Storage.Backend.{Backend, Codec}
use httplock.Storage.Tree.{File, Dir, dir_hash}
use httplock.Storage.Root.{Root}
use httplock.Storage.Root.Hash.{hash_dir, hash_file}
use httplock.Storage.Root.Walking.{WalkFns, walk_root}
use httplock.Storage.Root.Report.{report}
use httplock.Storage.Memory.{MemStorage, root_open, on_root}
use httplock.Storage.Memory.Blobs.{MemBlobs, memory}
use httplock.Storage.Filesystem.{index_file}
use httplock.Storage.Import.Archive.{version_file}

-- A writer of archives: the header of an entry, with its name and size, and bytes of its content.
-- `close` is the end of both writers.
pub record TarWriter : Type 1 where
  pub Out : Type 0
  pub write_header : Out → Str → ℕ → Status × Out
  pub write_bytes : Out → Bytes → Status × Out
  pub close : Out → Out

-- The encoders of the version and of an index that lists one hash.
pub record Encoders : Type 0 where
  pub marshal_version : Str → Res Bytes
  pub marshal_root : Str → Res Bytes

-- `filenameIndexMD`
abbrev pub report_file : Str
report_file = text "index.md"

module _ (T : TarWriter) where
  abbrev pub then_bytes : Bytes → Status × T.Out → Status × T.Out
  then_bytes b (err e, o) = (err e, o)
  then_bytes b (ok _, o) = T.write_bytes o b

  -- `tarAdd`, and `tarAddReader` with the size and the content of a blob.
  unfoldable pub tar_add : Str → Bytes → T.Out → Status × T.Out
  tar_add name b o = then_bytes b (T.write_header o name (length b))

  module _ (B : Backend) (J : Codec) where
    abbrev pub add_opened : Str → T.Out → Res Bytes → Status × T.Out
    add_opened name o (err e) = (err e, o)
    add_opened name o (ok b) = tar_add name b o

    -- The blob of a directory or of a file is added under its hash.
    abbrev pub add_blob : Error → Str → T.Out → B.State → Status × T.Out
    add_blob missing [] o s = (err missing, o)
    add_blob missing (c ∷ h) o s = add_opened (c ∷ h) o (B.blob_open s (c ∷ h))

    abbrev pub export_dir : T.Out → Status × Dir × B.State → Status × T.Out × Dir × B.State
    export_dir o (err e, d, s) = (err e, o, d, s)
    export_dir o (ok _, d, s) =
        let (st, o') = add_blob hash_missing (dir_hash d) o s in (st, o', d, s)

    abbrev pub export_file : T.Out → B.State → Status × File → Status × T.Out × File × B.State
    export_file o s (err e, f) = (err e, o, f, s)
    export_file o s (ok _, f) =
        let (st, o') = add_blob file_hash_missing f.hash o s in (st, o', f, s)

    unfoldable pub export_fns : WalkFns B J T.Out
    unfolding tar_add
    export_fns = record {
      fn_dir = λ o s d. export_dir o (hash_dir B J s d);
      fn_file = λ o s f. export_file o s (hash_file B s f);
    }

    abbrev pub Exported : Type 0
    Exported = Status × T.Out × Root × B.State

    abbrev pub add_encoded : Str → Res Bytes → T.Out → Status × T.Out
    add_encoded name (err e) o = (err e, o)
    add_encoded name (ok b) o = tar_add name b o

    abbrev pub add_next : (T.Out → Status × T.Out) → Status × T.Out → Status × T.Out
    add_next add (err e, o) = (err e, o)
    add_next add (ok _, o) = add o

    abbrev pub heading : Str → Bytes
    heading lines = text "# Index" ++ (10 ∷ 10 ∷ lines)

    abbrev pub walk_after : ℕ → Root → B.State → Status × T.Out → Exported
    walk_after n r s (err e, o) = (err e, o, r, s)
    walk_after n r s (ok _, o) = walk_root B J export_fns n o s r

    abbrev pub report_after : ℕ → T.Out → B.State → Res Str × Root → Exported
    report_after n o s (err e, r) = (err e, o, r, s)
    report_after n o s (ok lines, r) = walk_after n r s (tar_add report_file (heading lines) o)

    abbrev pub rest_after : ℕ → Root → B.State → Status × T.Out → Exported
    rest_after n r s (err e, o) = (err e, o, r, s)
    rest_after n r s (ok _, o) = report_after n o s (report B J n s r)

    -- `Export` of an open root, up to the closing of the writers.
    unfoldable pub export_root : Encoders → ℕ → T.Out → B.State → Root → Exported
    unfolding tar_add export_fns
    export_root E n o s r = rest_after n r s (
        add_next (add_encoded index_file (E.marshal_root r.hash))
          (add_encoded version_file (E.marshal_version (text "1.0")) o))

  -- `Export`; the deferred calls close the writers however it ends.
  module _ (digest : Bytes → Str) (J : Codec) where
    -- At the root that a pointer leads to.
    abbrev pub at_root :
        Encoders → ℕ → T.Out → MemBlobs → Root → Res (Status × T.Out) × Root × MemBlobs
    at_root E n o s root =
        let (st, o', root', s') = export_root (memory digest) J E n o s root in
        (ok (st, o'), root', s')

    abbrev pub closed : T.Out → Res (Status × T.Out) × MemStorage → Status × T.Out × MemStorage
    closed o (err e, m) = (err e, T.close o, m)
    closed o (ok (st, o'), m) = (st, T.close o', m)

    abbrev pub export_opened :
        Encoders → ℕ → T.Out → Res ℕ × MemStorage → Status × T.Out × MemStorage
    export_opened E n o (err e, m) = (err e, o, m)
    export_opened E n o (ok p, m) = closed o (on_root (at_root E n o) p m)

    unfoldable pub export_archive :
        Encoders → ℕ → Str → ℕ → T.Out → MemStorage → Status × T.Out × MemStorage
    unfolding export_root
    export_archive E n id now o m = export_opened E n o (root_open id now m)
