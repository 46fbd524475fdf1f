-- ===== src/Storage/Filesystem/Blobs.antt =====
-- internal/storage/filesystem.go: blobs are files in a directory, named by their hashes. A blob is
-- written to a file under tmp, which is renamed when its writer is closed.
use httplock.Base.{
  ℕ, Option, none, some, List, [], ◌∷◌, ◌++◌, Str, text, length, get_elem?, set, ok, err,
}
use httplock.Hasher.{Bytes, Wrote}
use httplock.Storage.Errors.{Error, Res, panic}
use httplock.Storage.Backend.{Backend}
use httplock.Storage.Blob
use httplock.Storage.Blob.{BlobWrite, new_blob_writer}
use package.httplock.Storage.Filesystem.Paths.{join_path}
use package.httplock.Storage.Filesystem.Os.{
  Disk, Handle, read_file, create_temp, file_write, file_close, rename, remove,
}

-- `fsTmpDir`
abbrev pub tmp_dir : Str
tmp_dir = text "tmp"

pub record FsBlobs : Type 0 where
  pub dir : Str
  pub disk : Disk
  pub writers : List (BlobWrite Handle)

-- A writer's file together with the disk that it is on, for the time of one call.
unfoldable pub lend : Disk → BlobWrite Handle → BlobWrite (Handle × Disk)
lend d bw = record { hash = record { h = bw.hash.h; w = (bw.hash.w, d) }; closed = bw.closed }

unfoldable pub take_back : BlobWrite (Handle × Disk) → BlobWrite Handle
take_back bw = record { hash = record { h = bw.hash.h; w = bw.hash.w.0 }; closed = bw.closed }

-- The close function: the file gets its name, or is removed.
unfoldable pub file_blob : Str → Handle × Disk → Str → Disk → Option Error × Disk
file_blob dir (h, d) hash old =
    let (moved, d') = rename h.name (join_path dir hash) d in
    elim moved [ ok u ↦ (none, d') | err e ↦ (some e, (remove h.name d').1) ]

unfoldable pub blob_open : FsBlobs → Str → Res Bytes
blob_open s blob = read_file s.disk (join_path s.dir blob)

unfoldable pub blob_create : FsBlobs → Res ℕ × FsBlobs
unfolding new_blob_writer
blob_create s =
    let (made, d) = create_temp (join_path s.dir tmp_dir) s.disk in
    elim made [
      | err e ↦ (err e, record s { disk = d })
      | ok h ↦ (
        ok (length s.writers),
        record s { disk = d; writers = s.writers ++ (new_blob_writer h ∷ []) },
      )
    ]

abbrev pub count_or_error : Wrote Error → Res ℕ
count_or_error n = elim n.error [ none ↦ ok n.count | some e ↦ err e ]

module _ (digest : Bytes → Str) where
  unfoldable pub blob_write : FsBlobs → ℕ → Bytes → Res ℕ × FsBlobs
  unfolding Blob.write lend take_back file_write
  blob_write s w p = elim (get_elem? s.writers w) [
    | none ↦ (err panic, s)
    | some bw ↦
        let (n, bw') = Blob.write file_write (lend s.disk bw) p in
        (
          count_or_error n,
          record s { disk = bw'.hash.w.1; writers = set s.writers w (take_back bw') },
        )
  ]

  unfoldable pub blob_close : FsBlobs → ℕ → Option Error × FsBlobs
  unfolding Blob.close lend take_back file_blob file_close
  blob_close s w = elim (get_elem? s.writers w) [
    | none ↦ (some panic, s)
    | some bw ↦
        let (e, bw', d) =
          Blob.close digest (some file_close) (file_blob s.dir) (lend s.disk bw) s.disk in
        (e, record s { disk = d; writers = set s.writers w (take_back bw') })
  ]

  unfoldable pub blob_hash : FsBlobs → ℕ → Res Str
  unfolding Blob.hash
  blob_hash s w = elim (get_elem? s.writers w) [ none ↦ err panic | some bw ↦ Blob.hash digest bw ]

  abbrev pub filesystem : Backend
  filesystem = record {
    State = FsBlobs;
    blob_open = blob_open;
    blob_create = blob_create;
    blob_write = blob_write;
    blob_close = blob_close;
    blob_hash = blob_hash;
  }
