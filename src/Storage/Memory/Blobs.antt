-- ===== src/Storage/Memory/Blobs.antt =====
-- The blobs of a `MemStorage` and the writers that it handed out. A `bytes.Buffer` takes all that
-- is written to it, and has no `Close`.
use httplock.Base.{ℕ, Option, none, some, List, [], ◌∷◌, ◌++◌, Str, length, get_elem?, set, ok, err}
use httplock.Base.Dict.{Dict, lookup, insert}
use httplock.Hasher.{Bytes, Wrote}
use httplock.Storage.Errors.{Error, Res, not_exist, panic}
use httplock.Storage.Backend.{Backend}
use httplock.Storage.Blob
use httplock.Storage.Blob.{BlobWrite, new_blob_writer}

pub record MemBlobs : Type 0 where
  pub blobs : Dict Bytes
  pub writers : List (BlobWrite Bytes)

abbrev pub no_blobs : MemBlobs
no_blobs = record { blobs = []; writers = [] }

-- `Write` of a `bytes.Buffer`.
abbrev pub buffer_write : Bytes → Bytes → Wrote Error × Bytes
buffer_write b p = (record { count = length p; error = none }, b ++ p)

-- `m.blobs[hash] = b.Bytes()`
abbrev file_blob : Bytes → Str → Dict Bytes → Option Error × Dict Bytes
file_blob b hash blobs = (none, insert hash b blobs)

unfoldable pub blob_open : MemBlobs → Str → Res Bytes
blob_open s blob = elim (lookup blob s.blobs) [ some bb ↦ ok bb | none ↦ err not_exist ]

unfoldable pub blob_create : MemBlobs → Res ℕ × MemBlobs
unfolding new_blob_writer
blob_create s =
    (ok (length s.writers), record s { writers = s.writers ++ (new_blob_writer [] ∷ []) })

abbrev count_or_error : Wrote Error → Res ℕ
count_or_error n = elim n.error [ none ↦ ok n.count | some e ↦ err e ]

module _ (digest : Bytes → Str) where
  unfoldable pub blob_write : MemBlobs → ℕ → Bytes → Res ℕ × MemBlobs
  blob_write s w p = elim (get_elem? s.writers w) [
    | none ↦ (err panic, s)
    | some bw ↦
        let (n, bw') = Blob.write buffer_write bw p in
        (count_or_error n, record s { writers = set s.writers w bw' })
  ]

  unfoldable pub blob_close : MemBlobs → ℕ → Option Error × MemBlobs
  unfolding Blob.close
  blob_close s w = elim (get_elem? s.writers w) [
    | none ↦ (some panic, s)
    | some bw ↦
        let (e, bw', blobs) = Blob.close digest none file_blob bw s.blobs in
        (e, record { blobs = blobs; writers = set s.writers w bw' })
  ]

  unfoldable pub blob_hash : MemBlobs → ℕ → Res Str
  unfolding Blob.hash
  blob_hash s w = elim (get_elem? s.writers w) [ none ↦ err panic | some bw ↦ Blob.hash digest bw ]

  abbrev pub memory : Backend
  memory = record {
    State = MemBlobs;
    blob_open = blob_open;
    blob_create = blob_create;
    blob_write = blob_write;
    blob_close = blob_close;
    blob_hash = blob_hash;
  }
