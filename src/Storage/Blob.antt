-- ===== src/Storage/Blob.antt =====
-- internal/storage/blobwriter.go: a writer that hashes what passes through it, and files the blob
-- under its hash when it is closed.
use httplock.Base.{Bool, true, false, Option, none, some, Str, ok, err, if◌then◌else◌}
use httplock.Hasher
use httplock.Hasher.{Bytes, Writer, Wrote, new_writer}
use httplock.Storage.Errors.{Error, Res, not_closed, join}

-- `orig` is the writer under the hasher, the field `hash.w`.
pub record BlobWrite (W : Type 0) : Type 0 where
  pub hash : Writer W
  pub closed : Bool

unfoldable pub new_blob_writer : {W : Type 0} → W → BlobWrite W
unfolding new_writer
new_blob_writer w = record { hash = new_writer w; closed = false }

-- The errors of closing `orig` and of the close function, joined.
unfoldable pub join_errors : Option Error → Option Error → Option Error
join_errors none e = e
join_errors (some a) none = some a
join_errors (some a) (some b) = some (join a b)

unfoldable pub write :
    {W : Type 0} → (W → Bytes → Wrote Error × W) → BlobWrite W → Bytes → Wrote Error × BlobWrite W
unfolding Hasher.write
write io_write bw p = let (n, h) = Hasher.write io_write bw.hash p in (n, record bw { hash = h })

module _ {W : Type 0} (digest : Bytes → Str) where
  unfoldable pub hash : BlobWrite W → Res Str
  hash bw = if bw.closed then ok (digest bw.hash.h) else err not_closed

  -- `io.Closer` is asked for at run time: `none` is a writer that has no `Close`.
  abbrev close_orig : Option (W → Option Error × W) → W → Option Error × W
  close_orig none w = (none, w)
  close_orig (some f) w = f w

  module _ {S : Type 0} (closer : Option (W → Option Error × W))
      (close_fn : W → Str → S → Option Error × S) where
    unfoldable pub close : BlobWrite W → S → Option Error × BlobWrite W × S
    unfolding join_errors
    close bw s =
        if bw.closed
        then (none, bw, s)
        else let (e, w) = close_orig closer bw.hash.w in
          let (e', s') = close_fn w (digest bw.hash.h) s in
          (join_errors e e', record { hash = record { h = bw.hash.h; w = w }; closed = true }, s')
