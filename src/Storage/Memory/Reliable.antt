-- ===== src/Storage/Memory/Reliable.antt =====
-- Blobs kept in memory: what pushing one does.
use native.Mathlib.Nat.{le_refl}
use httplock.Base.{
  ℕ, ◌≡◌, refl, true, false, none, [], ◌∷◌, ◌++◌, Str, length, take_all, get_elem?,
  get_elem?-append_old, get_elem?-append_new, set-append_last, str_eq_iff, arith, ok, Option-cases,
  inl, inr,
}
use httplock.Base.Dict.{insert, lookup-insert, lookup-insert_self}
use httplock.Hasher.{Bytes}
use httplock.Storage.Backend.{IsReliable, push}
use httplock.Storage.Blob
use httplock.Storage.Blob.{BlobWrite, new_blob_writer}
use httplock.Storage.Memory.Blobs.{
  MemBlobs, buffer_write, blob_open, blob_create, blob_write, blob_close, blob_hash, memory,
}

-- The writer of a blob, before and after its close.
abbrev holding : Bytes → BlobWrite Bytes
holding b = record { hash = record { h = b; w = b }; closed = false }

abbrev finished : Bytes → BlobWrite Bytes
finished b = record { hash = record { h = b; w = b }; closed = true }

write-buffer :
    (b : Bytes)
    → Blob.write buffer_write (new_blob_writer []) b
      ≡ (record { count = length b; error = none }, holding b)
unfolding Blob.write new_blob_writer
write-buffer [] = refl
write-buffer (c ∷ b) = ground (arith, take_all (length b) b (le_refl (length b)))

module _ (digest : Bytes → Str) where
  abbrev pushed : MemBlobs → Bytes → MemBlobs
  pushed s b = record {
    blobs = insert (digest b) b s.blobs;
    writers = s.writers ++ (finished b ∷ []);
  }

  abbrev with_writer : MemBlobs → BlobWrite Bytes → MemBlobs
  with_writer s bw = record s { writers = s.writers ++ (bw ∷ []) }

  blob_write-last :
      (s : MemBlobs) (b : Bytes)
      → blob_write digest (with_writer s (new_blob_writer [])) (length s.writers) b
        ≡ (ok (length b), with_writer s (holding b))
  unfolding blob_write
  blob_write-last s b =
      rw (get_elem?-append_new, blob_write) (rw (write-buffer b) (rw set-append_last))

  blob_close-last :
      (s : MemBlobs) (b : Bytes)
      → blob_close digest (with_writer s (holding b)) (length s.writers) ≡ (none, pushed s b)
  unfolding blob_close
  blob_close-last s b = rw (get_elem?-append_new, blob_close) (rw set-append_last)

  blob_hash-last :
      (s : MemBlobs) (b : Bytes) → blob_hash digest (pushed s b) (length s.writers) ≡ ok (digest b)
  unfolding blob_hash
  blob_hash-last s b = rw (get_elem?-append_new, blob_hash)

  push-memory :
      (s : MemBlobs) (old : Str) (b : Bytes)
      → push (memory digest) s old b ≡ (ok tt, digest b, pushed s b)
  unfolding push blob_create
  push-memory s old b = rw (blob_write-last, blob_close-last) (ground (arith, blob_hash-last s b))

  blob_hash-pushed :
      (s : MemBlobs) (b : Bytes) (w : ℕ) {h : Str}
      → blob_hash digest s w ≡ ok h
      → blob_hash digest (pushed s b) w ≡ ok h
  unfolding blob_hash
  blob_hash-pushed s b w kept = elim (Option-cases (get_elem? s.writers w)) [
    | inl missing ↦ absurd (ground arith)
    | inr (bw, there) ↦ ground (arith, get_elem?-append_old s.writers (finished b ∷ []) w there)
  ]

  -- A storage in memory is reliable: a blob that is pushed is named by its digest and opens under
  -- that name, and the blobs and the hashes of writers that were there before stay.
  pub memory-IsReliable : IsReliable digest (memory digest)
  unfolding blob_open blob_hash
  memory-IsReliable = record {
    push_ok = λ s old b. rw (push-memory s old b);
    push_hash = λ s old b. rw (push-memory s old b);
    push_stores = λ s old b. rw (push-memory s old b) (rw (lookup-insert_self, blob_open));
    push_keeps = λ s old b h kept ne.
        rw (push-memory s old b)
          (ground (arith, lookup-insert (digest b) h b s.blobs, str_eq_iff (digest b) h));
    push_keeps_hash = λ s old b w kept. rw (push-memory s old b) (blob_hash-pushed s b w kept);
  }
