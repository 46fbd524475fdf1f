-- ===== src/Storage/Filesystem/Pushing.antt =====
-- Blobs in files: what pushing one does, and what it does when its file cannot be renamed.
use native.Mathlib.Nat.{le_refl}
use httplock.Base.{
  ℕ, zero, suc, ◌+◌, ◌≡◌, ◌∙◌, ap, true, false, Option, none, some, [], ◌∷◌, ◌++◌, Str, length,
  take_all, get_elem?-append_new, set, set-append_last, arith, ok, Option-cases, inl, inr,
}
use httplock.Base.Dict.{lookup, lookup-insert_self}
use httplock.Hasher.{Bytes, Wrote}
use httplock.Storage.Errors.{Error, Res}
use httplock.Storage.Backend.{push}
use httplock.Storage.Blob
use httplock.Storage.Blob.{BlobWrite, new_blob_writer}
use package.httplock.Storage.Filesystem.Paths.{join_path}
use package.httplock.Storage.Filesystem.Os.{
  Disk, Handle, regular, Fault, next_fault, attempt, is_dir, new_handle, put_file, create_temp,
  try_names, file_write, file_close, append_file,
}
use package.httplock.Storage.Filesystem.Blobs.{
  FsBlobs, tmp_dir, lend, take_back, file_blob, blob_create, blob_write, blob_close, blob_hash,
  count_or_error, filesystem,
}

-- The next file of `os.CreateTemp`.
abbrev pub temp_path : FsBlobs → Str
temp_path s = join_path s.dir tmp_dir ++ (b'/' ∷ s.disk.names s.disk.drawn)

-- A new blob can be started: there is a directory for it, and the name drawn for it is not in use.
abbrev pub CanStart : FsBlobs → Type 0
CanStart s =
    (is_dir s.disk.nodes (join_path s.dir tmp_dir) ≡ true)
    × (lookup (temp_path s) s.disk.nodes ≡ none)

-- What the system will do to a later call.
abbrev pub fault_at : ℕ → Disk → Option Fault
fault_at zero d = (next_fault d).0
fault_at (suc n) d = fault_at n (next_fault d).1

-- The disk after the file was made, and after it was written.
abbrev pub made : FsBlobs → Disk
made s = put_file (temp_path s) [] (record (next_fault s.disk).1 { drawn = s.disk.drawn + 1 })

abbrev pub filled : FsBlobs → Bytes → Disk
filled s b = put_file (temp_path s) b (next_fault (made s)).1

abbrev holding : FsBlobs → Bytes → BlobWrite Handle
holding s b = record { hash = record { h = b; w = new_handle (temp_path s) }; closed = false }

abbrev written : FsBlobs → Bytes → FsBlobs
written s b = record s { disk = filled s b; writers = s.writers ++ (holding s b ∷ []) }

try_names-first :
    (n : ℕ) (dir : Str) (d : Disk)
    → lookup (dir ++ (b'/' ∷ d.names d.drawn)) d.nodes ≡ none
    → try_names (suc n) dir d ≡ (
      ok (new_handle (dir ++ (b'/' ∷ d.names d.drawn))),
      put_file (dir ++ (b'/' ∷ d.names d.drawn)) [] (record d { drawn = d.drawn + 1 }),
    )
unfolding try_names
try_names-first n dir d fresh = rw (fresh, try_names)

create_temp-new :
    (dir : Str) (d : Disk)
    → (next_fault d).0 ≡ none
    → is_dir d.nodes dir ≡ true
    → lookup (dir ++ (b'/' ∷ d.names d.drawn)) d.nodes ≡ none
    → create_temp dir d ≡ (
      ok (new_handle (dir ++ (b'/' ∷ d.names d.drawn))),
      put_file
          (dir ++ (b'/' ∷ d.names d.drawn))
          []
          (record (next_fault d).1 { drawn = d.drawn + 1 }),
    )
unfolding create_temp attempt
create_temp-new dir d free home fresh =
    rw (free, create_temp, attempt) (rw home (try_names-first 9999 dir (next_fault d).1 fresh))

file_write-free :
    (path : Str) (d : Disk) (p old : Bytes)
    → lookup path d.nodes ≡ some (regular old)
    → fault_at 0 d ≡ none
    → file_write (new_handle path, d) p ≡ (
      record { count = length p; error = none },
      (new_handle path, put_file path (old ++ p) (next_fault d).1),
    )
unfolding file_write append_file
file_write-free path d p old there free = rw (free, file_write) (rw (there, append_file))

module _ (digest : Bytes → Str) (s : FsBlobs) where
  file_write-made :
      (b : Bytes)
      → fault_at 1 s.disk ≡ none
      → file_write (new_handle (temp_path s), made s) b
        ≡ (record { count = length b; error = none }, (new_handle (temp_path s), filled s b))
  file_write-made b free =
      file_write-free (temp_path s) (made s) b []
        (lookup-insert_self (temp_path s) (regular []) s.disk.nodes) free

  -- The writer of a new file, over the disk as it is then.
  abbrev fresh_writer : BlobWrite Handle
  fresh_writer = record { hash = record { h = []; w = new_handle (temp_path s) }; closed = false }

  write-made :
      (b : Bytes)
      → fault_at 1 s.disk ≡ none
      → Blob.write file_write (lend (made s) fresh_writer) b
        ≡ (record { count = length b; error = none }, lend (filled s b) (holding s b))
  unfolding Blob.write lend
  write-made [] free = rw (file_write-made [] free)
  write-made (c ∷ b) free =
      rw (file_write-made (c ∷ b) free) (ground (arith, take_all (length b) b (le_refl (length b))))

  abbrev started : FsBlobs
  started = record s { disk = made s; writers = s.writers ++ (fresh_writer ∷ []) }

  blob_create-new :
      CanStart s → fault_at 0 s.disk ≡ none → blob_create s ≡ (ok (length s.writers), started)
  unfolding blob_create new_blob_writer
  blob_create-new (home, fresh) free =
      let new = create_temp-new (join_path s.dir tmp_dir) s.disk free home fresh in
      rw (new, blob_create) (rw new)

  -- What a `Write` leaves of the storage.
  abbrev after_write : Wrote Error × BlobWrite (Handle × Disk) → Res ℕ × FsBlobs
  after_write (n, bw) = (
    count_or_error n,
    record started {
      disk = bw.hash.w.1;
      writers = set started.writers (length s.writers) (take_back bw);
    },
  )

  blob_write-started :
      (b : Bytes)
      → blob_write digest started (length s.writers) b
        ≡ after_write (Blob.write file_write (lend (made s) fresh_writer) b)
  unfolding blob_write
  blob_write-started b = rw (get_elem?-append_new s.writers fresh_writer, blob_write)

  blob_write-new :
      (b : Bytes)
      → fault_at 1 s.disk ≡ none
      → blob_write digest started (length s.writers) b ≡ (ok (length b), written s b)
  unfolding take_back lend
  blob_write-new b free =
      blob_write-started b ∙ ap after_write (write-made b free) ∙ rw set-append_last

  -- The writer closes whatever the system does, and its hash is given from then on.
  abbrev finished : Bytes → BlobWrite Handle
  finished b = record {
    hash = record { h = b; w = record { name = temp_path s; closed = true } };
    closed = true;
  }

  abbrev pub closed_disk : Bytes → Disk
  closed_disk b =
      (file_blob s.dir (record { name = temp_path s; closed = true }, (next_fault (filled s b)).1)
        (digest b) (filled s b)).1

  abbrev pub pushed : Bytes → FsBlobs
  pushed b = record s { disk = closed_disk b; writers = s.writers ++ (finished b ∷ []) }

  file_close-open :
      (d : Disk)
      → (file_close (new_handle (temp_path s), d)).1
        ≡ (record { name = temp_path s; closed = true }, (next_fault d).1)
  unfolding file_close
  file_close-open d = elim (Option-cases (fault_at 0 d)) [
    | inl free ↦ rw (free, file_close)
    | inr (f, refused) ↦ rw (refused, file_close)
  ]

  -- What a `Close` leaves of the storage, from what closing the file leaves.
  abbrev after_close : Bytes → Handle × Disk → FsBlobs
  after_close b held = record s {
    disk = (file_blob s.dir held (digest b) (filled s b)).1;
    writers =
        set (written s b).writers (length s.writers)
          (take_back (record { hash = record { h = b; w = held }; closed = true }));
  }

  blob_close-after :
      (b : Bytes)
      → (blob_close digest (written s b) (length s.writers)).1
        ≡ after_close b (file_close (new_handle (temp_path s), filled s b)).1
  unfolding blob_close Blob.close lend
  blob_close-after b = rw (get_elem?-append_new s.writers (holding s b), blob_close)

  blob_close-written :
      (b : Bytes) → (blob_close digest (written s b) (length s.writers)).1 ≡ pushed b
  unfolding take_back
  blob_close-written b =
      blob_close-after b ∙ ap (after_close b) (file_close-open (filled s b)) ∙ rw set-append_last

  blob_hash-pushed : (b : Bytes) → blob_hash digest (pushed b) (length s.writers) ≡ ok (digest b)
  unfolding blob_hash Blob.hash
  blob_hash-pushed b = rw (get_elem?-append_new s.writers (finished b), blob_hash)

  pub push-written :
      (old : Str) (b : Bytes)
      → CanStart s
      → fault_at 0 s.disk ≡ none
      → fault_at 1 s.disk ≡ none
      → push (filesystem digest) s old b ≡ (ok tt, digest b, pushed b)
  unfolding push
  push-written old b start free free' =
      rw (blob_create-new start free) (
        rw (blob_write-new b free')
          (rw (blob_close-written b) (ground (arith, blob_hash-pushed b))))
