-- ===== src/Storage/Filesystem/Filing.antt =====
-- Blobs in files, by the names under which they are opened: what is there after one is pushed.
use mathlib.Core.Path.{subst}
use httplock.Base.{
  ◌≡◌, ◌≢◌, refl, sym, ◌∙◌, ap, true, false, Option, none, some, [], Str, str_eq, str_eq_iff, arith,
  ok, err, if◌then◌else◌,
}
use httplock.Base.Dict.{lookup, insert, erase, lookup-insert, lookup-erase, lookup-insert_self}
use httplock.Hasher.{Bytes}
use httplock.Storage.Errors.{Error, Res, io}
use httplock.Storage.Backend.{push}
use package.httplock.Storage.Filesystem.Paths.{join_path, parent}
use package.httplock.Storage.Filesystem.Os.{
  Disk, Handle, regular, Fault, next_fault, attempt, is_dir, rename, remove, open_file, read_file,
}
use package.httplock.Storage.Filesystem.Blobs.{FsBlobs, file_blob, blob_open, filesystem}
use package.httplock.Storage.Filesystem.Calls.{read_file-Holds}
use package.httplock.Storage.Filesystem.Pushing.{
  temp_path, CanStart, fault_at, made, filled, closed_disk, pushed, push-written,
}

file_blob-renamed :
    (dir : Str) (h : Handle) (d d' old : Disk) (hash : Str)
    → rename h.name (join_path dir hash) d ≡ (ok tt, d')
    → file_blob dir (h, d) hash old ≡ (none, d')
unfolding file_blob
file_blob-renamed dir h d d' old hash done = rw (done, file_blob) (rw done)

file_blob-refused :
    (dir : Str) (h : Handle) (d d' old : Disk) (hash : Str) (e : Error)
    → rename h.name (join_path dir hash) d ≡ (err e, d')
    → file_blob dir (h, d) hash old ≡ (some e, (remove h.name d').1)
unfolding file_blob
file_blob-refused dir h d d' old hash e done = rw (done, file_blob) (rw done)

read_file-same :
    (d e : Disk) (path : Str)
    → lookup path d.nodes ≡ lookup path e.nodes
    → lookup path d.unreadable ≡ lookup path e.unreadable
    → read_file d path ≡ read_file e path
unfolding read_file open_file
read_file-same d e path nodes unreadable = ground (arith, nodes, unreadable)

module _ (digest : Bytes → Str) (s : FsBlobs) where
  -- The blob is filed when its file can be renamed, and is gone when not.
  abbrev pub CanName : Bytes → Type 0
  CanName b =
      (is_dir s.disk.nodes (join_path s.dir (digest b)) ≡ false)
      × (is_dir s.disk.nodes (parent (join_path s.dir (digest b))) ≡ true)

  lookup-filled :
      (b : Bytes) (path : Str)
      → lookup path (filled s b).nodes
        ≡ (if str_eq (temp_path s) path then some (regular b) else lookup path s.disk.nodes)
  lookup-filled b path = ground (
    arith,
    lookup-insert (temp_path s) path (regular b) (made s).nodes,
    lookup-insert (temp_path s) path (regular []) s.disk.nodes,
  )

  is_dir-filled :
      (b : Bytes) (path : Str)
      → lookup (temp_path s) s.disk.nodes ≡ none
      → is_dir (filled s b).nodes path ≡ is_dir s.disk.nodes path
  unfolding is_dir
  is_dir-filled b path fresh =
      ground (arith, lookup-filled b path, str_eq_iff (temp_path s) path, fresh)

  abbrev blob_path : Bytes → Str
  blob_path b = join_path s.dir (digest b)

  rename-filled :
      (b : Bytes)
      → CanStart s
      → CanName b
      → fault_at 3 s.disk ≡ none
      → rename (temp_path s) (blob_path b) (next_fault (filled s b)).1 ≡ (
        ok tt,
        record (next_fault (next_fault (filled s b)).1).1 {
          nodes = insert (blob_path b) (regular b) (erase (temp_path s) (filled s b).nodes);
        },
      )
  unfolding rename attempt
  rename-filled b (home, fresh) (vacant, above) free =
      rw (free, rename, attempt)
        (rw (is_dir-filled b (blob_path b) fresh) (
          rw vacant (
            rw (is_dir-filled b (parent (blob_path b)) fresh)
              (rw above (rw (lookup-insert_self (temp_path s) (regular b) (made s).nodes))))))

  -- The disk with the blob's file under its name.
  abbrev renamed : Bytes → Disk
  renamed b = record (next_fault (next_fault (filled s b)).1).1 {
    nodes = insert (blob_path b) (regular b) (erase (temp_path s) (filled s b).nodes);
  }

  closed-renamed :
      (b : Bytes)
      → CanStart s
      → CanName b
      → fault_at 3 s.disk ≡ none
      → closed_disk digest s b ≡ renamed b
  closed-renamed b start name free =
      ap (λ (x : Option Error × Disk). x.1)
        (file_blob-renamed s.dir _ (next_fault (filled s b)).1 (renamed b) (filled s b) (digest b)
          (rename-filled b start name free))

  lookup-renamed :
      (b : Bytes) (path : Str)
      → CanStart s
      → lookup path (renamed b).nodes
        ≡ (if str_eq (blob_path b) path then some (regular b) else lookup path s.disk.nodes)
  lookup-renamed b path (home, fresh) = ground (
    arith,
    lookup-insert (blob_path b) path (regular b) (erase (temp_path s) (filled s b).nodes),
    lookup-erase (temp_path s) path (filled s b).nodes,
    lookup-filled b path,
    str_eq_iff (temp_path s) path,
    fresh,
  )

  -- The disk when the file was not renamed, and was removed.
  abbrev dropped : Bytes → Disk
  dropped b = record (next_fault (next_fault (next_fault (filled s b)).1).1).1 {
    nodes = erase (temp_path s) (filled s b).nodes;
  }

  remove-filled :
      (b : Bytes)
      → fault_at 4 s.disk ≡ none
      → remove (temp_path s) (next_fault (next_fault (filled s b)).1).1 ≡ (ok tt, dropped b)
  unfolding remove attempt lookup erase insert
  remove-filled b free =
      rw (free, remove, attempt) (rw (lookup-insert_self (temp_path s) (regular b) (made s).nodes))

  closed-dropped :
      (b : Bytes) (f : Fault)
      → fault_at 3 s.disk ≡ some f
      → fault_at 4 s.disk ≡ none
      → closed_disk digest s b ≡ dropped b
  unfolding rename attempt
  closed-dropped b f refused free =
      ap (λ (x : Option Error × Disk). x.1)
        (file_blob-refused s.dir _ (next_fault (filled s b)).1
          (next_fault (next_fault (filled s b)).1).1 (filled s b) (digest b) (io f.error)
          (rw (refused, rename, attempt)))
      ∙ ap (λ (x : Res Unit × Disk). x.1) (remove-filled b free)

  lookup-dropped :
      (b : Bytes) (path : Str)
      → lookup (temp_path s) s.disk.nodes ≡ none
      → lookup path (dropped b).nodes ≡ lookup path s.disk.nodes
  lookup-dropped b path fresh = ground (
    arith,
    lookup-erase (temp_path s) path (filled s b).nodes,
    lookup-filled b path,
    str_eq_iff (temp_path s) path,
    fresh,
  )

  open-renamed :
      (b : Bytes)
      → CanStart s
      → lookup (blob_path b) s.disk.unreadable ≡ none
      → read_file (renamed b) (blob_path b) ≡ ok b
  open-renamed b start readable = read_file-Holds (renamed b) (blob_path b) (
    ground (arith, lookup-renamed b (blob_path b) start, str_eq_iff (blob_path b) (blob_path b)),
    readable,
  )

  open-renamed_other :
      (b : Bytes) (path : Str)
      → CanStart s
      → path ≢ blob_path b
      → read_file (renamed b) path ≡ read_file s.disk path
  open-renamed_other b path start ne =
      read_file-same (renamed b) s.disk path
        (ground (arith, lookup-renamed b path start, str_eq_iff (blob_path b) path, ne)) refl

  -- What a push did: it returned no error and the digest, and left a storage with the property.
  abbrev pub Pushed : Str → Bytes → (FsBlobs → Type 0) → Type 0
  Pushed old b P =
      (push (filesystem digest) s old b).0 ≡ ok tt
      × ((push (filesystem digest) s old b).1 ≡ digest b)
      × P (push (filesystem digest) s old b).2

  -- The blob opens under its digest, and what has another path opens as it did.
  abbrev pub IsFiled : Bytes → FsBlobs → Type 0
  IsFiled b s' =
      (blob_open s' (digest b) ≡ ok b)
      × ((h : Str)
          → join_path s.dir h ≢ join_path s.dir (digest b)
          → blob_open s' h ≡ blob_open s h)

  -- Every name opens as it did.
  abbrev pub HasNoOther : FsBlobs → Type 0
  HasNoOther s' = (h : Str) → blob_open s' h ≡ blob_open s h

  Pushed-from :
      (old : Str) (b : Bytes) (P : FsBlobs → Type 0)
      → CanStart s
      → fault_at 0 s.disk ≡ none
      → fault_at 1 s.disk ≡ none
      → P (pushed digest s b)
      → Pushed old b P
  Pushed-from old b P start f₀ f₁ here =
      subst (λ x. (x.0 ≡ ok tt) × (x.1 ≡ digest b) × P x.2)
        (sym (push-written digest s old b start f₀ f₁)) (refl, refl, here)

  -- When a blob can be started and named, its file is not one that may not be read, and creating,
  -- writing and renaming its file are not refused, pushing it gives no error and its digest, it
  -- then opens under its digest, and every name with another path opens as it did, whether closing
  -- the file is refused or not.
  pub push-IsFiled :
      (old : Str) (b : Bytes)
      → CanStart s
      → CanName b
      → lookup (join_path s.dir (digest b)) s.disk.unreadable ≡ none
      → fault_at 0 s.disk ≡ none
      → fault_at 1 s.disk ≡ none
      → fault_at 3 s.disk ≡ none
      → Pushed old b (IsFiled b)
  unfolding blob_open
  push-IsFiled old b start name readable f₀ f₁ f₃ =
      let same = closed-renamed b start name f₃ in
      Pushed-from old b (IsFiled b) start f₀ f₁ (
        ap (λ d. read_file d (blob_path b)) same ∙ open-renamed b start readable,
        λ h ne.
            ap (λ d. read_file d (join_path s.dir h)) same
            ∙ open-renamed_other b (join_path s.dir h) start ne,
      )

  -- When a blob can be started, and renaming its file is refused but creating, writing and removing
  -- it are not, pushing it gives no error and its digest all the same, and every name opens as it
  -- did before: there is no new blob.
  pub push-HasNoOther :
      (old : Str) (b : Bytes) (f : Fault)
      → CanStart s
      → fault_at 0 s.disk ≡ none
      → fault_at 1 s.disk ≡ none
      → fault_at 3 s.disk ≡ some f
      → fault_at 4 s.disk ≡ none
      → Pushed old b HasNoOther
  unfolding blob_open
  push-HasNoOther old b f start f₀ f₁ refused f₄ = Pushed-from old b HasNoOther start f₀ f₁ (λ h.
      ap (λ d. read_file d (join_path s.dir h)) (closed-dropped b f refused f₄)
      ∙ read_file-same (dropped b) s.disk (join_path s.dir h)
          (lookup-dropped b (join_path s.dir h) start.1) refl)
