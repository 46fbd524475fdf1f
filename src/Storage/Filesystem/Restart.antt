-- ===== src/Storage/Filesystem/Restart.antt =====
-- A `FsStorage` that is opened again on what an earlier one left in its directory.
use mathlib.Core.Path.{subst}
use httplock.Base.{
  All, ◌∷◌, ℕ, ◌≡◌, refl, sym, ◌∙◌, ap, true, false, none, some, [], Str, length, ok, err, Bool,
  Result-cases, Option-cases, Bool-cases, str_eq, inl, inr, arith, get_elem?, get_elem?-append_new,
}
use httplock.Base.Dict.{Dict, lookup, insert, lookup-insert_self}
use httplock.Hasher.{Bytes}
use httplock.Storage.Errors.{Res, Status}
use httplock.Storage.Backend.{Codec}
use httplock.Storage.Root.{Root, new_root_hash, save}
use package.httplock.Storage.Filesystem.{
  FsStorage, IndexCodec, IsFaithfulIndex, index_file, read_index, fs_storage, after_stat,
  is_not_exist, new_filesystem, register, root_open, on_root, with_disk, write_index, hash_written,
  record_saved, root_save,
}
use package.httplock.Storage.Filesystem.Paths.{join_path}
use package.httplock.Storage.Filesystem.Blobs.{FsBlobs, tmp_dir, filesystem}
use package.httplock.Storage.Filesystem.Os.{
  Disk, Handle, regular, next_fault, stat, mkdir_all, create, new_handle, put_file, file_write,
}
use package.httplock.Storage.Filesystem.Calls.{
  Holds, read_file-Holds, stat-Keeps, mkdir_all-Keeps, create-ok, file_write-ok,
}

-- The file of the index.
abbrev index_path : Str → Str
index_path dir = join_path dir index_file

-- What was written: the encoded index is in its file.
abbrev IsWritten : IndexCodec → FsStorage → FsStorage → Type 0
IsWritten K f f' =
    (b : Bytes) × (K.marshal_index f.index ≡ ok b)
    × (f'.index ≡ f.index)
    × (f'.blobs.dir ≡ f.blobs.dir)
    × (lookup (index_path f.blobs.dir) f'.blobs.disk.nodes ≡ some (regular b))

write-created :
    (K : IndexCodec) (f : FsStorage) (b : Bytes) {h : Handle} {d : Disk}
    → K.marshal_index f.index ≡ ok b
    → create (index_path f.blobs.dir) f.blobs.disk ≡ (ok h, d)
    → (file_write (h, d) b).0.error ≡ none
    → IsWritten K f (with_disk (file_write (h, d) b).1.1 f)
write-created K f b {h} {d} encoded created done =
    let path = index_path f.blobs.dir in
    let (handle, disk) = create-ok path f.blobs.disk created in
    let here : lookup path d.nodes ≡ some (regular []) =
      rw disk (lookup-insert_self path (regular []) f.blobs.disk.nodes) in
    let wrote : (file_write (h, d) b).1 ≡ (new_handle path, put_file path b (next_fault d).1) =
      rw handle (
        file_write-ok path d b [] here
          (subst (λ x. (file_write (x, d) b).0.error ≡ none) handle done)) in
    (
      b,
      encoded,
      refl,
      refl,
      rw (ap (λ (x : Handle × Disk). x.1.nodes) wrote)
          (lookup-insert_self path (regular b) d.nodes),
    )

write_index-ok :
    (K : IndexCodec) (f : FsStorage) {f' : FsStorage}
    → write_index K f ≡ (ok tt, f')
    → IsWritten K f f'
unfolding write_index
write_index-ok K f {f'} done = elim (Result-cases (K.marshal_index f.index)) [
  | inr (e, failed) ↦ ground arith
  | inl (b, encoded) ↦ elim (Result-cases (create (index_path f.blobs.dir) f.blobs.disk).0) [
    | inr (e, refused) ↦ ground arith
    | inl (h, created) ↦
        let d = (create (index_path f.blobs.dir) f.blobs.disk).1 in
        elim (Option-cases (file_write (h, d) b).0.error) [
          | inr (e, refused) ↦ ground arith
          | inl wrote ↦
              let same : f' ≡ with_disk (file_write (h, d) b).1.1 f = ground arith in
              rw same (write-created K f b encoded (λ i. (created i, d)) wrote)
        ]
  ]
]

after_stat-ok :
    (K : IndexCodec) (dir path : Str) (b : Bytes) (found : Res Bool) (d : Disk)
    → Holds d path b
    → {g : FsStorage} {d' : Disk} → after_stat K dir (found, d) ≡ (ok g, d')
    → (g ≡ fs_storage K dir d') × Holds d' path b
after_stat-ok K dir path b (ok true) d there {g} {d'} done =
    let same : d ≡ d' = ap (λ (x : Res FsStorage × Disk). x.1) done in
    subst (λ x. (g ≡ fs_storage K dir x) × Holds x path b) same (cc done, there)
after_stat-ok K dir path b (ok false) d there done = ground arith
after_stat-ok K dir path b (err e) d there {g} {d'} done = elim (Bool-cases (is_not_exist e)) [
  | inr other ↦ ground arith
  | inl missing ↦
      let (made, d₁) = mkdir_all (join_path dir tmp_dir) d in
      elim (Result-cases made) [
        | inr (x, refused) ↦ ground arith
        | inl (u, fine) ↦
            let same : d₁ ≡ d' = ground arith in
            subst (λ x. (g ≡ fs_storage K dir x) × Holds x path b) same
              (ground arith, mkdir_all-Keeps (join_path dir tmp_dir) d path b there)
      ]
]

new_filesystem-ok :
    (K : IndexCodec) (dir path : Str) (b : Bytes) (d : Disk)
    → Holds d path b
    → {g : FsStorage} {d' : Disk} → new_filesystem K dir d ≡ (ok g, d')
    → (g ≡ fs_storage K dir d') × Holds d' path b
unfolding new_filesystem
new_filesystem-ok K dir path b d there done =
    let (found, d₁) = stat (join_path dir tmp_dir) d in
    after_stat-ok K dir path b found d₁ (stat-Keeps (join_path dir tmp_dir) d path b there) done

hash_written-ok :
    (hash : Str) (wrote : Status × FsStorage) {x : Str} {f' : FsStorage}
    → hash_written hash wrote ≡ (ok x, f')
    → (wrote ≡ (ok tt, f')) × (hash ≡ x)
hash_written-ok hash (ok u, f) done = (cc done, cc done)
hash_written-ok hash (err e, f) done = ground arith

-- The storage with the index that a save writes.
abbrev listing : Str → ℕ → FsStorage → FsStorage
listing hash now f =
    register hash (new_root_hash hash) (record f { index = insert hash now f.index })

record_saved-ok :
    (K : IndexCodec) (now : ℕ) (res : Res Str) (f : FsStorage) {hash : Str} {f' : FsStorage}
    → record_saved K now (res, f) ≡ (ok hash, f')
    → write_index K (listing hash now f) ≡ (ok tt, f')
unfolding record_saved
record_saved-ok K now (err e) f done = ground arith
record_saved-ok K now (ok x) f {hash} {f'} done =
    let (wrote, same) = hash_written-ok x (write_index K (listing x now f)) done in
    subst (λ h. write_index K (listing h now f) ≡ (ok tt, f')) same wrote

root_open-listed :
    (name : Str) (now used : ℕ) (f : FsStorage)
    → lookup name f.roots ≡ none
    → lookup name f.index ≡ some used
    → root_open name now f ≡ (
      ok (length f.objects),
      register name (new_root_hash name) (record f { index = insert name now f.index }),
    )
unfolding root_open
root_open-listed name now used f unnamed listed = rw (unnamed, root_open) (rw listed)

-- The name opens, as a root that is read-only, not loaded and has that hash.
abbrev pub Opens : ℕ → Str → FsStorage → Type 0
Opens now hash f =
    (q : ℕ) × ((root_open hash now f).0 ≡ ok q)
    × (get_elem? (root_open hash now f).1.objects q ≡ some (new_root_hash hash))

listed-Opens :
    (now used : ℕ) (hash : Str) (f : FsStorage)
    → lookup hash f.roots ≡ none
    → lookup hash f.index ≡ some used
    → Opens now hash f
listed-Opens now used hash f unnamed listed =
    rw (root_open-listed hash now used f unnamed listed)
      (length f.objects, refl, get_elem?-append_new f.objects (new_root_hash hash))

fs_storage-read :
    (K : IndexCodec) (dir : Str) (d : Disk) (b : Bytes)
    → Holds d (index_path dir) b
    → ((fs_storage K dir d).index ≡ K.unmarshal_index b) × ((fs_storage K dir d).roots ≡ [])
unfolding fs_storage read_index
fs_storage-read K dir d b there = (rw (read_file-Holds d (index_path dir) there), refl)

-- What is opened on a directory whose index was written has the index that was written.
reopened :
    (K : IndexCodec)
    → IsFaithfulIndex K
    → (f f' : FsStorage) → All (λ (e : Str × ℕ). K.IsText e.0) f.index
    → IsWritten K f f'
    → lookup (index_path f'.blobs.dir) f'.blobs.disk.unreadable ≡ none
    → {g : FsStorage} {d : Disk} → new_filesystem K f'.blobs.dir f'.blobs.disk ≡ (ok g, d)
    → ((name : Str) → lookup name g.index ≡ lookup name f'.index) × (g.roots ≡ [])
reopened K faithful f f' texts (b, encoded, index, dir, written) readable {g} {d} opened =
    let here =
      subst (λ x. lookup (index_path x) f'.blobs.disk.nodes ≡ some (regular b)) (sym dir) written in
    let (fresh, there) =
      new_filesystem-ok K f'.blobs.dir (index_path f'.blobs.dir) b f'.blobs.disk (here, readable)
        opened in
    let (decoded, unnamed) = fs_storage-read K f'.blobs.dir d b there in
    (
      λ name.
          ap (λ (x : FsStorage). lookup name x.index) fresh
          ∙ ap (lookup name) decoded
          ∙ faithful.unmarshal-marshal f.index b name texts encoded
          ∙ ap (lookup name) (sym index),
      ap (λ (x : FsStorage). x.roots) fresh ∙ unnamed,
    )

lookup-nothing : (name : Str) (m : Dict ℕ) → m ≡ [] → lookup name m ≡ none
unfolding lookup
lookup-nothing name m nothing = rw nothing

All-insert :
    (P : Str → Type 0) (k : Str) (v : ℕ) (m : Dict ℕ)
    → All (λ (e : Str × ℕ). P e.0) m
    → P k
    → All (λ (e : Str × ℕ). P e.0) (insert k v m)
unfolding insert
All-insert P k v [] all named = (named, tt)
All-insert P k v ((j, w) ∷ m) (here, all) named = elim (Bool-cases (str_eq j k)) [
  | inl same ↦ rw (same) (here, all)
  | inr other ↦ rw (other) (here, All-insert P k v m all named)
]

on_root-index :
    {A : Type 0} (act : FsBlobs → Root → Res A × Root × FsBlobs) (p : ℕ) (f : FsStorage)
    → (on_root act p f).1.index ≡ f.index
unfolding on_root
on_root-index act p f = elim (Option-cases (get_elem? f.objects p)) [
  | inl gone ↦ rw (gone, on_root)
  | inr (r, there) ↦ rw (there, on_root)
]

module _ (digest : Bytes → Str) (J : Codec) (K : IndexCodec) (faithful : IsFaithfulIndex K) where
  -- After a save that returned a hash, if the file of the index may be read, the hashes in the
  -- index and the one that was returned are texts, and encoding/json gives back each time of use of
  -- an index of texts that it encodes, a storage that is opened on the same directory has the same
  -- index, in which the hash is listed with the time of the save, and the hash opens there, at any
  -- time, as a root that is read-only, not loaded and has that hash.
  pub new_filesystem-root_save :
      (f : FsStorage) {f' g : FsStorage} {d : Disk} (p now later : ℕ) (hash : Str)
      → All (λ (e : Str × ℕ). K.IsText e.0) f.index
      → K.IsText hash
      → root_save digest J K p now f ≡ (ok hash, f')
      → lookup (join_path f'.blobs.dir index_file) f'.blobs.disk.unreadable ≡ none
      → new_filesystem K f'.blobs.dir f'.blobs.disk ≡ (ok g, d)
      → ((name : Str) → lookup name g.index ≡ lookup name f'.index)
        × (lookup hash g.index ≡ some now)
        × Opens later hash g
  unfolding root_save
  new_filesystem-root_save f {f'} {g} p now later hash texts named done readable opened =
      let (res, f₁) = on_root (save (filesystem digest) J) p f in
      let texts' =
        All-insert K.IsText hash now f₁.index
          (subst (All (λ (e : Str × ℕ). K.IsText e.0))
            (sym (on_root-index (save (filesystem digest) J) p f)) texts)
          named in
      let wrote = write_index-ok K (listing hash now f₁) (record_saved-ok K now res f₁ done) in
      let (same, unnamed) =
        reopened K faithful (listing hash now f₁) f' texts' wrote readable opened in
      let listed = same hash ∙ ap (lookup hash) wrote.2 ∙ lookup-insert_self hash now f₁.index in
      (same, listed, listed-Opens later now hash g (lookup-nothing hash g.roots unnamed) listed)
