-- ===== src/Storage/Memory/Calls.antt =====
-- A storage in use: any sequence of the calls that its clients make.
use mathlib.Core.Path.{subst}
use httplock.Base.{
  ℕ, ◌≡◌, ◌≢◌, sym, true, none, some, List, Str, length, get_elem?, get_elem?-append_new, ok, err,
}
use httplock.Base.Dict.{lookup, insert, lookup-insert_self}
use httplock.Hasher.{Bytes}
use httplock.Storage.Errors.{Res}
use httplock.Storage.Backend.{Codec}
use httplock.Storage.Root.{Root, new_root, new_root_hash, save, read, write, link, list_dir}
use package.httplock.Storage.Memory.Opening.{root_open-named, root_open-names}
use package.httplock.Storage.Memory.{
  MemStorage, new_memory, register, uuid_name, root_create, root_create_from, root_open, root_save,
  on_root, record_saved,
}
use package.httplock.Storage.Memory.Index.{
  IsSound, register-IsSound, on_root-IsSound, root_create_from-IsSound, root_open-IsSound,
}
use package.httplock.Storage.Memory.Transfers.{
  root_save-IsSound, diff_opened-IsSound, export_archive-IsSound, import_archive-IsSound, walk_act,
  report_act,
}
use httplock.Storage.Root.Walking.{WalkFns, entry_hash, list_hashes}
use httplock.Storage.Root.Walking.Frozen.{
  entry_hash-IsKept, walk_root-IsKept, list_hashes-IsKept, report-IsKept,
}
use httplock.Storage.Export.{TarWriter, Encoders, export_archive}
use httplock.Storage.Import.Archive.{Readers, import_archive}
use httplock.Storage.Filesystem.Os.{Disk}
use httplock.Api.Roots
use httplock.Storage.Root.Frozen.{read-IsKept, write-IsKept, link-IsKept, list_dir-IsKept}
use package.httplock.Storage.Memory.Blobs.{MemBlobs, memory}

-- The calls that change a storage. `act` is a method of a root, by whoever holds the root; the
-- others are those of the storage, the ones that open two roots among them.
pub data Step (digest : Bytes → Str) (J : Codec) : MemStorage → MemStorage → Type 1 where
  create : (m : MemStorage) (u : Str) → Step digest J m (root_create u m).1
  create_from : (m : MemStorage) (hash u : Str) → Step digest J m (root_create_from hash u m).1
  opening : (m : MemStorage) (name : Str) (now : ℕ) → Step digest J m (root_open name now m).1
  saving : (m : MemStorage) (p now : ℕ) → Step digest J m (root_save digest J p now m).1
  -- `DiffRoots` of two roots, an `Export` and an `Import`, whatever the files, readers and writers
  diffing :
      (m : MemStorage) (turns depth p q : ℕ)
      → Step digest J m (Roots.diff_opened digest J turns depth p q m).1
  exporting :
      (m : MemStorage) (T : TarWriter) (E : Encoders) (n : ℕ) (id : Str) (now : ℕ) (o : T.Out)
      → Step digest J m (export_archive T digest J E n id now o m).2
  importing :
      (m : MemStorage) (X : Readers) (n : ℕ) (id : Str) (now : ℕ) (archive : Bytes) (d : Disk)
      → Step digest J m (import_archive X digest J n id now archive m d).1
  act_write :
      (m : MemStorage) (p : ℕ) (path : List Str)
      → Step digest J m (on_root (write (memory digest) J path) p m).1
  act_link :
      (m : MemStorage) (p : ℕ) (path : List Str) (blob : Str)
      → Step digest J m (on_root (link (memory digest) J path blob) p m).1
  act_read :
      (m : MemStorage) (p : ℕ) (path : List Str)
      → Step digest J m (on_root (read (memory digest) J path) p m).1
  act_list :
      (m : MemStorage) (p : ℕ) (path : List Str)
      → Step digest J m (on_root (list_dir (memory digest) J path) p m).1
  act_hash :
      (m : MemStorage) (p : ℕ) (path : List Str)
      → Step digest J m (on_root (entry_hash (memory digest) J path) p m).1
  act_hashes :
      (m : MemStorage) (p n : ℕ) → Step digest J m (on_root (list_hashes (memory digest) J n) p m).1
  act_walk :
      (m : MemStorage) (p : ℕ) {K : Type 0} (fns : WalkFns (memory digest) J K) (n : ℕ) (k : K)
      → Step digest J m (on_root (walk_act digest J fns n k) p m).1
  act_report : (m : MemStorage) (p n : ℕ) → Step digest J m (on_root (report_act digest J n) p m).1
  -- what a client does with the blob writers that it holds
  act_blobs : (m : MemStorage) (s : MemBlobs) → Step digest J m (record m { blobs = s })

pub data Reach (digest : Bytes → Str) (J : Codec) : MemStorage → Type 1 where
  start : Reach digest J new_memory
  next : {m m' : MemStorage} → Reach digest J m → Step digest J m m' → Reach digest J m'

root_create-IsSound : (m : MemStorage) (u : Str) → IsSound m → IsSound (root_create u m).1
unfolding root_create new_root
root_create-IsSound m u sound =
    register-IsSound m (uuid_name u) new_root sound (λ frozen. cc frozen)

-- The name `hash` opens, as a new root that is read-only, not loaded and has that hash, and a root
-- that may be written to can be created from it.
abbrev pub Opens : ℕ → Str → Str → MemStorage → Type 0
Opens later u hash m =
    (q : ℕ) × (root_open hash later m ≡ (ok q, m))
    × (get_elem? m.objects q ≡ some (new_root_hash hash))
    × ((root_create_from hash u m).0 ≡ ok (uuid_name u, length m.objects))

record_saved-ok :
    (now : ℕ) (res : Res Str) (m m' : MemStorage) (hash : Str)
    → record_saved now (res, m) ≡ (ok hash, m')
    → m' ≡ register hash (new_root_hash hash) (record m { index = insert hash now m.index })
unfolding record_saved
record_saved-ok now (ok x) m m' hash done = cc
record_saved-ok now (err e) m m' hash done = cc

root_create_from-listed :
    (hash u : Str) (m : MemStorage) (used : ℕ)
    → lookup hash m.index ≡ some used
    → (root_create_from hash u m).0 ≡ ok (uuid_name u, length m.objects)
unfolding root_create_from
root_create_from-listed hash u m used listed = rw (listed, root_create_from)

saved-Opens :
    (now later : ℕ) (u hash : Str) (m : MemStorage)
    → Opens later u hash
        (register hash (new_root_hash hash) (record m { index = insert hash now m.index }))
saved-Opens now later u hash m = (
  length m.objects,
  root_open-named hash later _ (length m.objects)
      (lookup-insert_self hash (length m.objects) m.roots),
  get_elem?-append_new m.objects (new_root_hash hash),
  root_create_from-listed hash u _ now (lookup-insert_self hash now m.index),
)

module _ (digest : Bytes → Str) (J : Codec) where
  Step-IsSound : {m m' : MemStorage} → Step digest J m m' → IsSound m → IsSound m'
  Step-IsSound (create m u) sound = root_create-IsSound m u sound
  Step-IsSound (create_from m hash u) sound = root_create_from-IsSound m hash u sound
  Step-IsSound (opening m name now) sound = root_open-IsSound m name now sound
  Step-IsSound (diffing m turns depth p q) sound =
      diff_opened-IsSound digest J turns depth p q m sound
  Step-IsSound (exporting m T E n id now o) sound =
      export_archive-IsSound digest J T E n id now o m sound
  Step-IsSound (importing m X n id now archive d) sound =
      import_archive-IsSound digest J X n id now archive m d sound
  Step-IsSound (act_hash m p path) sound =
      on_root-IsSound (entry_hash (memory digest) J path) p m
        (entry_hash-IsKept (memory digest) J path) sound
  Step-IsSound (act_hashes m p n) sound =
      on_root-IsSound (list_hashes (memory digest) J n) p m (list_hashes-IsKept (memory digest) J n)
        sound
  Step-IsSound (act_walk m p fns n k) sound =
      on_root-IsSound (walk_act digest J fns n k) p m (walk_root-IsKept (memory digest) J fns n k)
        sound
  Step-IsSound (act_report m p n) sound =
      on_root-IsSound (report_act digest J n) p m (report-IsKept (memory digest) J n) sound
  Step-IsSound (saving m p now) sound = root_save-IsSound digest J m p now sound
  Step-IsSound (act_write m p path) sound =
      on_root-IsSound (write (memory digest) J path) p m (write-IsKept (memory digest) J path) sound
  Step-IsSound (act_link m p path blob) sound =
      on_root-IsSound (link (memory digest) J path blob) p m
        (link-IsKept (memory digest) J path blob) sound
  Step-IsSound (act_read m p path) sound =
      on_root-IsSound (read (memory digest) J path) p m (read-IsKept (memory digest) J path) sound
  Step-IsSound (act_list m p path) sound =
      on_root-IsSound (list_dir (memory digest) J path) p m (list_dir-IsKept (memory digest) J path)
        sound
  Step-IsSound (act_blobs m s) sound = record { leads = sound.leads }

  Reach-IsSound : {m : MemStorage} → Reach digest J m → IsSound m
  unfolding new_memory lookup
  Reach-IsSound start = record { leads = λ name p found. cc }
  Reach-IsSound (next r step) = Step-IsSound step (Reach-IsSound r)

  -- Whatever calls came before, of the storage, of its roots and of its blobs, with comparisons,
  -- exports and imports among them, opening a name gives a root which, if it is read-only, has that
  -- name for its hash and is listed in the index.
  pub Reach-open :
      {m m' : MemStorage} (name : Str) (now : ℕ) (p : ℕ)
      → Reach digest J m
      → root_open name now m ≡ (ok p, m')
      → (r : Root) × (get_elem? m'.objects p ≡ some r)
        × (r.readonly ≡ true → (r.hash ≡ name) × (lookup name m'.index ≢ none))
  Reach-open {m} name now p reach done =
      let after = Reach-IsSound (next reach (opening m name now)) in
      (subst IsSound (λ i. (done i).1) after).leads name p (root_open-names name now m done)

  pub open-save :
      (m : MemStorage) {m' : MemStorage} (p now later : ℕ) (u : Str) (hash : Str)
      → root_save digest J p now m ≡ (ok hash, m')
      → Opens later u hash m'
  unfolding root_save
  open-save m {m'} p now later u hash done =
      let (res, m₁) = on_root (save (memory digest) J) p m in
      subst (Opens later u hash) (sym (record_saved-ok now res m₁ m' hash done))
        (saved-Opens now later u hash m₁)
