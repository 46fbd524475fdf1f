-- ===== src/Storage/Filesystem.antt =====
-- internal/storage/filesystem.go: blobs and the index are files in a directory. As in memory, a
-- `*Root` is its number in `objects`, and the uuid and the time are arguments.
pub mod Paths
pub mod Os
pub mod Blobs
pub mod Names
pub mod Calls
pub mod Restart
pub mod Pushing
pub mod Filing
use httplock.Base.{
  All, ℕ, Bool, ◌≡◌, true, false, Option, none, some, List, [], ◌∷◌, ◌++◌, Str, text, length,
  get_elem?, set, ok, err, if◌then◌else◌,
}
use httplock.Base.Dict.{Dict, lookup, insert}
use httplock.Hasher.{Bytes}
use httplock.Storage.Errors.{
  Res, Status, Error, not_in_index, not_implemented, not_a_directory, panic, not_exist,
}
use httplock.Storage.Backend.{Codec}
use httplock.Storage.Root.{Root, new_root, new_root_hash, save}
use httplock.Storage.Memory.{uuid_name}
use Paths.{join_path}
use Os.{Disk, stat, mkdir_all, read_file, create, file_write}
use Blobs.{FsBlobs, filesystem, tmp_dir}

-- encoding/json on an `Index`: what `Marshal` gives, and what `Unmarshal` leaves in an index that
-- was empty, whether it fails or not.
pub record IndexCodec : Type 1 where
  pub marshal_index : Dict ℕ → Res Bytes
  pub unmarshal_index : Bytes → Dict ℕ
  -- the texts that JSON carries unchanged: those in UTF-8
  pub IsText : Str → Type 0

-- Decoding what was encoded gives the same time of use for each hash, if the hashes are texts.
pub record IsFaithfulIndex (K : IndexCodec) : Type 0 where
  pub unmarshal-marshal :
      (index : Dict ℕ) (b : Bytes) (hash : Str)
      → All (λ (e : Str × ℕ). K.IsText e.0) index
      → K.marshal_index index ≡ ok b
      → lookup hash (K.unmarshal_index b) ≡ lookup hash index

-- `filenameIndexJSON`
abbrev pub index_file : Str
index_file = text "index.json"

pub record FsStorage : Type 0 where
  pub index : Dict ℕ
  pub roots : Dict ℕ
  pub objects : List Root
  pub blobs : FsBlobs

abbrev index_of : IndexCodec → Res Bytes → Dict ℕ
index_of K (ok b) = K.unmarshal_index b
index_of K (err e) = []

unfoldable pub read_index : IndexCodec → Str → Disk → Dict ℕ
read_index K dir d = index_of K (read_file d (join_path dir index_file))

-- The storage over a directory that is ready for it.
unfoldable pub fs_storage : IndexCodec → Str → Disk → FsStorage
unfolding read_index
fs_storage K dir d = record {
  index = read_index K dir d;
  roots = [];
  objects = [];
  blobs = record { dir = dir; disk = d; writers = [] };
}

abbrev pub after_mkdir : IndexCodec → Str → Status × Disk → Res FsStorage × Disk
after_mkdir K dir (ok u, d) = (ok (fs_storage K dir d), d)
after_mkdir K dir (err e, d) = (err e, d)

-- `errors.Is(err, fs.ErrNotExist)`
abbrev pub is_not_exist : Error → Bool
is_not_exist not_exist = true
is_not_exist e = false

abbrev pub after_stat : IndexCodec → Str → Res Bool × Disk → Res FsStorage × Disk
after_stat K dir (ok true, d) = (ok (fs_storage K dir d), d)
after_stat K dir (ok false, d) = (err (not_a_directory dir), d)
after_stat K dir (err e, d) =
    if is_not_exist e then after_mkdir K dir (mkdir_all (join_path dir tmp_dir) d) else (err e, d)

unfoldable pub new_filesystem : IndexCodec → Str → Disk → Res FsStorage × Disk
unfolding fs_storage
new_filesystem K dir d = after_stat K dir (stat (join_path dir tmp_dir) d)

-- `fs.roots[name] = root` for a new root.
abbrev pub register : Str → Root → FsStorage → FsStorage
register name r f = record f {
  roots = insert name (length f.objects) f.roots;
  objects = f.objects ++ (r ∷ []);
}

unfoldable pub root_create : Str → FsStorage → (Str × ℕ) × FsStorage
root_create u f = ((uuid_name u, length f.objects), register (uuid_name u) new_root f)

unfoldable pub root_create_from : Str → Str → FsStorage → Res (Str × ℕ) × FsStorage
root_create_from hash u f = elim (lookup hash f.index) [
  | none ↦ (err (not_in_index hash), f)
  | some used ↦ (
    ok (uuid_name u, length f.objects),
    register (uuid_name u) (record (new_root_hash hash) { readonly = false }) f,
  )
]

unfoldable pub root_open : Str → ℕ → FsStorage → Res ℕ × FsStorage
root_open name now f = elim (lookup name f.roots) [
  | some root ↦ (ok root, f)
  | none ↦ elim (lookup name f.index) [
    | none ↦ (err (not_in_index name), f)
    | some used ↦ (
      ok (length f.objects),
      register name (new_root_hash name) (record f { index = insert name now f.index }),
    )
  ]
]

-- A method of the root that a pointer leads to.
unfoldable pub on_root :
    {A : Type 0} → (FsBlobs → Root → Res A × Root × FsBlobs) → ℕ → FsStorage → Res A × FsStorage
on_root act p f = elim (get_elem? f.objects p) [
  | none ↦ (err panic, f)
  | some r ↦
      let (a, r', blobs) = act f.blobs r in
      (a, record f { objects = set f.objects p r'; blobs = blobs })
]

abbrev pub with_disk : Disk → FsStorage → FsStorage
with_disk d f = record f { blobs = record f.blobs { disk = d } }

abbrev pub write_error : Option Error → Status
write_error none = ok tt
write_error (some e) = err e

-- The index is written over what the file had.
unfoldable pub write_index : IndexCodec → FsStorage → Status × FsStorage
write_index K f = elim (K.marshal_index f.index) [
  | err e ↦ (err e, f)
  | ok b ↦
      let (made, d) = create (join_path f.blobs.dir index_file) f.blobs.disk in
      elim made [
        | err e ↦ (err e, with_disk d f)
        | ok h ↦ let (n, held) = file_write (h, d) b in (write_error n.error, with_disk held.1 f)
      ]
]

abbrev pub hash_written : Str → Status × FsStorage → Res Str × FsStorage
hash_written hash (ok u, f) = (ok hash, f)
hash_written hash (err e, f) = (err e, f)

-- The root of a saved hash replaces what had that name, and the index is written.
unfoldable pub record_saved : IndexCodec → ℕ → Res Str × FsStorage → Res Str × FsStorage
unfolding write_index
record_saved K now (err e, f) = (err e, f)
record_saved K now (ok hash, f) = hash_written hash (
    write_index K
      (register hash (new_root_hash hash) (record f { index = insert hash now f.index })))

unfoldable pub root_save :
    (Bytes → Str) → Codec → IndexCodec → ℕ → ℕ → FsStorage → Res Str × FsStorage
unfolding record_saved
root_save digest J K p now f = record_saved K now (on_root (save (filesystem digest) J) p f)

-- `Flush`, `PruneCache` and `PruneStorage`
pub flush : FsStorage → Status × FsStorage
flush f = (ok tt, f)

pub prune_cache : ℕ → FsStorage → Status × FsStorage
prune_cache age f = (err not_implemented, f)

pub prune_storage : FsStorage → Status × FsStorage
prune_storage f = (err not_implemented, f)
