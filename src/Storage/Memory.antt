-- ===== src/Storage/Memory.antt =====
-- internal/storage/memory.go: everything is kept in maps. A `*Root` is its number in `objects`, so
-- that two names, or a name and a caller, may hold the same root. The uuid and the time that a
-- method takes from outside are arguments.
pub mod Blobs
pub mod Reliable
pub mod Opening
pub mod Index
pub mod Transfers
pub mod Calls
use httplock.Base.{
  ℕ, true, false, Option, none, some, List, [], ◌∷◌, ◌++◌, Str, text, length, get_elem?, set, ok,
  err, if◌then◌else◌,
}
use httplock.Base.Dict.{Dict, lookup, insert}
use httplock.Hasher.{Bytes}
use httplock.Storage.Errors.{Res, Status, not_in_index, not_implemented, panic}
use httplock.Storage.Backend.{Codec}
use httplock.Storage.Root.{Root, new_root, new_root_hash, save}
use Blobs.{MemBlobs, no_blobs, memory}

-- `index` is `Index.Roots`: the time of last use of each saved root.
pub record MemStorage : Type 0 where
  pub index : Dict ℕ
  pub roots : Dict ℕ
  pub objects : List Root
  pub blobs : MemBlobs

unfoldable pub new_memory : MemStorage
new_memory = record { index = []; roots = []; objects = []; blobs = no_blobs }

-- `fmt.Sprintf("uuid:%s", …)`
abbrev pub uuid_name : Str → Str
uuid_name u = text "uuid:" ++ u

-- `m.roots[name] = root` for a new root.
abbrev pub register : Str → Root → MemStorage → MemStorage
register name r m = record m {
  roots = insert name (length m.objects) m.roots;
  objects = m.objects ++ (r ∷ []);
}

-- The name and the root.
unfoldable pub root_create : Str → MemStorage → (Str × ℕ) × MemStorage
root_create u m = ((uuid_name u, length m.objects), register (uuid_name u) new_root m)

unfoldable pub root_create_from : Str → Str → MemStorage → Res (Str × ℕ) × MemStorage
root_create_from hash u m = elim (lookup hash m.index) [
  | none ↦ (err (not_in_index hash), m)
  | some used ↦ (
    ok (uuid_name u, length m.objects),
    register (uuid_name u) (record (new_root_hash hash) { readonly = false }) m,
  )
]

unfoldable pub root_open : Str → ℕ → MemStorage → Res ℕ × MemStorage
root_open name now m = elim (lookup name m.roots) [
  | some root ↦ (ok root, m)
  | none ↦ elim (lookup name m.index) [
    | none ↦ (err (not_in_index name), m)
    | some used ↦ (
      ok (length m.objects),
      register name (new_root_hash name) (record m { index = insert name now m.index }),
    )
  ]
]

-- A method of the root that a pointer leads to.
unfoldable pub on_root :
    {A : Type 0} → (MemBlobs → Root → Res A × Root × MemBlobs) → ℕ → MemStorage → Res A × MemStorage
on_root f p m = elim (get_elem? m.objects p) [
  | none ↦ (err panic, m)
  | some r ↦
      let (a, r', blobs) = f m.blobs r in
      (a, record m { objects = set m.objects p r'; blobs = blobs })
]

-- The root of a saved hash replaces what had that name.
unfoldable pub record_saved : ℕ → Res Str × MemStorage → Res Str × MemStorage
record_saved now (err e, m) = (err e, m)
record_saved now (ok hash, m) =
    (ok hash, register hash (new_root_hash hash) (record m { index = insert hash now m.index }))

unfoldable pub root_save : (Bytes → Str) → Codec → ℕ → ℕ → MemStorage → Res Str × MemStorage
root_save digest J p now m = record_saved now (on_root (save (memory digest) J) p m)

-- `Flush`, `PruneCache`, `PruneStorage` and `Index`
pub flush : MemStorage → Status × MemStorage
flush m = (ok tt, m)

pub prune_cache : ℕ → MemStorage → Status × MemStorage
prune_cache age m = (err not_implemented, m)

pub prune_storage : MemStorage → Status × MemStorage
prune_storage m = (err not_implemented, m)
