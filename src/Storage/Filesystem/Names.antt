-- ===== src/Storage/Filesystem/Names.antt =====
-- The names of the roots of a `FsStorage` and of a `MemStorage`: both types keep them in the same
-- way.
use httplock.Base.{ℕ, ◌≡◌, refl, Str, Option-cases, inl, inr}
use httplock.Base.Dict.{lookup}
use httplock.Storage.Memory
use httplock.Storage.Memory.{MemStorage}
use httplock.Storage.Memory.Blobs.{no_blobs}
use package.httplock.Storage.Filesystem.{FsStorage, root_create, root_create_from, root_open}

-- A storage without its blobs, as one that is kept in memory.
abbrev pub names_of : FsStorage → MemStorage
names_of f = record { index = f.index; roots = f.roots; objects = f.objects; blobs = no_blobs }

abbrev pub with_names : {A : Type 0} → A × FsStorage → A × MemStorage
with_names x = (x.0, names_of x.1)

create_from-same :
    (hash u : Str) (f : FsStorage)
    → with_names (root_create_from hash u f) ≡ Memory.root_create_from hash u (names_of f)
unfolding root_create_from Memory.root_create_from
create_from-same hash u f = elim (Option-cases (lookup hash f.index)) [
  | inl gone ↦ rw (gone, root_create_from, Memory.root_create_from)
  | inr (used, listed) ↦ rw (listed, root_create_from, Memory.root_create_from)
]

open-same :
    (name : Str) (now : ℕ) (f : FsStorage)
    → with_names (root_open name now f) ≡ Memory.root_open name now (names_of f)
unfolding root_open Memory.root_open
open-same name now f = elim (Option-cases (lookup name f.roots)) [
  | inr (p, named) ↦ rw (named, root_open, Memory.root_open)
  | inl unnamed ↦ elim (Option-cases (lookup name f.index)) [
    | inl gone ↦ rw (unnamed, root_open, Memory.root_open) (rw gone)
    | inr (used, listed) ↦ rw (unnamed, root_open, Memory.root_open) (rw listed)
  ]
]

-- RootCreate, RootCreateFrom and RootOpen of the storage in a directory give what those of the
-- storage in memory give, and change the index, the names and the roots in the same way.
pub names-same :
    (name u : Str) (now : ℕ) (f : FsStorage)
    → (with_names (root_create u f) ≡ Memory.root_create u (names_of f))
      × (with_names (root_create_from name u f) ≡ Memory.root_create_from name u (names_of f))
      × (with_names (root_open name now f) ≡ Memory.root_open name now (names_of f))
unfolding root_create Memory.root_create
names-same name u now f = (refl, create_from-same name u f, open-same name now f)
