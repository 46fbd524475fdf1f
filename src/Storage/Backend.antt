-- ===== src/Storage/Backend.antt =====
-- What a root calls of its `Storage` (internal/storage/storage.go) and of the blob writers that it
-- hands out, and how a directory is stored as a blob.
pub mod Steps
use httplock.Base.{ℕ, ◌≡◌, ◌≢◌, Option, List, [], ◌∷◌, Str, ok, err, All, true, str_lt}
use httplock.Hasher.{Bytes}
use httplock.Storage.Errors.{Error, Res, Status}
use httplock.Storage.Kind.{EntryKind}

-- A writer is known by its number. Opening a blob and reading it to its end are one operation.
pub record Backend : Type 1 where
  pub State : Type 0
  pub blob_open : State → Str → Res Bytes
  pub blob_create : State → Res ℕ × State
  pub blob_write : State → ℕ → Bytes → Res ℕ × State
  pub blob_close : State → ℕ → Option Error × State
  pub blob_hash : State → ℕ → Res Str

-- The JSON members of a `DirEntry`.
pub record Info : Type 0 where
  pub hash : Str
  pub kind : EntryKind

-- The entries of a directory, by name.
abbrev pub Listing : Type 0
Listing = List (Str × Info)

-- Strictly ascending names, the order in which `json.Marshal` writes the keys of a map.
abbrev pub IsAbove : Str → Listing → Type 0
IsAbove k [] = Unit
IsAbove k ((j, i) ∷ l) = str_lt k j ≡ true

abbrev pub IsSorted : Listing → Type 0
IsSorted [] = Unit
IsSorted ((k, i) ∷ l) = IsAbove k l × IsSorted l

-- encoding/json on a `Dir`: `marshal` is given the entries in the order of their names.
pub record Codec : Type 1 where
  pub marshal : Listing → Bytes
  pub unmarshal : Bytes → Res Listing
  -- the texts that JSON carries unchanged: those in UTF-8
  pub IsText : Str → Type 0

-- Decoding what was encoded gives it back, if its names and hashes are texts.
pub record IsFaithful (J : Codec) : Type 0 where
  pub unmarshal-marshal :
      (l : Listing)
      → IsSorted l
      → All (λ (e : Str × Info). J.IsText e.0 × J.IsText e.1.hash) l
      → J.unmarshal (J.marshal l) ≡ ok l

module _ (B : Backend) where
  -- The end of `hashDir`: a new blob is written and closed, and its hash becomes the hash of the
  -- directory, which was `old`. The error of `Close` is dropped.
  ask_hash : B.State → ℕ → Status × Str × B.State
  ask_hash s w = elim (B.blob_hash s w) [ err e ↦ (err e, [], s) | ok h ↦ (ok tt, h, s) ]

  close_and_hash : B.State → Str → ℕ → Res ℕ → Status × Str × B.State
  unfolding ask_hash
  close_and_hash s old w (err e) = (err e, old, (B.blob_close s w).1)
  close_and_hash s old w (ok n) = ask_hash (B.blob_close s w).1 w

  write_and_hash : B.State → Str → Bytes → Res ℕ → Status × Str × B.State
  unfolding close_and_hash
  write_and_hash s old b (err e) = (err e, old, s)
  write_and_hash s old b (ok w) =
      let (wrote, s') = B.blob_write s w b in close_and_hash s' old w wrote

  unfoldable pub push : B.State → Str → Bytes → Status × Str × B.State
  unfolding write_and_hash
  push s old b = let (w, s') = B.blob_create s in write_and_hash s' old b w

-- A store in which pushing a blob works: it is named by its digest, it can be opened under that
-- name, and the blobs and writers that were there before stay.
pub record IsReliable (digest : Bytes → Str) (B : Backend) : Type 0 where
  pub push_ok : (s : B.State) (old : Str) (b : Bytes) → (push B s old b).0 ≡ ok tt
  pub push_hash : (s : B.State) (old : Str) (b : Bytes) → (push B s old b).1 ≡ digest b
  pub push_stores :
      (s : B.State) (old : Str) (b : Bytes) → B.blob_open (push B s old b).2 (digest b) ≡ ok b
  pub push_keeps :
      (s : B.State) (old : Str) (b : Bytes) (h : Str) {c : Bytes}
      → B.blob_open s h ≡ ok c
      → h ≢ digest b
      → B.blob_open (push B s old b).2 h ≡ ok c
  pub push_keeps_hash :
      (s : B.State) (old : Str) (b : Bytes) (w : ℕ) {h : Str}
      → B.blob_hash s w ≡ ok h
      → B.blob_hash (push B s old b).2 w ≡ ok h
