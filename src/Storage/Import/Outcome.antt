-- ===== src/Storage/Import/Outcome.antt =====
-- What an import that returns no error has done.
use httplock.Base.{ℕ, ◌≡◌, Str, ◌⊎◌}
use httplock.Hasher.{Bytes}
use httplock.Storage.Backend.{Codec}
use httplock.Storage.Memory.{MemStorage}
use httplock.Storage.Memory.Calls.{Opens}
use package.httplock.Storage.Import.Archive.{Readers}

module _ (X : Readers) (digest : Bytes → Str) (J : Codec) (n : ℕ) where
  -- The root opens under its name, at any time.
  abbrev pub OpensAlways : Str → MemStorage → Type 0
  OpensAlways id m = (later : ℕ) (u : Str) → Opens later u id m

  -- Nothing was done, or the root is there.
  abbrev pub Result : Str → MemStorage → MemStorage → Type 0
  Result id m m' = (m' ≡ m) ⊎ OpensAlways id m'
