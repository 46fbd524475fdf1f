-- ===== src/Storage/Errors.antt =====
-- The errors of internal/storage. Go's errors are texts; here each text is a constructor, with the
-- name that the text shows, and an error that wraps another carries it.
use httplock.Base.{ℕ, List, Str, Result}

pub data Error : Type 0 where
  -- `errNotImplemented`, `errReadOnly` and `fs.ErrNotExist`
  not_implemented read_only not_exist : Error
  -- "hash unavailable, writer is not closed", "file hash missing", "hash missing"
  not_closed file_hash_missing hash_missing : Error
  -- "not found: …", "… exists and is not a file", "… exists and is not a directory"
  not_found not_a_file not_a_directory : Str → Error
  -- "failed to load …", "hashing file … failed"
  load_failed hash_failed : Str → Error → Error
  -- "failed to hash directory", "failed to hash file"
  hash_dir_failed hash_file_failed : Error → Error
  -- "hash not found in index: …"
  not_in_index : Str → Error
  -- "unknown directory entry kind: …", and the other errors of `json.Unmarshal`
  unknown_kind : Str → Error
  bad_json : Error
  -- "storage kind … not supported"
  kind_unsupported : Str → Error
  -- "failed to compute hash on r1", "hash missing from r1" (or r2), "failed looking up entry: …",
  -- "failed loading dir at …"
  diff_hash_failed : ℕ → Error → Error
  diff_hash_missing : ℕ → Error
  lookup_failed : List Str → Error
  dir_failed : List Str → Error → Error
  -- "hash mismatch, computed …, expected …"
  hash_mismatch : Str → Str → Error
  -- an error of internal/proxy that wraps another: its text before the colon
  wrapped : Str → Error → Error
  -- an error of the operating system, and the joined errors of a `Close`
  io : ℕ → Error
  join : Error → Error → Error
  -- a run-time panic: a nil pointer or a slice out of range
  panic : Error
  -- no error of the code: a loop of the model was given too few turns
  out_of_turns : Error

-- What a call gives, or its error.
abbrev pub Res {ℓ} : Type ℓ → Type ℓ
Res A = Result Error A

-- What a call gives that returns an error alone.
abbrev pub Status : Type 0
Status = Res (Unit {0})
