-- ===== src/Hasher.antt =====
-- hasher/hasher.go: hashing what passes through a reader or a writer. SHA-256 is the parameter
-- `sha256`, from the bytes hashed to the bytes of the sum; a running `hash.Hash` is the list of
-- the bytes that it was given, and its `Write` never fails.
pub mod Passing
use httplock.Base.{
  ℕ, ◌+◌, ◌/◌, ◌%◌, Option, List, [], ◌∷◌, ◌++◌, Str, text, take, ltb, if◌then◌else◌,
}

abbrev pub Bytes : Type 0
Bytes = List ℕ

abbrev pub algorithm : Str
algorithm = text "sha256"

-- `%x` of one hexadecimal digit; 87 + 10 is the letter a.
abbrev hex_digit : ℕ → ℕ
hex_digit d = if ltb d 10 then 48 + d else 87 + d

-- `%x` of a byte slice.
unfoldable pub hex : Bytes → Str
hex [] = []
hex (b ∷ bs) = hex_digit (b / 16) ∷ hex_digit (b % 16) ∷ hex bs

module _ (sha256 : Bytes → Bytes) where
  -- `FromBytes`, and the `String` of a reader or a writer that has hashed these bytes.
  unfoldable pub from_bytes : Bytes → Str
  from_bytes b = algorithm ++ (text ":" ++ hex (sha256 b))

-- A `hasher.Writer` over an `io.Writer` of the type `W`, and a `hasher.Reader`.
pub record Writer (W : Type 0) : Type 0 where
  pub h : Bytes
  pub w : W

pub record Reader (R : Type 0) : Type 0 where
  pub h : Bytes
  pub r : R

-- What `Write` returns: the count and the error.
pub record Wrote (E : Type 0) : Type 0 where
  pub count : ℕ
  pub error : Option E

-- What `Read` returns: the bytes that it put into the buffer, and the error.
pub record Got (E : Type 0) : Type 0 where
  pub bytes : Bytes
  pub error : Option E

unfoldable pub new_writer : {W : Type 0} → W → Writer W
new_writer w = record { h = []; w = w }

unfoldable pub new_reader : {R : Type 0} → R → Reader R
new_reader r = record { h = []; r = r }

module _ {E W : Type 0} (io_write : W → Bytes → Wrote E × W) where
  unfoldable pub write : Writer W → Bytes → Wrote E × Writer W
  write hw p =
      let (n, w) = io_write hw.w p in
      if ltb 0 n.count
      then (n, record { h = hw.h ++ take n.count p; w = w })
      else (n, record hw { w = w })

module _ {E R : Type 0} (io_read : R → ℕ → Got E × R) where
  unfoldable pub read : Reader R → ℕ → Got E × Reader R
  read hr room =
      let (g, r) = io_read hr.r room in
      elim g.bytes [
        | [] ↦ (g, record hr { r = r })
        | b ∷ bs ↦ (g, record { h = hr.h ++ (b ∷ bs); r = r })
      ]
