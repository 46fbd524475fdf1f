-- ===== src/Tests/Sample.antt =====
-- A codec and a hash function to run the model with: a text is written with 1 added to each byte
-- and a 0 behind it, and the sum of some bytes is one byte, their number.
use httplock.Base.{ℕ, ◌%◌, zero, suc, ◌≡◌, refl, Option, none, some, [], ◌∷◌, Str, length, ok, err}
use httplock.Hasher.{Bytes, from_bytes}
use httplock.Storage.Errors.{Res, bad_json}
use httplock.Storage.Kind.{EntryKind, kind_dir, kind_file}
use httplock.Storage.Backend.{Backend, Codec, Listing}
use httplock.Storage.Memory.Blobs.{memory}

abbrev pub sha256 : Bytes → Bytes
sha256 b = length b % 256 ∷ []

abbrev pub digest : Bytes → Str
digest = from_bytes sha256

abbrev pub backend : Backend
backend = memory digest

unfoldable pub encode_text : Str → Bytes → Bytes
encode_text [] rest = 0 ∷ rest
encode_text (c ∷ s) rest = suc c ∷ encode_text s rest

abbrev prepend : ℕ → Option (Str × Bytes) → Option (Str × Bytes)
prepend c none = none
prepend c (some (s, rest)) = some (c ∷ s, rest)

decode_text : Bytes → Option (Str × Bytes)
decode_text [] = none
decode_text (zero ∷ rest) = some ([], rest)
decode_text (suc c ∷ rest) = prepend c (decode_text rest)

decode_text-encode_text :
    (s : Str) (rest : Bytes) → decode_text (encode_text s rest) ≡ some (s, rest)
unfolding encode_text decode_text
decode_text-encode_text [] rest = refl
decode_text-encode_text (c ∷ s) rest = rw (decode_text-encode_text s rest)

abbrev kind_code : EntryKind → ℕ
kind_code kind_dir = 0
kind_code kind_file = 1

abbrev code_kind : ℕ → EntryKind
code_kind zero = kind_dir
code_kind (suc n) = kind_file

encode : Listing → Bytes
encode [] = []
encode ((k, i) ∷ l) = encode_text k (kind_code i.kind ∷ encode_text i.hash (encode l))

abbrev add_entry : Str → EntryKind → Str → Res Listing → Res Listing
add_entry k kind hash (ok l) = ok ((k, record { hash = hash; kind = kind }) ∷ l)
add_entry k kind hash (err e) = err e

-- The fuel is the number of bytes.
decode : ℕ → Bytes → Res Listing
decode n [] = ok []
decode zero (b ∷ bs) = err bad_json
decode (suc n) (b ∷ bs) = elim (decode_text (b ∷ bs)) [
  | some (k, c ∷ rest) ↦ elim (decode_text rest) [
    | some (hash, more) ↦ add_entry k (code_kind c) hash (decode n more)
    | none ↦ err bad_json
  ]
  | _ ↦ err bad_json
]

unfoldable pub codec : Codec
unfolding encode decode encode_text decode_text
codec = record { marshal = encode; unmarshal = λ b. decode (length b) b; IsText = λ s. Unit {0} }
