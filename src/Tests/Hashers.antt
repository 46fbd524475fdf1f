-- ===== src/Tests/Hashers.antt =====
-- The hasher over a buffer that takes at most three bytes at a time, and over a text that is read.
use httplock.Base.{ℕ, ◌≡◌, refl, none, List, [], ◌∷◌, ◌++◌, text, length, take, drop}
use httplock.Hasher.{Bytes, Wrote, Got, new_writer, new_reader, read, write}
use httplock.Hasher.Passing.{write_all, write_all-hashes, read_all, read_all-hashes}
use httplock.Storage.Errors.{Error}

abbrev slow_write : Bytes → Bytes → Wrote Error × Bytes
slow_write w p = (record { count = length (take 3 p); error = none }, w ++ take 3 p)

abbrev write_pieces : List Bytes
write_pieces = text "ab" ∷ text "hello" ∷ []

slow-appends : (w p : Bytes) → (slow_write w p).1 ≡ w ++ take (slow_write w p).0.count p
slow-appends w [] = refl
slow-appends w (a ∷ []) = refl
slow-appends w (a ∷ b ∷ []) = refl
slow-appends w (a ∷ b ∷ c ∷ p) = refl

write_all-hashes_example :
    (write_all slow_write (new_writer []) write_pieces).h
    ≡ (write_all slow_write (new_writer []) write_pieces).w
write_all-hashes_example = write_all-hashes slow_write (λ w. w) slow-appends [] write_pieces refl

-- Reading takes what is there from the front.
abbrev text_read : Bytes → ℕ → Got Error × Bytes
text_read r n = (record { bytes = take n r; error = none }, drop n r)

read_all-hashes_example :
    (read_all text_read (new_reader (text "hello")) (2 ∷ 0 ∷ 9 ∷ [])).1.h
    ≡ (read_all text_read (new_reader (text "hello")) (2 ∷ 0 ∷ 9 ∷ [])).0
read_all-hashes_example = read_all-hashes text_read (text "hello") (2 ∷ 0 ∷ 9 ∷ [])

read_all_runs : (read_all text_read (new_reader (text "hello")) (2 ∷ 0 ∷ 9 ∷ [])).1.h ≡ text "hello"
unfolding read_all read new_reader
read_all_runs = refl

-- Two of the five bytes of the last piece are not taken.
write_all_runs : (write_all slow_write (new_writer []) write_pieces).h ≡ text "abhel"
unfolding write_all write new_writer
write_all_runs = refl
