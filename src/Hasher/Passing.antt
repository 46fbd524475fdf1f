-- ===== src/Hasher/Passing.antt =====
-- What a `hasher.Writer` or `hasher.Reader` has hashed after any sequence of calls.
use mathlib.Core.List.{append_assoc, append-nil}
use httplock.Base.{ℕ, zero, suc, ◌≡◌, refl, ◌∙◌, sym, List, [], ◌∷◌, ◌++◌, take, arith, ltb, false}
use package.httplock.Hasher.{Bytes, Writer, Reader, Wrote, Got, new_writer, new_reader, write, read}

take_none : (n : ℕ) (p : Bytes) → ltb 0 n ≡ false → take n p ≡ []
take_none zero p h = refl
take_none (suc n) p h = absurd (ground arith)

module _ {E W : Type 0} (io_write : W → Bytes → Wrote E × W) where
  -- The calls of `Write`, one after the other.
  unfoldable pub write_all : Writer W → List Bytes → Writer W
  write_all hw [] = hw
  write_all hw (p ∷ ps) = write_all (write io_write hw p).1 ps

  module _ (content : W → Bytes)
      (appends : (w : W) (p : Bytes)
        → content (io_write w p).1 ≡ content w ++ take (io_write w p).0.count p) where
    write-content :
        (hw : Writer W) (p : Bytes)
        → hw.h ≡ content hw.w
        → (write io_write hw p).1.h ≡ content (write io_write hw p).1.w
    unfolding write
    write-content hw p same =
        ground (arith, appends hw.w p, append-nil hw.h, take_none (io_write hw.w p).0.count p)

    write_all-content :
        (hw : Writer W) (ps : List Bytes)
        → hw.h ≡ content hw.w
        → (write_all hw ps).h ≡ content (write_all hw ps).w
    unfolding write_all
    write_all-content hw [] same = same
    write_all-content hw (p ∷ ps) same =
        write_all-content (write io_write hw p).1 ps (write-content hw p same)

    -- Whatever is written, and however short the writes of the underlying writer fall or fail, a
    -- new writer over an empty one has hashed exactly the bytes that the underlying one now holds,
    -- provided that this one appends the bytes that it counts.
    pub write_all-hashes :
        (w : W) (ps : List Bytes)
        → content w ≡ []
        → (write_all (new_writer w) ps).h ≡ content (write_all (new_writer w) ps).w
    unfolding new_writer
    write_all-hashes w ps empty = write_all-content (new_writer w) ps (sym empty)

module _ {E R : Type 0} (io_read : R → ℕ → Got E × R) where
  -- The calls of `Read` with buffers of the given sizes: the bytes returned, and the reader.
  unfoldable pub read_all : Reader R → List ℕ → Bytes × Reader R
  read_all hr [] = ([], hr)
  read_all hr (n ∷ ns) =
      let (g, hr') = read io_read hr n in
      let (rest, end) = read_all hr' ns in (g.bytes ++ rest, end)

  read-hashes :
      (hr : Reader R) (n : ℕ) → (read io_read hr n).1.h ≡ hr.h ++ (read io_read hr n).0.bytes
  unfolding read
  read-hashes hr n = ground (arith, append-nil hr.h)

  read_all-onto : (hr : Reader R) (ns : List ℕ) → (read_all hr ns).1.h ≡ hr.h ++ (read_all hr ns).0
  unfolding read_all
  read_all-onto hr [] = rw append-nil
  read_all-onto hr (n ∷ ns) =
      read_all-onto (read io_read hr n).1 ns ∙ rw (read-hashes hr n) (append_assoc hr.h _ _)

  -- A new reader has hashed exactly the bytes that its calls of Read returned, in their order.
  pub read_all-hashes :
      (r : R) (ns : List ℕ) → (read_all (new_reader r) ns).1.h ≡ (read_all (new_reader r) ns).0
  unfolding new_reader
  read_all-hashes r ns = read_all-onto (new_reader r) ns
