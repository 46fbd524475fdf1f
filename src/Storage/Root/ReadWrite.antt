-- ===== src/Storage/Root/ReadWrite.antt =====
-- What is written to a path, or linked there, is what is read from it.
use httplock.Base.{
  ℕ, ◌≡◌, ◌≢◌, refl, ◌∙◌, none, some, inl, inr, List, [], ◌∷◌, Str, str_eq_refl, split_last, ok,
  Result-cases, arith,
}
use httplock.Hasher.{Bytes}
use httplock.Storage.Backend.{Backend, Codec}
use httplock.Storage.Tree.{File, Dir, file_entry, entries, put_in, find}
use httplock.Storage.Tree.Laws.{find-put_in}
use package.httplock.Storage.Root.Hashing.{hash_file-written}
use package.httplock.Storage.Root.Digest.{file_digest}
use package.httplock.Storage.Root.{Root, open_entry, link, read, read_at, write, write_at, link_at}
use package.httplock.Storage.Root.Reach.{get_dir-reached}

module _ (B : Backend) (J : Codec) where
  -- A successful write in a directory puts an entry there whose file has the new writer.
  pub write_at-puts :
      (name : Str) (s : B.State) (at left : Dir) (w : ℕ) (t : B.State)
      → write_at B J name s at ≡ (ok w, left, t)
      → (h : Str) × (f : File) × (open_entry name (find name (entries at)) ≡ ok (h, f))
        × (left ≡ put_in name (file_entry h (some (record f { blob_w = some w }))) at)
  unfolding write_at
  write_at-puts name s at left w t done =
      elim (Result-cases (open_entry name (find name (entries at)))) [
        | inr (e, failed) ↦ absurd (ground arith)
        | inl ((h, f), opened) ↦ elim (Result-cases (B.blob_create s).0) [
          | inr (e, failed) ↦ absurd (ground arith)
          | inl (v, created) ↦ (h, f, opened, ground arith)
        ]
      ]

  -- A file of the directory that is in memory and written: its blob is opened.
  pub read_at-file :
      (name : Str) (u : B.State) (d : Dir) (h : Str) (f : File) (x : Str)
      → find name (entries d) ≡ some (file_entry h (some f))
      → file_digest B u f ≡ ok x
      → x ≢ []
      → (read_at B J name u d).0 ≡ B.blob_open u x
  unfolding read_at
  read_at-file name u d h f x found has ne =
      rw (found, read_at) (rw (hash_file-written B u f x has ne))

  read_at-written :
      (name : Str) (h : Str) (f : File) (d : Dir) (u : B.State) (x : Str)
      → file_digest B u f ≡ ok x
      → x ≢ []
      → (read_at B J name u (put_in name (file_entry h (some f)) d)).0 ≡ B.blob_open u x
  read_at-written name h f d u x has ne =
      read_at-file name u (put_in name (file_entry h (some f)) d) h f x
        (rw (find-put_in, str_eq_refl)) has ne

  -- After a write that succeeded, and once its writer is closed with a hash that is not empty and
  -- under which the storage has a blob, reading the path gives that blob.
  pub read-write :
      (path : List Str) (s : B.State) (r r' : Root) (w : ℕ) (t : B.State)
      → write B J path s r ≡ (ok w, r', t)
      → (u : B.State) (h : Str) (b : Bytes) → B.blob_hash u w ≡ ok h
      → h ≢ []
      → B.blob_open u h ≡ ok b
      → (read B J path u r').0 ≡ ok b
  unfolding write read
  read-write [] s r r' w t done u h b closed ne stored = absurd (ground arith)
  read-write (n ∷ path) s r r' w t done u h b closed ne stored =
      let (front, name) = split_last n path in
      let opened = get_dir-reached B J front (write_at B J name) s r r' w t (ground arith) in
      let (x, f, found, puts) = write_at-puts name s opened.at opened.left w t opened.ran in
      opened.again (read_at B J name) u
      ∙ rw puts
          (read_at-written name x (record f { blob_w = some w }) opened.at u h closed ne ∙ stored)

  pub link_at-puts :
      (name blob : Str) (s : B.State) (at left : Dir) (v : Unit {0}) (t : B.State)
      → link_at B J name blob s at ≡ (ok v, left, t)
      → left ≡ put_in name (file_entry [] (some (record { hash = blob; blob_w = none }))) at
  unfolding link_at
  link_at-puts name blob s at left v t done = ground arith

  -- After a link that succeeded, to a blob whose hash is not empty, reading the path opens that
  -- blob, whatever was there before.
  pub read-link :
      (path : List Str) (blob : Str) (s : B.State) (r r' : Root) (v : Unit {0}) (t : B.State)
      → link B J path blob s r ≡ (ok v, r', t)
      → blob ≢ []
      → (u : B.State) → (read B J path u r').0 ≡ B.blob_open u blob
  unfolding link read
  read-link [] blob s r r' v t done ne u = absurd (ground arith)
  read-link (n ∷ path) blob s r r' v t done ne u =
      let (front, name) = split_last n path in
      let opened = get_dir-reached B J front (link_at B J name blob) s r r' v t (ground arith) in
      opened.again (read_at B J name) u
      ∙ rw (link_at-puts name blob s opened.at opened.left v t opened.ran)
          (read_at-written name [] (record { hash = blob; blob_w = none }) opened.at u blob refl ne)
