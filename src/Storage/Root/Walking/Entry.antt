-- ===== src/Storage/Root/Walking/Entry.antt =====
-- `EntryHash` of a file that was linked or written.
use httplock.Base.{
  ◌≡◌, ◌≢◌, refl, ◌∙◌, none, some, List, [], ◌∷◌, Str, str_eq_refl, split_last, ok, arith,
}
use httplock.Storage.Backend.{Backend, Codec}
use httplock.Storage.Tree.{File, Dir, file_entry, entries, put_in, find}
use httplock.Storage.Tree.Laws.{find-put_in}
use httplock.Storage.Root.{Root, link, link_at}
use httplock.Storage.Root.Digest.{file_digest}
use httplock.Storage.Root.Hashing.{hash_file-written}
use httplock.Storage.Root.Reach.{get_dir-reached}
use httplock.Storage.Root.ReadWrite.{link_at-puts}
use package.httplock.Storage.Root.Walking.{entry_hash, entry_hash_at}

module _ (B : Backend) (J : Codec) where
  entry_hash_at-found :
      (name : Str) (u : B.State) (d : Dir) (f : File) (x : Str)
      → find name (entries d) ≡ some (file_entry [] (some f))
      → file_digest B u f ≡ ok x
      → x ≢ []
      → (entry_hash_at B J name u d).0 ≡ ok x
  unfolding entry_hash_at
  entry_hash_at-found name u d f x found has ne =
      rw (found, entry_hash_at) (rw (hash_file-written B u f x has ne))

  entry_hash_at-put :
      (name : Str) (f : File) (d : Dir) (u : B.State) (x : Str)
      → file_digest B u f ≡ ok x
      → x ≢ []
      → (entry_hash_at B J name u (put_in name (file_entry [] (some f)) d)).0 ≡ ok x
  entry_hash_at-put name f d u x has ne =
      entry_hash_at-found name u (put_in name (file_entry [] (some f)) d) f x
        (rw (find-put_in, str_eq_refl)) has ne

  -- After a link that succeeded, to a blob whose hash is not empty, the hash of the path is that of
  -- the blob, whatever hash an entry had there before.
  pub entry_hash-link :
      (path : List Str) (blob : Str) (s : B.State) (r r' : Root) (v : Unit {0}) (t : B.State)
      → link B J path blob s r ≡ (ok v, r', t)
      → blob ≢ []
      → (u : B.State) → (entry_hash B J path u r').0 ≡ ok blob
  unfolding link entry_hash
  entry_hash-link [] blob s r r' v t done ne u = absurd (ground arith)
  entry_hash-link (n ∷ path) blob s r r' v t done ne u =
      let (front, name) = split_last n path in
      let reached = get_dir-reached B J front (link_at B J name blob) s r r' v t (ground arith) in
      reached.again (entry_hash_at B J name) u
      ∙ rw (link_at-puts B J name blob s reached.at reached.left v t reached.ran)
          (entry_hash_at-put name (record { hash = blob; blob_w = none }) reached.at u blob refl ne)
