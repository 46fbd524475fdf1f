-- ===== src/Storage/Root/Saving.antt =====
-- `Save`: the name that a root is stored under, and the blob that is stored under it.
use httplock.Base.{◌≡◌, ◌≢◌, refl, ◌∙◌, sym, ap, false, [], ◌∷◌, Str, ok}
use httplock.Hasher.{Bytes, from_bytes}
use httplock.Storage.Errors.{Res, Status}
use httplock.Storage.Backend.{Backend, Codec, IsReliable}
use httplock.Storage.Tree.{Dir, directory, to_dir, dir_hash, entries, sort_listing}
use package.httplock.Storage.Root.{Root, save, name_root}
use package.httplock.Storage.Root.Hash.{hash_dir}
use package.httplock.Storage.Root.Digest.{dir_digest, infos, IsCoherent}
use package.httplock.Storage.Root.Hashing.{hash_dir-hashed, DirHashed}
use package.httplock.Storage.Root.Order.{SameDir, dir_digest-SameDir}

module _ (sha256 : Bytes → Bytes) where
  -- A hash begins with the name of its algorithm.
  from_bytes-ne-nil : (b : Bytes) → from_bytes sha256 b ≢ []
  unfolding from_bytes
  from_bytes-ne-nil b e = cc e

module _ (sha256 : Bytes → Bytes) (B : Backend) (J : Codec) where
  abbrev pub digest : Bytes → Str
  digest = from_bytes sha256

  name_root_lem :
      (s : B.State) (r : Root) (d : Dir) (h : Str)
      → dir_hash d ≡ h
      → h ≢ []
      → name_root B J (ok tt, d, s) r ≡ (ok h, record r { hash = h; dir = to_dir d }, s)
  unfolding save
  name_root_lem s r d [] same ne = absurd (ne refl)
  name_root_lem s r d (x ∷ h) same ne = rw (same, name_root)

  abbrev pub Named : B.State → Dir → Res Str × Root × B.State → Type 0
  Named s d (name, r, t) =
      (name ≡ ok (dir_digest digest B J s d))
      × (r.hash ≡ dir_digest digest B J s d)
      × (B.blob_open t (dir_digest digest B J s d)
          ≡ ok (J.marshal (sort_listing (infos digest B J s (entries d)))))

  name_root-hashed :
      (s t : B.State) (r : Root) (d d' : Dir) (res : Status)
      → dir_digest digest B J s d ≢ []
      → DirHashed digest B J s d (res, d', t)
      → Named s d (name_root B J (res, d', t) r)
  name_root-hashed s t r d d' res ne (done, same, stored, later) =
      rw (done, name_root_lem t r d' _ same ne) (refl, refl, stored)

  dir_digest-ne-nil : (s : B.State) (d : Dir) → dir_digest digest B J s d ≢ []
  unfolding dir_digest
  dir_digest-ne-nil s (directory h es) = from_bytes-ne-nil sha256 _

  -- In a storage that is reliable, a root that may be written to, with a coherent tree in memory,
  -- is saved under the digest of its contents, which becomes its hash, and under that name the
  -- storage then has the listing of its directory.
  pub save-digest :
      IsReliable digest B
      → (s : B.State) (r : Root) (d : Dir) → r.readonly ≡ false
      → r.dir ≡ to_dir d
      → IsCoherent digest B J s d
      → Named s d (save B J s r)
  unfolding save
  save-digest R s r d writable loaded c =
      let (res, d', t) = hash_dir B J s d in
      rw (writable, loaded)
        (name_root-hashed s t r d d' res (dir_digest-ne-nil s d)
          (hash_dir-hashed digest B J R s d c))

  -- In a storage that is reliable, two roots that may be written to, with coherent trees in memory
  -- that differ only in the order of their entries, and in the hashes cached for directories, are
  -- saved under the same name.
  pub save-SameDir :
      IsReliable digest B
      → (s : B.State) (r r' : Root) (d d' : Dir)
      → (r.readonly ≡ false) × (r.dir ≡ to_dir d) × IsCoherent digest B J s d
      → (r'.readonly ≡ false) × (r'.dir ≡ to_dir d') × IsCoherent digest B J s d'
      → SameDir d d'
      → (save B J s r).0 ≡ (save B J s r').0
  save-SameDir R s r r' d d' (writable, loaded, c) (writable', loaded', c') same =
      (save-digest R s r d writable loaded c).0
      ∙ ap ok (dir_digest-SameDir digest B J s same)
      ∙ sym (save-digest R s r' d' writable' loaded' c').0
