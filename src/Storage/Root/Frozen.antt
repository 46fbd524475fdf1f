-- ===== src/Storage/Root/Frozen.antt =====
-- What the methods of a root leave alone: whether it is read-only, and the hash of one that is.
use httplock.Base.{◌≡◌, refl, ◌∙◌, true, false, Bool, List, [], ◌∷◌, Str, split_last, arith}
use httplock.Storage.Backend.{Backend, Codec}
use package.httplock.Storage.Root.{Root, At, get_dir, link, list_dir, read, write, write_at, save}

pub record IsKept (r r' : Root) : Type 0 where
  pub readonly_kept : r'.readonly ≡ r.readonly
  pub hash_kept : r.readonly ≡ true → r'.hash ≡ r.hash

pub IsKept-trans : (r r' r'' : Root) → IsKept r r' → IsKept r' r'' → IsKept r r''
IsKept-trans r r' r'' k k' = record {
  readonly_kept = k'.readonly_kept ∙ k.readonly_kept;
  hash_kept = λ frozen. k'.hash_kept (k.readonly_kept ∙ frozen) ∙ k.hash_kept frozen;
}

pub IsKept-refl : (r : Root) → IsKept r r
IsKept-refl r = record { readonly_kept = refl; hash_kept = λ frozen. refl }

module _ (B : Backend) (J : Codec) where
  pub get_dir-IsKept :
      {A : Type 0} (write : Bool) (path : List Str) (k : At B J A) (s : B.State) (r : Root)
      → IsKept r (get_dir B J write path k s r).1
  unfolding get_dir
  get_dir-IsKept true path k s r = ground arith
  get_dir-IsKept false path k s r = ground arith

  pub link-IsKept :
      (path : List Str) (blob : Str) (s : B.State) (r : Root) → IsKept r (link B J path blob s r).1
  unfolding link
  link-IsKept [] blob s r = ground arith
  link-IsKept (n ∷ path) blob s r = get_dir-IsKept true _ _ s r

  pub read-IsKept : (path : List Str) (s : B.State) (r : Root) → IsKept r (read B J path s r).1
  unfolding read
  read-IsKept [] s r = ground arith
  read-IsKept (n ∷ path) s r = get_dir-IsKept false _ _ s r

  pub list_dir-IsKept :
      (path : List Str) (s : B.State) (r : Root) → IsKept r (list_dir B J path s r).1
  unfolding list_dir
  list_dir-IsKept path s r = get_dir-IsKept false path _ s r

  pub write-IsKept : (path : List Str) (s : B.State) (r : Root) → IsKept r (write B J path s r).1
  unfolding write
  write-IsKept [] s r = ground arith
  write-IsKept (n ∷ path) s r =
      let (front, name) = split_last n path in
      ground (arith, get_dir-IsKept true front (write_at B J name) s r)

  pub save-IsKept : (s : B.State) (r : Root) → IsKept r (save B J s r).1
  unfolding save
  save-IsKept s r = ground arith
