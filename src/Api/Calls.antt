-- ===== src/Api/Calls.antt =====
-- What clients see of the handlers, one call after another.
use mathlib.Core.Path.{subst}
use httplock.Base.{
  ℕ, ◌≡◌, ◌≢◌, refl, sym, ◌∙◌, ap, true, false, none, some, List, [], ◌∷◌, ◌++◌, Str, text, length,
  str_eq, str_eq_iff, get_elem?, get_elem?-append_new, sort_strs, Result, ok, err, arith,
  Option-cases, inl, inr,
}
use httplock.Base.Dict.{Dict, lookup, lookup-insert_self}
use httplock.Base.Sorting.{contains, IsOrdered, sort_strs-IsOrdered, contains-sort_strs}
use httplock.Hasher.{Bytes}
use httplock.Storage.Errors.{Res}
use httplock.Storage.Backend.{Codec}
use httplock.Storage.Root.{Root, new_root, new_root_hash}
use httplock.Storage.Memory.{
  MemStorage, register, uuid_name, root_create, root_create_from, root_open, root_save,
}
use httplock.Storage.Memory.Opening.{root_open-named}
use httplock.Storage.Memory.Calls.{Opens, open-save}
use httplock.Proxy.Header.{get}
use httplock.Proxy.Request.{Request}
use httplock.Proxy.Auth.{AuthError, get_auth, root_of_token}
use httplock.Proxy.Auth.Basic.{Lacks, check_auth_basic-roundtrip}
use package.httplock.Api.Reply.{
  Context, Reply, token_json, hash_json, roots_json, query, send, abort_with_status,
}
use package.httplock.Api.Tokens.{
  token_of, created, create_for, token_create, saved, save_opened, token_save, root_list, keys,
}

-- The name leads to a root that may be written to.
abbrev pub LeadsTo : Str → ℕ → MemStorage → Type 0
LeadsTo name p m =
    (lookup name m.roots ≡ some p)
    × (r : Root) × (get_elem? m.objects p ≡ some r)
    × (r.readonly ≡ false)

-- The root that a call created.
abbrev IsCreated : Res (Str × ℕ) × MemStorage → Type 0
IsCreated (err e, m) = Unit
IsCreated (ok (name, p), m) = LeadsTo name p m

register-LeadsTo :
    (name : Str) (r : Root) (m : MemStorage)
    → r.readonly ≡ false
    → LeadsTo name (length m.objects) (register name r m)
register-LeadsTo name r m writable = (
  lookup-insert_self name (length m.objects) m.roots,
  r,
  get_elem?-append_new m.objects r,
  writable,
)

root_create-IsCreated :
    (u : Str) (m : MemStorage) → LeadsTo (uuid_name u) (root_create u m).0.1 (root_create u m).1
unfolding root_create new_root
root_create-IsCreated u m = register-LeadsTo (uuid_name u) new_root m refl

root_create_from-IsCreated : (hash u : Str) (m : MemStorage) → IsCreated (root_create_from hash u m)
unfolding root_create_from new_root_hash
root_create_from-IsCreated hash u m = elim (Option-cases (lookup hash m.index)) [
  | inl gone ↦ rw (gone, root_create_from) tt
  | inr (used, listed) ↦ rw (listed, root_create_from) (register-LeadsTo (uuid_name u) _ m refl)
]

token-Lacks : Lacks 58 (text "token")
token-Lacks = (
  λ e. omega (arith, e),
  (
    λ e. omega (arith, e),
    (λ e. omega (arith, e), (λ e. omega (arith, e), (λ e. omega (arith, e), tt))),
  ),
)

module _ (encode64 : Bytes → Str) where
  -- The reply shows the token of a root that was created.
  abbrev ShowsToken : Str → Str → MemStorage → Type 0
  ShowsToken name auth m = (auth ≡ token_of encode64 name) × (p : ℕ) × LeadsTo name p m

  created-ShowsToken :
      (x : Res (Str × ℕ) × MemStorage)
      → IsCreated x
      → (name auth : Str) → (created encode64 x).0.content ≡ token_json name auth
      → ShowsToken name auth (created encode64 x).1
  unfolding send abort_with_status
  created-ShowsToken (err e, m) here name auth shown = absurd (ground arith)
  created-ShowsToken (ok (n, p), m) here name auth shown =
      let same : n ≡ name = cc shown in
      let token : token_of encode64 n ≡ auth = cc shown in
      (sym token ∙ ap (token_of encode64) same, p, subst (λ x. LeadsTo x p m) same here)

  create_for-ShowsToken :
      (hash u : Str) (m : MemStorage) (name auth : Str)
      → (create_for encode64 hash u m).0.content ≡ token_json name auth
      → ShowsToken name auth (create_for encode64 hash u m).1
  unfolding root_create
  create_for-ShowsToken [] u m =
      created-ShowsToken (ok (root_create u m).0, (root_create u m).1) (root_create-IsCreated u m)
  create_for-ShowsToken (b ∷ hash) u m =
      created-ShowsToken (root_create_from (b ∷ hash) u m)
        (root_create_from-IsCreated (b ∷ hash) u m)

  module _ (decode64 : Str → Result AuthError Bytes) where
    root_of_token-named :
        (now : ℕ) (m : MemStorage) (name : Str) (p : ℕ)
        → lookup name m.roots ≡ some p
        → root_of_token decode64 now m (ok (text "token", name)) ≡ (ok p, m)
    unfolding root_of_token str_eq
    root_of_token-named now m name p named = rw (root_open-named name now m p named)

    -- If base64 is decoded to what was encoded, and the token that tokenCreate answers with has no
    -- space, a request to the proxy that has it in its Proxy-Authorization header gets a root that
    -- the name leads to and that may be written to, and the storage stays as it is.
    pub get_auth-token_create :
        (u : Str) (c : Context) (m : MemStorage) {r : Reply} {m' : MemStorage} (name auth : Str)
        (now : ℕ) (req : Request)
        → token_create encode64 u c m ≡ (r, m')
        → r.content ≡ token_json name auth
        → ((b : Bytes) → decode64 (encode64 b) ≡ ok b)
        → Lacks 32 auth
        → get (text "Proxy-Authorization") req.header ≡ text "Basic " ++ auth
        → (p : ℕ) × (get_auth decode64 now m' req ≡ (ok p, m')) × LeadsTo name p m'
    unfolding get_auth token_create
    get_auth-token_create u c m {r} {m'} name auth now req done shown decodes spaceless header =
        let (token, p, leads) =
          subst (λ x. x.0.content ≡ token_json name auth → ShowsToken name auth x.1) done
            (create_for-ShowsToken (query (text "hash") c) u m name auth) shown in
        (
          p,
          rw (header, get_auth)
              (ap (root_of_token decode64 now m') (
                  check_auth_basic-roundtrip decode64 auth (text "token") name
                    (ap decode64 token ∙ decodes (text "token:" ++ name)) spaceless token-Lacks)
                ∙ root_of_token-named now m' name p leads.0),
          leads,
        )

contains-keys : (k : Str) (index : Dict ℕ) → lookup k index ≢ none → contains k (keys index) ≡ true
unfolding lookup
contains-keys k [] listed = absurd (listed refl)
contains-keys k ((j, used) ∷ index) listed =
    ground (arith, str_eq_iff j k, str_eq_iff k j, contains-keys k index)

root_create_from-ok :
    (hash u : Str) (m : MemStorage) {x : Str × ℕ}
    → (root_create_from hash u m).0 ≡ ok x
    → lookup hash m.index ≢ none
unfolding root_create_from
root_create_from-ok hash u m done gone = ground (arith, gone)

module _ (digest : Bytes → Str) (J : Codec) where
  -- A saved root opens under its hash, and is listed.
  abbrev pub IsListed : Str → MemStorage → Type 0
  IsListed h m =
      ((later : ℕ) (u : Str) → Opens later u h m)
      × ((l : List Str) × ((root_list m).0.content ≡ roots_json l)
          × (contains h l ≡ true)
          × IsOrdered l)

  Opens-IsListed :
      (h : Str) (m : MemStorage) → ((later : ℕ) (u : Str) → Opens later u h m) → IsListed h m
  unfolding root_list send
  Opens-IsListed h m opens = (
    opens,
    (
      sort_strs (keys m.index),
      refl,
      contains-sort_strs h (keys m.index)
          ∙ contains-keys h m.index (root_create_from-ok h [] m (opens 0 []).3),
      sort_strs-IsOrdered (keys m.index),
    ),
  )

  saved-IsListed :
      (x : Res Str × MemStorage) (h : Str)
      → (x.0 ≡ ok h → (later : ℕ) (u : Str) → Opens later u h x.1)
      → (saved digest J x).0.content ≡ hash_json h
      → IsListed h (saved digest J x).1
  unfolding send abort_with_status
  saved-IsListed (err e, m) h opens shown = absurd (ground arith)
  saved-IsListed (ok k, m) h opens shown =
      let same : k ≡ h = cc shown in Opens-IsListed h m (opens (ap ok same))

  save_opened-IsListed :
      (now : ℕ) (x : Res ℕ × MemStorage) (h : Str)
      → (save_opened digest J now x).0.content ≡ hash_json h
      → IsListed h (save_opened digest J now x).1
  unfolding abort_with_status
  save_opened-IsListed now (err e, m) h shown = absurd (ground arith)
  save_opened-IsListed now (ok p, m) h shown =
      saved-IsListed (root_save digest J p now m) h
        (λ done later u.
          open-save digest J m p now later u h (λ i. (done i, (root_save digest J p now m).1)))
        shown

  -- When tokenSave answers with a hash, the hash opens afterwards, at any time, as a new root that
  -- is read-only, not loaded and has that hash, and rootList answers with a list that has the hash
  -- and in which no name comes after a greater one.
  pub root_list-token_save :
      (now : ℕ) (c : Context) (m : MemStorage) {r : Reply} {m' : MemStorage} (h : Str)
      → token_save digest J now c m ≡ (r, m')
      → r.content ≡ hash_json h
      → IsListed h m'
  unfolding token_save abort_with_status
  root_list-token_save now c m {r} {m'} h done shown =
      elim (Option-cases (lookup (text "id") c.params)) [
        | inl missing ↦ absurd (ground arith)
        | inr (id, named) ↦
            let e : save_opened digest J now (root_open id now m) ≡ (r, m') =
              sym (rw (named, token_save)) ∙ done in
            subst (λ x. x.0.content ≡ hash_json h → IsListed h x.1) e
              (save_opened-IsListed now (root_open id now m) h) shown
      ]
