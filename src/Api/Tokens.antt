-- ===== src/Api/Tokens.antt =====
-- `tokenCreate`, `tokenDestroy`, `tokenSave` and `rootList`. The encoder of encoding/base64, the
-- uuid and the time are arguments.
use httplock.Base.{ℕ, none, some, List, [], ◌∷◌, ◌++◌, Str, text, sort_strs, ok, err}
use httplock.Base.Dict.{Dict, lookup}
use httplock.Hasher.{Bytes}
use httplock.Storage.Errors.{Res}
use httplock.Storage.Backend.{Codec}
use httplock.Storage.Memory.{MemStorage, root_create, root_create_from, root_open, root_save}
use package.httplock.Api.Reply.{
  Context, Reply, no_reply, query, abort_with_status, send, refuse, token_json, hash_json,
  roots_json,
}

module _ (encode64 : Bytes → Str) where
  abbrev pub token_of : Str → Str
  token_of name = encode64 (text "token:" ++ name)

  abbrev pub created : Res (Str × ℕ) × MemStorage → Reply × MemStorage
  created (err e, m) = refuse 500 m
  created (ok (name, root), m) = (send 201 (token_json name (token_of name)) no_reply, m)

  abbrev pub created_new : (Str × ℕ) × MemStorage → Reply × MemStorage
  created_new (root, m) = created (ok root, m)

  -- With a hash, the root starts from what is saved under it.
  abbrev pub create_for : Str → Str → MemStorage → Reply × MemStorage
  create_for [] u m = created_new (root_create u m)
  create_for (b ∷ hash) u m = created (root_create_from (b ∷ hash) u m)

  unfoldable pub token_create : Str → Context → MemStorage → Reply × MemStorage
  unfolding abort_with_status send
  token_create u c m = create_for (query (text "hash") c) u m

-- The handler goes on after each refusal.
abbrev not_implemented : Reply → Reply
not_implemented r = abort_with_status 501 r

abbrev destroyed : Reply → Res ℕ × MemStorage → Reply × MemStorage
destroyed r (err e, m) = (not_implemented (abort_with_status 400 r), m)
destroyed r (ok root, m) = (not_implemented r, m)

unfoldable pub token_destroy : ℕ → Context → MemStorage → Reply × MemStorage
unfolding abort_with_status
token_destroy now c m = elim (lookup (text "id") c.params) [
  | none ↦ destroyed (abort_with_status 400 no_reply) (root_open [] now m)
  | some id ↦ destroyed no_reply (root_open id now m)
]

module _ (digest : Bytes → Str) (J : Codec) where
  abbrev pub saved : Res Str × MemStorage → Reply × MemStorage
  saved (err e, m) = refuse 500 m
  saved (ok h, m) = (send 201 (hash_json h) no_reply, m)

  -- Without a root, `RootSave` is called on a nil pointer: gin recovers from the panic, and its
  -- status 500 comes after the 400 was sent.
  abbrev pub save_opened : ℕ → Res ℕ × MemStorage → Reply × MemStorage
  save_opened now (err e, m) = (abort_with_status 500 (abort_with_status 400 no_reply), m)
  save_opened now (ok p, m) = saved (root_save digest J p now m)

  unfoldable pub token_save : ℕ → Context → MemStorage → Reply × MemStorage
  unfolding abort_with_status send
  token_save now c m = elim (lookup (text "id") c.params) [
    | none ↦ refuse 400 m
    | some id ↦ save_opened now (root_open id now m)
  ]

abbrev pub keys : Dict ℕ → List Str
keys [] = []
keys ((k, used) ∷ index) = k ∷ keys index

unfoldable pub root_list : MemStorage → Reply × MemStorage
unfolding send
root_list m = (send 200 (roots_json (sort_strs (keys m.index))) no_reply, m)
