-- ===== src/Api/Roots.antt =====
-- `rootDir`, `rootFile`, `rootInfo`, `rootResp` and `rootDiff`.
use httplock.Base.{
  ℕ, ◌==◌, none, some, List, [], ◌∷◌, ◌++◌, Str, text, get_elem?, set, ok, err, if◌then◌else◌,
}
use httplock.Base.Dict.{lookup}
use httplock.Hasher.{Bytes}
use httplock.Storage.Errors.{Res}
use httplock.Storage.Backend.{Codec}
use httplock.Storage.Tree.{Entries, listing, sort_listing}
use httplock.Storage.Root.{Root, list_dir, read}
use httplock.Storage.Root.Walking.{entry_hash}
use httplock.Storage.Diff.{Diffed, diff_roots, hash_first, hash_root}
use httplock.Storage.Memory.{MemStorage, root_open, on_root}
use httplock.Storage.Memory.Blobs.{memory}
use httplock.Proxy.Header.{copy_header}
use httplock.Proxy.Request.{Formats, MetaResp}
use httplock.Proxy.Store.{ext_resp_head, ext_resp_body}
use package.httplock.Api.Reply.{
  Context, Reply, no_reply, query, query_array, post_form, set_status, set_header,
  abort_with_status, send, copy_body, refuse, hash_json, entries_json, report_json,
}

-- The name of a root in the path of the request.
abbrev pub with_param : Str → Context → MemStorage → (Str → Reply × MemStorage) → Reply × MemStorage
with_param name c m handle = elim (lookup name c.params) [
  | none ↦ refuse 400 m
  | some id ↦ handle id
]

abbrev at_opened : (ℕ → MemStorage → Reply × MemStorage) → Res ℕ × MemStorage → Reply × MemStorage
at_opened handle (err e, m) = refuse 500 m
at_opened handle (ok p, m) = handle p m

-- What runs at the root of that name.
abbrev pub with_root :
    ℕ → Str → MemStorage → (ℕ → MemStorage → Reply × MemStorage) → Reply × MemStorage
with_root now id m handle = at_opened handle (root_open id now m)

-- The answer from what a method of the root gives.
abbrev answer : {A : Type 0} → (A → Reply) → Res A × MemStorage → Reply × MemStorage
answer f (err e, m) = refuse 500 m
answer f (ok a, m) = (f a, m)

module _ (digest : Bytes → Str) (J : Codec) where
  abbrev pub list_reply : Entries → Reply
  list_reply es = send 200 (entries_json (sort_listing (listing es))) no_reply

  abbrev pub dir_at : Context → ℕ → MemStorage → Reply × MemStorage
  dir_at c p m =
      answer list_reply (on_root (list_dir (memory digest) J (query_array (text "path") c)) p m)

  unfoldable pub root_dir : ℕ → Context → MemStorage → Reply × MemStorage
  unfolding abort_with_status send
  root_dir now c m = with_param (text "root") c m (λ id. with_root now id m (dir_at c))

  abbrev pub content_type : Str → Str
  content_type [] = text "application/octet-stream"
  content_type (b ∷ ct) = b ∷ ct

  abbrev pub file_reply : Str → Bytes → Reply
  file_reply ct b = copy_body b (set_status 200 (set_header (text "Content-Type") ct no_reply))

  -- The path of the query, which is not empty.
  abbrev pub with_path : Context → MemStorage → (List Str → Reply × MemStorage) → Reply × MemStorage
  with_path c m handle = elim (query_array (text "path") c) [
    | [] ↦ refuse 400 m
    | n ∷ path ↦ handle (n ∷ path)
  ]

  abbrev pub file_at : Context → List Str → ℕ → MemStorage → Reply × MemStorage
  file_at c path p m =
      answer (file_reply (content_type (query (text "ct") c)))
        (on_root (read (memory digest) J path) p m)

  unfoldable pub root_file : ℕ → Context → MemStorage → Reply × MemStorage
  unfolding abort_with_status set_status copy_body
  root_file now c m =
      with_param (text "root") c m
        (λ id. with_path c m (λ path. with_root now id m (file_at c path)))

  abbrev pub info_reply : Str → Reply
  info_reply hash = send 200 (hash_json hash) no_reply

  abbrev pub info_at : List Str → ℕ → MemStorage → Reply × MemStorage
  info_at path p m = answer info_reply (on_root (entry_hash (memory digest) J path) p m)

  unfoldable pub root_info : ℕ → Context → MemStorage → Reply × MemStorage
  unfolding abort_with_status send
  root_info now c m =
      with_param (text "root") c m (λ id. with_path c m (λ path. with_root now id m (info_at path)))

  -- The headers are added to those of the response, then come the status and the body.
  abbrev pub resp_reply : MetaResp → Bytes → Reply
  resp_reply meta body = copy_body body (
      set_status meta.status_code
        (record no_reply { header = copy_header no_reply.header meta.headers }))

  -- The hash of the form, which is not empty.
  abbrev pub with_hash : Context → MemStorage → (Str → Reply × MemStorage) → Reply × MemStorage
  with_hash c m handle = elim (post_form (text "hash") c) [
    | [] ↦ refuse 400 m
    | b ∷ hash ↦ handle (b ∷ hash)
  ]

  module _ (F : Formats) where
    abbrev pub read_body : List Str → Str → ℕ → Res MetaResp × MemStorage → Reply × MemStorage
    read_body path hash p (err e, m) = refuse 500 m
    read_body path hash p (ok meta, m) =
        answer (resp_reply meta)
          (on_root (read (memory digest) J (path ++ ((hash ++ ext_resp_body) ∷ []))) p m)

    abbrev pub decoded : Res Bytes × MemStorage → Res MetaResp × MemStorage
    decoded (err e, m) = (err e, m)
    decoded (ok b, m) = (F.unmarshal_resp b, m)

    abbrev pub resp_of : ℕ → List Str → Str → ℕ → MemStorage → Reply × MemStorage
    resp_of now path hash p m =
        read_body path hash p
          (decoded (on_root (read (memory digest) J (path ++ ((hash ++ ext_resp_head) ∷ []))) p m))

    unfoldable pub root_resp : ℕ → Context → MemStorage → Reply × MemStorage
    unfolding abort_with_status set_status copy_body
    root_resp now c m = with_param (text "root") c m (λ id.
        with_path c m (λ path. with_hash c m (λ hash. with_root now id m (resp_of now path hash))))

  module _ (turns depth : ℕ) where
    -- The answer, and the two roots as the comparison has left them.
    abbrev pub diff_reply : ℕ → ℕ → MemStorage → Diffed (memory digest) J → Reply × MemStorage
    diff_reply p q m (e, report, r1, r2, s) =
        let m' = record m { objects = set (set m.objects q r2) p r1; blobs = s } in
        elim e [ none ↦ (send 200 (report_json report) no_reply, m') | some x ↦ refuse 500 m' ]

    -- Two names of one root: the second is the root that the first has hashed.
    abbrev pub diff_objects : ℕ → ℕ → MemStorage → Root → Root → Diffed (memory digest) J
    diff_objects p q m r1 r2 =
        if p == q
        then hash_first (memory digest) J turns depth (hash_root (memory digest) J 1 m.blobs r1)
            (hash_root (memory digest) J 1 m.blobs r1).1
        else diff_roots (memory digest) J turns depth m.blobs r1 r2

    abbrev pub diff_opened : ℕ → ℕ → MemStorage → Reply × MemStorage
    diff_opened p q m = elim (get_elem? m.objects p) [
      | none ↦ refuse 500 m
      | some r1 ↦ elim (get_elem? m.objects q) [
        | none ↦ refuse 500 m
        | some r2 ↦ diff_reply p q m (diff_objects p q m r1 r2)
      ]
    ]

    abbrev pub diff_with : ℕ → Context → ℕ → MemStorage → Reply × MemStorage
    diff_with now c p m = with_root now (query (text "root2") c) m (diff_opened p)

    unfoldable pub root_diff : ℕ → Context → MemStorage → Reply × MemStorage
    unfolding abort_with_status send
    root_diff now c m = with_param (text "root") c m (λ id. with_root now id m (diff_with now c))
