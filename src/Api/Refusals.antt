-- ===== src/Api/Refusals.antt =====
-- What the handlers answer when they cannot do what is asked.
use mathlib.Core.Path.{subst}
use httplock.Base.{
  ℕ, ◌≡◌, ◌≢◌, refl, sym, ◌∙◌, ap, true, false, none, some, List, [], ◌∷◌, Str, text, has_prefix,
  ok, err,
}
use httplock.Base.Dict.{lookup}
use httplock.Hasher.{Bytes}
use httplock.Storage.Errors.{Error, Res, Status}
use httplock.Storage.Backend.{Codec}
use httplock.Storage.Memory.{MemStorage, root_open, on_root}
use httplock.Storage.Memory.Opening.{root_open-unknown, root_open-named, root_open-names}
use httplock.Storage.Export.{TarWriter, Encoders, export_archive, closed, at_root}
use httplock.Proxy.Request.{Formats}
use package.httplock.Api.Reply.{
  Context, Reply, query_array, post_form, abort_with_status, set_status, copy_body, refuse,
}
use package.httplock.Api.Tokens.{token_destroy, token_save}
use package.httplock.Api.Roots.{
  with_param, with_root, with_path, with_hash, dir_at, file_at, info_at, resp_of, diff_with,
  root_dir, root_file, root_info, root_resp, root_diff,
}
use package.httplock.Api.Archives.{root_export, exported, opened, gtar, export_at, with_saved}

-- The status of a reply, and a storage that is as it was.
abbrev pub Refused : ℕ → MemStorage → Reply × MemStorage → Type 0
Refused code m x = (x.0.status ≡ code) × (x.1 ≡ m)

not_empty {ℓ} : {A : Type ℓ} (l : List A) → l ≢ [] → (x : A) × (xs : List A) × (l ≡ x ∷ xs)
not_empty [] ne = absurd (ne refl)
not_empty (x ∷ xs) ne = (x, xs, refl)

module _ (now : ℕ) (c : Context) (m : MemStorage) where
  with_param-named :
      (name : Str) {id : Str}
      → lookup name c.params ≡ some id
      → (handle : Str → Reply × MemStorage) → with_param name c m handle ≡ handle id
  with_param-named name named handle = rw (named, with_param)

  with_root-gone :
      (id : Str) {e : Error}
      → root_open id now m ≡ (err e, m)
      → (handle : ℕ → MemStorage → Reply × MemStorage) → with_root now id m handle ≡ refuse 500 m
  with_root-gone id gone handle = rw gone

  from : {code : ℕ} {x : Reply × MemStorage} → x ≡ refuse code m → Refused code m x
  unfolding abort_with_status set_status
  from {code} e = subst (Refused code m) (sym e) (refl, refl)

module _ (digest : Bytes → Str) (J : Codec) (F : Formats) (turns depth : ℕ) where
  with_path-some :
      (c : Context) (m : MemStorage) {n : Str} {path : List Str}
      → query_array (text "path") c ≡ n ∷ path
      → (handle : List Str → Reply × MemStorage) → with_path digest J c m handle ≡ handle (n ∷ path)
  with_path-some c m has_path handle = rw (has_path, with_path)

  with_hash-some :
      (c : Context) (m : MemStorage) {b : ℕ} {hash : Str}
      → post_form (text "hash") c ≡ b ∷ hash
      → (handle : Str → Reply × MemStorage) → with_hash digest J c m handle ≡ handle (b ∷ hash)
  with_hash-some c m has_hash handle = rw (has_hash, with_hash)

  -- A name that no root has and that the index does not list gets the status 400 from tokenDestroy
  -- and tokenSave, and 500 from rootDir, rootFile, rootInfo, rootResp and rootDiff if the path and
  -- the hash are given, and the storage stays as it is.
  pub unknown-Refused :
      (now : ℕ) (c : Context) (m : MemStorage) (name : Str)
      → lookup (text "root") c.params ≡ some name
      → lookup (text "id") c.params ≡ some name
      → lookup name m.roots ≡ none
      → lookup name m.index ≡ none
      → query_array (text "path") c ≢ []
      → post_form (text "hash") c ≢ []
      → Refused 400 m (token_destroy now c m)
        × Refused 400 m (token_save digest J now c m)
        × Refused 500 m (root_dir digest J now c m)
        × Refused 500 m (root_file digest J now c m)
        × Refused 500 m (root_info digest J now c m)
        × Refused 500 m (root_resp digest J F now c m)
        × Refused 500 m (root_diff digest J turns depth now c m)
  unfolding token_destroy token_save root_dir root_file root_info root_resp root_diff
      abort_with_status set_status
  unknown-Refused now c m name root id unnamed unknown path hash =
      let gone = root_open-unknown name now m unnamed unknown in
      let (n, front, has_path) = not_empty (query_array (text "path") c) path in
      let (b, rest, has_hash) = not_empty (post_form (text "hash") c) hash in
      (
        rw (id, token_destroy) (rw gone (refl, refl)),
        rw (id, token_save) (rw gone (refl, refl)),
        from now c m (
            with_param-named now c m (text "root") root
              (λ id. with_root now id m (dir_at digest J c))
            ∙ with_root-gone now c m name gone (dir_at digest J c)),
        from now c m (
            with_param-named now c m (text "root") root
              (λ id. with_path digest J c m (λ path. with_root now id m (file_at digest J c path)))
            ∙ with_path-some c m has_path (λ path. with_root now name m (file_at digest J c path))
            ∙ with_root-gone now c m name gone (file_at digest J c (n ∷ front))),
        from now c m (
            with_param-named now c m (text "root") root
              (λ id. with_path digest J c m (λ path. with_root now id m (info_at digest J path)))
            ∙ with_path-some c m has_path (λ path. with_root now name m (info_at digest J path))
            ∙ with_root-gone now c m name gone (info_at digest J (n ∷ front))),
        from now c m (
            with_param-named now c m (text "root") root (λ id. with_path digest J c m (λ path.
              with_hash digest J c m
                (λ hash. with_root now id m (resp_of digest J F now path hash))))
            ∙ with_path-some c m has_path (λ path.
              with_hash digest J c m
                (λ hash. with_root now name m (resp_of digest J F now path hash)))
            ∙ with_hash-some c m has_hash
                (λ hash. with_root now name m (resp_of digest J F now (n ∷ front) hash))
            ∙ with_root-gone now c m name gone (resp_of digest J F now (n ∷ front) (b ∷ rest))),
        from now c m (
            with_param-named now c m (text "root") root
              (λ id. with_root now id m (diff_with digest J turns depth now c))
            ∙ with_root-gone now c m name gone (diff_with digest J turns depth now c)),
      )

with_saved-saved :
    {S : Type 0} (c : Context) (s : S) (name : Str)
    → lookup (text "root") c.params ≡ some name
    → has_prefix name (text "uuid:") ≡ false
    → (handle : Str → Reply × S) → with_saved c s handle ≡ handle name
with_saved-saved c s name named saved handle = rw (named, with_saved) (rw saved)

module _ (T : TarWriter) (sent : T.Out → Bytes) (digest : Bytes → Str) (J : Codec) where
  copy_body-written : (b : Bytes) (r : Reply) → b ≢ [] → (copy_body b r).written ≡ true
  unfolding copy_body
  copy_body-written [] r ne = absurd (ne refl)
  copy_body-written (x ∷ b) r ne = refl

  copy_body-status : (b : Bytes) (r : Reply) → (copy_body b r).status ≡ r.status
  unfolding copy_body
  copy_body-status [] r = refl
  copy_body-status (x ∷ b) r = refl

  abort-written :
      (code : ℕ) (r : Reply) → r.written ≡ true → (abort_with_status code r).status ≡ r.status
  unfolding abort_with_status set_status
  abort-written code r done = rw done

  exported-status :
      (r : Reply) (x : Status × T.Out × MemStorage)
      → sent x.1 ≢ []
      → (exported T sent digest J r x).0.status ≡ r.status
  exported-status r (ok u, o, m) ne = copy_body-status (sent o) r
  exported-status r (err e, o, m) ne =
      abort-written 500 (copy_body (sent o) r) (copy_body-written (sent o) r ne)
      ∙ copy_body-status (sent o) r

  closed-sent :
      (o : T.Out) (x : Res (Status × T.Out) × MemStorage)
      → ((o : T.Out) → sent (T.close o) ≢ [])
      → sent (closed T digest J o x).1 ≢ []
  closed-sent o (err e, m) footer = footer o
  closed-sent o (ok (st, o'), m) footer = footer o'

  export-sent :
      (E : Encoders) (n : ℕ) (start : T.Out) (now : ℕ) (m : MemStorage) (name : Str) (p : ℕ)
      → ((o : T.Out) → sent (T.close o) ≢ [])
      → root_open name now m ≡ (ok p, m)
      → sent (export_archive T digest J E n name now start m).1 ≢ []
  unfolding export_archive
  export-sent E n start now m name p footer opens =
      rw (opens, export_archive)
        (closed-sent start (on_root (at_root T digest J E n start) p m) footer)

  opened-status :
      (x : Res ℕ) {p : ℕ}
      → x ≡ ok p
      → (gtar T sent digest J (opened T sent digest J x)).status ≡ 200
  opened-status x done = rw done

  -- If closing the writers of an archive sends at least one byte, rootExport answers with the
  -- status 200 for every saved root that can be opened, whether the export fails or not.
  pub root_export-status :
      (E : Encoders) (n : ℕ) (start : T.Out) (now : ℕ) (c : Context) (m : MemStorage) (name : Str)
      (p : ℕ)
      → ((o : T.Out) → sent (T.close o) ≢ [])
      → lookup (text "root") c.params ≡ some name
      → has_prefix name (text "uuid:") ≡ false
      → (root_open name now m).0 ≡ ok p
      → (root_export T sent digest J E n start now c m).0.status ≡ 200
  unfolding root_export
  root_export-status E n start now c m name p footer named saved opens =
      let (root, m') = root_open name now m in
      let again = root_open-named name now m' p (root_open-names name now m (λ i. (opens i, m'))) in
      ap (λ (x : Reply × MemStorage). x.0.status)
        (with_saved-saved c m name named saved (export_at T sent digest J E n start now m))
      ∙ (exported-status (gtar T sent digest J (opened T sent digest J root))
            (export_archive T digest J E n name now start m')
            (export-sent E n start now m' name p footer again)
          ∙ opened-status root opens)
