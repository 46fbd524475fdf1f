-- ===== src/Proxy/Store/Replay.antt =====
-- A response that is recorded, read to its end and closed, and the request asked again.
use httplock.Base.{ℕ, ◌≡◌, sym, ◌∙◌, ap, none, Str, ok}
use httplock.Hasher.{Bytes}
use httplock.Storage.Backend.{Backend, Codec, IsReliable}
use httplock.Storage.Backend.Steps.{steps-push, two-pushed}
use httplock.Storage.Root.{Root, write}
use httplock.Proxy.Header.{Header}
use httplock.Proxy.Request.{Request, Response, Formats}
use package.httplock.Proxy.Store.{
  Tee, gen_req_hash, put_resp, put_hashed, tee_read, tee_close, ext_resp_body, ext_resp_head,
}
use package.httplock.Proxy.Store.Recorded.{put_hashed-Opened, tee_close-Saved}
use package.httplock.Proxy.Store.Kept.{
  Writes, writes-created, writes-Writing, writes-Both, meta_of, Kept,
}

module _ (B : Backend) (J : Codec) (F : Formats) (digest : Bytes → Str) where
  -- What recording a response leaves, once its body is read and closed.
  pub put_resp-Kept :
      (R : IsReliable digest B) (s t s₁ s₂ s₅ : B.State) (req req' : Request) (hash body_hash : Str)
      (resp : Response) (root r₁ r₂ : Root) (tee : Tee B J F digest) (n : ℕ) (headers : Header)
      → gen_req_hash B J F digest s req ≡ (ok (hash, body_hash), req', t)
      → put_resp B J F digest s req resp root ≡ (ok tee, r₁, s₁)
      → tee_read B J F digest s₁ tee resp.body ≡ (ok n, s₂)
      → tee_close B J F digest s₂ tee headers none r₁ ≡ (ok tt, r₂, s₅)
      → ((h : Str) (b : Bytes)
          → F.encode_resp (meta_of B J F digest req' hash resp headers h) ≡ ok b
          → digest b ≡ digest resp.body
          → b ≡ resp.body)
      → Kept B J F digest req' hash resp headers s₅ r₂
  unfolding put_resp
  put_resp-Kept R s t s₁ s₂ s₅ req req' hash body_hash resp root r₁ r₂ tee n headers key put read_on
        closed apart =
      let (r₀, s₀, wrote, at_head, is_meta) =
        put_hashed-Opened B J F digest req' resp hash tee r₁ s₁ root body_hash t
          (ap (put_hashed B J F digest resp root) (sym key) ∙ put) in
      let (w, h, b, k, s₄, u, wrote_head, marshalled, put_head, ended) =
        tee_close-Saved B J F digest tee headers r₂ s₅ s₂ r₁ closed in
      let head_path : Writes B J F digest req' hash ext_resp_head (B.blob_close s₂ tee.w).1 s₄ r₁ r₂
          w =
        ap (λ p. write B J p (B.blob_close s₂ tee.w).1 r₁) (sym at_head) ∙ wrote_head in
      let head =
        ap (λ m. F.encode_resp (record m { headers = headers; body_hash = h })) (sym is_meta)
        ∙ marshalled in
      let (pushed, named) =
        steps-push digest B R s₀ s₁ s₂ resp.body tee.w n
          (writes-created B J F digest req' hash ext_resp_body s₀ s₁ r₀ r₁ tee.w wrote) read_on in
      let (pushed_head, named_head) =
        steps-push digest B R (B.blob_close s₂ tee.w).1 s₄ u b w k
          (writes-created B J F digest req' hash ext_resp_head (B.blob_close s₂ tee.w).1 s₄ r₁ r₂ w
            head_path)
          put_head in
      let (still, opens, opens_head) =
        two-pushed digest B R s₀ (B.blob_close s₂ tee.w).1 s₅ resp.body b tee.w pushed named
          (pushed_head ∙ ended) (apart h b head) in
      record {
        v = tee.w;
        w = w;
        h = h;
        b = b;
        both =
            writes-Both B J F digest req' hash (B.blob_close s₂ tee.w).1 s₄ r₁ r₂ tee.w w
              (writes-Writing B J F digest req' hash ext_resp_body s₀ s₁ r₀ r₁ tee.w wrote)
              head_path;
        hashed_body = still;
        hashed_head = ap (λ x. B.blob_hash x w) (sym ended) ∙ named_head;
        opens_body = opens;
        opens_head = opens_head;
        head = head;
      }
