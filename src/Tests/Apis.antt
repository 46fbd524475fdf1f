-- ===== src/Tests/Apis.antt =====
-- Handlers on a storage in memory: a token is created and used, a root is saved and listed.
use httplock.Base.{
  ℕ, ◌≡◌, ◌==◌, not, ◌&&◌, true, refl, [], ◌∷◌, ◌++◌, Bool, Str, text, str_eq, has_prefix, ok, err,
  arith, ==_iff,
}
use httplock.Base.Dict.{lookup, insert}
use httplock.Hasher
use httplock.Hasher.{Bytes}
use httplock.Storage.Errors.{bad_json}
use httplock.Storage.Backend.{push}
use httplock.Storage.Blob
use httplock.Storage.Blob.{new_blob_writer, join_errors}
use httplock.Storage.Tree.{listing, sort_listing, insert_sorted}
use httplock.Storage.Root.{new_root, save}
use httplock.Storage.Root.Hash.{hash_dir, push_dir}
use httplock.Storage.Memory.{
  MemStorage, new_memory, root_create, root_open, root_save, on_root, record_saved,
}
use httplock.Storage.Memory.Blobs.{blob_create, blob_write, blob_close, blob_hash}
use httplock.Storage.Export.{TarWriter, Encoders}
use httplock.Proxy.Header.{get, canonical}
use httplock.Proxy.Request.{Request}
use httplock.Proxy.Auth.{get_auth}
use httplock.Proxy.Auth.Basic.{Lacks}
use httplock.Api.Reply.{Context, Reply, token_json, hash_json, send}
use httplock.Api.Tokens.{token_create, token_save, token_destroy}
use httplock.Api.Calls.{LeadsTo, IsListed, get_auth-token_create, root_list-token_save}
use httplock.Api.Roots.{root_dir, root_file, root_info, root_resp, root_diff}
use httplock.Api.Archives.{root_export}
use httplock.Api.Refusals.{Refused, unknown-Refused, root_export-status}
use package.httplock.Tests.Sample.{digest, codec}
use package.httplock.Tests.Proxies.{request, formats}

-- Texts in base64 are taken as they are.
abbrev encode64 : Bytes → Str
encode64 b = b

abbrev misses : ℕ → Str → Bool
misses sep [] = true
misses sep (c ∷ s) = not (c == sep) && misses sep s

misses-Lacks : (sep : ℕ) (s : Str) → misses sep s ≡ true → Lacks sep s
misses-Lacks sep [] done = tt
misses-Lacks sep (c ∷ s) done =
    (λ e. ground (arith, e, done, ==_iff c sep), misses-Lacks sep s (ground arith))

abbrev empty_context : Context
empty_context = record { params = []; query = []; form = []; body = [] }

abbrev name : Str
name = text "uuid:1"

abbrev token : Str
token = text "token:uuid:1"

abbrev made : Reply × MemStorage
made = token_create encode64 (text "1") empty_context new_memory

made_shown : made.0.content ≡ token_json name token
unfolding token_create send lookup new_memory root_create
made_shown = refl

abbrev asking : Request
asking = record request {
  header = (text "Proxy-Authorization", (text "Basic " ++ token) ∷ []) ∷ [];
}

asking_header : get (text "Proxy-Authorization") asking.header ≡ text "Basic " ++ token
unfolding canonical lookup str_eq
asking_header = refl

get_auth-token_create_example :
    (p : ℕ) × (get_auth (λ s. ok s) 5 made.1 asking ≡ (ok p, made.1)) × LeadsTo name p made.1
get_auth-token_create_example =
    get_auth-token_create encode64 (λ s. ok s) (text "1") empty_context new_memory name token 5
      asking refl made_shown (λ b. refl) (misses-Lacks 32 token refl) asking_header

abbrev saving : Context
saving = record empty_context { params = (text "id", name) ∷ [] }

abbrev kept : Reply × MemStorage
kept = token_save digest codec 7 saving made.1

kept_shown : kept.0.content ≡ hash_json (text "sha256:00")
unfolding token_save token_create send lookup insert new_memory root_create root_open root_save
    on_root record_saved new_root save hash_dir push_dir push listing sort_listing insert_sorted
    blob_create blob_write blob_close blob_hash Hasher.from_bytes Hasher.hex Hasher.write Blob.write
    Blob.close Blob.hash new_blob_writer join_errors codec str_eq
kept_shown = refl

root_list-token_save_example : IsListed digest codec (text "sha256:00") kept.1
root_list-token_save_example =
    root_list-token_save digest codec 7 saving made.1 (text "sha256:00") refl kept_shown

-- A request for a root that there is not.
abbrev lost : Context
lost = record {
  params = (text "root", text "x") ∷ (text "id", text "x") ∷ [];
  query = (text "path", text "f" ∷ []) ∷ [];
  form = (text "hash", text "h" ∷ []) ∷ [];
  body = [];
}

unknown-Refused_example :
    Refused 400 new_memory (token_destroy 5 lost new_memory)
    × Refused 400 new_memory (token_save digest codec 5 lost new_memory)
    × Refused 500 new_memory (root_dir digest codec 5 lost new_memory)
    × Refused 500 new_memory (root_file digest codec 5 lost new_memory)
    × Refused 500 new_memory (root_info digest codec 5 lost new_memory)
    × Refused 500 new_memory (root_resp digest codec formats 5 lost new_memory)
    × Refused 500 new_memory (root_diff digest codec 3 3 5 lost new_memory)
unfolding lookup str_eq new_memory
unknown-Refused_example =
    unknown-Refused digest codec formats 3 3 5 lost new_memory (text "x") refl refl refl refl
      (λ e. ground (arith, e)) (λ e. ground (arith, e))

-- A writer that refuses every entry, over a response whose last bytes are sent at its close.
abbrev refusing : TarWriter
refusing = record {
  Out = Bytes;
  write_header = λ o name size. (err bad_json, o);
  write_bytes = λ o b. (ok tt, o ++ b);
  close = λ o. 0 ∷ o;
}

abbrev encoders : Encoders
encoders = record { marshal_version = λ v. ok v; marshal_root = λ h. ok h }

abbrev exporting : Context
exporting = record empty_context { params = (text "root", text "sha256:00") ∷ [] }

abbrev listed : MemStorage
listed = record {
  index = (text "sha256:00", 7) ∷ [];
  roots = [];
  objects = [];
  blobs = record { blobs = []; writers = [] };
}

root_export-status_example :
    (root_export refusing (λ o. o) digest codec encoders 3 [] 9 exporting listed).0.status ≡ 200
unfolding lookup str_eq root_open has_prefix
root_export-status_example =
    root_export-status refusing (λ o. o) digest codec encoders 3 [] 9 exporting listed
      (text "sha256:00") 0 (λ o e. ground (arith, e)) refl refl refl
