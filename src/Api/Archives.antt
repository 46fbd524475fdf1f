-- ===== src/Api/Archives.antt =====
-- `rootExport` and `rootImport`.
use httplock.Base.{ℕ, none, some, Str, text, has_prefix, ok, err, if◌then◌else◌}
use httplock.Base.Dict.{lookup}
use httplock.Hasher.{Bytes}
use httplock.Storage.Errors.{Res, Status}
use httplock.Storage.Backend.{Codec}
use httplock.Storage.Memory.{MemStorage, root_open}
use httplock.Storage.Filesystem.Os.{Disk}
use httplock.Storage.Export.{TarWriter, Encoders, export_archive}
use httplock.Storage.Import.Archive.{Readers, import_archive}
use package.httplock.Api.Reply.{
  Context, Reply, no_reply, set_status, set_header, abort_with_status, copy_body, refuse,
}

-- The name of a root that is saved: another gets the status 400.
abbrev pub with_saved : {S : Type 0} → Context → S → (Str → Reply × S) → Reply × S
with_saved c s handle = elim (lookup (text "root") c.params) [
  | none ↦ refuse 400 s
  | some id ↦ if has_prefix id (text "uuid:") then refuse 400 s else handle id
]

module _ (T : TarWriter) (sent : T.Out → Bytes) (digest : Bytes → Str) (J : Codec) where
  -- The error comes after what the writers have sent.
  abbrev pub exported : Reply → Status × T.Out × MemStorage → Reply × MemStorage
  exported r (ok _, o, m) = (copy_body (sent o) r, m)
  exported r (err e, o, m) = (abort_with_status 500 (copy_body (sent o) r), m)

  -- The handler goes on when the root cannot be opened.
  abbrev pub opened : Res ℕ → Reply
  opened (ok p) = no_reply
  opened (err e) = abort_with_status 400 no_reply

  abbrev pub gtar : Reply → Reply
  gtar = set_header (text "Content-Type") (text "application/x-gtar")

  abbrev pub export_at : Encoders → ℕ → T.Out → ℕ → MemStorage → Str → Reply × MemStorage
  export_at E n start now m id =
      let (root, m') = root_open id now m in
      exported (gtar (opened root)) (export_archive T digest J E n id now start m')

  -- `start` is a writer over the response.
  unfoldable pub root_export : Encoders → ℕ → T.Out → ℕ → Context → MemStorage → Reply × MemStorage
  unfolding abort_with_status copy_body
  root_export E n start now c m = with_saved c m (export_at E n start now m)

abbrev imported : Status × MemStorage × Disk → Reply × (MemStorage × Disk)
imported (err e, m, d) = refuse 500 (m, d)
imported (ok _, m, d) = (set_status 201 no_reply, (m, d))

-- The storage, and the disk that the archive is unpacked to.
unfoldable pub root_import :
    Readers
    → (Bytes → Str)
    → Codec
    → ℕ
    → ℕ
    → Context
    → MemStorage
    → Disk
    → Reply × (MemStorage × Disk)
unfolding abort_with_status set_status
root_import X digest J n now c m d =
    with_saved c (m, d) (λ id. imported (import_archive X digest J n id now c.body m d))
