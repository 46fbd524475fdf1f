-- ===== src/Storage/Kind.antt =====
-- `EntryKind` of internal/storage/root.go and its text form.
use httplock.Base.{◌+◌, map, Str, text, str_eq, leb, ◌&&◌, if◌then◌else◌, ok, err}
use httplock.Storage.Errors.{unknown_kind, Res}

pub data EntryKind : Type 0 where
  kind_dir kind_file : EntryKind

-- The code makes no other number of this type, for which MarshalText gives an error.
unfoldable pub marshal_text : EntryKind → Str
marshal_text kind_dir = text "dir"
marshal_text kind_file = text "file"

-- `strings.ToLower` on the bytes of an ASCII text.
unfoldable pub to_lower : Str → Str
to_lower = map (λ c. if leb b'A' c && leb c b'Z' then c + 32 else c)

unfoldable pub unmarshal_text : Str → Res EntryKind
unfolding to_lower
unmarshal_text b =
    if str_eq (to_lower b) (text "dir")
    then ok kind_dir
    else if str_eq (to_lower b) (text "file")
    then ok kind_file
    else err (unknown_kind b)
