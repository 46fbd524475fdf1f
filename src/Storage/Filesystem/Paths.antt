-- ===== src/Storage/Filesystem/Paths.antt =====
-- What internal/storage/filesystem.go uses of path/filepath, on slash-separated paths.
use httplock.Base.{
  Bool, false, List, [], ◌∷◌, ◌++◌, ◌==◌, Str, text, str_eq, if◌then◌else◌, ◌&&◌, not, split_last,
}

-- A byte before the first of the parts.
abbrev extend_first : Str → List Str → List Str
extend_first c [] = c ∷ []
extend_first c (part ∷ parts) = (c ++ part) ∷ parts

-- The parts between the slashes.
unfoldable pub split_path : Str → List Str
split_path [] = [] ∷ []
split_path (c ∷ s) =
    let rest = split_path s in if c == b'/' then [] ∷ rest else extend_first (c ∷ []) rest

-- `strings.Join` with a slash.
unfoldable pub join_parts : List Str → Str
join_parts [] = []
join_parts (part ∷ []) = part
join_parts (part ∷ next ∷ parts) = part ++ (b'/' ∷ join_parts (next ∷ parts))

-- What ".." does to the parts before it, the last one first.
abbrev go_up : Bool → List Str → List Str
go_up rooted [] = if rooted then [] else text ".." ∷ []
go_up rooted (part ∷ out) = if str_eq part (text "..") then text ".." ∷ part ∷ out else out

abbrev clean_part : Bool → List Str → Str → List Str
clean_part rooted out part =
    if str_eq part []
    then out
    else if str_eq part (text ".")
    then out
    else if str_eq part (text "..")
    then go_up rooted out
    else part ∷ out

abbrev clean_parts : Bool → List Str → List Str → List Str
clean_parts rooted out [] = out
clean_parts rooted out (part ∷ parts) = clean_parts rooted (clean_part rooted out part) parts

abbrev in_order : List Str → List Str → List Str
in_order done [] = done
in_order done (part ∷ out) = in_order (part ∷ done) out

abbrev is_rooted : Str → Bool
is_rooted [] = false
is_rooted (c ∷ s) = c == b'/'

abbrev or_dot : Str → Str
or_dot [] = text "."
or_dot (c ∷ s) = c ∷ s

-- `filepath.Clean`
unfoldable pub clean : Str → Str
unfolding split_path join_parts
clean path =
    let rooted = is_rooted path in
    let inside = join_parts (in_order [] (clean_parts rooted [] (split_path path))) in
    if rooted then b'/' ∷ inside else or_dot inside

-- `filepath.Join` of two elements; empty ones are ignored.
unfoldable pub join_path : Str → Str → Str
unfolding clean
join_path [] [] = []
join_path [] (c ∷ name) = clean (c ∷ name)
join_path (c ∷ dir) name = clean ((c ∷ dir) ++ (b'/' ∷ name))

abbrev dir_of : List Str → Str
dir_of [] = text "."
dir_of ([] ∷ []) = text "/"
dir_of ((c ∷ part) ∷ []) = c ∷ part
dir_of (part ∷ next ∷ parts) = join_parts (part ∷ next ∷ parts)

abbrev all_but_last : List Str → List Str
all_but_last [] = []
all_but_last (part ∷ parts) = (split_last part parts).0

-- The directory that a clean path is in.
unfoldable pub parent : Str → Str
unfolding split_path join_parts
parent path = dir_of (all_but_last (split_path path))

-- The path and the directories above it, from the top.
unfoldable pub prefixes : Str → Str → List Str
prefixes seen [] = seen ∷ []
prefixes seen (c ∷ rest) =
    let more = prefixes (seen ++ (c ∷ [])) rest in
    if (c == b'/') && not (str_eq seen []) then seen ∷ more else more
