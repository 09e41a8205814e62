-- ===== src/Docker/Paths.antt =====
-- `os.path.join`, `os.path.commonpath` and `DockerService._resolve_under`.
use linuxmuster_radius.Prelude.{
  join, Bool, false, not, ◌||◌, ◌==◌, List, [], ◌∷◌, ◌++◌, Text, codes, text_eq, split, last,
  if◌then◌else◌,
}
use linuxmuster_radius.Exec.{Result, ok, err, value_error}
use linuxmuster_radius.Models.Fields.{nonempty}

abbrev slash : Text
slash = codes "/"

abbrev pub is_absolute : Text → Bool
is_absolute [] = false
is_absolute (c ∷ s) = c == b'/'

-- `os.path.join(a, b)`
unfoldable pub join_path : Text → Text → Text
unfolding last
join_path a b =
    if is_absolute b
    then b
    else if not (nonempty a) || last 0 a == b'/'
    then a ++ b
    else a ++ (slash ++ b)

-- The parts of a path, without the empty ones and `.`.
unfoldable pub drop_empty : List Text → List Text
unfolding text_eq
drop_empty [] = []
drop_empty (s ∷ ss) =
    let rest = drop_empty ss in if not (nonempty s) || text_eq s (codes ".") then rest else s ∷ rest

unfoldable pub components : Text → List Text
unfolding drop_empty split
components path = drop_empty (split b'/' path)

unfoldable pub common_prefix : List Text → List Text → List Text
unfolding text_eq
common_prefix [] ts = []
common_prefix (s ∷ ss) [] = []
common_prefix (s ∷ ss) (t ∷ ts) =
    let rest = common_prefix ss ts in if text_eq s t then s ∷ rest else []

-- `os.path.commonpath([a, b])` of two absolute paths.
unfoldable pub commonpath : Text → Text → Text
unfolding components common_prefix join
commonpath a b = slash ++ join slash (common_prefix (components a) (components b))

-- `_resolve_under`: `realpath` is the file system's.
unfoldable pub resolve_under : (Text → Text) → Text → Text → Result Text
unfolding join_path commonpath text_eq
resolve_under realpath root child =
    let root_real = realpath root in
    let target = realpath (join_path root_real child) in
    if text_eq (commonpath root_real target) root_real
    then ok target
    else err (value_error "path escapes its directory")
