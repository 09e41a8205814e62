-- ===== src/Cli/Pem.antt =====
-- `_PEM_BLOCK_RE.findall`: the certificates in what openssl prints.
pub mod Served
use linuxmuster_radius.Prelude.{
  ℕ, zero, suc, ◌-◌, Option, none, some, List, [], ◌∷◌, ◌++◌, Text, codes, length, drop,
  starts_with, if◌then◌else◌, ◌==◌,
}
use mathlib.Core.Option

abbrev pub begin_mark : Text
begin_mark = codes "-----BEGIN CERTIFICATE-----"

abbrev pub end_mark : Text
end_mark = codes "-----END CERTIFICATE-----"

-- `\n?`
unfoldable pub newline_at : Text → Text
newline_at [] = []
newline_at (c ∷ s) = if c == 10 then 10 ∷ [] else []

-- `.*?` and the end mark: up to the first end mark, and the newline behind it.
unfoldable pub up_to_end : Text → Option Text
unfolding newline_at starts_with drop
up_to_end [] = none
up_to_end (c ∷ s) =
    let later = Option.map (λ t. c ∷ t) (up_to_end s) in
    if starts_with (c ∷ s) end_mark
    then some (end_mark ++ newline_at (drop (length end_mark) (c ∷ s)))
    else later

-- The match of the pattern that begins a text.
unfoldable pub match_at : Text → Option Text
unfolding up_to_end starts_with drop
match_at s =
    if starts_with s begin_mark
    then Option.map (λ t. begin_mark ++ t) (up_to_end (drop (length begin_mark) s))
    else none

-- `findall`: the first match that is left, where `skip` characters are of the one before.
unfoldable pub find_all : ℕ → Text → List Text
unfolding match_at
find_all skip [] = []
find_all (suc skip) (c ∷ s) = find_all skip s
find_all zero (c ∷ s) = elim (match_at (c ∷ s)) [
  | none ↦ find_all 0 s
  | some block ↦ block ∷ find_all (length block - 1) s
]
