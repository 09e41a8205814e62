-- ===== src/Lockfile/Grammar.antt =====
-- What a lockfile is: lines of the four kinds that uv writes, with every pin followed by its hashes.
-- It says nothing of how a line is matched; `Parsing` relates it to the reader.
use linuxmuster_radius.Prelude.{
  ℕ, suc, ◌≡◌, ◌⊎◌, Bool, true, false, Option, none, some, List, [], ◌∷◌, ◌++◌, Text, codes, all,
  length,
}
use linuxmuster_radius.Dict
use linuxmuster_radius.Dict.{Dict}
use linuxmuster_radius.Regex.Language.{Matches}
use linuxmuster_radius.Lockfile.{
  Pin, project_re, version_re, comment_re, hash_prefix, is_low_hex, with_hash, new_pin,
}

abbrev pub IsBlank : Text → Type 0
IsBlank l = (l ≡ []) ⊎ Matches comment_re l

-- `name==version \`
abbrev pub IsPin : Text → Text → Text → Type 0
IsPin l name version =
    (l ≡ name ++ (codes "==" ++ (version ++ codes " \\")))
    × Matches project_re name
    × Matches version_re version

abbrev pub IsDigest : Text → Type 0
IsDigest h = (all is_low_hex h ≡ true) × (length h ≡ 64)

abbrev pub continuation : Bool → Text
continuation true = codes " \\"
continuation false = []

abbrev pub IsHash : Text → Text → Bool → Type 0
IsHash l h more = (l ≡ hash_prefix ++ (h ++ continuation more)) × IsDigest h

-- The lines from number `n` on hold the pins `ps`: `seen` are the names before, and `cont` is a pin
-- that needs another hash. No name occurs twice.
pub data Reads : ℕ → Dict ℕ → Option Pin → List Text → List Pin → Type 0 where
  end : {n : ℕ} {seen : Dict ℕ} → Reads n seen none [] []
  blank :
      {n : ℕ} {seen : Dict ℕ} {l : Text} {ls : List Text} {ps : List Pin}
      → IsBlank l
      → Reads (suc n) seen none ls ps
      → Reads n seen none (l ∷ ls) ps
  pin :
      {n : ℕ} {seen : Dict ℕ} {l : Text} {ls : List Text} {ps : List Pin} (name version : Text)
      → IsPin l name version
      → Dict.get seen name ≡ none
      → Reads (suc n) (Dict.put seen name n) (some (new_pin name version n)) ls ps
      → Reads n seen none (l ∷ ls) ps
  more :
      {n : ℕ} {seen : Dict ℕ} {p : Pin} {l : Text} {ls : List Text} {ps : List Pin} (h : Text)
      → IsHash l h true
      → Reads (suc n) seen (some (with_hash p h)) ls ps
      → Reads n seen (some p) (l ∷ ls) ps
  last :
      {n : ℕ} {seen : Dict ℕ} {p : Pin} {l : Text} {ls : List Text} {ps : List Pin} (h : Text)
      → IsHash l h false
      → Reads (suc n) seen none ls ps
      → Reads n seen (some p) (l ∷ ls) (with_hash p h ∷ ps)
