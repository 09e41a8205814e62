-- ===== src/Lockfile.antt =====
-- scripts/lockfile_gate.py: the gate between the lockfiles and the virtual environment. Here is the
-- reader of a lockfile, `ascii_lines` and `parse`; the commands are in the children.
pub mod Grammar
pub mod Patterns
pub mod Parsing
pub mod Print
pub mod Names
pub mod Closure
pub mod Freeze
pub mod Single
pub mod Published
use linuxmuster_radius.Prelude.{
  ℕ, zero, suc, Bool, true, false, not, ◌&&◌, ◌||◌, leb, Option, none, some, List, [], ◌∷◌, ◌++◌,
  Text, codes, split, has, all, map, partition, take, drop, if◌then◌else◌,
}
use linuxmuster_radius.Dict
use linuxmuster_radius.Dict.{Dict}
use linuxmuster_radius.Regex.{Regex, class, seq, alt, upto, star, char, opt, lit, times, fullmatch}
use linuxmuster_radius.Models.Patterns.{is_lower_alnum, is_alnum, is_digit, or_in}

pub record Pin : Type 0 where
  pub name : Text
  pub version : Text
  pub line : ℕ
  pub hashes : List Text

-- The entries of `errors`, by kind, with the line or the name that they are about.
pub data Complaint : Type 0 where
  bad_bytes expected_hash not_a_line : ℕ → Complaint
  pinned_twice : ℕ → Text → Complaint
  ends_inside : Text → Complaint
  in_two_lockfiles drop_not_pinned own_missing : Text → Complaint
  not_a_pin : ℕ → Complaint
  appears_twice : ℕ → Text → Complaint
  not_locked not_installed other_version : Text → Complaint
  installed_twice required_missing not_required : Text → Complaint
  not_the_one_pin not_the_input : Complaint
  not_published : ℕ → Text → Complaint
  cannot_read : Text → Complaint

-- `[a-z0-9](?:[a-z0-9-]*[a-z0-9])?`
abbrev pub project_re : Regex
project_re =
    seq (class is_lower_alnum)
      (opt (seq (star (class (or_in is_lower_alnum (codes "-")))) (class is_lower_alnum)))

-- `[0-9][0-9A-Za-z.+!]*`
abbrev pub version_re : Regex
version_re = seq (class is_digit) (star (class (or_in is_alnum (codes ".+!"))))

-- `PIN`
abbrev pub pin_re : Regex
pin_re = seq project_re (seq (lit (codes "==")) (seq version_re (lit (codes " \\"))))

abbrev pub is_low_hex : ℕ → Bool
is_low_hex c = is_digit c || (leb b'a' c && leb c b'f')

abbrev pub digest_re : Regex
digest_re = times 64 (class is_low_hex)

abbrev pub hash_prefix : Text
hash_prefix = codes "    --hash=sha256:"

-- `HASH`
abbrev pub hash_re : Regex
hash_re = seq (lit hash_prefix) (seq digest_re (opt (lit (codes " \\"))))

-- `COMMENT`
abbrev pub comment_re : Regex
comment_re = seq (star (char b' ')) (seq (char b'#') (star (class (λ c. not (has c (10 ∷ []))))))

-- `PIN.fullmatch(line)` with its two groups: no `=` is in a name, and no space in a version.
unfoldable pub pin_match : Text → Option (Text × Text)
unfolding fullmatch partition drop
pin_match line =
    let (name, rest) = partition b'=' line in
    if fullmatch pin_re line then some (name, (partition b' ' (drop 1 rest)).0) else none

-- `HASH.fullmatch(line)` with its two groups: 64 digits behind the prefix, and whether the line is
-- continued.
unfoldable pub hash_match : Text → Option (Text × Bool)
unfolding fullmatch take drop
hash_match line =
    if fullmatch hash_re line then some (take 64 (drop 18 line), has 92 line) else none

-- `line == "" or COMMENT.fullmatch(line)`
unfoldable pub is_blank : Text → Bool
unfolding fullmatch
is_blank [] = true
is_blank (c ∷ s) = fullmatch comment_re (c ∷ s)

abbrev pub is_printable : ℕ → Bool
is_printable b = leb 0x20 b && leb b 0x7e

-- `if lines[-1] == b"": lines.pop()`
unfoldable pub drop_last_empty : List Text → List Text
drop_last_empty [] = []
drop_last_empty ([] ∷ []) = []
drop_last_empty ((c ∷ s) ∷ []) = (c ∷ s) ∷ []
drop_last_empty (l ∷ m ∷ ls) = l ∷ drop_last_empty (m ∷ ls)

unfoldable pub file_lines : Text → List Text
unfolding split drop_last_empty
file_lines content = drop_last_empty (split 10 content)

unfoldable pub readable : Text → Option Text
readable raw = if all is_printable raw then some raw else none

-- The errors of `ascii_lines`, from line `n` on.
unfoldable pub ascii_errors : ℕ → List Text → List Complaint
ascii_errors n [] = []
ascii_errors n (raw ∷ raws) =
    let rest = ascii_errors (suc n) raws in
    if all is_printable raw then rest else bad_bytes n ∷ rest

abbrev pub Parsed : Type 0
Parsed = List Pin × List Complaint

abbrev pub emit : Pin → Parsed → Parsed
emit p (pins, errors) = (p ∷ pins, errors)

abbrev pub complain : Complaint → Parsed → Parsed
complain e (pins, errors) = (pins, e ∷ errors)

abbrev pub complain_if : Bool → Complaint → Parsed → Parsed
complain_if false e r = r
complain_if true e r = complain e r

abbrev pub with_hash : Pin → Text → Pin
with_hash p h = record p { hashes = p.hashes ++ h ∷ [] }

abbrev pub new_pin : Text → Text → ℕ → Pin
new_pin name version n = record { name = name; version = version; line = n; hashes = [] }

abbrev pub is_pinned : Dict ℕ → Text → Bool
is_pinned seen name = elim (Dict.get seen name) [ none ↦ false | some line ↦ true ]

-- A line inside a pin, by what it matches; `again` reads the lines after it. A pin is emitted where
-- its hashes end, which is before the next pin begins.
unfoldable pub after_hash : (Option Pin → Parsed) → ℕ → Pin → Option (Text × Bool) → Parsed
after_hash again n p none = emit p (complain (expected_hash n) (again none))
after_hash again n p (some (h, true)) = again (some (with_hash p h))
after_hash again n p (some (h, false)) = emit (with_hash p h) (again none)

-- A line outside of every pin that is not blank.
unfoldable pub after_pin :
    (Dict ℕ → Option Pin → Parsed) → ℕ → Dict ℕ → Option (Text × Text) → Parsed
after_pin again n seen none = complain (not_a_line n) (again seen none)
after_pin again n seen (some (name, version)) =
    complain_if (is_pinned seen name) (pinned_twice n name)
      (again (Dict.put seen name n) (some (new_pin name version n)))

unfoldable pub after_line :
    (Dict ℕ → Option Pin → Parsed) → ℕ → Dict ℕ → Bool → Option (Text × Text) → Parsed
unfolding after_pin
after_line again n seen true m = again seen none
after_line again n seen false m = after_pin again n seen m

-- The loop of `parse` from line `n` on: the names seen so far, and the pin `cont` whose next line
-- must be a hash.
unfoldable pub parse_lines : ℕ → Dict ℕ → Option Pin → List (Option Text) → Parsed
unfolding after_hash after_line
parse_lines n seen none [] = ([], [])
parse_lines n seen (some p) [] = (p ∷ [], ends_inside p.name ∷ [])
parse_lines n seen none (none ∷ ls) = parse_lines (suc n) seen none ls
parse_lines n seen (some p) (none ∷ ls) = emit p (parse_lines (suc n) seen none ls)
parse_lines n seen (some p) (some l ∷ ls) =
    after_hash (λ c. parse_lines (suc n) seen c ls) n p (hash_match l)
parse_lines n seen none (some l ∷ ls) =
    after_line (λ s c. parse_lines (suc n) s c ls) n seen (is_blank l) (pin_match l)

-- `parse`, of the file's bytes.
unfoldable pub parse : Text → Parsed
unfolding file_lines readable ascii_errors parse_lines
parse content =
    let lines = file_lines content in
    let (pins, errors) = parse_lines 1 [] none (map readable lines) in
    (pins, ascii_errors 1 lines ++ errors)
