-- ===== src/Lockfile/Freeze.antt =====
-- `cmd_freeze`: the virtual environment holds exactly the pins of the lockfiles.
pub mod Tables
pub mod Reading
pub mod Compare
pub mod Exact
use linuxmuster_radius.Prelude.{
  ℕ, zero, suc, Bool, true, false, not, ◌&&◌, ◌||◌, Option, none, some, List, [], ◌∷◌, ◌++◌, Text,
  codes, text_eq, map, partition, drop, if◌then◌else◌,
}
use linuxmuster_radius.Dict
use linuxmuster_radius.Dict.{Dict}
use linuxmuster_radius.Regex.{Regex, class, seq, star, lit, fullmatch}
use linuxmuster_radius.Models.Patterns.{is_alnum, or_in}
use linuxmuster_radius.Store.Files.{sorted}
use linuxmuster_radius.Lockfile.{
  Pin, Complaint, in_two_lockfiles, drop_not_pinned, own_missing, not_a_pin, appears_twice,
  not_locked, not_installed, other_version, version_re, file_lines, readable, ascii_errors, parse,
}
use linuxmuster_radius.Lockfile.Names.{select}
use linuxmuster_radius.Lockfile.Closure.{canonical}

-- `FREEZE_PIN`
abbrev pub freeze_re : Regex
freeze_re =
    seq (seq (class is_alnum) (star (class (or_in is_alnum (codes "._-")))))
      (seq (lit (codes "==")) version_re)

-- `FREEZE_PIN.fullmatch(line)` with its two groups: no `=` is in a name.
unfoldable pub freeze_match : Text → Option (Text × Text)
unfolding fullmatch partition drop
freeze_match line =
    let (name, rest) = partition b'=' line in
    if fullmatch freeze_re line then some (name, drop 1 rest) else none

-- A name with its version, and the complaint if the name is there already.
pub record Entry : Type 0 where
  pub name : Text
  pub version : Text
  pub twice : Complaint

abbrev pub Table : Type 0
Table = Dict Text × List Complaint

unfoldable pub complain_known : Option Text → Complaint → List Complaint → List Complaint
complain_known none e errors = errors
complain_known (some v) e errors = e ∷ errors

-- `if name in d: errors.append(...)`, then `d[name] = version`, for one entry after another.
unfoldable pub table : Dict Text → List Entry → Table
unfolding complain_known
table d [] = (d, [])
table d (e ∷ es) =
    let (all, errors) = table (Dict.put d e.name e.version) es in
    (all, complain_known (Dict.get d e.name) e.twice errors)

unfoldable pub complain_unknown : Option Text → Complaint → List Complaint → List Complaint
complain_unknown none e errors = e ∷ errors
complain_unknown (some v) e errors = errors

-- `if d.pop(name, None) is None: errors.append(...)`, for one name after another.
unfoldable pub pop_all : (Text → Complaint) → Dict Text → List Text → Table
unfolding complain_unknown
pop_all complaint d [] = (d, [])
pop_all complaint d (name ∷ names) =
    let (left, errors) = pop_all complaint (Dict.remove d name) names in
    (left, complain_unknown (Dict.get d name) (complaint name) errors)

abbrev pub pin_entry : Pin → Entry
pin_entry p = record { name = p.name; version = p.version; twice = in_two_lockfiles p.name }

-- The loop over the lockfiles' contents.
unfoldable pub want_from : Dict Text → List Text → Table
unfolding parse table
want_from want [] = (want, [])
want_from want (lock ∷ locks) =
    let (pins, errs) = parse lock in
    let (now, twice) = table want (map pin_entry pins) in
    let (all, errors) = want_from now locks in (all, errs ++ twice ++ errors)

module _ (lower : Text → Text) where
  abbrev pub freeze_entry : ℕ → Text × Text → Entry
  freeze_entry n (name, version) =
      let name = canonical lower name in
      record { name = name; version = version; twice = appears_twice n name }

  -- A line of the output of `pip freeze`, by what it matches.
  unfoldable pub after_freeze : (Dict Text → Table) → ℕ → Dict Text → Option (Text × Text) → Table
  unfolding complain_known canonical
  after_freeze again n have none = let (all, errors) = again have in (all, not_a_pin n ∷ errors)
  after_freeze again n have (some m) =
      let e = freeze_entry n m in
      let (all, errors) = again (Dict.put have e.name e.version) in
      (all, complain_known (Dict.get have e.name) e.twice errors)

  unfoldable pub have_from : ℕ → Dict Text → List (Option Text) → Table
  unfolding after_freeze freeze_match
  have_from n have [] = (have, [])
  have_from n have (none ∷ ls) = have_from (suc n) have ls
  have_from n have (some l ∷ ls) =
      after_freeze (λ h. have_from (suc n) h ls) n have (freeze_match l)

abbrev pub is_key : Dict Text → Text → Bool
is_key d k = elim (Dict.get d k) [ none ↦ false | some v ↦ true ]

-- `want[n] != have[n]`, where both are there.
abbrev pub versions_differ : Option Text → Option Text → Bool
versions_differ (some v) (some w) = not (text_eq v w)
versions_differ (some v) none = false
versions_differ none w = false

-- The three loops at the end, over what is in one of the two only and over what differs.
unfoldable pub compare : Dict Text → Dict Text → List Complaint
unfolding select sorted
compare want have =
    map not_locked (sorted (select (λ k. not (is_key want k)) (Dict.keys have)))
    ++ map not_installed (sorted (select (λ k. not (is_key have k)) (Dict.keys want)))
    ++ map other_version (
        sorted (select (λ k. versions_differ (Dict.get want k) (Dict.get have k)) (Dict.keys want)))

-- The errors of `cmd_freeze`, of the contents of the files.
unfoldable pub freeze : (Text → Text) → List Text → List Text → Text → List Text → List Complaint
unfolding want_from pop_all ascii_errors have_from compare
freeze lower own drop_names frozen locks =
    let (want, e1) = want_from [] locks in
    let (kept, e2) = pop_all drop_not_pinned want (map (canonical lower) drop_names) in
    let lines = file_lines frozen in
    let (have, e3) = have_from lower 1 [] (map readable lines) in
    let (rest, e4) = pop_all own_missing have (map (canonical lower) own) in
    e1 ++ e2 ++ ascii_errors 1 lines ++ e3 ++ e4 ++ compare kept rest
