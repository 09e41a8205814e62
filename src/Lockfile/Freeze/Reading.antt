-- ===== src/Lockfile/Freeze/Reading.antt =====
-- The loops of `cmd_freeze` over the lockfiles and over the output of `pip freeze`, as one table each.
use linuxmuster_radius.Prelude.{
  ℕ, suc, ◌≡◌, ◌≢◌, ◌↔◌, refl, sym, ◌∙◌, Option, none, some, List, [], ◌∷◌, ◌++◌, Text, arith, map,
  All,
}
use linuxmuster_radius.Dict
use linuxmuster_radius.Dict.{Dict}
use linuxmuster_radius.Lockfile.{parse}
use linuxmuster_radius.Lockfile.Names.{append_nil}
use linuxmuster_radius.Lockfile.Freeze.{
  Entry, Table, table, pin_entry, want_from, freeze_entry, after_freeze, have_from, freeze_match,
}
use linuxmuster_radius.Lockfile.Freeze.Tables.{known_nil}

table-append :
    (d : Dict Text) (xs ys : List Entry)
    → ((table d (xs ++ ys)).0 ≡ (table (table d xs).0 ys).0)
      × (((table d (xs ++ ys)).1 ≡ [])
          ↔ (((table d xs).1 ≡ []) × ((table (table d xs).0 ys).1 ≡ [])))
unfolding table
table-append d [] ys = (refl, ground arith)
table-append d (x ∷ xs) ys =
    let now = Dict.put d x.name x.version in
    let later = table-append now xs ys in
    let whole = known_nil (Dict.get d x.name) x.twice (table now (xs ++ ys)).1 in
    let left = known_nil (Dict.get d x.name) x.twice (table now xs).1 in
    (later.0, ground (arith, whole, left, later.1))

-- The pins of all the lockfiles.
abbrev pub lock_entries : List Text → List Entry
lock_entries [] = []
lock_entries (lock ∷ locks) = map pin_entry (parse lock).0 ++ lock_entries locks

pub want_from_lem :
    (d : Dict Text) (locks : List Text)
    → ((want_from d locks).0 ≡ (table d (lock_entries locks)).0)
      × (((want_from d locks).1 ≡ [])
          ↔ (All (λ lock. (parse lock).1 ≡ []) locks × ((table d (lock_entries locks)).1 ≡ [])))
unfolding want_from
want_from_lem d [] = (refl, ground arith)
want_from_lem d (lock ∷ locks) =
    let own = map pin_entry (parse lock).0 in
    let now = (table d own).0 in
    let later = want_from_lem now locks in
    let both = table-append d own (lock_entries locks) in
    let errs = (parse lock).1 in
    let first = append_nil (errs ++ (table d own).1) (want_from now locks).1 in
    let second = append_nil errs (table d own).1 in
    (later.0 ∙ sym both.0, ground (arith, first, second, later.1, both.1))

-- The line is a plain pin.
abbrev pub IsPlain : Text → Type 0
IsPlain l = freeze_match l ≢ none

module _ (lower : Text → Text) where
  abbrev plain_entry : ℕ → Option (Text × Text) → List Entry → List Entry
  plain_entry n none es = es
  plain_entry n (some m) es = freeze_entry lower n m ∷ es

  -- The pins of the output of `pip freeze`, from line `n` on.
  abbrev pub freeze_entries : ℕ → List Text → List Entry
  freeze_entries n [] = []
  freeze_entries n (l ∷ ls) = plain_entry n (freeze_match l) (freeze_entries (suc n) ls)

  after_freeze_lem :
      (n : ℕ) (d : Dict Text) (o : Option (Text × Text)) (again : Dict Text → Table)
      (es : List Entry) (Good : Type 0)
      → ((h : Dict Text)
          → ((again h).0 ≡ (table h es).0) × (((again h).1 ≡ []) ↔ (Good × ((table h es).1 ≡ []))))
      → ((after_freeze lower again n d o).0 ≡ (table d (plain_entry n o es)).0)
        × (((after_freeze lower again n d o).1 ≡ [])
            ↔ (((o ≢ none) × Good) × ((table d (plain_entry n o es)).1 ≡ [])))
  unfolding after_freeze table
  after_freeze_lem n d none again es Good h = ((h d).0, ground arith)
  after_freeze_lem n d (some m) again es Good h =
      let e = freeze_entry lower n m in
      let now = Dict.put d e.name e.version in
      let one = known_nil (Dict.get d e.name) e.twice (again now).1 in
      let two = known_nil (Dict.get d e.name) e.twice (table now es).1 in
      ((h now).0, ground (arith, one, two, (h now).1))

  pub have_from_lem :
      (n : ℕ) (d : Dict Text) (ls : List Text)
      → ((have_from lower n d (map some ls)).0 ≡ (table d (freeze_entries n ls)).0)
        × (((have_from lower n d (map some ls)).1 ≡ [])
            ↔ (All IsPlain ls × ((table d (freeze_entries n ls)).1 ≡ [])))
  unfolding have_from table
  have_from_lem n d [] = (refl, ground arith)
  have_from_lem n d (l ∷ ls) =
      after_freeze_lem n d (freeze_match l) (λ h. have_from lower (suc n) h (map some ls))
        (freeze_entries (suc n) ls) (All IsPlain ls) (λ h. have_from_lem (suc n) h ls)
