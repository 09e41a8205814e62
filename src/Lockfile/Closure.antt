-- ===== src/Lockfile/Closure.antt =====
-- `canonical` and `cmd_closure`: every installed distribution is required by one of the roots.
pub mod Reaching
pub mod Fuel
pub mod Outcome
use linuxmuster_radius.Prelude.{
  ℕ, zero, suc, ◌+◌, Bool, true, false, not, ◌&&◌, ◌||◌, ◌==◌, Option, none, some, List, [], ◌∷◌,
  ◌++◌, Text, codes, text_eq, map, any, length, if◌then◌else◌,
}
use linuxmuster_radius.Dict
use linuxmuster_radius.Dict.{Dict}
use linuxmuster_radius.Store.Files.{sorted}
use linuxmuster_radius.Lockfile.Names.{select}
use linuxmuster_radius.Lockfile.{Complaint, installed_twice, required_missing, not_required}

abbrev is_separator : ℕ → Bool
is_separator c = c == b'-' || c == b'_' || c == b'.'

-- `re.sub(r"[-_.]+", "-", name)`; the flag says that the character before was one of them.
unfoldable pub collapse : Bool → Text → Text
collapse before [] = []
collapse before (c ∷ s) = elim (is_separator c) [
  | false ↦ c ∷ collapse false s
  | true ↦ elim before [ true ↦ collapse true s | false ↦ b'-' ∷ collapse true s ]
]

-- A requirement as `packaging` reads it: `applies` evaluates its marker for an extra, and is always
-- true where there is none.
pub record Requirement : Type 0 where
  pub name : Text
  pub extras : List Text
  pub applies : Text → Bool

pub record Distribution : Type 0 where
  pub name : Text
  pub version : Text
  pub requires : List Requirement

-- A project and one of its extras, or the empty text.
abbrev pub Node : Type 0
Node = Text × Text

abbrev pub node_eq : Node → Node → Bool
node_eq (a, x) (b, y) = text_eq a b && text_eq x y

unfoldable pub is_in : Node → List Node → Bool
is_in p ps = any (node_eq p) ps

-- `todo += ...`, with the end of the list, where `pop` takes from, in front.
unfoldable pub push_all : List Node → List Node → List Node
push_all [] todo = todo
push_all (p ∷ ps) todo = push_all ps (p ∷ todo)

pub record Search : Type 0 where
  pub todo : List Node
  pub seen : List Node
  pub errors : List Complaint

abbrev pub is_reached : List Node → Text → Bool
is_reached seen name = any (λ p. text_eq p.0 name) seen

-- `lower` is `str.lower`.
module _ (lower : Text → Text) where
  -- `canonical`
  unfoldable pub canonical : Text → Text
  unfolding collapse
  canonical name = lower (collapse false name)

  unfoldable pub targets : Requirement → List Node
  unfolding canonical
  targets req = let dep = canonical req.name in (dep, []) ∷ map (λ e. (dep, canonical e)) req.extras

  -- What an extra of a distribution requires.
  unfoldable pub wanted : Text → List Requirement → List Node
  unfolding targets
  wanted extra [] = []
  wanted extra (req ∷ reqs) =
      let rest = wanted extra reqs in if req.applies extra then targets req ++ rest else rest

  -- `if name in dists: errors.append(...)`
  unfoldable pub complain_twice : Option Distribution → Text → List Complaint → List Complaint
  complain_twice none name errors = errors
  complain_twice (some e) name errors = installed_twice name ∷ errors

  -- The loop over `metadata.distributions`.
  unfoldable pub collect :
      Dict Distribution → List Distribution → Dict Distribution × List Complaint
  unfolding canonical complain_twice
  collect dists [] = (dists, [])
  collect dists (d ∷ ds) =
      let name = canonical d.name in
      let (all, errors) = collect (Dict.put dists name d) ds in
      (all, complain_twice (Dict.get dists name) name errors)

  module _ (dists : Dict Distribution) where
    unfoldable pub expand : Option Distribution → Node → Search → Search
    unfolding wanted push_all
    expand none p s = record s { errors = s.errors ++ required_missing p.0 ∷ [] }
    expand (some d) p s = record s { todo = push_all (wanted p.1 d.requires) s.todo }

    -- One round of the `while` loop, after `p` was popped.
    unfoldable pub visit : Bool → Node → Search → Search
    unfolding expand
    visit true p s = s
    visit false p s = expand (Dict.get dists p.0) p (record s { seen = p ∷ s.seen })

    unfoldable pub search_from : ℕ → List Node → Search → Option Search
    unfolding visit is_in
    search_from fuel [] s = some s
    search_from zero (p ∷ todo) s = none
    search_from (suc fuel) (p ∷ todo) s =
        let s' = visit (is_in p s.seen) p (record s { todo = todo }) in search_from fuel s'.todo s'

    -- The errors of the first loop, then those of the search and of what it did not reach.
    unfoldable pub report : List Complaint → Option Search → Option (List Complaint)
    unfolding select sorted
    report errors none = none
    report errors (some s) = some (
        errors
        ++ s.errors
        ++ map not_required
            (sorted (select (λ name. not (is_reached s.seen name)) (Dict.keys dists))))

  -- `[(canonical(r), "") for r in args.root]`
  abbrev pub root_nodes : List Text → List Node
  root_nodes roots = map (λ r. (canonical r, [])) roots

  abbrev pub start : List Text → Search
  start roots = record { todo = push_all (root_nodes roots) []; seen = []; errors = [] }

  -- The errors of `cmd_closure`. `none` means that the fuel has run out.
  unfoldable pub closure : ℕ → List Text → List Distribution → Option (List Complaint)
  unfolding collect search_from report
  closure fuel roots installed =
      let (dists, errors) = collect [] installed in
      report dists errors (search_from dists fuel (start roots).todo (start roots))
