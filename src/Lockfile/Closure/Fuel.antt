-- ===== src/Lockfile/Closure/Fuel.antt =====
-- How many rounds the loop of `cmd_closure` needs: one for each name that is pushed.
use linuxmuster_radius.Prelude.{
  ℕ, zero, suc, ◌+◌, ◌≤◌, ◌≡◌, ◌≢◌, ◌⊎◌, inl, inr, refl, sym, ap, subst, ◌∙◌, Bool, true, false,
  Option, none, some, List, [], ◌∷◌, ◌++◌, Text, text_eq, arith, Bool-cases, Option-cases, length,
  if◌then◌else◌,
}
use mathlib.Core.Option.{some-injective}
use linuxmuster_radius.Dict
use linuxmuster_radius.Dict.{Dict}
use linuxmuster_radius.Lockfile.Closure.{
  Distribution, Requirement, Node, is_in, push_all, Search, wanted, targets, expand, visit,
  search_from, collect, start, closure, report,
}
use linuxmuster_radius.Lockfile.Closure.Reaching.{Member, is_in_iff, Member-push_all}

length-push_all : (xs ys : List Node) → length (push_all xs ys) ≡ length xs + length ys
unfolding push_all
length-push_all [] ys = omega arith
length-push_all (x ∷ xs) ys = grind (arith, length-push_all xs (x ∷ ys))

Member-append_left : (p : Node) (xs ys : List Node) → Member p xs → Member p (xs ++ ys)
Member-append_left p [] ys m = absurd m
Member-append_left p (x ∷ xs) ys m = ground (arith, Member-append_left p xs ys)

Member-append_right : (p : Node) (xs ys : List Node) → Member p ys → Member p (xs ++ ys)
Member-append_right p [] ys m = m
Member-append_right p (x ∷ xs) ys m = inr (Member-append_right p xs ys m)

Member-append_cases :
    (p : Node) (xs ys : List Node) → Member p (xs ++ ys) → Member p xs ⊎ Member p ys
Member-append_cases p [] ys m = inr m
Member-append_cases p (x ∷ xs) ys m = ground (arith, Member-append_cases p xs ys)

module _ (lower : Text → Text) where
  -- All that a list of requirements can push, whatever its markers say.
  unfoldable pub mentioned : List Requirement → List Node
  mentioned [] = []
  mentioned (req ∷ reqs) = targets lower req ++ mentioned reqs

  unfoldable pub mentioned_in : Dict Distribution → List Node
  mentioned_in [] = []
  mentioned_in ((_, d) ∷ dists) = mentioned d.requires ++ mentioned_in dists

  wanted-mentioned :
      (q : Node) (extra : Text) (reqs : List Requirement)
      → Member q (wanted lower extra reqs)
      → Member q (mentioned reqs)
  unfolding wanted mentioned
  wanted-mentioned q extra [] m = m
  wanted-mentioned q extra (req ∷ reqs) m =
      let later = wanted-mentioned q extra reqs in
      elim (Bool-cases (req.applies extra)) [
        | inl holds ↦
            elim (Member-append_cases q (targets lower req) (wanted lower extra reqs) (
              subst
                (λ b. Member q (
                  if b
                  then targets lower req ++ wanted lower extra reqs
                  else wanted lower extra reqs))
                holds m)) [
                  | inl here ↦ Member-append_left q (targets lower req) (mentioned reqs) here
                  | inr there ↦
                      Member-append_right q (targets lower req) (mentioned reqs) (later there)
                ]
        | inr fails ↦ Member-append_right q (targets lower req) (mentioned reqs) (
            later (
              subst
                (λ b. Member q (
                  if b
                  then targets lower req ++ wanted lower extra reqs
                  else wanted lower extra reqs))
                fails m))
      ]

  get-mentioned :
      (dists : Dict Distribution) (name : Text) (d : Distribution) (q : Node)
      → Dict.get dists name ≡ some d
      → Member q (mentioned d.requires)
      → Member q (mentioned_in dists)
  unfolding Dict.get mentioned_in
  get-mentioned [] name d q e m = ground (arith, e)
  get-mentioned ((j, d') ∷ dists) name d q e m = elim (Bool-cases (text_eq j name)) [
    | inl same ↦ Member-append_left q (mentioned d'.requires) _ (
        subst (λ x. Member q (mentioned x.requires))
          (sym (
            some-injective _ _
              (subst (λ b. (if b then some d' else Dict.get dists name) ≡ some d) same e)))
          m)
    | inr other ↦ Member-append_right q (mentioned d'.requires) (mentioned_in dists) (
        get-mentioned dists name d q
          (subst (λ b. (if b then some d' else Dict.get dists name) ≡ some d) other e) m)
  ]

  module _ (dists : Dict Distribution) where
    -- How many names a node pushes when it is visited first.
    abbrev pushed : Option Distribution → Node → ℕ
    pushed none p = 0
    pushed (some d) p = length (wanted lower p.1 d.requires)

    abbrev cost : Node → ℕ
    cost p = pushed (Dict.get dists p.0) p

    -- What the nodes of the list that are not yet seen will push.
    unfoldable pub pending : List Node → List Node → ℕ
    pending seen [] = 0
    pending seen (u ∷ us) =
        let rest = pending seen us in if is_in u seen then rest else cost u + rest

    pending_le : (p : Node) (seen us : List Node) → pending (p ∷ seen) us ≤ pending seen us
    unfolding pending is_in
    pending_le p seen [] = omega arith
    pending_le p seen (u ∷ us) = grind (arith, pending_le p seen us)

    pending_drop :
        (p : Node) (seen us : List Node)
        → is_in p seen ≡ false
        → Member p us
        → cost p + pending (p ∷ seen) us ≤ pending seen us
    unfolding pending is_in
    pending_drop p seen [] new m = absurd m
    pending_drop p seen (u ∷ us) new (inl same) =
        let seen_now : is_in u (p ∷ seen) ≡ true = (is_in_iff u (p ∷ seen)).1 (inl (sym same)) in
        let not_before : is_in u seen ≡ false = ap (λ x. is_in x seen) (sym same) ∙ new in
        let same_cost : cost p ≡ cost u = ap cost same in
        rw seen_now (rw not_before (let le = pending_le p seen us in omega arith))
    pending_drop p seen (u ∷ us) new (inr m) =
        let later = pending_drop p seen us new m in grind arith

    module _ (universe : List Node)
        (closed : (q : Node) → Member q (mentioned_in dists) → Member q universe) where
      Inside : List Node → Type 0
      Inside todo = (q : Node) → Member q todo → Member q universe

      expand_less :
          (o : Option Distribution) (p : Node) (todo : List Node) (s : Search)
          → Dict.get dists p.0 ≡ o
          → is_in p s.seen ≡ false
          → Inside (p ∷ todo)
          → let t = expand lower dists o p (record s { todo = todo; seen = p ∷ s.seen }) in
            Inside t.todo
            × (length t.todo + pending t.seen universe ≤ length todo + pending s.seen universe)
      unfolding expand Inside
      expand_less none p todo s e new inside =
          (λ q m. inside q (inr m), (let le = pending_le p s.seen universe in omega arith))
      expand_less (some d) p todo s e new inside =
          let reqs = wanted lower p.1 d.requires in
          let drop = pending_drop p s.seen universe new (inside p (inl refl)) in
          let its_cost : cost p ≡ length reqs = ap (λ o. pushed o p) e in
          (
            λ q m. elim ((Member-push_all q reqs todo).0 m) [
              | inl fresh ↦
                  closed q (get-mentioned dists p.0 d q e (wanted-mentioned q p.1 d.requires fresh))
              | inr old ↦ inside q (inr old)
            ],
            (let len = length-push_all reqs todo in omega arith),
          )

      visit_less :
          (b : Bool) (p : Node) (todo : List Node) (s : Search)
          → is_in p s.seen ≡ b
          → Inside (p ∷ todo)
          → let t = visit lower dists b p (record s { todo = todo }) in
            Inside t.todo
            × (length t.todo + pending t.seen universe ≤ length todo + pending s.seen universe)
      unfolding visit Inside
      visit_less true p todo s e inside = (λ q m. inside q (inr m), omega arith)
      visit_less false p todo s e inside = expand_less (Dict.get dists p.0) p todo s refl e inside

      search_ends :
          (fuel : ℕ) (todo : List Node) (s : Search)
          → Inside todo
          → length todo + pending s.seen universe ≤ fuel
          → search_from lower dists fuel todo s ≢ none
      unfolding search_from
      search_ends fuel [] s inside enough = ground arith
      search_ends zero (p ∷ todo) s inside enough = omega arith
      search_ends (suc fuel) (p ∷ todo) s inside enough =
          let less = visit_less (is_in p s.seen) p todo s refl inside in
          search_ends fuel _ _ less.0 (omega (less.1, enough, arith))

-- A bound for the rounds of `closure`: one for each root, and one for each requirement of each
-- node that a root or a requirement names.
unfoldable pub enough_rounds : (Text → Text) → List Text → List Distribution → ℕ
unfolding pending mentioned_in
enough_rounds lower roots installed =
    let dists = (collect lower [] installed).0 in
    let todo = (start lower roots).todo in
    length todo + pending lower dists [] (todo ++ mentioned_in lower dists)

-- The closure gate ends within as many rounds as there are names that the roots and the
-- requirements of the installed distributions can push.
pub closure-ends :
    (lower : Text → Text) (fuel : ℕ) (roots : List Text) (installed : List Distribution)
    → enough_rounds lower roots installed ≤ fuel
    → closure lower fuel roots installed ≢ none
unfolding closure report enough_rounds Inside
closure-ends lower fuel roots installed enough =
    let dists = (collect lower [] installed).0 in
    let todo = (start lower roots).todo in
    let found =
      search_ends lower dists (todo ++ mentioned_in lower dists)
        (λ q m. Member-append_right q todo _ m) fuel todo (start lower roots)
        (λ q m. Member-append_left q todo _ m) enough in
    elim (Option-cases (search_from lower dists fuel todo (start lower roots))) [
      | inl ran_out ↦ absurd (found ran_out)
      | inr done ↦ rw (done.1, closure) (ground arith)
    ]
