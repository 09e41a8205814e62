-- ===== src/Lockfile/Closure/Reaching.antt =====
-- The search of the closure gate: where it ends, it has seen exactly what the roots require.
use linuxmuster_radius.Prelude.{
  ℕ, zero, suc, ◌≡◌, ◌⊎◌, ◌↔◌, inl, inr, refl, sym, ap, subst, ◌∙◌, Bool, true, false, Option, none,
  some, List, [], ◌∷◌, ◌++◌, Text, text_eq_iff, arith,
}
use mathlib.Core.Option.{some-injective}
use linuxmuster_radius.Dict
use linuxmuster_radius.Dict.{Dict}
use linuxmuster_radius.Lockfile.{Complaint, required_missing}
use linuxmuster_radius.Lockfile.Closure.{
  Distribution, Node, node_eq, is_in, push_all, Search, wanted, expand, visit, search_from,
}

abbrev pub Member : Node → List Node → Type 0
Member p [] = ⊥
Member p (q ∷ qs) = (p ≡ q) ⊎ Member p qs

pub node_eq_iff : (p q : Node) → (node_eq p q ≡ true) ↔ (p ≡ q)
node_eq_iff (a, x) (b, y) = (
  λ h.
      ap (λ c. (c, x)) ((text_eq_iff a b).0 (ground arith))
      ∙ ap (λ z. (b, z)) ((text_eq_iff x y).0 (ground arith)),
  λ e. ground (arith, (text_eq_iff a b).1 (ap (λ r. r.0) e), (text_eq_iff x y).1 (ap (λ r. r.1) e)),
)

pub is_in_iff : (p : Node) (ps : List Node) → (is_in p ps ≡ true) ↔ Member p ps
unfolding is_in
is_in_iff p [] = ground arith
is_in_iff p (q ∷ qs) = ground (arith, node_eq_iff p q, is_in_iff p qs)

pub Member-push_all :
    (p : Node) (xs ys : List Node) → Member p (push_all xs ys) ↔ (Member p xs ⊎ Member p ys)
unfolding push_all
Member-push_all p [] ys = ground arith
Member-push_all p (x ∷ xs) ys = ground (arith, Member-push_all p xs (x ∷ ys))

append_cons_ne_nil : (es : List Complaint) (e : Complaint) → es ++ e ∷ [] ≡ [] → ⊥
append_cons_ne_nil [] e h = ground (arith, h)
append_cons_ne_nil (x ∷ es) e h = ground (arith, h)

module _ (lower : Text → Text) (dists : Dict Distribution) (roots : List Node) where
  -- What the roots require, directly or through others.
  pub data Reached : Node → Type 0 where
    root : {p : Node} → Member p roots → Reached p
    step :
        {p q : Node} (d : Distribution)
        → Reached p
        → Dict.get dists p.0 ≡ some d
        → Member q (wanted lower p.1 d.requires)
        → Reached q

  -- What holds between two rounds.
  record Inv (todo : List Node) (s : Search) : Type 0 where
    todo_sound : (p : Node) → Member p todo → Reached p
    seen_sound : (p : Node) → Member p s.seen → Reached p
    roots_in : (p : Node) → Member p roots → Member p s.seen ⊎ Member p todo
    steps_in :
        (p q : Node) (d : Distribution)
        → Member p s.seen
        → Dict.get dists p.0 ≡ some d
        → Member q (wanted lower p.1 d.requires)
        → Member q s.seen ⊎ Member q todo
    missing : (p : Node) → Member p s.seen → Dict.get dists p.0 ≡ none → ¬ (s.errors ≡ [])
    silent : ((p : Node) → Member p s.seen → ¬ (Dict.get dists p.0 ≡ none)) → s.errors ≡ []

  skipped :
      (p : Node) (todo : List Node) (s : Search) → Member p s.seen → Inv (p ∷ todo) s → Inv todo s
  skipped p todo s m h = record {
    todo_sound = λ q n. h.todo_sound q (inr n);
    seen_sound = h.seen_sound;
    roots_in = λ q n. ground (arith, h.roots_in q n, m);
    steps_in = λ q r d n e w. ground (arith, h.steps_in q r d n e w, m);
    missing = h.missing;
    silent = h.silent;
  }

  expanded_none :
      (p : Node) (todo : List Node) (s : Search)
      → Dict.get dists p.0 ≡ none
      → Inv (p ∷ todo) s
      → Inv todo (record s {
        todo = todo;
        seen = p ∷ s.seen;
        errors = s.errors ++ required_missing p.0 ∷ [];
      })
  expanded_none p todo s e h = record {
    todo_sound = λ q n. h.todo_sound q (inr n);
    seen_sound =
        λ q n. elim n [ inl same ↦ h.todo_sound q (inl same) | inr old ↦ h.seen_sound q old ];
    roots_in = λ q n. ground (arith, h.roots_in q n);
    steps_in = λ q r d n e' w. elim n [
      | inl same ↦ ground (arith, ap (λ x. Dict.get dists x.0) same, e, e')
      | inr old ↦ ground (arith, h.steps_in q r d old e' w)
    ];
    missing = λ q n e'. append_cons_ne_nil s.errors (required_missing p.0);
    silent = λ k. absurd (k p (inl refl) e);
  }

  expanded_some :
      (p : Node) (d : Distribution) (todo : List Node) (s : Search)
      → Dict.get dists p.0 ≡ some d
      → Inv (p ∷ todo) s
      → Inv
          (push_all (wanted lower p.1 d.requires) todo)
          (record s { todo = push_all (wanted lower p.1 d.requires) todo; seen = p ∷ s.seen })
  expanded_some p d todo s e h = record {
    todo_sound = λ q n. elim ((Member-push_all q _ todo).0 n) [
      | inl new ↦ step d (h.todo_sound p (inl refl)) e new
      | inr old ↦ h.todo_sound q (inr old)
    ];
    seen_sound =
        λ q n. elim n [ inl same ↦ h.todo_sound q (inl same) | inr old ↦ h.seen_sound q old ];
    roots_in =
        λ q n. ground (arith, h.roots_in q n, Member-push_all q (wanted lower p.1 d.requires) todo);
    steps_in = λ q r d' n e' w. elim n [
      | inl same ↦
          let agree = some-injective _ _ (sym e' ∙ (ap (λ x. Dict.get dists x.0) same ∙ e)) in
          inr (
            (Member-push_all r (wanted lower p.1 d.requires) todo).1 (
              inl (
                subst (λ x. Member r (wanted lower p.1 x.requires)) agree
                  (subst (λ x. Member r (wanted lower x.1 d'.requires)) same w))))
      | inr old ↦
          ground (
            arith,
            h.steps_in q r d' old e' w,
            Member-push_all r (wanted lower p.1 d.requires) todo,
          )
    ];
    missing = λ q n e'. elim n [
      | inl same ↦ ground (arith, ap (λ x. Dict.get dists x.0) same, e, e')
      | inr old ↦ h.missing q old e'
    ];
    silent = λ k. h.silent (λ q n. k q (inr n));
  }

  expand-Inv :
      (o : Option Distribution) (p : Node) (todo : List Node) (s : Search)
      → Dict.get dists p.0 ≡ o
      → Inv (p ∷ todo) s
      → let t = expand lower dists o p (record s { todo = todo; seen = p ∷ s.seen }) in Inv t.todo t
  unfolding expand
  expand-Inv none p todo s e h = expanded_none p todo s e h
  expand-Inv (some d) p todo s e h = expanded_some p d todo s e h

  visit-Inv :
      (b : Bool) (p : Node) (todo : List Node) (s : Search)
      → is_in p s.seen ≡ b
      → Inv (p ∷ todo) s
      → let t = visit lower dists b p (record s { todo = todo }) in Inv t.todo t
  unfolding visit
  visit-Inv true p todo s e h =
      let kept = skipped p todo s ((is_in_iff p s.seen).0 e) h in
      record {
        todo_sound = kept.todo_sound;
        seen_sound = kept.seen_sound;
        roots_in = kept.roots_in;
        steps_in = kept.steps_in;
        missing = kept.missing;
        silent = kept.silent;
      }
  visit-Inv false p todo s e h = expand-Inv (Dict.get dists p.0) p todo s refl h

  search-Inv :
      (fuel : ℕ) (todo : List Node) (s t : Search)
      → Inv todo s
      → search_from lower dists fuel todo s ≡ some t
      → Inv [] t
  unfolding search_from
  search-Inv fuel [] s t h e = subst (Inv []) (some-injective _ _ e) h
  search-Inv zero (p ∷ todo) s t h e = ground (arith, e)
  search-Inv (suc fuel) (p ∷ todo) s t h e =
      let s' = visit lower dists (is_in p s.seen) p (record s { todo = todo }) in
      search-Inv fuel s'.todo s' t (visit-Inv (is_in p s.seen) p todo s refl h) e

  starting :
      (todo : List Node) (s : Search)
      → ((p : Node) → Member p todo ↔ Member p roots)
      → s.seen ≡ []
      → s.errors ≡ []
      → Inv todo s
  starting todo s same fresh quiet =
      let none_seen : (p : Node) → ¬ Member p s.seen = λ p m. subst (Member p) fresh m in
      record {
        todo_sound = λ p m. root ((same p).0 m);
        seen_sound = λ p m. absurd (none_seen p m);
        roots_in = λ p m. inr ((same p).1 m);
        steps_in = λ p q d m e w. absurd (none_seen p m);
        missing = λ p m e. absurd (none_seen p m);
        silent = λ k. quiet;
      }

  ended : (t : Search) (p : Node) → Inv [] t → Reached p → Member p t.seen
  ended t p h (root m) = elim (h.roots_in p m) [ inl x ↦ x | inr x ↦ absurd x ]
  ended t p h (step {p = u} {q = v} d r e w) = elim (h.steps_in u v d (ended t u h r) e w) [
    | inl x ↦ x
    | inr x ↦ absurd x
  ]

  -- A search that ends has seen exactly what the roots require, and has complained exactly if
  -- some of that is not installed.
  pub search_lem :
      (fuel : ℕ) (todo : List Node) (s t : Search)
      → ((p : Node) → Member p todo ↔ Member p roots)
      → s.seen ≡ []
      → s.errors ≡ []
      → search_from lower dists fuel todo s ≡ some t
      → ((p : Node) → Member p t.seen ↔ Reached p)
        × ((t.errors ≡ []) ↔ ((p : Node) → Reached p → ¬ (Dict.get dists p.0 ≡ none)))
  search_lem fuel todo s t same fresh quiet e =
      let h = search-Inv fuel todo s t (starting todo s same fresh quiet) e in
      let seen : (p : Node) → Member p t.seen ↔ Reached p = λ p. (h.seen_sound p, ended t p h) in
      (
        seen,
        (
          λ none_missing p r absent. h.missing p ((seen p).1 r) absent none_missing,
          λ all_there. h.silent (λ p m. all_there p ((seen p).0 m)),
        ),
      )
