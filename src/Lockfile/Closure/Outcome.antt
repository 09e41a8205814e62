-- ===== src/Lockfile/Closure/Outcome.antt =====
-- What it means that the closure gate has nothing to complain about.
use linuxmuster_radius.Prelude.{
  ℕ, ◌≤◌, ◌≡◌, ◌≢◌, ◌↔◌, inl, inr, refl, sym, ap, subst, ◌∙◌, true, not, none, some, List, [], ◌∷◌,
  ◌++◌, Text, text_eq, text_eq_iff, arith, Bool-cases, Option-cases, map,
}
use mathlib.Core.Option.{some-injective}
use linuxmuster_radius.Dict
use linuxmuster_radius.Dict.{Dict}
use linuxmuster_radius.Store.Files.{sorted}
use linuxmuster_radius.Lockfile.Names.{
  select, Among, AllDifferent, map-sorted_nil, append_nil, Among-keys, select_nil,
}
use linuxmuster_radius.Lockfile.{Complaint, not_required}
use linuxmuster_radius.Lockfile.Closure.{
  Distribution, Node, Search, search_from, root_nodes, collect, complain_twice, start, closure,
  report, is_reached, canonical,
}
use linuxmuster_radius.Lockfile.Closure.Reaching.{Member, Member-push_all, Reached, search_lem}
use linuxmuster_radius.Lockfile.Closure.Fuel.{enough_rounds, closure-ends}

is_reached_iff :
    (seen : List Node) (name : Text)
    → (is_reached seen name ≡ true) ↔ ((extra : Text) × Member (name, extra) seen)
is_reached_iff [] name = ground arith
is_reached_iff ((n, x) ∷ seen) name = (
  λ h. elim (Bool-cases (text_eq n name)) [
    | inl same ↦ (x, inl (ap (λ k. (k, x)) (sym ((text_eq_iff n name).0 same))))
    | inr other ↦ let r = (is_reached_iff seen name).0 (ground (arith, h, other)) in (r.0, inr r.1)
  ],
  λ (e, m). elim m [
    | inl same ↦ ground (arith, (text_eq_iff n name).1 (sym (ap (λ q. q.0) same)))
    | inr old ↦ ground (arith, (is_reached_iff seen name).1 (e, old))
  ],
)

module _ (lower : Text → Text) where
  put-none :
      (dists : Dict Distribution) (k t : Text) (d : Distribution)
      → (Dict.get (Dict.put dists k d) t ≡ none) ↔ ((t ≢ k) × (Dict.get dists t ≡ none))
  put-none dists k t d = ground (arith, Dict.get-put dists k t d, text_eq_iff k t)

  collect_silent :
      (dists : Dict Distribution) (ds : List Distribution)
      → ((collect lower dists ds).1 ≡ []) ↔ (
          AllDifferent (map (λ d. canonical lower d.name) ds)
          × ((name : Text)
              → Among name (map (λ d. canonical lower d.name) ds)
              → Dict.get dists name ≡ none))
  unfolding collect complain_twice
  collect_silent dists [] = ground arith
  collect_silent dists (d ∷ ds) =
      let name = canonical lower d.name in
      let names = map (λ d. canonical lower d.name) ds in
      let later = collect_silent (Dict.put dists name d) ds in
      elim (Option-cases (Dict.get dists name)) [
        | inl fresh ↦
            rw (fresh, collect)
              (
                λ e. (
                  (
                    λ m. ((put-none dists name name d).0 ((later.0 e).1 name m)).0 refl,
                    (later.0 e).0,
                  ),
                  λ t m. elim m [
                    | inl same ↦ ap (Dict.get dists) same ∙ fresh
                    | inr r ↦ ((put-none dists name t d).0 ((later.0 e).1 t r)).1
                  ],
                ),
                λ ((apart, different), free). later.1 (
                  different,
                  λ t m.
                      (put-none dists name t d).1
                        (λ same. apart (subst (λ u. Among u names) same m), free t (inr m)),
                ),
              )
        | inr taken ↦
            rw (taken.1, collect)
              (ground arith, λ (_, free). ground (arith, free name (inl refl), taken.1))
      ]

report_silent :
    (lower : Text → Text) (dists : Dict Distribution) (errors : List Complaint) (s : Search)
    → (report lower dists errors (some s) ≡ some []) ↔ (
        (errors ≡ [])
        × (s.errors ≡ [])
        × ((name : Text)
            → Dict.get dists name ≢ none
            → (extra : Text) × Member (name, extra) s.seen))
unfolding report
report_silent lower dists errors s =
    let extra = select (λ name. not (is_reached s.seen name)) (Dict.keys dists) in
    let tail = map not_required (sorted extra) in
    (
      λ e.
          let parts = (append_nil (errors ++ s.errors) tail).0 (some-injective _ _ e) in
          let first = (append_nil errors s.errors).0 parts.0 in
          let reached =
            (select_nil (λ name. not (is_reached s.seen name)) (Dict.keys dists)).0
              ((map-sorted_nil not_required extra).0 parts.1) in
          (
            first.0,
            first.1,
            λ name known.
                (is_reached_iff s.seen name).0
                  (ground (arith, reached name ((Among-keys dists name).0 known))),
          ),
      λ (silent, quiet, reached). ap some (
          (append_nil (errors ++ s.errors) tail).1 (
            (append_nil errors s.errors).1 (silent, quiet),
            (map-sorted_nil not_required extra).1 (
                (select_nil (λ name. not (is_reached s.seen name)) (Dict.keys dists)).1 (λ name m.
                  ground (
                    arith,
                    (is_reached_iff s.seen name).1 (reached name ((Among-keys dists name).1 m)),
                  ))),
          )),
    )

module _ (lower : Text → Text) (roots : List Text) (installed : List Distribution) where
  -- Every installed distribution is there once, all that the roots require is installed, and
  -- nothing else is.
  abbrev pub IsClosed : Type 0
  IsClosed =
      let dists = (collect lower [] installed).0 in
      AllDifferent (map (λ d. canonical lower d.name) installed)
      × ((p : Node) → Reached lower dists (root_nodes lower roots) p → Dict.get dists p.0 ≢ none)
      × ((name : Text)
          → Dict.get dists name ≢ none
          → (extra : Text) × Reached lower dists (root_nodes lower roots) (name, extra))

  -- With enough rounds, the closure gate has nothing to complain about exactly if no distribution
  -- is installed twice, everything that the roots require, directly or through others, is
  -- installed, and every installed distribution is required.
  pub closure_iff :
      (fuel : ℕ)
      → enough_rounds lower roots installed ≤ fuel
      → (closure lower fuel roots installed ≡ some []) ↔ IsClosed
  unfolding closure Dict.get
  closure_iff fuel enough =
      let dists = (collect lower [] installed).0 in
      let todo = (start lower roots).todo in
      elim (Option-cases (search_from lower dists fuel todo (start lower roots))) [
        | inl ran_out ↦
            absurd (closure-ends lower fuel roots installed enough (rw (ran_out, closure) refl))
        | inr done ↦
            rw (done.1, closure)
              (let silent = report_silent lower dists (collect lower [] installed).1 done.0 in
                let once = collect_silent lower [] installed in
                let found =
                  search_lem lower dists (root_nodes lower roots) fuel todo (start lower roots)
                    done.0 (λ p. ground (arith, Member-push_all p (root_nodes lower roots) [])) refl
                    refl done.1 in
                (
                  λ e.
                      let (no_twice, no_missing, all_seen) = silent.0 e in
                      (
                        (once.0 no_twice).0,
                        found.1.0 no_missing,
                        λ name known.
                            let (extra, m) = all_seen name known in
                            (extra, (found.0 (name, extra)).0 m),
                      ),
                  λ (different, there, required). silent.1 (
                    once.1 (different, λ name m. refl),
                    found.1.1 there,
                    λ name known.
                        let (extra, r) = required name known in
                        (extra, (found.0 (name, extra)).1 r),
                  ),
                ))
      ]
