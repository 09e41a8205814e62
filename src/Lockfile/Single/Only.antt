-- ===== src/Lockfile/Single/Only.antt =====
-- What it means that `cmd_lint` and `cmd_only` have nothing to complain about.
use linuxmuster_radius.Prelude.{
  ◌≡◌, ◌↔◌, refl, sym, ap, subst, ◌∙◌, Bool, true, false, Option, none, some, List, [], ◌∷◌, ◌++◌,
  Text, text_eq_iff, arith, map, if◌then◌else◌, All,
}
use mathlib.Core.Option.{some-injective}
use linuxmuster_radius.Lockfile.{Pin, Complaint, not_the_one_pin, not_the_input, parse}
use linuxmuster_radius.Lockfile.Names.{append_nil}
use linuxmuster_radius.Lockfile.Closure.{canonical}
use linuxmuster_radius.Lockfile.Single.{
  texts_eq, input_requirements, pin_text, input_errors, only, lint,
}

lint_iff : (locks : List Text) → (lint locks ≡ []) ↔ All (λ lock. (parse lock).1 ≡ []) locks
unfolding lint
lint_iff [] = ground arith
lint_iff (lock ∷ locks) = ground (arith, append_nil (parse lock).1 (lint locks), lint_iff locks)

texts_eq_iff : (ss ts : List Text) → (texts_eq ss ts ≡ true) ↔ (ss ≡ ts)
texts_eq_iff [] [] = ground arith
texts_eq_iff [] (t ∷ ts) = ground arith
texts_eq_iff (s ∷ ss) [] = ground arith
texts_eq_iff (s ∷ ss) (t ∷ ts) = ground (arith, text_eq_iff s t, texts_eq_iff ss ts)

unless_nil : (b : Bool) (e : Complaint) → ((if b then [] else e ∷ []) ≡ []) ↔ (b ≡ true)
unless_nil true e = ground arith
unless_nil false e = ground arith

-- The input, where it is given, asks for exactly the pin.
abbrev pub Asks : Option Text → Text → Text → Type 0
Asks input name version =
    (text : Text) → input ≡ some text → input_requirements text ≡ pin_text name version ∷ []

input_errors_iff :
    (name : Text) (input : Option Text) (p : Pin)
    → (input_errors name input (p ∷ []) ≡ []) ↔ Asks input name p.version
unfolding input_errors
input_errors_iff name none p = (λ e text h. ground (arith, h), λ h. refl)
input_errors_iff name (some text) p =
    let same = texts_eq_iff (input_requirements text) (pin_text name p.version ∷ []) in
    let quiet =
      unless_nil (texts_eq (input_requirements text) (pin_text name p.version ∷ []))
        not_the_input in
    (
      λ e t h.
          subst (λ t. input_requirements t ≡ pin_text name p.version ∷ []) (some-injective _ _ h)
            (same.0 (quiet.0 e)),
      λ asks. quiet.1 (same.1 (asks text refl)),
    )

one_pin :
    (ps : List Pin) (name : Text)
    → map (λ p. p.name) ps ≡ name ∷ []
    → (p : Pin) × (ps ≡ p ∷ []) × (p.name ≡ name)
one_pin [] name e = ground (arith, e)
one_pin (p ∷ []) name e = (p, refl, ground (arith, e))
one_pin (p ∷ q ∷ ps) name e = ground (arith, e)

only_iff :
    (lower : Text → Text) (name lock : Text) (input : Option Text)
    → (only lower name lock input ≡ []) ↔ (
        (p : Pin) × (parse lock ≡ (p ∷ [], []))
        × (p.name ≡ canonical lower name)
        × Asks input p.name p.version)
unfolding only
only_iff lower name lock input =
    let (ps, errs) = parse lock in
    let wanted = canonical lower name in
    let eq = texts_eq_iff (map (λ p. p.name) ps) (wanted ∷ []) in
    let test = texts_eq (map (λ p. p.name) ps) (wanted ∷ []) in
    let quiet = unless_nil test not_the_one_pin in
    let outer =
      append_nil (errs ++ (if test then [] else not_the_one_pin ∷ []))
        (input_errors wanted input ps) in
    let inner = append_nil errs (if test then [] else not_the_one_pin ∷ []) in
    (
      λ e.
          let (e12, e3) = outer.0 e in
          let (e1, e2) = inner.0 e12 in
          let (p, is_one, named) = one_pin ps wanted (eq.0 (quiet.0 e2)) in
          (
            p,
            ap (λ qs. (qs, errs)) is_one ∙ ap (λ es. (p ∷ [], es)) e1,
            named,
            subst (λ n. Asks input n p.version) (sym named)
                ((input_errors_iff wanted input p).0
                  (subst (λ qs. input_errors wanted input qs ≡ []) is_one e3)),
          ),
      λ (p, parsed, named, asks).
          let is_one = ap (λ r. r.0) parsed in
          outer.1 (
            inner.1 (
              ap (λ r. r.1) parsed,
              quiet.1 (eq.1 (ap (λ qs. map (λ q. q.name) qs) is_one ∙ ap (λ n. n ∷ []) named)),
            ),
            subst (λ qs. input_errors wanted input qs ≡ []) (sym is_one)
                ((input_errors_iff wanted input p).1
                  (subst (λ n. Asks input n p.version) named asks)),
          ),
    )
