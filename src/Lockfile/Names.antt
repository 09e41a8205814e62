-- ===== src/Lockfile/Names.antt =====
-- Lists of project names, as the commands sort and compare them: when there is nothing to report.
use linuxmuster_radius.Prelude.{
  ◌≡◌, ◌≢◌, ◌⊎◌, ◌↔◌, inl, inr, refl, ap, ◌∙◌, Bool, false, List, [], ◌∷◌, ◌++◌, Text, text_le,
  text_eq_iff, arith, Bool-cases, map, if◌then◌else◌,
}
use linuxmuster_radius.Dict
use linuxmuster_radius.Dict.{Dict}
use linuxmuster_radius.Store.Files.{sorted, insert_sorted}
use linuxmuster_radius.Lockfile.{none, Complaint}

unfoldable pub select : (Text → Bool) → List Text → List Text
select test [] = []
select test (name ∷ names) = let rest = select test names in if test name then name ∷ rest else rest

abbrev pub Among : Text → List Text → Type 0
Among t [] = ⊥
Among t (u ∷ us) = (t ≡ u) ⊎ Among t us

abbrev pub AllDifferent : List Text → Type 0
AllDifferent [] = Unit {0}
AllDifferent (t ∷ ts) = (¬ Among t ts) × AllDifferent ts

map-insert_sorted_ne_nil :
    (f : Text → Complaint) (t : Text) (ts : List Text) → map f (insert_sorted t ts) ≢ []
unfolding insert_sorted
map-insert_sorted_ne_nil f t [] = ground arith
map-insert_sorted_ne_nil f t (u ∷ us) = elim (Bool-cases (text_le t u)) [
  | inl le ↦ rw le (ground arith)
  | inr gt ↦ rw gt (ground arith)
]

-- Nothing is sorted to nothing, and nothing else is.
pub map-sorted_nil : (f : Text → Complaint) (ts : List Text) → (map f (sorted ts) ≡ []) ↔ (ts ≡ [])
unfolding sorted
map-sorted_nil f [] = ground arith
map-sorted_nil f (t ∷ ts) = (λ e. absurd (map-insert_sorted_ne_nil f t (sorted ts) e), ground arith)

pub append_nil : (xs ys : List Complaint) → (xs ++ ys ≡ []) ↔ ((xs ≡ []) × (ys ≡ []))
append_nil [] ys = ground arith
append_nil (x ∷ xs) ys = ground arith

pub Among-keys :
    {V : Type 0} (dists : Dict V) (name : Text)
    → (Dict.get dists name ≢ none) ↔ Among name (Dict.keys dists)
unfolding Dict.get Dict.keys
Among-keys [] name = ground arith
Among-keys ((j, d) ∷ dists) name = ground (arith, text_eq_iff j name, Among-keys dists name)

pub select_nil :
    (test : Text → Bool) (names : List Text)
    → (select test names ≡ []) ↔ ((name : Text) → Among name names → test name ≡ false)
unfolding select
select_nil test [] = ground arith
select_nil test (name ∷ names) =
    let later = select_nil test names in
    elim (Bool-cases (test name)) [
      | inl here ↦ rw here (ground arith, λ k. ground (arith, k name (inl refl), here))
      | inr not_here ↦ rw not_here (
        λ e t m. elim m [ inl same ↦ ap test same ∙ not_here | inr r ↦ later.0 e t r ],
        λ k. later.1 (λ t m. k t (inr m)),
      )
    ]
