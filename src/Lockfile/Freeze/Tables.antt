-- ===== src/Lockfile/Freeze/Tables.antt =====
-- The dictionaries that `cmd_freeze` fills and empties, where it has nothing to complain about.
use linuxmuster_radius.Prelude.{
  ◌≡◌, ◌≢◌, ◌⊎◌, ◌↔◌, inl, inr, refl, sym, ap, subst, ◌∙◌, Option, none, some, List, [], ◌∷◌, Text,
  text_eq, text_eq_iff, arith, Bool-cases, map,
}
use linuxmuster_radius.Dict
use linuxmuster_radius.Dict.{Dict}
use linuxmuster_radius.Lockfile.{Complaint}
use linuxmuster_radius.Lockfile.Names.{Among, AllDifferent}
use linuxmuster_radius.Lockfile.Freeze.{Entry, table, pop_all, complain_known, complain_unknown}

-- The list has an entry for the name, with the version.
abbrev pub Lists : List Entry → Text → Text → Type 0
Lists [] k v = ⊥
Lists (e ∷ es) k v = ((e.name ≡ k) × (e.version ≡ v)) ⊎ Lists es k v

abbrev pub names : List Entry → List Text
names es = map (λ e. e.name) es

pub known_nil :
    (o : Option Text) (c : Complaint) (errors : List Complaint)
    → (complain_known o c errors ≡ []) ↔ ((o ≡ none) × (errors ≡ []))
unfolding complain_known
known_nil none c errors = ground arith
known_nil (some v) c errors = ground arith

unknown_nil :
    (o : Option Text) (c : Complaint) (errors : List Complaint)
    → (complain_unknown o c errors ≡ []) ↔ ((o ≢ none) × (errors ≡ []))
unfolding complain_unknown
unknown_nil none c errors = ground arith
unknown_nil (some v) c errors = ground arith

put-none :
    (d : Dict Text) (k v t : Text)
    → (Dict.get (Dict.put d k v) t ≡ none) ↔ ((t ≢ k) × (Dict.get d t ≡ none))
put-none d k v t = ground (arith, Dict.get-put d k t v, text_eq_iff k t)

remove-none :
    (d : Dict Text) (k t : Text)
    → (Dict.get (Dict.remove d k) t ≢ none) ↔ ((t ≢ k) × (Dict.get d t ≢ none))
remove-none d k t = ground (arith, Dict.get-remove d k t, text_eq_iff k t)

put-some :
    (d : Dict Text) (k w t v : Text)
    → Dict.get d k ≡ none
    → (Dict.get (Dict.put d k w) t ≡ some v) ↔ ((Dict.get d t ≡ some v) ⊎ ((k ≡ t) × (w ≡ v)))
put-some d k w t v fresh = elim (Bool-cases (text_eq k t)) [
  | inl same ↦
      let same_key = (text_eq_iff k t).0 same in
      let absent : Dict.get d t ≡ none = ap (Dict.get d) (sym same_key) ∙ fresh in
      rw (Dict.get-put d k t w, same) (ground (arith, absent, same_key))
  | inr other ↦ ground (arith, Dict.get-put d k t w, text_eq_iff k t, other)
]

pub table_silent :
    (d : Dict Text) (es : List Entry)
    → ((table d es).1 ≡ [])
      ↔ (AllDifferent (names es) × ((k : Text) → Among k (names es) → Dict.get d k ≡ none))
unfolding table
table_silent d [] = ground arith
table_silent d (e ∷ es) =
    let later = table_silent (Dict.put d e.name e.version) es in
    let split_off =
      known_nil (Dict.get d e.name) e.twice (table (Dict.put d e.name e.version) es).1 in
    (
      λ silent.
          let (fresh, quiet) = split_off.0 silent in
          let (different, free) = later.0 quiet in
          (
            (λ m. ((put-none d e.name e.version e.name).0 (free e.name m)).0 refl, different),
            λ t m. elim m [
              | inl same ↦ ap (Dict.get d) same ∙ fresh
              | inr r ↦ ((put-none d e.name e.version t).0 (free t r)).1
            ],
          ),
      λ ((apart, different), free). split_off.1 (
        free e.name (inl refl),
        later.1 (
          different,
          λ t m.
              (put-none d e.name e.version t).1
                (λ same. apart (subst (λ u. Among u (names es)) same m), free t (inr m)),
        ),
      ),
    )

pub table-get :
    (d : Dict Text) (es : List Entry) (k v : Text)
    → (table d es).1 ≡ []
    → (Dict.get (table d es).0 k ≡ some v) ↔ ((Dict.get d k ≡ some v) ⊎ Lists es k v)
unfolding table
table-get d [] k v silent = ground arith
table-get d (e ∷ es) k v silent =
    let now = Dict.put d e.name e.version in
    let (fresh, quiet) = (known_nil (Dict.get d e.name) e.twice (table now es).1).0 silent in
    let later = table-get now es k v quiet in
    let here = put-some d e.name e.version k v fresh in ground (arith, later, here)

pub pop_all_silent :
    (c : Text → Complaint) (d : Dict Text) (ks : List Text)
    → ((pop_all c d ks).1 ≡ [])
      ↔ (AllDifferent ks × ((k : Text) → Among k ks → Dict.get d k ≢ none))
unfolding pop_all
pop_all_silent c d [] = ground arith
pop_all_silent c d (k ∷ ks) =
    let later = pop_all_silent c (Dict.remove d k) ks in
    let split_off = unknown_nil (Dict.get d k) (c k) (pop_all c (Dict.remove d k) ks).1 in
    (
      λ silent.
          let (there, quiet) = split_off.0 silent in
          let (different, known) = later.0 quiet in
          (
            (λ m. ((remove-none d k k).0 (known k m)).0 refl, different),
            λ t m. elim m [
              | inl same ↦ subst (λ u. Dict.get d u ≢ none) (sym same) there
              | inr r ↦ ((remove-none d k t).0 (known t r)).1
            ],
          ),
      λ ((apart, different), known). split_off.1 (
        known k (inl refl),
        later.1 (
          different,
          λ t m.
              (remove-none d k t).1
                (λ same. apart (subst (λ u. Among u ks) same m), known t (inr m)),
        ),
      ),
    )

pub pop_all-get :
    (c : Text → Complaint) (d : Dict Text) (ks : List Text) (k v : Text)
    → (Dict.get (pop_all c d ks).0 k ≡ some v) ↔ ((Dict.get d k ≡ some v) × (¬ Among k ks))
unfolding pop_all
pop_all-get c d [] k v = ground arith
pop_all-get c d (j ∷ js) k v =
    ground (arith, pop_all-get c (Dict.remove d j) js k v, Dict.get-remove d j k, text_eq_iff j k)
