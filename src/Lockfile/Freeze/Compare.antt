-- ===== src/Lockfile/Freeze/Compare.antt =====
-- The comparison at the end of `cmd_freeze`: silent exactly when both dictionaries are the same.
use linuxmuster_radius.Prelude.{
  ◌≡◌, ◌≢◌, ◌↔◌, inl, inr, refl, sym, ap, ◌∙◌, false, not, Option, none, some, [], ◌++◌, Text,
  text_eq_iff, arith, Option-cases, map,
}
use mathlib.Core.Option.{some-injective}
use linuxmuster_radius.Dict
use linuxmuster_radius.Dict.{Dict}
use linuxmuster_radius.Store.Files.{sorted}
use linuxmuster_radius.Lockfile.{not_locked, not_installed, other_version}
use linuxmuster_radius.Lockfile.Names.{select, select_nil, append_nil, map-sorted_nil, Among-keys}
use linuxmuster_radius.Lockfile.Freeze.{is_key, versions_differ, compare}

-- The two have the same names, with the same versions.
abbrev pub SameKeys : Dict Text → Dict Text → Type 0
SameKeys want have = (k v : Text) → (Dict.get want k ≡ some v) ↔ (Dict.get have k ≡ some v)

is_key_iff : (d : Dict Text) (k : Text) → (not (is_key d k) ≡ false) ↔ (Dict.get d k ≢ none)
is_key_iff d k = elim (Option-cases (Dict.get d k)) [
  | inl no_key ↦ rw no_key (ground arith)
  | inr found ↦ rw found.1 (ground arith)
]

same_version :
    (o p : Option Text)
    → versions_differ o p ≡ false
    → (v : Text) → o ≡ some v
    → p ≢ none
    → p ≡ some v
same_version none p e v h there = ground (arith, h)
same_version (some u) none e v h there = absurd (there refl)
same_version (some u) (some w) e v h there =
    ap some (sym ((text_eq_iff u w).0 (ground (arith, e)))) ∙ h

not_differ :
    (o p : Option Text) → ((v : Text) → (o ≡ some v) ↔ (p ≡ some v)) → versions_differ o p ≡ false
not_differ none p h = refl
not_differ (some u) none h = refl
not_differ (some u) (some w) h =
    ground (arith, (text_eq_iff u w).1 (sym (some-injective _ _ ((h u).0 refl))))

pub is_some_iff : (o : Option Text) → (o ≢ none) ↔ ((v : Text) × (o ≡ some v))
is_some_iff none = (λ h. absurd (h refl), λ (v, e). ground (arith, e))
is_some_iff (some v) = (λ h. (v, refl), λ h. ground arith)

pub compare_silent : (want have : Dict Text) → (compare want have ≡ []) ↔ SameKeys want have
unfolding compare
compare_silent want have =
    let extra = select (λ k. not (is_key want k)) (Dict.keys have) in
    let lacking = select (λ k. not (is_key have k)) (Dict.keys want) in
    let other =
      select (λ k. versions_differ (Dict.get want k) (Dict.get have k)) (Dict.keys want) in
    let outer =
      append_nil (map not_locked (sorted extra) ++ map not_installed (sorted lacking))
        (map other_version (sorted other)) in
    let inner = append_nil (map not_locked (sorted extra)) (map not_installed (sorted lacking)) in
    let no_extra = select_nil (λ k. not (is_key want k)) (Dict.keys have) in
    let none_lacking = select_nil (λ k. not (is_key have k)) (Dict.keys want) in
    let none_other =
      select_nil (λ k. versions_differ (Dict.get want k) (Dict.get have k)) (Dict.keys want) in
    (
      λ silent.
          let (e12, e3) = outer.0 silent in
          let (e1, e2) = inner.0 e12 in
          let in_want : (k : Text) → Dict.get have k ≢ none → Dict.get want k ≢ none = λ k there.
            (is_key_iff want k).0 (
              no_extra.0 ((map-sorted_nil not_locked extra).0 e1) k
                ((Among-keys have k).0 there)) in
          let in_have : (k : Text) → Dict.get want k ≢ none → Dict.get have k ≢ none = λ k there.
            (is_key_iff have k).0 (
              none_lacking.0 ((map-sorted_nil not_installed lacking).0 e2) k
                ((Among-keys want k).0 there)) in
          let equal : (k v : Text) → Dict.get want k ≡ some v → Dict.get have k ≡ some v = λ k v h.
            let there = (is_some_iff (Dict.get want k)).1 (v, h) in
            same_version _ _
              (none_other.0 ((map-sorted_nil other_version other).0 e3) k
                ((Among-keys want k).0 there))
              v h (in_have k there) in
          λ k v. (
            equal k v,
            λ h.
                let (w, e) =
                  (is_some_iff (Dict.get want k)).0
                    (in_want k ((is_some_iff (Dict.get have k)).1 (v, h))) in
                e ∙ (sym (equal k w e) ∙ h),
          ),
      λ same. outer.1 (
        inner.1 (
          (map-sorted_nil not_locked extra).1 (
              no_extra.1 (λ k m. (is_key_iff want k).1 (
                let (v, e) = (is_some_iff (Dict.get have k)).0 ((Among-keys have k).1 m) in
                (is_some_iff (Dict.get want k)).1 (v, (same k v).1 e)))),
          (map-sorted_nil not_installed lacking).1 (
              none_lacking.1 (λ k m. (is_key_iff have k).1 (
                let (v, e) = (is_some_iff (Dict.get want k)).0 ((Among-keys want k).1 m) in
                (is_some_iff (Dict.get have k)).1 (v, (same k v).0 e)))),
        ),
        (map-sorted_nil other_version other).1 (none_other.1 (λ k m. not_differ _ _ (same k))),
      ),
    )
