-- ===== src/Prelude/StringLaws.antt =====
-- Facts on texts that the components share: characters that do not occur, and last characters.
use linuxmuster_radius.Prelude.{
  length, drop, take, partition, split, ◌||◌, last, ℕ, Bool, true, false, ◌≡◌, refl, sym, ap, ◌∙◌,
  [], ◌∷◌, ◌++◌, Text, all, has, text_eq, text_eq_iff, starts_with, contains, arith, Bool-cases,
  inl, inr, ◌==◌, ==_iff, and-left,
}
use mathlib.Core.List.{append_cancel_right}

-- A character outside the class of all characters of a text does not stand in it.
pub has-eq-false :
    (p : ℕ → Bool) (c : ℕ) (s : Text) → p c ≡ false → all p s ≡ true → has c s ≡ false
has-eq-false p c [] h a = refl
has-eq-false p c (x ∷ s) h a = elim (Bool-cases (x == c)) [
  | inl e ↦ cc ((==_iff x c).0 e, and-left (p x) _ a)
  | inr e ↦ rw e (has-eq-false p c s h (ground arith))
]

-- A text does not contain another that begins with a character which does not stand in it.
pub contains-eq-false : (c : ℕ) (t s : Text) → has c s ≡ false → contains s (c ∷ t) ≡ false
unfolding contains starts_with
contains-eq-false c t [] h = refl
contains-eq-false c t (x ∷ s) h = ground (arith, contains-eq-false c t s)

pub last-append : (d c : ℕ) (s u : Text) → last d (s ++ c ∷ u) ≡ last c u
unfolding last
last-append d c [] u = refl
last-append d c (x ∷ s) u = last-append x c s u

pub text_eq-append_right : (s t u : Text) → text_eq (s ++ u) (t ++ u) ≡ text_eq s t
text_eq-append_right s t u = elim (Bool-cases (text_eq s t)) [
  | inl e ↦ rw e ((text_eq_iff _ _).1 (ap (λ v. v ++ u) ((text_eq_iff s t).0 e)))
  | inr e ↦ elim (Bool-cases (text_eq (s ++ u) (t ++ u))) [
    | inl d ↦ cc ((text_eq_iff s t).1 (append_cancel_right s t u ((text_eq_iff _ _).0 d)))
    | inr d ↦ d ∙ sym e
  ]
]

-- Where a text is split at a character.
pub split_none : (c : ℕ) (s : Text) → has c s ≡ false → split c s ≡ s ∷ []
unfolding split
split_none c [] h = refl
split_none c (x ∷ s) h = elim (Bool-cases (x == c)) [
  | inl e ↦ ground (arith, e)
  | inr e ↦ rw (e, split_none c s (ground (arith, e, h))) refl
]

pub split-append : (c : ℕ) (s t : Text) → has c s ≡ false → split c (s ++ c ∷ t) ≡ s ∷ split c t
unfolding split
split-append c [] t h = ground arith
split-append c (x ∷ s) t h = elim (Bool-cases (x == c)) [
  | inl e ↦ ground (arith, e)
  | inr e ↦ rw (e, split-append c s t (ground (arith, e, h))) refl
]

pub partition-append : (c : ℕ) (u v : Text) → has c u ≡ false → partition c (u ++ c ∷ v) ≡ (u, v)
unfolding partition
partition-append c [] v h = ground arith
partition-append c (x ∷ u) v h = elim (Bool-cases (x == c)) [
  | inl e ↦ ground (arith, e)
  | inr e ↦ rw (e, partition-append c u v (ground (arith, e, h))) refl
]

pub has-append : (c : ℕ) (u v : Text) → has c (u ++ v) ≡ (has c u || has c v)
has-append c [] v = refl
has-append c (x ∷ u) v = ground (arith, has-append c u v)

pub take-append : (u v : Text) → take (length u) (u ++ v) ≡ u
unfolding take
take-append [] v = ground arith
take-append (x ∷ u) v = rw (take-append u v) refl

pub drop-append : (u v : Text) → drop (length u) (u ++ v) ≡ v
unfolding drop
drop-append [] v = refl
drop-append (x ∷ u) v = drop-append u v
