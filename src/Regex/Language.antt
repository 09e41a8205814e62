-- ===== src/Regex/Language.antt =====
-- The language of a pattern, and the proof that the matcher decides it.
use linuxmuster_radius.Prelude.{
  ℕ, zero, suc, ◌≤◌, ◌≡◌, refl, ◌⊎◌, inl, inr, ◌↔◌, Bool, true, false, ap, sym, subst, [], ◌∷◌,
  ◌++◌, arith, Text, Bool-cases, if◌then◌else◌,
}
use linuxmuster_radius.Regex.{
  Regex, fail, eps, class, seq, alt, both, upto, star, nullable, then_re, or_re, deriv, fullmatch,
}

-- `s` is `k` texts of the language `L` in a row.
abbrev pub Rep : (Text → Type 0) → ℕ → Text → Type 0
Rep L zero s = s ≡ []
Rep L (suc k) s = (u : Text) × (v : Text) × (s ≡ u ++ v) × L u × Rep L k v

abbrev pub Matches : Regex → Text → Type 0
Matches fail s = ⊥
Matches eps s = s ≡ []
Matches (class p) s = (c : ℕ) × (s ≡ c ∷ []) × (p c ≡ true)
Matches (seq a b) s = (u : Text) × (v : Text) × (s ≡ u ++ v) × Matches a u × Matches b v
Matches (alt a b) s = Matches a s ⊎ Matches b s
Matches (both a b) s = Matches a s × Matches b s
Matches (upto n r) s = (k : ℕ) × (k ≤ n) × Rep (Matches r) k s
Matches (star r) s = (k : ℕ) × Rep (Matches r) k s

nullable_sound : (r : Regex) → nullable r ≡ true → Matches r []
unfolding nullable
nullable_sound fail h = cc
nullable_sound eps h = refl
nullable_sound (class p) h = cc
nullable_sound (seq a b) h =
    ([], [], refl, nullable_sound a (ground arith), nullable_sound b (ground arith))
nullable_sound (alt a b) h = elim (Bool-cases (nullable a)) [
  | inl e ↦ inl (nullable_sound a e)
  | inr e ↦ inr (nullable_sound b (ground arith))
]
nullable_sound (both a b) h = (nullable_sound a (ground arith), nullable_sound b (ground arith))
nullable_sound (upto n r) h = (0, omega arith, refl)
nullable_sound (star r) h = (0, refl)

then_re_sound : (a b : Regex) (s : Text) → Matches (then_re a b) s → Matches (seq a b) s
unfolding then_re
then_re_sound fail b s m = absurd m
then_re_sound eps b s m = ([], s, refl, refl, m)
then_re_sound _ b s m = m

or_re_sound : (a b : Regex) (s : Text) → Matches (or_re a b) s → Matches a s ⊎ Matches b s
unfolding or_re
or_re_sound fail b s m = inr m
or_re_sound _ b s m = m

or_re_complete : (a b : Regex) (s : Text) → Matches a s ⊎ Matches b s → Matches (or_re a b) s
unfolding or_re
or_re_complete fail b s (inl m) = absurd m
or_re_complete fail b s (inr m) = m
or_re_complete _ b s m = m

cons_append : (c : ℕ) (s u v : Text) → s ≡ u ++ v → c ∷ s ≡ (c ∷ u) ++ v
cons_append c s u v e = ap (λ t. c ∷ t) e

if_class : (b : Bool) (s : Text) → Matches (if b then eps else fail) s → (b ≡ true) × (s ≡ [])
if_class true s m = (refl, m)
if_class false s m = absurd m

if_nullable :
    (n : Bool) (d e : Regex) (s : Text)
    → Matches (if n then or_re d e else d) s
    → Matches d s ⊎ ((n ≡ true) × Matches e s)
if_nullable true d e s m = elim (or_re_sound d e s m) [ inl x ↦ inl x | inr y ↦ inr (refl, y) ]
if_nullable false d e s m = inl m

-- A match of the derivative is a match of the pattern, with `c` in front.
deriv_sound : (c : ℕ) (r : Regex) (s : Text) → Matches (deriv c r) s → Matches r (c ∷ s)
unfolding deriv
deriv_sound c fail s m = m
deriv_sound c eps s m = absurd m
deriv_sound c (class p) s m = let (e, nil) = if_class (p c) s m in (c, ap (λ t. c ∷ t) nil, e)
deriv_sound c (seq a b) s m =
    elim (if_nullable (nullable a) (then_re (deriv c a) b) (deriv c b) s m) [
      | inl d ↦
          let (u, v, e, x, y) = then_re_sound (deriv c a) b s d in
          (c ∷ u, v, cons_append c s u v e, deriv_sound c a u x, y)
      | inr (n, d) ↦ ([], c ∷ s, refl, nullable_sound a n, deriv_sound c b s d)
    ]
deriv_sound c (alt a b) s m = elim (or_re_sound (deriv c a) (deriv c b) s m) [
  | inl x ↦ inl (deriv_sound c a s x)
  | inr x ↦ inr (deriv_sound c b s x)
]
deriv_sound c (both a b) s m = (deriv_sound c a s m.0, deriv_sound c b s m.1)
deriv_sound c (upto zero r) s m = absurd m
deriv_sound c (upto (suc n) r) s m =
    let (u, v, e, x, (k, le, y)) = then_re_sound (deriv c r) (upto n r) s m in
    (suc k, omega arith, (c ∷ u, v, cons_append c s u v e, deriv_sound c r u x, y))
deriv_sound c (star r) s m =
    let (u, v, e, x, (k, y)) = then_re_sound (deriv c r) (star r) s m in
    (suc k, (c ∷ u, v, cons_append c s u v e, deriv_sound c r u x, y))

pub fullmatch_sound : (r : Regex) (s : Text) → fullmatch r s ≡ true → Matches r s
unfolding fullmatch
fullmatch_sound r [] h = nullable_sound r h
fullmatch_sound r (c ∷ s) h = deriv_sound c r s (fullmatch_sound (deriv c r) s h)

-- The other direction.
append-eq-nil : (u v : Text) → [] ≡ u ++ v → (u ≡ []) × (v ≡ [])
append-eq-nil [] v h = (refl, sym h)
append-eq-nil (c ∷ u) v h = cc

nullable_complete : (r : Regex) → Matches r [] → nullable r ≡ true
unfolding nullable
nullable_complete fail m = absurd m
nullable_complete eps m = refl
nullable_complete (class p) (c, e, h) = cc
nullable_complete (seq a b) (u, v, e, x, y) =
    let (eu, ev) = append-eq-nil u v e in
    let ha = nullable_complete a (subst (Matches a) eu x) in
    let hb = nullable_complete b (subst (Matches b) ev y) in rw (ha, hb)
nullable_complete (alt a b) (inl x) = rw (nullable_complete a x)
nullable_complete (alt a b) (inr y) = let h = nullable_complete b y in ground arith
nullable_complete (both a b) (x, y) = rw (nullable_complete a x, nullable_complete b y)
nullable_complete (upto n r) m = refl
nullable_complete (star r) m = refl

-- How a text that starts with `c` splits: the first part is empty, or starts with `c`.
abbrev Split : ℕ → Text → Text → Text → Type 0
Split c s u v = ((u ≡ []) × (c ∷ s ≡ v)) ⊎ ((w : Text) × (u ≡ c ∷ w) × (s ≡ w ++ v))

Split-cons : (c : ℕ) (s u v : Text) → c ∷ s ≡ u ++ v → Split c s u v
Split-cons c s [] v e = inl (refl, e)
Split-cons c s (d ∷ u) v e = inr (u, cc, cc)

-- The first part that is not empty.
Rep-cons :
    (L : Text → Type 0) (k : ℕ) (c : ℕ) (s : Text)
    → Rep L k (c ∷ s)
    → (j : ℕ) × (w : Text) × (v : Text) × (suc j ≤ k) × (s ≡ w ++ v) × L (c ∷ w) × Rep L j v
Rep-cons L zero c s m = cc
Rep-cons L (suc k) c s (u, v, e, x, y) = elim (Split-cons c s u v e) [
  | inl (eu, ev) ↦
      let (j, w, v', h, e', x', y') = Rep-cons L k c s (subst (Rep L k) (sym ev) y) in
      (j, w, v', omega arith, e', x', y')
  | inr (w, eu, es) ↦ (k, w, v, omega arith, es, subst L eu x, y)
]

then_re_complete : (a b : Regex) (s : Text) → Matches (seq a b) s → Matches (then_re a b) s
unfolding then_re
then_re_complete fail b s (u, v, e, x, y) = absurd x
then_re_complete eps b s (u, v, e, x, y) = subst (Matches b) (sym (rw x at e)) y
then_re_complete _ b s m = m

class_complete : (b : Bool) (s : Text) → b ≡ true → s ≡ [] → Matches (if b then eps else fail) s
class_complete true s h e = e
class_complete false s h e = cc

nullable_branch :
    (n : Bool) (d e : Regex) (s : Text)
    → Matches d s ⊎ ((n ≡ true) × Matches e s)
    → Matches (if n then or_re d e else d) s
nullable_branch true d e s (inl x) = or_re_complete d e s (inl x)
nullable_branch true d e s (inr y) = or_re_complete d e s (inr y.1)
nullable_branch false d e s (inl x) = x
nullable_branch false d e s (inr y) = cc (y.0)

deriv_complete : (c : ℕ) (r : Regex) (s : Text) → Matches r (c ∷ s) → Matches (deriv c r) s
unfolding deriv
deriv_complete c fail s m = m
deriv_complete c eps s m = cc
deriv_complete c (class p) s (d, e, h) = class_complete (p c) s (cc) (cc)
deriv_complete c (seq a b) s (u, v, e, x, y) = elim (Split-cons c s u v e) [
  | inl (eu, ev) ↦ nullable_branch (nullable a) _ _ s (
      inr (
        nullable_complete a (subst (Matches a) eu x),
        deriv_complete c b s (subst (Matches b) (sym ev) y),
      ))
  | inr (w, eu, es) ↦
      nullable_branch (nullable a) _ _ s
        (inl (then_re_complete _ _ s (w, v, es, deriv_complete c a w (subst (Matches a) eu x), y)))
]
deriv_complete c (alt a b) s (inl x) = or_re_complete _ _ s (inl (deriv_complete c a s x))
deriv_complete c (alt a b) s (inr y) = or_re_complete _ _ s (inr (deriv_complete c b s y))
deriv_complete c (both a b) s (x, y) = (deriv_complete c a s x, deriv_complete c b s y)
deriv_complete c (upto zero r) s (zero, le, m) = cc
deriv_complete c (upto zero r) s (suc k, le, m) = absurd (omega arith)
deriv_complete c (upto (suc n) r) s (k, le, m) =
    let (j, w, v, h, e, x, y) = Rep-cons (Matches r) k c s m in
    then_re_complete _ _ s (w, v, e, deriv_complete c r w x, (j, omega arith, y))
deriv_complete c (star r) s (k, m) =
    let (j, w, v, h, e, x, y) = Rep-cons (Matches r) k c s m in
    then_re_complete _ _ s (w, v, e, deriv_complete c r w x, (j, y))

pub fullmatch_complete : (r : Regex) (s : Text) → Matches r s → fullmatch r s ≡ true
unfolding fullmatch
fullmatch_complete r [] m = nullable_complete r m
fullmatch_complete r (c ∷ s) m = fullmatch_complete (deriv c r) s (deriv_complete c r s m)

-- The matcher decides the language.
pub fullmatch_iff : (r : Regex) (s : Text) → (fullmatch r s ≡ true) ↔ Matches r s
fullmatch_iff r s = (fullmatch_sound r s, fullmatch_complete r s)
