-- ===== src/Regex/Words.antt =====
-- Facts on all texts of a pattern: which characters stand in them, and how long they are. The
-- pattern of a word, one character of a class and at most `n` of another, has both at once.
use linuxmuster_radius.Prelude.{
  ℕ, zero, suc, ◌≤◌, ◌≡◌, refl, inl, inr, ◌↔◌, ◌⊎◌, Bool, true, [], ◌∷◌, ◌++◌, arith, Text, all,
  all-append, length, append-nil, sym, subst, ◌∙◌,
}
use linuxmuster_radius.Regex.{
  Regex, fail, eps, class, seq, alt, both, upto, star, re_match, line, char,
}
use linuxmuster_radius.Regex.Language.{Rep, Matches, fullmatch_sound, fullmatch_complete}

-- Every character that a class of the pattern takes is in `p`.
abbrev pub Within : (ℕ → Bool) → Regex → Type 0
Within p fail = Unit
Within p eps = Unit
Within p (class q) = (c : ℕ) → q c ≡ true → p c ≡ true
Within p (seq a b) = Within p a × Within p b
Within p (alt a b) = Within p a × Within p b
Within p (both a b) = Within p a × Within p b
Within p (upto n r) = Within p r
Within p (star r) = Within p r

all-Rep :
    (p : ℕ → Bool) (L : Text → Type 0)
    → ((u : Text) → L u → all p u ≡ true)
    → (k : ℕ) (s : Text) → Rep L k s
    → all p s ≡ true
all-Rep p L h zero s m = rw m
all-Rep p L h (suc k) s (u, v, e, x, y) = rw e (all-append p u v (h u x) (all-Rep p L h k v y))

pub all-Matches : (p : ℕ → Bool) (r : Regex) (s : Text) → Within p r → Matches r s → all p s ≡ true
all-Matches p fail s w m = absurd m
all-Matches p eps s w m = rw m
all-Matches p (class q) s w (c, e, h) = rw (e, w c h)
all-Matches p (seq a b) s w (u, v, e, x, y) =
    rw e (all-append p u v (all-Matches p a u w.0 x) (all-Matches p b v w.1 y))
all-Matches p (alt a b) s w (inl x) = all-Matches p a s w.0 x
all-Matches p (alt a b) s w (inr y) = all-Matches p b s w.1 y
all-Matches p (both a b) s w (x, y) = all-Matches p a s w.0 x
all-Matches p (upto n r) s w (k, le, m) = all-Rep p (Matches r) (λ u x. all-Matches p r u w x) k s m
all-Matches p (star r) s w (k, m) = all-Rep p (Matches r) (λ u x. all-Matches p r u w x) k s m

-- A run of at most `n` characters of one class.
Rep-class :
    (q : ℕ → Bool) (k : ℕ) (s : Text)
    → Rep (Matches (class q)) k s
    → (all q s ≡ true) × (length s ≡ k)
Rep-class q zero s m = rw m (refl, refl)
Rep-class q (suc k) s (u, v, e, (c, eu, h), y) =
    let (a, l) = Rep-class q k v y in rw (e, eu) (ground arith, omega arith)

class_Rep : (q : ℕ → Bool) (s : Text) → all q s ≡ true → Rep (Matches (class q)) (length s) s
class_Rep q [] h = refl
class_Rep q (c ∷ s) h = (c ∷ [], s, refl, (c, refl, ground arith), class_Rep q s (ground arith))

-- One character of `p`, then at most `n` of `q`.
abbrev pub word : (ℕ → Bool) → (ℕ → Bool) → ℕ → Regex
word p q n = seq (class p) (upto n (class q))

-- The same, said of the text.
abbrev pub IsWord : (ℕ → Bool) → (ℕ → Bool) → ℕ → Text → Type 0
IsWord p q n [] = ⊥
IsWord p q n (c ∷ s) = (p c ≡ true) × (all q s ≡ true) × (length s ≤ n)

-- A text, or a text with one newline after it: what `$` lets through.
abbrev pub OrNewline : (Text → Type 0) → Text → Type 0
OrNewline P s = P s ⊎ ((t : Text) × (s ≡ t ++ 10 ∷ []) × P t)

module _ (p q : ℕ → Bool) (n : ℕ) where
  word_sound : (s : Text) → Matches (word p q n) s → IsWord p q n s
  word_sound s (u, v, e, (c, eu, h), (k, le, m)) =
      let (a, l) = Rep-class q k v m in rw (e, eu) (h, a, omega arith)

  word_complete : (s : Text) → IsWord p q n s → Matches (word p q n) s
  word_complete [] h = absurd h
  word_complete (c ∷ s) (h, a, le) =
      (c ∷ [], s, refl, (c, refl, h), (length s, le, class_Rep q s a))

one_char : (c : ℕ) (v : Text) → Rep (Matches (char c)) 1 v → v ≡ c ∷ []
one_char c v (u, w, e, (d, eu, h), ew) = rw (e, eu, ew) (ground arith)

line_sound : (r : Regex) (s : Text) → Matches (line r) s → OrNewline (Matches r) s
line_sound r s (u, v, e, x, (zero, le, m)) =
    inl (subst (Matches r) (sym (e ∙ (rw m (append-nil u)))) x)
line_sound r s (u, v, e, x, (suc zero, le, m)) = inr (u, rw (← one_char 10 v m) e, x)
line_sound r s (u, v, e, x, (suc (suc k), le, m)) = absurd (omega arith)

line_complete : (r : Regex) (s : Text) → OrNewline (Matches r) s → Matches (line r) s
line_complete r s (inl x) = (s, [], sym (append-nil s), x, (0, omega arith, refl))
line_complete r s (inr (t, e, x)) =
    (t, 10 ∷ [], e, x, (1, omega arith, (10 ∷ [], [], refl, (10, refl, refl), refl)))

-- `re.match(r"^...$", s)` holds of the texts of the pattern, and of these with a newline behind.
pub re_match_iff : (r : Regex) (s : Text) → (re_match r s ≡ true) ↔ OrNewline (Matches r) s
re_match_iff r s = (
  λ h. line_sound r s (fullmatch_sound (line r) s h),
  λ m. fullmatch_complete (line r) s (line_complete r s m),
)

module _ (p q : ℕ → Bool) (n : ℕ) where
  -- The same for a word.
  pub re_match-word : (s : Text) → (re_match (word p q n) s ≡ true) ↔ OrNewline (IsWord p q n) s
  re_match-word s = (
    λ h. elim ((re_match_iff (word p q n) s).0 h) [
      | inl m ↦ inl (word_sound p q n s m)
      | inr (t, e, m) ↦ inr (t, e, word_sound p q n t m)
    ],
    λ h. (re_match_iff (word p q n) s).1 (elim h [
      | inl m ↦ inl (word_complete p q n s m)
      | inr (t, e, m) ↦ inr (t, e, word_complete p q n t m)
    ]),
  )

-- All characters of a text that a pattern lets through.
pub all-re_match :
    (p : ℕ → Bool) (r : Regex) (s : Text)
    → Within p r
    → p 10 ≡ true
    → re_match r s ≡ true
    → all p s ≡ true
all-re_match p r s w nl h = elim ((re_match_iff r s).0 h) [
  | inl m ↦ all-Matches p r s w m
  | inr (t, e, m) ↦ rw e (all-append p t (10 ∷ []) (all-Matches p r t w m) (rw nl))
]
