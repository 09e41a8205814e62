-- ===== src/Cli/Pem/Served.antt =====
-- Which blocks are found in what openssl prints.
use linuxmuster_radius.Prelude.{
  ℕ, ◌≡◌, refl, sym, ap, ◌∙◌, false, none, some, List, [], ◌∷◌, ◌++◌, map, append_assoc, Text, has,
  length, All, starts_with, contains, drop, Bool-cases, inl, inr, arith,
}
use linuxmuster_radius.Cli.Pem.{begin_mark, end_mark, newline_at, up_to_end, match_at, find_all}

-- A text without a newline begins a text only before its first newline.
starts_with-line : (u v t : Text) → has 10 t ≡ false → starts_with (u ++ 10 ∷ v) t ≡ starts_with u t
unfolding starts_with
starts_with-line [] v [] h = refl
starts_with-line [] v (b ∷ t) h = ground arith
starts_with-line (c ∷ u) v [] h = refl
starts_with-line (c ∷ u) v (b ∷ t) h = elim (Bool-cases (has 10 t)) [
  | inl e ↦ ground (arith, e, h)
  | inr e ↦ rw (starts_with-line u v t e) refl
]

contains-tail : (c : ℕ) (s t : Text) → contains (c ∷ s) t ≡ false → contains s t ≡ false
unfolding contains
contains-tail c s t h = ground arith

contains-start : (c : ℕ) (s t : Text) → contains (c ∷ s) t ≡ false → starts_with (c ∷ s) t ≡ false
unfolding contains
contains-start c s t h = ground arith

match_at-none : (s : Text) → starts_with s begin_mark ≡ false → match_at s ≡ none
unfolding match_at
match_at-none s h = rw h refl

find_all-skip : (c : ℕ) (s : Text) → match_at (c ∷ s) ≡ none → find_all 0 (c ∷ s) ≡ find_all 0 s
unfolding find_all
find_all-skip c s h = rw (h, find_all) refl

find_all-found :
    (c : ℕ) (s found : Text)
    → match_at (c ∷ s) ≡ some (c ∷ found)
    → find_all 0 (c ∷ s) ≡ (c ∷ found) ∷ find_all (length found) s
unfolding find_all
find_all-found c s found h =
    rw (h, find_all) (ap (λ (n : ℕ). (c ∷ found) ∷ find_all n s) (omega arith))

-- Behind a line with no begin mark the search goes on.
find_all-line :
    (u w : Text) → contains u begin_mark ≡ false → find_all 0 (u ++ 10 ∷ w) ≡ find_all 0 w
unfolding starts_with
find_all-line [] w h = find_all-skip 10 w (match_at-none (10 ∷ w) refl)
find_all-line (c ∷ u) w h =
    find_all-skip c (u ++ 10 ∷ w) (
      match_at-none (c ∷ u ++ 10 ∷ w)
        (starts_with-line (c ∷ u) w begin_mark refl ∙ contains-start c u begin_mark h))
    ∙ find_all-line u w (contains-tail c u begin_mark h)

-- Where there is no begin mark, there is no block.
find_all-none : (t : Text) → contains t begin_mark ≡ false → find_all 0 t ≡ []
unfolding find_all
find_all-none [] h = refl
find_all-none (c ∷ t) h =
    find_all-skip c t (match_at-none (c ∷ t) (contains-start c t begin_mark h))
    ∙ find_all-none t (contains-tail c t begin_mark h)

-- The characters of a block are skipped.
find_all-skipped : (u w : Text) → find_all (length u) (u ++ w) ≡ find_all 0 w
unfolding find_all
find_all-skipped [] w = refl
find_all-skipped (c ∷ u) w = find_all-skipped u w

-- A certificate as openssl prints it: its body has no end mark.
abbrev end_line : Text
end_line = end_mark ++ 10 ∷ []

abbrev pub block : Text → Text
block body = begin_mark ++ (body ++ 10 ∷ end_line)

up_to_end-body :
    (b w : Text)
    → contains b end_mark ≡ false
    → up_to_end (b ++ 10 ∷ (end_line ++ w)) ≡ some (b ++ 10 ∷ end_line)
unfolding up_to_end starts_with newline_at drop
up_to_end-body [] w h = refl
up_to_end-body (c ∷ b) w h =
    rw
      (
        starts_with-line (c ∷ b) (end_line ++ w) end_mark refl,
        contains-start c b end_mark h,
        up_to_end-body b w (contains-tail c b end_mark h),
      )
      refl

match_at-begin :
    (s t : Text) → up_to_end s ≡ some t → match_at (begin_mark ++ s) ≡ some (begin_mark ++ t)
unfolding match_at starts_with drop
match_at-begin s t h = rw h refl

-- A block is found, and the search goes on behind it.
find_all-block :
    (b w : Text)
    → contains b end_mark ≡ false
    → find_all 0 (begin_mark ++ (b ++ 10 ∷ (end_line ++ w))) ≡ block b ∷ find_all 0 w
unfolding drop
find_all-block b w h =
    find_all-found b'-' _ (drop 1 (block b))
      (match_at-begin (b ++ 10 ∷ (end_line ++ w)) (b ++ 10 ∷ end_line) (up_to_end-body b w h))
    ∙ ap (λ t. block b ∷ find_all (length (drop 1 (block b))) (drop 1 (begin_mark ++ t)))
        (sym (append_assoc b (10 ∷ end_line) w))
    ∙ ap (λ r. block b ∷ r) (find_all-skipped (drop 1 (block b)) w)

-- What openssl prints: certificates, each behind a line of other text, and text behind them all.
pub record Printout : Type 0 where
  pub chatter : Text
  pub body : Text

abbrev pub printed : List Printout → Text → Text
printed [] tail = tail
printed (p ∷ ps) tail =
    p.chatter ++ 10 ∷ (begin_mark ++ (p.body ++ 10 ∷ (end_line ++ printed ps tail)))

abbrev pub IsPlain : Printout → Type 0
IsPlain p = (contains p.chatter begin_mark ≡ false) × (contains p.body end_mark ≡ false)

-- Of a text with certificates, whose bodies have no end mark, each behind a line of text with no
-- begin mark, and a text with no begin mark behind them all, exactly these are found, in their
-- order.
pub find_all-printed :
    (ps : List Printout) (tail : Text)
    → All IsPlain ps
    → contains tail begin_mark ≡ false
    → find_all 0 (printed ps tail) ≡ map (λ p. block p.body) ps
find_all-printed [] tail h t = find_all-none tail t
find_all-printed (p ∷ ps) tail h t =
    find_all-line p.chatter _ h.0.0
    ∙ find_all-block p.body (printed ps tail) h.0.1
    ∙ ap (λ r. block p.body ∷ r) (find_all-printed ps tail h.1 t)
