-- ===== src/Lockfile/Patterns.antt =====
-- The two patterns with groups: what they match, and that the groups are the parts of the line.
use linuxmuster_radius.Prelude.{
  ◌≤◌, subst, and-right, and-left, ==_iff, ℕ, zero, suc, ◌≡◌, ◌↔◌, inl, inr, refl, sym, ap, ◌∙◌,
  Bool, true, false, some, [], ◌∷◌, ◌++◌, Text, codes, has, all, length, partition, take, drop,
  arith, Bool-cases,
}
use linuxmuster_radius.Prelude.StringLaws.{has-eq-false, has-append, partition-append, take-append}
use mathlib.Core.Option.{some-injective}
use linuxmuster_radius.Regex.{class, lit, opt, times, fullmatch}
use linuxmuster_radius.Regex.Language.{Rep, Matches, fullmatch_iff}
use linuxmuster_radius.Regex.Words.{all-Matches}
use linuxmuster_radius.Models.Patterns.{is_lower_alnum, is_alnum, or_in}
use linuxmuster_radius.Lockfile.{
  project_re, version_re, pin_re, hash_re, hash_prefix, is_low_hex, comment_re, pin_match,
  hash_match, is_blank,
}
use linuxmuster_radius.Lockfile.Grammar.{IsBlank, IsPin, IsHash, continuation}

pub Matches-lit : (t s : Text) → Matches (lit t) s ↔ (s ≡ t)
Matches-lit [] s = (λ e. e, λ e. e)
Matches-lit (c ∷ []) s =
    (λ (d, e, h). e ∙ ap (λ x. x ∷ []) ((==_iff d c).0 h), λ e. (c, e, (==_iff c c).1 refl))
Matches-lit (c ∷ d ∷ t) s = (
  λ (u, v, e, (x, eu, h), n). rw (e, eu, (==_iff x c).0 h, (Matches-lit (d ∷ t) v).0 n) refl,
  λ e. (c ∷ [], d ∷ t, e, (c, refl, (==_iff c c).1 refl), (Matches-lit (d ∷ t) (d ∷ t)).1 refl),
)

pub Matches-times :
    (n : ℕ) (p : ℕ → Bool) (s : Text)
    → Matches (times n (class p)) s ↔ ((all p s ≡ true) × (length s ≡ n))
unfolding times
Matches-times zero p [] = (λ e. (refl, refl), λ h. refl)
Matches-times zero p (c ∷ s) = (λ e. ground (arith, e), λ h. absurd (omega (arith, h.1)))
Matches-times (suc n) p [] =
    (λ (u, v, e, (c, eu, h), m). ground (arith, rw eu at e), λ h. absurd (omega (arith, h.1)))
Matches-times (suc n) p (c ∷ s) = (
  λ (u, v, e, (d, eu, h), m).
      let (a, l) = (Matches-times n p v).0 m in
      let e' = rw eu at e in
      subst (λ t. (all p t ≡ true) × (length t ≡ suc n)) (sym e')
        (ground (arith, a, h), omega (arith, l)),
  λ (a, l). (
    c ∷ [],
    s,
    refl,
    (c, refl, and-left (p c) (all p s) a),
    (Matches-times n p s).1 (and-right (p c) (all p s) a, omega (arith, l)),
  ),
)

-- What can stand in a name and in a version.
abbrev pub name_char : ℕ → Bool
name_char = or_in is_lower_alnum (codes "-")

abbrev pub version_char : ℕ → Bool
version_char = or_in is_alnum (codes ".+!")

pub name_chars : (s : Text) → Matches project_re s → all name_char s ≡ true
name_chars s m = all-Matches name_char project_re s (λ c h. rw h, (λ c h. h, λ c h. rw h)) m

pub version_chars : (s : Text) → Matches version_re s → all version_char s ≡ true
version_chars s m = all-Matches version_char version_re s (λ c h. ground (arith, h), λ c h. h) m

no_equals : (s : Text) → Matches project_re s → has b'=' s ≡ false
no_equals s m = has-eq-false name_char b'=' s refl (name_chars s m)

no_space : (s : Text) → Matches version_re s → has b' ' s ≡ false
no_space s m = has-eq-false version_char b' ' s refl (version_chars s m)

pin_matched : (l name version : Text) → IsPin l name version → pin_match l ≡ some (name, version)
unfolding pin_match
pin_matched l name version (e, n, v) =
    let f = (fullmatch_iff pin_re l).1 (
      name,
      codes "==" ++ (version ++ codes " \\"),
      e,
      n,
      (
        codes "==",
        version ++ codes " \\",
        refl,
        (Matches-lit (codes "==") (codes "==")).1 refl,
        (version, codes " \\", refl, v, (Matches-lit (codes " \\") (codes " \\")).1 refl),
      ),
    ) in
    let parted : partition b'=' l ≡ (name, b'=' ∷ (version ++ codes " \\")) =
      ap (partition b'=') e ∙ partition-append b'=' name _ (no_equals name n) in
    rw (f, parted, partition-append b' ' version (92 ∷ []) (no_space version v)) refl

IsPin-parts :
    (l : Text) → fullmatch pin_re l ≡ true → (name : Text) × (version : Text) × IsPin l name version
IsPin-parts l h =
    let (u, r, e, mu, (d, r', e', md, (w, b, e'', mv, mb))) = (fullmatch_iff pin_re l).0 h in
    (
      u,
      w,
      (
        rw (e, e', e'', (Matches-lit (codes "==") d).0 md, (Matches-lit (codes " \\") b).0 mb) refl,
        mu,
        mv,
      ),
    )

pub pin_match_iff :
    (l name version : Text) → (pin_match l ≡ some (name, version)) ↔ IsPin l name version
pin_match_iff l name version = (
  λ h. elim (Bool-cases (fullmatch pin_re l)) [
    | inl matched ↦
        let (n, v, parts) = IsPin-parts l matched in
        let same = some-injective _ _ (sym (pin_matched l n v parts) ∙ h) in
        subst (λ q. IsPin l q.0 q.1) same parts
    | inr unmatched ↦ unfold pin_match in ground (arith, rw unmatched at h)
  ],
  pin_matched l name version,
)

continued :
    (k : ℕ) (c : Text)
    → k ≤ 1
    → Rep (Matches (lit (codes " \\"))) k c
    → (more : Bool) × (c ≡ continuation more)
continued zero c le e = (false, e)
continued (suc zero) c le (u, v, e, m, e') =
    (true, rw (e, (Matches-lit (codes " \\") u).0 m, e') refl)
continued (suc (suc k)) c le m = absurd (omega arith)

opt-continuation : (more : Bool) → Matches (opt (lit (codes " \\"))) (continuation more)
opt-continuation false = (0, omega arith, refl)
opt-continuation true = (
  1,
  omega arith,
  (codes " \\", [], refl, (Matches-lit (codes " \\") (codes " \\")).1 refl, refl),
)

has-continuation : (more : Bool) → has 92 (continuation more) ≡ more
has-continuation true = refl
has-continuation false = refl

take-digest : (h c : Text) → length h ≡ 64 → take 64 (h ++ c) ≡ h
take-digest h c len = ap (λ n. take n (h ++ c)) (sym len) ∙ take-append h c

hash_matched : (l h : Text) (more : Bool) → IsHash l h more → hash_match l ≡ some (h, more)
unfolding hash_match drop
hash_matched l h more (e, digest) =
    let f = (fullmatch_iff hash_re l).1 (
      hash_prefix,
      h ++ continuation more,
      e,
      (Matches-lit hash_prefix hash_prefix).1 refl,
      (h, continuation more, refl, (Matches-times 64 is_low_hex h).1 digest, opt-continuation more),
    ) in
    let no_backslash : has 92 l ≡ more =
      ap (has 92) e
      ∙ rw
          (
            has-append 92 hash_prefix (h ++ continuation more),
            has-append 92 h (continuation more),
            has-eq-false is_low_hex 92 h refl digest.0,
            has-continuation,
          )
          refl in
    let behind : drop 18 l ≡ h ++ continuation more = ap (drop 18) e in
    rw (f, behind, take-digest h (continuation more) digest.1, no_backslash) refl

IsHash-parts :
    (l : Text) → fullmatch hash_re l ≡ true → (h : Text) × (more : Bool) × IsHash l h more
IsHash-parts l m =
    let (u, r, e, mu, (h, c, e', mh, (k, le, mc))) = (fullmatch_iff hash_re l).0 m in
    let (more, ec) = continued k c le mc in
    (
      h,
      more,
      (rw (e, e', ec, (Matches-lit hash_prefix u).0 mu) refl, (Matches-times 64 is_low_hex h).0 mh),
    )

pub hash_match_iff : (l h : Text) (more : Bool) → (hash_match l ≡ some (h, more)) ↔ IsHash l h more
hash_match_iff l h more = (
  λ e. elim (Bool-cases (fullmatch hash_re l)) [
    | inl matched ↦
        let (d, m, parts) = IsHash-parts l matched in
        let same = some-injective _ _ (sym (hash_matched l d m parts) ∙ e) in
        subst (λ q. IsHash l q.0 q.1) same parts
    | inr unmatched ↦ unfold hash_match in ground (arith, rw unmatched at e)
  ],
  hash_matched l h more,
)

pub is_blank_iff : (l : Text) → (is_blank l ≡ true) ↔ IsBlank l
is_blank_iff [] = (λ h. inl refl, λ h. unfold is_blank in refl)
is_blank_iff (c ∷ s) = (
  λ h. inr ((fullmatch_iff comment_re (c ∷ s)).0 (unfold is_blank in h)),
  λ h. elim h [
    | inl e ↦ ground (arith, e)
    | inr m ↦ unfold is_blank in (fullmatch_iff comment_re (c ∷ s)).1 m
  ],
)

-- The mark of a comment does not stand in a pin.
comment_mark : (l : Text) → Matches comment_re l → has b'#' l ≡ true
comment_mark l (u, r, e, mu, (m, v, e', (c, em, h), mv)) =
    ap (has b'#') e ∙ rw (has-append b'#' u r, e', em, (==_iff c b'#').0 h) (ground arith)

no_mark :
    (name version : Text)
    → Matches project_re name
    → Matches version_re version
    → has b'#' (name ++ (codes "==" ++ (version ++ codes " \\"))) ≡ false
no_mark name version n v =
    rw
      (
        has-append b'#' name (codes "==" ++ (version ++ codes " \\")),
        has-append b'#' version (codes " \\"),
        has-eq-false name_char b'#' name refl (name_chars name n),
        has-eq-false version_char b'#' version refl (version_chars version v),
      )
      refl

pub not_blank : (l name version : Text) → IsPin l name version → is_blank l ≡ false
not_blank l name version (e, n, v) = elim (Bool-cases (is_blank l)) [
  | inr other ↦ other
  | inl skipped ↦ elim ((is_blank_iff l).0 skipped) [
    | inl empty ↦ ground (
      arith,
      has-append b'=' name (codes "==" ++ (version ++ codes " \\")),
      ap (has b'=') (sym e ∙ empty),
    )
    | inr comment ↦ cc (comment_mark l comment, ap (has b'#') e, no_mark name version n v)
  ]
]
