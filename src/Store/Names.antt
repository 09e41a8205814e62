-- ===== src/Store/Names.antt =====
-- Instance names as file names: a name that the model accepts is safe for the store, and the files
-- of two instances, record and rollback pointer, are never the same.
use linuxmuster_radius.Prelude.{
  last, ℕ, Bool, true, false, ◌||◌, ◌==◌, ◌≡◌, refl, sym, ap, ◌∙◌, inl, inr, [], ◌∷◌, ◌++◌, Text,
  codes, all, text_eq, text_eq_iff, arith, Bool-cases,
}
use linuxmuster_radius.Prelude.StringLaws.{
  has-eq-false, contains-eq-false, last-append, text_eq-append_right,
}
use linuxmuster_radius.Regex.{fullmatch}
use linuxmuster_radius.Regex.Words.{Within, all-re_match}
use linuxmuster_radius.Models.Patterns.{is_alnum, or_in, name_re}
use linuxmuster_radius.Models.Fields.{v_name, nonempty}
use linuxmuster_radius.Store.Files.{safe_name, yaml_file, prev_file}

-- What can stand in an accepted name: `$` lets a last newline through.
abbrev name_char : ℕ → Bool
name_char c = or_in is_alnum (codes "-") c || c == 10

name_re-Within : Within name_char name_re
name_re-Within = (λ c h. rw h, λ c h. rw h)

nonempty_name : (s : Text) → v_name s ≡ true → nonempty s ≡ true
unfolding v_name fullmatch
nonempty_name [] h = cc
nonempty_name (c ∷ s) h = refl

-- Every name that the instance model accepts passes the store's check on file names.
pub v_name-safe_name : (s : Text) → v_name s ≡ true → safe_name s ≡ true
unfolding safe_name
v_name-safe_name s h =
    let a : all name_char s ≡ true =
      unfold v_name in all-re_match name_char name_re s name_re-Within refl h in
    rw (
      nonempty_name s h,
      has-eq-false name_char b'/' s refl a,
      has-eq-false name_char 92 s refl a,
      contains-eq-false b'.' (codes ".") s (has-eq-false name_char b'.' s refl a),
    )

pub yaml_file-inj : (a b : Text) → text_eq (yaml_file a) (yaml_file b) ≡ text_eq a b
unfolding yaml_file
yaml_file-inj a b = text_eq-append_right a b (codes ".yaml")

same_last : (c d : ℕ) (a b u v : Text) → a ++ c ∷ u ≡ b ++ d ∷ v → last c u ≡ last d v
same_last c d a b u v e = sym (last-append 0 c a u) ∙ (ap (last 0) e ∙ last-append 0 d b v)

pub yaml_file-ne-prev_file : (a b : Text) → text_eq (prev_file a) (yaml_file b) ≡ false
unfolding yaml_file prev_file last
yaml_file-ne-prev_file a b = elim (Bool-cases (text_eq (a ++ codes ".prev") (b ++ codes ".yaml"))) [
  | inl e ↦
      let q = same_last b'.' b'.' a b (codes "prev") (codes "yaml") ((text_eq_iff _ _).0 e) in
      absurd (omega (arith, q))
  | inr e ↦ e
]
