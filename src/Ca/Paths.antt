-- ===== src/Ca/Paths.antt =====
-- The files of the certificate directory have different paths.
use linuxmuster_radius.Prelude.{
  ℕ, ◌≡◌, refl, ◌∙◌, true, false, not, ◌||◌, ◌==◌, [], ◌∷◌, ◌++◌, Text, codes, text_eq, last, arith,
  Bool-cases, inl, inr,
}
use linuxmuster_radius.Models.Fields.{nonempty}
use linuxmuster_radius.Docker.Paths.{join_path, is_absolute}

text_eq-append_left : (s t u : Text) → text_eq (s ++ t) (s ++ u) ≡ text_eq t u
unfolding text_eq
text_eq-append_left [] t u = refl
text_eq-append_left (c ∷ s) t u = ground (arith, text_eq-append_left s t u)

text_ne_longer : (s : Text) (c : ℕ) (t : Text) → text_eq s (s ++ c ∷ t) ≡ false
unfolding text_eq
text_ne_longer [] c t = refl
text_ne_longer (d ∷ s) c t = ground (arith, text_ne_longer s c t)

pub join_path_ne :
    (d a b : Text)
    → is_absolute a ≡ false
    → is_absolute b ≡ false
    → text_eq (join_path d a) (join_path d b) ≡ text_eq a b
unfolding join_path text_eq
join_path_ne d a b ha hb =
    rw (ha, hb)
      (elim (Bool-cases (not (nonempty d) || last 0 d == b'/')) [
        | inl ends ↦ rw ends (text_eq-append_left d a b)
        | inr more_needed ↦ rw more_needed (text_eq-append_left d (codes "/" ++ a) (codes "/" ++ b))
      ])

-- A file in a directory is not the directory.
pub join_path_ne_dir :
    (d b : Text) → is_absolute b ≡ false → nonempty b ≡ true → text_eq d (join_path d b) ≡ false
unfolding join_path
join_path_ne_dir d [] h some_name = ground (arith, some_name)
join_path_ne_dir d (c ∷ s) h some_name =
    rw h (elim (Bool-cases (not (nonempty d) || last 0 d == b'/')) [
      | inl ends ↦ rw ends (text_ne_longer d c s)
      | inr more_needed ↦ rw more_needed (text_ne_longer d b'/' (c ∷ s))
    ])

text_eq_comm : (s t : Text) → text_eq s t ≡ text_eq t s
unfolding text_eq
text_eq_comm [] [] = refl
text_eq_comm [] (d ∷ t) = refl
text_eq_comm (c ∷ s) [] = refl
text_eq_comm (c ∷ s) (d ∷ t) = ground (arith, text_eq_comm s t)

pub join_path_dir_ne :
    (d b : Text) → is_absolute b ≡ false → nonempty b ≡ true → text_eq (join_path d b) d ≡ false
join_path_dir_ne d b h some_name = text_eq_comm (join_path d b) d ∙ join_path_ne_dir d b h some_name
