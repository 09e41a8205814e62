-- ===== src/Dict.antt =====
-- Dictionaries with texts as keys: the files of a directory by their names. Proofs elsewhere go by
-- the laws; only tests unfold the operations.
use linuxmuster_radius.Prelude.{
  ◌≡◌, refl, Option, none, some, List, [], ◌∷◌, Text, text_eq, text_eq_iff, if◌then◌else◌, arith,
  map,
}

abbrev pub Dict : Type 0 → Type 0
Dict V = List (Text × V)

module _ {V : Type 0} where
  unfoldable pub get : Dict V → Text → Option V
  get [] k = none
  get ((j, v) ∷ d) k = if text_eq j k then some v else get d k

  unfoldable pub remove : Dict V → Text → Dict V
  remove [] k = []
  remove ((j, v) ∷ d) k = let rest = remove d k in if text_eq j k then rest else (j, v) ∷ rest

  -- `d[k] = v`: a new key goes to the end.
  unfoldable pub put : Dict V → Text → V → Dict V
  put [] k v = (k, v) ∷ []
  put ((j, w) ∷ d) k v = if text_eq j k then (k, v) ∷ d else (j, w) ∷ put d k v

  unfoldable pub keys : Dict V → List Text
  keys d = map (λ (k, _). k) d

  pub get-remove :
      (d : Dict V) (k j : Text) → get (remove d k) j ≡ (if text_eq k j then none else get d j)
  unfolding get remove put
  get-remove [] k j = ground arith
  get-remove ((i, v) ∷ d) k j =
      ground (arith, text_eq_iff i k, text_eq_iff i j, text_eq_iff k j, get-remove d k j)

  pub get-put :
      (d : Dict V) (k j : Text) (v : V)
      → get (put d k v) j ≡ (if text_eq k j then some v else get d j)
  unfolding get remove put
  get-put [] k j v = refl
  get-put ((i, w) ∷ d) k j v =
      ground (arith, text_eq_iff i k, text_eq_iff i j, text_eq_iff k j, get-put d k j v)
