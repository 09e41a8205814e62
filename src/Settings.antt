-- ===== src/Settings.antt =====
-- controlplane/lmnradius/config.py and main.py: what load_settings takes from the file and what from
-- the environment, and where the server warns about its address.
use linuxmuster_radius.Prelude.{
  ◌≡◌, refl, ap, ◌∙◌, inl, inr, Bool, true, false, not, ◌||◌, Option, none, some, [], ◌∷◌, ◌++◌,
  Text, codes, text_eq, text_eq_iff, Bool-cases, if◌then◌else◌,
}
use linuxmuster_radius.Dict
use linuxmuster_radius.Dict.{Dict}

-- `_ENV_PREFIX`
abbrev pub env_prefix : Text
env_prefix = codes "LMNRADIUS_"

-- What the path of the file comes from: the argument, the environment, or the default.
unfoldable pub config_path : Option Text → Dict Text → Text
config_path (some path) env = path
config_path none env = elim (Dict.get env (codes "LMNRADIUS_CONFIG")) [
  | none ↦ codes "/etc/linuxmuster-radius/config.yml"
  | some path ↦ path
]

-- What the path has: no file, or a file that cannot be read or parsed, or that holds no mapping, or
-- a mapping. An empty file holds no mapping.
pub data ConfigFile (V : Type 0) : Type 0 where
  no_file unreadable no_mapping : ConfigFile V
  mapping : Dict V → ConfigFile V

unfoldable pub is_set : Dict Text → Text → Bool
is_set env name = elim (Dict.get env name) [ none ↦ false | some v ↦ true ]

-- `_warn_if_insecure_bind`: whether it warns.
unfoldable pub insecure_bind : Text → Bool
unfolding text_eq
insecure_bind host = not (
    text_eq host (codes "127.0.0.1")
    || text_eq host (codes "localhost")
    || text_eq host (codes "::1"))

-- `upper` is `str.upper`.
abbrev pub env_name : (Text → Text) → Text → Text
env_name upper field = env_prefix ++ upper field

-- A value of the file is of any type.
module _ (upper : Text → Text) {V : Type 0} (env : Dict Text) where
  -- One entry of the file, unless the environment has the variable.
  abbrev override : Dict V → Text → V → Dict V
  override taken field value =
      if is_set env (env_name upper field) then taken else Dict.put taken field value

  -- The loop of `load_settings` over the entries of the file.
  unfoldable pub overrides : Dict V → Dict V → Dict V
  overrides taken [] = taken
  overrides taken ((field, value) ∷ entries) = overrides (override taken field value) entries

  -- What the file says of a field, or what was taken before.
  abbrev latest : Option V → Text → Dict V → Option V
  latest before field [] = before
  latest before field ((f, v) ∷ entries) =
      latest (if text_eq f field then some v else before) field entries

  either : (b : Bool) (o : Option V) → o ≡ (if b then o else o)
  either true o = refl
  either false o = refl

  get-override :
      (taken : Dict V) (f : Text) (v : V) (field : Text)
      → Dict.get (override taken f v) field ≡ (
          if is_set env (env_name upper field)
          then Dict.get taken field
          else if text_eq f field
          then some v
          else Dict.get taken field)
  get-override taken f v field = elim (Bool-cases (text_eq f field)) [
    | inl same ↦
        let is_f = (text_eq_iff f field).0 same in
        elim (Bool-cases (is_set env (env_name upper field))) [
          | inl set ↦ rw (ap (λ x. is_set env (env_name upper x)) is_f, set) refl
          | inr unset ↦
              rw
                (
                  ap (λ x. is_set env (env_name upper x)) is_f,
                  unset,
                  same,
                  Dict.get-put taken f field v,
                )
                (rw same refl)
        ]
    | inr other ↦ elim (Bool-cases (is_set env (env_name upper f))) [
      | inl set ↦
          rw (set, other) (either (is_set env (env_name upper field)) (Dict.get taken field))
      | inr unset ↦
          rw (unset, other, Dict.get-put taken f field v)
            (rw other (either (is_set env (env_name upper field)) (Dict.get taken field)))
    ]
  ]

  -- A field whose variable the environment has is not taken from the file; every other one is taken
  -- as the file has it.
  get-overrides :
      (taken entries : Dict V) (field : Text)
      → Dict.get (overrides taken entries) field ≡ (
          if is_set env (env_name upper field)
          then Dict.get taken field
          else latest (Dict.get taken field) field entries)
  unfolding overrides
  get-overrides taken [] field = elim (Bool-cases (is_set env (env_name upper field))) [
    | inl set ↦ rw set refl
    | inr unset ↦ rw unset refl
  ]
  get-overrides taken ((f, v) ∷ entries) field =
      let later = get-overrides (override taken f v) entries field in
      let now = get-override taken f v field in
      elim (Bool-cases (is_set env (env_name upper field))) [
        | inl set ↦ later ∙ rw set (now ∙ rw set refl)
        | inr unset ↦ later ∙ rw unset (ap (λ o. latest o field entries) (now ∙ rw unset refl))
      ]

  -- The entries that are taken from what the path has; `none` where load_settings raises.
  abbrev from_file : ConfigFile V → Option (Dict V)
  from_file no_file = some []
  from_file unreadable = none
  from_file no_mapping = some []
  from_file (mapping entries) = some (overrides [] entries)

  -- What load_settings takes from the file; `read` is what a path has. An empty path is no path.
  unfoldable pub file_overrides : (Text → ConfigFile V) → Option Text → Option (Dict V)
  unfolding config_path overrides
  file_overrides read path = elim (config_path path env) [
    | [] ↦ some []
    | c ∷ s ↦ from_file (read (c ∷ s))
  ]
