-- ===== src/Cli/Json.antt =====
-- What `resp.json()` gives, as far as the API sends it (its numbers are integers), and how Python
-- reads it. A `dict` has each key once.
use linuxmuster_radius.Prelude.{
  ℤ, pos, negsuc, zero, suc, Bool, true, false, Option, none, some, List, [], ◌∷◌, Text, text_eq,
  if◌then◌else◌,
}
use linuxmuster_radius.Exec.{Result, ok, err, other_error}

mutual
  pub data Json : Type 0 where
    null : Json
    bool : Bool → Json
    num : ℤ → Json
    str : Text → Json
    arr : Items → Json
    obj : Fields → Json

  pub data Items : Type 0 where
    nil : Items
    cons : Json → Items → Items

  pub data Fields : Type 0 where
    end : Fields
    field : Text → Json → Fields → Fields

abbrev pub to_items : List Json → Items
to_items [] = nil
to_items (x ∷ xs) = cons x (to_items xs)

abbrev pub of_items : Items → List Json
of_items nil = []
of_items (cons x xs) = x ∷ of_items xs

abbrev of_keys : Fields → List Json
of_keys end = []
of_keys (field k x fs) = str k ∷ of_keys fs

abbrev of_characters : Text → List Json
of_characters [] = []
of_characters (c ∷ s) = str (c ∷ []) ∷ of_characters s

-- `for x in j`: a number, a Boolean and `None` are no iterables.
unfoldable pub iterate : Json → Result (List Json)
iterate (arr xs) = ok (of_items xs)
iterate (obj fs) = ok (of_keys fs)
iterate (str s) = ok (of_characters s)
iterate j = err other_error

unfoldable pub find : Text → Fields → Option Json
find k end = none
find k (field j x fs) = if text_eq j k then some x else find k fs

abbrev or_default : Json → Option Json → Json
or_default d none = d
or_default d (some x) = x

-- `j.get(k, d)`: only a `dict` has the method.
unfoldable pub get : Json → Text → Json → Result Json
unfolding find
get (obj fs) k d = ok (or_default d (find k fs))
get j k d = err other_error

abbrev pub or_key_error : Option Json → Result Json
or_key_error none = err other_error
or_key_error (some x) = ok x

-- `j[k]` for a text `k`.
unfoldable pub subscript : Json → Text → Result Json
unfolding find
subscript (obj fs) k = or_key_error (find k fs)
subscript j k = err other_error

-- `bool(j)`
unfoldable pub truthy : Json → Bool
truthy null = false
truthy (bool b) = b
truthy (num (pos zero)) = false
truthy (num (pos (suc n))) = true
truthy (num (negsuc n)) = true
truthy (str []) = false
truthy (str (c ∷ s)) = true
truthy (arr nil) = false
truthy (arr (cons x xs)) = true
truthy (obj end) = false
truthy (obj (field k x fs)) = true

abbrev pub is_null : Json → Bool
is_null null = true
is_null j = false

-- `j == s` for a text `s`.
abbrev pub is_text : Text → Json → Bool
is_text s (str t) = text_eq t s
is_text s j = false
