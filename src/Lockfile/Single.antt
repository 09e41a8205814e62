-- ===== src/Lockfile/Single.antt =====
-- `cmd_lint` and `cmd_only`: the lockfiles can be read, and a tool's lock holds its one pin.
pub mod Only
use linuxmuster_radius.Prelude.{
  Bool, true, false, not, ◌&&◌, Option, none, some, List, [], ◌∷◌, ◌++◌, Text, codes, text_eq, map,
  partition, strip, splitlines, if◌then◌else◌,
}
use linuxmuster_radius.Lockfile.{ℕ, Pin, Complaint, not_the_one_pin, not_the_input, parse}
use linuxmuster_radius.Lockfile.Names.{select}
use linuxmuster_radius.Lockfile.Closure.{canonical}
use linuxmuster_radius.Models.Fields.{nonempty}

-- `report`: whether all is well, and the exit code.
abbrev pub exit_code : List Complaint → ℕ
exit_code [] = 0
exit_code (e ∷ errors) = 1

-- The errors of `cmd_lint`.
unfoldable pub lint : List Text → List Complaint
unfolding parse
lint [] = []
lint (lock ∷ locks) = (parse lock).1 ++ lint locks

abbrev pub texts_eq : List Text → List Text → Bool
texts_eq [] [] = true
texts_eq [] (t ∷ ts) = false
texts_eq (s ∷ ss) [] = false
texts_eq (s ∷ ss) (t ∷ ts) = text_eq s t && texts_eq ss ts

-- `reqs`: the lines of the input file, which is ASCII, without comments and blanks, where any is left.
unfoldable pub input_requirements : Text → List Text
unfolding select splitlines strip partition
input_requirements input =
    select nonempty (map (λ line. strip ((partition b'#' line).0)) (splitlines input))

-- `str(pin)`, with the name given.
abbrev pub pin_text : Text → Text → Text
pin_text name version = name ++ codes "==" ++ version

-- `if args.input and len(pins) == 1`
unfoldable pub input_errors : Text → Option Text → List Pin → List Complaint
unfolding input_requirements
input_errors name (some input) (p ∷ []) =
    if texts_eq (input_requirements input) (pin_text name p.version ∷ [])
    then []
    else not_the_input ∷ []
input_errors name (some input) [] = []
input_errors name (some input) (p ∷ q ∷ ps) = []
input_errors name none ps = []

-- The errors of `cmd_only`.
unfoldable pub only : (Text → Text) → Text → Text → Option Text → List Complaint
unfolding parse input_errors
only lower name lock input =
    let (pins, errs) = parse lock in
    let wanted = canonical lower name in
    errs
    ++ (if texts_eq (map (λ p. p.name) pins) (wanted ∷ []) then [] else not_the_one_pin ∷ [])
    ++ input_errors wanted input pins
