-- ===== src/Tests/Lockfile.antt =====
-- The theorems on the gates, applied to a lockfile with one pin and to an environment with two
-- distributions.
use linuxmuster_radius.Prelude.{
  ℕ, ◌+◌, ◌≡◌, ◌≢◌, ◌≤◌, ◌↔◌, inl, refl, sym, ap, subst, arith, true, none, some, List, [], ◌∷◌,
  Text, codes, All, any, text_eq,
}
use linuxmuster_radius.Dict
use linuxmuster_radius.Regex.Language.{fullmatch_sound, Matches}
use linuxmuster_radius.Lockfile.{Pin, parse, file_lines, project_re, version_re, digest_re}
use linuxmuster_radius.Lockfile.Grammar.{Reads}
use linuxmuster_radius.Lockfile.Parsing.{AllPrintable, parse_iff}
use linuxmuster_radius.Lockfile.Print.{Entry, unlines, print_lines, entry_pins, parse-print_lines}
use linuxmuster_radius.Lockfile.Closure.{Requirement, Distribution, closure}
use linuxmuster_radius.Lockfile.Closure.Fuel.{enough_rounds, closure-ends}
use linuxmuster_radius.Lockfile.Closure.Outcome.{IsClosed, closure_iff}
use linuxmuster_radius.Lockfile.Freeze.{freeze}
use linuxmuster_radius.Lockfile.Freeze.Exact.{IsExact, freeze_iff}
use linuxmuster_radius.Lockfile.Published.{
  Reply, document, no_answer, http_error, os_error, broken, pypi,
}
use linuxmuster_radius.Lockfile.Published.Answers.{IsHonest, IsGenuine, pypi-IsGenuine}
use linuxmuster_radius.Lockfile.Published.Offline.{pypi_offline}

abbrev digest : Text
digest = codes "0123456789abcdef0123456789abcdef0123456789abcdef0123456789abcdef"

abbrev uv : Entry
uv = record { name = codes "uv"; version = codes "0.9"; digest = digest; others = [] }

abbrev lock : Text
lock = unlines (print_lines (uv ∷ []))

abbrev uv_pin : Pin
uv_pin = record { name = codes "uv"; version = codes "0.9"; line = 1; hashes = digest ∷ [] }

uv_name : Matches project_re (codes "uv")
unfolding linuxmuster_radius.Regex.fullmatch
uv_name = fullmatch_sound project_re (codes "uv") refl

uv_version : Matches version_re (codes "0.9")
unfolding linuxmuster_radius.Regex.fullmatch
uv_version = fullmatch_sound version_re (codes "0.9") refl

parsed : parse lock ≡ (uv_pin ∷ [], [])
unfolding entry_pins Dict.get
parsed = parse-print_lines (uv ∷ []) ((uv_name, uv_version, (refl, refl), tt), tt) (refl, tt)

parse-print_lines_example : parse (unlines (print_lines (uv ∷ []))) ≡ (entry_pins 1 (uv ∷ []), [])
unfolding Dict.get
parse-print_lines_example =
    parse-print_lines (uv ∷ []) ((uv_name, uv_version, (refl, refl), tt), tt) (refl, tt)

parse_iff_example :
    (parse lock ≡ (uv_pin ∷ [], []))
    ↔ (AllPrintable (file_lines lock) × Reads 1 [] none (file_lines lock) (uv_pin ∷ []))
parse_iff_example = parse_iff lock (uv_pin ∷ [])

-- `radius` requires `pip`.
abbrev pip : Distribution
pip = record { name = codes "pip"; version = codes "25"; requires = [] }

abbrev needs_pip : Requirement
needs_pip = record { name = codes "pip"; extras = []; applies = λ extra. true }

abbrev radius : Distribution
radius = record { name = codes "radius"; version = codes "1"; requires = needs_pip ∷ [] }

abbrev as_is : Text → Text
as_is t = t

rounds-two : enough_rounds as_is (codes "radius" ∷ []) (radius ∷ pip ∷ []) ≡ 2
unfolding enough_rounds linuxmuster_radius.Lockfile.Closure.push_all
    linuxmuster_radius.Lockfile.Closure.is_in Dict.get linuxmuster_radius.Lockfile.Closure.collect
    Dict.put text_eq linuxmuster_radius.Lockfile.Closure.wanted
    linuxmuster_radius.Lockfile.Closure.Fuel.mentioned
rounds-two = refl

rounds : enough_rounds as_is (codes "radius" ∷ []) (radius ∷ pip ∷ []) ≤ 3
rounds = rw rounds-two (omega arith)

closed : closure as_is 3 (codes "radius" ∷ []) (radius ∷ pip ∷ []) ≡ some []
unfolding closure Dict.get Dict.put text_eq Dict.keys
closed = refl

closure-ends_example : closure as_is 3 (codes "radius" ∷ []) (radius ∷ pip ∷ []) ≢ none
closure-ends_example = closure-ends as_is 3 (codes "radius" ∷ []) (radius ∷ pip ∷ []) rounds

closure_iff_example :
    (closure as_is 3 (codes "radius" ∷ []) (radius ∷ pip ∷ []) ≡ some [])
    ↔ IsClosed as_is (codes "radius" ∷ []) (radius ∷ pip ∷ [])
closure_iff_example = closure_iff as_is (codes "radius" ∷ []) (radius ∷ pip ∷ []) 3 rounds

freeze_iff_example :
    (freeze as_is (codes "radius" ∷ []) [] (codes "uv==0.9\nradius==1\n") (lock ∷ []) ≡ [])
    ↔ IsExact as_is (codes "radius" ∷ []) [] (codes "uv==0.9\nradius==1\n") (lock ∷ [])
freeze_iff_example =
    freeze_iff as_is (codes "radius" ∷ []) [] (codes "uv==0.9\nradius==1\n") (lock ∷ [])

-- An index that knows the one file, and a network that counts its calls and gives no answer.
abbrev index : Text → Unit {0} → Reply × Unit {0}
index url n = (document (record { version = codes "0.9"; digests = digest ∷ [] }), n)

abbrev Knows : Pin → Text → Type 0
Knows p h = any (text_eq h) (digest ∷ []) ≡ true

abbrev digests_of : Reply → List Text
digests_of (document r) = r.digests
digests_of (http_error code) = []
digests_of no_answer = []
digests_of os_error = []
digests_of broken = []

index-IsHonest : IsHonest (Unit {0}) index Knows
index-IsHonest p n r e same h found =
    subst (λ ds. any (text_eq h) ds ≡ true) (sym (ap digests_of e)) found

all_published : (pypi (Unit {0}) index (lock ∷ []) tt).0 ≡ 0
unfolding pypi unlines print_lines linuxmuster_radius.Lockfile.is_blank
    linuxmuster_radius.Lockfile.pin_match Dict.get linuxmuster_radius.Lockfile.hash_match
    linuxmuster_radius.Regex.times
all_published = refl

pypi-IsGenuine_example :
    All (λ l. ((parse l).1 ≡ []) × All (IsGenuine (Unit {0}) index Knows) (parse l).0) (lock ∷ [])
pypi-IsGenuine_example =
    pypi-IsGenuine (Unit {0}) index Knows (lock ∷ []) tt index-IsHonest all_published

abbrev offline : Text → ℕ → Reply × ℕ
offline url n = (no_answer, n + 1)

has_pin : ((parse lock).1 ≡ []) × ((parse lock).0 ≢ [])
has_pin = (ap (λ r. r.1) parsed, λ e. ground (arith, ap (λ r. r.0) parsed, e))

pypi_offline_example :
    ((pypi ℕ offline (lock ∷ []) 0).0 ≡ 3) × ((pypi ℕ offline (lock ∷ []) 0).1 ≡ 0 + 3)
pypi_offline_example =
    pypi_offline ℕ offline (λ n. n) (λ url n. refl) (λ url n. omega arith) (lock ∷ []) 0
      (inl has_pin)
