-- ===== src/Lockfile/Published.antt =====
-- `fetch_json`, `published` and `cmd_pypi`: every hash is one that PyPI publishes for its version.
pub mod Answers
pub mod Offline
use linuxmuster_radius.Prelude.{
  ℕ, zero, suc, Bool, true, false, ◌||◌, ◌==◌, List, [], ◌∷◌, ◌++◌, Text, codes, text_eq, any,
  if◌then◌else◌,
}
use linuxmuster_radius.Lockfile.{Pin, Complaint, not_published, cannot_read, parse}
use linuxmuster_radius.Lockfile.Single.{exit_code, pin_text}

-- What the source reads of a release's JSON document.
pub record Release : Type 0 where
  pub version : Text
  pub digests : List Text

-- What `urlopen` and `json.load` come to: a document, an HTTPError with its status, a URLError or a
-- TimeoutError, another OSError, or any other exception (no JSON, or a field is missing).
pub data Reply : Type 0 where
  document : Release → Reply
  http_error : ℕ → Reply
  no_answer os_error broken : Reply

-- What the loop over the lockfiles comes to: it goes on with these errors, or the command ends with
-- one more, because PyPI gave a wrong answer or because it gave none.
pub data Step : Type 0 where
  goes_on : List Complaint → Step
  refused gave_up : List Complaint → Complaint → Step

abbrev pub url_of : Pin → Text
url_of p = codes "https://pypi.org/pypi/" ++ p.name ++ codes "/" ++ p.version ++ codes "/json"

-- The hashes that are not among the known ones.
unfoldable pub unknown_hashes : List Text → ℕ → List Text → List Complaint
unfolding text_eq
unknown_hashes known line [] = []
unknown_hashes known line (h ∷ hs) =
    let rest = unknown_hashes known line hs in
    if any (text_eq h) known then rest else not_published line h ∷ rest

abbrev pub prefix_step : List Complaint → Step → Step
prefix_step errors (goes_on more) = goes_on (errors ++ more)
prefix_step errors (refused more e) = refused (errors ++ more) e
prefix_step errors (gave_up more e) = gave_up (errors ++ more) e

-- Exit code 3: nothing was verified.
abbrev unreachable : ℕ
unreachable = 3

-- A document for another version is an error.
abbrev pub checked : Pin → Reply → Reply
checked p (document r) = if text_eq r.version p.version then document r else broken
checked p (http_error code) = http_error code
checked p no_answer = no_answer
checked p os_error = os_error
checked p broken = broken

-- The exit code of `cmd_pypi`.
unfoldable pub pypi_code : Step → ℕ
pypi_code (goes_on errors) = exit_code errors
pypi_code (refused errors e) = exit_code (errors ++ e ∷ [])
pypi_code (gave_up errors e) = unreachable

-- `open_url` is `urlopen` with `json.load`, on the state `N` of the network.
module _ (N : Type 0) (open_url : Text → N → Reply × N) where
  -- What follows one attempt: an answer is final, and so is a 404 and the last attempt's error.
  unfoldable pub after_attempt : (N → Reply × N) → Bool → Reply × N → Reply × N
  after_attempt again final (document r, n) = (document r, n)
  after_attempt again final (http_error code, n) = elim (code == 404 || final) [
    | true ↦ (http_error code, n)
    | false ↦ again n
  ]
  after_attempt again final (no_answer, n) = elim final [ true ↦ (no_answer, n) | false ↦ again n ]
  after_attempt again final (os_error, n) = (os_error, n)
  after_attempt again final (broken, n) = (broken, n)

  -- `fetch_json`, over the attempts left; its exceptions are replies, the last of them unreachable.
  unfoldable pub fetch_json : List ℕ → Text → N → Reply × N
  unfolding after_attempt
  fetch_json [] url n = (broken, n)
  fetch_json (attempt ∷ attempts) url n =
      after_attempt (fetch_json attempts url) (attempt == 3) (open_url url n)

  -- `published`
  unfoldable pub published : Pin → N → Reply × N
  unfolding fetch_json text_eq
  published p n = let (reply, m) = fetch_json (1 ∷ 2 ∷ 3 ∷ []) (url_of p) n in (checked p reply, m)

  -- What follows an answer about a pin: `again` is the loop over the pins after it.
  unfoldable pub after_answer : (N → Step × N) → Pin → Reply × N → Step × N
  unfolding unknown_hashes
  after_answer again p (document r, n) =
      let (step, m) = again n in (prefix_step (unknown_hashes r.digests p.line p.hashes) step, m)
  after_answer again p (http_error code, n) = (refused [] (cannot_read p.name), n)
  after_answer again p (no_answer, n) = (gave_up [] (cannot_read p.name), n)
  after_answer again p (os_error, n) = (gave_up [] (cannot_read p.name), n)
  after_answer again p (broken, n) = (refused [] (cannot_read p.name), n)

  unfoldable pub check_pins : List Pin → N → Step × N
  unfolding published after_answer
  check_pins [] n = (goes_on [], n)
  check_pins (p ∷ ps) n = after_answer (check_pins ps) p (published p n)

  -- What follows a lockfile: `again` is the loop over the lockfiles after it.
  unfoldable pub after_lock : (N → Step × N) → Step × N → Step × N
  after_lock again (goes_on errors, n) = let (step, m) = again n in (prefix_step errors step, m)
  after_lock again (refused errors e, n) = (refused errors e, n)
  after_lock again (gave_up errors e, n) = (gave_up errors e, n)

  -- A lockfile, by its errors.
  unfoldable pub check_lock : (N → Step × N) → List Pin → List Complaint → N → Step × N
  unfolding check_pins after_lock
  check_lock again ps [] n = after_lock again (check_pins ps n)
  check_lock again ps (e ∷ errs) n = let (step, m) = again n in (prefix_step (e ∷ errs) step, m)

  unfoldable pub check_locks : List Text → N → Step × N
  unfolding parse check_lock
  check_locks [] n = (goes_on [], n)
  check_locks (lock ∷ locks) n = check_lock (check_locks locks) (parse lock).0 (parse lock).1 n

  -- `cmd_pypi`
  unfoldable pub pypi : List Text → N → ℕ × N
  unfolding check_locks pypi_code
  pypi locks n = let (step, m) = check_locks locks n in (pypi_code step, m)
