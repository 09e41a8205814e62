-- ===== src/Lockfile/Published/Answers.antt =====
-- What the exit codes of `cmd_pypi` say.
use linuxmuster_radius.Prelude.{
  ℕ, ◌≡◌, ◌⊎◌, inl, inr, refl, sym, ap, ◌∙◌, Bool, true, false, ◌||◌, ◌==◌, List, [], ◌∷◌, Text,
  text_eq, text_eq_iff, any, arith, Bool-cases, All, All-mono,
}
use linuxmuster_radius.Lockfile.{Pin, Complaint, parse}
use linuxmuster_radius.Lockfile.Names.{append_nil}
use linuxmuster_radius.Lockfile.Published.{
  Release, Reply, document, http_error, no_answer, os_error, broken, Step, goes_on, refused,
  gave_up, url_of, unknown_hashes, prefix_step, after_attempt, fetch_json, checked, published,
  after_answer, check_pins, after_lock, check_lock, check_locks, pypi_code, pypi,
}

prefix_silent :
    (errors : List Complaint) (s : Step)
    → prefix_step errors s ≡ goes_on []
    → (errors ≡ []) × (s ≡ goes_on [])
prefix_silent errors (goes_on more) e =
    let parts = (append_nil errors more).0 (ap errors_of e) in (parts.0, ap goes_on parts.1)
  where
    errors_of : Step → List Complaint
    errors_of (goes_on es) = es
    errors_of (refused es c) = es
    errors_of (gave_up es c) = es
prefix_silent errors (refused more c) e = ground (arith, e)
prefix_silent errors (gave_up more c) e = ground (arith, e)

abbrev version_or : Text → Reply → Text
version_or t (document r) = r.version
version_or t (http_error code) = t
version_or t no_answer = t
version_or t os_error = t
version_or t broken = t

code_zero : (s : Step) → pypi_code s ≡ 0 → s ≡ goes_on []
unfolding pypi_code
code_zero (goes_on []) e = refl
code_zero (goes_on (c ∷ more)) e = ground (arith, e)
code_zero (refused [] c) e = ground (arith, e)
code_zero (refused (d ∷ more) c) e = ground (arith, e)
code_zero (gave_up more c) e = ground (arith, e)

unknown_hashes_nil :
    (known : List Text) (line : ℕ) (hs : List Text)
    → unknown_hashes known line hs ≡ []
    → All (λ h. any (text_eq h) known ≡ true) hs
unfolding unknown_hashes
unknown_hashes_nil known line [] e = tt
unknown_hashes_nil known line (h ∷ hs) e = elim (Bool-cases (any (text_eq h) known)) [
  | inl found ↦ (found, unknown_hashes_nil known line hs (rw found at e))
  | inr lacking ↦ ground (arith, rw lacking at e)
]

module _ (N : Type 0) (open_url : Text → N → Reply × N) (Publishes : Pin → Text → Type 0) where
  -- A document for the pin's version lists only hashes of its files.
  abbrev pub IsHonest : Type 0
  IsHonest =
      (p : Pin) (n : N) (r : Release)
      → (open_url (url_of p) n).0 ≡ document r
      → r.version ≡ p.version
      → (h : Text) → any (text_eq h) r.digests ≡ true
      → Publishes p h

  attempted :
      (again : N → Reply × N) (final : Bool) (q : Reply × N) (r : Release)
      → (after_attempt N open_url again final q).0 ≡ document r
      → (q.0 ≡ document r) ⊎ ((m : N) × ((again m).0 ≡ document r))
  unfolding after_attempt
  attempted again final (document s, n) r e = inl e
  attempted again final (http_error code, n) r e = elim (Bool-cases (code == 404 || final)) [
    | inl stop ↦ ground (arith, rw (stop, after_attempt) at e)
    | inr retry ↦ inr (n, rw (retry, after_attempt) at e)
  ]
  attempted again true (no_answer, n) r e = ground (arith, e)
  attempted again false (no_answer, n) r e = inr (n, e)
  attempted again final (os_error, n) r e = ground (arith, e)
  attempted again final (broken, n) r e = ground (arith, e)

  fetched :
      (attempts : List ℕ) (url : Text) (n : N) (r : Release)
      → (fetch_json N open_url attempts url n).0 ≡ document r
      → (m : N) × ((open_url url m).0 ≡ document r)
  unfolding fetch_json
  fetched [] url n r e = ground (arith, e)
  fetched (attempt ∷ attempts) url n r e =
      elim (attempted (fetch_json N open_url attempts url) (attempt == 3) (open_url url n) r e) [
        | inl now ↦ (n, now)
        | inr later ↦ fetched attempts url later.0 r later.1
      ]

  checked_lem :
      (p : Pin) (q : Reply) (r : Release)
      → checked p q ≡ document r
      → (q ≡ document r) × (r.version ≡ p.version)
  checked_lem p (document s) r e = elim (Bool-cases (text_eq s.version p.version)) [
    | inl same ↦
        let is_r : document s ≡ document r = rw same at e in
        (is_r, sym (ap (version_or []) is_r) ∙ (text_eq_iff s.version p.version).0 same)
    | inr other ↦ ground (arith, rw other at e)
  ]
  checked_lem p (http_error code) r e = ground (arith, e)
  checked_lem p no_answer r e = ground (arith, e)
  checked_lem p os_error r e = ground (arith, e)
  checked_lem p broken r e = ground (arith, e)

  answered :
      (again : N → Step × N) (p : Pin) (q : Reply × N)
      → (after_answer N open_url again p q).0 ≡ goes_on []
      → (r : Release) × (q.0 ≡ document r)
        × (unknown_hashes r.digests p.line p.hashes ≡ [])
        × ((m : N) × ((again m).0 ≡ goes_on []))
  unfolding after_answer
  answered again p (document r, n) e =
      let (known, rest) = prefix_silent (unknown_hashes r.digests p.line p.hashes) (again n).0 e in
      (r, refl, known, (n, rest))
  answered again p (http_error code, n) e = ground (arith, e)
  answered again p (no_answer, n) e = ground (arith, e)
  answered again p (os_error, n) e = ground (arith, e)
  answered again p (broken, n) e = ground (arith, e)

  -- Every hash of the pin is one of its files.
  abbrev pub IsGenuine : Pin → Type 0
  IsGenuine p = All (Publishes p) p.hashes

  pins-IsGenuine :
      (ps : List Pin) (n : N)
      → IsHonest
      → (check_pins N open_url ps n).0 ≡ goes_on []
      → All IsGenuine ps
  unfolding check_pins published
  pins-IsGenuine [] n honest e = tt
  pins-IsGenuine (p ∷ ps) n honest e =
      let (r, is_r, known, (m, rest)) =
        answered (check_pins N open_url ps) p (published N open_url p n) e in
      let (fetched_r, same) =
        checked_lem p (fetch_json N open_url (1 ∷ 2 ∷ 3 ∷ []) (url_of p) n).0 r is_r in
      let (k, opened) = fetched (1 ∷ 2 ∷ 3 ∷ []) (url_of p) n r fetched_r in
      (
        All-mono _ (Publishes p) p.hashes (λ h. honest p k r opened same h)
            (unknown_hashes_nil r.digests p.line p.hashes known),
        pins-IsGenuine ps m honest rest,
      )

  after_passed :
      (again : N → Step × N) (q : Step × N)
      → (after_lock N open_url again q).0 ≡ goes_on []
      → (q.0 ≡ goes_on []) × ((m : N) × ((again m).0 ≡ goes_on []))
  unfolding after_lock
  after_passed again (goes_on errors, n) e =
      let (silent, rest) = prefix_silent errors (again n).0 e in (ap goes_on silent, (n, rest))
  after_passed again (refused errors c, n) e = ground (arith, e)
  after_passed again (gave_up errors c, n) e = ground (arith, e)

  lock_passed :
      (again : N → Step × N) (ps : List Pin) (errs : List Complaint) (n : N)
      → (check_lock N open_url again ps errs n).0 ≡ goes_on []
      → (errs ≡ [])
        × ((check_pins N open_url ps n).0 ≡ goes_on [])
        × ((m : N) × ((again m).0 ≡ goes_on []))
  unfolding check_lock
  lock_passed again ps [] n e =
      let (passed, rest) = after_passed again (check_pins N open_url ps n) e in (refl, passed, rest)
  lock_passed again ps (c ∷ errs) n e = ground (arith, (prefix_silent (c ∷ errs) (again n).0 e).0)

  locks-IsGenuine :
      (locks : List Text) (n : N)
      → IsHonest
      → (check_locks N open_url locks n).0 ≡ goes_on []
      → All (λ lock. ((parse lock).1 ≡ []) × All IsGenuine (parse lock).0) locks
  unfolding check_locks
  locks-IsGenuine [] n honest e = tt
  locks-IsGenuine (lock ∷ locks) n honest e =
      let (fine, pins, (m, rest)) =
        lock_passed (check_locks N open_url locks) (parse lock).0 (parse lock).1 n e in
      ((fine, pins-IsGenuine (parse lock).0 n honest pins), locks-IsGenuine locks m honest rest)

  -- If documents for a pin's version list only hashes of its files, and the pypi gate exits with
  -- 0, then every lockfile can be read and every hash of every pin is one of a file of that pin.
  pub pypi-IsGenuine :
      (locks : List Text) (n : N)
      → IsHonest
      → (pypi N open_url locks n).0 ≡ 0
      → All (λ lock. ((parse lock).1 ≡ []) × All IsGenuine (parse lock).0) locks
  unfolding pypi
  pypi-IsGenuine locks n honest e =
      locks-IsGenuine locks n honest (code_zero (check_locks N open_url locks n).0 e)
