-- ===== src/Lockfile/Published/Offline.antt =====
-- `cmd_pypi` without a network: it stops at the first pin, after three attempts.
use linuxmuster_radius.Prelude.{
  ℕ, suc, ◌+◌, ◌≡◌, ◌≢◌, ◌⊎◌, inl, inr, refl, ap, ◌∙◌, true, false, List, [], ◌∷◌, Text, arith,
}
use linuxmuster_radius.Lockfile.{Pin, Complaint, parse}
use linuxmuster_radius.Lockfile.Published.{
  Reply, document, http_error, no_answer, os_error, broken, Step, goes_on, refused, gave_up, url_of,
  prefix_step, after_attempt, fetch_json, checked, published, after_answer, check_pins, after_lock,
  check_lock, check_locks, pypi_code, pypi,
}

abbrev GaveUp : Step → Type 0
GaveUp s = pypi_code s ≡ 3

prefix-GaveUp : (errors : List Complaint) (s : Step) → GaveUp s → GaveUp (prefix_step errors s)
unfolding pypi_code
prefix-GaveUp errors (goes_on []) h = ground (arith, h)
prefix-GaveUp errors (goes_on (c ∷ more)) h = ground (arith, h)
prefix-GaveUp errors (refused [] c) h = ground (arith, h)
prefix-GaveUp errors (refused (d ∷ more) c) h = ground (arith, h)
prefix-GaveUp errors (gave_up more c) h = refl

-- A lockfile without errors has a pin.
abbrev pub AnyPin : List Text → Type 0
AnyPin [] = ⊥
AnyPin (lock ∷ locks) = (((parse lock).1 ≡ []) × ((parse lock).0 ≢ [])) ⊎ AnyPin locks

-- `count` counts the attempts, and no attempt is answered.
module _ (N : Type 0) (open_url : Text → N → Reply × N) (count : N → ℕ)
    (silent : (url : Text) (n : N) → (open_url url n).0 ≡ no_answer)
    (counted : (url : Text) (n : N) → count (open_url url n).1 ≡ suc (count n)) where
  retried :
      (again : N → Reply × N) (q : Reply × N)
      → q.0 ≡ no_answer
      → after_attempt N open_url again false q ≡ again q.1
  unfolding after_attempt
  retried again (no_answer, n) e = refl
  retried again (document r, n) e = ground (arith, e)
  retried again (http_error code, n) e = ground (arith, e)
  retried again (os_error, n) e = ground (arith, e)
  retried again (broken, n) e = ground (arith, e)

  failed :
      (again : N → Reply × N) (q : Reply × N)
      → q.0 ≡ no_answer
      → after_attempt N open_url again true q ≡ q
  unfolding after_attempt
  failed again (no_answer, n) e = refl
  failed again (document r, n) e = ground (arith, e)
  failed again (http_error code, n) e = ground (arith, e)
  failed again (os_error, n) e = ground (arith, e)
  failed again (broken, n) e = ground (arith, e)

  three_attempts :
      (url : Text) (n : N)
      → let q = fetch_json N open_url (1 ∷ 2 ∷ 3 ∷ []) url n in
        (q.0 ≡ no_answer) × (count q.1 ≡ count n + 3)
  unfolding fetch_json
  three_attempts url n =
      let n1 = (open_url url n).1 in
      let n2 = (open_url url n1).1 in
      rw
        (
          retried (fetch_json N open_url (2 ∷ 3 ∷ []) url) (open_url url n) (silent url n),
          retried (fetch_json N open_url (3 ∷ []) url) (open_url url n1) (silent url n1),
          failed (fetch_json N open_url [] url) (open_url url n2) (silent url n2),
        )
        (silent url n2, omega (counted url n, counted url n1, counted url n2, arith))

  stopped :
      (again : N → Step × N) (p : Pin) (q : Reply) (n : N)
      → q ≡ no_answer
      → let r = after_answer N open_url again p (checked p q, n) in GaveUp r.0 × (r.1 ≡ n)
  unfolding after_answer pypi_code
  stopped again p no_answer n e = (refl, refl)
  stopped again p (document r) n e = ground (arith, e)
  stopped again p (http_error code) n e = ground (arith, e)
  stopped again p os_error n e = ground (arith, e)
  stopped again p broken n e = ground (arith, e)

  -- The step has given up, after three more attempts.
  abbrev Stops : N → Step × N → Type 0
  Stops n q = GaveUp q.0 × (count q.1 ≡ count n + 3)

  pins-Stops : (p : Pin) (ps : List Pin) (n : N) → Stops n (check_pins N open_url (p ∷ ps) n)
  unfolding check_pins published
  pins-Stops p ps n =
      let q = fetch_json N open_url (1 ∷ 2 ∷ 3 ∷ []) (url_of p) n in
      let (silence, counts) = three_attempts (url_of p) n in
      let (gives_up, same) = stopped (check_pins N open_url ps) p q.0 q.1 silence in
      (gives_up, ap count same ∙ counts)

  stays :
      (again : N → Step × N) (n : N) (q : Step × N)
      → Stops n q
      → Stops n (after_lock N open_url again q)
  unfolding after_lock pypi_code
  stays again n (goes_on [], m) h = ground (arith, h.0)
  stays again n (goes_on (c ∷ errors), m) h = ground (arith, h.0)
  stays again n (refused errors c, m) h = h
  stays again n (gave_up errors c, m) h = h

  lock-Stops :
      (again : N → Step × N) (ps : List Pin) (errs : List Complaint) (n : N)
      → ((errs ≡ []) × (ps ≢ [])) ⊎ Stops n (again n)
      → Stops n (check_lock N open_url again ps errs n)
  unfolding check_lock
  lock-Stops again (p ∷ ps) [] n h =
      stays again n (check_pins N open_url (p ∷ ps) n) (pins-Stops p ps n)
  lock-Stops again [] [] n (inl h) = absurd (h.1 refl)
  lock-Stops again [] [] n (inr h) = (prefix-GaveUp [] (again n).0 h.0, h.1)
  lock-Stops again ps (c ∷ errs) n (inl h) = ground (arith, h.0)
  lock-Stops again ps (c ∷ errs) n (inr h) = (prefix-GaveUp (c ∷ errs) (again n).0 h.0, h.1)

  locks-Stops :
      (locks : List Text) (n : N) → AnyPin locks → Stops n (check_locks N open_url locks n)
  unfolding check_locks
  locks-Stops [] n h = absurd h
  locks-Stops (lock ∷ locks) n (inl here) =
      lock-Stops (check_locks N open_url locks) (parse lock).0 (parse lock).1 n (inl here)
  locks-Stops (lock ∷ locks) n (inr later) =
      lock-Stops (check_locks N open_url locks) (parse lock).0 (parse lock).1 n
        (inr (locks-Stops locks n later))

  -- If no attempt is answered and some lockfile that can be read has a pin, the pypi gate exits
  -- with 3 after exactly three attempts.
  pub pypi_offline :
      (locks : List Text) (n : N)
      → AnyPin locks
      → let (code, m) = pypi N open_url locks n in (code ≡ 3) × (count m ≡ count n + 3)
  unfolding pypi
  pypi_offline locks n h = locks-Stops locks n h
