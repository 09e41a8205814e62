-- ===== src/Updater/Fuel.antt =====
-- How much fuel `_wait_healthy` needs: one round for each poll interval of the timeout, and one more.
use linuxmuster_radius.Prelude.{
  ℕ, zero, suc, ◌+◌, ◌*◌, ◌≤◌, ◌≡◌, ◌≢◌, refl, Bool, Option, none, Text, leb, arith, inl, inr,
  Bool-cases,
}
use linuxmuster_radius.Exec.{Exec, Result, ok, err}
use linuxmuster_radius.Models.Fields.{Stdlib}
use linuxmuster_radius.Host.{Host}
use linuxmuster_radius.World.{World}
use linuxmuster_radius.World.Clock.{Clock}
use linuxmuster_radius.Docker.Fuel.{status-Advances}
use linuxmuster_radius.Docker.Config.{Config}
use linuxmuster_radius.Docker.View.{Status}
use linuxmuster_radius.Docker.Inspect.{status}
use linuxmuster_radius.Updater.{
  Verdict, turned_healthy, failed, undecided, verdict, poll, poll_judge, poll_next, wait_healthy,
}

module _ (H : Host) (C : Clock H) (py : Stdlib) (cfg : Config) (timeout interval fuel : ℕ) where
  -- One round, with `n` intervals left and `again` for the rounds after it.
  next_ends :
      (again : Exec (World H) (Option Bool)) (n deadline : ℕ) (v : Verdict) (w : World H)
      → deadline ≤ C.time w.host + n * interval
      → ((u : World H) (m : ℕ)
          → n ≡ suc m
          → deadline ≤ C.time u.host + m * interval
          → (again u).0 ≢ ok none)
      → (poll_next H py cfg timeout interval fuel again deadline v w).0 ≢ ok none
  unfolding poll_next
  next_ends again n deadline turned_healthy w enough later = ground arith
  next_ends again n deadline failed w enough later = ground arith
  next_ends again zero deadline undecided w enough later =
      let now = C.reading w.host in
      elim (Bool-cases (leb deadline (H.monotonic w.host).0)) [
        | inl over ↦ rw over (ground arith)
        | inr before ↦ ground arith
      ]
  next_ends again (suc n) deadline undecided w enough later =
      let read = C.after_reading w.host in
      let slept = C.after_sleep interval (H.monotonic w.host).1 in
      elim (Bool-cases (leb deadline (H.monotonic w.host).0)) [
        | inl over ↦ rw over (ground arith)
        | inr before ↦ rw before (later _ n refl (omega arith))
      ]

  judge_ends :
      (again : Exec (World H) (Option Bool)) (n deadline : ℕ) (r : Result Status) (w : World H)
      → deadline ≤ C.time w.host + n * interval
      → ((u : World H) (m : ℕ)
          → n ≡ suc m
          → deadline ≤ C.time u.host + m * interval
          → (again u).0 ≢ ok none)
      → (poll_judge H py cfg timeout interval fuel again deadline r w).0 ≢ ok none
  unfolding poll_judge
  judge_ends again n deadline (err e) w enough later = ground arith
  judge_ends again n deadline (ok st) w enough later =
      next_ends again n deadline (verdict st) w enough later

  poll_ends :
      (n deadline : ℕ) (name : Text) (w : World H)
      → deadline ≤ C.time w.host + n * interval
      → (poll H py cfg timeout interval fuel (suc n) deadline name w).0 ≢ ok none
  unfolding poll
  poll_ends zero deadline name w enough =
      judge_ends (poll H py cfg timeout interval fuel zero deadline name) zero deadline
        (status H name w).0 (status H name w).1
        (let later = (status-Advances H C name).at w in omega arith) (λ u m no. ground arith)
  poll_ends (suc n) deadline name w enough =
      judge_ends (poll H py cfg timeout interval fuel (suc n) deadline name) (suc n) deadline
        (status H name w).0 (status H name w).1
        (let later = (status-Advances H C name).at w in omega arith)
        (λ u m is_suc left. poll_ends n deadline name u (grind arith))

module _ (H : Host) (C : Clock H) (py : Stdlib) (cfg : Config) (timeout interval rounds : ℕ) where
  -- If the clock is not set back and sleeping moves it on, _wait_healthy ends within as many poll
  -- intervals as cover the timeout, and one round more.
  pub wait_healthy-ends :
      (name : Text) (w : World H)
      → timeout ≤ rounds * interval
      → (wait_healthy H py cfg timeout interval (suc rounds) name w).0 ≢ ok none
  unfolding wait_healthy
  wait_healthy-ends name w enough =
      poll_ends H C py cfg timeout interval (suc rounds) rounds _ name _
        (let now = C.reading w.host in let read = C.after_reading w.host in grind arith)
