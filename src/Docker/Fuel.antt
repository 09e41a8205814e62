-- ===== src/Docker/Fuel.antt =====
-- How much fuel `_wait_settled` needs: one round for each second of the timeout, and one more.
use linuxmuster_radius.Prelude.{
  ℕ, zero, suc, ◌+◌, ◌*◌, ◌≤◌, ◌≡◌, ◌≢◌, refl, Bool, true, false, Option, none, some, Text, leb,
  arith, inl, inr, Bool-cases,
}
use linuxmuster_radius.Exec.{Exec, Result, ok, err}
use linuxmuster_radius.Host.{Host}
use linuxmuster_radius.World.{World}
use linuxmuster_radius.World.Clock.{Clock, Advances, clock_rules}
use linuxmuster_radius.Docker.Config.{Config, settle_poll}
use linuxmuster_radius.Docker.View.{Status}
use linuxmuster_radius.Docker.Inspect.{
  get_container, error_line, last_error, status_of, status, is_settled, watch_next, watch_judge,
  watch, wait_settled,
}

module _ (H : Host) (C : Clock H) where
  get_container-Advances : (name : Text) → Advances C (get_container H name)
  unfolding get_container
  get_container-Advances name = search (clock_rules, C.after_get)

  error_line-Advances : (c : H.Container) → Advances C (error_line H c)
  unfolding error_line
  error_line-Advances c = search (clock_rules, C.after_logs)

  last_error-Advances : (c : H.Container) (b : Bool) → Advances C (last_error H c b)
  unfolding last_error
  last_error-Advances c false = search clock_rules
  last_error-Advances c true = search (clock_rules, error_line-Advances)

  status_of-Advances : (name : Text) (c : Option H.Container) → Advances C (status_of H name c)
  unfolding status_of
  status_of-Advances name none = search clock_rules
  status_of-Advances name (some c) =
      search (clock_rules, C.after_inspect, C.after_tags, last_error-Advances) depth 12

  pub status-Advances : (name : Text) → Advances C (status H name)
  unfolding status
  status-Advances name = search (clock_rules, get_container-Advances, status_of-Advances)

  next_ends :
      (again : Exec (World H) (Option Status)) (n deadline : ℕ) (settled : Bool) (st : Status)
      (w : World H)
      → deadline ≤ C.time w.host + n * settle_poll
      → ((u : World H) (m : ℕ)
          → n ≡ suc m
          → deadline ≤ C.time u.host + m * settle_poll
          → (again u).0 ≢ ok none)
      → (watch_next H again deadline settled st w).0 ≢ ok none
  unfolding watch_next
  next_ends again n deadline true st w enough later = ground arith
  next_ends again zero deadline false st w enough later =
      let now = C.reading w.host in
      elim (Bool-cases (leb deadline (H.monotonic w.host).0)) [
        | inl over ↦ rw over (ground arith)
        | inr before ↦ ground arith
      ]
  next_ends again (suc n) deadline false st w enough later =
      let read = C.after_reading w.host in
      let slept = C.after_sleep settle_poll (H.monotonic w.host).1 in
      elim (Bool-cases (leb deadline (H.monotonic w.host).0)) [
        | inl over ↦ rw over (ground arith)
        | inr before ↦ rw before (later _ n refl (omega arith))
      ]

  judge_ends :
      (again : Exec (World H) (Option Status)) (n deadline : ℕ) (r : Result Status) (w : World H)
      → deadline ≤ C.time w.host + n * settle_poll
      → ((u : World H) (m : ℕ)
          → n ≡ suc m
          → deadline ≤ C.time u.host + m * settle_poll
          → (again u).0 ≢ ok none)
      → (watch_judge H again deadline r w).0 ≢ ok none
  unfolding watch_judge
  judge_ends again n deadline (err e) w enough later = ground arith
  judge_ends again n deadline (ok st) w enough later =
      next_ends again n deadline (is_settled H st) st w enough later

  watch_ends :
      (n deadline : ℕ) (name : Text) (w : World H)
      → deadline ≤ C.time w.host + n * settle_poll
      → (watch H (suc n) deadline name w).0 ≢ ok none
  unfolding watch
  watch_ends zero deadline name w enough =
      judge_ends (watch H zero deadline name) zero deadline (status H name w).0 (status H name w).1
        (let later = (status-Advances name).at w in omega arith) (λ u m no. ground arith)
  watch_ends (suc n) deadline name w enough =
      judge_ends (watch H (suc n) deadline name) (suc n) deadline (status H name w).0
        (status H name w).1 (let later = (status-Advances name).at w in omega arith)
        (λ u m is_suc left. watch_ends n deadline name u (grind arith))

  -- If the clock is not set back and sleeping moves it on, _wait_settled ends within as many
  -- seconds as cover the timeout, and one round more.
  pub wait_settled-ends :
      (cfg : Config) (rounds : ℕ) (name : Text) (w : World H)
      → cfg.settle_timeout ≤ rounds * settle_poll
      → (wait_settled H (suc rounds) cfg name w).0 ≢ ok none
  unfolding wait_settled
  wait_settled-ends cfg rounds name w enough =
      watch_ends rounds _ name _
        (let now = C.reading w.host in let read = C.after_reading w.host in grind arith)
