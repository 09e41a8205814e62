-- ===== src/Updater/Waiting.antt =====
-- What `_wait_healthy` decides, and what becomes of an update where it raises.
use linuxmuster_radius.Prelude.{
  ℕ, zero, suc, ◌≡◌, refl, ◌∙◌, Bool, true, false, Option, none, some, Text, codes, arith, leb, inl,
  inr, Bool-cases, ap, ◌+◌,
}
use linuxmuster_radius.Exec.{Exec, Result, ok, err, Error, pure, is_ok}
use linuxmuster_radius.Exec.Chains.{bind-ok, bind_lem}
use linuxmuster_radius.Models.Types.{Instance}
use linuxmuster_radius.Models.Fields.{Stdlib}
use linuxmuster_radius.Host.{Host}
use linuxmuster_radius.World.{World}
use linuxmuster_radius.Docker.Config.{Config}
use linuxmuster_radius.Docker.View.{Status, is_health, health}
use linuxmuster_radius.Docker.Inspect.{status}
use linuxmuster_radius.Reconciler.{apply}
use linuxmuster_radius.Updater.{
  Verdict, turned_healthy, failed, undecided, verdict, kept, rolled_back, with_image, poll,
  poll_judge, poll_next, wait_healthy, roll_back, conclude, try_apply, after_apply, update_found,
  write_prev, apply_outcome, sleep,
}

-- Only a healthy container is judged healthy.
healthy_verdict :
    (st : Status) → verdict st ≡ turned_healthy → is_health (codes "healthy") (health st) ≡ true
unfolding verdict
healthy_verdict st e = ground arith

module _ (H : Host) (py : Stdlib) (cfg : Config) (timeout interval fuel : ℕ) where
  -- The looks at a container from one state to another: each before the last was answered, and
  -- followed by a clock reading before the deadline and a sleep; the last found it healthy.
  pub data Looks (name : Text) (deadline : ℕ) : World H → World H → Type 0 where
    healthy_look :
        (st : Status) {w w' : World H}
        → status H name w ≡ (ok st, w')
        → is_health (codes "healthy") (health st) ≡ true
        → Looks name deadline w w'
    look_again :
        (st : Status) {w w' v : World H}
        → status H name w ≡ (ok st, w')
        → leb deadline (H.monotonic w'.host).0 ≡ false
        → Looks name deadline
            (sleep H py cfg timeout interval fuel interval
              (record w' { host = (H.monotonic w'.host).1 }))
            v
        → Looks name deadline w v

  -- The looks after the container was started: the clock is read for the deadline first.
  abbrev pub SeenHealthy : Text → World H → World H → Type 0
  SeenHealthy name started after =
      let (now, host) = H.monotonic started.host in
      Looks name (now + timeout) (record started { host = host }) after

  next_seen :
      (again : Exec (World H) (Option Bool)) (deadline : ℕ) (name : Text) (st : Status)
      (w w' : World H) (v : Verdict)
      → verdict st ≡ v
      → status H name w ≡ (ok st, w')
      → ((u : World H) → (again u).0 ≡ ok (some true) → Looks name deadline u (again u).1)
      → (poll_next H py cfg timeout interval fuel again deadline v w').0 ≡ ok (some true)
      → Looks name deadline w (poll_next H py cfg timeout interval fuel again deadline v w').1
  unfolding poll_next
  next_seen again deadline name st w w' turned_healthy v looked later h =
      healthy_look st looked (healthy_verdict st v)
  next_seen again deadline name st w w' failed v looked later h = ground arith
  next_seen again deadline name st w w' undecided v looked later h =
      elim (Bool-cases (leb deadline (H.monotonic w'.host).0)) [
        | inl over ↦ let h' = rw over at h in ground arith
        | inr before ↦ rw before (look_again st looked before (later _ (rw before at h)))
      ]

  judged_seen :
      (again : Exec (World H) (Option Bool)) (deadline : ℕ) (name : Text) (r : Result Status)
      (w w' : World H)
      → status H name w ≡ (r, w')
      → ((v : World H) → (again v).0 ≡ ok (some true) → Looks name deadline v (again v).1)
      → (poll_judge H py cfg timeout interval fuel again deadline r w').0 ≡ ok (some true)
      → Looks name deadline w (poll_judge H py cfg timeout interval fuel again deadline r w').1
  unfolding poll_judge
  judged_seen again deadline name (err e) w w' looked later h = ground arith
  judged_seen again deadline name (ok st) w w' looked later h =
      next_seen again deadline name st w w' (verdict st) refl looked later h

  poll_seen :
      (n deadline : ℕ) (name : Text) (w : World H)
      → (poll H py cfg timeout interval fuel n deadline name w).0 ≡ ok (some true)
      → Looks name deadline w (poll H py cfg timeout interval fuel n deadline name w).1
  unfolding poll
  poll_seen zero deadline name w e = ground arith
  poll_seen (suc n) deadline name w e =
      judged_seen (poll H py cfg timeout interval fuel n deadline name) deadline name
        (status H name w).0 w (status H name w).1 refl (λ v. poll_seen n deadline name v) e

  roll_back_not_kept :
      (name : Text) (inst : Instance) (new n i p : Text) (x : Option Error) (w : World H)
      → (roll_back H py cfg timeout interval fuel name inst new x w).0 ≡ ok (some (kept n i p))
      → ⊥
  unfolding roll_back
  roll_back_not_kept name inst new n i p x w e =
      let (st, applied, e') =
        bind-ok (apply H py cfg fuel inst) (λ st. pure (some (rolled_back name inst.image new x)))
          (some (kept n i p)) w e in
      ground arith

  concluded_seen :
      (name : Text) (inst : Instance) (new n i p : Text) (h : Option Bool) (w : World H)
      → (conclude H py cfg timeout interval fuel name inst new h w).0 ≡ ok (some (kept n i p))
      → (h ≡ some true) × (n ≡ name) × (i ≡ new) × (p ≡ inst.image)
  unfolding conclude
  concluded_seen name inst new n i p none w e = ground arith
  concluded_seen name inst new n i p (some true) w e = ground arith
  concluded_seen name inst new n i p (some false) w e =
      ground (arith, roll_back_not_kept name inst new n i p none w e)

  conclude_kept :
      (name : Text) (inst : Instance) (new : Text) (h : Option Bool) (w : World H)
      → h ≡ some true
      → (conclude H py cfg timeout interval fuel name inst new h w).1 ≡ w
  unfolding conclude
  conclude_kept name inst new h w good = rw good refl

  after_apply_seen :
      (name : Text) (inst : Instance) (new n i p : Text) (error : Option Error) (w : World H)
      → (after_apply H py cfg timeout interval fuel name inst new error w).0
        ≡ ok (some (kept n i p))
      → (error ≡ none)
        × (i ≡ new)
        × (p ≡ inst.image)
        × SeenHealthy name w (after_apply H py cfg timeout interval fuel name inst new error w).1
  unfolding after_apply wait_healthy
  after_apply_seen name inst new n i p (some x) w e =
      ground (arith, roll_back_not_kept name inst new n i p (some x) w e)
  after_apply_seen name inst new n i p none w e =
      let wait = wait_healthy H py cfg timeout interval fuel name in
      let (h, waited, e') =
        bind-ok wait (conclude H py cfg timeout interval fuel name inst new) _ w e in
      let (good, _, is_new, is_old) = concluded_seen name inst new n i p h _ e' in
      (
        refl,
        is_new,
        is_old,
        rw
            (
              bind_lem wait (conclude H py cfg timeout interval fuel name inst new) h w waited,
              conclude_kept name inst new h (wait w).1 good,
            )
            (poll_seen fuel _ name _ (waited ∙ ap (λ x. ok x) good)),
      )

  applied_ok :
      (r : Result (Option Status))
      → apply_outcome H py cfg timeout interval fuel r ≡ none
      → is_ok r ≡ true
  applied_ok (ok st) e = refl
  applied_ok (err x) e = ground arith

  -- An update is reported as kept only if applying the new image raised nothing and, of the looks
  -- at the container that follow from the state which that left, the last, with which the update
  -- ends, found it healthy, and every earlier one was followed by a clock reading before the
  -- deadline; the report names the new image and the one before.
  pub update_found-kept :
      (name : Text) (inst : Instance) (new n i p : Text) (w : World H)
      → (update_found H py cfg timeout interval fuel name inst new w).0 ≡ ok (some (kept n i p))
      → let applied =
          apply H py cfg fuel
            (with_image new inst)
            (write_prev H py cfg timeout interval fuel name inst.image w) in
        (is_ok applied.0 ≡ true)
        × (i ≡ new)
        × (p ≡ inst.image)
        × SeenHealthy name applied.1 (update_found H py cfg timeout interval fuel name inst new w).1
  unfolding update_found try_apply
  update_found-kept name inst new n i p w e =
      let applied =
        apply H py cfg fuel (with_image new inst)
          (write_prev H py cfg timeout interval fuel name inst.image w) in
      let (fine, is_new, is_old, seen) =
        after_apply_seen name inst new n i p
          (apply_outcome H py cfg timeout interval fuel applied.0) applied.1 e in
      (applied_ok applied.0 fine, is_new, is_old, seen)
