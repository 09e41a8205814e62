-- ===== src/Updater.antt =====
-- controlplane/lmnradius/updater.py: image updates that are kept only if the container turns healthy.
pub mod Records
pub mod Waiting
pub mod Fuel
pub mod Consistency
use linuxmuster_radius.Prelude.{
  ℕ, zero, suc, ◌+◌, Bool, true, false, not, ◌&&◌, ◌||◌, leb, Option, none, some, List, [], ◌∷◌,
  Text, codes, strip, text_eq, if◌then◌else◌,
}
use linuxmuster_radius.Exec.{
  Exec, Result, ok, err, Error, pure, raise, catch, gets, modify, or_raise, ◌>>=◌, ◌>>◌, key_error,
  file_not_found,
}
use linuxmuster_radius.Dict
use linuxmuster_radius.Models.Types.{Instance}
use linuxmuster_radius.Models.Fields.{Stdlib}
use linuxmuster_radius.Host.{Host}
use linuxmuster_radius.World.{World, ask}
use linuxmuster_radius.Store
use linuxmuster_radius.Store.Files.{prev_file}
use linuxmuster_radius.Docker.Config.{Config}
use linuxmuster_radius.Docker.View.{Status, is_health, health, running, crash_looping, exists}
use linuxmuster_radius.Docker.Inspect.{status}
use linuxmuster_radius.Reconciler.{apply}

-- What one look at the container decides: healthy, failed, or wait on.
pub data Verdict : Type 0 where
  turned_healthy failed undecided : Verdict

abbrev pub no_health : Option Text → Bool
no_health none = true
no_health (some h) = false

unfoldable pub verdict : Status → Verdict
unfolding is_health
verdict st =
    if is_health (codes "healthy") (health st)
    then turned_healthy
    else if is_health (codes "unhealthy") (health st)
    then failed
    else if crash_looping st
    then failed
    else if exists st && not (running st) && no_health (health st)
    then failed
    else undecided

-- What `update` returns: the update was kept, or rolled back, after an error or after the wait.
pub data Outcome : Type 0 where
  kept : Text → Text → Text → Outcome
  rolled_back : Text → Text → Text → Option Error → Outcome

-- One entry of `update_all`.
pub data Entry : Type 0 where
  skipped : Text → Entry
  attempted : Option Outcome → Entry
  errored : Text → Error → Entry

-- `inst.model_copy(update={"image": image})`
abbrev pub with_image : Text → Instance → Instance
with_image image inst = record inst { image = image }

-- `health_timeout` and `poll_interval` are in milliseconds, `fuel` bounds the polls of each wait.
module _ (H : Host) (py : Stdlib) (cfg : Config) (health_timeout poll_interval fuel : ℕ) where
  abbrev pub sleep : ℕ → World H → World H
  sleep t w = record w { host = H.sleep t w.host }

  -- What follows a look in the loop of `_wait_healthy`; `again` is the next round.
  unfoldable pub poll_next :
      Exec (World H) (Option Bool) → ℕ → Verdict → Exec (World H) (Option Bool)
  poll_next again deadline turned_healthy w = (ok (some true), w)
  poll_next again deadline failed w = (ok (some false), w)
  poll_next again deadline undecided w =
      let (now, s) = H.monotonic w.host in
      let w' = record w { host = s } in
      if leb deadline now then (ok (some false), w') else again (sleep poll_interval w')

  unfoldable pub poll_judge :
      Exec (World H) (Option Bool) → ℕ → Result Status → Exec (World H) (Option Bool)
  unfolding poll_next verdict
  poll_judge again deadline (err e) w = (err e, w)
  poll_judge again deadline (ok st) w = poll_next again deadline (verdict st) w

  -- The loop of `_wait_healthy`. `none` means that the fuel has run out.
  unfoldable pub poll : ℕ → ℕ → Text → Exec (World H) (Option Bool)
  unfolding status poll_judge
  poll zero deadline name w = (ok none, w)
  poll (suc n) deadline name w =
      let (r, w') = status H name w in poll_judge (poll n deadline name) deadline r w'

  -- `_wait_healthy`
  unfoldable pub wait_healthy : Text → Exec (World H) (Option Bool)
  unfolding poll
  wait_healthy name = do now ← ask H.monotonic; poll fuel (now + health_timeout) name

  abbrev pub write_prev : Text → Text → World H → World H
  write_prev name image w = record w { instances = Dict.put w.instances (prev_file name) image }

  -- Restores the image that `inst` still carries.
  unfoldable pub roll_back : Text → Instance → Text → Option Error → Exec (World H) (Option Outcome)
  unfolding apply
  roll_back name inst new_image error = do
    apply H py cfg fuel inst
    pure (some (rolled_back name inst.image new_image error))

  -- The end of `update`, by what `_wait_healthy` says.
  unfoldable pub conclude : Text → Instance → Text → Option Bool → Exec (World H) (Option Outcome)
  unfolding roll_back
  conclude name inst new_image none = pure none
  conclude name inst new_image (some true) = pure (some (kept name new_image inst.image))
  conclude name inst new_image (some false) = roll_back name inst new_image none

  -- Whether the new image was applied, or the error that it ended in.
  abbrev pub apply_outcome : Result (Option Status) → Option Error
  apply_outcome (ok st) = none
  apply_outcome (err e) = some e

  unfoldable pub try_apply : Instance → Exec (World H) (Option Error)
  unfolding apply
  try_apply inst w = let (r, w') = apply H py cfg fuel inst w in (ok (apply_outcome r), w')

  unfoldable pub after_apply :
      Text → Instance → Text → Option Error → Exec (World H) (Option Outcome)
  unfolding roll_back wait_healthy conclude
  after_apply name inst new_image (some e) = roll_back name inst new_image (some e)
  after_apply name inst new_image none = do
    healthy ← wait_healthy name
    conclude name inst new_image healthy

  -- `update`, for the instance that was found.
  unfoldable pub update_found : Text → Instance → Text → Exec (World H) (Option Outcome)
  unfolding try_apply after_apply
  update_found name inst new_image = do
    modify (write_prev name inst.image)
    error ← try_apply (with_image new_image inst)
    after_apply name inst new_image error

  -- `Updater.update`
  unfoldable pub update : Text → Text → Exec (World H) (Option Outcome)
  unfolding Store.get update_found
  update name new_image = do
    found ← Store.get H py name
    inst ← or_raise found (key_error name)
    update_found name inst new_image

  -- One instance of `update_all`: any error is recorded, and the others follow.
  unfoldable pub update_one : Text → Instance → World H → Entry × World H
  unfolding update text_eq
  update_one target inst w =
      let (r, w') = update inst.name target w in
      if text_eq inst.image target
      then (skipped inst.name, w)
      else (elim r [ ok o ↦ attempted o | err e ↦ errored inst.name e ], w')

  unfoldable pub update_each : Text → List Instance → World H → List Entry × World H
  unfolding update_one
  update_each target [] w = ([], w)
  update_each target (inst ∷ insts) w =
      let (entry, w') = update_one target inst w in
      let (entries, w'') = update_each target insts w' in (entry ∷ entries, w'')

  -- `Updater.update_all`
  unfoldable pub update_all : Text → World H → List Entry × World H
  unfolding Store.list update_each
  update_all target w = update_each target (Store.list H py w) w

  -- `Updater.rollback`, which returns the image that it went back to.
  unfoldable pub rollback : Text → Exec (World H) Text
  unfolding Store.get apply strip
  rollback name = do
    found ← Store.get H py name
    inst ← or_raise found (key_error name)
    recorded ← gets (λ w. Dict.get w.instances (prev_file name))
    content ← or_raise recorded (file_not_found "no previous image recorded")
    let previous = strip content
    apply H py cfg fuel (with_image previous inst)
    pure previous
