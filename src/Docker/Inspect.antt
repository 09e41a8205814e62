-- ===== src/Docker/Inspect.antt =====
-- Looking at a container: `_get`, `_pull`, `status`, `_wait_settled`, `logs` and the log helpers.
use linuxmuster_radius.Prelude.{
  ℕ, zero, suc, ◌+◌, Bool, true, false, not, ◌||◌, leb, Option, none, some, List, [], ◌∷◌, Text,
  codes, contains, strip, splitlines, join, length, if◌then◌else◌,
}
use linuxmuster_radius.Exec.{
  Result, Exec, ok, err, Error, pure, raise, catch, ◌>>=◌, not_found, image_not_found, api_error,
}
use linuxmuster_radius.Host.{Host}
use linuxmuster_radius.World.{World, call, ask}
use linuxmuster_radius.Docker.Config.{Config, container_name_of, settle_poll}
use linuxmuster_radius.Docker.View.{
  Status, absent, present, state_view, is_health, health, running, crash_looping,
}
use linuxmuster_radius.Docker.Images.{pull_args}

-- The classes of docker-py: `ImageNotFound` is a `NotFound`, and that an `APIError`.
abbrev pub is_not_found : Error → Bool
is_not_found not_found = true
is_not_found image_not_found = true
is_not_found e = false

abbrev pub is_api_error : Error → Bool
is_api_error not_found = true
is_api_error image_not_found = true
is_api_error api_error = true
is_api_error e = false

-- `pick_error_line`: the last line with the first of the markers that occurs at all.
abbrev hit_or : Option Text → Bool → Text → Option Text
hit_or (some t) b l = some t
hit_or none true l = some l
hit_or none false l = none

unfoldable pub last_hit : Text → List Text → Option Text
unfolding contains
last_hit marker [] = none
last_hit marker (l ∷ ls) = hit_or (last_hit marker ls) (contains l marker) l

unfoldable pub last_line : Text → List Text → Text
last_line d [] = d
last_line d (l ∷ ls) = last_line l ls

abbrev first_some : Option Text → Text → Text
first_some none d = d
first_some (some t) d = t

unfoldable pub pick_error_line : List Text → Text
unfolding last_hit last_line strip
pick_error_line lines = strip (
    first_some (last_hit (codes "FATAL") lines) (
      first_some (last_hit (codes "Error:") lines)
        (first_some (last_hit (codes "LOG3[") lines) (last_line (codes "(no log output)") lines))))

-- The lines that a `grep` leaves; an empty pattern filters nothing.
unfoldable pub grep_lines : Text → List Text → List Text
unfolding contains
grep_lines pattern [] = []
grep_lines pattern (l ∷ ls) =
    let rest = grep_lines pattern ls in if contains l pattern then l ∷ rest else rest

unfoldable pub grep_text : Option Text → Text → Text
unfolding grep_lines splitlines join
grep_text none text = text
grep_text (some []) text = text
grep_text (some (c ∷ s)) text = join (10 ∷ []) (grep_lines (c ∷ s) (splitlines text))

abbrev head? : List Text → Option Text
head? [] = none
head? (t ∷ ts) = some t

-- `_tail`: the last eight lines.
unfoldable pub last_lines : ℕ → List Text → List Text
last_lines n [] = []
last_lines n (l ∷ ls) =
    let rest = last_lines n ls in if leb (length (l ∷ ls)) n then l ∷ ls else rest

unfoldable pub tail_text : Text → Text
unfolding last_lines strip splitlines join
tail_text out = join (10 ∷ []) (last_lines 8 (splitlines (strip out)))

module _ (H : Host) where
  -- `_get`
  unfoldable pub get_container : Text → Exec (World H) (Option H.Container)
  get_container name =
      catch (do c ← call (H.get_container (container_name_of name)); pure (some c))
        (λ e. if is_not_found e then pure none else raise e)

  -- `_pull`
  unfoldable pub pull : Text → Exec (World H) (Unit {0})
  unfolding pull_args
  pull image = call (H.pull (pull_args image).0 (pull_args image).1)

  -- `except APIError: lines = []`
  unfoldable pub error_line : H.Container → Exec (World H) Text
  unfolding pick_error_line splitlines
  error_line c = do
    text ←
        catch (call (H.container_logs c 600 none none))
          (λ e. if is_api_error e then pure [] else raise e)
    pure (pick_error_line (splitlines text))

  unfoldable pub last_error : H.Container → Bool → Exec (World H) (Option Text)
  unfolding error_line
  last_error c false = pure none
  last_error c true = do line ← error_line c; pure (some line)

  unfoldable pub status_of : Text → Option H.Container → Exec (World H) Status
  unfolding state_view last_error
  status_of name none = pure (absent name)
  status_of name (some c) = do
    attrs ← call (H.inspect c)
    let view = state_view attrs
    tags ← call (H.image_tags c)
    error ← last_error c view.crash_looping
    pure (present name view (head? tags) error)

  -- `status`
  unfoldable pub status : Text → Exec (World H) Status
  unfolding get_container status_of
  status name = do c ← get_container name; status_of name c

  -- When `_wait_settled` stops watching, apart from the deadline.
  unfoldable pub is_settled : Status → Bool
  unfolding is_health
  is_settled st =
      is_health (codes "healthy") (health st)
      || is_health (codes "unhealthy") (health st)
      || crash_looping st
      || not (running st)

  abbrev sleep : ℕ → World H → World H
  sleep t w = record w { host = H.sleep t w.host }

  -- What follows a look in the loop of `_wait_settled`; `again` is the next round. The clock is
  -- read only where the status has not settled.
  unfoldable pub watch_next :
      Exec (World H) (Option Status) → ℕ → Bool → Status → Exec (World H) (Option Status)
  watch_next again deadline true st w = (ok (some st), w)
  watch_next again deadline false st w =
      let (now, s) = H.monotonic w.host in
      let w' = record w { host = s } in
      if leb deadline now then (ok (some st), w') else again (sleep settle_poll w')

  unfoldable pub watch_judge :
      Exec (World H) (Option Status) → ℕ → Result Status → Exec (World H) (Option Status)
  unfolding watch_next is_settled
  watch_judge again deadline (err e) w = (err e, w)
  watch_judge again deadline (ok st) w = watch_next again deadline (is_settled st) st w

  -- The loop of `_wait_settled`. `none` means that the fuel has run out.
  unfoldable pub watch : ℕ → ℕ → Text → Exec (World H) (Option Status)
  unfolding status watch_judge
  watch zero deadline name w = (ok none, w)
  watch (suc fuel) deadline name w =
      let (r, w') = status name w in watch_judge (watch fuel deadline name) deadline r w'

  -- `_wait_settled`
  unfoldable pub wait_settled : ℕ → Config → Text → Exec (World H) (Option Status)
  unfolding watch
  wait_settled fuel cfg name = do now ← ask H.monotonic; watch fuel (now + cfg.settle_timeout) name

  unfoldable pub logs_of :
      Option H.Container → ℕ → Option ℕ → Option ℕ → Option Text → Exec (World H) Text
  unfolding grep_text
  logs_of none tail since until grep = pure []
  logs_of (some c) tail since until grep = do
    text ← call (H.container_logs c tail since until)
    pure (grep_text grep text)

  -- `logs`
  unfoldable pub logs : Text → ℕ → Option ℕ → Option ℕ → Option Text → Exec (World H) Text
  unfolding get_container logs_of
  logs name tail since until grep = do c ← get_container name; logs_of c tail since until grep
