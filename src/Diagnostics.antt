-- ===== src/Diagnostics.antt =====
-- controlplane/lmnradius/diagnostics.py, with `_exec` and `test` of docker_service.py, which run the
-- tools that it interprets.
pub mod Gates
use linuxmuster_radius.Prelude.{
  take, ℕ, ℤ, pos, negsuc, zero, suc, Bool, true, false, ◌&&◌, ◌||◌, Option, none, some, List, [],
  ◌∷◌, ◌++◌, Text, codes, contains, strip, splitlines, if◌then◌else◌,
}
use linuxmuster_radius.Exec.{Exec, pure, ◌>>=◌, ◌>>◌}
use linuxmuster_radius.Models.Types.{Ssid, Instance}
use linuxmuster_radius.Host.{Host}
use linuxmuster_radius.World.{World, call}
use linuxmuster_radius.Docker.Inspect.{get_container}

-- The verdicts of `interpret_trust` and `interpret_ntlm`, one for each code and fixed detail.
pub data Trust : Type 0 where
  trust_up not_answering trust_broken : Trust

pub data Login : Type 0 where
  accepted wrong_password no_such_user logon_failure winbind_unavailable : Login
  other_failure : Text → Login

-- `["ok"]`
abbrev pub login_ok : Login → Bool
login_ok accepted = true
login_ok l = false

abbrev pub is_zero : ℤ → Bool
is_zero (pos zero) = true
is_zero (pos (suc n)) = false
is_zero (negsuc n) = false

-- The first line of the output, at most 200 characters of it.
unfoldable pub first_line : List Text → Text
unfolding take
first_line [] = codes "unknown ntlm_auth error"
first_line (l ∷ ls) = take 200 l

-- One row of the preview.
pub record Gate : Type 0 where
  pub ssid : Text
  pub group : Text
  pub vlan : Option ℤ
  pub member : Bool

-- What `test` returns, by how far it gets.
pub data Report : Type 0 where
  no_container not_running : Report
  trust_only : Trust → Report
  full : Trust → Login → List Gate → Report

-- `lower` and `upper` are `str.lower` and `str.upper`.
module _ (lower upper : Text → Text) where
  unfoldable pub interpret_trust : ℤ → Text → Trust
  unfolding contains
  interpret_trust exit_code output =
      let low = lower output in
      if is_zero exit_code && contains low (codes "succeeded")
      then trust_up
      else if contains low (codes "not_available") || contains low (codes "not available")
      then not_answering
      else trust_broken

  unfoldable pub interpret_ntlm : ℤ → Text → Login
  unfolding contains first_line strip splitlines
  interpret_ntlm exit_code output =
      let up = upper output in
      if is_zero exit_code || contains up (codes "NT_STATUS_OK")
      then accepted
      else if contains up (codes "WRONG_PASSWORD")
      then wrong_password
      else if contains up (codes "NO_SUCH_USER")
      then no_such_user
      else if contains up (codes "LOGON_FAILURE")
      then logon_failure
      else if contains up (codes "WINBIND_NOT_AVAILABLE")
          || contains up (codes "COULD NOT OBTAIN WINBIND")
      then winbind_unavailable
      else other_failure (first_line (splitlines (strip output)))

  module _ (H : Host) where
    -- `_exec`
    unfoldable pub exec : H.Container → List Text → Exec (World H) (ℤ × Text)
    exec c cmd = call (H.exec_run c cmd)

    -- The arguments of `ntlm_auth`: the user, the password, and the group to be a member of.
    unfoldable pub ntlm_args : Instance → Text → Text → Text → List Text
    ntlm_args inst user password group =
        codes "ntlm_auth"
        ∷ codes "--request-nt-key"
        ∷ codes "--allow-mschapv2"
        ∷ (codes "--domain=" ++ inst.workgroup)
        ∷ (codes "--username=" ++ user)
        ∷ (codes "--password=" ++ password)
        ∷ (codes "--require-membership-of=" ++ (inst.workgroup ++ (codes "\\" ++ group)))
        ∷ []

    unfoldable pub check_login : H.Container → Instance → Text → Text → Text → Exec (World H) Login
    unfolding exec ntlm_args interpret_ntlm
    check_login c inst user password group = do
      (code, out) ← exec c (ntlm_args inst user password group)
      pure (interpret_ntlm code out)

    unfoldable pub check_gates :
        H.Container → Instance → Text → Text → List Ssid → Exec (World H) (List Gate)
    unfolding check_login
    check_gates c inst user password [] = pure []
    check_gates c inst user password (s ∷ ss) = do
      verdict ← check_login c inst user password s.allowed_group
      rest ← check_gates c inst user password ss
      pure (
          record {
            ssid = s.name;
            group = s.allowed_group;
            vlan = s.vlan;
            member = login_ok verdict;
          }
          ∷ rest)

    -- The preview runs only where the password is known to be right.
    abbrev pub wants_gates : Login → Bool
    wants_gates accepted = true
    wants_gates logon_failure = true
    wants_gates l = false

    unfoldable pub login_report :
        H.Container → Instance → Trust → Text → Text → Exec (World H) Report
    unfolding check_login check_gates
    login_report c inst trust user password = do
      login ← check_login c inst user password inst.wifi_group
      gates ← (if wants_gates login then check_gates c inst user password inst.ssids else pure [])
      pure (full trust login gates)

    -- An f-string prints a missing password as `None`.
    abbrev password_text : Option Text → Text
    password_text none = codes "None"
    password_text (some p) = p

    unfoldable pub test_user :
        H.Container → Instance → Trust → Option Text → Option Text → Exec (World H) Report
    unfolding login_report
    test_user c inst trust none password = pure (trust_only trust)
    test_user c inst trust (some user) password =
        login_report c inst trust user (password_text password)

    unfoldable pub test_container :
        Instance → Option Text → Option Text → Option H.Container → Exec (World H) Report
    unfolding exec interpret_trust test_user
    test_container inst user password none = pure no_container
    test_container inst user password (some c) = do
      attrs ← call (H.inspect c)
      if attrs.running
          then (do
            (code, out) ← exec c (codes "wbinfo" ∷ codes "-t" ∷ [])
            test_user c inst (interpret_trust code out) user password)
          else pure not_running

    -- `DockerService.test`
    unfoldable pub test : Instance → Option Text → Option Text → Exec (World H) Report
    unfolding get_container test_container
    test inst user password = do c ← get_container H inst.name; test_container inst user password c
