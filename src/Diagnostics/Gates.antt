-- ===== src/Diagnostics/Gates.antt =====
-- What the console test reports, and that it changes no record.
use linuxmuster_radius.Prelude.{
  ℤ, ◌≡◌, refl, sym, subst, Option, none, some, List, [], ◌∷◌, ◌++◌, ◌||◌, Text, codes, contains,
  arith,
}
use linuxmuster_radius.Exec.{Exec, Result, ok, err, pure, ◌>>=◌}
use linuxmuster_radius.Exec.Chains.{bind-ok, bind_lem, ok_injective}
use linuxmuster_radius.Models.Types.{Ssid, Instance}
use linuxmuster_radius.Host.{Host}
use linuxmuster_radius.World.{World}
use linuxmuster_radius.World.Frames.{
  KeepsInstances, KeepsInstances-bind, KeepsInstances-pure, frame_rules,
}
use linuxmuster_radius.Docker.Frames.{get_container-Keeps}
use linuxmuster_radius.Diagnostics.{
  Gate, Trust, Login, exec, check_login, check_gates, login_ok, login_report, test_user,
  test_container, test, is_zero, interpret_ntlm, ntlm_args,
}

module _ (lower upper : Text → Text) (H : Host) where
  -- What ntlm_auth is asked: whether the password is right and the user is in the group.
  abbrev pub asking : Instance → Text → Text → Text → List Text
  asking inst user password group =
      codes "ntlm_auth"
      ∷ codes "--request-nt-key"
      ∷ codes "--allow-mschapv2"
      ∷ (codes "--domain=" ++ inst.workgroup)
      ∷ (codes "--username=" ++ user)
      ∷ (codes "--password=" ++ password)
      ∷ (codes "--require-membership-of=" ++ (inst.workgroup ++ (codes "\\" ++ group)))
      ∷ []

  -- The row of an SSID, by what ntlm_auth answers for the SSID's group between two states.
  pub record Previewed (c : H.Container) (inst : Instance) (user password : Text) (s : Ssid)
      (g : Gate) (w w' : World H) : Type 0 where
    pub ssid : g.ssid ≡ s.name
    pub group : g.group ≡ s.allowed_group
    pub vlan : g.vlan ≡ s.vlan
    pub code : ℤ
    pub out : Text
    pub answered :
        H.exec_run c (asking inst user password s.allowed_group) w.host ≡ (ok (code, out), w'.host)
    pub same : w' ≡ record w { host = w'.host }
    pub member : g.member ≡ (is_zero code || contains (upper out) (codes "NT_STATUS_OK"))

  -- One row for each SSID, each by a question of its own, in their order.
  pub data Preview (c : H.Container) (inst : Instance) (user password : Text)
      : List Ssid → List Gate → World H → World H → Type 0 where
    done : (w : World H) → Preview c inst user password [] [] w w
    row :
        (s : Ssid) (g : Gate) {ss : List Ssid} {gs : List Gate} {w w' w'' : World H}
        → Previewed c inst user password s g w w'
        → Preview c inst user password ss gs w' w''
        → Preview c inst user password (s ∷ ss) (g ∷ gs) w w''

  abbrev row_of : Ssid → Login → Gate
  row_of s v = record { ssid = s.name; group = s.allowed_group; vlan = s.vlan; member = login_ok v }

  login_ok-interpret_ntlm :
      (code : ℤ) (out : Text)
      → login_ok (interpret_ntlm lower upper code out)
        ≡ (is_zero code || contains (upper out) (codes "NT_STATUS_OK"))
  unfolding interpret_ntlm
  login_ok-interpret_ntlm code out = ground arith

  answered-Previewed :
      (c : H.Container) (inst : Instance) (user password : Text) (s : Ssid) (v : Login)
      (w : World H) (r : Result (ℤ × Text)) (h : H.State)
      → H.exec_run c (asking inst user password s.allowed_group) w.host ≡ (r, h)
      → (((λ t. (r, record w { host = h })) >>= λ p.
            pure {S = World H} (interpret_ntlm lower upper p.0 p.1))
          w).0
        ≡ ok v
      → Previewed c inst user password s (row_of s v) w (record w { host = h })
  answered-Previewed c inst user password s v w (err x) h asked e = ground (arith, e)
  answered-Previewed c inst user password s v w (ok (code, out)) h asked e = record {
    ssid = refl;
    group = refl;
    vlan = refl;
    code = code;
    out = out;
    answered = asked;
    same = refl;
    member = rw (← ok_injective _ v e) (login_ok-interpret_ntlm code out);
  }

  login_state :
      (w : World H) (r : Result (ℤ × Text)) (h : H.State)
      → (((λ t. (r, record w { host = h })) >>= λ p.
            pure {S = World H} (interpret_ntlm lower upper p.0 p.1))
          w).1
        ≡ record w { host = h }
  login_state w (ok p) h = refl
  login_state w (err x) h = refl

  check_login-Previewed :
      (c : H.Container) (inst : Instance) (user password : Text) (s : Ssid) (v : Login)
      (w : World H)
      → (check_login lower upper H c inst user password s.allowed_group w).0 ≡ ok v
      → Previewed c inst user password s
          (row_of s v)
          w
          (check_login lower upper H c inst user password s.allowed_group w).1
  unfolding check_login exec ntlm_args
  check_login-Previewed c inst user password s v w e =
      let (r, h) = H.exec_run c (asking inst user password s.allowed_group) w.host in
      subst (Previewed c inst user password s (row_of s v) w) (sym (login_state w r h))
        (answered-Previewed c inst user password s v w r h refl e)

  -- A gate preview that returns has one row for each SSID of the instance, in their order, with
  -- the SSID's name, group and VLAN; for each, ntlm_auth was asked once about the group of that
  -- SSID, and the row says that the user is a member exactly if it has exited with 0 or has
  -- answered NT_STATUS_OK.
  pub check_gates-Preview :
      (c : H.Container) (inst : Instance) (user password : Text) (ssids : List Ssid)
      (rows : List Gate) (w : World H)
      → (check_gates lower upper H c inst user password ssids w).0 ≡ ok rows
      → Preview c inst user password ssids rows w
          (check_gates lower upper H c inst user password ssids w).1
  unfolding check_gates
  check_gates-Preview c inst user password [] [] w e = done w
  check_gates-Preview c inst user password [] (g ∷ gs) w e = ground (arith, e)
  check_gates-Preview c inst user password (s ∷ ss) rows w e =
      let ask = check_login lower upper H c inst user password s.allowed_group in
      let more = check_gates lower upper H c inst user password ss in
      let behind : Login → Exec (World H) (List Gate) =
        λ v. more >>= λ rest. pure (row_of s v ∷ rest) in
      let (v, checked, e') = bind-ok ask behind rows w e in
      let (rest, previewed, e'') = bind-ok more (λ rest. pure (row_of s v ∷ rest)) rows _ e' in
      rw
        (
          bind_lem ask behind v w checked,
          bind_lem more (λ rest. pure (row_of s v ∷ rest)) rest (ask w).1 previewed,
          ← ok_injective _ _ e'',
        )
        (row s (row_of s v) (check_login-Previewed c inst user password s v w checked)
          (check_gates-Preview c inst user password ss rest (ask w).1 previewed))

  check_login-Keeps :
      (c : H.Container) (inst : Instance) (user password group : Text)
      → KeepsInstances (check_login lower upper H c inst user password group)
  unfolding check_login exec
  check_login-Keeps c inst user password group = search frame_rules

  check_gates-Keeps :
      (c : H.Container) (inst : Instance) (user password : Text) (ssids : List Ssid)
      → KeepsInstances (check_gates lower upper H c inst user password ssids)
  unfolding check_gates
  check_gates-Keeps c inst user password [] = search frame_rules
  check_gates-Keeps c inst user password (s ∷ ss) =
      KeepsInstances-bind (check_login lower upper H c inst user password s.allowed_group)
        (λ v.
          check_gates lower upper H c inst user password ss >>= λ rest. pure (row_of s v ∷ rest))
        (check_login-Keeps c inst user password s.allowed_group)
        (λ v.
          KeepsInstances-bind (check_gates lower upper H c inst user password ss)
            (λ rest. pure (row_of s v ∷ rest)) (check_gates-Keeps c inst user password ss)
            (λ rest. KeepsInstances-pure _))

  login_report-Keeps :
      (c : H.Container) (inst : Instance) (t : Trust) (user password : Text)
      → KeepsInstances (login_report lower upper H c inst t user password)
  unfolding login_report
  login_report-Keeps c inst t user password =
      search (frame_rules, check_login-Keeps, check_gates-Keeps) depth 10

  test_user-Keeps :
      (c : H.Container) (inst : Instance) (t : Trust) (user password : Option Text)
      → KeepsInstances (test_user lower upper H c inst t user password)
  unfolding test_user
  test_user-Keeps c inst t none password = search frame_rules
  test_user-Keeps c inst t (some user) password = search (frame_rules, login_report-Keeps)

  test_container-Keeps :
      (inst : Instance) (user password : Option Text) (c : Option H.Container)
      → KeepsInstances (test_container lower upper H inst user password c)
  unfolding test_container exec
  test_container-Keeps inst user password none = search frame_rules
  test_container-Keeps inst user password (some c) = search (frame_rules, test_user-Keeps) depth 12

  -- The console test changes no file of the instances directory, also where it raises.
  pub test-Keeps :
      (inst : Instance) (user password : Option Text)
      → KeepsInstances (test lower upper H inst user password)
  unfolding test
  test-Keeps inst user password = search (frame_rules, get_container-Keeps, test_container-Keeps)
