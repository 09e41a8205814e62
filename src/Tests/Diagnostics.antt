-- ===== src/Tests/Diagnostics.antt =====
-- The theorems on the console test, applied to the sample.
use linuxmuster_radius.Prelude.{◌≡◌, refl, true, [], ◌∷◌, Text, codes}
use linuxmuster_radius.Exec.{ok}
use linuxmuster_radius.Diagnostics.{Gate, check_gates}
use linuxmuster_radius.Diagnostics.Gates.{Preview, check_gates-Preview}
use linuxmuster_radius.Tests.Sample.{sample, sample_host, sample_world, teachers}

abbrev same : Text → Text
same t = t

abbrev staff_gate : Gate
staff_gate = record {
  ssid = codes "staff";
  group = codes "teachers";
  vlan = teachers.vlan;
  member = true;
}

gates-staff :
    (check_gates same same sample_host tt sample
      (codes "u")
      (codes "p")
      (teachers ∷ [])
      sample_world).0
    ≡ ok (staff_gate ∷ [])
unfolding check_gates
gates-staff = refl

check_gates-Preview_example :
    Preview same same sample_host tt sample
      (codes "u")
      (codes "p")
      (teachers ∷ [])
      (staff_gate ∷ [])
      sample_world
      (check_gates same same sample_host tt sample
        (codes "u")
        (codes "p")
        (teachers ∷ [])
        sample_world).1
check_gates-Preview_example =
    check_gates-Preview same same sample_host tt sample (codes "u") (codes "p") (teachers ∷ [])
      (staff_gate ∷ []) sample_world gates-staff
