-- ===== src/Tests/Models.antt =====
-- The theorems on the instance model, applied to the sample.
use linuxmuster_radius.Prelude.{◌≡◌, refl, ◌&&◌, true, false, [], ◌∷◌, codes}
use linuxmuster_radius.Models.Network.{has_address, loopback_v4, loopback_v6}
use linuxmuster_radius.Models.Fields.{v_client_subnets}
use linuxmuster_radius.Models.Subnets.{v_client_subnets_lem}
use linuxmuster_radius.Tests.Sample.{sample_py, school_network}

school-valid : v_client_subnets sample_py (codes "10.0.0.0/8" ∷ []) ≡ true
unfolding v_client_subnets linuxmuster_radius.Models.Network.covers_loopback
school-valid = refl

-- 10.0.0.1
v_client_subnets_lem_example :
    ((has_address 4 167772161 school_network && has_address 4 167772161 loopback_v4) ≡ false)
    × ((has_address 6 167772161 school_network && has_address 6 167772161 loopback_v6) ≡ false)
v_client_subnets_lem_example =
    v_client_subnets_lem sample_py [] [] (codes "10.0.0.0/8") school_network 167772161 school-valid
      refl
