-- ===== src/Models/Subnets.antt =====
-- The client subnets that an instance may have: none has an address of the loopback networks.
use linuxmuster_radius.Prelude.{
  ℕ, ◌≡◌, Bool, true, false, ◌&&◌, List, [], ◌∷◌, ◌++◌, Text, some, arith, and-left, and-right, all,
  not-eq-true,
}
use linuxmuster_radius.Models.Network.{
  Network, has_address, loopback_v4, loopback_v6, covers_loopback, overlaps_of_common,
}
use linuxmuster_radius.Models.Fields.{Stdlib, nonempty, v_cidr, v_client_subnets}

all_middle :
    (p : Text → Bool) (xs ys : List Text) (y : Text) → all p (xs ++ y ∷ ys) ≡ true → p y ≡ true
all_middle p [] ys y h = and-left (p y) (all p ys) h
all_middle p (x ∷ xs) ys y h = all_middle p xs ys y (and-right (p x) (all p (xs ++ y ∷ ys)) h)

not_covered :
    (net : Network) (a : ℕ)
    → covers_loopback net ≡ false
    → ((has_address 4 a net && has_address 4 a loopback_v4) ≡ false)
      × ((has_address 6 a net && has_address 6 a loopback_v6) ≡ false)
unfolding covers_loopback
not_covered net a h =
    ground (arith, overlaps_of_common net loopback_v4 a, overlaps_of_common net loopback_v6 a)

module _ (py : Stdlib) where
  v_cidr-covers_loopback :
      (cidr : Text) (net : Network)
      → v_cidr py cidr ≡ true
      → py.ip_network cidr ≡ some net
      → covers_loopback net ≡ false
  unfolding v_cidr
  v_cidr-covers_loopback cidr net h e = not-eq-true _ (rw (v_cidr, e) at h)

  -- No address of a network that is accepted among the client subnets is a loopback address, of
  -- either IP version.
  pub v_client_subnets_lem :
      (before after : List Text) (cidr : Text) (net : Network) (a : ℕ)
      → v_client_subnets py (before ++ cidr ∷ after) ≡ true
      → py.ip_network cidr ≡ some net
      → ((has_address 4 a net && has_address 4 a loopback_v4) ≡ false)
        × ((has_address 6 a net && has_address 6 a loopback_v6) ≡ false)
  unfolding v_client_subnets
  v_client_subnets_lem before after cidr net a h e =
      let every =
        and-right (nonempty (before ++ cidr ∷ after)) (all (v_cidr py) (before ++ cidr ∷ after))
          h in
      not_covered net a
        (v_cidr-covers_loopback cidr net (all_middle (v_cidr py) before after cidr every) e)
