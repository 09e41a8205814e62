-- ===== src/Docker/HostIp.antt =====
-- `detect_host_ip`: the address of this host. A call that raises an OSError or a ValueError is
-- `none`.
use linuxmuster_radius.Prelude.{
  true, false, Option, none, some, List, [], ◌∷◌, Text, if◌then◌else◌, codes, is_space, split, take,
  text_eq, map, push_first,
}
use linuxmuster_radius.Host.{Host}

-- The parts of a text between its white space.
unfoldable pieces : Text → List Text
unfolding is_space
pieces [] = [] ∷ []
pieces (c ∷ s) = let rest = pieces s in if is_space c then [] ∷ rest else push_first c rest

abbrev without_empty : List Text → List Text
without_empty [] = []
without_empty ([] ∷ ws) = without_empty ws
without_empty ((c ∷ w) ∷ ws) = (c ∷ w) ∷ without_empty ws

-- `line.split()`
unfoldable pub words : Text → List Text
unfolding pieces
words line = without_empty (pieces line)

abbrev drop_first : List Text → List Text
drop_first [] = []
drop_first (l ∷ ls) = ls

-- `[line.split() for line in fh.readlines()[1:]]`
unfoldable pub rows : Text → List (List Text)
unfolding split words
rows text = map words (drop_first (split 10 text))

-- `next(row[0] for row in rows if len(row) > 1 and row[1] == "00000000")`
unfoldable pub default_interface : List (List Text) → Option Text
unfolding text_eq
default_interface [] = none
default_interface ([] ∷ more) = default_interface more
default_interface ((name ∷ []) ∷ more) = default_interface more
default_interface ((name ∷ destination ∷ rest) ∷ more) =
    let later = default_interface more in
    if text_eq destination (codes "00000000") then some name else later

module _ (H : Host) where
  -- A source address that is no loopback address.
  unfoldable pub usable : Option Text → Option Text
  usable none = none
  usable (some candidate) = elim (H.is_loopback candidate) [
    | none ↦ none
    | some true ↦ none
    | some false ↦ some candidate
  ]

  abbrev address_of : Option Text → H.State → Option Text × H.State
  address_of none s = (none, s)
  address_of (some name) s = H.interface_address (take 15 name) s

  -- The address of the interface of the default route.
  unfoldable pub routed : Option Text → H.State → Option Text × H.State
  unfolding rows default_interface take
  routed none s = (none, s)
  routed (some table) s = address_of (default_interface (rows table)) s

  abbrev or_routed : Option Text → H.State → Option Text × H.State
  or_routed (some ip) s = (some ip, s)
  or_routed none s = let (table, s') = H.route_table s in routed table s'

  unfoldable pub detect_host_ip : Text → H.State → Option Text × H.State
  unfolding usable routed
  detect_host_ip target s =
      let (candidate, s') = H.source_address target s in or_routed (usable candidate) s'
