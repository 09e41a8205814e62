-- ===== src/Render.antt =====
-- controlplane/lmnradius/render.py: the two configuration files of an instance, as texts.
pub mod Quoting
pub mod Accepted
use linuxmuster_radius.Prelude.{
  ℕ, suc, ◌+◌, Bool, ◌||◌, not, Option, none, some, List, [], ◌∷◌, ◌++◌, Text, codes, has, join,
  show_nat, show_int, ℤ, if◌then◌else◌, ◌==◌,
}
use linuxmuster_radius.Exec.{Result, ok, err, value_error}
use linuxmuster_radius.Models.Types.{Ssid, Instance}
use linuxmuster_radius.Models.Fields.{nonempty}

-- `value.replace(c, by)` for one character.
unfoldable pub replace : ℕ → Text → Text → Text
replace c by [] = []
replace c by (x ∷ s) = (if x == c then by else x ∷ []) ++ replace c by s

-- `_escape_config_string`
unfoldable pub escape_config_string : Text → Text
unfolding replace
escape_config_string value = replace 34 (codes "\\\"") (replace 92 (codes "\\\\") value)

abbrev pub newline : Text
newline = 10 ∷ []

unfoldable pub clients_header : Text
clients_header =
    codes "# Generated by lmnradius — one client{} per AP-management subnet."
    ++ (newline
        ++ (codes "# The container entrypoint appends the loopback healthcheck client itself."
            ++ (newline
                ++ (codes "# Do not edit by hand; it is overwritten on every reconcile."
                    ++ newline))))

-- One `client{}` block.
unfoldable pub client_block : Text → ℕ → Text → Text
client_block secret index cidr =
    let shortname = codes "ap-" ++ show_nat index in
    codes "client "
    ++ (shortname
        ++ (codes " {"
            ++ (newline
                ++ (codes "    ipaddr = "
                    ++ (cidr
                        ++ (newline
                            ++ (codes "    secret = "
                                ++ (secret
                                    ++ (newline
                                        ++ (codes "    proto = udp"
                                            ++ (newline
                                                ++ (codes "    require_message_authenticator = yes"
                                                    ++ (newline
                                                        ++ (codes "    shortname = "
                                                            ++ (shortname
                                                            ++ (newline
                                                            ++ (codes "}"
                                                            ++ newline)))))))))))))))))

unfoldable pub client_blocks : Text → ℕ → List Text → List Text
unfolding client_block
client_blocks secret index [] = []
client_blocks secret index (cidr ∷ rest) =
    client_block secret index cidr ∷ client_blocks secret (suc index) rest

-- `render_clients_conf`
unfoldable pub render_clients_conf : Instance → Text → Result Text
unfolding client_blocks clients_header
render_clients_conf inst radius_secret =
    if not (nonempty radius_secret) || has 10 radius_secret || has 13 radius_secret
    then err (value_error "radius_secret must be a non-empty single-line value")
    else ok (
        clients_header
        ++ (newline ++ join newline (client_blocks radius_secret 1 inst.client_subnets)))

unfoldable pub vlan_lines : Option ℤ → List Text
vlan_lines none = codes "        noop" ∷ []
vlan_lines (some vlan) =
    codes "        update reply {"
    ∷ codes "            &Tunnel-Type := VLAN"
    ∷ codes "            &Tunnel-Medium-Type := IEEE-802"
    ∷ (codes "            &Tunnel-Private-Group-Id := \"" ++ (show_int vlan ++ codes "\""))
    ∷ codes "        }"
    ∷ []

-- The lines of one SSID.
unfoldable pub ssid_lines : Text → Ssid → List Text
unfolding vlan_lines
ssid_lines keyword ssid =
    (keyword
      ++ (codes " (&Called-Station-SSID == \""
          ++ (escape_config_string ssid.name ++ codes "\") {")))
    ∷ (codes "    if (&LDAP-Group == \""
        ++ (escape_config_string ssid.allowed_group ++ codes "\") {"))
    ∷ (vlan_lines ssid.vlan
        ++ (codes "    }"
            ∷ codes "    else {"
            ∷ codes "        reject"
            ∷ codes "    }"
            ∷ codes "}"
            ∷ []))

-- The loop of `render_ssid_policy`: the first branch is an `if`, the others are `elsif`.
unfoldable pub branch_lines : Text → List Ssid → List Text
unfolding ssid_lines
branch_lines keyword [] = []
branch_lines keyword (ssid ∷ ssids) = ssid_lines keyword ssid ++ branch_lines (codes "elsif") ssids

unfoldable pub policy_lines : List Ssid → List Text
unfolding branch_lines
policy_lines ssids =
    branch_lines (codes "if") ssids ++ (codes "else {" ∷ codes "    reject" ∷ codes "}" ∷ [])

unfoldable pub ssid_policy_header : Text
ssid_policy_header =
    codes "# Generated by lmnradius — per-SSID group gate + optional dynamic VLAN."
    ++ (newline
        ++ (codes "# Included into sites/inner-tunnel post-auth via $-INCLUDE."
            ++ (newline
                ++ (codes "# Do not edit by hand; it is overwritten on every reconcile."
                    ++ newline))))

-- `render_ssid_policy`
unfoldable pub render_ssid_policy : Instance → Text
unfolding policy_lines ssid_policy_header
render_ssid_policy inst = ssid_policy_header ++ (join newline (policy_lines inst.ssids) ++ newline)
