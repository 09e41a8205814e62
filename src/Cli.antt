-- ===== src/Cli.antt =====
-- controlplane/lmnradius/cli.py. Here are the parser of the SSID option and the HTTP client; the
-- children are the answers, the commands and what a command does to the outside.
pub mod SsidOption
pub mod Json
pub mod Terminal
pub mod Answers
pub mod Pem
pub mod Tofu
pub mod Commands
pub mod Console
pub mod Running
pub mod Statuses
pub mod Frames
pub mod Silence
pub mod Exits
pub mod Refusals
pub mod Creating
use linuxmuster_radius.Prelude.{
  contains, ◌++◌, ℤ, Bool, not, ◌||◌, Option, none, some, List, [], ◌∷◌, Text, codes, split,
}

-- An entry of `ssids` as it is sent; the server validates it.
pub record SsidEntry : Type 0 where
  pub name : Text
  pub allowed_group : Text
  pub vlan : Option ℤ

abbrev pub vlan_entry : Text → Text → Option ℤ → Option SsidEntry
vlan_entry name group none = none
vlan_entry name group (some vlan) =
    some (record { name = name; allowed_group = group; vlan = some vlan })

-- The parts between the colons. `to_int` is `int(...)`, and `none` is `typer.BadParameter`.
unfoldable pub ssid_entry : (Text → Option ℤ) → List Text → Option SsidEntry
ssid_entry to_int (name ∷ group ∷ []) =
    some (record { name = name; allowed_group = group; vlan = none })
ssid_entry to_int (name ∷ group ∷ vlan ∷ []) = vlan_entry name group (to_int vlan)
ssid_entry to_int parts = none

-- `_parse_ssid`
unfoldable pub parse_ssid : (Text → Option ℤ) → Text → Option SsidEntry
unfolding split ssid_entry
parse_ssid to_int spec = ssid_entry to_int (split b':' spec)

-- What the HTTP client is built from, as far as `_get_client` chooses it.
pub record Client : Type 0 where
  pub base_url : Text
  pub bearer : Option Text
  pub verifies : Bool

-- Whether the URL has one of the three texts anywhere.
abbrev pub is_loopback : Text → Bool
is_loopback url =
    contains url (codes "://127.0.0.1")
    || contains url (codes "://localhost")
    || contains url (codes "://[::1]")

abbrev bearer_of : Text → Option Text
bearer_of [] = none
bearer_of (c ∷ s) = some (codes "Bearer " ++ c ∷ s)

-- `_get_client`, of the token and the API's URL.
unfoldable pub get_client : Text → Text → Client
unfolding contains
get_client api_token api_url = record {
  base_url = api_url;
  bearer = bearer_of api_token;
  verifies = not (is_loopback api_url);
}
