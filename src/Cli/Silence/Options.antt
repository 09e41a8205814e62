-- ===== src/Cli/Silence/Options.antt =====
-- What works on the options sends nothing.
use linuxmuster_radius.Prelude.{ℕ, ℤ, Bool, true, false, Option, none, some, List, [], ◌∷◌, Text}
use linuxmuster_radius.Exec.{catch}
use linuxmuster_radius.Ca.{Crypto}
use linuxmuster_radius.Ca.LdapCa.{Described, describe_all, describe_pem_bundle}
use linuxmuster_radius.Models.Urls.{UrlParts}
use linuxmuster_radius.Cli.Terminal.{
  Line, Completed, Reading, unreadable, undecodable, decoded, Outside,
}
use linuxmuster_radius.Cli.Tofu.{
  fail, fetched, run_openssl, require_pems, refused_bundle, show_certificates, show_chain,
  fetch_from, pin_chain, tofu_fetch_chain, resolve_ldap_ca, was_read, read_bundle,
}
use linuxmuster_radius.Cli.Commands.{parse_ssids}
use linuxmuster_radius.Cli.Frames.{Silent, anything, silent_rules}

module _ {O : Outside} where
  fail-Silent : {A : Type 0} (l : Line) → Silent {O = O} {A = A} anything (fail l)
  fail-Silent l = search silent_rules

  require_pems-Silent :
      (parts : UrlParts) (proc : Completed) (pems : List Text)
      → Silent {O = O} anything (require_pems parts proc pems)
  unfolding require_pems
  require_pems-Silent parts proc [] = search silent_rules
  require_pems-Silent parts proc (pem ∷ pems) = search silent_rules

  pub parse_ssids-Silent :
      (to_int : Text → Option ℤ) (specs : List Text)
      → Silent {O = O} anything (parse_ssids to_int specs)
  unfolding parse_ssids
  parse_ssids-Silent to_int [] = search silent_rules
  parse_ssids-Silent to_int (spec ∷ specs) =
      search (silent_rules, λ (rest : List Text). parse_ssids-Silent to_int specs)

  pub show_certificates-Silent :
      (certs : List Described) → Silent {O = O} anything (show_certificates certs)
  unfolding show_certificates
  show_certificates-Silent [] = search silent_rules
  show_certificates-Silent (c ∷ certs) =
      search (silent_rules, λ (rest : List Described). show_certificates-Silent certs)

  fetched-Silent :
      (cmd : List Text) (done : Option Completed) → Silent {O = O} anything (fetched cmd done)
  fetched-Silent cmd none = search silent_rules
  fetched-Silent cmd (some proc) = search silent_rules

  run_openssl-Silent : (cmd : List Text) → Silent {O = O} anything (run_openssl cmd)
  run_openssl-Silent cmd = record {
    keeps = λ s.
        let (done, net) = O.run_openssl cmd s.net in
        (fetched-Silent cmd done).keeps (record s { net = net });
    raises = λ s.
        let (done, net) = O.run_openssl cmd s.net in
        (fetched-Silent cmd done).raises (record s { net = net });
  }

  was_read-Silent : (r : Reading) → Silent {O = O} anything (was_read r)
  was_read-Silent unreadable = search silent_rules
  was_read-Silent undecodable = search silent_rules
  was_read-Silent (decoded pem) = search silent_rules

  read_bundle-Silent : (path : Text) → Silent {O = O} anything (read_bundle path)
  read_bundle-Silent path = record {
    keeps = λ s. (was_read-Silent (O.read_text path s.net)).keeps s;
    raises = λ s. (was_read-Silent (O.read_text path s.net)).raises s;
  }

  show_chain-Silent :
      (parts : UrlParts) (bundle : Text) (certs : List Described)
      → Silent {O = O} anything (show_chain parts bundle certs)
  unfolding show_chain
  show_chain-Silent parts bundle certs = search (silent_rules, show_certificates-Silent)

  module _ (C : Crypto) where
    described_or-Silent :
        (certs : Option (List C.Certificate))
        → Silent {O = O} anything (catch (describe_all C certs) refused_bundle)
    described_or-Silent none = search silent_rules
    described_or-Silent (some certs) = search silent_rules

    pub described-Silent :
        (pem : Text) → Silent {O = O} anything (catch (describe_pem_bundle C pem) refused_bundle)
    unfolding describe_pem_bundle
    described-Silent pem = described_or-Silent (C.load_certificates pem)

    pin_chain-Silent :
        (parts : UrlParts) (proc : Completed) → Silent {O = O} anything (pin_chain C parts proc)
    unfolding pin_chain
    pin_chain-Silent parts proc =
        search (silent_rules, require_pems-Silent, described-Silent, show_chain-Silent)

    fetch_from-Silent : (parts : UrlParts) → Silent {O = O} anything (fetch_from C parts)
    unfolding fetch_from
    fetch_from-Silent parts = search (silent_rules, run_openssl-Silent, pin_chain-Silent) depth 12

  module _ (decimal : ℕ → Option ℕ) (C : Crypto) where
    tofu_fetch_chain-Silent :
        (server : Text) → Silent {O = O} anything (tofu_fetch_chain decimal C server)
    unfolding tofu_fetch_chain
    tofu_fetch_chain-Silent server = search (silent_rules, fetch_from-Silent C)

    pub resolve_ldap_ca-Silent :
        (path : Option Text) (tofu : Bool) (server : Text)
        → Silent {O = O} anything (resolve_ldap_ca decimal C path tofu server)
    unfolding resolve_ldap_ca
    resolve_ldap_ca-Silent none true server = search (silent_rules, tofu_fetch_chain-Silent)
    resolve_ldap_ca-Silent none false server = search silent_rules
    resolve_ldap_ca-Silent (some path) true server = search silent_rules
    resolve_ldap_ca-Silent (some path) false server = read_bundle-Silent path
