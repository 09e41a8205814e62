-- ===== src/Cli/Tofu.antt =====
-- Where the bundle for LDAPS comes from: `_resolve_ldap_ca` and, on the first use,
-- `_tofu_fetch_chain`.
pub mod Shown
use linuxmuster_radius.Prelude.{
  ℕ, Bool, true, false, not, any, ◌==◌, ◌++◌, Option, none, some, List, [], ◌∷◌, Text, codes,
  text_eq, last, join, show_nat, strip, splitlines, if◌then◌else◌,
}
use linuxmuster_radius.Exec.{
  Error, Exec, pure, raise, raise_if, or_raise, catch, ◌>>=◌, ◌>>◌, value_error, bad_parameter,
  typer_exit,
}
use linuxmuster_radius.Models.Urls.{UrlParts, ldap_url_parts}
use linuxmuster_radius.Docker.Inspect.{last_lines}
use linuxmuster_radius.Ca.{Crypto}
use linuxmuster_radius.Ca.LdapCa.{Described, describe_pem_bundle}
use linuxmuster_radius.Cli.Json.{num}
use linuxmuster_radius.Cli.Terminal.{
  value, Line, lit, text, number, Completed, Reading, unreadable, undecodable, decoded, Outside,
  Session, warn,
}
use linuxmuster_radius.Cli.Pem.{find_all}

-- `pem if pem.endswith("\n") else pem + "\n"`
unfoldable pub with_newline : Text → Text
unfolding last
with_newline pem = if last 0 pem == 10 then pem else pem ++ 10 ∷ []

-- The blocks, one behind the other.
unfoldable pub bundle_of : List Text → Text
unfolding with_newline
bundle_of [] = []
bundle_of (pem ∷ pems) = with_newline pem ++ bundle_of pems

-- The arguments of openssl.
unfoldable pub openssl_command : UrlParts → List Text
unfolding show_nat
openssl_command parts =
    codes "openssl"
    ∷ codes "s_client"
    ∷ codes "-connect"
    ∷ (parts.host ++ b':' ∷ show_nat parts.port)
    ∷ codes "-servername"
    ∷ parts.host
    ∷ codes "-showcerts"
    ∷ []

abbrev kind : Bool → Text
kind true = codes "trust anchor (CA)"
kind false = codes "end-entity certificate"

abbrev pub certificate_line : Described → Line
certificate_line cert =
    lit "  "
    ∷ text (kind cert.trust_anchor)
    ∷ lit ": "
    ∷ text cert.subject
    ∷ lit "  (issuer "
    ∷ text cert.issuer
    ∷ lit ", expires "
    ∷ number cert.not_after
    ∷ lit ")"
    ∷ []

abbrev pub fingerprint_line : Described → Line
fingerprint_line cert = lit "    SHA-256 " ∷ text cert.sha256_fingerprint ∷ []

abbrev advice : Bool → Line
advice true =
    lit
      "  Compare the CA fingerprint on the DC: openssl x509 -in /etc/linuxmuster/ssl/cacert.pem -noout -fingerprint -sha256"
    ∷ []
advice false =
    lit
      "  The DC served no CA, only its own certificate: it is pinned as-is and a renewed DC certificate FAILS CLOSED until you re-run set-ldap-ca. Prefer --ldap-ca with the CA file (/etc/linuxmuster/ssl/cacert.pem on the DC). Compare the fingerprint there: openssl x509 -in /etc/linuxmuster/ssl/server.cert.pem -noout -fingerprint -sha256"
    ∷ []

-- `": " + tail`, if there is one.
abbrev colon : Text → Line
colon [] = []
colon (c ∷ s) = lit ": " ∷ text (c ∷ s) ∷ []

-- `host:port`
abbrev address : UrlParts → Line
address parts = text parts.host ∷ lit ":" ∷ number parts.port ∷ []

module _ {O : Outside} where
  -- An error is printed and the command exits with 1.
  abbrev pub fail : {A : Type 0} → Line → Exec (Session O) A
  fail l = do warn l; raise (typer_exit 1)

  abbrev pub fetched : List Text → Option Completed → Exec (Session O) Completed
  fetched cmd none = fail (lit "error: " ∷ text (join (b' ' ∷ []) cmd) ∷ [])
  fetched cmd (some proc) = pure proc

  abbrev pub run_openssl : List Text → Exec (Session O) Completed
  run_openssl cmd s =
      let (done, net) = O.run_openssl cmd s.net in fetched cmd done (record s { net = net })

  -- `if not pems`
  unfoldable pub require_pems : UrlParts → Completed → List Text → Exec (Session O) (Unit {0})
  unfolding last_lines strip splitlines join
  require_pems parts proc (pem ∷ pems) = pure tt
  require_pems parts proc [] = fail (
      lit "error: no certificate received from "
      ∷ (address parts
          ++ (lit " (openssl exit "
              ∷ value (num proc.return_code)
              ∷ lit ")"
              ∷ colon (join (10 ∷ []) (last_lines 5 (splitlines (strip proc.stderr)))))))

  -- `except ValueError`
  abbrev pub refused_bundle : {A : Type 0} → Error → Exec (Session O) A
  refused_bundle (value_error m) = fail (lit "error: " ∷ lit m ∷ [])
  refused_bundle e = raise e

  unfoldable pub show_certificates : List Described → Exec (Session O) (Unit {0})
  show_certificates [] = pure tt
  show_certificates (cert ∷ certs) = do
    warn (certificate_line cert)
    warn (fingerprint_line cert)
    show_certificates certs

  abbrev pub was_read : Reading → Exec (Session O) (Option Text)
  was_read unreadable = raise (bad_parameter "--ldap-ca: cannot read the file")
  was_read undecodable = raise (value_error "not UTF-8")
  was_read (decoded pem) = pure (some pem)

  abbrev pub read_bundle : Text → Exec (Session O) (Option Text)
  read_bundle path s = was_read (O.read_text path s.net) s

  -- The certificates are shown before the bundle is returned.
  unfoldable pub show_chain : UrlParts → Text → List Described → Exec (Session O) Text
  unfolding show_certificates
  show_chain parts bundle certs = do
    warn (
        lit "TRUST ON FIRST USE: pinning what "
        ∷ (address parts ++ (lit " served right now — NOT verified:" ∷ [])))
    show_certificates certs
    warn (advice (any (λ c. c.trust_anchor) certs))
    pure bundle

  module _ (C : Crypto) where
    -- What openssl has printed, to the bundle.
    unfoldable pub pin_chain : UrlParts → Completed → Exec (Session O) Text
    unfolding find_all bundle_of require_pems describe_pem_bundle show_chain
    pin_chain parts proc = do
      let pems = find_all 0 proc.stdout
      require_pems parts proc pems
      let bundle = bundle_of pems
      certs ← catch (describe_pem_bundle C bundle) refused_bundle
      show_chain parts bundle certs

    -- The server's certificates, by an address that has been split.
    unfoldable pub fetch_from : UrlParts → Exec (Session O) Text
    unfolding text_eq openssl_command pin_chain
    fetch_from parts = do
      raise_if (not (text_eq parts.scheme (codes "ldaps")))
          (bad_parameter "--ldap-ca-tofu needs an ldaps:// --ldap-server")
      proc ← run_openssl (openssl_command parts)
      pin_chain parts proc

  module _ (decimal : ℕ → Option ℕ) (C : Crypto) where
    -- `_tofu_fetch_chain`
    unfoldable pub tofu_fetch_chain : Text → Exec (Session O) Text
    unfolding ldap_url_parts fetch_from
    tofu_fetch_chain ldap_server = do
      parts ← or_raise (ldap_url_parts decimal ldap_server) (bad_parameter "not an ldap(s) URI")
      fetch_from C parts

    -- `_resolve_ldap_ca`
    unfoldable pub resolve_ldap_ca : Option Text → Bool → Text → Exec (Session O) (Option Text)
    unfolding tofu_fetch_chain
    resolve_ldap_ca (some path) true server =
        raise (bad_parameter "--ldap-ca and --ldap-ca-tofu are mutually exclusive")
    resolve_ldap_ca (some path) false server = read_bundle path
    resolve_ldap_ca none true server = do pem ← tofu_fetch_chain server; pure (some pem)
    resolve_ldap_ca none false server = pure none
