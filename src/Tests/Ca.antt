-- ===== src/Tests/Ca.antt =====
-- The theorems on the authority, applied to certificates that are texts.
use linuxmuster_radius.Prelude.{
  ℕ, pos, ◌≡◌, ◌≢◌, refl, true, none, some, List, [], ◌∷◌, Text, codes, text_eq, any,
}
use linuxmuster_radius.Dict
use linuxmuster_radius.Exec.{ok}
use linuxmuster_radius.Ca.{Crypto, Draw, rsa_key}
use linuxmuster_radius.Ca.Files.{Disk, file, run_all, Through, private_file, public_file}
use linuxmuster_radius.Ca.Authority.{init_ca, describe_ca}
use linuxmuster_radius.Ca.Server.{issue_server_cert, describe_server, cert_status, instance_file}
use linuxmuster_radius.Ca.LdapCa.{Pinned, describe_one, write_ldap_ca}
use linuxmuster_radius.Ca.Effects.{content_of, KeyFirst, KeyPrivate, init_ca-Through, issue-Through}
use linuxmuster_radius.Ca.Results.{init_ca_once}
use linuxmuster_radius.Ca.Issued.{cert_status-issue, write_ldap_ca_lem}

-- A certificate is its subject's name, and is issued by itself; keys are numbers.
abbrev pub texts : Crypto
texts = record {
  Name = Text;
  Key = ℕ;
  Public = ℕ;
  Certificate = Text;
  common_name = λ t. some t;
  public_key = λ k. k;
  sign = λ t k. t.subject;
  encrypted_pem = λ p k. p;
  plain_pem = λ k. codes "key";
  certificate_pem = λ c. c;
  load_certificate = λ t. some t;
  load_certificates = λ t. some (t ∷ []);
  load_key = λ t p. rsa_key 7;
  subject = λ c. c;
  issuer = λ c. c;
  same_name = text_eq;
  rfc4514 = λ n. n;
  serial_number = λ c. 1;
  not_valid_before = λ c. 0;
  not_valid_after = λ c. 1;
  sha256_fingerprint = λ c. c;
  dns_names = λ c. some (c ∷ []);
  is_ca = λ c. none;
}

abbrev drawn : Draw texts
drawn = record { key = λ e n. n; serial = 1; now = 1000 }

abbrev root : Text
root = codes "/c"

abbrev ca_name : Text
ca_name = codes "EAP CA"

abbrev secret : Text
secret = codes "pass"

init_ca-Through_example :
    Through 0x1ed
      (KeyFirst texts 0x1ed root drawn [] secret)
      (init_ca texts (content_of []) root drawn secret ca_name (pos 30) []).1
      []
unfolding Dict.get
init_ca-Through_example = init_ca-Through texts 0x1ed root drawn [] secret ca_name (pos 30) refl

initialised :
    (init_ca texts (content_of []) root drawn secret ca_name (pos 30) []).0
    ≡ ok (describe_ca texts ca_name)
unfolding init_ca Dict.get
initialised = refl

init_ca_once_example :
    let e =
      run_all 0x1ed (init_ca texts (content_of []) root drawn secret ca_name (pos 30) []).1 [] in
    let (r, ops) = init_ca texts (content_of e) root drawn secret ca_name (pos 60) [] in
    (r ≢ ok (describe_ca texts ca_name)) × (ops ≡ [])
init_ca_once_example =
    init_ca_once texts 0x1ed root drawn [] secret ca_name (pos 30) (describe_ca texts ca_name)
      initialised drawn secret ca_name (pos 60) (describe_ca texts ca_name)

-- The directory with an authority.
abbrev with_ca : Disk
with_ca =
    (codes "/c/ca/ca.key.pem", file private_file secret)
    ∷ (codes "/c/ca/ca.cert.pem", file public_file ca_name)
    ∷ []

abbrev fqdn : Text
fqdn = codes "r.ad"

issue-Through_example :
    Through 0x1ed
      (KeyPrivate texts 0x1ed root drawn with_ca (codes "wlan"))
      (issue_server_cert texts
        (content_of with_ca)
        root
        drawn
        (codes "wlan")
        fqdn
        secret
        (pos 30)
        []).1
      with_ca
issue-Through_example =
    issue-Through texts 0x1ed root drawn with_ca (codes "wlan") fqdn secret (pos 30)

issued :
    (issue_server_cert texts
      (content_of with_ca)
      root
      drawn
      (codes "wlan")
      fqdn
      secret
      (pos 30)
      []).0
    ≡ ok (describe_server texts fqdn)
unfolding issue_server_cert linuxmuster_radius.Regex.fullmatch Dict.get text_eq
issued = refl

cert_status-issue_example :
    let ops =
      (issue_server_cert texts
        (content_of with_ca)
        root
        drawn
        (codes "wlan")
        fqdn
        secret
        (pos 30)
        []).1 in
    cert_status texts (content_of (run_all 0x1ed ops with_ca)) root (codes "wlan")
    ≡ ok (some (describe_server texts fqdn))
cert_status-issue_example =
    cert_status-issue texts 0x1ed root with_ca drawn (codes "wlan") fqdn secret (pos 30)
      (describe_server texts fqdn) (λ c. refl) issued

abbrev bundle : Text
bundle = codes "dc ca"

abbrev pinned : Pinned
pinned = record {
  file = codes "ldap-ca.pem";
  certificates = describe_one texts bundle ∷ [];
  trust_anchor = true;
}

pinned_now : (write_ldap_ca texts root (codes "wlan") bundle []).0 ≡ ok pinned
unfolding write_ldap_ca text_eq
pinned_now = refl

write_ldap_ca_lem_example :
    let e = run_all 0x1ed (write_ldap_ca texts root (codes "wlan") bundle []).1 [] in
    (Dict.get e (instance_file root (codes "wlan") (codes "ldap-ca.pem"))
      ≡ some (file private_file bundle))
    × ((certs : List Text) × (some (bundle ∷ []) ≡ some certs)
        × (true ≡ any (λ c. text_eq c c) certs))
write_ldap_ca_lem_example =
    write_ldap_ca_lem texts 0x1ed root [] (codes "wlan") bundle pinned pinned_now
