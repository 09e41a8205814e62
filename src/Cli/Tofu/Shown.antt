-- ===== src/Cli/Tofu/Shown.antt =====
-- What trust on first use has printed before it returns a bundle.
use linuxmuster_radius.Prelude.{
  ℕ, ◌≡◌, refl, sym, ap, subst, ◌∙◌, Bool, true, false, not, Option, none, some, List, [], ◌∷◌, map,
  Text, codes, text_eq, text_eq_iff, All, All-mono, arith, ◌++◌, show_nat,
}
use linuxmuster_radius.Exec.{Exec, ok, ◌>>=◌, bad_parameter, raise_if, or_raise, catch}
use linuxmuster_radius.Exec.Chains.{bind-ok, bind_lem, ok_injective}
use linuxmuster_radius.Ca.{Crypto}
use linuxmuster_radius.Ca.LdapCa.{Described, describe_one, describe_pem_bundle, describe_all}
use linuxmuster_radius.Models.Urls.{UrlParts, ldap_url_parts}
use linuxmuster_radius.Cli.Terminal.{lit, text, Printed, warned, Completed, Outside, Session, warn}
use linuxmuster_radius.Cli.Pem.{find_all}
use linuxmuster_radius.Cli.Tofu.{
  bundle_of, openssl_command, certificate_line, fingerprint_line, fetched, run_openssl,
  require_pems, refused_bundle, show_certificates, show_chain, pin_chain, fetch_from,
  tofu_fetch_chain,
}

-- Whether something was printed.
pub data Among (p : Printed) : List Printed → Type 0 where
  here : (ps : List Printed) → Among p (p ∷ ps)
  there : (q : Printed) {ps : List Printed} → Among p ps → Among p (q ∷ ps)

module _ {O : Outside} where
  -- Printing more hides nothing, and every certificate's fingerprint is printed.
  still_shown :
      (p : Printed) (certs : List Described) (s : Session O)
      → Among p s.printed
      → Among p (show_certificates certs s).1.printed
  unfolding show_certificates
  still_shown p [] s a = a
  still_shown p (c ∷ certs) s a =
      still_shown p certs (warn (fingerprint_line c) (warn (certificate_line c) s).1).1
        (there _ (there _ a))

  all_shown :
      (certs : List Described) (s : Session O)
      → All (λ c. Among (warned (fingerprint_line c)) (show_certificates certs s).1.printed) certs
  unfolding show_certificates
  all_shown [] s = tt
  all_shown (c ∷ certs) s =
      let s' = (warn (fingerprint_line c) (warn (certificate_line c) s).1).1 in
      (still_shown (warned (fingerprint_line c)) certs s' (here _), all_shown certs s')

  shown_ok : (certs : List Described) (s : Session O) → (show_certificates certs s).0 ≡ ok tt
  unfolding show_certificates
  shown_ok [] s = refl
  shown_ok (c ∷ certs) s =
      shown_ok certs (warn (fingerprint_line c) (warn (certificate_line c) s).1).1

  module _ (parts : UrlParts) (bundle : Text) (certs : List Described) (s : Session O) where
    chain_ok : (show_chain parts bundle certs s).0 ≡ ok bundle
    unfolding show_chain
    chain_ok = rw (bind_lem (show_certificates certs) _ tt _ (shown_ok certs _)) refl

    chain_shown :
        All
          (λ c. Among (warned (fingerprint_line c)) (show_chain parts bundle certs s).1.printed)
          certs
    unfolding show_chain
    chain_shown =
        rw (bind_lem (show_certificates certs) _ tt _ (shown_ok certs _))
          (All-mono _ _ certs (λ c a. there _ a) (all_shown certs _))

  -- What is required leaves the session as it is.
  required :
      (parts : UrlParts) (proc : Completed) (pems : List Text) (s : Session O) (u : Unit {0})
      → (require_pems parts proc pems s).0 ≡ ok u
      → (require_pems parts proc pems s).1 ≡ s
  unfolding require_pems
  required parts proc [] s u e = ground (arith, e)
  required parts proc (pem ∷ pems) s u e = refl

All_of_map :
    {A B : Type 0} (P : B → Type 0) (f : A → B) (xs : List A)
    → All P (map f xs)
    → All (λ x. P (f x)) xs
All_of_map P f [] h = tt
All_of_map P f (x ∷ xs) h = (h.0, All_of_map P f xs h.1)

-- The bundle is made of what openssl has printed, and the fingerprint of each of its certificates
-- has been printed.
pub record IsShown (C : Crypto) (stdout bundle : Text) (after : List Printed) : Type 0 where
  pub of_blocks : bundle ≡ bundle_of (find_all 0 stdout)
  pub loaded : List C.Certificate
  pub loads : C.load_certificates bundle ≡ some loaded
  pub shown :
      All
        (λ cert. Among (warned (lit "    SHA-256 " ∷ text (C.sha256_fingerprint cert) ∷ [])) after)
        loaded

module _ {O : Outside} (C : Crypto) where
  described_catch :
      {B : Type 0} (o : Option (List C.Certificate)) (f : List Described → Exec (Session O) B)
      (s : Session O) (b : B)
      → ((catch (describe_all C o) refused_bundle >>= f) s).0 ≡ ok b
      → (loaded : List C.Certificate) × (o ≡ some loaded)
        × ((catch (describe_all C o) refused_bundle >>= f) s ≡ f (map (describe_one C) loaded) s)
  described_catch none f s b e = ground (arith, e)
  described_catch (some loaded) f s b e = (loaded, refl, refl)

  module _ (parts : UrlParts) (proc : Completed) (s : Session O) (bundle : Text) where
    described-IsShown :
        ((catch (describe_pem_bundle C (bundle_of (find_all 0 proc.stdout))) refused_bundle
              >>= show_chain parts (bundle_of (find_all 0 proc.stdout)))
            s).0
          ≡ ok bundle
        → IsShown C proc.stdout bundle
            ((catch (describe_pem_bundle C (bundle_of (find_all 0 proc.stdout))) refused_bundle
                >>= show_chain parts (bundle_of (find_all 0 proc.stdout)))
              s).1.printed
    unfolding describe_pem_bundle describe_one
    described-IsShown e =
        let made = bundle_of (find_all 0 proc.stdout) in
        let (loaded, loads, shows) =
          described_catch (C.load_certificates made) (show_chain parts made) s bundle e in
        let certs = map (describe_one C) loaded in
        let same : made ≡ bundle =
          ok_injective _ _ (sym (chain_ok parts made certs s) ∙ ap (λ r. r.0) (sym shows) ∙ e) in
        record {
          of_blocks = sym same;
          loaded = loaded;
          loads = rw (← same) loads;
          shown = rw shows (All_of_map _ (describe_one C) loaded (chain_shown parts made certs s));
        }

    pin_chain-IsShown :
        (pin_chain C parts proc s).0 ≡ ok bundle
        → IsShown C proc.stdout bundle (pin_chain C parts proc s).1.printed
    unfolding pin_chain
    pin_chain-IsShown e =
        let pems = find_all 0 proc.stdout in
        let rest : Unit {0} → Exec (Session O) Text = λ u.
          catch (describe_pem_bundle C (bundle_of pems)) refused_bundle
          >>= show_chain parts (bundle_of pems) in
        let (u, passed, later) = bind-ok (require_pems parts proc pems) rest bundle s e in
        let here : (require_pems parts proc pems s).1 ≡ s = required parts proc pems s u passed in
        rw (bind_lem (require_pems parts proc pems) rest u s passed, here)
          (described-IsShown (subst (λ t. (rest u t).0 ≡ ok bundle) here later))

  -- The steps before it: the address is one of LDAPS, and openssl has answered.
  module _ (parts : UrlParts) (bundle : Text) where
    fetched-IsShown :
        (done : Option Completed) (s : Session O)
        → ((fetched (openssl_command parts) done >>= pin_chain C parts) s).0 ≡ ok bundle
        → (proc : Completed) × (done ≡ some proc)
          × IsShown C proc.stdout bundle
              ((fetched (openssl_command parts) done >>= pin_chain C parts) s).1.printed
    fetched-IsShown none s e = ground (arith, e)
    fetched-IsShown (some proc) s e = (proc, refl, pin_chain-IsShown parts proc s bundle e)

    secure-IsShown :
        (b : Bool) (s : Session O)
        → ((raise_if (not b) (bad_parameter "--ldap-ca-tofu needs an ldaps:// --ldap-server")
              >>= λ u. run_openssl (openssl_command parts) >>= pin_chain C parts)
            s).0
          ≡ ok bundle
        → (proc : Completed) × (b ≡ true)
          × ((O.run_openssl (openssl_command parts) s.net).0 ≡ some proc)
          × IsShown C proc.stdout bundle
              ((raise_if (not b) (bad_parameter "--ldap-ca-tofu needs an ldaps:// --ldap-server")
                  >>= λ u. run_openssl (openssl_command parts) >>= pin_chain C parts)
                s).1.printed
    secure-IsShown false s e = ground (arith, e)
    secure-IsShown true s e =
        let (done, net) = O.run_openssl (openssl_command parts) s.net in
        let (proc, answered, shown) = fetched-IsShown done (record s { net = net }) e in
        (proc, refl, answered, shown)

  from_parts :
      (o : Option UrlParts) (s : Session O) (bundle : Text)
      → ((or_raise o (bad_parameter "not an ldap(s) URI") >>= fetch_from C) s).0 ≡ ok bundle
      → (parts : UrlParts) × (proc : Completed) × (o ≡ some parts)
        × (parts.scheme ≡ codes "ldaps")
        × ((O.run_openssl (openssl_command parts) s.net).0 ≡ some proc)
        × IsShown C proc.stdout bundle
            ((or_raise o (bad_parameter "not an ldap(s) URI") >>= fetch_from C) s).1.printed
  unfolding fetch_from
  from_parts none s bundle e = ground (arith, e)
  from_parts (some parts) s bundle e =
      let (proc, secure, answered, shown) =
        secure-IsShown parts bundle (text_eq parts.scheme (codes "ldaps")) s e in
      (parts, proc, refl, (text_eq_iff _ _).0 secure, answered, shown)

-- The arguments that ask openssl for the certificates of a host and port.
abbrev pub asking : UrlParts → List Text
asking parts =
    codes "openssl"
    ∷ codes "s_client"
    ∷ codes "-connect"
    ∷ (parts.host ++ (codes ":" ++ show_nat parts.port))
    ∷ codes "-servername"
    ∷ parts.host
    ∷ codes "-showcerts"
    ∷ []

-- Where trust on first use returns a bundle, the server's address is one of LDAPS, openssl was
-- asked to connect to that host and port, the bundle is made of the blocks that it has printed, it
-- loads, and the SHA-256 fingerprint of each of its certificates has been printed.
pub tofu_fetch_chain-IsShown :
    {O : Outside} (decimal : ℕ → Option ℕ) (C : Crypto) (server : Text) (s : Session O)
    (bundle : Text)
    → (tofu_fetch_chain decimal C server s).0 ≡ ok bundle
    → (parts : UrlParts) × (proc : Completed) × (ldap_url_parts decimal server ≡ some parts)
      × (parts.scheme ≡ codes "ldaps")
      × ((O.run_openssl (asking parts) s.net).0 ≡ some proc)
      × IsShown C proc.stdout bundle (tofu_fetch_chain decimal C server s).1.printed
unfolding tofu_fetch_chain openssl_command
tofu_fetch_chain-IsShown decimal C server s bundle e =
    from_parts C (ldap_url_parts decimal server) s bundle e
