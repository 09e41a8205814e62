-- ===== src/Cli/Creating.antt =====
-- `create`, from its options to the container.
use linuxmuster_radius.Prelude.{
  ℕ, ℤ, ◌≡◌, refl, ap, ◌∙◌, Bool, true, false, leb, Option, none, some, List, [], ◌∷◌, Text, codes,
  arith, All, map, text_eq,
}
use linuxmuster_radius.Exec.{Exec, ok, lift, or_raise, ◌>>=◌, other_error}
use linuxmuster_radius.Exec.Chains.{bind-ok, bind_lem, ok_injective}
use linuxmuster_radius.Ca.{Crypto}
use linuxmuster_radius.Cli.{Client, SsidEntry}
use linuxmuster_radius.Cli.Json
use linuxmuster_radius.Cli.Json.{Json, Fields, null, bool, num, str, arr, obj, end, to_items}
use linuxmuster_radius.Cli.Terminal.{
  Line, Part, text, post, with_body, Response, Outside, Session, request, answer,
}
use linuxmuster_radius.Cli.Answers.{
  open_client, emit, json, status_problem, check_status, report_problem, exit_unless,
}
use linuxmuster_radius.Cli.Tofu.{resolve_ldap_ca}
use linuxmuster_radius.Cli.Commands.{
  CreateOptions, create, create_body, parse_ssids, require_running, entry_json,
}
use linuxmuster_radius.Cli.Statuses.Each.{sound, value_at, no_problem-sound}
use linuxmuster_radius.Cli.Silence.{open_client-Silent, require_running-Silent}
use linuxmuster_radius.Cli.Silence.Options.{parse_ssids-Silent, resolve_ldap_ca-Silent}
use linuxmuster_radius.Cli.Exits.{Settles-emit}

-- An answer that is no error and says that the container runs.
pub record SaysRunning (resp : Response) : Type 0 where
  pub accepted : leb 400 resp.status_code ≡ false
  pub answered : Json
  pub parsed : resp.parsed ≡ some answered
  pub status : Json
  pub has_status : Json.get answered (codes "status") (obj end) ≡ ok status
  pub fine : sound status ≡ true

-- What a body says under a key that is sent only where there is a value.
abbrev or_null : Option Text → Json
or_null none = null
or_null (some t) = str t

abbrev vlan_or_null : Option ℤ → Json
vlan_or_null none = null
vlan_or_null (some v) = num v

-- The body has each option under its key, and the bundle.
pub record SaysOptions (o : CreateOptions) (ssids : List SsidEntry) (pem : Option Text)
    (body : Json) : Type 0 where
  pub name : value_at body (codes "name") ≡ str o.name
  pub realm : value_at body (codes "realm") ≡ str o.realm
  pub workgroup : value_at body (codes "workgroup") ≡ str o.workgroup
  pub server_fqdn : value_at body (codes "server_fqdn") ≡ str o.server_fqdn
  pub ldap_server : value_at body (codes "ldap_server") ≡ str o.ldap_server
  pub ldap_base_dn : value_at body (codes "ldap_base_dn") ≡ str o.ldap_base_dn
  pub ldap_bind_dn : value_at body (codes "ldap_bind_dn") ≡ str o.ldap_bind_dn
  pub wifi_group : value_at body (codes "wifi_group") ≡ str o.wifi_group
  pub client_subnets :
      value_at body (codes "client_subnets") ≡ arr (to_items (map str o.client_subnet))
  pub join_secret : value_at body (codes "join_secret") ≡ str o.join_secret
  pub ldap_bind_secret : value_at body (codes "ldap_bind_secret") ≡ str o.ldap_bind_secret
  pub radius_secret : value_at body (codes "radius_secret") ≡ str o.radius_secret
  pub image : value_at body (codes "image") ≡ or_null o.image
  pub ldap_ca_pem : value_at body (codes "ldap_ca_pem") ≡ or_null pem
  pub ssids_entries : value_at body (codes "ssids") ≡ arr (to_items (map entry_json ssids))
  pub each_entry :
      All
        (λ e.
          (value_at (entry_json e) (codes "name") ≡ str e.name)
          × (value_at (entry_json e) (codes "allowed_group") ≡ str e.allowed_group)
          × (value_at (entry_json e) (codes "vlan") ≡ vlan_or_null e.vlan))
        ssids

entry_vlan :
    (name group : Text) (v : Option ℤ)
    → value_at (entry_json (record { name = name; allowed_group = group; vlan = v })) (codes "vlan")
      ≡ vlan_or_null v
unfolding Json.get text_eq
entry_vlan name group none = refl
entry_vlan name group (some v) = refl

entries-said :
    (ssids : List SsidEntry)
    → All
        (λ e.
          (value_at (entry_json e) (codes "name") ≡ str e.name)
          × (value_at (entry_json e) (codes "allowed_group") ≡ str e.allowed_group)
          × (value_at (entry_json e) (codes "vlan") ≡ vlan_or_null e.vlan))
        ssids
unfolding Json.get text_eq
entries-said [] = tt
entries-said (e ∷ es) = ((refl, refl, entry_vlan e.name e.allowed_group e.vlan), entries-said es)

-- What `given_text` puts in front, looked up.
module _ (o : CreateOptions) (ssids : List SsidEntry) where
  said_image :
      (image pem : Option Text)
      → value_at (create_body (record o { image = image }) ssids pem) (codes "image")
        ≡ or_null image
  unfolding create_body Json.get text_eq
  said_image none none = refl
  said_image none (some p) = refl
  said_image (some i) pem = refl

  said_pem :
      (image pem : Option Text)
      → value_at (create_body (record o { image = image }) ssids pem) (codes "ldap_ca_pem")
        ≡ or_null pem
  unfolding create_body Json.get text_eq
  said_pem none none = refl
  said_pem none (some p) = refl
  said_pem (some i) none = refl
  said_pem (some i) (some p) = refl

create_body-SaysOptions :
    (o : CreateOptions) (ssids : List SsidEntry) (pem : Option Text)
    → SaysOptions o ssids pem (create_body o ssids pem)
unfolding create_body Json.get text_eq
create_body-SaysOptions o ssids pem = record {
  name = refl;
  realm = refl;
  workgroup = refl;
  server_fqdn = refl;
  ldap_server = refl;
  ldap_base_dn = refl;
  ldap_bind_dn = refl;
  wifi_group = refl;
  client_subnets = refl;
  join_secret = refl;
  ldap_bind_secret = refl;
  radius_secret = refl;
  image = said_image o ssids o.image pem;
  ldap_ca_pem = said_pem o ssids o.image pem;
  ssids_entries = refl;
  each_entry = entries-said ssids;
}

or_raise_ok :
    {S A : Type 0} (o : Option A) (s : S) (a : A) → (or_raise o other_error s).0 ≡ ok a → o ≡ some a
or_raise_ok none s a e = ground (arith, e)
or_raise_ok (some b) s a e = ap some (ok_injective b a e)

module _ {O : Outside} where
  reported :
      (name : Part) (p : Option Line) (s : Session O)
      → (report_problem name p s).0 ≡ ok true
      → p ≡ none
  reported name none s e = refl
  reported name (some l) s e = ground (arith, e)

  exit_true : (b : Bool) (s : Session O) → (exit_unless b s).0 ≡ ok tt → b ≡ true
  exit_true true s e = refl
  exit_true false s e = ground (arith, e)

  checked_fine :
      (name : Part) (st : Json) (s : Session O)
      → (check_status name st s).0 ≡ ok true
      → sound st ≡ true
  unfolding check_status
  checked_fine name st s e =
      let (p, found, later) = bind-ok (status_problem st) (report_problem name) true s e in
      no_problem-sound st s (found ∙ ap ok (reported name p _ later))

  require_running_lem :
      (name : Text) (resp : Response) (s : Session O)
      → (require_running name resp s).0 ≡ ok tt
      → SaysRunning resp
  unfolding require_running
  require_running_lem name resp s e =
      let check : Json → Exec (Session O) (Unit {0}) =
        λ st. check_status (text name) st >>= exit_unless in
      let look : Json → Exec (Session O) (Unit {0}) =
        λ answered. lift (Json.get answered (codes "status") (obj end)) >>= check in
      let (u, emitted, e1) = bind-ok (emit resp) (λ u. json resp >>= look) tt s e in
      let (answered, parsed, e2) = bind-ok (json resp) look tt _ e1 in
      let (st, has, e3) =
        bind-ok (lift (Json.get answered (codes "status") (obj end))) check tt _ e2 in
      let (b, checked, e4) = bind-ok (check_status (text name) st) exit_unless tt _ e3 in
      record {
        accepted = (Settles-emit resp).settled s u emitted;
        answered = answered;
        parsed = or_raise_ok resp.parsed _ answered parsed;
        status = st;
        has_status = has;
        fine = checked_fine (text name) st _ (checked ∙ ap ok (exit_true b _ e4));
      }

  -- The steps of `create` behind the options.
  abbrev post_created :
      CreateOptions → List SsidEntry → Option Text → Client → Exec (Session O) (Unit {0})
  post_created o ssids pem client =
      request client (with_body post (codes "/v1/instances") (create_body o ssids pem))
      >>= require_running o.name

  answered_by_one :
      (o : Option Response) (name : Text) (s : Session O)
      → (((λ t. (answer o, t)) >>= require_running name) s).0 ≡ ok tt
      → (resp : Response) × (o ≡ some resp)
        × SaysRunning resp
        × ((((λ t. (answer o, t)) >>= require_running name) s).1.exchanged ≡ s.exchanged)
  answered_by_one none name s e = ground (arith, e)
  answered_by_one (some resp) name s e =
      (resp, refl, require_running_lem name resp s e, (require_running-Silent name resp).keeps s)

  posted :
      (o : CreateOptions) (ssids : List SsidEntry) (pem : Option Text) (client : Client)
      (s : Session O)
      → (post_created o ssids pem client s).0 ≡ ok tt
      → (resp : Response) × SaysRunning resp
        × ((post_created o ssids pem client s).1.exchanged
            ≡ (with_body post (codes "/v1/instances") (create_body o ssids pem), some resp)
              ∷ s.exchanged)
  unfolding request
  posted o ssids pem client s e =
      let req = with_body post (codes "/v1/instances") (create_body o ssids pem) in
      let (o', net) = O.send client req s.net in
      let s' : Session O = record s { net = net; exchanged = (req, o') ∷ s.exchanged } in
      let (resp, got, says, kept) = answered_by_one o' o.name s' e in
      (resp, says, kept ∙ ap (λ a. (req, a) ∷ s.exchanged) got)

module _ {O : Outside} (decimal : ℕ → Option ℕ) (C : Crypto) (to_int : Text → Option ℤ)
    (o : CreateOptions) (s : Session O) where
  abbrev after_options : Session O
  after_options = (resolve_ldap_ca decimal C o.ldap_ca o.ldap_ca_tofu o.ldap_server s).1

  -- One request was sent, with the bundle and the SSIDs of the options.
  pub record IsCreated (after : Session O) : Type 0 where
    pub pem : Option Text
    pub resolved : (resolve_ldap_ca decimal C o.ldap_ca o.ldap_ca_tofu o.ldap_server s).0 ≡ ok pem
    pub ssids : List SsidEntry
    pub parsed : (parse_ssids to_int o.ssid after_options).0 ≡ ok ssids
    pub resp : Response
    pub says : SaysRunning resp
    pub body : Json
    pub options : SaysOptions o ssids pem body
    pub sent :
        after.exchanged ≡ (with_body post (codes "/v1/instances") body, some resp) ∷ s.exchanged

  -- Where create exits with 0, it has sent exactly one request, a POST whose body has each option,
  -- the name, group and VLAN of each parsed SSID, and the resolved bundle, each under its key, and
  -- the answer is no error and says that the container exists, runs, is not crash-looping and not
  -- unhealthy.
  pub create-IsCreated :
      (create decimal C to_int o s).0 ≡ ok tt → IsCreated (create decimal C to_int o s).1
  unfolding create
  create-IsCreated e =
      let resolve : Exec (Session O) (Option Text) =
        resolve_ldap_ca decimal C o.ldap_ca o.ldap_ca_tofu o.ldap_server in
      let parse : Exec (Session O) (List SsidEntry) = parse_ssids to_int o.ssid in
      let send = λ (pem : Option Text) (ssids : List SsidEntry).
        open_client {O = O} >>= post_created o ssids pem in
      let (pem, resolved, e1) = bind-ok resolve (λ p. parse >>= send p) tt s e in
      let (ssids, parsed, e2) = bind-ok parse (send pem) tt _ e1 in
      let (client, opened, e3) = bind-ok (open_client {O = O}) (post_created o ssids pem) tt _ e2 in
      let (resp, says, sent) =
        posted o ssids pem client (open_client {O = O} (parse (resolve s).1).1).1 e3 in
      record {
        pem = pem;
        resolved = resolved;
        ssids = ssids;
        parsed = parsed;
        resp = resp;
        says = says;
        body = create_body o ssids pem;
        options = create_body-SaysOptions o ssids pem;
        sent =
            rw
              (
                bind_lem resolve (λ p. parse >>= send p) pem s resolved,
                bind_lem parse (send pem) ssids (resolve s).1 parsed,
                bind_lem (open_client {O = O}) (post_created o ssids pem) client
                    (parse (resolve s).1).1 opened,
              )
              (sent
                ∙ ap
                    (λ b.
                      (with_body post (codes "/v1/instances") (create_body o ssids pem), some resp)
                      ∷ b)
                    ((open_client-Silent {O = O}).keeps (parse (resolve s).1).1
                      ∙ (parse_ssids-Silent to_int o.ssid).keeps (resolve s).1
                      ∙ (resolve_ldap_ca-Silent decimal C o.ldap_ca o.ldap_ca_tofu
                            o.ldap_server).keeps
                          s));
      }
