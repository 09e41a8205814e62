-- ===== src/Cli/Exits.antt =====
-- A command that exits with 0 was not refused by the API.
pub mod Accepted
use linuxmuster_radius.Prelude.{
  ℕ, ℤ, ◌≡◌, refl, Bool, true, false, not, ◌&&◌, leb, all, Option, none, some, List, [], ◌∷◌, Text,
  Bool-cases, inl, inr, arith, if◌then◌else◌, ap, sym, ◌∙◌, subst,
}
use linuxmuster_radius.Exec.{Exec, Result, ok, err, when, ◌>>=◌}
use linuxmuster_radius.Exec.Chains.{bind-ok, bind_lem}
use linuxmuster_radius.Ca.{Crypto}
use linuxmuster_radius.Cli.{Client}
use linuxmuster_radius.Cli.Json
use linuxmuster_radius.Cli.Json.{Json}
use linuxmuster_radius.Cli.Terminal.{Outside, Session, Request, Response, request, answer}
use linuxmuster_radius.Cli.Answers.{emit, refuse, print_body}
use linuxmuster_radius.Cli.Commands.{
  CreateOptions, show_answer, list, rm, reconcile, create, set_ldap_ca, require_running, emit_error,
}
use linuxmuster_radius.Cli.Console.{answered_by, test, logs, ca_export}
use linuxmuster_radius.Cli.Running.{Command, is_health, run}
use linuxmuster_radius.Cli.Frames.{Silent, tame, anything, silent_rules}
use linuxmuster_radius.Cli.Silence.{
  reading, emit-Silent, open_client-Silent, json-Silent, ldaps_warnings-Silent,
  require_running-Silent,
}

-- Whether a request was answered with no error.
abbrev pub accepted : Request × Option Response → Bool
accepted (req, none) = false
accepted (req, some resp) = not (leb 400 resp.status_code)

module _ {O : Outside} where
  -- Where the action returns, nothing that it has sent was refused.
  pub record Accepts {A : Type 0} (m : Exec (Session O) A) : Type 0 where
    pub at :
        (s : Session O) (a : A)
        → all accepted s.exchanged ≡ true
        → (m s).0 ≡ ok a
        → all accepted (m s).1.exchanged ≡ true

  -- The same, where it has yet to look at an answer.
  pub record Checks {A : Type 0} (resp : Response) (m : Exec (Session O) A) : Type 0 where
    pub at :
        (s : Session O) (a : A) (req : Request) (before : List (Request × Option Response))
        → s.exchanged ≡ (req, some resp) ∷ before
        → all accepted before ≡ true
        → (m s).0 ≡ ok a
        → all accepted (m s).1.exchanged ≡ true

  -- It returns only if the answer is no error.
  pub record Settles (resp : Response) (m : Exec (Session O) (Unit {0})) : Type 0 where
    pub silent : Silent tame m
    pub settled : (s : Session O) (u : Unit {0}) → (m s).0 ≡ ok u → leb 400 resp.status_code ≡ false

  pub Accepts-Silent : {A : Type 0} (m : Exec (Session O) A) → Silent tame m → Accepts m
  Accepts-Silent m k = record { at = λ s a h e. rw (k.keeps s) h }

  pub Accepts-options : {A : Type 0} (m : Exec (Session O) A) → Silent anything m → Accepts m
  Accepts-options m k = record { at = λ s a h e. rw (k.keeps s) h }

  pub Accepts-bind :
      {A B : Type 0} (m : Exec (Session O) A) (f : A → Exec (Session O) B)
      → Accepts m
      → ((a : A) → Accepts (f a))
      → Accepts (m >>= f)
  Accepts-bind m f km kf = record {
    at = λ s b h e.
        let (a, returned, later) = bind-ok m f b s e in
        rw (bind_lem m f a s returned) ((kf a).at (m s).1 b (km.at s a h returned) later);
  }

  pub Checks-Settles :
      (resp : Response) (m : Exec (Session O) (Unit {0})) → Settles resp m → Checks resp m
  Checks-Settles resp m k = record {
    at = λ s a req before sent h e. rw (k.silent.keeps s, sent) (ground (arith, k.settled s a e));
  }

  pub Checks-bind :
      {B : Type 0} (resp : Response) (m : Exec (Session O) (Unit {0}))
      (f : Unit {0} → Exec (Session O) B)
      → Settles resp m
      → ((u : Unit {0}) → Accepts (f u))
      → Checks resp (m >>= f)
  Checks-bind resp m f k kf = record {
    at = λ s b req before sent h e.
        let (u, returned, later) = bind-ok m f b s e in
        rw (bind_lem m f u s returned)
          ((kf u).at (m s).1 b ((Checks-Settles resp m k).at s u req before sent h returned) later);
  }

  answered :
      {B : Type 0} (o : Option Response) (req : Request) (f : Response → Exec (Session O) B)
      (s : Session O) (b : B) (before : List (Request × Option Response))
      → ((resp : Response) → Checks resp (f resp))
      → s.exchanged ≡ (req, o) ∷ before
      → all accepted before ≡ true
      → (((λ t. (answer o, t)) >>= f) s).0 ≡ ok b
      → all accepted (((λ t. (answer o, t)) >>= f) s).1.exchanged ≡ true
  answered none req f s b before k sent h e = ground arith
  answered (some resp) req f s b before k sent h e = (k resp).at s b req before sent h e

  pub Accepts-request :
      {B : Type 0} (client : Client) (req : Request) (f : Response → Exec (Session O) B)
      → ((resp : Response) → Checks resp (f resp))
      → Accepts (request client req >>= f)
  unfolding request
  Accepts-request client req f k = record {
    at = λ s b h e.
        let (o, net) = O.send client req s.net in
        answered o req f (record s { net = net; exchanged = (req, o) ∷ s.exchanged }) b s.exchanged
          k refl h e;
  }

  emit_settled :
      (resp : Response) (s : Session O) (u : Unit {0})
      → (emit resp s).0 ≡ ok u
      → leb 400 resp.status_code ≡ false
  unfolding emit
  emit_settled resp s u e = elim (Bool-cases (leb 400 resp.status_code)) [
    | inr below ↦ below
    | inl above ↦ ground (arith, above)
  ]

  pub Settles-emit : (resp : Response) → Settles resp (emit resp)
  Settles-emit resp = record { silent = emit-Silent resp; settled = emit_settled resp }

  refuse_settled :
      (resp : Response) (s : Session O) (u : Unit {0})
      → (when (leb 400 resp.status_code) (refuse resp) s).0 ≡ ok u
      → leb 400 resp.status_code ≡ false
  refuse_settled resp s u e = elim (Bool-cases (leb 400 resp.status_code)) [
    | inr below ↦ below
    | inl above ↦ ground (arith, above)
  ]

  pub Settles-refuse :
      (resp : Response) → Settles resp (when (leb 400 resp.status_code) (refuse resp))
  Settles-refuse resp = record { silent = search silent_rules; settled = refuse_settled resp }

  error_settled :
      (resp : Response) (s : Session O) (u : Unit {0})
      → (emit_error resp s).0 ≡ ok u
      → leb 400 resp.status_code ≡ false
  unfolding emit
  error_settled resp s u e = elim (Bool-cases (leb 400 resp.status_code)) [
    | inr below ↦ below
    | inl above ↦ ground (arith, above)
  ]

  pub Settles-emit_error : (resp : Response) → Settles resp (emit_error resp)
  Settles-emit_error resp = record {
    silent = search (silent_rules, emit-Silent);
    settled = error_settled resp;
  }

pub ruleset accept_rules = (
  silent_rules, Accepts-bind, Accepts-Silent, Accepts-request, Checks-bind, open_client-Silent,
  json-Silent, Settles-emit,
)
