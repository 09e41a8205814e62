-- ===== src/Cli/Refusals.antt =====
-- A command that blames its options has changed nothing.
pub mod Unsent
use Prim.Native.String.{String}
use linuxmuster_radius.Prelude.{
  ℕ, ℤ, ◌≡◌, refl, Bool, true, false, all, Option, none, some, List, [], ◌∷◌, Text, arith, ap, sym,
  ◌∙◌,
}
use linuxmuster_radius.Exec.{
  Exec, Result, ok, err, Error, bad_parameter, http_error, when, attempt, ◌>>=◌,
}
use linuxmuster_radius.Ca.{Crypto}
use linuxmuster_radius.Cli.{Client}
use linuxmuster_radius.Cli.Terminal.{
  Method, get, post, put, delete, Outside, Session, Request, Response, request, answer,
}
use linuxmuster_radius.Cli.Commands.{
  CreateOptions, show_answer, list, rm, reconcile, health, create, set_ldap_ca, show, start, stop,
  restart, status, update, update_all, rollback, unless_unreachable, emit_error,
}
use linuxmuster_radius.Cli.Console.{
  answered_by, test, logs, ca_export, ca_init, ca_show, cert_issue, cert_show,
}
use linuxmuster_radius.Cli.Running
use linuxmuster_radius.Cli.Running.{Command, run}
use linuxmuster_radius.Cli.Frames.{Silent, Silent-anything, tame, anything, fine, silent_rules}
use linuxmuster_radius.Cli.Silence.{
  reading, emit-Silent, open_client-Silent, json-Silent, ldaps_warnings-Silent, exit_unless-Silent,
  require_running-Silent,
}
use linuxmuster_radius.Cli.Silence.Console.{
  check_each-Silent, not_left-Silent, warn_listed-Silent, render_test-Silent, test_body-Silent,
  print_logs-Silent, print_or_write-Silent,
}
use linuxmuster_radius.Cli.Silence.Options.{parse_ssids-Silent, resolve_ldap_ca-Silent}

abbrev is_get : Method → Bool
is_get get = true
is_get method = false

-- Whether a request only reads.
abbrev pub is_read : Request × Option Response → Bool
is_read (req, resp) = is_get req.method

answer-tame : (o : Option Response) → fine tame (answer o) ≡ true
answer-tame none = refl
answer-tame (some resp) = refl

never_bad :
    {A : Type 0} (r : Result A) (x : String)
    → fine tame r ≡ true
    → r ≡ err (bad_parameter x)
    → false ≡ true
never_bad (ok a) x h e = ground (arith, e)
never_bad (err y) x h e = ap (fine tame) (sym e) ∙ h

module _ {O : Outside} where
  pub record Tame {A : Type 0} (m : Exec (Session O) A) : Type 0 where
    pub raises : (s : Session O) → fine tame (m s).0 ≡ true

  -- Where the action raises a `BadParameter`, it has sent nothing but reads.
  pub record Refuses {A : Type 0} (m : Exec (Session O) A) : Type 0 where
    pub at :
        (s : Session O) (x : String)
        → all is_read s.exchanged ≡ true
        → (m s).0 ≡ err (bad_parameter x)
        → all is_read (m s).1.exchanged ≡ true

  pub Tame-Silent : {A : Type 0} (m : Exec (Session O) A) → Silent tame m → Tame m
  Tame-Silent m k = record { raises = k.raises }

  pub Tame-request : (client : Client) (req : Request) → Tame (request client req)
  unfolding request
  Tame-request client req = record {
    raises = λ s. let (o, net) = O.send client req s.net in answer-tame o;
  }

  tame_result :
      {A B : Type 0} (r : Result A) (f : A → Exec (Session O) B) (s : Session O)
      → fine tame r ≡ true
      → ((a : A) → Tame (f a))
      → fine tame (((λ t. (r, t)) >>= f) s).0 ≡ true
  tame_result (ok a) f s h k = (k a).raises s
  tame_result (err e) f s h k = h

  pub Tame-bind :
      {A B : Type 0} (m : Exec (Session O) A) (f : A → Exec (Session O) B)
      → Tame m
      → ((a : A) → Tame (f a))
      → Tame (m >>= f)
  Tame-bind m f km kf = record {
    raises = λ s. let (r, s') = m s in tame_result r f s' (km.raises s) kf;
  }

  pub Refuses-Tame : {A : Type 0} (m : Exec (Session O) A) → Tame m → Refuses m
  Refuses-Tame m k = record { at = λ s x h e. cc (never_bad (m s).0 x (k.raises s) e) }

  after_silent :
      {A B : Type 0} (r : Result A) (f : A → Exec (Session O) B) (s : Session O) (x : String)
      → ((a : A) → Refuses (f a))
      → all is_read s.exchanged ≡ true
      → (((λ t. (r, t)) >>= f) s).0 ≡ err (bad_parameter x)
      → all is_read (((λ t. (r, t)) >>= f) s).1.exchanged ≡ true
  after_silent (ok a) f s x k h e = (k a).at s x h e
  after_silent (err y) f s x k h e = h

  pub Refuses-bind :
      {A B : Type 0} (m : Exec (Session O) A) (f : A → Exec (Session O) B)
      → Silent anything m
      → ((a : A) → Refuses (f a))
      → Refuses (m >>= f)
  Refuses-bind m f km kf = record {
    at = λ s x h e. let (r, s') = m s in after_silent r f s' x kf (rw (km.keeps s) h) e;
  }

  -- Behind a request that only reads, what follows may still blame an option.
  pub Refuses-get :
      {B : Type 0} (client : Client) (req : Request) (f : Response → Exec (Session O) B)
      → is_get req.method ≡ true
      → ((resp : Response) → Refuses (f resp))
      → Refuses (request client req >>= f)
  unfolding request
  Refuses-get client req f reads k = record {
    at = λ s x h e.
        let (o, net) = O.send client req s.net in
        after_silent (answer o) f (record s { net = net; exchanged = (req, o) ∷ s.exchanged }) x k
          (ground (arith, reads, h)) e;
  }

pub ruleset tame_rules = (
  silent_rules, Tame-bind, Tame-Silent, Tame-request, open_client-Silent, json-Silent, emit-Silent,
)

pub ruleset refuse_rules = (tame_rules, Refuses-Tame, Refuses-bind, Silent-anything)
