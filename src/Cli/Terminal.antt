-- ===== src/Cli/Terminal.antt =====
-- What a command of the command line does to the outside: it sends requests, prints, reads and
-- writes files, asks for a password and runs openssl.
use Prim.Native.String.{String}
use linuxmuster_radius.Prelude.{ℕ, ℤ, Option, none, some, List, [], ◌∷◌, ◌++◌, Text, codes}
use linuxmuster_radius.Exec.{Exec, Result, ok, err, http_error}
use linuxmuster_radius.Cli.{Client}
use linuxmuster_radius.Cli.Json.{Json}

-- A printed line by its parts: fixed text, and the values that are formatted into it.
pub data Part : Type 0 where
  lit : String → Part
  text : Text → Part
  number : ℕ → Part
  -- `str(j)`, and `json.dumps(j, indent=2, ensure_ascii=False)`.
  value dumped : Json → Part

abbrev pub Line : Type 0
Line = List Part

-- On standard output or on standard error; the colours are left out.
pub data Printed : Type 0 where
  echoed warned : Line → Printed

pub data Method : Type 0 where
  get post put delete : Method

pub record Request : Type 0 where
  pub method : Method
  pub path : Text
  -- `params=` and `json=`
  pub params : List (Text × Part)
  pub body : Option Json

pub record Response : Type 0 where
  pub status_code : ℕ
  -- The bytes, and what httpx decodes them to.
  pub content : List ℕ
  pub body_text : Text
  -- `resp.json()`, or its `ValueError`.
  pub parsed : Option Json

-- What `subprocess.run` gives.
pub record Completed : Type 0 where
  pub return_code : ℤ
  pub stdout : Text
  pub stderr : Text

-- What `read_text(encoding="utf-8")` comes to: an `OSError`, a `UnicodeDecodeError`, or the text.
pub data Reading : Type 0 where
  unreadable undecodable : Reading
  decoded : Text → Reading

-- What the command line calls: httpx with the API behind it, the files, openssl and the prompt, on
-- the state `Net` of all of it. An answer that is `none` is the exception.
pub record Outside : Type 1 where
  pub Net : Type 0
  pub send : Client → Request → Net → Option Response × Net
  pub read_text : Text → Net → Reading
  pub write_text : Text → Text → Net → Option Net
  pub run_openssl : List Text → Net → Option Completed × Net
  pub prompt : Net → Text × Net
  -- `load_settings()`: the token and the URL of the API.
  pub settings : Net → Option (Text × Text)
  -- `str(j)` of an array or an object.
  pub repr : Json → Text

-- The session of one command: the outside, what was printed and what was sent with its answers,
-- the last first.
pub record Session (O : Outside) : Type 0 where
  pub net : O.Net
  pub printed : List Printed
  pub exchanged : List (Request × Option Response)

abbrev pub answer : Option Response → Result Response
answer none = err http_error
answer (some resp) = ok resp

module _ {O : Outside} where
  abbrev pub print : Printed → Exec (Session O) (Unit {0})
  print p s = (ok tt, record s { printed = p ∷ s.printed })

  abbrev pub echo : Line → Exec (Session O) (Unit {0})
  echo l = print (echoed l)

  -- `_warn`, and `typer.secho(..., err=True)` in other colours.
  abbrev pub warn : Line → Exec (Session O) (Unit {0})
  warn l = print (warned l)

  -- A method of the client.
  unfoldable pub request : Client → Request → Exec (Session O) Response
  request client req s =
      let (resp, net) = O.send client req s.net in
      (answer resp, record s { net = net; exchanged = (req, resp) ∷ s.exchanged })

abbrev pub plain : Method → Text → Request
plain method path = record { method = method; path = path; params = []; body = none }

abbrev pub with_body : Method → Text → Json → Request
with_body method path body = record { method = method; path = path; params = []; body = some body }

-- `f"/v1/instances/{name}..."`
abbrev pub instance_path : Text → String → Text
instance_path name suffix = codes "/v1/instances/" ++ (name ++ codes suffix)
