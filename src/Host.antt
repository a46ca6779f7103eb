-- ===== src/Host.antt =====
-- What the scripts ask of the machine they run on, and what they do to it. The programs that they
-- start (docker, git, openssl, python), the files, the terminal and the clock are no part of the
-- repository: they answer through `Host`, which may answer each question by the whole history.
pub mod Exec
pub mod Emits
pub mod Returns
pub mod Raises
pub mod Course
pub mod Upholds
pub mod Passing
pub mod Loops
pub mod Clock
pub mod Samples
use stir_main.Base.{ℕ, String, ◌<>◌, Bool, Option, List, [], ◌∷◌}
use stir_main.Json.{Json, Loaded}

-- What `subprocess.run` gives its program on standard input: nothing, a text, or an open file.
pub data Input : Type 0 where
  inherited : Input
  typed : String → Input
  from_file : String → Input

-- One call of `subprocess.run`. `stdout` is the file that receives the output, if the call names
-- one; `env` holds the variables that the call adds to those of the process.
pub record Proc : Type 0 where
  pub argv : List String
  pub cwd : String
  pub input : Input
  pub stdout : Option String
  pub env : List (String × String)

-- A finished program; a program that a signal ended has some other code than 0 too.
pub record Completed : Type 0 where
  pub returncode : ℕ
  pub stdout : String
  pub stderr : String

-- One request of `urllib.request`: the value whose JSON text is the body, `null` for no body.
pub record Request : Type 0 where
  pub url : String
  pub method : String
  pub headers : List (String × String)
  pub body : Json

-- What `urlopen` comes to: an answer with its status and the text of its body, an error status
-- included, or no answer (`URLError`, `HTTPException`).
pub data Reply : Type 0 where
  replied : ℕ → String → Reply
  unreachable : Reply

-- What a script draws from the random source of the machine, and says where from.
pub data Draw : Type 0 where
  uuid4 : Draw
  token_urlsafe : ℕ → Draw
  private_key : Draw
  rsa_key : Draw
  urandom : ℕ → Draw

-- What a script does that can be seen from outside, reads included.
pub data Event : Type 0 where
  ran : Proc → Event
  looked : String → Event
  listed : String → Event
  read : String → Event
  wrote : String → String → Event
  made_dir : String → Event
  set_mode : String → ℕ → Event
  removed : String → Event
  asked : String → Event
  printed : String → Event
  timed : Event
  slept : ℕ → Event
  exported : String → String → Event
  requested : Request → Event
  drew : Draw → Event

-- The history, newest first.
abbrev pub Trace : Type 0
Trace = List Event

-- The web, and the libraries that the scripts call for JSON, hashes and Ed25519. `repr` is the
-- text of `repr(v)`, which is that of `str(v)` where v is no string, `float_of` the text of `float(s)`. A private key is a text that names it, and
-- `sign` takes the text whose UTF-8 encoding is signed; both give the raw bytes as characters.
-- `hostname` is that of `urlparse`, `iso_now` the time of day as the scripts write it.
pub record Web : Type 0 where
  pub urlopen : Trace → Request → Reply
  pub loads : String → Loaded
  pub dumps : Json → String
  pub canonical : Json → String
  pub repr : Json → String
  pub lower : String → String
  pub upper : String → String
  pub draw : Trace → Draw → String
  pub public_key : String → String
  pub sign : String → String → String
  pub sign_rsa : String → String → String
  pub sha256 : String → String
  pub float_of : String → Option String
  pub hostname : String → Option String
  pub iso_now : Trace → String

-- The clock counts ticks, `second` of them to a second, as fine as the clock of the machine.
pub record Host : Type 0 where
  pub root : String
  pub executable : String
  pub argv : List String
  pub environ : String → Option String
  pub run : Trace → Proc → Completed
  pub exists : Trace → String → Bool
  pub is_dir : Trace → String → Bool
  pub list_dirs : Trace → String → List String
  pub read_text : Trace → String → Option String
  pub removes : Trace → String → Bool
  pub answer : Trace → String → Option String
  pub second : ℕ
  pub clock : Trace → ℕ
  pub which : String → Option String
  pub web : Web

infixl 66 ◌/◌
abbrev pub ◌/◌ : String → String → String
dir / name = dir <> "/" <> name
