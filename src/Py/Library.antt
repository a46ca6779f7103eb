-- ===== src/Py/Library.antt =====
-- What the scripts call of Python's library, and their `assert` and `print`.
use stir_main.Base.{ℕ, String, Bool, Option, none, some, if◌then◌else◌}
use stir_main.Base.Text.{strip, first}
use stir_main.Py.Texts.{join, split_at, b64url}
use stir_main.Json.{Json, null, str, Loaded, value, decode_error, other_error}
use stir_main.Host.{Draw, drew, uuid4, printed, wrote, timed, ◌/◌}
use stir_main.Host.Exec.{
  Exec, pure, raise, asks, emit, query, getenv, unless, read_text, ◌>>=◌, assertion_error,
  value_error, runtime_error,
}
use stir_main.Py.Values.{shown}

-- `assert b`, `assert b, 'text'` and `assert b, v`.
unfoldable pub expect : Bool → Exec Unit
expect b = unless b (assertion_error "")

unfoldable pub expect_or : String → Bool → Exec Unit
expect_or said b = unless b (assertion_error said)

unfoldable pub expect_showing : Json → Bool → Exec Unit
expect_showing v b = if b then pure tt else (do said ← shown v; raise (assertion_error said))

unfoldable pub print : String → Exec Unit
print s = emit (printed s)

-- `json.loads(s)`. What is no syntax error is an exception of some other class.
unfoldable pub loaded_or_raise : Loaded → Exec Json
loaded_or_raise (value v) = pure v
loaded_or_raise decode_error = raise value_error
loaded_or_raise other_error = raise (runtime_error "json.loads")

unfoldable pub loads : String → Exec Json
loads s = do found ← asks (λ h. h.web.loads s); loaded_or_raise found

unfoldable pub draws : Draw → Exec String
draws d = query (drew d) (λ h t. h.web.draw t d)

-- `uuid.uuid4().hex[:n]`.
unfoldable pub uuid4_hex : ℕ → Exec String
uuid4_hex n = do u ← draws uuid4; pure (first n (join "" (split_at 45 u)))

-- `(ROOT / path).read_text().strip()`.
unfoldable pub stripped_text : String → Exec String
stripped_text path = do
  root ← asks (λ h. h.root)
  found ← read_text (root / path)
  pure (strip found)

-- `hashlib.sha256(s.encode()).hexdigest()`, and JSON in the canonical form of the fixtures.
unfoldable pub sha256 : String → Exec String
sha256 s = asks (λ h. h.web.sha256 s)

unfoldable pub canonical : Json → Exec String
canonical v = asks (λ h. h.web.canonical v)

-- The public key of a private key, and a signature, as the text of the raw bytes in base64.
unfoldable pub public_text : String → Exec String
public_text key = asks (λ h. b64url (h.web.public_key key))

unfoldable pub signed : String → String → Exec String
signed key said = asks (λ h. b64url (h.web.sign key said))

unfoldable pub dumps : Json → Exec String
dumps v = asks (λ h. h.web.dumps v)

-- `datetime.now(timezone.utc)` as the scripts write it.
unfoldable pub now_iso : Exec String
now_iso = query timed (λ h t. h.web.iso_now t)

-- `os.environ.get(k)`.
abbrev text_or_null : Option String → Json
text_or_null none = null
text_or_null (some s) = str s

unfoldable pub env_value : String → Exec Json
env_value k = do found ← getenv k; pure (text_or_null found)

-- `os.environ.get(k, default)`.
abbrev or_default : String → Option String → String
or_default d none = d
or_default d (some s) = s

unfoldable pub env_or : String → String → Exec String
env_or k d = do found ← getenv k; pure (or_default d found)

-- `{v!r}`, `s.lower()`, `s.upper()`.
unfoldable pub shown_repr : Json → Exec String
shown_repr v = asks (λ h. h.web.repr v)

unfoldable pub lower_text : String → Exec String
lower_text s = asks (λ h. h.web.lower s)

unfoldable pub upper_text : String → Exec String
upper_text s = asks (λ h. h.web.upper s)

-- An RSA signature, as the text of its bytes in base64.
unfoldable pub signed_rsa : String → String → Exec String
signed_rsa key said = asks (λ h. b64url (h.web.sign_rsa key said))

unfoldable pub write_under_root : String → String → Exec Unit
write_under_root path said = do root ← asks (λ h. h.root); emit (wrote (root / path) said)
