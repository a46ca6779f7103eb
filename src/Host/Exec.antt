-- ===== src/Host/Exec.antt =====
-- Scripts as actions: they read the answers of the host, add to the history, and return or raise.
use stir_main.Base.{
  ◌≡◌, refl, ◌⊎◌, inl, inr, ℕ, String, ◌==◌, ◌=s=◌, Bool, true, false, Option, none, some, List, [],
  ◌∷◌, if◌then◌else◌,
}
use stir_main.Host.{Proc, Completed, inherited, Event, Trace, Host}
use stir_main.Host.{ran, looked, listed, read, asked, timed, exported}

-- Why the fixture helpers refuse a compose project (`ComposeSafetyError`).
pub data Refusal : Type 0 where
  project_not_set project_is_stir_dev : Refusal
  not_one_container : String → String → Refusal
  label_differs : String → String → Refusal
  label_is_stir_dev : String → Refusal

-- What a script raises. `out_of_rounds` stands for a loop that has not ended when its rounds are up.
pub data Failure : Type 0 where
  system_exit : String → Failure
  called_process_error : List String → Failure
  runtime_error : String → Failure
  safety_error : Refusal → Failure
  assertion_error : String → Failure
  value_error : Failure
  os_error : Failure
  eof_error : Failure
  key_error : Failure
  index_error : Failure
  type_error : Failure
  attribute_error : Failure
  stop_iteration : Failure
  -- The `AssertionError` of `request`: method, path, allowed, status and body.
  unexpected_reply : String → String → List ℕ → ℕ → String → Failure
  out_of_rounds : Failure

pub data Result (A : Type 0) : Type 0 where
  ok : A → Result A
  fail : Failure → Result A

abbrev pub Exec : Type 0 → Type 0
Exec A = Host → Trace → Result A × Trace

module _ {A : Type 0} where
  unfoldable pub pure : A → Exec A
  pure a h t = (ok a, t)

  unfoldable pub raise : Failure → Exec A
  raise e h t = (fail e, t)

  unfoldable pub asks : (Host → A) → Exec A
  asks f h t = (ok (f h), t)

  -- An answer of the host, and the event that asking for it leaves.
  unfoldable pub query : Event → (Host → Trace → A) → Exec A
  query e f h t = (ok (f h t), e ∷ t)

module _ {A B : Type 0} where
  abbrev pub next : Result A → (A → Exec B) → Exec B
  next (ok a) f h t = f a h t
  next (fail e) f h t = (fail e, t)

infixl 5 ◌>>=◌ ◌>>◌
unfoldable pub ◌>>=◌ : {A B : Type 0} → Exec A → (A → Exec B) → Exec B
unfolding pure raise asks query
◌>>=◌ m f h t = let (r, u) = m h t in next r f h u

abbrev pub ◌>>◌ : {A B : Type 0} → Exec A → Exec B → Exec B
m >> k = m >>= λ _. k

unfoldable pub emit : Event → Exec Unit
emit e h t = (ok tt, e ∷ t)

unfoldable pub unless : Bool → Failure → Exec Unit
unless b e h t = (if b then ok tt else fail e, t)

-- `for x in xs: body(x)`.
unfoldable pub for_each : {A : Type 0} → List A → (A → Exec Unit) → Exec Unit
for_each [] body = pure tt
for_each (x ∷ xs) body = do body x; for_each xs body

-- A call at `ROOT` with nothing else said.
abbrev pub at : String → List String → Proc
at dir argv = record { argv = argv; cwd = dir; input = inherited; stdout = none; env = [] }

unfoldable pub call : Proc → Exec Completed
unfolding query
call p = query (ran p) (λ h t. h.run t p)

unfoldable pub ok_or_raise : Proc → Completed → Exec Completed
ok_or_raise p c h t = (if c.returncode == 0 then ok c else fail (called_process_error p.argv), t)

-- `subprocess.run(…, check=True)`.
unfoldable pub check : Proc → Exec Completed
unfolding call ok_or_raise ◌>>=◌
check p = do c ← call p; ok_or_raise p c

unfoldable pub exists : String → Exec Bool
unfolding query
exists path = query (looked path) (λ h t. h.exists t path)

unfoldable pub is_dir : String → Exec Bool
unfolding query
is_dir path = query (looked path) (λ h t. h.is_dir t path)

unfoldable pub some_or_raise : {A : Type 0} → Failure → Option A → Exec A
unfolding pure raise
some_or_raise e none = raise e
some_or_raise e (some a) = pure a

unfoldable pub read_text : String → Exec String
unfolding query some_or_raise ◌>>=◌
read_text path = do
  found ← query (read path) (λ h t. h.read_text t path)
  some_or_raise os_error found

-- `input(…)`, which raises at the end of the input.
unfoldable pub input : String → Exec String
unfolding query some_or_raise ◌>>=◌
input prompt = do
  line ← query (asked prompt) (λ h t. h.answer t prompt)
  some_or_raise eof_error line

unfoldable pub time : Exec ℕ
unfolding query
time = query timed (λ h t. h.clock t)

unfoldable pub list_dirs : String → Exec (List String)
unfolding query
list_dirs path = query (listed path) (λ h t. h.list_dirs t path)

-- The value that the process last gave a variable, or else the one it was started with.
unfoldable pub exported_in : String → Trace → Option String
exported_in k [] = none
exported_in k (exported j v ∷ t) = if j =s= k then some v else exported_in k t
exported_in k (_ ∷ t) = exported_in k t

abbrev pub or_started_with : Option String → Option String → Option String
or_started_with none v = v
or_started_with (some v) _ = some v

unfoldable pub getenv : String → Exec (Option String)
getenv k h t = (ok (or_started_with (exported_in k t) (h.environ k)), t)

-- `x in xs` on the command line.
unfoldable pub member : String → List String → Bool
member x [] = false
member x (y ∷ ys) = if x =s= y then true else member x ys

-- How an action that answers yes or no can end.
pub answer_cases :
    (r : Result Bool) → (r ≡ ok true) ⊎ ((r ≡ ok false) ⊎ ((e : Failure) × (r ≡ fail e)))
answer_cases (ok true) = inl refl
answer_cases (ok false) = inr (inl refl)
answer_cases (fail e) = inr (inr (e, refl))

-- Opens all of the above at once for the proofs that run a script.
unfoldable pub steps : Unit {0}
unfolding ◌>>=◌ pure raise asks query emit unless call ok_or_raise check exists is_dir some_or_raise
    read_text input time list_dirs getenv for_each
steps = tt
