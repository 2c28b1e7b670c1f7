-- ===== src/Base/Exn.antt =====
-- Exceptions and awaited actions. An action runs on a state and comes back with a result; what was
-- written before an exception stays written. A task may be stopped at an await, from outside or by
-- the deadline of an enclosing `asyncio.wait_for`: a stop is no `Exception` in Python.
use Prim.Native.String.{String, ◌++◌}
use mathlib.Core.Path.{◌≡◌, refl}
use mathlib.Core.Bool.{Bool, true, false}
use ai_agent_hub_project_ome.Base.Tests.{if◌then◌else◌, Bool-cases}
use mathlib.Core.Logic.{inl, inr}
use ai_agent_hub_project_ome.Base.Str.{repr}

pub data ExnKind : Type 0 where
  value_error type_error key_error index_error runtime_error permission_error : ExnKind
  timeout_error os_error json_decode_error : ExnKind
  orchestration_error agent_protocol_error llm_error llm_configuration_error : ExnKind
  tool_error tool_validation_error token_budget_exceeded : ExnKind
  other_error : (name : String) → ExnKind

-- An exception is its class and `str(exc)`.
pub record Exn : Type 0 where
  pub kind : ExnKind
  pub message : String

-- `type(exc).__name__`
unfoldable pub class_name : ExnKind → String
class_name value_error = "ValueError"
class_name type_error = "TypeError"
class_name key_error = "KeyError"
class_name index_error = "IndexError"
class_name runtime_error = "RuntimeError"
class_name permission_error = "PermissionError"
class_name timeout_error = "TimeoutError"
class_name os_error = "OSError"
class_name json_decode_error = "JSONDecodeError"
class_name orchestration_error = "OrchestrationError"
class_name agent_protocol_error = "AgentProtocolError"
class_name llm_error = "LLMError"
class_name llm_configuration_error = "LLMConfigurationError"
class_name tool_error = "ToolError"
class_name tool_validation_error = "ToolValidationError"
class_name token_budget_exceeded = "TokenBudgetExceeded"
class_name (other_error name) = name

-- `f"{type(exc).__name__}: {exc}"`
unfoldable pub describe : Exn → String
unfolding class_name
describe e = class_name e.kind ++ ": " ++ e.message

-- What `except ValueError` and `except ToolError` catch, subclasses included.
abbrev pub is_value_error : ExnKind → Bool
is_value_error value_error = true
is_value_error json_decode_error = true
is_value_error agent_protocol_error = true
is_value_error tool_validation_error = true
is_value_error _ = false

abbrev pub is_tool_error : ExnKind → Bool
is_tool_error tool_error = true
is_tool_error tool_validation_error = true
is_tool_error _ = false

abbrev pub is_timeout_error : ExnKind → Bool
is_timeout_error timeout_error = true
is_timeout_error _ = false

-- The deadlines of the three nested `wait_for` calls.
pub data Timer : Type 0 where
  run_timer tool_timer model_timer : Timer

pub data Stop : Type 0 where
  cancelled : Stop
  deadline : Timer → Stop

pub data Outcome {ℓ} (A : Type ℓ) : Type ℓ where
  ok : A → Outcome A
  raised : Exn → Outcome A
  stopped : Stop → Outcome A

abbrev pub error : ExnKind → String → Exn
error kind message = record { kind = kind; message = message }

-- `KeyError(text)`, whose `str` is the `repr` of its argument
abbrev pub missing_key : String → Exn
missing_key text = record { kind = key_error; message = repr text }

-- An awaited action on a state `S`.
abbrev pub Exec {ℓ} : Type ℓ → Type ℓ → Type ℓ
Exec S A = S → Outcome A × S

abbrev pub continue {ℓ κ} :
    {S : Type ℓ} {A : Type ℓ} {B : Type κ} → Outcome A → (A → S → Outcome B × S) → S → Outcome B × S
continue (ok a) f s = f a s
continue (raised e) f s = (raised e, s)
continue (stopped x) f s = (stopped x, s)

module _ {ℓ} {S : Type ℓ} where
  abbrev pub pure : {A : Type ℓ} → A → Exec S A
  pure a s = (ok a, s)

  abbrev pub raise : {A : Type ℓ} → Exn → Exec S A
  raise e s = (raised e, s)

  infixl 5 ◌>>=◌ ◌>>◌
  abbrev pub ◌>>=◌ : {A B : Type ℓ} → Exec S A → (A → Exec S B) → Exec S B
  ◌>>=◌ m f s = let (r, s') = m s in continue r f s'

  abbrev pub ◌>>◌ : {A B : Type ℓ} → Exec S A → Exec S B → Exec S B
  m >> n = m >>= λ _. n

abbrev pub guard {ℓ} : {S : Type ℓ} {A : Type ℓ} → Bool → Exn → Exec S A → Exec S A
guard true e next = next
guard false e next = raise e

-- Results of functions that are not awaited.
abbrev pub bind {ℓ κ} : {A : Type ℓ} {B : Type κ} → Outcome A → (A → Outcome B) → Outcome B
bind (ok a) f = f a
bind (raised e) f = raised e
bind (stopped x) f = stopped x

abbrev pub recover {ℓ} : {S A : Type ℓ} → (Exn → Exec S A) → Outcome A → S → Outcome A × S
recover h (ok a) s = (ok a, s)
recover h (raised e) s = h e s
recover h (stopped x) s = (stopped x, s)

-- `try: … except Exception as exc: …`
abbrev pub try_except {ℓ} : {S A : Type ℓ} → Exec S A → (Exn → Exec S A) → Exec S A
try_except m h s = let (r, s') = m s in recover h r s'

-- `except ToolError: raise` and the like: what an exception turns into
abbrev pub convert {ℓ} : {A : Type ℓ} → (Exn → Exn) → Outcome A → Outcome A
convert f (ok a) = ok a
convert f (raised e) = raised (f e)
convert f (stopped x) = stopped x

timer_eq : Timer → Timer → Bool
timer_eq run_timer run_timer = true
timer_eq tool_timer tool_timer = true
timer_eq model_timer model_timer = true
timer_eq _ _ = false

abbrev pub expired : Timer → Stop → Bool
unfolding timer_eq
expired t cancelled = false
expired t (deadline u) = timer_eq t u

abbrev pub own_deadline {ℓ} : {A : Type ℓ} → Timer → Outcome A → Outcome A
unfolding expired
own_deadline t (ok a) = ok a
own_deadline t (raised e) = raised e
own_deadline t (stopped x) = if expired t x then raised (error timeout_error "") else stopped x

-- `asyncio.wait_for(m, timeout)`: a stop by its own deadline becomes a `TimeoutError`.
unfoldable pub wait_for {ℓ} : {S A : Type ℓ} → Timer → Exec S A → Exec S A
unfolding expired own_deadline
wait_for t m s = let (r, s') = m s in (own_deadline t r, s')

own_deadline-eq-ok {ℓ} :
    {A : Type ℓ} (t : Timer) (o : Outcome A) (a : A) → own_deadline t o ≡ ok a → o ≡ ok a
unfolding own_deadline
own_deadline-eq-ok t (ok b) a e = e
own_deadline-eq-ok t (raised x) a e = absurd (cc)
own_deadline-eq-ok t (stopped x) a e = elim (Bool-cases (expired t x)) [
  | inl h ↦ absurd (let wrong = rw h at e in cc)
  | inr h ↦ absurd (let wrong = rw h at e in cc)
]

-- What returns under a deadline returned in time.
pub wait_for-eq-ok {ℓ} :
    {S A : Type ℓ} (t : Timer) (m : Exec S A) (s : S) (a : A)
    → (wait_for t m s).0 ≡ ok a
    → (m s).0 ≡ ok a
unfolding wait_for
wait_for-eq-ok t m s a e = own_deadline-eq-ok t (m s).0 a e

-- Inversion of a block that returns.
pub continue-eq-ok {ℓ κ} :
    {S : Type ℓ} {A : Type ℓ} {B : Type κ} (r : Outcome A) (f : A → S → Outcome B × S) (s s' : S)
    (b : B)
    → continue r f s ≡ (ok b, s')
    → (a : A) × (r ≡ ok a) × (f a s ≡ (ok b, s'))
continue-eq-ok (ok a) f s s' b e = (a, refl, e)
continue-eq-ok (raised x) f s s' b e = absurd (cc)
continue-eq-ok (stopped x) f s s' b e = absurd (cc)
