-- ===== src/Gateway/Retry.antt =====
-- `LLMRequest`, `LLMGateway` and its retries, of llm_models/gateway.py. Timeouts, delays and the
-- temperature are numbers of hundredths.
pub mod Attempts
pub mod Billing
use ai_agent_hub_project_ome.Base.{
  ℕ, zero, suc, ◌+◌, ◌-◌, ◌*◌, ◌^◌, String, ◌<>◌, Option, none, some, Bool, true, false, List, [],
  ◌∷◌, ◌||◌, not, ltb, if◌then◌else◌,
}
use ai_agent_hub_project_ome.Base.Str.{is_blank, str_ℕ}
use ai_agent_hub_project_ome.Base.Int.{ℤ, pos, negsuc, pos_part, ltb_ℤ, leb_ℤ}
use ai_agent_hub_project_ome.Base.Dict.{Dict, lookup, has}
use ai_agent_hub_project_ome.Base.Exn.{
  Outcome, ok, raised, stopped, Exn, error, missing_key, value_error, llm_error,
  llm_configuration_error, bind, model_timer, wait_for, Exec, continue, pure, raise, ◌>>=◌, ◌>>◌,
}
use ai_agent_hub_project_ome.Base.Value.{Value, int, float, Fields, end, field, update}
use ai_agent_hub_project_ome.Agent.Runtime.{lift}
use ai_agent_hub_project_ome.Orchestrator.Run.{Host}
use ai_agent_hub_project_ome.Gateway.Tokens.{estimate}
use ai_agent_hub_project_ome.Gateway.Router.{ProviderRoute, Router, select}

pub record LlmRequest : Type 0 where
  pub system : String
  pub prompt : String
  pub model : Option String
  pub max_tokens : ℤ
  pub temperature : ℤ
  pub timeout_seconds : ℤ
  pub metadata : Fields

-- `LLMRequest(…)` with its `__post_init__`
unfoldable pub make_request : LlmRequest → Outcome LlmRequest
make_request r =
    if is_blank r.system || is_blank r.prompt
    then raised (error value_error "system and prompt must be non-empty")
    else if ltb_ℤ r.max_tokens 1 || not (leb_ℤ r.max_tokens 1000000)
    then raised (error value_error "max_tokens must be between 1 and 1,000,000")
    else if ltb_ℤ r.temperature 0 || not (leb_ℤ r.temperature 200)
    then raised (error value_error "temperature must be between 0 and 2")
    else if leb_ℤ r.timeout_seconds 0
    then raised (error value_error "timeout_seconds must be positive")
    else ok r

-- The keyword arguments of a `generate(system=…, prompt=…)` without others.
abbrev pub default_request : String → String → LlmRequest
default_request system prompt = record {
  system = system;
  prompt = prompt;
  model = none;
  max_tokens = pos 2048;
  temperature = pos 20;
  timeout_seconds = pos 6000;
  metadata = end;
}

pub record LlmResponse : Type 0 where
  pub text : String
  pub provider : String
  pub model : String
  pub input_tokens : ℕ
  pub output_tokens : ℕ
  pub latency_ms : Value
  pub metadata : Fields

unfoldable pub total_tokens : LlmResponse → ℕ
total_tokens r = r.input_tokens + r.output_tokens

pub record Provider (W : Type 0) : Type 0 where
  pub name : String
  pub generate : (model system prompt : String) (parameters : Fields) → Exec W String

pub record LlmGateway (W : Type 0) : Type 0 where
  pub providers : Dict (Provider W)
  pub router : Router
  pub max_retries : ℕ
  pub retry_delay : ℕ

abbrev check_routes : {W : Type 0} → Dict (Provider W) → List ProviderRoute → Outcome (Unit {0})
check_routes providers [] = ok tt
check_routes providers (r ∷ routes) =
    if has r.provider providers
    then check_routes providers routes
    else raised (error llm_configuration_error ("Missing provider for route: " <> r.provider))

-- `LLMGateway(providers=…, router=…, max_retries=…, retry_delay_seconds=…)`
unfoldable pub make_gateway :
    {W : Type 0} → Dict (Provider W) → Router → ℤ → ℤ → Outcome (LlmGateway W)
make_gateway providers router max_retries retry_delay =
    if ltb_ℤ max_retries 0 || ltb_ℤ retry_delay 0
    then raised (error value_error "Retry configuration is invalid")
    else bind (check_routes providers router.routes) λ _. ok (record {
      providers = providers;
      router = router;
      max_retries = pos_part max_retries;
      retry_delay = pos_part retry_delay;
    })

abbrev pub attempt_metadata : ℕ → Fields
attempt_metadata n = field "attempt" (int (pos n)) end

-- `{"max_tokens": …, "temperature": …, **dict(request.metadata)}`
unfoldable pub parameters_of : LlmRequest → Fields
unfolding update
parameters_of request =
    update
      (field "max_tokens" (int request.max_tokens)
        (field "temperature" (float request.temperature (negsuc 1)) end))
      request.metadata

-- `{last_error}`
abbrev show_error : Option Exn → String
show_error none = "None"
show_error (some e) = e.message

-- `host` reads the clock, and `sleep` is `asyncio.sleep`.
module _ {W : Type 0} (host : Host W) (sleep : ℕ → Exec W (Unit {0})) (max_retries delay : ℕ)
    (provider : Provider W) (route : ProviderRoute) (request : LlmRequest) where
  abbrev respond : ℕ → ℕ → String → Exec W LlmResponse
  respond attempt started text w =
      let (now, w') = host.perf_counter w in
      (
        ok (record {
          text = text;
          provider = route.provider;
          model = route.model;
          input_tokens = estimate (request.system <> request.prompt);
          output_tokens = estimate text;
          latency_ms = float (pos (now - started)) (negsuc 1);
          metadata = attempt_metadata (suc attempt);
        }),
        w',
      )

  -- The `try` block of one attempt.
  unfoldable pub try_once : ℕ → Exec W LlmResponse
  unfolding wait_for
  try_once attempt w =
      let (started, w') = host.perf_counter w in
      (do
        text ←
            wait_for model_timer
              (provider.generate route.model request.system request.prompt (parameters_of request))
        if is_blank text
            then raise (error llm_error "Provider returned an empty response")
            else respond attempt started text)
        w'

  -- `if attempt < self._max_retries: await asyncio.sleep(…)`
  abbrev pub back_off : ℕ → Exec W (Unit {0})
  back_off attempt = if ltb attempt max_retries then sleep (delay * 2 ^ attempt) else pure tt

  -- What follows an attempt: its response, or another attempt.
  abbrev pub after_try : ℕ → (Exn → Exec W LlmResponse) → Outcome LlmResponse → Exec W LlmResponse
  after_try attempt go (ok response) w = (ok response, w)
  after_try attempt go (raised e) w = (back_off attempt >> go e) w
  after_try attempt go (stopped x) w = (stopped x, w)

  -- `for attempt in range(self._max_retries + 1)`, with `left` rounds to go
  unfoldable pub attempts : (left attempt : ℕ) → Option Exn → Exec W LlmResponse
  unfolding try_once
  attempts zero attempt last_error w = (
    raised (
        error llm_error (
          "LLM request failed after "
          <> str_ℕ (max_retries + 1)
          <> " attempts: "
          <> show_error last_error)),
    w,
  )
  attempts (suc left) attempt last_error w =
      let go = λ (e : Exn). attempts left (suc attempt) (some e) in
      let (r, w') = try_once attempt w in after_try attempt go r w'

module _ {W : Type 0} (host : Host W) (sleep : ℕ → Exec W (Unit {0})) (gateway : LlmGateway W) where
  abbrev pub call_route : Option (Provider W) → ProviderRoute → LlmRequest → Exec W LlmResponse
  call_route none route request = raise (missing_key route.provider)
  call_route (some provider) route request =
      attempts host sleep gateway.max_retries gateway.retry_delay provider route request
        (suc gateway.max_retries) 0 none

  unfoldable pub complete : LlmRequest → Exec W LlmResponse
  unfolding attempts select
  complete request = do
    route ← lift (select gateway.router request.model)
    call_route (lookup route.provider gateway.providers) route request

  -- `generate(system=…, prompt=…, **kwargs)`, its keyword arguments read into a request
  unfoldable pub generate : LlmRequest → Exec W String
  unfolding complete make_request
  generate keywords = do
    request ← lift (make_request keywords)
    response ← complete request
    pure response.text
