-- ===== src/Gateway/Retry/Billing.antt =====
-- What a request costs: how often the provider is called, and how long the gateway waits.
use ai_agent_hub_project_ome.Base.{ℕ, suc, ◌+◌, ◌*◌, ◌^◌, ◌≤◌, ◌≡◌, none, some, arith}
use ai_agent_hub_project_ome.Base.Dict.{lookup}
use ai_agent_hub_project_ome.Base.Exn.{Outcome, ok, raised, stopped, Exec, llm_error}
use ai_agent_hub_project_ome.Base.Rules.{Ends}
use ai_agent_hub_project_ome.Orchestrator.Run.{Host}
use ai_agent_hub_project_ome.Gateway.Router.{ProviderRoute, select}
use ai_agent_hub_project_ome.Gateway.Retry.{
  LlmRequest, LlmResponse, Provider, LlmGateway, attempts, complete,
}
use ai_agent_hub_project_ome.Gateway.Retry.Attempts.{IsAnswer, IsMeter, Metered, attempts-Metered}

-- What a request costs, from the readings `c` and `t` on.
module _ {W : Type 0} (host : Host W) (sleep : ℕ → Exec W (Unit {0})) (gateway : LlmGateway W)
    (request : LlmRequest) (route : ProviderRoute) (provider : Provider W)
    (calls slept : W → ℕ) where
  abbrev pub Billed : ℕ → ℕ → Outcome LlmResponse → W → Type 0
  Billed c t (ok response) w =
      (k : ℕ) × IsAnswer route request k response
      × (k ≤ gateway.max_retries)
      × (calls w ≡ c + suc k)
      × (slept w + gateway.retry_delay ≡ t + gateway.retry_delay * 2 ^ k)
  Billed c t (raised e) w =
      (e.kind ≡ llm_error)
      × (calls w ≡ c + suc gateway.max_retries)
      × (slept w + gateway.retry_delay ≡ t + gateway.retry_delay * 2 ^ gateway.max_retries)
  Billed c t (stopped x) w = calls w ≤ c + suc gateway.max_retries

  -- A request that finds its route and provider either gets a response that is that provider's, of
  -- some attempt `k` no later than `max_retries`, or fails with an `LLMError`, or is stopped. The
  -- provider is called `k + 1` times for a response of attempt `k`, `max_retries + 1` times for a
  -- failure and never more often. The waits add up to `delay * (2 ^ k - 1)` for the response of
  -- attempt `k` and to `delay * (2 ^ max_retries - 1)` for a failure.
  pub complete-Billed :
      IsMeter calls slept host sleep provider
      → select gateway.router request.model ≡ ok route
      → lookup route.provider gateway.providers ≡ some provider
      → (w : W) → Ends (Billed (calls w) (slept w)) (complete host sleep gateway request w)
  unfolding complete
  complete-Billed meter chosen found w =
      rw (chosen, found)
        (settle (attempts host sleep n d provider route request (suc n) 0 none w).0
          (attempts host sleep n d provider route request (suc n) 0 none w).1
          (attempts-Metered host sleep n d provider route request calls slept meter n 0 none w
            (omega arith)))
    where
      n : ℕ
      n = gateway.max_retries

      d : ℕ
      d = gateway.retry_delay

      settle :
          (r : Outcome LlmResponse) (w' : W)
          → Metered host sleep n d provider route request calls slept meter
              (suc n)
              0
              (calls w)
              (slept w)
              r
              w'
          → Billed (calls w) (slept w) r w'
      settle (ok response) w' (k, answer, fits, p, q) = (k, answer, fits, omega arith, omega arith)
      settle (raised e) w' (kind, p, q) = (kind, p, omega arith)
      settle (stopped x) w' h = h
