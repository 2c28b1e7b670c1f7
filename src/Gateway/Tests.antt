-- ===== src/Gateway/Tests.antt =====
-- Runs at concrete inputs: a ledger, three routes, and a provider that is down at first.
use mathlib.Core.List.{Mem}
use ai_agent_hub_project_ome.Base.{
  ℕ, zero, suc, ◌+◌, ◌≤◌, ◌≡◌, ◌≢◌, ◌↔◌, refl, String, none, some, Bool, true, false, List, [], ◌∷◌,
  arith,
}
use ai_agent_hub_project_ome.Base.Sort.{sort_by}
use ai_agent_hub_project_ome.Base.Str.{is_blank}
use ai_agent_hub_project_ome.Base.Int.{ℤ, pos, negsuc}
use ai_agent_hub_project_ome.Base.Dict.{lookup}
use ai_agent_hub_project_ome.Base.Exn.{Outcome, ok, raised, error, llm_error, Exec}
use ai_agent_hub_project_ome.Base.Value.{end}
use ai_agent_hub_project_ome.Base.Rules.{Ends}
use ai_agent_hub_project_ome.Orchestrator.Run.{Host}
use ai_agent_hub_project_ome.Gateway.Tokens.{
  TokenLedger, Demand, charged, reserved, demand_all, demand_all-le_limit,
}
use ai_agent_hub_project_ome.Gateway.Router.{
  ProviderRoute, Router, make_router, serves, before, select,
}
use ai_agent_hub_project_ome.Gateway.Router.Selection.{select-best, select-fails_iff}
use ai_agent_hub_project_ome.Gateway.Retry.{
  LlmRequest, make_request, Provider, LlmGateway, try_once, attempts, complete,
}
use ai_agent_hub_project_ome.Gateway.Retry.Attempts.{IsMeter}
use ai_agent_hub_project_ome.Gateway.Retry.Billing.{Billed, complete-Billed}

abbrev ledger : TokenLedger
ledger = record { limit = 10; used = 4 }

abbrev demands : List Demand
demands = reserved (pos 5) ∷ charged "a text of more than four letters" ∷ reserved (negsuc 0) ∷ []

demand_all_test : (demand_all demands ledger).used ≡ 9
unfolding demand_all
demand_all_test = refl

demand_all-le_limit_example :
    ((demand_all demands ledger).used ≤ 10)
    × (4 ≤ (demand_all demands ledger).used)
    × ((demand_all demands ledger).limit ≡ 10)
demand_all-le_limit_example = demand_all-le_limit demands ledger (omega arith)

abbrev route : String → String → ℤ → Bool → ProviderRoute
route provider model priority enabled = record {
  provider = provider;
  model = model;
  priority = priority;
  enabled = enabled;
}

abbrev routes : List ProviderRoute
routes =
    route "beta" "large" (pos 20) true
    ∷ route "gamma" "small" (negsuc 0) false
    ∷ route "alpha" "small" (pos 10) true
    ∷ []

abbrev router : Router
router = record {
  routes =
      route "gamma" "small" (negsuc 0) false
      ∷ route "alpha" "small" (pos 10) true
      ∷ route "beta" "large" (pos 20) true
      ∷ [];
}

made : make_router routes ≡ ok router
unfolding make_router sort_by
made = refl

chosen : select router none ≡ ok (route "alpha" "small" (pos 10) true)
unfolding select
chosen = refl

select-best_example :
    Mem (route "alpha" "small" (pos 10) true) routes
    × (true ≡ true)
    × ((q : ProviderRoute)
        → Mem q routes
        → q.enabled ≡ true
        → before (route "alpha" "small" (pos 10) true) q ≡ true)
select-best_example =
    select-best routes router none (route "alpha" "small" (pos 10) true) made chosen

select-fails_iff_example :
    ((r : ProviderRoute) → select router (some "huge") ≢ ok r)
    ↔ ((q : ProviderRoute) → Mem q routes → serves (some "huge") q ≡ false)
select-fails_iff_example = select-fails_iff routes router (some "huge") made

-- The calls of the provider and the time slept.
record Meter : Type 0 where
  calls : ℕ
  slept : ℕ

-- Down for the first two calls.
abbrev answer : ℕ → Outcome String
answer zero = raised (error llm_error "connection refused")
answer (suc zero) = ok "  "
answer (suc (suc n)) = ok "hello"

abbrev provider : Provider Meter
provider = record {
  name = "alpha";
  generate = λ _ _ _ _ m. (answer m.calls, record m { calls = suc m.calls });
}

abbrev host : Host Meter
host = record { perf_counter = λ w. (0, w); uuid4 = λ w. ("id", w) }

abbrev sleep : ℕ → Exec Meter (Unit {0})
sleep n m = (ok tt, record m { slept = m.slept + n })

abbrev gateway : ℕ → LlmGateway Meter
gateway retries = record {
  providers = ("alpha", provider) ∷ [];
  router = router;
  max_retries = retries;
  retry_delay = 25;
}

abbrev request : LlmRequest
request = record {
  system = "You are terse.";
  prompt = "Say hello";
  model = none;
  max_tokens = pos 100;
  temperature = pos 20;
  timeout_seconds = pos 6000;
  metadata = end;
}

request_test : make_request request ≡ ok request
unfolding make_request is_blank
request_test = refl

meter : IsMeter (λ m. m.calls) (λ m. m.slept) host sleep provider
meter = record {
  called = λ _ _ _ _ m. refl;
  awake = λ _ _ _ _ m. refl;
  clock_calls = λ m. refl;
  clock_slept = λ m. refl;
  sleep_calls = λ n m. refl;
  sleep_slept = λ n m. refl;
  sleep_quiet = λ n m e h. absurd (cc);
}

-- The third attempt answers: two waits, of 25 and 50 hundredths.
complete_test :
    (complete host sleep (gateway 2) request (record { calls = 0; slept = 0 })).1
    ≡ record { calls = 3; slept = 75 }
unfolding complete lookup attempts try_once is_blank
complete_test = refl

complete-Billed_example :
    Ends
      (Billed host sleep
        (gateway 2)
        request
        (route "alpha" "small" (pos 10) true)
        provider
        (λ m. m.calls)
        (λ m. m.slept)
        0
        0)
      (complete host sleep (gateway 2) request (record { calls = 0; slept = 0 }))
unfolding lookup
complete-Billed_example =
    complete-Billed host sleep (gateway 2) request (route "alpha" "small" (pos 10) true) provider
      (λ m. m.calls) (λ m. m.slept) meter chosen refl (record { calls = 0; slept = 0 })
