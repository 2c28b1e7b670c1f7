-- ===== src/Gateway/Kept.antt =====
-- What the gateway and the adapters can do to the world.
use ai_agent_hub_project_ome.Base.{
  ℕ, zero, suc, String, Option, none, some, ◌≡◌, ◌==◌, refl, inl, inr, Bool-cases, ltb,
}
use ai_agent_hub_project_ome.Base.Str.{is_blank}
use ai_agent_hub_project_ome.Base.Dict.{lookup}
use ai_agent_hub_project_ome.Base.Exn.{
  Outcome, ok, raised, stopped, Exn, Exec, wait_for, model_timer,
}
use ai_agent_hub_project_ome.Base.Value.{Fields, Codec}
use ai_agent_hub_project_ome.Agent.Runtime.{lift}
use ai_agent_hub_project_ome.Agent.Confined.{Keeps, bind-Keeps}
use ai_agent_hub_project_ome.Orchestrator.Run.{Host}
use ai_agent_hub_project_ome.Gateway.Router.{ProviderRoute, select}
use ai_agent_hub_project_ome.Gateway.Retry.{
  LlmRequest, LlmResponse, Provider, LlmGateway, make_request, try_once, back_off, after_try,
  attempts, call_route, complete, generate, parameters_of,
}
use ai_agent_hub_project_ome.Gateway.Providers.{
  Wire, Web, Adapter, Post, exchange, prepared, vendor_generate, generate_with,
}

-- A provider keeps what is known of the world.
abbrev pub IsKeptProvider : {S : Type 0} → (S → Type 0) → Provider S → Type 0
IsKeptProvider P provider =
    (model system prompt : String) (parameters : Fields)
    → Keeps P (provider.generate model system prompt parameters)

module _ {S : Type 0} (P : S → Type 0) (host : Host S) (sleep : ℕ → Exec S (Unit {0}))
    (clock : (s : S) → P s → P (host.perf_counter s).1) (sleeps : (n : ℕ) → Keeps P (sleep n)) where
  module _ (max_retries delay : ℕ) (provider : Provider S) (kept : IsKeptProvider P provider)
      (route : ProviderRoute) (request : LlmRequest) where
    try_once-Keeps :
        (attempt : ℕ)
        → Keeps P (try_once host sleep max_retries delay provider route request attempt)
    unfolding try_once wait_for
    try_once-Keeps attempt s p =
        bind-Keeps
          (wait_for model_timer
            (provider.generate route.model request.system request.prompt (parameters_of request)))
          _ (λ t q. kept route.model request.system request.prompt (parameters_of request) t q)
          (λ text t q. elim (Bool-cases (is_blank text)) [
            | inl e ↦ rw e q
            | inr e ↦ rw e (clock t q)
          ])
          (host.perf_counter s).1 (clock s p)

    back_off-Keeps :
        (attempt : ℕ)
        → Keeps P (back_off host sleep max_retries delay provider route request attempt)
    back_off-Keeps attempt s p = elim (Bool-cases (ltb attempt max_retries)) [
      | inl e ↦ rw e (sleeps _ s p)
      | inr e ↦ rw e p
    ]

    after_try-Keeps :
        (attempt : ℕ) (go : Exn → Exec S LlmResponse) (r : Outcome LlmResponse)
        → ((e : Exn) → Keeps P (go e))
        → Keeps P (after_try host sleep max_retries delay provider route request attempt go r)
    after_try-Keeps attempt go (ok response) k s p = p
    after_try-Keeps attempt go (raised e) k s p =
        bind-Keeps (back_off host sleep max_retries delay provider route request attempt) _
          (back_off-Keeps attempt) (λ _. k e) s p
    after_try-Keeps attempt go (stopped x) k s p = p

    attempts-Keeps :
        (left attempt : ℕ) (last_error : Option Exn)
        → Keeps P
            (attempts host sleep max_retries delay provider route request left attempt last_error)
    unfolding attempts
    attempts-Keeps zero attempt last_error s p = p
    attempts-Keeps (suc left) attempt last_error s p =
        let (r, s') = try_once host sleep max_retries delay provider route request attempt s in
        after_try-Keeps attempt _ r (λ e. attempts-Keeps left (suc attempt) (some e)) s'
          (try_once-Keeps attempt s p)

  module _ (gateway : LlmGateway S)
      (kept : (name : String) (provider : Provider S)
        → lookup name gateway.providers ≡ some provider
        → IsKeptProvider P provider) where
    call_route-Keeps :
        (o : Option (Provider S)) (route : ProviderRoute) (request : LlmRequest)
        → lookup route.provider gateway.providers ≡ o
        → Keeps P (call_route host sleep gateway o route request)
    call_route-Keeps none route request e s p = p
    call_route-Keeps (some provider) route request e s p =
        attempts-Keeps gateway.max_retries gateway.retry_delay provider
          (kept route.provider provider e) route request (suc gateway.max_retries) 0 none s p

    -- A request to the gateway keeps what its providers, the clock and the waits keep.
    pub generate-Keeps : (keywords : LlmRequest) → Keeps P (generate host sleep gateway keywords)
    unfolding generate complete
    generate-Keeps keywords =
        bind-Keeps (lift (make_request keywords)) _ (λ s p. p)
          λ request.
            bind-Keeps (complete host sleep gateway request) _
              (bind-Keeps (lift (select gateway.router request.model)) _ (λ s p. p)
                λ route. call_route-Keeps _ route request refl)
              (λ response s p. p)

module _ {S : Type 0} (P : S → Type 0) (codec : Codec) (wire : Wire) (web : Web S)
    (posts : (post : Post) (s : S) → P s → P (web post s).1) where
  generate_with-Keeps :
      (key : Option String) (adapter : Adapter) (model system prompt : String) (parameters : Fields)
      → Keeps P (generate_with codec wire web key adapter model system prompt parameters)
  generate_with-Keeps none adapter model system prompt parameters s p = p
  generate_with-Keeps (some key) adapter model system prompt parameters s p =
      elim (Bool-cases (key == "")) [
        | inl e ↦ rw e p
        | inr e ↦ rw e (
            bind-Keeps (lift (prepared codec wire adapter key model system prompt parameters))
              (exchange codec wire web adapter.vendor) (λ t q. q) (λ post t q. posts post t q) s p)
      ]

  -- An adapter keeps what the network keeps.
  pub vendor_generate-Keeps :
      (adapter : Adapter) (model system prompt : String) (parameters : Fields)
      → Keeps P (vendor_generate codec wire web adapter model system prompt parameters)
  unfolding vendor_generate
  vendor_generate-Keeps adapter = generate_with-Keeps adapter.api_key adapter
