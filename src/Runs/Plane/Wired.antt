-- ===== src/Runs/Plane/Wired.antt =====
-- What comes of the control plane of api/app.py, and what a command does there.
use ai_agent_hub_project_ome.Base.{
  ℕ, Bool, ◌<>◌, ◌⊎◌, String, Option, none, some, true, [], ◌∷◌, ◌≡◌, refl, ◌==◌, false, inl, inr,
  Bool-cases, subst,
}
use ai_agent_hub_project_ome.Base.Str.{repr, is_blank, strip, lstrip, rstrip, is_space}
use ai_agent_hub_project_ome.Base.Sort.{sort_by}
use ai_agent_hub_project_ome.Base.Dict.{lookup, insert, keys, of_pairs}
use ai_agent_hub_project_ome.Base.Exn.{
  Outcome, error, value_error, Exec, ok, raised, stopped, pure, ◌>>=◌,
}
use ai_agent_hub_project_ome.Base.Rules.{Ends}
use mathlib.Core.Option.{some-injective}
use ai_agent_hub_project_ome.Base.Value.{Codec}
use ai_agent_hub_project_ome.Agent.Types.{
  AgentConfig, make_agent_config, LlmClient, MemoryStore, Tool,
}
use ai_agent_hub_project_ome.Agent.Runtime.{AutonomousAgent, make_factory, make_agent, create, lift}
use ai_agent_hub_project_ome.Agent.Confined.{Keeps, bind-Keeps, IsKeptMemory}
use ai_agent_hub_project_ome.Orchestrator.Run.{Host, run}
use ai_agent_hub_project_ome.Orchestrator.Run.Confined.{IsKeptHost}
use ai_agent_hub_project_ome.Tools.Runtime.Confined.{Here, Harmless, run-Harmless}
use ai_agent_hub_project_ome.Runs.Models.{RunCommand}
use ai_agent_hub_project_ome.Tools.Spec.{make_spec}
use ai_agent_hub_project_ome.Tools.Registry.{ToolRegistry, names, register}
use ai_agent_hub_project_ome.Tools.Runtime.{
  ToolPermission, allows, registry_tool, build_agent_tools, make_registry_tool,
}
use ai_agent_hub_project_ome.Tools.Code.{Floating, Expr}
use ai_agent_hub_project_ome.Tools.Search.{SearchLib, make_search}
use ai_agent_hub_project_ome.Tools.Standard.{
  search_tool, code_tool, search_spec, code_spec, register_standard_tools,
}
use ai_agent_hub_project_ome.Runs.Runner.{
  AgentRunner, IsRunner, Finished, config_for, snapshot_of, run_command, run_command-Finished,
}
use ai_agent_hub_project_ome.Gateway.Retry.{default_request}
use ai_agent_hub_project_ome.Gateway.Providers.{Wire, Web, Post}
use ai_agent_hub_project_ome.Gateway.Providers.Config.{from_env}
use ai_agent_hub_project_ome.Gateway.Kept.{generate-Keeps}
use ai_agent_hub_project_ome.Gateway.Providers.Built.{
  is_supported, built_gateway, build_gateway-ok, build_gateway-raised, vendors-Keeps,
}
use ai_agent_hub_project_ome.Runs.Plane.{plane_config, gateway_client, make_plane}

module _ (codec : Codec) {W : Type 0} (lib : SearchLib) {F : Type 0} (fl : Floating F)
    (parse : String → Outcome (Expr F)) (llm : LlmClient (ToolRegistry W × W))
    (memory : MemoryStore (ToolRegistry W × W)) where
  abbrev pub search : Tool W
  unfolding make_search
  search = search_tool lib (make_search []) codec

  abbrev pub code : Tool W
  code = code_tool fl parse codec

  abbrev pub plane_registry : ToolRegistry W
  unfolding search
  plane_registry = record {
    tools = ("web_search", search) ∷ ("code_execution", code) ∷ [];
    specs = ("web_search", search_spec) ∷ ("code_execution", code_spec) ∷ [];
  }

  abbrev pub plane_runner : AgentRunner (ToolRegistry W × W)
  plane_runner = record {
    factory = record {
      llm = llm;
      memory = some memory;
      tools = registry_tool codec "code_execution" ∷ registry_tool codec "web_search" ∷ [];
    };
    default_config = plane_config;
  }

  abbrev permission : ToolPermission
  permission = record { allowed_tools = "code_execution" ∷ "web_search" ∷ [] }

  built : build_agent_tools codec plane_registry permission ≡ ok plane_runner.factory.tools
  unfolding plane_registry names sort_by keys allows make_registry_tool build_agent_tools
  built = refl

  plane-IsRunner : IsRunner plane_runner
  unfolding make_agent_config make_agent is_blank strip lstrip rstrip is_space of_pairs insert
  plane-IsRunner = record { config = refl; agent = _; made = refl }

  -- Neither of the two tools touches the world.
  plane-Harmless : (Q : W → Type 0) → Harmless codec plane_registry permission Q
  unfolding plane_registry lookup
  plane-Harmless Q name tool arguments allowed e = elim (Bool-cases ("web_search" == name)) [
    | inl h ↦
        let same : search ≡ tool = some-injective search tool (rw h at e) in
        subst (λ (t : Tool W). Keeps Q (t.run arguments)) same (λ w q. q)
    | inr h ↦ elim (Bool-cases ("code_execution" == name)) [
      | inl k ↦
          let same : code ≡ tool = some-injective code tool (rw (h, k) at e) in
          subst (λ (t : Tool W). Keeps Q (t.run arguments)) same (λ w q. q)
      | inr k ↦ absurd (let wrong = rw (h, k) at e in cc)
    ]
  ]

  module _ (Q : W → Type 0) (host : Host (ToolRegistry W × W))
      (hosted : IsKeptHost (Here codec plane_registry permission Q) host none)
      (model : (system prompt : String)
        → Keeps (Here codec plane_registry permission Q) (llm.generate system prompt))
      (remembered : IsKeptMemory (Here codec plane_registry permission Q) (some memory)) where
    made-Keeps :
        (command : RunCommand) (config : AgentConfig)
        (o : Outcome (AutonomousAgent (ToolRegistry W × W)))
        → make_agent config llm (some memory) plane_runner.factory.tools ≡ o
        → Keeps (Here codec plane_registry permission Q) (
            lift o >>= λ agent. do
              execution ←
                  run codec host none agent command.prompt
                    (some config.max_iterations)
                    (some config.timeout_seconds)
                    (some config.token_budget)
              pure (snapshot_of codec host none plane_runner command execution))
    made-Keeps command config (ok agent) e =
        bind-Keeps _ _
          (run-Harmless codec plane_registry permission Q host none config llm (some memory)
            plane_runner.factory.tools agent (plane-Harmless Q) hosted model remembered built e
            command.prompt (some config.max_iterations) (some config.timeout_seconds)
            (some config.token_budget))
          (λ execution s q. q)
    made-Keeps command config (raised x) e = λ s q. q
    made-Keeps command config (stopped x) e = λ s q. q

    run_command-Keeps :
        (command : RunCommand)
        → Keeps
            (Here codec plane_registry permission Q)
            (run_command codec host none plane_runner command)
    unfolding run_command create
    run_command-Keeps command =
        bind-Keeps (lift (make_agent_config (config_for codec host none plane_runner command))) _
          (λ s q. q) (λ config. made-Keeps command config _ refl)

    run_command-Finished-Here :
        (command : RunCommand) (w : W)
        → is_blank command.prompt ≡ false
        → is_blank command.agent ≡ false
        → Q w
        → Ends
            (Finished command)
            (run_command codec host none plane_runner command (plane_registry, w))
          × Here codec plane_registry permission Q
              (run_command codec host none plane_runner command (plane_registry, w)).1
    run_command-Finished-Here command w text named q = (
      run_command-Finished codec host none plane_runner plane-IsRunner command (plane_registry, w)
          text named,
      run_command-Keeps command (plane_registry, w) (refl, q),
    )

module _ (codec : Codec) (wire : Wire) (lower : String → String) (env : String → Option String)
    {W : Type 0} (web : Web (ToolRegistry W × W)) (host : Host (ToolRegistry W × W))
    (sleep : ℕ → Exec (ToolRegistry W × W) (Unit {0})) (lib : SearchLib) {F : Type 0}
    (fl : Floating F) (parse : String → Outcome (Expr F))
    (memory : MemoryStore (ToolRegistry W × W)) where
  -- the model of the control plane
  abbrev pub plane_llm : LlmClient (ToolRegistry W × W)
  plane_llm = gateway_client host sleep (built_gateway codec wire env web (from_env lower env))

  abbrev pub supported : Bool
  supported = is_supported codec wire env web (from_env lower env)

  abbrev pub made : Outcome (ToolRegistry W × AgentRunner (ToolRegistry W × W))
  made =
      make_plane codec wire lower env web host sleep (search codec lib fl parse plane_llm memory)
        (code codec lib fl parse plane_llm memory) memory

  abbrev pub the_registry : ToolRegistry W
  the_registry = plane_registry codec lib fl parse plane_llm memory

  abbrev pub the_runner : AgentRunner (ToolRegistry W × W)
  the_runner = plane_runner codec lib fl parse plane_llm memory

  make_plane-ok : supported ≡ true → made ≡ ok (the_registry, the_runner)
  unfolding make_plane plane_registry register_standard_tools register make_spec is_blank strip
      lstrip rstrip is_space insert lookup names sort_by keys allows make_registry_tool
      build_agent_tools make_factory make_agent_config
  make_plane-ok e = rw (build_gateway-ok codec wire env web (from_env lower env) e) refl

  make_plane-raised :
      supported ≡ false
      → made
        ≡ raised (
            error value_error
              ("Unsupported OMEGA_LLM_PROVIDER=" <> repr (from_env lower env).provider))
  unfolding make_plane plane_registry register_standard_tools register make_spec is_blank strip
      lstrip rstrip is_space insert lookup
  make_plane-raised e = rw (build_gateway-raised codec wire env web (from_env lower env) e) refl

  -- What the registry is and what is known of the rest of the world.
  abbrev pub Stays : (W → Type 0) → ToolRegistry W × W → Type 0
  Stays Q = Here codec the_registry (permission codec lib fl parse plane_llm memory) Q

  module _ (Q : W → Type 0) (hosted : IsKeptHost (Stays Q) host none)
      (posts : (post : Post) → (s : ToolRegistry W × W) → Stays Q s → Stays Q (web post s).1)
      (sleeps : (n : ℕ) → Keeps (Stays Q) (sleep n))
      (remembered : IsKeptMemory (Stays Q) (some memory)) where
    plane_llm-Keeps : (system prompt : String) → Keeps (Stays Q) (plane_llm.generate system prompt)
    plane_llm-Keeps system prompt =
        generate-Keeps (Stays Q) host sleep (λ s q. hosted.clock s q) sleeps
          (built_gateway codec wire env web (from_env lower env))
          (vendors-Keeps codec wire env web (from_env lower env) (Stays Q) posts)
          (default_request system prompt)

    -- Where the provider of the environment is not one of the four, the control plane is refused
    -- with a `ValueError`. Where it is, the control plane is put together without an exception, and
    -- a command with text for its prompt and its agent ends in a completed or a failed snapshot of
    -- it, unless its task is stopped; and however it ends, the registry is as it was, and what the
    -- clock, the identifiers, the network, the waits and the memory keep of the rest of the world is
    -- kept: the two tools, the adapters and the gateway do nothing else to it.
    pub make_plane-runs :
        (command : RunCommand) (w : W)
        → is_blank command.prompt ≡ false
        → is_blank command.agent ≡ false
        → Q w
        → ((supported ≡ false)
            × (made
                ≡ raised (
                    error value_error
                      ("Unsupported OMEGA_LLM_PROVIDER=" <> repr (from_env lower env).provider))))
          ⊎ ((supported ≡ true)
              × (made ≡ ok (the_registry, the_runner))
              × Ends
                  (Finished command)
                  (run_command codec host none the_runner command (the_registry, w))
              × Stays Q (run_command codec host none the_runner command (the_registry, w)).1)
    make_plane-runs command w text named q = elim (Bool-cases supported) [
      | inr e ↦ inl (e, make_plane-raised e)
      | inl e ↦
          let (final, stays) =
            run_command-Finished-Here codec lib fl parse plane_llm memory Q host hosted
              plane_llm-Keeps remembered command w text named q in
          inr (e, make_plane-ok e, final, stays)
    ]
