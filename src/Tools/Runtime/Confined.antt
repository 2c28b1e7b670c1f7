-- ===== src/Tools/Runtime/Confined.antt =====
-- A whole run of an agent whose tools were built under a permission.
use ai_agent_hub_project_ome.Base.{
  ◌≡◌, refl, inl, inr, sym, ◌∙◌, subst, String, Option, some, true, List, [], ◌∷◌, map, All, keep,
  Bool-cases, Option-cases,
}
use ai_agent_hub_project_ome.Base.Int.{ℤ}
use ai_agent_hub_project_ome.Base.Dict.{lookup}
use ai_agent_hub_project_ome.Base.Exn.{ok}
use ai_agent_hub_project_ome.Base.Value.{Fields, dict, Codec}
use ai_agent_hub_project_ome.Agent.Types.{AgentConfig, LlmClient, MemoryStore, Tool}
use ai_agent_hub_project_ome.Agent.Runtime.Making.{make_agent-tools}
use ai_agent_hub_project_ome.Agent.Runtime.{AutonomousAgent, make_agent, lift}
use ai_agent_hub_project_ome.Agent.Confined.{Keeps, bind-Keeps, IsKeptMemory}
use ai_agent_hub_project_ome.Orchestrator.Run.{Host, EventHandler, run}
use ai_agent_hub_project_ome.Orchestrator.Run.Confined.{IsKeptHost, run-Keeps}
use ai_agent_hub_project_ome.Tools.Spec.{validate_arguments}
use ai_agent_hub_project_ome.Tools.Registry.{ToolRegistry, names, spec_of, call_tool, execute}
use ai_agent_hub_project_ome.Tools.Registry.Calls.{call_tool-state}
use ai_agent_hub_project_ome.Tools.Runtime.{
  ToolPermission, allows, registry_tool, build_agent_tools,
}
use ai_agent_hub_project_ome.Tools.Runtime.Permitted.{make_all-ok, contains-keep}

module _ (codec : Codec) {W : Type 0} (registry : ToolRegistry W) (permission : ToolPermission)
    (Q : W → Type 0) where
  -- The registry is as it was when the tools were built, and `Q` holds of the tools' world.
  abbrev pub Here : ToolRegistry W × W → Type 0
  Here (s, w) = (s ≡ registry) × Q w

  -- The permitted tools of the registry keep `Q`.
  abbrev pub Harmless : Type 0
  Harmless =
      (name : String) (tool : Tool W) (arguments : Fields)
      → allows permission name ≡ true
      → lookup name registry.tools ≡ some tool
      → Keeps Q (tool.run arguments)

  call_tool-Keeps :
      (name : String) (tool : Tool W) (arguments : Fields)
      → Keeps Q (tool.run arguments)
      → Keeps Here (call_tool name tool arguments)
  call_tool-Keeps name tool arguments k (s, w) p =
      subst Here (sym (call_tool-state name tool arguments s w)) (p.0, k w p.1)

  execute-Keeps :
      (name : String) (arguments : Fields)
      → Harmless
      → allows permission name ≡ true
      → Keeps Here (execute codec name (dict arguments))
  unfolding execute
  execute-Keeps name arguments harmless allowed (s, w) p =
      elim (Option-cases (lookup name s.tools)) [
        | inl e ↦ rw e p
        | inr (tool, e) ↦
            let same : lookup name registry.tools ≡ some tool =
              subst (λ (r : ToolRegistry W). lookup name r.tools ≡ some tool) p.0 e in
            let keeps : Keeps Here (call_tool name tool arguments) =
              call_tool-Keeps name tool arguments (harmless name tool arguments allowed same) in
            rw e (
              bind-Keeps (lift (spec_of s name)) _ (λ t q. q)
                (λ spec.
                  bind-Keeps (lift (validate_arguments codec spec arguments)) _ (λ t q. q)
                    (λ _. keeps))
                (s, w) p)
      ]

  -- A tool of the agent: one of the registry under a permitted name.
  abbrev IsPermitted : Tool (ToolRegistry W × W) → Type 0
  IsPermitted tool =
      (name : String) × (allows permission name ≡ true) × (tool ≡ registry_tool codec name)

  keep-IsPermitted :
      (ns : List String) → All IsPermitted (map (registry_tool codec) (keep (allows permission) ns))
  keep-IsPermitted [] = tt
  keep-IsPermitted (n ∷ ns) = elim (Bool-cases (allows permission n)) [
    | inl e ↦ rw (All, e) ((n, e, refl), keep-IsPermitted ns)
    | inr e ↦ rw (All, e) (keep-IsPermitted ns)
  ]

  build_agent_tools-IsPermitted :
      (tools : List (Tool (ToolRegistry W × W)))
      → build_agent_tools codec registry permission ≡ ok tools
      → All IsPermitted tools
  unfolding build_agent_tools
  build_agent_tools-IsPermitted tools e =
      let ns = keep (allows permission) (names registry) in
      let both : ok (map (registry_tool codec) ns) ≡ ok tools =
        sym (
          make_all-ok codec registry permission ns
            (λ k m. sym (contains-keep (allows permission) (names registry) k) ∙ m))
        ∙ e in
      let same : map (registry_tool codec) ns ≡ tools = cc in
      subst (All IsPermitted) same (keep-IsPermitted (names registry))

  -- An agent is given the tools that `build_agent_tools` makes of a registry under a permission. If
  -- its model, its memory, the clock, the identifiers and the event handler keep the registry and
  -- what is known of the tools' world, and each permitted tool of the registry keeps the latter,
  -- then a whole run keeps both, however it ends: no other tool has an effect.
  pub run-Harmless :
      (host : Host (ToolRegistry W × W)) (handler : Option (EventHandler (ToolRegistry W × W)))
      (config : AgentConfig) (llm : LlmClient (ToolRegistry W × W))
      (memory : Option (MemoryStore (ToolRegistry W × W)))
      (tools : List (Tool (ToolRegistry W × W))) (agent : AutonomousAgent (ToolRegistry W × W))
      → Harmless
      → IsKeptHost Here host handler
      → ((system prompt : String) → Keeps Here (llm.generate system prompt))
      → IsKeptMemory Here memory
      → build_agent_tools codec registry permission ≡ ok tools
      → make_agent config llm memory tools ≡ ok agent
      → (task : String) (max_iterations timeout_seconds token_budget : Option ℤ)
      → Keeps Here (run codec host handler agent task max_iterations timeout_seconds token_budget)
  run-Harmless host handler config llm memory tools agent harmless hosted model remembered built
        made task =
      let (llm_, memory_, found) =
        make_agent-tools IsPermitted config llm memory tools agent made
          (build_agent_tools-IsPermitted tools built) in
      run-Keeps codec host handler agent
        (record {
          model = λ system prompt. rw llm_ (model system prompt);
          memory = rw memory_ remembered;
          tools = λ name tool arguments e. permitted tool arguments (found name tool e);
        })
        hosted task
    where
      permitted :
          (tool : Tool (ToolRegistry W × W)) (arguments : Fields)
          → IsPermitted tool
          → Keeps Here (tool.run arguments)
      permitted tool arguments (name, allowed, same) =
          rw same (execute-Keeps name arguments harmless allowed)
