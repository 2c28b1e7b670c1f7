-- ===== src/Runs/Plane.antt =====
-- How api/app.py puts the control plane together at its import: the registry with the standard
-- tools, an agent factory with all of them whose model is the gateway of the environment, and the
-- runner of the run service.
pub mod Wired
mod Tests
use ai_agent_hub_project_ome.Base.{
  ℕ, String, ◌<>◌, Option, none, some, true, List, [], ◌∷◌, ◌≡◌, refl, ◌==◌, false, inl, inr,
  Bool-cases, subst,
}
use ai_agent_hub_project_ome.Base.Str.{repr, is_blank, strip, lstrip, rstrip, is_space}
use ai_agent_hub_project_ome.Base.Sort.{sort_by}
use ai_agent_hub_project_ome.Base.Dict.{Dict, lookup, insert, keys, of_pairs}
use ai_agent_hub_project_ome.Base.Exn.{
  Outcome, error, value_error, Exec, ok, raised, stopped, bind, pure, ◌>>=◌,
}
use ai_agent_hub_project_ome.Base.Rules.{Ends}
use mathlib.Core.Option.{some-injective}
use ai_agent_hub_project_ome.Base.Value.{Codec}
use ai_agent_hub_project_ome.Agent.Types.{
  AgentConfig, default_agent_config, make_agent_config, LlmClient, MemoryStore, Tool,
}
use ai_agent_hub_project_ome.Agent.Runtime.{
  AutonomousAgent, AgentFactory, make_factory, make_agent, create, lift,
}
use ai_agent_hub_project_ome.Agent.Confined.{Keeps, bind-Keeps, IsKeptMemory}
use ai_agent_hub_project_ome.Orchestrator.Run.{Host, run}
use ai_agent_hub_project_ome.Orchestrator.Run.Confined.{IsKeptHost}
use ai_agent_hub_project_ome.Tools.Runtime.Confined.{Here, Harmless, run-Harmless}
use ai_agent_hub_project_ome.Runs.Models.{RunCommand}
use ai_agent_hub_project_ome.Tools.Spec.{make_spec}
use ai_agent_hub_project_ome.Tools.Registry.{ToolRegistry, empty_registry, names, register}
use ai_agent_hub_project_ome.Tools.Runtime.{
  ToolPermission, allows, registry_tool, build_agent_tools, make_registry_tool,
}
use ai_agent_hub_project_ome.Tools.Code.{Floating, Expr}
use ai_agent_hub_project_ome.Tools.Search.{SearchLib, make_search}
use ai_agent_hub_project_ome.Tools.Standard.{
  search_tool, code_tool, search_spec, code_spec, register_standard_tools,
}
use ai_agent_hub_project_ome.Runs.Runner.{
  AgentRunner, IsRunner, Finished, config_for, snapshot_of, run_command, run_command-Finished,
}
use ai_agent_hub_project_ome.Gateway.Retry.{LlmGateway, generate, default_request}
use ai_agent_hub_project_ome.Gateway.Providers.{Wire, Web, Post}
use ai_agent_hub_project_ome.Gateway.Providers.Config.{LlmSettings, from_env, build_gateway}

abbrev pub plane_config : AgentConfig
plane_config =
    default_agent_config "default"
      "You are an autonomous OMEGA agent. Use approved tools only and finish the requested task accurately."

abbrev left : {W : Type 0} → Outcome (Unit {0}) × ToolRegistry W → Outcome (ToolRegistry W)
left (r, s) = bind r λ _. ok s

-- `llm.generate(system=…, prompt=…)`, where the model is the gateway
abbrev pub gateway_client :
    {S : Type 0} → Host S → (ℕ → Exec S (Unit {0})) → LlmGateway S → LlmClient S
gateway_client host sleep gateway = record {
  generate = λ system prompt. generate host sleep gateway (default_request system prompt);
}

-- `lower` and `env` are `str.lower` and `os.getenv`; `web` is the network of the adapters.
module _ (codec : Codec) (wire : Wire) (lower : String → String) (env : String → Option String)
    {W : Type 0} (web : Web (ToolRegistry W × W)) (host : Host (ToolRegistry W × W))
    (sleep : ℕ → Exec (ToolRegistry W × W) (Unit {0})) (search code : Tool W)
    (memory : MemoryStore (ToolRegistry W × W)) where
  -- the factory for a registry: its model is the gateway of the environment, and it has the tools
  -- of all names
  abbrev plane_factory : ToolRegistry W → Outcome (AgentFactory (ToolRegistry W × W))
  unfolding build_agent_tools names make_factory build_gateway from_env
  plane_factory registry = bind (build_gateway codec wire env web (from_env lower env)) λ gateway.
      bind (build_agent_tools codec registry (record { allowed_tools = names registry }))
        λ tools. make_factory (gateway_client host sleep gateway) (some memory) tools

  -- The registry and the runner.
  unfoldable pub make_plane : Outcome (ToolRegistry W × AgentRunner (ToolRegistry W × W))
  unfolding plane_factory register_standard_tools make_agent_config
  make_plane = bind (left (register_standard_tools search code empty_registry)) λ registry.
      bind (plane_factory registry) λ factory.
        bind (make_agent_config plane_config)
          λ config. ok (registry, record { factory = factory; default_config = config })
