-- ===== src/Tools/Runtime.antt =====
-- `ToolPermission`, `RegistryTool` and `build_agent_tools` of tools/runtime.py.
pub mod Permitted
pub mod Confined
use ai_agent_hub_project_ome.Base.{
  String, ◌<>◌, Bool, not, List, [], ◌∷◌, if◌then◌else◌, keep, contains,
}
use ai_agent_hub_project_ome.Base.Exn.{
  Outcome, ok, raised, error, missing_key, permission_error, bind,
}
use ai_agent_hub_project_ome.Base.Value.{dict, Codec}
use ai_agent_hub_project_ome.Agent.Types.{Tool}
use ai_agent_hub_project_ome.Tools.Registry.{ToolRegistry, names, execute}

pub record ToolPermission : Type 0 where
  pub allowed_tools : List String

unfoldable pub allows : ToolPermission → String → Bool
allows permission name = contains permission.allowed_tools name

module _ (codec : Codec) {W : Type 0} where
  -- `run(arguments)` of a `RegistryTool`
  abbrev pub registry_tool : String → Tool (ToolRegistry W × W)
  registry_tool name = record {
    name = name;
    run = λ arguments. execute codec name (dict arguments);
  }

  -- `RegistryTool(registry=…, name=…, permission=…)`
  unfoldable pub make_registry_tool :
      ToolRegistry W → String → ToolPermission → Outcome (Tool (ToolRegistry W × W))
  unfolding names allows execute
  make_registry_tool registry name permission =
      if not (contains (names registry) name)
      then raised (missing_key ("Unknown tool: " <> name))
      else if not (allows permission name)
      then raised (error permission_error ("Tool is not permitted for this agent: " <> name))
      else ok (registry_tool name)

  abbrev pub make_all :
      ToolRegistry W → ToolPermission → List String → Outcome (List (Tool (ToolRegistry W × W)))
  unfolding make_registry_tool
  make_all registry permission [] = ok []
  make_all registry permission (name ∷ more) =
      bind (make_registry_tool registry name permission)
        λ tool. bind (make_all registry permission more) λ rest. ok (tool ∷ rest)

  -- `build_agent_tools(registry, permission)`
  unfoldable pub build_agent_tools :
      ToolRegistry W → ToolPermission → Outcome (List (Tool (ToolRegistry W × W)))
  unfolding make_registry_tool allows names
  build_agent_tools registry permission =
      make_all registry permission (keep (allows permission) (names registry))
