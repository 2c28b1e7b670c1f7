-- ===== src/Tools/Standard.antt =====
-- `register_standard_tools` and `register_extended_tools` of tools/runtime.py, and the built-in
-- tools as tools of a registry. Timeouts are in hundredths of a second.
pub mod Executed
mod Tests
use ai_agent_hub_project_ome.Base.{String, List, [], ◌∷◌, map, refl, ◌≡◌}
use ai_agent_hub_project_ome.Base.Int.{pos}
use ai_agent_hub_project_ome.Base.Dict.{Dict}
use ai_agent_hub_project_ome.Base.Exn.{Outcome, Exec, ◌>>=◌, ◌>>◌}
use ai_agent_hub_project_ome.Base.Value.{
  Value, str, list, dict, Fields, end, field, values_of, Codec,
}
use ai_agent_hub_project_ome.Agent.Types.{Tool}
use ai_agent_hub_project_ome.Agent.Runtime.{lift}
use ai_agent_hub_project_ome.Tools.Spec.{ToolSpec, make_spec}
use ai_agent_hub_project_ome.Tools.Registry.{ToolRegistry, register}
use ai_agent_hub_project_ome.Tools.Code.{Floating, Expr, run_code}
use ai_agent_hub_project_ome.Tools.Search.{SearchLib, run_search}

-- `{"type": "object", "required": […], "properties": {…}}`
abbrev schema : List String → Fields → Fields
schema required properties = field "type" (str "object") (
    field "required" (list (values_of (map (λ s. str s) required)))
      (field "properties" (dict properties) end))

-- a property of one type, before others
abbrev typed : String → String → Fields → Fields
typed name type_name rest = field name (dict (field "type" (str type_name) end)) rest

abbrev pub search_spec : ToolSpec
search_spec = record {
  name = "web_search";
  description = "Search configured corpus.";
  input_schema = schema ("query" ∷ []) (typed "query" "string" (typed "limit" "integer" end));
  timeout_seconds = pos 500;
}

abbrev pub code_spec : ToolSpec
code_spec = record {
  name = "code_execution";
  description = "Evaluate safe arithmetic.";
  input_schema = schema ("expression" ∷ []) (typed "expression" "string" end);
  timeout_seconds = pos 500;
}

abbrev pub filesystem_spec : ToolSpec
filesystem_spec = record {
  name = "filesystem";
  description = "Sandboxed file operations.";
  input_schema =
      schema ("operation" ∷ "path" ∷ [])
        (typed "operation" "string" (typed "path" "string" (typed "content" "string" end)));
  timeout_seconds = pos 1000;
}

abbrev pub database_spec : ToolSpec
database_spec = record {
  name = "database";
  description = "Parameterized SQLite statement.";
  input_schema = schema ("query" ∷ []) (typed "query" "string" (typed "params" "array" end));
  timeout_seconds = pos 1000;
}

abbrev pub http_spec : ToolSpec
http_spec = record {
  name = "http_request";
  description = "Allow-listed outbound HTTP request.";
  input_schema = schema ("method" ∷ "url" ∷ []) (
      typed "method" "string"
        (typed "url" "string" (typed "headers" "object" (field "body" (dict end) end))));
  timeout_seconds = pos 3000;
}

abbrev pub git_spec : ToolSpec
git_spec = record {
  name = "git";
  description = "Read-only repository inspection.";
  input_schema = schema ("operation" ∷ []) (typed "operation" "string" end);
  timeout_seconds = pos 2000;
}

module _ {W : Type 0} where
  -- A tool that does not touch the world.
  abbrev pub search_tool : SearchLib → Dict String → Codec → Tool W
  search_tool lib corpus codec = record {
    name = "web_search";
    run = λ arguments. lift (run_search lib corpus codec arguments);
  }

  abbrev pub code_tool : {F : Type 0} → Floating F → (String → Outcome (Expr F)) → Codec → Tool W
  code_tool fl parse codec = record {
    name = "code_execution";
    run = λ arguments. lift (run_code fl parse codec arguments);
  }

  -- `registry.register(tool, ToolSpec(…))`
  abbrev pub register_with : Tool W → ToolSpec → Exec (ToolRegistry W) (Unit {0})
  register_with tool spec = lift (make_spec spec) >>= λ made. register tool made

  -- `register_standard_tools(registry)`, for the tools that it makes
  unfoldable pub register_standard_tools : Tool W → Tool W → Exec (ToolRegistry W) (Unit {0})
  register_standard_tools search code =
      register_with search search_spec >> register_with code code_spec

  -- `register_extended_tools(registry, filesystem=…, database=…, http=…, git=…)`
  unfoldable pub register_extended_tools :
      Tool W → Tool W → Tool W → Tool W → Exec (ToolRegistry W) (Unit {0})
  register_extended_tools filesystem database http git =
      register_with filesystem filesystem_spec
      >> register_with database database_spec
      >> register_with http http_spec
      >> register_with git git_spec
