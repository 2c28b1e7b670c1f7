-- ===== src/Tools/Registry.antt =====
-- `ToolRegistry` of tools/registry.py. A registry stands in the state beside the world that the
-- tools act on, so that a tool handed out earlier sees its later changes.
pub mod Changes
pub mod Calls
use ai_agent_hub_project_ome.Base.{
  String, ◌<>◌, ◌==◌, Option, none, some, Bool, true, false, not, ◌||◌, List, [], ◌∷◌,
  if◌then◌else◌, keep,
}
use ai_agent_hub_project_ome.Base.Str.{is_blank, strip, repr, repr_list}
use ai_agent_hub_project_ome.Base.Int.{ℤ, leb_ℤ}
use ai_agent_hub_project_ome.Base.Sort.{sort_by, str_le}
use ai_agent_hub_project_ome.Base.Dict.{Dict, lookup, insert, erase, keys, has}
use ai_agent_hub_project_ome.Base.Exn.{
  Outcome, ok, raised, stopped, Exn, error, missing_key, describe, is_timeout_error, is_tool_error,
  value_error, type_error, tool_error, tool_validation_error, bind, convert, tool_timer, wait_for,
  Exec, raise, ◌>>=◌, ◌>>◌,
}
use ai_agent_hub_project_ome.Base.Value.{
  Value, null, bool, int, float, str, list, dict, Values, nil, cons, Fields, end, field, get_field,
  Codec,
}
use ai_agent_hub_project_ome.Agent.Types.{Tool}
use ai_agent_hub_project_ome.Agent.Runtime.{lift}
use ai_agent_hub_project_ome.Tools.Spec.{ToolSpec, validate_arguments, has_type}

pub record ToolRegistry (W : Type 0) : Type 0 where
  pub tools : Dict (Tool W)
  pub specs : Dict ToolSpec

-- The `except` clauses of `execute`.
abbrev pub tool_failure : String → Exn → Exn
unfolding describe
tool_failure name e =
    if is_timeout_error e.kind
    then error tool_error ("Tool timed out: " <> name)
    else if is_tool_error e.kind
    then e
    else error tool_error ("Tool " <> name <> " failed: " <> describe e)

abbrev spec_or : String → Option ToolSpec → Outcome ToolSpec
spec_or name none = raised (missing_key name)
spec_or name (some spec) = ok spec

module _ {W : Type 0} where
  abbrev pub empty_registry : ToolRegistry W
  empty_registry = record { tools = []; specs = [] }

  -- `register(tool, spec)`
  unfoldable pub register : Tool W → ToolSpec → Exec (ToolRegistry W) (Unit {0})
  register tool spec s =
      if not (spec.name == tool.name)
      then (raised (error value_error "ToolSpec.name must equal tool.name"), s)
      else if has spec.name s.tools
      then (raised (error value_error ("Tool already registered: " <> spec.name)), s)
      else (
        ok tt,
        record { tools = insert spec.name tool s.tools; specs = insert spec.name spec s.specs },
      )

  -- `unregister(name)`, whose second `pop` raises if the name has no spec
  unfoldable pub unregister : String → Exec (ToolRegistry W) (Unit {0})
  unregister name s =
      if not (has name s.tools)
      then (raised (missing_key name), s)
      else let tools = erase name s.tools in
        if has name s.specs
        then (ok tt, record { tools = tools; specs = erase name s.specs })
        else (raised (missing_key name), record s { tools = tools })

  -- `names()`
  unfoldable pub names : ToolRegistry W → List String
  names s = sort_by str_le (keys s.tools)

  -- `self._specs[name]`
  abbrev pub spec_of : ToolRegistry W → String → Outcome ToolSpec
  spec_of s name = spec_or name (lookup name s.specs)

  abbrev pub specs_of : ToolRegistry W → List String → Outcome (List ToolSpec)
  specs_of s [] = ok []
  specs_of s (name ∷ more) = bind (spec_of s name) λ c. bind (specs_of s more) λ rest. ok (c ∷ rest)

  -- `specs()`
  unfoldable pub specs : ToolRegistry W → Outcome (List ToolSpec)
  unfolding names lookup
  specs s = specs_of s (names s)

  -- A call acts on the registry and the world of the tools.
  abbrev pub call_tool : String → Tool W → Fields → Exec (ToolRegistry W × W) Value
  unfolding wait_for
  call_tool name tool arguments (s, w) =
      let (r, w') = wait_for tool_timer (tool.run arguments) w in
      (convert (tool_failure name) r, (s, w'))

module _ (codec : Codec) {W : Type 0} where
  abbrev pub execute_tool : String → Option (Tool W) → Value → Exec (ToolRegistry W × W) Value
  execute_tool name none arguments shop =
      raise (error tool_validation_error ("Tool is not allow-listed: " <> name)) shop
  execute_tool name (some tool) (dict arguments) shop =
      (do
        spec ← lift (spec_of shop.0 name)
        lift (validate_arguments codec spec arguments)
        call_tool name tool arguments)
        shop
  execute_tool name (some tool) _ shop =
      raise (error tool_validation_error "Tool arguments must be an object") shop

  -- `execute(name, arguments)`
  unfoldable pub execute : String → Value → Exec (ToolRegistry W × W) Value
  unfolding validate_arguments lookup
  execute name arguments shop = execute_tool name (lookup name shop.0.tools) arguments shop
