-- ===== src/Tools/Tests.antt =====
-- Runs at concrete inputs: two tools, of which an agent may use one. The world counts the runs.
use ai_agent_hub_project_ome.Base.{
  eq_iff, sym, ℕ, suc, ◌≡◌, ◌⊎◌, inl, inr, refl, String, none, some, true, ◌&&◌, List, [], ◌∷◌, map,
  contains, All, Bool-cases, ◌==◌, subst,
}
use ai_agent_hub_project_ome.Base.Str.{is_blank, strip}
use ai_agent_hub_project_ome.Base.Int.{pos}
use ai_agent_hub_project_ome.Base.Sort.{sort_by}
use ai_agent_hub_project_ome.Base.Dict.{of_pairs, lookup, insert, keys, has}
use ai_agent_hub_project_ome.Base.Exn.{
  ok, raised, Exn, error, is_tool_error, value_error, tool_error, tool_validation_error, wait_for,
  describe, class_name,
}
use ai_agent_hub_project_ome.Base.Value.{
  null, int, str, list, dict, nil, cons, Fields, end, field, get_field, Codec,
}
use mathlib.Core.Option.{some-injective}
use ai_agent_hub_project_ome.Agent.Types.{Tool, LlmClient, default_agent_config}
use ai_agent_hub_project_ome.Agent.Runtime.{AutonomousAgent, make_agent}
use ai_agent_hub_project_ome.Orchestrator.Run.{Host, run}
use ai_agent_hub_project_ome.Orchestrator.Run.Confined.{IsKeptHost}
use ai_agent_hub_project_ome.Tools.Runtime.Confined.{Here, Harmless, run-Harmless}
use ai_agent_hub_project_ome.Tools.Spec.{
  ToolSpec, make_spec, validate_arguments, has_type, get_or, declared,
}
use ai_agent_hub_project_ome.Tools.Registry.{ToolRegistry, empty_registry, names, specs, execute}
use ai_agent_hub_project_ome.Tools.Spec.Validation.{Plain, IsSchema, Conforms, validate-decides}
use ai_agent_hub_project_ome.Tools.Registry.Changes.{
  Change, registered, unregistered, change_all, change_all-specs, IsPaired, change_all-IsPaired,
  empty-IsPaired,
}
use ai_agent_hub_project_ome.Tools.Registry.Calls.{
  Schemas, Called, Refused, execute-cases, execute-is_tool_error,
}
use ai_agent_hub_project_ome.Tools.Runtime.{
  ToolPermission, allows, registry_tool, build_agent_tools,
}
use ai_agent_hub_project_ome.Tools.Runtime.Permitted.{IsLive, build_agent_tools-permitted}

abbrev codec : Codec
codec = record { show = λ v. "value"; dumps = λ v. "{}"; loads = λ text. inr "Expecting value" }

-- A search that needs a text.
abbrev search_tool : Tool ℕ
search_tool = record {
  name = "web_search";
  run = λ arguments w. (raised (error value_error "no corpus"), suc w);
}

abbrev search_schema : Fields
search_schema = field "required" (list (cons (str "query") nil)) (
    field "properties"
      (dict (
        field "query" (dict (field "type" (str "string") end))
          (field "limit" (dict (field "type" (str "integer") end)) end)))
      end)

abbrev search_spec : ToolSpec
search_spec = record {
  name = "web_search";
  description = "Search configured corpus.";
  input_schema = search_schema;
  timeout_seconds = pos 500;
}

spec_test : make_spec search_spec ≡ ok search_spec
unfolding make_spec is_blank strip
spec_test = refl

abbrev code_tool : Tool ℕ
code_tool = record { name = "code_execution"; run = λ arguments w. (ok (int (pos 4)), w) }

abbrev code_spec : ToolSpec
code_spec = record {
  name = "code_execution";
  description = "Evaluate safe arithmetic.";
  input_schema = end;
  timeout_seconds = pos 500;
}

abbrev changes : List (Change ℕ)
changes =
    registered search_tool search_spec
    ∷ registered search_tool code_spec
    ∷ registered code_tool code_spec
    ∷ unregistered "git"
    ∷ []

abbrev registry : ToolRegistry ℕ
registry = record {
  tools = ("web_search", search_tool) ∷ ("code_execution", code_tool) ∷ [];
  specs = ("web_search", search_spec) ∷ ("code_execution", code_spec) ∷ [];
}

changed : change_all changes empty_registry ≡ registry
unfolding change_all insert lookup
changed = refl

names_test : names registry ≡ "code_execution" ∷ "web_search" ∷ []
unfolding names sort_by keys
names_test = refl

change_all-specs_example :
    (out : List ToolSpec) × (specs (change_all changes empty_registry) ≡ ok out)
    × (map (λ c. c.name) out ≡ names (change_all changes empty_registry))
    × ((k : String)
        → contains (names (change_all changes empty_registry)) k
          ≡ has k (change_all changes empty_registry).tools)
change_all-specs_example = change_all-specs changes

abbrev search_properties : Fields
search_properties =
    field "query" (dict (field "type" (str "string") end))
      (field "limit" (dict (field "type" (str "integer") end)) end)

search-Plain : (key : String) → Plain (declared (get_or key null search_properties))
unfolding get_field
search-Plain key = elim (Bool-cases ("query" == key)) [
  | inl q ↦ rw (Plain, q) tt
  | inr q ↦ elim (Bool-cases ("limit" == key)) [
    | inl l ↦ rw (Plain, q, l) tt
    | inr l ↦ rw (Plain, q, l) tt
  ]
]

abbrev search_is_schema : IsSchema search_schema
unfolding get_field
search_is_schema = record {
  required = cons (str "query") nil;
  properties = search_properties;
  has_required = refl;
  has_properties = refl;
  texts = tt;
  plain = search-Plain;
}

abbrev query : Fields
query = field "query" (str "agents") (field "limit" (str "five") end)

validate-decides_example :
    ((validate_arguments codec search_spec query ≡ ok tt) × Conforms search_is_schema query)
    ⊎ ((e : Exn) × (validate_arguments codec search_spec query ≡ raised e)
        × (e.kind ≡ tool_validation_error)
        × (Conforms search_is_schema query → ⊥))
validate-decides_example = validate-decides codec search_spec search_is_schema query

paired : IsPaired registry
paired = subst IsPaired changed (change_all-IsPaired changes empty_registry (empty-IsPaired ℕ))

schemas : Schemas codec registry "web_search" 0
unfolding lookup
schemas spec e = subst (λ (c : ToolSpec). IsSchema c.input_schema) (same spec e) search_is_schema
  where
    same : (c : ToolSpec) → some search_spec ≡ some c → search_spec ≡ c
    same c h = cc

execute-cases_example :
    Called codec registry "web_search" 0 schemas
      (dict query)
      (execute codec "web_search" (dict query) (registry, 0))
    ⊎ Refused codec registry "web_search" 0 (execute codec "web_search" (dict query) (registry, 0))
execute-cases_example = execute-cases codec registry "web_search" 0 paired schemas (dict query)

execute-is_tool_error_example :
    ((execute codec "web_search" (dict query) (registry, 0)).1.0 ≡ registry)
    × ((e : Exn)
        → (execute codec "web_search" (dict query) (registry, 0)).0 ≡ raised e
        → is_tool_error e.kind ≡ true)
execute-is_tool_error_example =
    execute-is_tool_error codec registry "web_search" 0 paired schemas (dict query)

-- A failure of the tool comes out as a `ToolError`; the tool has run.
execute_test :
    execute codec "web_search" (dict (field "query" (str "agents") end)) (registry, 0)
    ≡ (raised (error tool_error "Tool web_search failed: ValueError: no corpus"), (registry, 1))
unfolding execute validate_arguments lookup get_field wait_for describe class_name
execute_test = refl

-- An argument of the wrong type is refused before the tool runs.
execute_refusal_test : execute codec "web_search" (dict query) (registry, 0) ≡ (
  raised (error tool_validation_error "Invalid type for argument 'limit': expected value"),
  (registry, 0),
)
unfolding execute validate_arguments lookup get_field has_type
execute_refusal_test = refl

abbrev permission : ToolPermission
permission = record { allowed_tools = "code_execution" ∷ "git" ∷ [] }

build_agent_tools-permitted_example :
    (tools : List (Tool (ToolRegistry ℕ × ℕ))) × (build_agent_tools codec registry permission
      ≡ ok tools)
    × ((k : String)
        → contains (map (λ (t : Tool (ToolRegistry ℕ × ℕ)). t.name) tools) k
          ≡ (has k registry.tools && allows permission k))
    × All (IsLive codec registry permission) tools
build_agent_tools-permitted_example = build_agent_tools-permitted codec registry permission

-- The agent may only use the tool that does not count, so that its whole run counts nothing.
abbrev NoneRun : ℕ → Type 0
NoneRun w = w ≡ 0

harmless : Harmless codec registry permission NoneRun
unfolding lookup allows
harmless name tool arguments allowed found w q = elim (Bool-cases ("web_search" == name)) [
  | inl e ↦
      let same : "web_search" ≡ name = (eq_iff "web_search" name).0 e in
      let refused : allows permission "web_search" ≡ true =
        subst (λ n. allows permission n ≡ true) (sym same) allowed in
      absurd (cc)
  | inr e ↦ elim (Bool-cases ("code_execution" == name)) [
    | inl c ↦
        let same : code_tool ≡ tool = some-injective code_tool tool (rw (e, c) at found) in
        subst (λ (t : Tool ℕ). (t.run arguments w).1 ≡ 0) same q
    | inr c ↦ absurd (nothing tool (rw (e, c) at found))
  ]
]
  where
    nothing : (t : Tool ℕ) → none ≡ some t → ⊥
    nothing t h = cc

abbrev shop_model : LlmClient (ToolRegistry ℕ × ℕ)
shop_model = record { generate = λ system prompt s. (ok "{}", s) }

abbrev shop_host : Host (ToolRegistry ℕ × ℕ)
shop_host = record { perf_counter = λ s. (0, s); uuid4 = λ s. ("run-1", s) }

shop_hosted : IsKeptHost (Here codec registry permission NoneRun) shop_host none
shop_hosted = record { clock = λ s p. p; identifier = λ s p. p; events = λ h event e. absurd (cc) }

abbrev shop_tools : List (Tool (ToolRegistry ℕ × ℕ))
shop_tools = registry_tool codec "code_execution" ∷ []

abbrev shop_agent : AutonomousAgent (ToolRegistry ℕ × ℕ)
shop_agent = record {
  config = default_agent_config "tester" "You test.";
  llm = shop_model;
  memory = none;
  tools = ("code_execution", registry_tool codec "code_execution") ∷ [];
}

shop_built : build_agent_tools codec registry permission ≡ ok shop_tools
unfolding build_agent_tools names sort_by keys allows
shop_built = refl

shop_made :
    make_agent (default_agent_config "tester" "You test.") shop_model none shop_tools
    ≡ ok shop_agent
unfolding make_agent of_pairs
shop_made = refl

run-Harmless_example :
    Here codec registry permission NoneRun
      (run codec shop_host none shop_agent "add" none none none (registry, 0)).1
run-Harmless_example =
    run-Harmless codec registry permission NoneRun shop_host none
      (default_agent_config "tester" "You test.") shop_model none shop_tools shop_agent harmless
      shop_hosted (λ system prompt s p. p) tt shop_built shop_made "add" none none none
      (registry, 0) (refl, refl)
