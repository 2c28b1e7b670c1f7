-- ===== src/Agent/Runtime.antt =====
-- `AutonomousAgent`: perceive, plan, execute, reflect and remember, over the ports; `AgentFactory`.
pub mod Making
use ai_agent_hub_project_ome.Base.{
  String, ◌<>◌, ◌==◌, Option, none, some, Bool, true, false, List, [], ◌∷◌, map, any, contains,
  if◌then◌else◌, Bool-cases, ◌≡◌, refl, inl, inr, All, subst,
}
use ai_agent_hub_project_ome.Base.Str.{strip, is_blank, join}
use ai_agent_hub_project_ome.Base.Dict.{Dict, lookup, keys, of_pairs, Found, of_pairs-Found}
use ai_agent_hub_project_ome.Base.Sort.{sort_by, str_le}
use ai_agent_hub_project_ome.Base.Exn.{
  Outcome, ok, raised, Exn, error, value_error, agent_protocol_error, is_value_error, type_error,
  bind, convert, Exec, pure, raise, ◌>>=◌, ExnKind,
}
use ai_agent_hub_project_ome.Base.Value.{
  Value, bool, str, list, dict, Fields, end, field, get_field, values_of, Codec,
}
use ai_agent_hub_project_ome.Agent.Types.{AgentConfig, AgentAction, LlmClient, MemoryStore, Tool}
use ai_agent_hub_project_ome.Agent.Decode.{decode_json_object, parse_action, protocol_error}

pub record AutonomousAgent (W : Type 0) : Type 0 where
  pub config : AgentConfig
  pub llm : LlmClient W
  pub memory : Option (MemoryStore W)
  pub tools : Dict (Tool W)

abbrev same_length {ℓ κ} : {A : Type ℓ} {B : Type κ} → List A → List B → Bool
same_length [] [] = true
same_length (a ∷ as') (b ∷ bs) = same_length as' bs
same_length _ _ = false

-- `isinstance(done, bool) and isinstance(reason, str)`, with the default of `reason`
abbrev as_reflection : Option Value → Option Value → Outcome Fields
as_reflection (some (bool done)) none = ok (field "done" (bool done) (field "reason" (str "") end))
as_reflection (some (bool done)) (some (str reason)) =
    ok (field "done" (bool done) (field "reason" (str reason) end))
as_reflection _ _ = protocol_error "Reflection must contain boolean 'done' and string 'reason'"

-- `except (TypeError, ValueError, json.JSONDecodeError)`
abbrev is_reflection_error : ExnKind → Bool
is_reflection_error type_error = true
is_reflection_error kind = is_value_error kind

abbrev reflection_error : Exn → Exn
reflection_error e =
    if is_reflection_error e.kind
    then error agent_protocol_error ("Invalid reflection response: " <> e.message)
    else e

abbrev action_fields : AgentAction → Fields
action_fields a =
    field "action" (str a.action)
      (field "arguments" (dict a.arguments) (field "rationale" (str a.rationale) end))

-- The value of a plain function in an awaited one.
abbrev pub lift {ℓ} : {S A : Type ℓ} → Outcome A → Exec S A
lift r s = (r, s)

module _ {W : Type 0} where
  tool_pairs : List (Tool W) → List (String × Tool W)
  tool_pairs [] = []
  tool_pairs (tool ∷ tools) = (tool.name, tool) ∷ tool_pairs tools

  -- `AutonomousAgent(config, llm=…, memory=…, tools=…)`: a name that occurs twice would lose a tool.
  unfoldable pub make_agent :
      AgentConfig
      → LlmClient W
      → Option (MemoryStore W)
      → List (Tool W)
      → Outcome (AutonomousAgent W)
  unfolding tool_pairs of_pairs
  make_agent config llm memory tools =
      let by_name = of_pairs (tool_pairs tools) in
      if same_length by_name tools
      then ok (record { config = config; llm = llm; memory = memory; tools = by_name })
      else raised (error value_error "Tool names must be unique")

  unfoldable pub tool_names : AutonomousAgent W → List String
  unfolding keys sort_by
  tool_names agent = sort_by str_le (keys agent.tools)

  abbrev pub recall_for : Option (MemoryStore W) → String → Exec W (List Value)
  recall_for none task = pure []
  recall_for (some memory) task = memory.recall task 5

  unfoldable pub perceive : AutonomousAgent W → String → Exec W Fields
  perceive agent task =
      if is_blank task then raise (error value_error "Task cannot be empty") else do
        memories ← recall_for agent.memory task
        pure (field "task" (str (strip task)) (field "memories" (list (values_of memories)) end))

  abbrev run_tool : Option (Tool W) → AgentAction → Exec W Value
  run_tool none action = lift (protocol_error ("Unauthorized tool: " <> action.action))
  run_tool (some tool) action = tool.run action.arguments

  unfoldable pub execute : AutonomousAgent W → AgentAction → Exec W Value
  execute agent action =
      if action.action == "final"
      then pure (str action.rationale)
      else run_tool (lookup action.action agent.tools) action

  abbrev pub store_in : Option (MemoryStore W) → String → Option Fields → Exec W (Unit {0})
  store_in none text metadata = pure tt
  store_in (some memory) text metadata =
      if is_blank text then pure tt else memory.remember (strip text) metadata

  unfoldable pub remember : AutonomousAgent W → String → Option Fields → Exec W (Unit {0})
  remember agent = store_in agent.memory

abbrev tool_list : List String → String
tool_list [] = "none"
tool_list (n ∷ names) = join ", " (n ∷ names)

module _ (codec : Codec) where
  unfoldable pub reflect_prompt : Fields → AgentAction → Value → String
  reflect_prompt observation action result =
      "Assess the latest autonomous step. Return ONLY JSON with fields done and reason.\n"
      <> "done must be a boolean. Mark done true only when the user's task is satisfied.\n\n"
      <> "Observation: "
      <> codec.dumps (dict observation)
      <> "\nAction: "
      <> codec.dumps (dict (action_fields action))
      <> "\nResult: "
      <> codec.dumps result

  unfoldable pub parse_reflection : String → Outcome Fields
  unfolding decode_json_object
  parse_reflection raw = convert reflection_error (
      bind (decode_json_object codec raw)
        λ value. as_reflection (get_field "done" value) (get_field "reason" value))

module _ (codec : Codec) {W : Type 0} where
  unfoldable pub plan_prompt : AutonomousAgent W → Fields → String
  plan_prompt agent observation =
      "You are the planning component of an autonomous agent.\n"
      <> "Return ONLY a JSON object with exactly these fields: action, arguments, rationale.\n"
      <> "action must be either 'final' or one of the allowed tools.\n"
      <> "arguments must be a JSON object.\n"
      <> "Allowed tools: "
      <> tool_list (tool_names agent)
      <> "\n\n"
      <> "Observation:\n"
      <> codec.dumps (dict observation)

  unfoldable pub plan : AutonomousAgent W → Fields → Exec W AgentAction
  unfolding parse_action
  plan agent observation = do
    raw ← agent.llm.generate agent.config.system_prompt (plan_prompt agent observation)
    lift (parse_action codec raw)

  unfoldable pub reflect : AutonomousAgent W → Fields → AgentAction → Value → Exec W Fields
  unfolding parse_reflection
  reflect agent observation action result = do
    raw ←
        agent.llm.generate agent.config.system_prompt
          (reflect_prompt codec observation action result)
    lift (parse_reflection codec raw)

pub record AgentFactory (W : Type 0) : Type 0 where
  pub llm : LlmClient W
  pub memory : Option (MemoryStore W)
  pub tools : List (Tool W)

abbrev has_blank : List String → Bool
has_blank names = any is_blank names

-- `len(names) != len(set(names))`
abbrev has_repeats : List String → Bool
has_repeats [] = false
has_repeats (n ∷ names) = if contains names n then true else has_repeats names

module _ {W : Type 0} where
  names_of : List (Tool W) → List String
  names_of = map (λ (tool : Tool W). tool.name)

  -- `AgentFactory(llm=…, memory=…, tools=…)`
  unfoldable pub make_factory :
      LlmClient W → Option (MemoryStore W) → List (Tool W) → Outcome (AgentFactory W)
  unfolding names_of
  make_factory llm memory tools =
      if has_blank (names_of tools)
      then raised (error value_error "Every tool must expose a non-empty string name")
      else if has_repeats (names_of tools)
      then raised (error value_error "Tool names must be unique")
      else ok (record { llm = llm; memory = memory; tools = tools })

  -- `create(config, tools=…, memory=…)`; `none` is a `None` that takes the factory's own.
  unfoldable pub create :
      AgentFactory W
      → AgentConfig
      → Option (List (Tool W))
      → Option (MemoryStore W)
      → Outcome (AutonomousAgent W)
  unfolding make_agent
  create factory config tools memory =
      make_agent config factory.llm (elim memory [ none ↦ factory.memory | some m ↦ some m ])
        (elim tools [ none ↦ factory.tools | some ts ↦ ts ])
