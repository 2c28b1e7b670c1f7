-- ===== src/Agent/Types.antt =====
-- The value objects and the ports of agents/agent_factory.py. A timeout is a number of hundredths
-- of a second.
use ai_agent_hub_project_ome.Base.{ℕ, ◌≡◌, refl, String, Option, false, arith, if◌then◌else◌}
use ai_agent_hub_project_ome.Base.Str.{is_blank}
use ai_agent_hub_project_ome.Base.Int.{ℤ, pos, ltb_ℤ, leb_ℤ}
use ai_agent_hub_project_ome.Base.Exn.{Outcome, ok, raised, error, value_error, Exec}
use ai_agent_hub_project_ome.Base.Value.{Value, Fields, end}
use ai_agent_hub_project_ome.Base.{List}

pub record AgentConfig : Type 0 where
  pub name : String
  pub system_prompt : String
  pub max_iterations : ℤ
  pub timeout_seconds : ℤ
  pub token_budget : ℤ
  pub metadata : Fields

-- The defaults of the fields.
abbrev pub default_agent_config : String → String → AgentConfig
default_agent_config name system_prompt = record {
  name = name;
  system_prompt = system_prompt;
  max_iterations = pos 8;
  timeout_seconds = pos 12000;
  token_budget = pos 16000;
  metadata = end;
}

-- `AgentConfig(…)` with its `__post_init__`
unfoldable pub make_agent_config : AgentConfig → Outcome AgentConfig
make_agent_config c =
    if is_blank c.name
    then raised (error value_error "Agent name cannot be empty")
    else if is_blank c.system_prompt
    then raised (error value_error "System prompt cannot be empty")
    else if ltb_ℤ c.max_iterations 1
    then raised (error value_error "max_iterations must be >= 1")
    else if leb_ℤ c.timeout_seconds 0
    then raised (error value_error "timeout_seconds must be > 0")
    else if ltb_ℤ c.token_budget 1
    then raised (error value_error "token_budget must be >= 1")
    else ok c

pub record AgentAction : Type 0 where
  pub action : String
  pub arguments : Fields
  pub rationale : String

-- The ports act on a world `W` that the program does not see into.
pub record LlmClient (W : Type 0) : Type 0 where
  pub generate : (system prompt : String) → Exec W String

pub record MemoryStore (W : Type 0) : Type 0 where
  pub recall : (query : String) (limit : ℕ) → Exec W (List Value)
  pub remember : (text : String) → Option Fields → Exec W (Unit {0})

pub record Tool (W : Type 0) : Type 0 where
  pub name : String
  pub run : Fields → Exec W Value

-- What the checks of a configuration establish.
pub record IsValidConfig (c : AgentConfig) : Type 0 where
  pub named : is_blank c.name ≡ false
  pub prompted : is_blank c.system_prompt ≡ false
  pub iterations : ltb_ℤ c.max_iterations 1 ≡ false
  pub seconds : leb_ℤ c.timeout_seconds 0 ≡ false
  pub tokens : ltb_ℤ c.token_budget 1 ≡ false

pub make_agent_config-IsValidConfig :
    (c d : AgentConfig) → make_agent_config c ≡ ok d → IsValidConfig c
unfolding make_agent_config
make_agent_config-IsValidConfig c d e = record {
  named = ground arith;
  prompted = ground arith;
  iterations = ground arith;
  seconds = ground arith;
  tokens = ground arith;
}

pub IsValidConfig-make_agent_config :
    (c : AgentConfig) → IsValidConfig c → make_agent_config c ≡ ok c
unfolding make_agent_config
IsValidConfig-make_agent_config c v =
    rw (v.named, v.prompted, v.iterations, v.seconds, v.tokens) refl
