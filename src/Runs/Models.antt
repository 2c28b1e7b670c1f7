-- ===== src/Runs/Models.antt =====
-- domain/models.py, and the repository of infrastructure/repositories.py. The repository's lock is
-- only held where nothing is awaited, so that `save` and `get` do not interleave with other tasks.
use ai_agent_hub_project_ome.Base.{String, Option, List, if◌then◌else◌}
use ai_agent_hub_project_ome.Base.Str.{is_blank}
use ai_agent_hub_project_ome.Base.Dict.{Dict, lookup, insert}
use ai_agent_hub_project_ome.Base.Exn.{Outcome, ok, raised, error, value_error}
use ai_agent_hub_project_ome.Base.Value.{Value, Fields}

pub data RunState : Type 0 where
  queued running completed failed cancelled : RunState

-- `state.value`
unfoldable pub state_value : RunState → String
state_value queued = "queued"
state_value running = "running"
state_value completed = "completed"
state_value failed = "failed"
state_value cancelled = "cancelled"

pub record RunCommand : Type 0 where
  pub prompt : String
  pub agent : String
  pub metadata : Fields

-- `RunCommand(…)` with its `__post_init__`
unfoldable pub make_command : RunCommand → Outcome RunCommand
make_command c =
    if is_blank c.prompt
    then raised (error value_error "prompt cannot be empty")
    else if is_blank c.agent
    then raised (error value_error "agent cannot be empty")
    else ok c

pub record RunSnapshot : Type 0 where
  pub run_id : String
  pub command : RunCommand
  pub state : RunState
  pub result : Value
  pub error_text : Option String
  pub trace : List Fields

-- `InMemoryRunRepository`
abbrev pub Repository : Type 0
Repository = Dict RunSnapshot

unfoldable pub save : RunSnapshot → Repository → Repository
unfolding insert
save snapshot items = insert snapshot.run_id snapshot items

unfoldable pub get : String → Repository → Option RunSnapshot
unfolding lookup
get run_id items = lookup run_id items
