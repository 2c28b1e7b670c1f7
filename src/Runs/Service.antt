-- ===== src/Runs/Service.antt =====
-- `RunService` of application/run_service.py. Each submitted run has a task that executes it. A
-- task is in a phase: it has not begun, awaits the event sink after a save, awaits the runner, or
-- is over. It goes on when what it awaits comes back or raises, or when it is cancelled there. The
-- tasks take turns in any order.
pub mod Lifecycle
pub mod History
pub mod Turns
use ai_agent_hub_project_ome.Base.{
  ◌≡◌, String, Option, none, some, Bool, true, false, List, [], if◌then◌else◌,
}
use ai_agent_hub_project_ome.Base.Dict.{Dict, lookup, insert}
use ai_agent_hub_project_ome.Base.Exn.{Exn, describe}
use ai_agent_hub_project_ome.Base.Value.{null, Fields, end, field, str}
use ai_agent_hub_project_ome.Runs.Models.{
  RunState, queued, running, completed, failed, cancelled, RunCommand, RunSnapshot, Repository,
  save, get, state_value,
}

-- How a task ends: it returns, raises an exception, or lets its cancellation through.
pub data Ending : Type 0 where
  returned : Ending
  died : Exn → Ending
  dropped : Ending

pub data Phase : Type 0 where
  pending announcing_start awaiting_run : Phase
  announcing_result announcing_failure announcing_cancel : Phase
  over : Ending → Phase

-- What happens to a task at the await where it stands.
pub data Happening : Type 0 where
  begins cancels sink_returns : Happening
  sink_raises : Exn → Happening
  run_returns : RunSnapshot → Happening
  run_raises : Exn → Happening

-- `RunSnapshot(run_id=…, command=…, state=…)`
abbrev pub snapshot : String → RunCommand → RunState → RunSnapshot
snapshot run_id command state = record {
  run_id = run_id;
  command = command;
  state = state;
  result = null;
  error_text = none;
  trace = [];
}

-- What `_execute` saves when the runner returns, and when the block raises.
abbrev pub result_snapshot : String → RunCommand → RunSnapshot → RunSnapshot
result_snapshot run_id command result = record {
  run_id = run_id;
  command = command;
  state = result.state;
  result = result.result;
  error_text = result.error_text;
  trace = result.trace;
}

abbrev pub failure_snapshot : String → RunCommand → Exn → RunSnapshot
unfolding describe
failure_snapshot run_id command e = record (snapshot run_id command failed) {
  error_text = some (describe e);
}

-- `{"run_id": …, "state": …}`, which the sink is given after a save
abbrev pub sink_event : RunSnapshot → Fields
unfolding state_value
sink_event s = field "run_id" (str s.run_id) (field "state" (str (state_value s.state)) end)

module _ (has_sink : Bool) where
  -- A save with `_save`, which then awaits the sink if there is one.
  abbrev pub saved : RunSnapshot → Phase → Phase → Option (Phase × Option RunSnapshot)
  saved s at_sink after = some (if has_sink then at_sink else after, some s)

  abbrev pub goes : Phase → Option (Phase × Option RunSnapshot)
  goes phase = some (phase, none)

  -- `_execute(run_id, command)`, one await at a time: the next phase and what is saved on the way.
  unfoldable pub advance :
      String → RunCommand → Phase → Happening → Option (Phase × Option RunSnapshot)
  unfolding failure_snapshot
  advance run_id command pending begins =
      saved (snapshot run_id command running) announcing_start awaiting_run
  advance run_id command pending cancels = goes (over dropped)
  advance run_id command announcing_start sink_returns = goes awaiting_run
  advance run_id command announcing_start (sink_raises e) = goes (over (died e))
  advance run_id command announcing_start cancels = goes (over dropped)
  advance run_id command awaiting_run (run_returns result) =
      saved (result_snapshot run_id command result) announcing_result (over returned)
  advance run_id command awaiting_run (run_raises e) =
      saved (failure_snapshot run_id command e) announcing_failure (over returned)
  advance run_id command awaiting_run cancels =
      saved (snapshot run_id command cancelled) announcing_cancel (over dropped)
  advance run_id command announcing_result sink_returns = goes (over returned)
  advance run_id command announcing_result (sink_raises e) =
      saved (failure_snapshot run_id command e) announcing_failure (over returned)
  advance run_id command announcing_result cancels =
      saved (snapshot run_id command cancelled) announcing_cancel (over dropped)
  advance run_id command announcing_failure sink_returns = goes (over returned)
  advance run_id command announcing_failure (sink_raises e) = goes (over (died e))
  advance run_id command announcing_failure cancels = goes (over dropped)
  advance run_id command announcing_cancel sink_returns = goes (over dropped)
  advance run_id command announcing_cancel (sink_raises e) = goes (over (died e))
  advance run_id command announcing_cancel cancels = goes (over dropped)
  advance run_id command _ _ = none

pub record Job : Type 0 where
  pub command : RunCommand
  pub phase : Phase

-- The repository, and the tasks of the runs.
pub record Hub : Type 0 where
  pub repository : Repository
  pub jobs : Dict Job

abbrev pub empty_hub : Hub
empty_hub = record { repository = []; jobs = [] }

-- `submit(command)`, for the identifier that `uuid4` makes
unfoldable pub submit : String → RunCommand → Hub → Hub
unfolding save
submit run_id command hub = record {
  repository = save (snapshot run_id command queued) hub.repository;
  jobs = insert run_id (record { command = command; phase = pending }) hub.jobs;
}

abbrev pub save_all : Option RunSnapshot → Repository → Repository
unfolding save
save_all none items = items
save_all (some s) items = save s items

-- The task of a run goes on.
unfoldable pub proceed : String → RunCommand → Phase × Option RunSnapshot → Hub → Hub
unfolding save_all
proceed run_id command (phase, written) hub = record {
  repository = save_all written hub.repository;
  jobs = insert run_id (record { command = command; phase = phase }) hub.jobs;
}

-- `get(run_id)`
unfoldable pub query : String → Hub → Option RunSnapshot
unfolding get
query run_id hub = get run_id hub.repository
