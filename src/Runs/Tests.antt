-- ===== src/Runs/Tests.antt =====
-- Runs at concrete inputs: two runs whose tasks take turns, and a sink that fails after a result.
use ai_agent_hub_project_ome.Base.{ℕ, ◌*◌, ◌≤◌, ◌≡◌, refl, none, some, true, false, [], inr}
use ai_agent_hub_project_ome.Base.Str.{is_blank}
use ai_agent_hub_project_ome.Base.Dict.{lookup, insert, of_pairs}
use ai_agent_hub_project_ome.Base.Exn.{
  ok, raised, error, runtime_error, llm_error, value_error, describe, class_name,
}
use ai_agent_hub_project_ome.Base.Value.{str, Fields, end, Codec}
use ai_agent_hub_project_ome.Base.Rules.{Ends}
use ai_agent_hub_project_ome.Agent.Types.{default_agent_config, make_agent_config}
use ai_agent_hub_project_ome.Agent.Runtime.{AutonomousAgent, make_agent}
use ai_agent_hub_project_ome.Orchestrator.Run.{Host}
use ai_agent_hub_project_ome.Runs.Models.{
  running, completed, failed, RunCommand, make_command, RunSnapshot, save, get,
}
use ai_agent_hub_project_ome.Runs.Runner.{
  AgentRunner, IsRunner, Finished, run_command, run_command-Finished,
}
use ai_agent_hub_project_ome.Runs.Service.{
  pending, announcing_start, awaiting_run, announcing_result, announcing_failure, over, returned,
  begins, sink_returns, sink_raises, run_returns, advance, Hub, empty_hub, submit, proceed, query,
  snapshot,
}
use ai_agent_hub_project_ome.Runs.Service.Lifecycle.{IsAgreed}
use ai_agent_hub_project_ome.Runs.Service.History.{
  submitted, proceeded, Steps, done, then_, Later, Steps-Later, Steps-IsAgreed_empty,
}
use ai_agent_hub_project_ome.Runs.Api.{
  RunRequest, is_valid, accepted, object, unprocessable, internal_error, create_run, get_run,
}
use ai_agent_hub_project_ome.Runs.Api.Served.{ShowsRequest, create_run-get_run, get_run-settled}
use ai_agent_hub_project_ome.Runs.Service.Turns.{turns, submissions, turns-bounded}

abbrev codec : Codec
codec = record { show = λ v. "value"; dumps = λ v. "{}"; loads = λ text. inr "Expecting value" }

-- A model that is down.
abbrev runner : AgentRunner ℕ
runner = record {
  factory = record {
    llm = record { generate = λ system prompt w. (raised (error llm_error "down"), w) };
    memory = none;
    tools = [];
  };
  default_config = default_agent_config "default" "You help.";
}

abbrev command : RunCommand
command = record { prompt = "add"; agent = "tester"; metadata = end }

command_test : make_command command ≡ ok command
unfolding make_command is_blank
command_test = refl

abbrev agent : AutonomousAgent ℕ
agent = record {
  config = default_agent_config "default" "You help.";
  llm = runner.factory.llm;
  memory = none;
  tools = [];
}

runner-IsRunner : IsRunner runner
unfolding make_agent_config make_agent is_blank of_pairs
runner-IsRunner = record { config = refl; agent = agent; made = refl }

abbrev host : Host ℕ
host = record { perf_counter = λ w. (0, w); uuid4 = λ w. ("run-1", w) }

run_command-Finished_example :
    Ends (Finished command) (run_command codec host none runner command 0)
unfolding is_blank
run_command-Finished_example =
    run_command-Finished codec host none runner runner-IsRunner command 0 refl refl

-- The first run is submitted, begins and comes back while the second one waits; then its sink fails.
abbrev result : RunSnapshot
result = record (snapshot "run-1" command completed) { result = str "42" }

abbrev hub_1 : Hub
hub_1 = submit "b" command (submit "a" command empty_hub)

abbrev started : Hub
started = proceed "a" command (announcing_start, some (snapshot "a" command running)) hub_1

abbrev awaiting : Hub
awaiting = proceed "a" command (awaiting_run, none) started

abbrev resulted : RunSnapshot
resulted = record (snapshot "a" command completed) { result = str "42" }

abbrev hub_2 : Hub
hub_2 = proceed "a" command (announcing_result, some resulted) awaiting

abbrev spoiled : RunSnapshot
spoiled = record (snapshot "a" command failed) { error_text = some "RuntimeError: broker down" }

abbrev hub_3 : Hub
hub_3 = proceed "a" command (announcing_failure, some spoiled) hub_2

program : Unit {0}
unfolding submit proceed query save get insert lookup advance describe class_name
program = tt

steps_2 : Steps true empty_hub hub_2
unfolding program
steps_2 =
    then_
      (then_
        (then_ (then_ (then_ done (submitted "a" command refl)) (submitted "b" command refl)) (
          proceeded "a" (record { command = command; phase = pending }) begins
            (announcing_start, some (snapshot "a" command running)) refl tt refl))
        (proceeded "a" (record { command = command; phase = announcing_start }) sink_returns
          (awaiting_run, none) refl tt refl))
      (proceeded "a" (record { command = command; phase = awaiting_run }) (run_returns result)
        (announcing_result, some resulted) refl refl refl)

steps_3 : Steps true hub_2 hub_3
unfolding program
steps_3 = then_ done (
    proceeded "a" (record { command = command; phase = announcing_result })
      (sink_raises (error runtime_error "broker down")) (announcing_failure, some spoiled) refl tt
      refl)

completed_test : query "a" hub_2 ≡ some resulted
unfolding program
completed_test = refl

spoiled_test : query "a" hub_3 ≡ some spoiled
unfolding program
spoiled_test = refl

Steps-Later_example : Later true resulted (query "a" hub_3)
Steps-Later_example = Steps-Later true steps_2 steps_3 "a" resulted completed_test

Steps-IsAgreed_empty_example : IsAgreed true hub_2
Steps-IsAgreed_empty_example = Steps-IsAgreed_empty true steps_2

turns-bounded_example : turns steps_2 ≤ 5 * submissions steps_2
turns-bounded_example = turns-bounded steps_2

abbrev request : RunRequest
request = record { prompt = "add"; agent = "tester" }

refused_request :
    create_run "a" (record { prompt = ""; agent = "tester" }) empty_hub ≡ (unprocessable, empty_hub)
unfolding create_run is_valid
refused_request = refl

-- Blanks are long enough for the route, and no prompt for the command.
blank_request :
    create_run "a" (record { prompt = " "; agent = "tester" }) empty_hub
    ≡ (internal_error (error value_error "prompt cannot be empty"), empty_hub)
unfolding create_run is_valid make_command is_blank
blank_request = refl

create_run-get_run_example :
    (create_run "a" request empty_hub ≡ (accepted "a" "queued", submit "a" command empty_hub))
    × ((fields : Fields) × (get_run "a" (submit "a" command empty_hub) ≡ object fields)
        × ShowsRequest "a" request fields)
unfolding is_valid is_blank program
create_run-get_run_example =
    create_run-get_run empty_hub (submit "a" command empty_hub) "a" request refl refl refl done refl
      done

-- The same run without a sink.
abbrev finished : Hub
finished =
    proceed "a" command (over returned, some resulted)
      (proceed "a" command (awaiting_run, some (snapshot "a" command running)) hub_1)

steps_finished : Steps false empty_hub finished
unfolding program
steps_finished =
    then_
      (then_ (then_ (then_ done (submitted "a" command refl)) (submitted "b" command refl)) (
        proceeded "a" (record { command = command; phase = pending }) begins
          (awaiting_run, some (snapshot "a" command running)) refl tt refl))
      (proceeded "a" (record { command = command; phase = awaiting_run }) (run_returns result)
        (over returned, some resulted) refl refl refl)

more : Steps false finished (submit "c" command finished)
unfolding program
more = then_ done (submitted "c" command refl)

get_run-settled_example : get_run "a" (submit "c" command finished) ≡ get_run "a" finished
unfolding program
get_run-settled_example =
    get_run-settled finished (submit "c" command finished) "a" resulted steps_finished more refl
      refl
