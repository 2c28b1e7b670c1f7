-- ===== src/Runs/Api.antt =====
-- The routes of api/app.py for runs, over a service without an event sink. What FastAPI and pydantic
-- make of a request is taken by their documented rules: the lengths of the fields of `RunRequest`
-- are checked before the route is called, and an exception of a route other than `HTTPException` is
-- an internal error.
pub mod Served
use Prim.Native.String.{count}
use ai_agent_hub_project_ome.Base.{
  String, Option, none, some, Bool, ◌&&◌, not, List, [], ◌∷◌, map, leb, if◌then◌else◌,
}
use ai_agent_hub_project_ome.Base.Exn.{Outcome, ok, raised, stopped, Exn}
use ai_agent_hub_project_ome.Base.Value.{
  Value, null, str, list, dict, Fields, end, field, values_of,
}
use ai_agent_hub_project_ome.Runs.Models.{
  queued, RunCommand, make_command, RunSnapshot, state_value,
}
use ai_agent_hub_project_ome.Runs.Service.{Hub, submit, query, snapshot}

pub record RunRequest : Type 0 where
  pub prompt : String
  pub agent : String

-- the `Field(min_length=…, max_length=…)` of both fields
unfoldable pub is_valid : RunRequest → Bool
is_valid r =
    leb 1 (count r.prompt)
    && leb (count r.prompt) 100000
    && leb 1 (count r.agent)
    && leb (count r.agent) 128

-- A response: accepted (202), an object (200), not found (404), unprocessable (422), or an internal
-- error (500).
pub data Response : Type 0 where
  accepted : (run_id status : String) → Response
  object : Fields → Response
  not_found : (detail : String) → Response
  unprocessable : Response
  internal_error : Exn → Response

abbrev command_of : RunRequest → RunCommand
command_of r = record { prompt = r.prompt; agent = r.agent; metadata = end }

-- the `RunResponse` for the snapshot that `submit` returns
abbrev accept : String → Outcome RunCommand → Hub → Response × Hub
unfolding submit state_value
accept run_id (ok command) hub =
    let queued_run = snapshot run_id command queued in
    (accepted queued_run.run_id (state_value queued_run.state), submit run_id command hub)
accept run_id (raised e) hub = (internal_error e, hub)
accept run_id (stopped x) hub = (unprocessable, hub)

-- `POST /v1/runs`, for the identifier that `uuid4` makes
unfoldable pub create_run : String → RunRequest → Hub → Response × Hub
unfolding accept make_command is_valid
create_run run_id request hub =
    if is_valid request
    then accept run_id (make_command (command_of request)) hub
    else (unprocessable, hub)

abbrev text_or_null : Option String → Value
text_or_null none = null
text_or_null (some text) = str text

-- the object for a snapshot
abbrev pub shown : RunSnapshot → Fields
unfolding state_value
shown s = field "run_id" (str s.run_id) (
    field "agent" (str s.command.agent) (
      field "prompt" (str s.command.prompt) (
        field "status" (str (state_value s.state)) (
          field "result" s.result (
            field "error" (text_or_null s.error_text)
              (field "trace" (list (values_of (map (λ e. dict e) s.trace))) end))))))

abbrev pub found : Option RunSnapshot → Response
unfolding shown
found none = not_found "run not found"
found (some s) = object (shown s)

-- `GET /v1/runs/{run_id}`
unfoldable pub get_run : String → Hub → Response
unfolding found query
get_run run_id hub = found (query run_id hub)
