-- ===== src/Runs/Api/Served.antt =====
-- What a client sees of a run.
use ai_agent_hub_project_ome.Base.{
  String, ◌≡◌, refl, sym, ap, ◌∙◌, none, some, true, false, inl, inr, eq_refl,
}
use ai_agent_hub_project_ome.Base.Str.{is_blank}
use ai_agent_hub_project_ome.Base.Dict.{lookup, lookup-insert}
use ai_agent_hub_project_ome.Base.Value.{str, Fields, get_field}
use ai_agent_hub_project_ome.Runs.Models.{
  queued, state_value, RunCommand, make_command, RunSnapshot, save, get,
}
use ai_agent_hub_project_ome.Runs.Service.{Hub, empty_hub, submit, query, snapshot}
use ai_agent_hub_project_ome.Runs.Service.Lifecycle.{is_final}
use ai_agent_hub_project_ome.Runs.Service.History.{Steps, then_, submitted, Steps-Later}
use ai_agent_hub_project_ome.Runs.Api.{
  RunRequest, is_valid, accepted, object, create_run, command_of, accept, shown, found, get_run,
}

-- An object that shows the run of a request.
abbrev pub ShowsRequest : String → RunRequest → Fields → Type 0
ShowsRequest run_id request fields =
    (get_field "prompt" fields ≡ some (str request.prompt))
    × (get_field "agent" fields ≡ some (str request.agent))

create_run-accepted :
    (run_id : String) (request : RunRequest) (hub : Hub)
    → is_valid request ≡ true
    → is_blank request.prompt ≡ false
    → is_blank request.agent ≡ false
    → create_run run_id request hub
      ≡ (accepted run_id "queued", submit run_id (command_of request) hub)
unfolding create_run make_command accept state_value
create_run-accepted run_id request hub valid prompt agent = rw (valid, prompt, agent) refl

query-submit :
    (run_id : String) (command : RunCommand) (hub : Hub)
    → query run_id (submit run_id command hub) ≡ some (snapshot run_id command queued)
unfolding query submit get save
query-submit run_id command hub =
    lookup-insert run_id run_id (snapshot run_id command queued) hub.repository
    ∙ rw (eq_refl run_id) refl

-- A request whose fields are of the allowed lengths and not blank is accepted as queued, under the
-- identifier of the run. Whatever the tasks do afterwards, the run can be found under it, and is
-- shown with the prompt and the agent of the request.
pub create_run-get_run :
    (hub later : Hub) (run_id : String) (request : RunRequest)
    → is_valid request ≡ true
    → is_blank request.prompt ≡ false
    → is_blank request.agent ≡ false
    → Steps false empty_hub hub
    → lookup run_id hub.jobs ≡ none
    → Steps false (submit run_id (command_of request) hub) later
    → (create_run run_id request hub
        ≡ (accepted run_id "queued", submit run_id (command_of request) hub))
      × ((fields : Fields) × (get_run run_id later ≡ object fields)
          × ShowsRequest run_id request fields)
unfolding get_run shown get_field
create_run-get_run hub later run_id request valid prompt agent reached fresh after =
    let reached' = then_ reached (submitted run_id (command_of request) fresh) in
    let old = snapshot run_id (command_of request) queued in
    let (new, same, command, _, _) =
      Steps-Later false reached' after run_id old (query-submit run_id (command_of request) hub) in
    (
      create_run-accepted run_id request hub valid prompt agent,
      (
        shown new,
        ap (λ o. found o) same,
        (
          ap (λ (c : RunCommand). some (str c.prompt)) command,
          ap (λ (c : RunCommand). some (str c.agent)) command,
        ),
      ),
    )

-- Once a run is shown as completed, failed or cancelled, it is shown as it is for ever.
pub get_run-settled :
    (hub later : Hub) (run_id : String) (s : RunSnapshot)
    → Steps false empty_hub hub
    → Steps false hub later
    → query run_id hub ≡ some s
    → is_final s.state ≡ true
    → get_run run_id later ≡ get_run run_id hub
unfolding get_run
get_run-settled hub later run_id s reached after here final =
    let (new, same, _, _, kept) = Steps-Later false reached after run_id s here in
    elim (kept final) [
      | inl e ↦ ap (λ o. found o) (same ∙ ap (λ (x : RunSnapshot). some x) e ∙ sym here)
      | inr (sink, _) ↦ absurd (cc)
    ]
