-- ===== src/Orchestrator/Tests.antt =====
-- Runs at concrete inputs: a scripted model, a tool and no memory. The world is what the model has
-- left to say.
use ai_agent_hub_project_ome.Base.{
  ℕ, ◌*◌, ◌≤◌, ◌≡◌, ◌≢◌, refl, String, ◌==◌, none, some, Bool, true, false, List, [], ◌∷◌, ◌↔◌, inl,
  inr, if◌then◌else◌, ◌⊎◌,
}
use ai_agent_hub_project_ome.Base.Str.{is_blank, find_code, rfind_code}
use ai_agent_hub_project_ome.Orchestrator.Budget.{can_continue, consume}
use ai_agent_hub_project_ome.Base.Int.{pos, negsuc, fixed_2, ltb_ℤ}
use ai_agent_hub_project_ome.Base.Dict.{Dict, lookup, has}
use ai_agent_hub_project_ome.Base.Exn.{
  ok, raised, stopped, deadline, run_timer, error, llm_error, Exec, describe,
}
use ai_agent_hub_project_ome.Base.Value.{
  Value, null, bool, int, float, str, dict, Fields, end, field, get_field, truthy, Codec,
}
use ai_agent_hub_project_ome.Agent.Types.{LlmClient, Tool, default_agent_config}
use ai_agent_hub_project_ome.Agent.Runtime.{
  AutonomousAgent, plan, execute, reflect, perceive, remember,
}
use ai_agent_hub_project_ome.Orchestrator.Run.{
  AgentRun, Host, EventHandler, run, emit, completed, failed, timeout,
}
use ai_agent_hub_project_ome.Orchestrator.Run.Rounds.{IsDone}
use ai_agent_hub_project_ome.Orchestrator.Graph.{AgentNode, is_completed, run_graph}
use ai_agent_hub_project_ome.Orchestrator.Graph.Walks.{Walk, run_graph-iff_Walk}
use ai_agent_hub_project_ome.Orchestrator.Run.Outcomes.{
  IsRequest, run-bounded, run-completed, run-total,
}

abbrev World : Type 0
World = List String

abbrev object_of : String → Value ⊎ String
object_of text =
    if text == "{finish}"
    then inl (dict (field "action" (str "final") (field "rationale" (str "42") end)))
    else if text == "{echo}"
    then inl (dict (field "action" (str "echo") end))
    else if text == "{yes}"
    then inl (dict (field "done" (bool true) end))
    else if text == "{no}"
    then inl (dict (field "done" (bool false) end))
    else inr "Expecting value"

abbrev pub codec : Codec
codec = record { show = λ v. "value"; dumps = λ v. "{}"; loads = object_of }

abbrev pub host : Host World
host = record { perf_counter = λ w. (0, w); uuid4 = λ w. ("run-1", w) }

abbrev answer : (system prompt : String) → Exec World String
answer system prompt [] = (raised (error llm_error "no answer"), [])
answer system prompt (a ∷ script) =
    (if a == "(late)" then stopped (deadline run_timer) else ok a, script)

abbrev pub llm : LlmClient World
llm = record { generate = answer }

abbrev pub echo : Tool World
echo = record { name = "echo"; run = λ arguments w. (ok (dict arguments), w) }

abbrev pub agent : AutonomousAgent World
agent = record {
  config = default_agent_config "tester" "You test.";
  llm = llm;
  memory = none;
  tools = ("echo", echo) ∷ [];
}

program : Unit {0}
unfolding run plan execute reflect perceive remember lookup get_field truthy describe is_blank emit
    can_continue consume find_code rfind_code fixed_2
program = tt

abbrev quick : List String
quick = "{echo}" ∷ "{no}" ∷ "{finish}" ∷ "{yes}" ∷ []

abbrev reflection : Bool → Fields
reflection done = field "done" (bool done) (field "reason" (str "") end)

abbrev event : ℕ → String → Value → Bool → ℕ → ℕ → Fields
event index action result done used left = field "run_id" (str "run-1") (
    field "iteration" (int (pos index)) (
      field "action" (str action) (
        field "result" result (
          field "reflection" (dict (reflection done)) (
            field "elapsed_ms" (float (pos 0) (negsuc 1)) (
              field "tokens_used" (int (pos used))
                (field "tokens_remaining" (int (pos left)) end)))))))

abbrev quick_run : AgentRun
quick_run = record {
  run_id = "run-1";
  task = "add";
  status = completed;
  iteration = 2;
  tokens_used = 14;
  result = str "42";
  error_text = none;
  trace = event 1 "echo" (dict end) false 8 15992 ∷ event 2 "final" (str "42") true 14 15986 ∷ [];
}

run-quick : run codec host none agent "add" none none none quick ≡ (ok quick_run, [])
unfolding program
run-quick = refl

-- The deadline of the run passes while the second plan is made.
abbrev late : List String
late = "{echo}" ∷ "{no}" ∷ "(late)" ∷ []

abbrev late_run : AgentRun
late_run = record {
  run_id = "run-1";
  task = "add";
  status = timeout;
  iteration = 2;
  tokens_used = 8;
  result = null;
  error_text = some "Execution exceeded timeout of 120.00s";
  trace = event 1 "echo" (dict end) false 8 15992 ∷ [];
}

run-late : run codec host none agent "add" none none none late ≡ (ok late_run, [])
unfolding program
run-late = refl

-- A handler that fails at each event fails at the event of its own failure too.
abbrev broken : EventHandler World
broken event w = (raised (error llm_error "sink"), w)

abbrev broken_run : AgentRun
broken_run = record {
  run_id = "run-1";
  task = "add";
  status = failed;
  iteration = 1;
  tokens_used = 8;
  result = null;
  error_text = some "OrchestrationError: Event handler failed: LLMError: sink";
  trace =
      event 1 "echo" (dict end) false 8 15992
      ∷ field "run_id" (str "run-1") (
          field "iteration" (int (pos 1)) (
            field "action" (str "echo") (
              field "error" (str "OrchestrationError: Event handler failed: LLMError: sink")
                (field "elapsed_ms" (float (pos 0) (negsuc 1)) end))))
      ∷ [];
}

run-broken :
    run codec host (some broken) agent "add" none none none quick
    ≡ (ok broken_run, "{finish}" ∷ "{yes}" ∷ [])
unfolding program
run-broken = refl

abbrev asked : IsRequest (default_agent_config "tester" "You test.") "add" none none none
unfolding is_blank
asked = record { text = refl; iterations = refl; seconds = refl; tokens = refl }

run-bounded_example : (2 ≤ 8) × (2 ≤ 3) × (3 * 2 ≤ 16001)
run-bounded_example =
    run-bounded codec host none agent "add" none none none quick asked quick_run [] run-quick

run-completed_example : IsDone quick_run
run-completed_example =
    run-completed codec host none agent "add" none none none quick asked quick_run [] run-quick refl

run-total_example :
    run codec host (some broken) agent "add" none none none quick
    ≢ (raised (error llm_error "sink"), [])
run-total_example =
    run-total codec host (some broken) agent "add" none none none quick asked
      (error llm_error "sink") []

-- Two nodes, of which the first hands over to the second.
abbrev script : List String
script = "{finish}" ∷ "{yes}" ∷ "{finish}" ∷ "{yes}" ∷ []

abbrev finish_run : AgentRun
finish_run = record {
  run_id = "run-1";
  task = "add";
  status = completed;
  iteration = 1;
  tokens_used = 8;
  result = str "42";
  error_text = none;
  trace = event 1 "final" (str "42") true 8 15992 ∷ [];
}

abbrev node : String → List String → AgentNode World
node name next = record { name = name; agent = agent; next_nodes = next }

abbrev nodes : Dict (AgentNode World)
nodes = ("draft", node "draft" ("review" ∷ [])) ∷ ("review", node "review" []) ∷ []

run_graph-two :
    run_graph codec host none nodes "add" "draft" (pos 5) script
    ≡ (ok (finish_run ∷ finish_run ∷ []), [])
unfolding run_graph is_completed program
run_graph-two = refl

run_graph-iff_Walk_example :
    (run_graph codec host none nodes "add" "draft" (pos 5) script
      ≡ (ok (finish_run ∷ finish_run ∷ []), []))
    ↔ ((has "draft" nodes ≡ true)
        × (ltb_ℤ (pos 5) 1 ≡ false)
        × Walk codec host none nodes "add" [] "draft" script (finish_run ∷ finish_run ∷ []) []
        × (2 ≤ 5))
run_graph-iff_Walk_example =
    run_graph-iff_Walk codec host none nodes "add" "draft" (pos 5) script
      (finish_run ∷ finish_run ∷ []) []
