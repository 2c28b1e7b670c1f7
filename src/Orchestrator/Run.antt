-- ===== src/Orchestrator/Run.antt =====
-- `Orchestrator.run`, `_run_loop` and `_emit`. An action of a run works on a session: the run's
-- record, its budget, the loop's local `action`, and the world of the ports. A clock reading is a
-- number of hundredths of a millisecond.
pub mod Rules
pub mod Rounds
pub mod Settling
pub mod Outcomes
pub mod Confined
use ai_agent_hub_project_ome.Base.{
  ℕ, zero, suc, ◌-◌, String, ◌<>◌, Option, none, some, Bool, true, false, List, [], ◌∷◌, ◌++◌, ◌||◌,
  if◌then◌else◌,
}
use ai_agent_hub_project_ome.Base.Str.{strip, is_blank, str_ℕ}
use ai_agent_hub_project_ome.Base.Int.{ℤ, pos, negsuc, pos_part, ltb_ℤ, leb_ℤ, fixed_2}
use ai_agent_hub_project_ome.Base.Exn.{
  Outcome, ok, raised, stopped, Exn, error, describe, value_error, orchestration_error,
  is_timeout_error, run_timer, wait_for, Exec, pure, ◌>>=◌, ◌>>◌, try_except, convert,
}
use ai_agent_hub_project_ome.Base.Value.{
  Value, null, int, float, str, dict, Fields, end, field, truthy_field, Codec,
}
use ai_agent_hub_project_ome.Agent.Types.{AgentAction}
use ai_agent_hub_project_ome.Agent.Runtime.{
  AutonomousAgent, perceive, plan, execute, reflect, remember,
}
use ai_agent_hub_project_ome.Orchestrator.Budget.{
  TokenBudget, make_budget, remaining, consume, can_continue,
}

pub data RunStatus : Type 0 where
  running completed failed cancelled timeout budget_exhausted : RunStatus

pub record AgentRun : Type 0 where
  pub run_id : String
  pub task : String
  pub status : RunStatus
  pub iteration : ℕ
  pub tokens_used : ℕ
  pub result : Value
  pub error_text : Option String
  pub trace : List Fields

-- `AgentRun(run_id=…, task=…)`
abbrev pub new_run : String → String → AgentRun
new_run run_id task = record {
  run_id = run_id;
  task = task;
  status = running;
  iteration = 0;
  tokens_used = 0;
  result = null;
  error_text = none;
  trace = [];
}

-- `time.perf_counter()` and `str(uuid.uuid4())`
pub record Host (W : Type 0) : Type 0 where
  pub perf_counter : W → ℕ × W
  pub uuid4 : W → String × W

abbrev pub EventHandler : Type 0 → Type 0
EventHandler W = Fields → Exec W (Unit {0})

pub record Session (W : Type 0) : Type 0 where
  pub run : AgentRun
  pub budget : TokenBudget
  pub action : Option AgentAction
  pub world : W

-- What the body of the loop ends in: `return`, or the next observation.
pub data Next : Type 0 where
  return_ : Next
  observe : Fields → Next

is_running : RunStatus → Bool
is_running running = true
is_running _ = false

abbrev wrap_handler_error : Exn → Exn
wrap_handler_error e = error orchestration_error ("Event handler failed: " <> describe e)

module _ {W : Type 0} where
  abbrev on_world : {A : Type 0} → Exec W A → Exec (Session W) A
  on_world m s = let (r, w) = m s.world in (r, record s { world = w })

  abbrev gets : {A : Type 0} → (Session W → A) → Exec (Session W) A
  gets f s = (ok (f s), s)

  abbrev modify_run : (AgentRun → AgentRun) → Exec (Session W) (Unit {0})
  modify_run f s = (ok tt, record s { run = f s.run })

  abbrev spend : String → Exec (Session W) (Unit {0})
  spend text s = (ok tt, record s { budget = consume text s.budget })

  abbrev set_action : Option AgentAction → Exec (Session W) (Unit {0})
  set_action a s = (ok tt, record s { action = a })

  abbrev read_clock : Host W → Exec (Session W) ℕ
  read_clock host s = let (t, w) = host.perf_counter s.world in (ok t, record s { world = w })

  abbrev end_with : RunStatus → String → Exec (Session W) Next
  end_with status message = do
    modify_run (λ r. record r { status = status; error_text = some message })
    pure return_

  abbrev append_trace : Fields → Exec (Session W) (Unit {0})
  append_trace event = modify_run (λ r. record r { trace = r.trace ++ event ∷ [] })

  unfoldable pub emit : Option (EventHandler W) → Fields → Exec W (Unit {0})
  emit none event w = (ok tt, w)
  emit (some handler) event w = let (r, w') = handler event w in (convert wrap_handler_error r, w')

-- `round((now - started) * 1000, 2)`
abbrev elapsed_ms : ℕ → ℕ → Value
elapsed_ms started now = float (pos (now - started)) (negsuc 1)

abbrev pub step_event : AgentRun → ℕ → AgentAction → Value → Fields → Value → TokenBudget → Fields
step_event run index action result reflection elapsed budget = field "run_id" (str run.run_id) (
    field "iteration" (int (pos index)) (
      field "action" (str action.action) (
        field "result" result (
          field "reflection" (dict reflection) (
            field "elapsed_ms" elapsed (
              field "tokens_used" (int (pos budget.used))
                (field "tokens_remaining" (int (pos (remaining budget))) end)))))))

abbrev action_value : Option AgentAction → Value
action_value none = null
action_value (some action) = str action.action

abbrev pub error_event : AgentRun → ℕ → Option AgentAction → Exn → Value → Fields
error_event run index action e elapsed = field "run_id" (str run.run_id) (
    field "iteration" (int (pos index)) (
      field "action" (action_value action)
        (field "error" (str (describe e)) (field "elapsed_ms" elapsed end))))

abbrev next_observation : String → AgentAction → Value → Fields → Fields
next_observation task action result reflection = field "task" (str task) (
    field "previous_action" (str action.action)
      (field "previous_result" result (field "reflection" (dict reflection) end)))

-- `d if n is None else n`
abbrev pub or_default : Option ℤ → ℤ → ℤ
or_default none d = d
or_default (some n) d = n

module _ (codec : Codec) {W : Type 0} (host : Host W) (handler : Option (EventHandler W))
    (agent : AutonomousAgent W) where
  -- From `if bool(reflection.get("done"))` to the end of the `try` block.
  abbrev conclude : AgentAction → Value → Fields → Exec (Session W) Next
  conclude action result reflection s =
      if truthy_field "done" reflection
      then (do
        modify_run (λ r. record r { result = result })
        on_world (
            remember agent ("Task: " <> s.run.task <> "\nResult: " <> codec.show result) (
              some (field "run_id" (str s.run.run_id) (field "agent" (str agent.config.name) end))))
        pure return_)
          s
      else (ok (observe (next_observation s.run.task action result reflection)), s)

  -- From `result = await agent.execute(action)` on.
  abbrev act : ℕ → ℕ → Fields → AgentAction → Exec (Session W) Next
  act index started observation action = do
    result ← on_world (execute agent action)
    spend (codec.show result)
    reflection ← on_world (reflect codec agent observation action result)
    spend (codec.show (dict reflection))
    now ← read_clock host
    event ←
        gets
          (λ s. step_event s.run index action result reflection (elapsed_ms started now) s.budget)
    append_trace event
    on_world (emit handler event)
    conclude action result reflection

  -- The `try` block of one iteration.
  attempt : ℕ → ℕ → Fields → Exec (Session W) Next
  attempt index started observation = do
    action ← on_world (plan codec agent observation)
    set_action (some action)
    spend (action.rationale <> codec.show (dict action.arguments))
    able ← gets (λ s. can_continue s.budget 1)
    if able
        then act index started observation action
        else end_with budget_exhausted "Token budget exhausted after planning"

  -- `except Exception as exc`
  on_error : ℕ → ℕ → Exn → Exec (Session W) Next
  on_error index started e = do
    now ← read_clock host
    event ← gets (λ s. error_event s.run index s.action e (elapsed_ms started now))
    append_trace event
    on_world (emit handler event)
    end_with failed (describe e)

  -- One iteration.
  pub step : ℕ → Fields → Exec (Session W) Next
  unfolding attempt on_error
  step index observation s =
      if can_continue s.budget 1
      then (do
        modify_run (λ r. record r { iteration = index })
        started ← read_clock host
        set_action none
        try_except (attempt index started observation) (on_error index started))
          s
      else end_with budget_exhausted ("Token budget exhausted before iteration " <> str_ℕ index) s

  -- `for index in range(1, iterations + 1)`, from `index` on with `left` rounds to go
  pub loop : ℕ → ℕ → ℕ → Fields → Exec (Session W) (Unit {0})
  unfolding step
  loop iterations zero index observation = do
    end_with budget_exhausted ("Iteration budget exhausted (" <> str_ℕ iterations <> ")")
    pure tt
  loop iterations (suc left) index observation = do
    next ← step index observation
    elim next [
      | return_ ↦ pure tt
      | observe observation' ↦ loop iterations left (suc index) observation'
    ]

  pub run_loop : ℕ → Exec (Session W) (Unit {0})
  unfolding loop
  run_loop iterations = do
    task ← gets (λ s. s.run.task)
    observation ← on_world (perceive agent task)
    spend (codec.show (dict observation))
    loop iterations iterations 1 observation

  -- The `try` statement of `run` after its body, and the two lines behind it.
  pub settle : ℤ → Outcome (Unit {0}) → Session W → Outcome AgentRun × W
  unfolding is_running
  settle timeout_seconds (ok _) s =
      let status' = if is_running s.run.status then completed else s.run.status in
      (ok (record s.run { status = status'; tokens_used = s.budget.used }), s.world)
  settle timeout_seconds (raised e) s =
      let run' =
        if is_timeout_error e.kind
        then record s.run {
          status = timeout;
          error_text =
              some ("Execution exceeded timeout of " <> fixed_2 (pos_part timeout_seconds) <> "s");
        }
        else record s.run { status = failed; error_text = some (describe e) } in
      (ok (record run' { tokens_used = s.budget.used }), s.world)
  settle timeout_seconds (stopped x) s = (stopped x, s.world)

  abbrev session : AgentRun → TokenBudget → W → Session W
  session run budget w = record { run = run; budget = budget; action = none; world = w }

  -- The `try` statement, once the budget is built.
  abbrev start : ℤ → ℕ → AgentRun → Outcome TokenBudget → Exec W AgentRun
  start timeout_seconds iterations run (ok budget) w =
      let (r, s) = wait_for run_timer (run_loop iterations) (session run budget w) in
      settle timeout_seconds r s
  start timeout_seconds iterations run (raised e) w = (raised e, w)
  start timeout_seconds iterations run (stopped x) w = (stopped x, w)

  -- `run(agent, task, max_iterations=…, timeout_seconds=…, token_budget=…)`
  unfoldable pub run : String → Option ℤ → Option ℤ → Option ℤ → Exec W AgentRun
  unfolding run_loop settle make_budget wait_for
  run task max_iterations timeout_seconds token_budget w =
      let iterations = or_default max_iterations agent.config.max_iterations in
      let timeout' = or_default timeout_seconds agent.config.timeout_seconds in
      let tokens = or_default token_budget agent.config.token_budget in
      if is_blank task
      then (raised (error value_error "Task cannot be empty"), w)
      else if ltb_ℤ iterations 1 || leb_ℤ timeout' 0 || ltb_ℤ tokens 1
      then (raised (error value_error "Invalid execution budget"), w)
      else let (run_id, w') = host.uuid4 w in
        start timeout' (pos_part iterations) (new_run run_id (strip task)) (make_budget tokens) w'
