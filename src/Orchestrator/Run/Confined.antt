-- ===== src/Orchestrator/Run/Confined.antt =====
-- What a whole run can do to the world.
use ai_agent_hub_project_ome.Base.{
  ℕ, zero, suc, ◌≡◌, refl, inl, inr, String, Option, none, some, Bool, true, false, ◌||◌,
  Bool-cases, if◌then◌else◌,
}
use ai_agent_hub_project_ome.Base.Str.{is_blank}
use ai_agent_hub_project_ome.Base.Int.{ℤ, ltb_ℤ, leb_ℤ}
use ai_agent_hub_project_ome.Base.Exn.{
  Outcome, ok, raised, stopped, Exn, Exec, ◌>>=◌, pure, wait_for,
}
use ai_agent_hub_project_ome.Base.Value.{Value, Fields, truthy_field, Codec}
use ai_agent_hub_project_ome.Agent.Types.{AgentAction}
use ai_agent_hub_project_ome.Agent.Runtime.{
  AutonomousAgent, perceive, plan, execute, reflect, remember,
}
use ai_agent_hub_project_ome.Agent.Confined.{
  Keeps, bind-Keeps, try_except-Keeps, IsKept, perceive-Keeps, plan-Keeps, execute-Keeps,
  reflect-Keeps, remember-Keeps,
}
use ai_agent_hub_project_ome.Orchestrator.Budget.{TokenBudget, can_continue}
use ai_agent_hub_project_ome.Orchestrator.Run.{
  AgentRun, Host, EventHandler, Session, Next, return_, observe, emit, on_world, conclude, act,
  attempt, on_error, step, loop, run_loop, settle, start, or_default, run, session,
}

-- The clock, the identifiers and the event handler keep it too.
pub record IsKeptHost {W : Type 0} (P : W → Type 0) (host : Host W)
    (handler : Option (EventHandler W)) : Type 0 where
  pub clock : (w : W) → P w → P (host.perf_counter w).1
  pub identifier : (w : W) → P w → P (host.uuid4 w).1
  pub events : (h : EventHandler W) (event : Fields) → handler ≡ some h → Keeps P (h event)

module _ (codec : Codec) {W : Type 0} {P : W → Type 0} (host : Host W)
    (handler : Option (EventHandler W)) (agent : AutonomousAgent W) (kept : IsKept P agent)
    (hosted : IsKeptHost P host handler) where
  abbrev On : Session W → Type 0
  On s = P s.world

  emit-Keeps : (h : Option (EventHandler W)) (event : Fields) → handler ≡ h → Keeps P (emit h event)
  unfolding emit
  emit-Keeps none event e w p = p
  emit-Keeps (some h) event e w p = hosted.events h event e w p

  on_world-Keeps : {A : Type 0} (m : Exec W A) → Keeps P m → Keeps On (on_world m)
  on_world-Keeps m k s p = k s.world p

  port :
      {A B : Type 0} (m : Exec W A) (f : A → Exec (Session W) B)
      → Keeps P m
      → ((a : A) → Keeps On (f a))
      → Keeps On (on_world m >>= f)
  port m f k l = bind-Keeps (on_world m) f (on_world-Keeps m k) l

  either-Keeps :
      {A : Type 0} (b : Bool) (m n : Exec (Session W) A)
      → Keeps On m
      → Keeps On n
      → Keeps On (if b then m else n)
  either-Keeps true m n k l = k
  either-Keeps false m n k l = l

  conclude-Keeps :
      (action : AgentAction) (result : Value) (reflection : Fields)
      → Keeps On (conclude codec host handler agent action result reflection)
  conclude-Keeps action result reflection s p = elim (Bool-cases (truthy_field "done" reflection)) [
    | inl e ↦ rw e (
        port (remember agent _ _) _ (remember-Keeps codec agent kept _ _) (λ _ t q. q)
          (record s { run = record s.run { result = result } }) p)
    | inr e ↦ rw e p
  ]

  act-Keeps :
      (index started : ℕ) (observation : Fields) (action : AgentAction)
      → Keeps On (act codec host handler agent index started observation action)
  act-Keeps index started observation action =
      port (execute agent action) _ (execute-Keeps codec agent kept action) (λ result s p.
        port (reflect codec agent observation action result) _
          (reflect-Keeps codec agent kept observation action result)
          (λ reflection t q.
            port (emit handler _) _ (emit-Keeps handler _ refl)
              (λ _. conclude-Keeps action result reflection) _ (hosted.clock t.world q))
          _ p)

  attempt-Keeps :
      (index started : ℕ) (observation : Fields)
      → Keeps On (attempt codec host handler agent index started observation)
  unfolding attempt
  attempt-Keeps index started observation =
      port (plan codec agent observation) _ (plan-Keeps codec agent kept observation) (λ action s p.
        either-Keeps (can_continue _ 1) _ _ (act-Keeps index started observation action) (λ t q. q)
          (record s { budget = _; action = some action }) p)

  on_error-Keeps :
      (index started : ℕ) (e : Exn) → Keeps On (on_error codec host handler agent index started e)
  unfolding on_error
  on_error-Keeps index started e s p =
      port (emit handler _) _ (emit-Keeps handler _ refl) (λ _ t q. q) _ (hosted.clock s.world p)

  step-Keeps :
      (index : ℕ) (observation : Fields)
      → Keeps On (step codec host handler agent index observation)
  unfolding step
  step-Keeps index observation s p = elim (Bool-cases (can_continue s.budget 1)) [
    | inr e ↦ rw e p
    | inl e ↦ rw e (
        try_except-Keeps
          (attempt codec host handler agent index (host.perf_counter s.world).0 observation)
          (on_error codec host handler agent index (host.perf_counter s.world).0)
          (attempt-Keeps index _ observation) (on_error-Keeps index _) _ (hosted.clock s.world p))
  ]

  next-Keeps :
      (next : Next) (f : Fields → Exec (Session W) (Unit {0}))
      → ((observation : Fields) → Keeps On (f observation))
      → Keeps On (elim next [ return_ ↦ pure tt | observe observation ↦ f observation ])
  next-Keeps return_ f k s p = p
  next-Keeps (observe observation) f k s p = k observation s p

  loop-Keeps :
      (iterations left index : ℕ) (observation : Fields)
      → Keeps On (loop codec host handler agent iterations left index observation)
  unfolding loop
  loop-Keeps iterations zero index observation s p = p
  loop-Keeps iterations (suc left) index observation s p =
      bind-Keeps (step codec host handler agent index observation) _ (step-Keeps index observation)
        (λ next.
          next-Keeps next (loop codec host handler agent iterations left (suc index))
            (loop-Keeps iterations left (suc index)))
        s p

  run_loop-Keeps : (iterations : ℕ) → Keeps On (run_loop codec host handler agent iterations)
  unfolding run_loop
  run_loop-Keeps iterations s p =
      port (perceive agent s.run.task) _ (perceive-Keeps codec agent kept s.run.task)
        (λ observation t q. loop-Keeps iterations iterations 1 observation _ q) s p

  settle-Keeps :
      (timeout_seconds : ℤ) (r : Outcome (Unit {0})) (s : Session W)
      → On s
      → P (settle codec host handler agent timeout_seconds r s).1
  unfolding settle
  settle-Keeps t (ok _) s p = p
  settle-Keeps t (raised e) s p = p
  settle-Keeps t (stopped x) s p = p

  start-Keeps :
      (timeout_seconds : ℤ) (iterations : ℕ) (r : AgentRun) (budget : Outcome TokenBudget)
      → Keeps P (start codec host handler agent timeout_seconds iterations r budget)
  unfolding wait_for
  start-Keeps t iterations r (ok budget) w p =
      settle-Keeps t _ _ (run_loop-Keeps iterations (session codec host handler agent r budget w) p)
  start-Keeps t iterations r (raised e) w p = p
  start-Keeps t iterations r (stopped x) w p = p

  -- What the ports of a run keep of the world, the whole run keeps, however it ends.
  pub run-Keeps :
      (task : String) (max_iterations timeout_seconds token_budget : Option ℤ)
      → Keeps P (run codec host handler agent task max_iterations timeout_seconds token_budget)
  unfolding run
  run-Keeps task mi ts tb w p = elim (Bool-cases (is_blank task)) [
    | inl e ↦ rw e p
    | inr e ↦
        let bad =
          ltb_ℤ (or_default mi agent.config.max_iterations) 1
          || leb_ℤ (or_default ts agent.config.timeout_seconds) 0
          || ltb_ℤ (or_default tb agent.config.token_budget) 1 in
        elim (Bool-cases bad) [
          | inl b ↦ rw (e, b) p
          | inr b ↦
              rw (e, b)
                (start-Keeps (or_default ts agent.config.timeout_seconds) _ _ _ _
                  (hosted.identifier w p))
        ]
  ]
