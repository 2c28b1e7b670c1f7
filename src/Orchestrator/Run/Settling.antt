-- ===== src/Orchestrator/Run/Settling.antt =====
-- How the loop and the `try` statement of a run end, on every path.
use ai_agent_hub_project_ome.Base.{
  ℕ, zero, suc, ◌+◌, ◌*◌, ◌≤◌, ◌≡◌, ◌≢◌, ◌⊎◌, inl, inr, String, Option, none, [], arith, length,
  Bool-cases, if◌then◌else◌,
}
use ai_agent_hub_project_ome.Base.Int.{ℤ}
use ai_agent_hub_project_ome.Base.Exn.{
  Outcome, ok, raised, stopped, Exn, run_timer, wait_for, is_timeout_error,
}
use ai_agent_hub_project_ome.Base.Value.{Fields, dict, Codec}
use ai_agent_hub_project_ome.Agent.Runtime.{AutonomousAgent, perceive}
use ai_agent_hub_project_ome.Orchestrator.Budget.{TokenBudget, consume, estimate-pos}
use ai_agent_hub_project_ome.Base.Rules.{Ends, bind-Ends, wait_for-Ends}
use ai_agent_hub_project_ome.Orchestrator.Run.Rules.{world-bind}
use ai_agent_hub_project_ome.Orchestrator.Run.Rounds.{
  IsOpen, IsLeft, IsDone, Returned, After, step-After,
}
use ai_agent_hub_project_ome.Orchestrator.Run.{
  RunStatus, running, completed, failed, cancelled, timeout, AgentRun, Host, EventHandler, Session,
  return_, observe, step, loop, run_loop, settle, is_running, session, start,
}

module _ {W : Type 0} (limit iterations : ℕ) where
  -- The session when the loop is over.
  abbrev Looped : Outcome (Unit {0}) → Session W → Type 0
  Looped (ok _) s = Returned limit iterations s
  Looped (raised e) s = IsLeft limit iterations s
  Looped (stopped x) s = IsLeft limit iterations s

  IsLeft-mono :
      (index : ℕ) (s : Session W)
      → index ≤ iterations
      → IsLeft limit index s
      → IsLeft limit iterations s
  IsLeft-mono index s le h = ground arith

-- The record of a run that has come back.
pub record IsSettled (limit iterations : ℕ) (r : AgentRun) : Type 0 where
  pub iteration : r.iteration ≤ iterations
  pub traced : length r.trace ≤ r.iteration + 1
  pub affordable : 3 * r.iteration ≤ limit + 1
  pub not_running : r.status ≢ running
  pub not_cancelled : r.status ≢ cancelled
  pub completed_done : r.status ≡ completed → IsDone r

module _ (r : AgentRun) (status : RunStatus) where
  IsDone-end : (used : ℕ) → IsDone r → IsDone (record r { status = status; tokens_used = used })
  IsDone-end used d = record {
    before = d.before;
    event = d.event;
    reflection = d.reflection;
    traced = d.traced;
    reflected = d.reflected;
    done = d.done;
    result = d.result;
    quiet = d.quiet;
  }

  -- An exception has ended the run.
  failed-Settled :
      {limit iterations : ℕ} (message : Option String) (used : ℕ)
      → r.iteration ≤ iterations
      → length r.trace ≤ r.iteration + 1
      → 3 * r.iteration ≤ limit + 1
      → status ≢ running
      → status ≢ cancelled
      → status ≢ completed
      → IsSettled limit iterations
          (record r { status = status; error_text = message; tokens_used = used })
  failed-Settled message used i t a nr nc nd = record {
    iteration = i;
    traced = t;
    affordable = a;
    not_running = nr;
    not_cancelled = nc;
    completed_done = λ q. absurd (nd q);
  }

-- The loop has returned: the status that is still "running" becomes "completed".
returned-Settled :
    {limit iterations : ℕ} (r : AgentRun) (used : ℕ)
    → r.iteration ≤ iterations
    → length r.trace ≤ r.iteration + 1
    → 3 * r.iteration ≤ limit + 1
    → r.status ≢ completed
    → r.status ≢ cancelled
    → (r.status ≢ running) ⊎ IsDone r
    → IsSettled limit iterations (record r {
      status = if is_running r.status then completed else r.status;
      tokens_used = used;
    })
unfolding is_running
returned-Settled r used i t a not_completed not_cancelled finished = record {
  iteration = i;
  traced = t;
  affordable = a;
  not_running = ground arith;
  not_cancelled = ground arith;
  completed_done =
      λ q. elim finished [ inl n ↦ absurd (ground arith) | inr d ↦ IsDone-end r _ used d ];
}

abbrev pub Settled : {W : Type 0} → ℕ → ℕ → Outcome AgentRun → W → Type 0
Settled limit iterations (ok r) w = IsSettled limit iterations r
Settled limit iterations (raised e) w = ⊥
Settled limit iterations (stopped x) w = Unit

module _ (codec : Codec) {W : Type 0} (host : Host W) (handler : Option (EventHandler W))
    (agent : AutonomousAgent W) (limit iterations : ℕ) where
  loop-Looped :
      (left done : ℕ) (observation : Fields) (s : Session W)
      → done + left ≡ iterations
      → IsOpen limit done s
      → Ends
          (Looped limit iterations)
          (loop codec host handler agent iterations left (suc done) observation s)
  unfolding loop
  loop-Looped zero done observation s e h = (ground arith, inl (λ q. cc))
  loop-Looped (suc left) done observation s e h =
      bind-Ends (After limit (suc done)) (Looped limit iterations) _
        (elim [
          | return_ ↦ λ t h'. (IsLeft-mono limit iterations (suc done) t (omega arith) h'.0, h'.1)
          | observe o ↦ λ t h'. loop-Looped left (suc done) o t (omega arith) h'
        ])
        (λ x t h'. IsLeft-mono limit iterations (suc done) t (omega arith) h')
        (λ x t h'. IsLeft-mono limit iterations (suc done) t (omega arith) h')
        (step codec host handler agent (suc done) observation) s
        (step-After codec host handler agent limit done observation s h)

  run_loop-Looped :
      (s : Session W)
      → IsLeft limit iterations s
      → s.run.status ≡ running
      → s.run.error_text ≡ none
      → s.run.iteration ≡ 0
      → s.run.trace ≡ []
      → s.budget.limit ≡ limit
      → Ends (Looped limit iterations) (run_loop codec host handler agent iterations s)
  unfolding run_loop consume
  run_loop-Looped s h status quiet zeroth empty limited =
      world-bind (Looped limit iterations) (perceive agent s.run.task) _ s
        (λ observation w. loop-Looped iterations 0 observation _ (omega arith) (record {
          status = status;
          quiet = quiet;
          iteration = zeroth;
          traced = rw empty;
          spent = omega (arith, estimate-pos (codec.show (dict observation)));
          affordable = omega arith;
          limited = limited;
        }))
        (λ x w. ground arith) (λ x w. ground arith)

  raised-Settled :
      (seconds : ℤ) (e : Exn) (s : Session W)
      → IsLeft limit iterations s
      → Ends (Settled limit iterations) (settle codec host handler agent seconds (raised e) s)
  unfolding settle
  raised-Settled seconds e s h = elim (Bool-cases (is_timeout_error e.kind)) [
    | inl q ↦ rw q (
        failed-Settled s.run timeout _ _ h.iteration h.traced h.affordable (λ x. cc) (λ x. cc)
          (λ x. cc))
    | inr q ↦ rw q (
        failed-Settled s.run failed _ _ h.iteration h.traced h.affordable (λ x. cc) (λ x. cc)
          (λ x. cc))
  ]

  settle-Settled :
      (seconds : ℤ) (r : Outcome (Unit {0})) (s : Session W)
      → Looped limit iterations r s
      → Ends (Settled limit iterations) (settle codec host handler agent seconds r s)
  unfolding settle is_running
  settle-Settled seconds (ok _) s h =
      returned-Settled s.run s.budget.used h.0.iteration h.0.traced h.0.affordable h.0.not_completed
        h.0.not_cancelled h.1
  settle-Settled seconds (raised e) s h = raised-Settled seconds e s h
  settle-Settled seconds (stopped x) s h = tt

  pub start-Settled :
      (seconds : ℤ) (r : AgentRun) (budget : TokenBudget) (w : W)
      → r.status ≡ running
      → r.error_text ≡ none
      → r.iteration ≡ 0
      → r.trace ≡ []
      → budget.limit ≡ limit
      → Ends
          (Settled limit iterations)
          (start codec host handler agent seconds iterations r (ok budget) w)
  start-Settled seconds r budget w status quiet zeroth empty limited =
      let (o, s) = wait_for run_timer (run_loop codec host handler agent iterations) opened in
      settle-Settled seconds o s (
        wait_for-Ends (Looped limit iterations) (Looped limit iterations) (λ _ t h. h) (λ e t h. h)
          (λ e x t h. h) (λ x t h. h) run_timer (run_loop codec host handler agent iterations)
          opened (run_loop-Looped opened (ground arith) status quiet zeroth empty limited))
    where
      opened : Session W
      opened = session codec host handler agent r budget w
