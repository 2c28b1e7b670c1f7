-- ===== src/Orchestrator/Run/Outcomes.antt =====
-- What a run comes back with, on every path: bounds, the final status, and what "completed" means.
use ai_agent_hub_project_ome.Base.{
  ℕ, ◌+◌, ◌*◌, ◌≤◌, ◌≡◌, ◌≢◌, refl, subst, String, Option, false, length,
}
use ai_agent_hub_project_ome.Base.Str.{is_blank}
use ai_agent_hub_project_ome.Base.Int.{ℤ, pos_part, ltb_ℤ, leb_ℤ}
use ai_agent_hub_project_ome.Base.Exn.{ok, raised, Exn}
use ai_agent_hub_project_ome.Base.Value.{Codec}
use ai_agent_hub_project_ome.Agent.Types.{AgentConfig}
use ai_agent_hub_project_ome.Agent.Runtime.{AutonomousAgent}
use ai_agent_hub_project_ome.Base.Rules.{Ends}
use ai_agent_hub_project_ome.Orchestrator.Run.Rounds.{IsDone}
use ai_agent_hub_project_ome.Orchestrator.Run.{
  running, completed, cancelled, AgentRun, Host, EventHandler, run, or_default,
}
use ai_agent_hub_project_ome.Orchestrator.Run.Settling.{IsSettled, Settled, start-Settled}

-- Both budgets and the timeout are positive, and the task has text.
pub record IsRequest (agent : AgentConfig) (task : String)
    (max_iterations timeout_seconds token_budget : Option ℤ) : Type 0 where
  pub text : is_blank task ≡ false
  pub iterations : ltb_ℤ (or_default max_iterations agent.max_iterations) 1 ≡ false
  pub seconds : leb_ℤ (or_default timeout_seconds agent.timeout_seconds) 0 ≡ false
  pub tokens : ltb_ℤ (or_default token_budget agent.token_budget) 1 ≡ false

module _ (codec : Codec) {W : Type 0} (host : Host W) (handler : Option (EventHandler W))
    (agent : AutonomousAgent W) (task : String) (mi ts tb : Option ℤ) (w : W)
    (valid : IsRequest agent.config task mi ts tb) where
  abbrev limit : ℕ
  limit = pos_part (or_default tb agent.config.token_budget)

  abbrev rounds : ℕ
  rounds = pos_part (or_default mi agent.config.max_iterations)

  run-Settled : Ends (Settled limit rounds) (run codec host handler agent task mi ts tb w)
  unfolding run
  run-Settled =
      rw (valid.text, valid.iterations, valid.seconds, valid.tokens)
        (start-Settled codec host handler agent limit rounds
          (or_default ts agent.config.timeout_seconds) _ _ (host.uuid4 w).1 refl refl refl refl
          refl)

  -- A run that comes back has used no more iterations than it was given, at most one trace event
  -- more than iterations, and iterations that its token budget pays for: each one costs at least
  -- three tokens, and none begins when the budget is used up.
  pub run-bounded :
      (r : AgentRun) (w' : W)
      → run codec host handler agent task mi ts tb w ≡ (ok r, w')
      → (r.iteration ≤ rounds) × (length r.trace ≤ r.iteration + 1) × (3 * r.iteration ≤ limit + 1)
  run-bounded r w' e =
      let h : IsSettled limit rounds r = subst (Ends (Settled limit rounds)) e run-Settled in
      (h.iteration, h.traced, h.affordable)

  -- The status that a run comes back with is one of the four final ones.
  pub run-final :
      (r : AgentRun) (w' : W)
      → run codec host handler agent task mi ts tb w ≡ (ok r, w')
      → (r.status ≢ running) × (r.status ≢ cancelled)
  run-final r w' e =
      let h : IsSettled limit rounds r = subst (Ends (Settled limit rounds)) e run-Settled in
      (h.not_running, h.not_cancelled)

  -- A run that comes back as completed has no error, and the last event of its trace holds the
  -- run's result and a reflection whose "done" is true.
  pub run-completed :
      (r : AgentRun) (w' : W)
      → run codec host handler agent task mi ts tb w ≡ (ok r, w')
      → r.status ≡ completed
      → IsDone r
  run-completed r w' e q =
      let h : IsSettled limit rounds r = subst (Ends (Settled limit rounds)) e run-Settled in
      h.completed_done q

  -- With valid arguments a run never raises: whatever a port or the event handler raises, it
  -- comes back with a record, unless its task is stopped.
  pub run-total : (e : Exn) (w' : W) → run codec host handler agent task mi ts tb w ≢ (raised e, w')
  run-total e w' q = subst (Ends (Settled limit rounds)) q run-Settled
