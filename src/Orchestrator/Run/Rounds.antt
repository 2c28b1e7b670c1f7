-- ===== src/Orchestrator/Run/Rounds.antt =====
-- One iteration of the run loop: what it keeps of the run's record and of the budget.
use ai_agent_hub_project_ome.Base.{
  ℕ, suc, ◌+◌, ◌*◌, ◌≤◌, ◌≡◌, ◌≢◌, ◌⊎◌, inl, inr, refl, ◌<>◌, Option, none, some, true, List, [],
  ◌∷◌, ◌++◌, arith, length, length-append, Bool-cases,
}
use ai_agent_hub_project_ome.Base.Exn.{Outcome, ok, raised, stopped, Exn}
use ai_agent_hub_project_ome.Base.Value.{Value, dict, Fields, get_field, truthy_field, Codec}
use ai_agent_hub_project_ome.Agent.Types.{AgentAction}
use ai_agent_hub_project_ome.Agent.Runtime.{AutonomousAgent, plan, execute, reflect, remember}
use ai_agent_hub_project_ome.Orchestrator.Budget.{
  TokenBudget, consume, can_continue, estimate-pos, consume-used, can_continue-lt,
}
use ai_agent_hub_project_ome.Base.Rules.{Ends, try_except-Ends}
use ai_agent_hub_project_ome.Orchestrator.Run.Rules.{world-bind}
use ai_agent_hub_project_ome.Orchestrator.Run.{
  running, cancelled, completed, timeout, AgentRun, Host, EventHandler, Session, Next, return_,
  observe, attempt, on_error, step, emit, conclude, act, error_event, elapsed_ms,
}

-- The last event of the trace has the run's result, and a reflection that says "done".
pub record IsDone (run : AgentRun) : Type 0 where
  pub before : List Fields
  pub event : Fields
  pub reflection : Fields
  pub traced : run.trace ≡ before ++ event ∷ []
  pub reflected : get_field "reflection" event ≡ some (dict reflection)
  pub done : truthy_field "done" reflection ≡ true
  pub result : get_field "result" event ≡ some run.result
  pub quiet : run.error_text ≡ none

module _ {W : Type 0} where
  -- The session between two iterations, `done` of which are over.
  pub record IsOpen (limit done : ℕ) (s : Session W) : Type 0 where
    pub status : s.run.status ≡ running
    pub quiet : s.run.error_text ≡ none
    pub iteration : s.run.iteration ≡ done
    pub traced : length s.run.trace ≡ done
    pub spent : 3 * done + 1 ≤ s.budget.used
    pub affordable : 3 * done ≤ limit + 1
    pub limited : s.budget.limit ≡ limit

  -- The session inside iteration `index`, with its event recorded or not.
  pub record IsTried (limit index : ℕ) (s : Session W) : Type 0 where
    pub status : s.run.status ≡ running
    pub iteration : s.run.iteration ≡ index
    pub traced : length s.run.trace ≤ index
    pub affordable : 3 * index ≤ limit + 1
    pub limited : s.budget.limit ≡ limit

  -- The session after the event of iteration `index` is appended.
  pub record IsRecorded (limit index : ℕ) (result : Value) (reflection : Fields) (s : Session W)
      : Type 0 where
    pub tried : IsTried limit index s
    pub quiet : s.run.error_text ≡ none
    pub spent : 3 * index + 1 ≤ s.budget.used
    pub before : List Fields
    pub event : Fields
    pub appended : s.run.trace ≡ before ++ event ∷ []
    pub counted : length s.run.trace ≡ index
    pub reflected : get_field "reflection" event ≡ some (dict reflection)
    pub resulted : get_field "result" event ≡ some result

  -- The session however the loop is left, in its iteration `index` or before it.
  pub record IsLeft (limit index : ℕ) (s : Session W) : Type 0 where
    pub iteration : s.run.iteration ≤ index
    pub traced : length s.run.trace ≤ s.run.iteration + 1
    pub affordable : 3 * s.run.iteration ≤ limit + 1
    pub not_completed : s.run.status ≢ completed
    pub not_cancelled : s.run.status ≢ cancelled
    pub not_timeout : s.run.status ≢ timeout

  IsTried→IsLeft : {limit index : ℕ} (s : Session W) → IsTried limit index s → IsLeft limit index s
  IsTried→IsLeft s h = ground arith

  abbrev pub Returned : ℕ → ℕ → Session W → Type 0
  Returned limit index s = IsLeft limit index s × ((s.run.status ≢ running) ⊎ IsDone s.run)

  abbrev pub After : ℕ → ℕ → Outcome Next → Session W → Type 0
  After limit index (ok return_) s = Returned limit index s
  After limit index (ok (observe o)) s = IsOpen limit index s
  After limit index (raised e) s = IsLeft limit index s
  After limit index (stopped x) s = IsLeft limit index s

  -- The same for the `try` block.
  abbrev pub Tried : ℕ → ℕ → Outcome Next → Session W → Type 0
  Tried limit index (raised e) s = IsTried limit index s
  Tried limit index (ok next) s = After limit index (ok next) s
  Tried limit index (stopped x) s = IsLeft limit index s

module _ (codec : Codec) {W : Type 0} (host : Host W) (handler : Option (EventHandler W))
    (agent : AutonomousAgent W) (limit done : ℕ) where
  abbrev index : ℕ
  index = suc done

  finished-Returned :
      (result : Value) (reflection : Fields) (s : Session W) (w : W)
      → IsRecorded limit index result reflection s
      → truthy_field "done" reflection ≡ true
      → Returned limit index (record s { run = record s.run { result = result }; world = w })
  finished-Returned result reflection s w h e = (
    ground arith,
    inr (record {
      before = h.before;
      event = h.event;
      reflection = reflection;
      traced = h.appended;
      reflected = h.reflected;
      done = e;
      result = h.resulted;
      quiet = h.quiet;
    }),
  )

  -- The event is appended, and the budget and the world go on.
  IsTried-append :
      (s : Session W) (event : Fields) (budget : TokenBudget) (w : W)
      → IsTried limit index s
      → length s.run.trace ≡ done
      → budget.limit ≡ limit
      → IsTried limit index (record s {
        run = record s.run { trace = s.run.trace ++ event ∷ [] };
        budget = budget;
        world = w;
      })
  IsTried-append s event budget w h traced limited =
      ground (arith, length-append s.run.trace (event ∷ []))

  conclude-Tried :
      (action : AgentAction) (result : Value) (reflection : Fields) (s : Session W)
      → IsRecorded limit index result reflection s
      → Ends (Tried limit index) (conclude codec host handler agent action result reflection s)
  conclude-Tried action result reflection s h = elim (Bool-cases (truthy_field "done" reflection)) [
    | inl e ↦ rw e (
        world-bind (Tried limit index) (remember agent _ _) _
          (record s { run = record s.run { result = result } })
          (λ _ w. finished-Returned result reflection s w h e) (λ x w. ground arith)
          (λ x w. ground arith))
    | inr e ↦ rw e (ground arith)
  ]

  act-Tried :
      (started : ℕ) (observation : Fields) (action : AgentAction) (s : Session W)
      → IsTried limit index s
      → s.run.error_text ≡ none
      → length s.run.trace ≡ done
      → 3 * done + 2 ≤ s.budget.used
      → Ends (Tried limit index) (act codec host handler agent index started observation action s)
  unfolding consume get_field
  act-Tried started observation action s h quiet traced spent =
      world-bind (Tried limit index) (execute agent action) _ s
        (λ result w.
          world-bind (Tried limit index) (reflect codec agent observation action result) _
            (record s { world = w; budget = consume (codec.show result) s.budget })
            (λ reflection w'.
              world-bind (Tried limit index) (emit handler _) _ _
                (λ _ w''. conclude-Tried action result reflection _ (record {
                  tried = IsTried-append s _ _ _ h traced h.limited;
                  quiet = quiet;
                  spent = omega (
                    arith,
                    estimate-pos (codec.show result),
                    estimate-pos (codec.show (dict reflection)),
                  );
                  before = s.run.trace;
                  event = _;
                  appended = refl;
                  counted = omega (arith, length-append s.run.trace);
                  reflected = refl;
                  resulted = refl;
                }))
                (λ e w''. IsTried-append s _ _ _ h traced h.limited)
                (λ x w''. IsTried→IsLeft _ (IsTried-append s _ _ _ h traced h.limited)))
            (λ e w'. ground arith) (λ x w'. ground arith))
        (λ e w. ground arith) (λ x w. ground arith)

  attempt-Tried :
      (started : ℕ) (observation : Fields) (s : Session W)
      → IsTried limit index s
      → s.run.error_text ≡ none
      → length s.run.trace ≡ done
      → 3 * done + 1 ≤ s.budget.used
      → Ends (Tried limit index) (attempt codec host handler agent index started observation s)
  unfolding attempt consume
  attempt-Tried started observation s h quiet traced spent =
      world-bind (Tried limit index) (plan codec agent observation) _ s
        (λ action w.
          elim (Bool-cases (
            can_continue (consume (action.rationale <> codec.show (dict action.arguments)) s.budget)
              1)) [
                | inl e ↦ rw e (
                    act-Tried started observation action _ (ground arith) quiet traced (
                      omega (
                        arith,
                        consume-used (action.rationale <> codec.show (dict action.arguments))
                            s.budget,
                      )))
                | inr e ↦ rw e (ground arith)
              ])
        (λ e w. ground arith) (λ x w. ground arith)

  -- A second event, of the exception, is the last one.
  on_error-After :
      (started : ℕ) (e : Exn) (s : Session W)
      → IsTried limit index s
      → Ends (After limit index) (on_error codec host handler agent index started e s)
  unfolding on_error
  on_error-After started e s h =
      world-bind (After limit index) (emit handler _) _ _
        (λ _ w. (ground (arith, more), inl (λ q. cc))) (λ x w. ground (arith, more))
        (λ x w. ground (arith, more))
    where
      event : Fields
      event = error_event s.run index s.action e (elapsed_ms started (host.perf_counter s.world).0)

      more : length (s.run.trace ++ event ∷ []) ≡ length s.run.trace + 1
      more = length-append s.run.trace (event ∷ [])

  pub step-After :
      (observation : Fields) (s : Session W)
      → IsOpen limit done s
      → Ends (After limit index) (step codec host handler agent index observation s)
  unfolding step
  step-After observation s h = elim (Bool-cases (can_continue s.budget 1)) [
    | inl e ↦
        let (started, w) = host.perf_counter s.world in
        let s' : Session W = record s {
          run = record s.run { iteration = index };
          action = none;
          world = w;
        } in
        rw e (
          try_except-Ends (Tried limit index) (After limit index)
            (on_error codec host handler agent index started) (λ next t h'. h')
            (λ x t h'. on_error-After started x t h') (λ x t h'. h')
            (attempt codec host handler agent index started observation) s'
            (attempt-Tried started observation s' (ground (arith, can_continue-lt s.budget e))
              h.quiet h.traced h.spent))
    | inr e ↦ rw e (ground arith, inl (λ q. cc))
  ]
