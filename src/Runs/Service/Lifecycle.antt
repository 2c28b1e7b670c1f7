-- ===== src/Runs/Service/Lifecycle.antt =====
-- What one turn of a task does to the run's state in the repository.
use ai_agent_hub_project_ome.Base.{
  ℕ, ◌≤◌, ◌≡◌, ◌≢◌, ◌⊎◌, inl, inr, refl, sym, ap, ◌∙◌, subst, String, Option, none, some, Bool,
  true, false, arith,
}
use ai_agent_hub_project_ome.Base.Dict.{lookup}
use ai_agent_hub_project_ome.Runs.Models.{
  RunState, queued, running, completed, failed, cancelled, RunCommand, RunSnapshot,
}
use ai_agent_hub_project_ome.Runs.Service.{
  returned, died, dropped, Phase, pending, announcing_start, awaiting_run, announcing_result,
  announcing_failure, announcing_cancel, over, Happening, begins, cancels, sink_returns,
  sink_raises, run_returns, run_raises, saved, advance, Job, Hub, snapshot, failure_snapshot,
  result_snapshot,
}

-- Queued, then running, then final.
abbrev pub rank : RunState → ℕ
rank queued = 0
rank running = 1
rank _ = 2

abbrev pub is_final : RunState → Bool
is_final queued = false
is_final running = false
is_final _ = true

-- The runner comes back with final states only.
abbrev pub Plausible : Happening → Type 0
Plausible (run_returns s) = is_final s.state ≡ true
Plausible _ = Unit

-- The states that a run may have in the repository while its task is in a phase.
abbrev pub Shows : Phase → RunState → Type 0
Shows pending state = state ≡ queued
Shows announcing_start state = state ≡ running
Shows awaiting_run state = state ≡ running
Shows announcing_result state = is_final state ≡ true
Shows announcing_failure state = state ≡ failed
Shows announcing_cancel state = state ≡ cancelled
Shows (over returned) state = is_final state ≡ true
Shows (over (died e)) state = state ≢ queued
Shows (over dropped) state = Unit

-- Only a service with a sink awaits it.
abbrev pub Allowed : Bool → Phase → Type 0
Allowed has_sink announcing_start = has_sink ≡ true
Allowed has_sink announcing_result = has_sink ≡ true
Allowed has_sink announcing_failure = has_sink ≡ true
Allowed has_sink announcing_cancel = has_sink ≡ true
Allowed has_sink _ = Unit

-- A run has a task and a snapshot of its own identifier and command, or neither.
abbrev pub Agreed : Bool → String → Option Job → Option RunSnapshot → Type 0
Agreed has_sink run_id none none = Unit
Agreed has_sink run_id (some job) (some s) =
    (s.run_id ≡ run_id)
    × (s.command ≡ job.command)
    × Shows job.phase s.state
    × Allowed has_sink job.phase
Agreed has_sink run_id _ _ = ⊥

abbrev pub IsAgreed : Bool → Hub → Type 0
IsAgreed has_sink h =
    (run_id : String) → Agreed has_sink run_id (lookup run_id h.jobs) (lookup run_id h.repository)

-- A state in the repository gives way to a later one; a final one only where a sink is told of it,
-- and only to a failure or a cancellation.
abbrev pub GivesWay : Bool → RunState → RunState → Type 0
GivesWay has_sink old new =
    (rank old ≤ rank new)
    × (is_final old ≡ true → (has_sink ≡ true) × ((new ≡ failed) ⊎ (new ≡ cancelled)))

-- What is written is of the run itself; where nothing is written, what shows stays right.
abbrev pub Kept : Bool → String → RunCommand → Phase → Phase × Option RunSnapshot → Type 0
Kept has_sink run_id command phase (next, none) =
    Allowed has_sink next × ((state : RunState) → Shows phase state → Shows next state)
Kept has_sink run_id command phase (next, some s) =
    Allowed has_sink next
    × ((s.run_id ≡ run_id) × (s.command ≡ command))
    × Shows next s.state
    × ((old : RunState) → Allowed has_sink phase → Shows phase old → GivesWay has_sink old s.state)

abbrev pub KeptAll :
    Bool → String → RunCommand → Phase → Option (Phase × Option RunSnapshot) → Type 0
KeptAll has_sink run_id command phase none = Unit
KeptAll has_sink run_id command phase (some next) = Kept has_sink run_id command phase next

rank_le : (state : RunState) → rank state ≤ 2
rank_le queued = omega arith
rank_le running = omega arith
rank_le completed = omega arith
rank_le failed = omega arith
rank_le cancelled = omega arith

rank_final : (state : RunState) → is_final state ≡ true → 1 ≤ rank state
rank_final queued h = absurd (cc)
rank_final running h = omega arith
rank_final completed h = omega arith
rank_final failed h = omega arith
rank_final cancelled h = omega arith

-- A state that is not final gives way to any that is not earlier.
early :
    {has_sink : Bool} (a new old : RunState)
    → old ≡ a
    → is_final a ≡ false
    → rank a ≤ rank new
    → GivesWay has_sink old new
early a new old e f le = (subst (λ x. rank x ≤ rank new) (sym e) le, λ g. absurd (cc))

Allowed-true : (phase : Phase) → Allowed true phase
Allowed-true pending = tt
Allowed-true announcing_start = refl
Allowed-true awaiting_run = tt
Allowed-true announcing_result = refl
Allowed-true announcing_failure = refl
Allowed-true announcing_cancel = refl
Allowed-true (over e) = tt

saved-Kept :
    (has_sink : Bool) (run_id : String) (command : RunCommand) (phase : Phase) (s : RunSnapshot)
    (at_sink after : Phase)
    → (s.run_id ≡ run_id) × (s.command ≡ command)
    → Shows at_sink s.state × Shows after s.state
    → Allowed false after
    → ((old : RunState) → Allowed has_sink phase → Shows phase old → GivesWay has_sink old s.state)
    → KeptAll has_sink run_id command phase (saved has_sink s at_sink after)
saved-Kept true i c phase s at_sink after p (q, r) a g = (Allowed-true at_sink, p, q, g)
saved-Kept false i c phase s at_sink after p (q, r) a g = (a, p, r, g)

unlike : (a b : RunState) (state : RunState) → a ≢ b → state ≡ a → state ≢ b
unlike a b state d q e = d (sym q ∙ e)

pub advance-Kept :
    (has_sink : Bool) (run_id : String) (command : RunCommand) (phase : Phase) (x : Happening)
    → Plausible x
    → KeptAll has_sink run_id command phase (advance has_sink run_id command phase x)
unfolding advance
advance-Kept b i c pending begins h =
    saved-Kept b i c pending (snapshot i c running) announcing_start awaiting_run (refl, refl)
      (refl, refl) tt (λ old k q. early queued running old q refl (omega arith))
advance-Kept b i c pending cancels h = (tt, λ state q. tt)
advance-Kept b i c pending sink_returns h = tt
advance-Kept b i c pending (sink_raises e) h = tt
advance-Kept b i c pending (run_returns s) h = tt
advance-Kept b i c pending (run_raises e) h = tt
advance-Kept b i c announcing_start begins h = tt
advance-Kept b i c announcing_start cancels h = (tt, λ state q. tt)
advance-Kept b i c announcing_start sink_returns h = (tt, λ state q. q)
advance-Kept b i c announcing_start (sink_raises e) h =
    (tt, λ state q. unlike running queued state (λ d. absurd (cc)) q)
advance-Kept b i c announcing_start (run_returns s) h = tt
advance-Kept b i c announcing_start (run_raises e) h = tt
advance-Kept b i c awaiting_run begins h = tt
advance-Kept b i c awaiting_run cancels h =
    saved-Kept b i c awaiting_run (snapshot i c cancelled) announcing_cancel (over dropped)
      (refl, refl) (refl, tt) tt (λ old k q. early running cancelled old q refl (omega arith))
advance-Kept b i c awaiting_run sink_returns h = tt
advance-Kept b i c awaiting_run (sink_raises e) h = tt
advance-Kept b i c awaiting_run (run_returns s) h =
    saved-Kept b i c awaiting_run (result_snapshot i c s) announcing_result (over returned)
      (refl, refl) (h, h) tt (λ old k q. early running s.state old q refl (rank_final s.state h))
advance-Kept b i c awaiting_run (run_raises e) h =
    saved-Kept b i c awaiting_run (failure_snapshot i c e) announcing_failure (over returned)
      (refl, refl) (refl, refl) tt (λ old k q. early running failed old q refl (omega arith))
advance-Kept b i c announcing_result begins h = tt
advance-Kept b i c announcing_result cancels h =
    saved-Kept b i c announcing_result (snapshot i c cancelled) announcing_cancel (over dropped)
      (refl, refl) (refl, tt) tt (λ old k q. (rank_le old, λ _. (k, inr refl)))
advance-Kept b i c announcing_result sink_returns h = (tt, λ state q. q)
advance-Kept b i c announcing_result (sink_raises e) h =
    saved-Kept b i c announcing_result (failure_snapshot i c e) announcing_failure (over returned)
      (refl, refl) (refl, refl) tt (λ old k q. (rank_le old, λ _. (k, inl refl)))
advance-Kept b i c announcing_result (run_returns s) h = tt
advance-Kept b i c announcing_result (run_raises e) h = tt
advance-Kept b i c announcing_failure begins h = tt
advance-Kept b i c announcing_failure cancels h = (tt, λ state q. tt)
advance-Kept b i c announcing_failure sink_returns h = (tt, λ state q. ap is_final q)
advance-Kept b i c announcing_failure (sink_raises e) h =
    (tt, λ state q. unlike failed queued state (λ d. absurd (cc)) q)
advance-Kept b i c announcing_failure (run_returns s) h = tt
advance-Kept b i c announcing_failure (run_raises e) h = tt
advance-Kept b i c announcing_cancel begins h = tt
advance-Kept b i c announcing_cancel cancels h = (tt, λ state q. tt)
advance-Kept b i c announcing_cancel sink_returns h = (tt, λ state q. tt)
advance-Kept b i c announcing_cancel (sink_raises e) h =
    (tt, λ state q. unlike cancelled queued state (λ d. absurd (cc)) q)
advance-Kept b i c announcing_cancel (run_returns s) h = tt
advance-Kept b i c announcing_cancel (run_raises e) h = tt
advance-Kept b i c (over ending) x h = tt
