-- ===== src/Runs/Service/Turns.antt =====
-- How often the tasks can go on.
use ai_agent_hub_project_ome.Base.{
  ℕ, suc, ◌+◌, ◌*◌, ◌≤◌, ◌<◌, ◌≡◌, inl, inr, refl, subst, String, ◌==◌, Option, none, some, Bool,
  true, false, [], ◌∷◌, arith, Bool-cases,
}
use ai_agent_hub_project_ome.Base.Dict.{Dict, lookup, insert}
use ai_agent_hub_project_ome.Runs.Models.{RunCommand, RunSnapshot, running, cancelled}
use ai_agent_hub_project_ome.Runs.Service.{
  returned, dropped, Phase, pending, announcing_start, awaiting_run, announcing_result,
  announcing_failure, announcing_cancel, over, Happening, begins, cancels, sink_returns,
  sink_raises, run_returns, run_raises, saved, advance, Job, Hub, empty_hub, submit, proceed,
  snapshot, failure_snapshot, result_snapshot,
}
use ai_agent_hub_project_ome.Runs.Service.History.{submitted, proceeded, Steps, done, then_}

-- How many turns a task has left at most.
abbrev pub turns_left : Phase → ℕ
turns_left pending = 5
turns_left announcing_start = 4
turns_left awaiting_run = 3
turns_left announcing_result = 2
turns_left announcing_failure = 1
turns_left announcing_cancel = 1
turns_left (over ending) = 0

abbrev LessAll : Phase → Option (Phase × Option RunSnapshot) → Type 0
LessAll phase none = Unit
LessAll phase (some next) = turns_left next.0 < turns_left phase

saved-Less :
    (has_sink : Bool) (phase : Phase) (s : RunSnapshot) (at_sink after : Phase)
    → turns_left at_sink < turns_left phase
    → turns_left after < turns_left phase
    → LessAll phase (saved has_sink s at_sink after)
saved-Less true phase s at_sink after p q = p
saved-Less false phase s at_sink after p q = q

advance-Less :
    (has_sink : Bool) (run_id : String) (command : RunCommand) (phase : Phase) (x : Happening)
    → LessAll phase (advance has_sink run_id command phase x)
unfolding advance
advance-Less b i c pending begins =
    saved-Less b pending (snapshot i c running) announcing_start awaiting_run (omega arith)
      (omega arith)
advance-Less b i c pending cancels = omega arith
advance-Less b i c pending sink_returns = tt
advance-Less b i c pending (sink_raises e) = tt
advance-Less b i c pending (run_returns s) = tt
advance-Less b i c pending (run_raises e) = tt
advance-Less b i c announcing_start begins = tt
advance-Less b i c announcing_start cancels = omega arith
advance-Less b i c announcing_start sink_returns = omega arith
advance-Less b i c announcing_start (sink_raises e) = omega arith
advance-Less b i c announcing_start (run_returns s) = tt
advance-Less b i c announcing_start (run_raises e) = tt
advance-Less b i c awaiting_run begins = tt
advance-Less b i c awaiting_run cancels =
    saved-Less b awaiting_run (snapshot i c cancelled) announcing_cancel (over dropped)
      (omega arith) (omega arith)
advance-Less b i c awaiting_run sink_returns = tt
advance-Less b i c awaiting_run (sink_raises e) = tt
advance-Less b i c awaiting_run (run_returns s) =
    saved-Less b awaiting_run (result_snapshot i c s) announcing_result (over returned)
      (omega arith) (omega arith)
advance-Less b i c awaiting_run (run_raises e) =
    saved-Less b awaiting_run (failure_snapshot i c e) announcing_failure (over returned)
      (omega arith) (omega arith)
advance-Less b i c announcing_result begins = tt
advance-Less b i c announcing_result cancels =
    saved-Less b announcing_result (snapshot i c cancelled) announcing_cancel (over dropped)
      (omega arith) (omega arith)
advance-Less b i c announcing_result sink_returns = omega arith
advance-Less b i c announcing_result (sink_raises e) =
    saved-Less b announcing_result (failure_snapshot i c e) announcing_failure (over returned)
      (omega arith) (omega arith)
advance-Less b i c announcing_result (run_returns s) = tt
advance-Less b i c announcing_result (run_raises e) = tt
advance-Less b i c announcing_failure begins = tt
advance-Less b i c announcing_failure cancels = omega arith
advance-Less b i c announcing_failure sink_returns = omega arith
advance-Less b i c announcing_failure (sink_raises e) = omega arith
advance-Less b i c announcing_failure (run_returns s) = tt
advance-Less b i c announcing_failure (run_raises e) = tt
advance-Less b i c announcing_cancel begins = tt
advance-Less b i c announcing_cancel cancels = omega arith
advance-Less b i c announcing_cancel sink_returns = omega arith
advance-Less b i c announcing_cancel (sink_raises e) = omega arith
advance-Less b i c announcing_cancel (run_returns s) = tt
advance-Less b i c announcing_cancel (run_raises e) = tt
advance-Less b i c (over ending) x = tt

abbrev all_left : Dict Job → ℕ
all_left [] = 0
all_left ((run_id, job) ∷ jobs) = turns_left job.phase + all_left jobs

abbrev left_of : Option Job → ℕ
left_of none = 0
left_of (some job) = turns_left job.phase

all_left-insert :
    (run_id : String) (job : Job) (jobs : Dict Job)
    → all_left (insert run_id job jobs) + left_of (lookup run_id jobs)
      ≡ all_left jobs + turns_left job.phase
unfolding insert lookup
all_left-insert i job [] = omega arith
all_left-insert i job ((j, other) ∷ jobs) = elim (Bool-cases (j == i)) [
  | inl e ↦ rw e (omega arith)
  | inr e ↦ rw e (omega (arith, all_left-insert i job jobs))
]

module _ {has_sink : Bool} where
  -- How many runs are submitted in a row of steps, and how many turns the tasks take.
  pub submissions : {h k : Hub} → Steps has_sink h k → ℕ
  submissions done = 0
  submissions (then_ steps (submitted run_id command fresh)) = suc (submissions steps)
  submissions (then_ steps (proceeded run_id job x next found plausible turn)) = submissions steps

  pub turns : {h k : Hub} → Steps has_sink h k → ℕ
  turns done = 0
  turns (then_ steps (submitted run_id command fresh)) = turns steps
  turns (then_ steps (proceeded run_id job x next found plausible turn)) = suc (turns steps)

  turns-all_left :
      {k : Hub} (steps : Steps has_sink empty_hub k)
      → turns steps + all_left k.jobs ≤ 5 * submissions steps
  unfolding turns submissions submit proceed
  turns-all_left done = omega arith
  turns-all_left (then_ {h = h} steps (submitted run_id command fresh)) =
      let new : Job = record { command = command; phase = pending } in
      let sum = all_left-insert run_id new h.jobs in
      let none_ : left_of (lookup run_id h.jobs) ≡ 0 = rw fresh refl in
      let before = turns-all_left steps in omega arith
  turns-all_left (then_ {h = h} steps (proceeded run_id job x next found plausible turn)) =
      let new : Job = record { command = job.command; phase = next.0 } in
      let sum = all_left-insert run_id new h.jobs in
      let was : left_of (lookup run_id h.jobs) ≡ turns_left job.phase = rw found refl in
      let less : turns_left next.0 < turns_left job.phase =
        subst (LessAll job.phase) turn (advance-Less has_sink run_id job.command job.phase x) in
      let before = turns-all_left steps in omega arith

  -- In any interleaving the tasks take no more than five turns for each run that is submitted: no
  -- task goes on for ever.
  pub turns-bounded :
      {k : Hub} (steps : Steps has_sink empty_hub k) → turns steps ≤ 5 * submissions steps
  turns-bounded steps = let bound = turns-all_left steps in omega arith
