-- ===== src/StateGraph/Steps.antt =====
-- The bound on steps, and termination of the loop.
use ai_agent_hub_project_ome.Base.{
  ℕ, zero, suc, ◌-◌, ◌≤◌, ◌<◌, ◌≡◌, ◌≢◌, inl, inr, refl, ap, ◌∙◌, String, ◌==◌, Option, none, some,
  Bool, arith, leb, Bool-cases, Option-cases,
}
use ai_agent_hub_project_ome.Base.Dict.{lookup, has}
use ai_agent_hub_project_ome.Base.Exn.{Outcome, ok, raised, stopped}
use ai_agent_hub_project_ome.Base.Value.{Fields}
use ai_agent_hub_project_ome.Base.Rules.{Ends, bind-Ends}
use ai_agent_hub_project_ome.StateGraph.{
  GraphState, Frame, GraphNode, StateGraph, Finish, out_of_fuel, gate, merge_result, round, loop,
  run, run_node, enter,
}

module _ {W : Type 0} (g : StateGraph W) (stop : Option (GraphState → Bool)) where
  gate-state :
      (current : String) (node : GraphNode W) (s : Frame W)
      → (gate g stop current node s).1.state ≡ s.state
  unfolding gate
  gate-state current node s = ground arith

  -- Handlers do not write to the step counter that they are given.
  abbrev pub LeavesSteps : Type 0
  LeavesSteps =
      (name : String) (node : GraphNode W) (s : Frame W)
      → lookup name g.nodes ≡ some node
      → (node.handler s).1.state.steps ≡ s.state.steps

  -- A round that goes on, or is broken off by `break`, has counted one step below the bound.
  abbrev pub Counted : ℕ → Outcome (Option String) → Frame W → Type 0
  Counted n (ok next) s = (s.state.steps ≡ suc n) × (suc n ≤ g.max_steps)
  Counted n (raised e) s = s.state.steps ≤ g.max_steps
  Counted n (stopped x) s = s.state.steps ≤ g.max_steps

module _ {W : Type 0} (g : StateGraph W) (stop : Option (GraphState → Bool))
    (leaves : LeavesSteps g stop) where
  run_node-Counted :
      (current : String) (node : GraphNode W) (n : ℕ) (s : Frame W)
      → lookup current g.nodes ≡ some node
      → s.state.steps ≡ n
      → suc n ≤ g.max_steps
      → Ends (Counted g stop n) (run_node g stop current (some node) s)
  run_node-Counted current node n s found e below =
      bind-Ends (λ r t. t.state ≡ enter current s.state) (Counted g stop n) _
        (λ _ t same.
          let counted : t.state.steps ≡ suc n =
            ap (λ (x : GraphState). x.steps) same ∙ (omega arith) in
          bind-Ends (λ r u. u.state.steps ≡ suc n) (Counted g stop n) _
            (λ result u q. (merged result u q, below)) (λ x u q. omega arith) (λ x u q. omega arith)
            node.handler t (leaves current node t found ∙ counted))
        (λ x t same. below_bound t same) (λ x t same. below_bound t same) (gate g stop current node)
        (record s { state = enter current s.state }) (gate-state g stop current node _)
    where
      merged :
          (result : Option Fields) (u : Frame W)
          → u.state.steps ≡ suc n
          → (merge_result result u.state).steps ≡ suc n
      merged none u q = q
      merged (some fields) u q = q

      below_bound : (t : Frame W) → t.state ≡ enter current s.state → t.state.steps ≤ g.max_steps
      below_bound t same = omega (arith, ap (λ (x : GraphState). x.steps) same)

  round-Counted :
      (current : String) (s : Frame W)
      → s.state.steps ≤ g.max_steps
      → Ends (Counted g stop s.state.steps) (round g stop current s)
  unfolding round
  round-Counted current s below = elim (Bool-cases (leb g.max_steps s.state.steps)) [
    | inl e ↦ rw e below
    | inr e ↦ rw e (elim (Option-cases (lookup current g.nodes)) [
      | inl n ↦ rw n below
      | inr (node, n) ↦ rw n (run_node-Counted current node s.state.steps s n refl (ground arith))
    ])
  ]

  -- With more fuel than there are steps left, the loop does not run out of it, and it ends within
  -- the bound.
  Bounded : Outcome Finish → Frame W → Type 0
  Bounded r s = (r ≢ ok out_of_fuel) × (s.state.steps ≤ g.max_steps)

  loop-Bounded :
      (next : Option String) (fuel : ℕ) (s : Frame W)
      → s.state.steps ≤ g.max_steps
      → g.max_steps - s.state.steps < fuel
      → Ends Bounded (loop g stop next fuel s)
  unfolding loop Bounded
  loop-Bounded none fuel s below enough = ((λ q. cc), below)
  loop-Bounded (some current) zero s below enough = absurd (omega arith)
  loop-Bounded (some current) (suc fuel) s below enough = elim (Bool-cases (current == "")) [
    | inl e ↦ rw e ((λ q. cc), below)
    | inr e ↦ rw e (
        bind-Ends (Counted g stop s.state.steps) Bounded (λ next. loop g stop next fuel)
          (λ next t h. loop-Bounded next fuel t (omega arith) (omega arith))
          (λ x t h. ((λ q. cc), h)) (λ x t h. ((λ q. cc), h)) (round g stop current) s
          (round-Counted current s below))
  ]

  -- Where no handler writes to the step counter that it is given, from a state within the bound,
  -- `run` ends whatever else the handlers do and whatever the approval answers: the model's fuel is
  -- never used up. It ends within the bound on steps, also by an exception.
  pub run-Bounded :
      (start : String) (s : Frame W)
      → s.state.steps ≤ g.max_steps
      → ((run g stop start s).0 ≢ ok out_of_fuel)
        × ((run g stop start s).1.state.steps ≤ g.max_steps)
  unfolding run Bounded
  run-Bounded start s below = elim (Bool-cases (has start g.nodes)) [
    | inr e ↦ rw e ((λ q. cc), below)
    | inl e ↦ rw e (
        bind-Ends Bounded Bounded _ (λ how t h. h) (λ x t h. h) (λ x t h. h)
          (loop g stop (some start) (suc (g.max_steps - s.state.steps))) s
          (loop-Bounded (some start) (suc (g.max_steps - s.state.steps)) s below (omega arith)))
  ]
