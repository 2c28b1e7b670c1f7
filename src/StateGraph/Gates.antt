-- ===== src/StateGraph/Gates.antt =====
-- The approval gate of a sensitive node.
use ai_agent_hub_project_ome.Base.{
  ℕ, zero, suc, ◌-◌, ◌≡◌, ◌≢◌, ◌⊎◌, inl, inr, refl, String, ◌==◌, Option, none, some, Bool, true,
  false, arith, leb, Bool-cases, Option-cases,
}
use ai_agent_hub_project_ome.Base.Dict.{lookup, has}
use ai_agent_hub_project_ome.Base.Exn.{Outcome, ok, Exec}
use ai_agent_hub_project_ome.Base.Rules.{Ends, bind-Ends}
use ai_agent_hub_project_ome.StateGraph.{
  GraphState, ApprovalRequest, Frame, GraphNode, StateGraph, gate, round, loop, run, run_node,
  enter, ask, on_world,
}

-- `P` is kept by every handler that is not sensitive and by the approval handler, which never
-- approves.
pub record IsUnapproved {W : Type 0} (P : W → Type 0) (g : StateGraph W) : Type 0 where
  pub handlers :
      (name : String) (node : GraphNode W) (s : Frame W)
      → lookup name g.nodes ≡ some node
      → node.sensitive ≡ false
      → P s.world
      → P (node.handler s).1.world
  pub asked :
      (approve : ApprovalRequest → Exec W Bool) (request : ApprovalRequest) (w : W)
      → g.approval ≡ some approve
      → P w
      → P (approve request w).1
  pub denied :
      (approve : ApprovalRequest → Exec W Bool) (request : ApprovalRequest) (w : W)
      → g.approval ≡ some approve
      → (approve request w).0 ≢ ok true

module _ {W : Type 0} (P : W → Type 0) (g : StateGraph W) (stop : Option (GraphState → Bool))
    (h : IsUnapproved P g) where
  abbrev Kept : {A : Type 0} → Outcome A → Frame W → Type 0
  Kept r s = P s.world

  ask-refused :
      (approval : Option (ApprovalRequest → Exec W Bool)) (current : String) (s : Frame W)
      → g.approval ≡ approval
      → P s.world
      → Ends (λ r t. P t.world × (r ≢ ok tt)) (ask g stop approval current s)
  ask-refused none current s e p = (p, λ q. cc)
  ask-refused (some approve) current s e p =
      bind-Ends (λ r t. P t.world × (r ≢ ok true)) (λ r t. P t.world × (r ≢ ok tt)) _
        (elim [ true ↦ λ t k. absurd (k.1 refl) | false ↦ λ t k. (k.0, λ q. cc) ])
        (λ x t k. (k.0, λ q. cc)) (λ x t k. (k.0, λ q. cc)) (on_world (approve request)) s
        (h.asked approve request s.world e p, h.denied approve request s.world e)
    where
      request : ApprovalRequest
      request = record {
        run_id = s.state.run_id;
        node = current;
        action = "execute_sensitive_node";
        payload = s.state.values;
      }

  -- The gate passes open nodes only.
  abbrev Passed : GraphNode W → Outcome (Unit {0}) → Frame W → Type 0
  Passed node r s = P s.world × ((node.sensitive ≡ false) ⊎ (r ≢ ok tt))

  gate-Passed :
      (current : String) (node : GraphNode W) (s : Frame W)
      → P s.world
      → Ends (Passed node) (gate g stop current node s)
  unfolding gate
  gate-Passed current node s p = elim (Bool-cases node.sensitive) [
    | inr open_ ↦ rw open_ (p, inl refl)
    | inl closed ↦ let k = ask-refused g.approval current s refl p in rw closed (k.0, inr k.1)
  ]

  run_node-Kept :
      (current : String) (node : GraphNode W) (s : Frame W)
      → lookup current g.nodes ≡ some node
      → P s.world
      → Ends Kept (run_node g stop current (some node) s)
  run_node-Kept current node s found p =
      bind-Ends (Passed node) Kept _
        (λ _ t k. elim k.1 [
          | inr refused ↦ absurd (refused refl)
          | inl open_ ↦
              bind-Ends Kept Kept _ (λ result u q. q) (λ x u q. q) (λ x u q. q) node.handler t
                (h.handlers current node t found open_ k.0)
        ])
        (λ x t k. k.0) (λ x t k. k.0) (gate g stop current node)
        (record s { state = enter current s.state }) (gate-Passed current node _ p)

  round-Kept : (current : String) (s : Frame W) → P s.world → Ends Kept (round g stop current s)
  unfolding round
  round-Kept current s p = elim (Bool-cases (leb g.max_steps s.state.steps)) [
    | inl e ↦ rw e p
    | inr e ↦ rw e (elim (Option-cases (lookup current g.nodes)) [
      | inl n ↦ rw n p
      | inr (node, n) ↦ rw n (run_node-Kept current node s n p)
    ])
  ]

  loop-Kept :
      (next : Option String) (fuel : ℕ) (s : Frame W)
      → P s.world
      → Ends Kept (loop g stop next fuel s)
  unfolding loop
  loop-Kept none fuel s p = p
  loop-Kept (some current) zero s p = ground arith
  loop-Kept (some current) (suc fuel) s p = elim (Bool-cases (current == "")) [
    | inl e ↦ rw e p
    | inr e ↦ rw e (
        bind-Ends Kept Kept (λ next. loop g stop next fuel) (λ next t q. loop-Kept next fuel t q)
          (λ x t q. q) (λ x t q. q) (round g stop current) s (round-Kept current s p))
  ]

  -- Where no approval is given, nothing that only sensitive handlers do can happen: what the other
  -- handlers and the approval handler keep of the world, the whole run keeps, however it ends.
  pub run-gated : (start : String) (s : Frame W) → P s.world → P (run g stop start s).1.world
  unfolding run
  run-gated start s p = elim (Bool-cases (has start g.nodes)) [
    | inr e ↦ rw e p
    | inl e ↦ rw e (
        bind-Ends Kept Kept _ (λ how t q. q) (λ x t q. q) (λ x t q. q)
          (loop g stop (some start) (suc (g.max_steps - s.state.steps))) s
          (loop-Kept (some start) (suc (g.max_steps - s.state.steps)) s p))
  ]
