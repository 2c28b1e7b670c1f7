-- ===== src/StateGraph.antt =====
-- orchestrator/state_graph.py: a bounded workflow with approval gates. A handler works on the
-- frame, the shared state and the world, so that it may also write to the state that it is given.
pub mod Gates
pub mod Steps
pub mod Closed
mod Tests
use ai_agent_hub_project_ome.Base.{
  ℕ, zero, suc, ◌+◌, ◌-◌, String, ◌<>◌, ◌==◌, Option, none, some, Bool, true, false, List, [], ◌∷◌,
  ◌++◌, ◌&&◌, ◌||◌, not, leb, if◌then◌else◌,
}
use ai_agent_hub_project_ome.Base.Int.{ℤ, pos_part, ltb_ℤ}
use ai_agent_hub_project_ome.Base.Dict.{Dict, lookup, insert, has}
use ai_agent_hub_project_ome.Base.Exn.{
  Outcome, ok, raised, error, missing_key, value_error, runtime_error, permission_error, Exec, pure,
  raise, ◌>>=◌, ◌>>◌,
}
use ai_agent_hub_project_ome.Base.Value.{Fields, update}

pub record GraphState : Type 0 where
  pub run_id : String
  pub values : Fields
  pub current : Option String
  pub steps : ℕ

pub record ApprovalRequest : Type 0 where
  pub run_id : String
  pub node : String
  pub action : String
  pub payload : Fields

pub record Frame (W : Type 0) : Type 0 where
  pub state : GraphState
  pub world : W

pub record GraphNode (W : Type 0) : Type 0 where
  pub name : String
  pub handler : Exec (Frame W) (Option Fields)
  pub sensitive : Bool

pub record StateGraph (W : Type 0) : Type 0 where
  pub nodes : Dict (GraphNode W)
  pub edges : Dict (List String)
  pub max_steps : ℕ
  pub approval : Option (ApprovalRequest → Exec W Bool)

-- How the loop ends: by its condition or `break`, or, in the model alone, for want of fuel.
pub data Finish : Type 0 where
  finished out_of_fuel : Finish

-- `if result: state.data.update(result)`
abbrev pub merge_result : Option Fields → GraphState → GraphState
merge_result none state = state
merge_result (some result) state = record state { values = update state.values result }

abbrev stops : Option (GraphState → Bool) → GraphState → Bool
stops none state = false
stops (some test) state = test state

-- `targets[0] if targets else None`
abbrev first : List String → Option String
first [] = none
first (target ∷ targets) = some target

abbrev enter : String → GraphState → GraphState
enter current state = record state { current = some current; steps = state.steps + 1 }

module _ {W : Type 0} where
  -- `StateGraph(max_steps=…, approval_handler=…)`
  unfoldable pub make_state_graph :
      ℤ → Option (ApprovalRequest → Exec W Bool) → Outcome (StateGraph W)
  make_state_graph max_steps approval =
      if ltb_ℤ max_steps 1
      then raised (error value_error "max_steps must be positive")
      else ok
          (record { nodes = []; edges = []; max_steps = pos_part max_steps; approval = approval })

  unfoldable pub add_node : GraphNode W → StateGraph W → Outcome (StateGraph W)
  add_node node g =
      if has node.name g.nodes
      then raised (error value_error ("duplicate node: " <> node.name))
      else ok (record g { nodes = insert node.name node g.nodes })

  -- `self._edges.get(source, ())`
  unfoldable pub targets_of : StateGraph W → String → List String
  targets_of g source = elim (lookup source g.edges) [ none ↦ [] | some targets ↦ targets ]

  unfoldable pub add_edge : String → String → StateGraph W → Outcome (StateGraph W)
  add_edge source target g =
      if has source g.nodes && has target g.nodes
      then ok (record g { edges = insert source (targets_of g source ++ target ∷ []) g.edges })
      else raised (missing_key "graph edge references unknown node")

  abbrev gets : {A : Type 0} → (Frame W → A) → Exec (Frame W) A
  gets f s = (ok (f s), s)

  abbrev modify : (GraphState → GraphState) → Exec (Frame W) (Unit {0})
  modify f s = (ok tt, record s { state = f s.state })

  abbrev pub on_world : {A : Type 0} → Exec W A → Exec (Frame W) A
  on_world m s = let (r, w) = m s.world in (r, record s { world = w })

module _ {W : Type 0} (g : StateGraph W) (stop : Option (GraphState → Bool)) where
  abbrev deny : String → String → Exec (Frame W) (Unit {0})
  deny why current = raise (error permission_error ("human approval " <> why <> ": " <> current))

  abbrev pub ask : Option (ApprovalRequest → Exec W Bool) → String → Exec (Frame W) (Unit {0})
  ask none current = deny "required for sensitive node" current
  ask (some approve) current = do
    request ← gets (λ s. record {
      run_id = s.state.run_id;
      node = current;
      action = "execute_sensitive_node";
      payload = s.state.values;
    })
    approved ← on_world (approve request)
    if approved then pure tt else deny "denied for node" current

  -- the approval gate of a node
  pub gate : String → GraphNode W → Exec (Frame W) (Unit {0})
  gate current node = if node.sensitive then ask g.approval current else pure tt

  abbrev pub run_node : String → Option (GraphNode W) → Exec (Frame W) (Option String)
  run_node current none = raise (missing_key current)
  run_node current (some node) = do
    modify (enter current)
    gate current node
    result ← node.handler
    modify (merge_result result)
    done ← gets (λ s. stops stop s.state)
    pure (if done then none else first (targets_of g current))

  -- The body of the loop; the result is the next value of `current`, and `none` after a `break`.
  pub round : String → Exec (Frame W) (Option String)
  unfolding gate
  round current s =
      if leb g.max_steps s.state.steps
      then (raised (error runtime_error "state graph exceeded max_steps"), s)
      else run_node current (lookup current g.nodes) s

  -- `while current:`, where an empty name is false too
  pub loop : Option String → ℕ → Exec (Frame W) Finish
  unfolding round
  loop none fuel = pure finished
  loop (some current) zero = if current == "" then pure finished else pure out_of_fuel
  loop (some current) (suc fuel) =
      let more = round current >>= λ next. loop next fuel in
      if current == "" then pure finished else more

  -- `run(state, start=…, stop=…)`; the state is in the frame. The fuel is enough for every round
  -- that the bound on steps allows, and for the last test of the bound.
  unfoldable pub run : String → Exec (Frame W) Finish
  unfolding loop
  run start s =
      if not (has start g.nodes)
      then (raised (missing_key start), s)
      else (do
        how ← loop (some start) (suc (g.max_steps - s.state.steps))
        modify (λ state. record state { current = none })
        pure how)
          s
