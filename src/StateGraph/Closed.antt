-- ===== src/StateGraph/Closed.antt =====
-- Graphs that are built node by node and edge by edge, and the names that the loop meets in them.
use ai_agent_hub_project_ome.Base.{
  ℕ, zero, suc, ◌-◌, ◌≡◌, ◌≢◌, inl, inr, refl, sym, ap, ◌∙◌, subst, String, ◌==◌, Option, none,
  some, Bool, true, ◌&&◌, List, [], ◌∷◌, ◌++◌, All, All-imp, All-append, leb, arith, Bool-cases,
  Option-cases, if◌then◌else◌,
}
use ai_agent_hub_project_ome.Base.Int.{ℤ, ltb_ℤ}
use ai_agent_hub_project_ome.Base.Dict.{Dict, lookup, insert, has, lookup-insert, lookup-nil}
use ai_agent_hub_project_ome.Base.Exn.{Outcome, ok, raised, stopped, Exn, key_error, Exec}
use ai_agent_hub_project_ome.Base.Rules.{Ends, bind-Ends}
use ai_agent_hub_project_ome.StateGraph.{
  GraphState, ApprovalRequest, Frame, GraphNode, StateGraph, make_state_graph, add_node, targets_of,
  add_edge, first, enter, merge_result, stops, on_world, ask, gate, run_node, round, loop, run,
}

-- A change of a graph, and a row of them, each of which the caller may catch.
pub data Edit (W : Type 0) : Type 0 where
  node_added : GraphNode W → Edit W
  edge_added : (source target : String) → Edit W

abbrev targets_or : Option (List String) → List String
targets_or none = []
targets_or (some targets) = targets

module _ {W : Type 0} where
  abbrev kept_if : StateGraph W → Outcome (StateGraph W) → StateGraph W
  kept_if g (ok g') = g'
  kept_if g _ = g

  unfoldable pub edit : Edit W → StateGraph W → StateGraph W
  unfolding add_node add_edge
  edit (node_added node) g = kept_if g (add_node node g)
  edit (edge_added source target) g = kept_if g (add_edge source target g)

  unfoldable pub edit_all : List (Edit W) → StateGraph W → StateGraph W
  unfolding edit
  edit_all [] g = g
  edit_all (e ∷ es) g = edit_all es (edit e g)

  -- Every target of an edge is a node.
  abbrev pub IsClosed : StateGraph W → Type 0
  IsClosed g = (source : String) → All (λ target. has target g.nodes ≡ true) (targets_of g source)

  has-insert :
      (target name : String) (node : GraphNode W) (d : Dict (GraphNode W))
      → has target d ≡ true
      → has target (insert name node d) ≡ true
  has-insert target name node d h =
      rw (lookup-insert target name node d)
        (elim (Bool-cases (name == target)) [ inl e ↦ rw e refl | inr e ↦ rw e h ])

  add_node-IsClosed :
      (node : GraphNode W) (g : StateGraph W) → IsClosed g → IsClosed (edit (node_added node) g)
  unfolding edit add_node targets_of
  add_node-IsClosed node g closed = elim (Bool-cases (has node.name g.nodes)) [
    | inl e ↦ rw e closed
    | inr e ↦ rw e (λ source.
        All-imp (targets_of g source) (λ target h. has-insert target node.name node g.nodes h)
          (closed source))
  ]

  targets_of-or :
      (g : StateGraph W) (source : String)
      → targets_of g source ≡ targets_or (lookup source g.edges)
  unfolding targets_of
  targets_of-or g source = elim (Option-cases (lookup source g.edges)) [
    | inl e ↦ rw (targets_of, e) refl
    | inr (targets, e) ↦ rw (targets_of, e) refl
  ]

  with_edges : StateGraph W → String → List String → StateGraph W
  with_edges g source targets = record g { edges = insert source targets g.edges }

  targets_of-insert :
      (g : StateGraph W) (source other : String) (targets : List String)
      → targets_of (with_edges g source targets) other
        ≡ (if source == other then targets else targets_of g other)
  unfolding with_edges
  targets_of-insert g source other targets =
      targets_of-or (with_edges g source targets) other
      ∙ ap targets_or (lookup-insert other source targets g.edges)
      ∙ elim (Bool-cases (source == other)) [
        | inl e ↦ rw e refl
        | inr e ↦ rw e (sym (targets_of-or g other))
      ]

  with_edges-IsClosed :
      (source target : String) (g : StateGraph W)
      → IsClosed g
      → has target g.nodes ≡ true
      → IsClosed (with_edges g source (targets_of g source ++ target ∷ []))
  unfolding with_edges
  with_edges-IsClosed source target g closed known other =
      subst (All (λ t. has t g.nodes ≡ true))
        (sym (targets_of-insert g source other (targets_of g source ++ target ∷ [])))
        (elim (Bool-cases (source == other)) [
          | inr f ↦ rw f (closed other)
          | inl f ↦ rw f (
              All-append (λ t. has t g.nodes ≡ true) (targets_of g source) (target ∷ [])
                (closed source) (known, tt))
        ])

  add_edge-IsClosed :
      (source target : String) (g : StateGraph W)
      → IsClosed g
      → IsClosed (edit (edge_added source target) g)
  unfolding edit add_edge with_edges
  add_edge-IsClosed source target g closed =
      elim (Bool-cases (has source g.nodes && has target g.nodes)) [
        | inr e ↦ rw e closed
        | inl e ↦
            let known : has target g.nodes ≡ true = ground arith in
            rw e (with_edges-IsClosed source target g closed known)
      ]

  edit_all-IsClosed :
      (es : List (Edit W)) (g : StateGraph W) → IsClosed g → IsClosed (edit_all es g)
  unfolding edit_all
  edit_all-IsClosed [] g closed = closed
  edit_all-IsClosed (node_added node ∷ es) g closed =
      edit_all-IsClosed es (edit (node_added node) g) (add_node-IsClosed node g closed)
  edit_all-IsClosed (edge_added source target ∷ es) g closed =
      edit_all-IsClosed es (edit (edge_added source target) g)
        (add_edge-IsClosed source target g closed)

empty-IsClosed :
    {W : Type 0} (max_steps : ℤ) (approval : Option (ApprovalRequest → Exec W Bool))
    (g : StateGraph W)
    → make_state_graph max_steps approval ≡ ok g
    → IsClosed g
unfolding make_state_graph
empty-IsClosed max_steps approval g made source = elim (Bool-cases (ltb_ℤ max_steps 1)) [
  | inl e ↦ let made' = rw e at made in absurd (cc)
  | inr e ↦
      let made' = rw e at made in
      let edges : [] ≡ g.edges = cc in
      let none_ : targets_of g source ≡ [] =
        targets_of-or g source
        ∙ ap (λ d. targets_or (lookup source d)) (sym edges)
        ∙ ap targets_or (lookup-nil source) in
      subst (All (λ target. has target g.nodes ≡ true)) (sym none_) tt
]

-- No port raises a `KeyError` of its own.
pub record IsQuiet {W : Type 0} (g : StateGraph W) : Type 0 where
  pub handlers :
      (name : String) (node : GraphNode W) (s : Frame W) (e : Exn)
      → lookup name g.nodes ≡ some node
      → (node.handler s).0 ≡ raised e
      → e.kind ≢ key_error
  pub approvals :
      (approve : ApprovalRequest → Exec W Bool) (request : ApprovalRequest) (w : W) (e : Exn)
      → g.approval ≡ some approve
      → (approve request w).0 ≡ raised e
      → e.kind ≢ key_error

-- An exception that comes out of it is no `KeyError`.
abbrev pub Quiet : {A S : Type 0} → Outcome A → S → Type 0
Quiet (raised e) s = e.kind ≢ key_error
Quiet _ s = Unit

module _ {W : Type 0} (g : StateGraph W) (stop : Option (GraphState → Bool)) (closed : IsClosed g)
    (quiet : IsQuiet g) where
  -- The next name has a node.
  abbrev Next : Outcome (Option String) → Frame W → Type 0
  Next (ok none) s = Unit
  Next (ok (some name)) s = has name g.nodes ≡ true
  Next (raised e) s = e.kind ≢ key_error
  Next (stopped x) s = Unit

  Quiet-outcome :
      {A S : Type 0} (r : Outcome A) (s : S)
      → ((e : Exn) → r ≡ raised e → e.kind ≢ key_error)
      → Quiet r s
  Quiet-outcome (ok a) s h = tt
  Quiet-outcome (raised e) s h = h e refl
  Quiet-outcome (stopped x) s h = tt

  ask-Quiet :
      (approval : Option (ApprovalRequest → Exec W Bool)) (current : String) (s : Frame W)
      → g.approval ≡ approval
      → Ends Quiet (ask g stop approval current s)
  ask-Quiet none current s e = λ k. absurd (cc)
  ask-Quiet (some approve) current s e =
      bind-Ends Quiet Quiet _
        (λ approved t h. elim (Bool-cases approved) [
          | inl b ↦ rw b tt
          | inr b ↦ rw b (λ k. absurd (cc))
        ])
        (λ x t h. h) (λ x t h. tt) (on_world (approve _)) s
        (Quiet-outcome _ _ (λ x f. quiet.approvals approve _ s.world x e f))

  gate-Quiet :
      (current : String) (node : GraphNode W) (s : Frame W)
      → Ends Quiet (gate g stop current node s)
  unfolding gate
  gate-Quiet current node s = elim (Bool-cases node.sensitive) [
    | inl e ↦ rw e (ask-Quiet g.approval current s refl)
    | inr e ↦ rw e tt
  ]

  first-Next :
      (targets : List String) (s : Frame W)
      → All (λ t. has t g.nodes ≡ true) targets
      → Next (ok (first targets)) s
  first-Next [] s h = tt
  first-Next (t ∷ targets) s h = h.0

  run_node-Next :
      (current : String) (node : GraphNode W) (s : Frame W)
      → lookup current g.nodes ≡ some node
      → Ends Next (run_node g stop current (some node) s)
  run_node-Next current node s found =
      bind-Ends Quiet Next _
        (λ _ t _.
          bind-Ends Quiet Next _
            (λ result u _. elim (Bool-cases (stops stop (merge_result result u.state))) [
              | inl e ↦ rw e tt
              | inr e ↦ rw e (first-Next (targets_of g current) _ (closed current))
            ])
            (λ x u h. h) (λ x u h. tt) node.handler t
            (Quiet-outcome _ _ (λ e f. quiet.handlers current node t e found f)))
        (λ x t h. h) (λ x t h. tt) (gate g stop current node)
        (record s { state = enter current s.state }) (gate-Quiet current node _)

  round-Next :
      (current : String) (s : Frame W)
      → has current g.nodes ≡ true
      → Ends Next (round g stop current s)
  unfolding round
  round-Next current s known = elim (Bool-cases (leb g.max_steps s.state.steps)) [
    | inl e ↦ rw e (λ k. absurd (cc))
    | inr e ↦ rw e (elim (Option-cases (lookup current g.nodes)) [
      | inl n ↦ absurd (ground arith)
      | inr (node, n) ↦ rw n (run_node-Next current node s n)
    ])
  ]

  loop-Quiet :
      (next : Option String) (fuel : ℕ) (s : Frame W)
      → Next (ok next) s
      → Ends Quiet (loop g stop next fuel s)
  unfolding loop
  loop-Quiet none fuel s known = tt
  loop-Quiet (some current) zero s known = elim (Bool-cases (current == "")) [
    | inl e ↦ rw e tt
    | inr e ↦ rw e tt
  ]
  loop-Quiet (some current) (suc fuel) s known = elim (Bool-cases (current == "")) [
    | inl e ↦ rw e tt
    | inr e ↦ rw e (
        bind-Ends Next Quiet (λ next. loop g stop next fuel) (λ next t h. loop-Quiet next fuel t h)
          (λ x t h. h) (λ x t h. tt) (round g stop current) s (round-Next current s known))
  ]

  run-Quiet :
      (start : String) (s : Frame W) → has start g.nodes ≡ true → Ends Quiet (run g stop start s)
  unfolding run
  run-Quiet start s known = rw known (
      bind-Ends Quiet Quiet _ (λ how t h. tt) (λ x t h. h) (λ x t h. tt)
        (loop g stop (some start) (suc (g.max_steps - s.state.steps))) s
        (loop-Quiet (some start) (suc (g.max_steps - s.state.steps)) s known))

-- A graph that is built from an empty one, whichever of the changes are refused, has nodes for all
-- its edges: a run from a node raises no `KeyError`, unless a handler or the approval does.
pub run-Quiet-edit_all :
    {W : Type 0} (max_steps : ℤ) (approval : Option (ApprovalRequest → Exec W Bool))
    (empty : StateGraph W) (edits : List (Edit W)) (stop : Option (GraphState → Bool))
    → make_state_graph max_steps approval ≡ ok empty
    → IsQuiet (edit_all edits empty)
    → (start : String) (s : Frame W) → has start (edit_all edits empty).nodes ≡ true
    → Ends Quiet (run (edit_all edits empty) stop start s)
run-Quiet-edit_all max_steps approval empty edits stop made quiet start s known =
    run-Quiet (edit_all edits empty) stop
      (edit_all-IsClosed edits empty (empty-IsClosed max_steps approval empty made)) quiet start s
      known
