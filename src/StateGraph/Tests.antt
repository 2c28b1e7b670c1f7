-- ===== src/StateGraph/Tests.antt =====
-- A graph of an open and a sensitive node, with and without an approval. The world counts what the
-- sensitive handler has done.
use mathlib.Core.Option.{some-injective}
use ai_agent_hub_project_ome.Base.{
  subst, sym, ℕ, String, List, Bool-cases, ◌==◌, inl, inr, suc, ◌≤◌, ◌≡◌, ◌≢◌, refl, eq_iff, Option,
  none, some, Bool, true, false, [], ◌∷◌, arith,
}
use ai_agent_hub_project_ome.Base.Dict.{lookup, insert}
use ai_agent_hub_project_ome.Base.Exn.{ok, raised, Exn, error, permission_error, key_error, Exec}
use ai_agent_hub_project_ome.Base.Value.{bool, Fields, end, field, update}
use ai_agent_hub_project_ome.Base.Int.{pos}
use ai_agent_hub_project_ome.Base.Rules.{Ends}
use ai_agent_hub_project_ome.StateGraph.Closed.{
  Edit, node_added, edge_added, edit_all, IsQuiet, Quiet, run-Quiet-edit_all,
}
use ai_agent_hub_project_ome.StateGraph.{
  GraphNode, make_state_graph, ApprovalRequest, Frame, StateGraph, finished, out_of_fuel, run,
  targets_of,
}
use ai_agent_hub_project_ome.StateGraph.Steps.{LeavesSteps, run-Bounded}
use ai_agent_hub_project_ome.StateGraph.Gates.{IsUnapproved, run-gated}

abbrev harmless : Exec (Frame ℕ) (Option Fields)
harmless s = (ok (some (field "done" (bool true) end)), s)

abbrev risky : Exec (Frame ℕ) (Option Fields)
risky s = (ok none, record s { world = suc s.world })

abbrev answer : Bool → ApprovalRequest → Exec ℕ Bool
answer b request w = (ok b, w)

abbrev graph : Bool → StateGraph ℕ
graph b = record {
  nodes =
      ("safe", record { name = "safe"; handler = harmless; sensitive = false })
      ∷ ("danger", record { name = "danger"; handler = risky; sensitive = true })
      ∷ [];
  edges = ("safe", "danger" ∷ []) ∷ [];
  max_steps = 2;
  approval = some (answer b);
}

abbrev fresh : Frame ℕ
fresh = record {
  state = record { run_id = "run"; values = end; current = none; steps = 0 };
  world = 0;
}

program : Unit {0}
unfolding run lookup insert targets_of update
program = tt

run-approved : run (graph true) none "safe" fresh ≡ (
  ok finished,
  record {
    state = record {
      run_id = "run";
      values = field "done" (bool true) end;
      current = none;
      steps = 2;
    };
    world = 1;
  },
)
unfolding program
run-approved = refl

run-denied :
    (run (graph false) none "safe" fresh).0
    ≡ raised (error permission_error "human approval denied for node: danger")
unfolding program
run-denied = refl

graph-LeavesSteps : (b : Bool) → LeavesSteps (graph b) none
unfolding lookup
graph-LeavesSteps b name node s found = ground (arith, eq_iff "safe" name, eq_iff "danger" name)

graph-IsUnapproved : IsUnapproved (λ w. w ≡ 0) (graph false)
unfolding lookup
graph-IsUnapproved = record {
  handlers = λ name node s found open_ p. ground (arith, eq_iff "safe" name, eq_iff "danger" name);
  asked = λ approve request w e p. subst (λ f. (f request w).1 ≡ 0) (some-injective _ _ e) p;
  denied = λ approve request w e.
      subst (λ f. (f request w).0 ≢ ok true) (some-injective _ _ e) (λ q. cc);
}

run-Bounded_example :
    ((run (graph true) none "safe" fresh).0 ≢ ok out_of_fuel)
    × ((run (graph true) none "safe" fresh).1.state.steps ≤ 2)
run-Bounded_example =
    run-Bounded (graph true) none (graph-LeavesSteps true) "safe" fresh (omega arith)

run-gated_example : (run (graph false) none "safe" fresh).1.world ≡ 0
run-gated_example = run-gated (λ w. w ≡ 0) (graph false) none graph-IsUnapproved "safe" fresh refl

-- The same graph, built step by step; an edge to a name without a node is refused.
abbrev empty_graph : StateGraph ℕ
empty_graph = record { nodes = []; edges = []; max_steps = 2; approval = some (answer true) }

empty_made : make_state_graph (pos 2) (some (answer true)) ≡ ok empty_graph
unfolding make_state_graph
empty_made = refl

abbrev edits : List (Edit ℕ)
edits =
    node_added (record { name = "safe"; handler = harmless; sensitive = false })
    ∷ node_added (record { name = "danger"; handler = risky; sensitive = true })
    ∷ edge_added "safe" "danger"
    ∷ edge_added "safe" "nowhere"
    ∷ []

built : edit_all edits empty_graph ≡ graph true
unfolding edit_all lookup insert targets_of
built = refl

not_raised : {A : Type 0} (a : A) (e : Exn) → ok a ≡ raised e → ⊥
not_raised a e h = cc

graph-IsQuiet : IsQuiet (graph true)
unfolding lookup
graph-IsQuiet = record {
  handlers = λ name node s e found. quiet_node name node s e found;
  approvals = λ approve request w e f r. absurd (
      not_raised true e (
        subst (λ (h : ApprovalRequest → Exec ℕ Bool). (h request w).0 ≡ raised e)
          (sym (some-injective _ _ f)) r));
}
  where
    quiet_node :
        (name : String) (node : GraphNode ℕ) (s : Frame ℕ) (e : Exn)
        → lookup name (graph true).nodes ≡ some node
        → (node.handler s).0 ≡ raised e
        → e.kind ≢ key_error
    quiet_node name node s e found r = elim (Bool-cases ("safe" == name)) [
      | inl a ↦
          let same : record { name = "safe"; handler = harmless; sensitive = false } ≡ node =
            some-injective _ _ (rw a at found) in
          absurd
            (not_raised _ e (subst (λ (n : GraphNode ℕ). (n.handler s).0 ≡ raised e) (sym same) r))
      | inr a ↦ elim (Bool-cases ("danger" == name)) [
        | inl b ↦
            let same : record { name = "danger"; handler = risky; sensitive = true } ≡ node =
              some-injective _ _ (rw (a, b) at found) in
            absurd (
              not_raised _ e (subst (λ (n : GraphNode ℕ). (n.handler s).0 ≡ raised e) (sym same) r))
        | inr b ↦ let none_ = rw (a, b) at found in absurd (cc)
      ]
    ]

run-Quiet-edit_all_example : Ends Quiet (run (edit_all edits empty_graph) none "safe" fresh)
unfolding edit_all lookup insert targets_of
run-Quiet-edit_all_example =
    run-Quiet-edit_all (pos 2) (some (answer true)) empty_graph edits none empty_made
      (subst IsQuiet (sym built) graph-IsQuiet) "safe" fresh refl
