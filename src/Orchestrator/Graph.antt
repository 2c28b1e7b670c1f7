-- ===== src/Orchestrator/Graph.antt =====
-- `Orchestrator.register` and `Orchestrator.run_graph`.
pub mod Walks
use ai_agent_hub_project_ome.Base.{
  ℕ, zero, suc, String, ◌<>◌, ◌==◌, Option, none, some, Bool, true, false, List, [], ◌∷◌, ◌++◌, not,
  contains, keep, if◌then◌else◌,
}
use ai_agent_hub_project_ome.Base.Str.{is_blank, repr_list, str_ℕ}
use ai_agent_hub_project_ome.Base.Int.{ℤ, pos_part, ltb_ℤ}
use ai_agent_hub_project_ome.Base.Dict.{Dict, lookup, insert, has}
use ai_agent_hub_project_ome.Base.Exn.{
  Outcome, ok, raised, error, missing_key, value_error, orchestration_error, Exec, pure, raise,
  ◌>>=◌,
}
use ai_agent_hub_project_ome.Base.Value.{Codec}
use ai_agent_hub_project_ome.Agent.Runtime.{AutonomousAgent}
use ai_agent_hub_project_ome.Orchestrator.Run.{
  RunStatus, completed, AgentRun, Host, EventHandler, run,
}

pub record AgentNode (W : Type 0) : Type 0 where
  pub name : String
  pub agent : AutonomousAgent W
  pub next_nodes : List String

unfoldable pub is_completed : RunStatus → Bool
is_completed completed = true
is_completed _ = false

module _ {W : Type 0} where
  -- `register(node)`, on the dict of nodes
  unfoldable pub register : AgentNode W → Dict (AgentNode W) → Outcome (Dict (AgentNode W))
  register node nodes =
      if is_blank node.name
      then raised (error value_error "Node name cannot be empty")
      else if has node.name nodes
      then raised (error value_error ("Agent node already registered: " <> node.name))
      else if contains node.next_nodes node.name
      then raised (error value_error ("Self-loop is not allowed for node: " <> node.name))
      else ok (insert node.name node nodes)

module _ (codec : Codec) {W : Type 0} (host : Host W) (handler : Option (EventHandler W))
    (nodes : Dict (AgentNode W)) (task : String) where
  abbrev pub run_node : AgentNode W → Exec W AgentRun
  run_node node = run codec host handler node.agent task none none none

  abbrev pub missing_nodes : List String → List String
  missing_nodes = keep (λ target. not (has target nodes))

  abbrev refuse : {A : Type 0} → String → Exec W A
  refuse message = raise (error orchestration_error message)

  -- The rest of the loop, from the next node and the results so far.
  abbrev Rest : Type 0
  Rest = String → List AgentRun → Exec W (List AgentRun)

  -- The successors are all registered, or some are missing.
  abbrev advance : String → String → List String → List AgentRun → Rest → Exec W (List AgentRun)
  advance current target [] results go = go target results
  advance current target (m ∷ missing) results go =
      refuse ("Node " <> current <> " references missing nodes: " <> repr_list (m ∷ missing))

  -- From the test `result.status is not RunStatus.COMPLETED or not node.next_nodes` on.
  abbrev follow : String → List String → Bool → List AgentRun → Rest → Exec W (List AgentRun)
  follow current [] done results go = pure results
  follow current (target ∷ targets) false results go = pure results
  follow current (target ∷ targets) true results go =
      advance current target (missing_nodes (target ∷ targets)) results go

  abbrev visit : String → Option (AgentNode W) → List AgentRun → Rest → Exec W (List AgentRun)
  visit current none results go = raise (missing_key current)
  visit current (some node) results go = do
    result ← run_node node
    follow current node.next_nodes (is_completed result.status) (results ++ result ∷ []) go

  -- `for _ in range(max_hops)`, with `left` rounds to go
  hops :
      (max_hops left : ℕ) (current : String) (visited : List String) (results : List AgentRun)
      → Exec W (List AgentRun)
  hops max_hops zero current visited results = refuse ("Graph exceeded max_hops=" <> str_ℕ max_hops)
  hops max_hops (suc left) current visited results =
      let go = λ (target : String) (so_far : List AgentRun).
        hops max_hops left target (current ∷ visited) so_far in
      if contains visited current
      then refuse ("Graph cycle detected at node: " <> current)
      else visit current (lookup current nodes) results go

  -- `run_graph(start_node=…, task=…, max_hops=…)`
  unfoldable pub run_graph : String → ℤ → Exec W (List AgentRun)
  unfolding hops
  run_graph start_node max_hops =
      if not (has start_node nodes)
      then raise (missing_key ("Unknown agent node: " <> start_node))
      else if ltb_ℤ max_hops 1
      then raise (error value_error "max_hops must be >= 1")
      else hops (pos_part max_hops) (pos_part max_hops) start_node [] []
