-- ===== src/Orchestrator/Graph/Walks.antt =====
-- `run_graph` against a relation, walks along first successors.
use ai_agent_hub_project_ome.Base.{
  ℕ, zero, suc, ◌≤◌, ◌≡◌, ◌⊎◌, ◌↔◌, inl, inr, refl, sym, ◌∙◌, ap, String, Option, some, Bool, true,
  false, List, [], ◌∷◌, ◌++◌, arith, length, contains, Bool-cases, Option-cases,
}
use mathlib.Core.List.{append_assoc}
use ai_agent_hub_project_ome.Base.Int.{ℤ, pos_part, ltb_ℤ}
use ai_agent_hub_project_ome.Base.Dict.{Dict, lookup, has}
use ai_agent_hub_project_ome.Base.Exn.{ok, continue-eq-ok}
use ai_agent_hub_project_ome.Base.Value.{Codec}
use ai_agent_hub_project_ome.Orchestrator.Run.{AgentRun, Host, EventHandler}
use ai_agent_hub_project_ome.Orchestrator.Graph.{
  AgentNode, is_completed, run_node, missing_nodes, hops, run_graph, follow, visit, advance, Rest,
}

module _ (codec : Codec) {W : Type 0} (host : Host W) (handler : Option (EventHandler W))
    (nodes : Dict (AgentNode W)) (task : String) where
  abbrev Runs : AgentNode W → W → AgentRun → W → Type 0
  Runs node w r w' = run_node codec host handler nodes task node w ≡ (ok r, w')

  -- A walk from a node that has not been visited: each node is registered and is run on the task;
  -- a node that completes is followed by the first of its successors, all of which are registered.
  pub data Walk : List String → String → W → List AgentRun → W → Type 0 where
    stop :
        {visited : List String} {current : String} {w : W} (node : AgentNode W) {r : AgentRun}
        {w' : W}
        → contains visited current ≡ false
        → lookup current nodes ≡ some node
        → Runs node w r w'
        → (is_completed r.status ≡ false) ⊎ (node.next_nodes ≡ [])
        → Walk visited current w (r ∷ []) w'
    hop :
        {visited : List String} {current : String} {w : W} (node : AgentNode W) {r : AgentRun}
        {w' : W} (target : String) (rest : List String) {rs : List AgentRun} {w'' : W}
        → contains visited current ≡ false
        → lookup current nodes ≡ some node
        → Runs node w r w'
        → is_completed r.status ≡ true
        → node.next_nodes ≡ target ∷ rest
        → missing_nodes codec host handler nodes task (target ∷ rest) ≡ []
        → Walk (current ∷ visited) target w' rs w''
        → Walk visited current w (r ∷ rs) w''

  -- What follows a run: the end, or the rest of the loop at the first successor.
  abbrev Ended : List String → Bool → List AgentRun → List AgentRun → W → W → Type 0
  Ended next done results out w w' = ((done ≡ false) ⊎ (next ≡ [])) × (out ≡ results) × (w ≡ w')

  abbrev Continued :
      List String
      → Bool
      → List AgentRun
      → Rest codec host handler nodes task
      → W
      → List AgentRun
      → W
      → Type 0
  Continued next done results go w out w' =
      (target : String) × (rest : List String) × (done ≡ true)
      × (next ≡ target ∷ rest)
      × (missing_nodes codec host handler nodes task (target ∷ rest) ≡ [])
      × (go target results w ≡ (ok out, w'))

  advance-cases :
      (current target : String) (missing : List String) (results : List AgentRun)
      (go : Rest codec host handler nodes task) (w : W) (out : List AgentRun) (w' : W)
      → advance codec host handler nodes task current target missing results go w ≡ (ok out, w')
      → (missing ≡ []) × (go target results w ≡ (ok out, w'))
  advance-cases current target [] results go w out w' e = (refl, e)
  advance-cases current target (m ∷ ms) results go w out w' e = absurd (cc)

  follow-cases :
      (current : String) (next : List String) (done : Bool) (results : List AgentRun)
      (go : Rest codec host handler nodes task) (w : W) (out : List AgentRun) (w' : W)
      → follow codec host handler nodes task current next done results go w ≡ (ok out, w')
      → Ended next done results out w w' ⊎ Continued next done results go w out w'
  follow-cases current [] done results go w out w' e = inl (inr refl, cc, cc)
  follow-cases current (t ∷ ts) false results go w out w' e = inl (inl refl, cc, cc)
  follow-cases current (t ∷ ts) true results go w out w' e =
      let (m, q) = advance-cases current t _ results go w out w' e in inr (t, ts, refl, refl, m, q)

  visit-cases :
      (current : String) (node : AgentNode W) (results : List AgentRun)
      (go : Rest codec host handler nodes task) (w : W) (out : List AgentRun) (w' : W)
      → visit codec host handler nodes task current (some node) results go w ≡ (ok out, w')
      → (r : AgentRun) × (w₁ : W) × Runs node w r w₁
        × (Ended node.next_nodes (is_completed r.status) (results ++ r ∷ []) out w₁ w'
            ⊎ Continued node.next_nodes (is_completed r.status) (results ++ r ∷ []) go w₁ out w')
  visit-cases current node results go w out w' e =
      let ran = run_node codec host handler nodes task node w in
      let then_follow = λ (r : AgentRun).
        follow codec host handler nodes task current node.next_nodes (is_completed r.status)
          (results ++ r ∷ []) go in
      let (r, q, e') = continue-eq-ok ran.0 then_follow ran.1 w' out e in
      (
        r,
        ran.1,
        λ i. (q i, ran.1),
        follow-cases current node.next_nodes (is_completed r.status) (results ++ r ∷ []) go ran.1
            out w' e',
      )

  -- What `hops` adds to the results so far.
  abbrev Added : ℕ → List String → String → W → List AgentRun → List AgentRun → W → Type 0
  Added left visited current w results out w' =
      (rs : List AgentRun) × (out ≡ results ++ rs)
      × Walk visited current w rs w'
      × (length rs ≤ left)

  hops-Walk :
      (max_hops left : ℕ) (current : String) (visited : List String) (results : List AgentRun)
      (w : W) (out : List AgentRun) (w' : W)
      → hops codec host handler nodes task max_hops left current visited results w ≡ (ok out, w')
      → Added left visited current w results out w'
  unfolding hops
  hops-Walk max_hops zero current visited results w out w' e = absurd (cc)
  hops-Walk max_hops (suc left) current visited results w out w' e =
      elim (Bool-cases (contains visited current)) [
        | inl c ↦ absurd (ground arith)
        | inr c ↦ elim (Option-cases (lookup current nodes)) [
          | inl n ↦ absurd (ground arith)
          | inr (node, n) ↦
              let go = λ (target : String) (so_far : List AgentRun).
                hops codec host handler nodes task max_hops left target (current ∷ visited)
                  so_far in
              let (r, w₁, ran, after) =
                visit-cases current node results go w out w' (rw (c, n) at e) in
              elim after [
                | inl (last, same, here) ↦
                    (r ∷ [], same, rw here at (Walk.stop node c n ran last), omega arith)
                | inr (target, rest, done, next, known, e') ↦
                    let (rs, same, walk, fits) =
                      hops-Walk max_hops left target (current ∷ visited) (results ++ r ∷ []) w₁ out
                        w' e' in
                    (
                      r ∷ rs,
                      same ∙ append_assoc results (r ∷ []) rs,
                      Walk.hop node target rest c n ran done next known walk,
                      omega arith,
                    )
              ]
        ]
      ]

  follow-ended :
      (current : String) (next : List String) (done : Bool) (results : List AgentRun)
      (go : Rest codec host handler nodes task) (w : W)
      → (done ≡ false) ⊎ (next ≡ [])
      → follow codec host handler nodes task current next done results go w ≡ (ok results, w)
  follow-ended current [] done results go w h = refl
  follow-ended current (t ∷ ts) false results go w h = refl
  follow-ended current (t ∷ ts) true results go w h = absurd (ground arith)

  Walk-hops :
      (max_hops left : ℕ) (visited : List String) (current : String) (results : List AgentRun)
      (w : W) (rs : List AgentRun) (w' : W)
      → Walk visited current w rs w'
      → length rs ≤ left
      → hops codec host handler nodes task max_hops left current visited results w
        ≡ (ok (results ++ rs), w')
  unfolding hops
  Walk-hops max_hops zero visited current results w rs w' (stop node c n ran last) fits =
      absurd (omega arith)
  Walk-hops max_hops zero visited current results w rs w'
        (hop node target rest c n ran done next known walk) fits =
      absurd (omega arith)
  Walk-hops max_hops (suc left) visited current results w rs w' (stop node c n ran last) fits =
      rw (c, n, ran) (follow-ended current node.next_nodes _ _ _ w' last)
  Walk-hops max_hops (suc left) visited current results w rs w'
        (hop node {r = r} {w' = w₁} target rest {rs = more} c n ran done next known walk) fits =
      rw (c, n, ran, done, next, known)
        (Walk-hops max_hops left (current ∷ visited) target (results ++ r ∷ []) w₁ more w' walk
            (omega arith)
          ∙ ap (λ l. (ok l, w')) (append_assoc results (r ∷ []) more))

  -- `run_graph` returns these runs exactly if the start node is known, the bound is positive, and
  -- the runs are those of a walk of at most `max_hops` nodes: no node twice, each node but the last
  -- completed, each step to the first of the node's successors, and the last node without
  -- successors or not completed.
  pub run_graph-iff_Walk :
      (start : String) (max_hops : ℤ) (w : W) (rs : List AgentRun) (w' : W)
      → (run_graph codec host handler nodes task start max_hops w ≡ (ok rs, w')) ↔ (
          (has start nodes ≡ true)
          × (ltb_ℤ max_hops 1 ≡ false)
          × Walk [] start w rs w'
          × (length rs ≤ pos_part max_hops))
  unfolding run_graph
  run_graph-iff_Walk start max_hops w rs w' = (sound, complete)
    where
      sound :
          run_graph codec host handler nodes task start max_hops w ≡ (ok rs, w')
          → (has start nodes ≡ true)
            × (ltb_ℤ max_hops 1 ≡ false)
            × Walk [] start w rs w'
            × (length rs ≤ pos_part max_hops)
      sound e = elim (Bool-cases (has start nodes)) [
        | inr h ↦ absurd (ground arith)
        | inl h ↦ elim (Bool-cases (ltb_ℤ max_hops 1)) [
          | inl b ↦ absurd (ground arith)
          | inr b ↦
              let (out, same, walk, fits) =
                hops-Walk (pos_part max_hops) (pos_part max_hops) start [] [] w rs w'
                  (rw (h, b) at e) in
              (h, b, rw (sym same) at walk, rw (sym same) at fits)
        ]
      ]

      complete :
          (has start nodes ≡ true)
            × (ltb_ℤ max_hops 1 ≡ false)
            × Walk [] start w rs w'
            × (length rs ≤ pos_part max_hops)
          → run_graph codec host handler nodes task start max_hops w ≡ (ok rs, w')
      complete (h, b, walk, fits) =
          rw (h, b) (Walk-hops _ (pos_part max_hops) [] start [] w rs w' walk fits)
