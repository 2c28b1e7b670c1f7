-- ===== src/Agent/Runtime/Making.antt =====
-- The making of an agent: its configuration and its tools.
use ai_agent_hub_project_ome.Base.{
  Option, List, [], ◌∷◌, Bool-cases, ◌≡◌, refl, inl, inr, All, subst,
}
use ai_agent_hub_project_ome.Base.Dict.{of_pairs, Found, of_pairs-Found}
use ai_agent_hub_project_ome.Base.Exn.{ok}
use ai_agent_hub_project_ome.Agent.Types.{AgentConfig, LlmClient, MemoryStore, Tool}
use ai_agent_hub_project_ome.Agent.Runtime.{AutonomousAgent, same_length, tool_pairs, make_agent}

-- Whether the tools are accepted does not depend on the configuration.
pub make_agent-config :
    {W : Type 0} (c d : AgentConfig) (llm : LlmClient W) (memory : Option (MemoryStore W))
    (tools : List (Tool W)) (agent : AutonomousAgent W)
    → make_agent d llm memory tools ≡ ok agent
    → (other : AutonomousAgent W) × (make_agent c llm memory tools ≡ ok other) × (other.config ≡ c)
unfolding make_agent
make_agent-config c d llm memory tools agent e =
    elim (Bool-cases (same_length (of_pairs (tool_pairs tools)) tools)) [
      | inl h ↦ (
        record { config = c; llm = llm; memory = memory; tools = of_pairs (tool_pairs tools) },
        rw h refl,
        refl,
      )
      | inr h ↦ let e' = rw h at e in absurd (cc)
    ]

-- The tools of an agent are among those that it was made with.
module _ {W : Type 0} (R : Tool W → Type 0) where
  tool_pairs-All : (tools : List (Tool W)) → All R tools → All (λ p. R p.1) (tool_pairs tools)
  unfolding tool_pairs
  tool_pairs-All [] h = tt
  tool_pairs-All (tool ∷ tools) h = (h.0, tool_pairs-All tools h.1)

  pub make_agent-tools :
      (config : AgentConfig) (llm : LlmClient W) (memory : Option (MemoryStore W))
      (tools : List (Tool W)) (agent : AutonomousAgent W)
      → make_agent config llm memory tools ≡ ok agent
      → All R tools
      → (agent.llm ≡ llm) × (agent.memory ≡ memory) × Found R agent.tools
  unfolding make_agent
  make_agent-tools config llm memory tools agent e all =
      elim (Bool-cases (same_length (of_pairs (tool_pairs tools)) tools)) [
        | inr h ↦ let e' = rw h at e in absurd (cc)
        | inl h ↦
            let made = rw h at e in
            let llm_ : agent.llm ≡ llm = cc in
            let memory_ : agent.memory ≡ memory = cc in
            let tools_ : of_pairs (tool_pairs tools) ≡ agent.tools = cc in
            (
              llm_,
              memory_,
              subst (Found R) tools_
                  (of_pairs-Found R (tool_pairs tools) (tool_pairs-All tools all)),
            )
      ]
