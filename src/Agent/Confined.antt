-- ===== src/Agent/Confined.antt =====
-- What the operations of an agent can do to the world.
use ai_agent_hub_project_ome.Base.{
  ℕ, ◌≡◌, inl, inr, String, ◌==◌, Option, none, some, Bool-cases, Option-cases,
}
use ai_agent_hub_project_ome.Base.Str.{is_blank, strip}
use ai_agent_hub_project_ome.Base.Dict.{lookup}
use ai_agent_hub_project_ome.Base.Exn.{
  Outcome, ok, raised, stopped, Exn, Exec, continue, ◌>>=◌, recover, try_except,
}
use ai_agent_hub_project_ome.Base.Value.{Value, Fields, Codec}
use ai_agent_hub_project_ome.Agent.Types.{AgentAction, MemoryStore, Tool}
use ai_agent_hub_project_ome.Agent.Runtime.{
  AutonomousAgent, perceive, plan, execute, reflect, remember, recall_for, store_in,
}

-- An action keeps what is known of the state, however it ends.
abbrev pub Keeps : {S A : Type 0} → (S → Type 0) → Exec S A → Type 0
Keeps P m = (s : _) → P s → P (m s).1

module _ {S : Type 0} {P : S → Type 0} where
  continue-Keeps :
      {A B : Type 0} (r : Outcome A) (f : A → Exec S B) (s : S)
      → ((a : A) → Keeps P (f a))
      → P s
      → P (continue r f s).1
  continue-Keeps (ok a) f s h p = h a s p
  continue-Keeps (raised e) f s h p = p
  continue-Keeps (stopped x) f s h p = p

  pub bind-Keeps :
      {A B : Type 0} (m : Exec S A) (f : A → Exec S B)
      → Keeps P m
      → ((a : A) → Keeps P (f a))
      → Keeps P (m >>= f)
  bind-Keeps m f k h s p = continue-Keeps (m s).0 f (m s).1 h (k s p)

  recover-Keeps :
      {A : Type 0} (h : Exn → Exec S A) (r : Outcome A) (s : S)
      → ((e : Exn) → Keeps P (h e))
      → P s
      → P (recover h r s).1
  recover-Keeps h (ok a) s k p = p
  recover-Keeps h (raised e) s k p = k e s p
  recover-Keeps h (stopped x) s k p = p

  pub try_except-Keeps :
      {A : Type 0} (m : Exec S A) (h : Exn → Exec S A)
      → Keeps P m
      → ((e : Exn) → Keeps P (h e))
      → Keeps P (try_except m h)
  try_except-Keeps m h k l s p = recover-Keeps h (m s).0 (m s).1 l (k s p)

-- What is known of the world is kept by a memory, if there is one.
abbrev pub IsKeptMemory : {W : Type 0} → (W → Type 0) → Option (MemoryStore W) → Type 0
IsKeptMemory P none = Unit
IsKeptMemory P (some memory) =
    ((query : String) (limit : ℕ) → Keeps P (memory.recall query limit))
    × ((text : String) (metadata : Option Fields) → Keeps P (memory.remember text metadata))

-- It is kept by the model, the memory and the tools of an agent.
pub record IsKept {W : Type 0} (P : W → Type 0) (agent : AutonomousAgent W) : Type 0 where
  pub model : (system prompt : String) → Keeps P (agent.llm.generate system prompt)
  pub memory : IsKeptMemory P agent.memory
  pub tools :
      (name : String) (tool : Tool W) (arguments : Fields)
      → lookup name agent.tools ≡ some tool
      → Keeps P (tool.run arguments)

module _ (codec : Codec) {W : Type 0} {P : W → Type 0} (agent : AutonomousAgent W)
    (kept : IsKept P agent) where
  recall_for-Keeps :
      (memory : Option (MemoryStore W)) (task : String)
      → IsKeptMemory P memory
      → Keeps P (recall_for memory task)
  recall_for-Keeps none task e w p = p
  recall_for-Keeps (some memory) task e w p = e.0 task 5 w p

  store_in-Keeps :
      (memory : Option (MemoryStore W)) (text : String) (metadata : Option Fields)
      → IsKeptMemory P memory
      → Keeps P (store_in memory text metadata)
  store_in-Keeps none text metadata e w p = p
  store_in-Keeps (some memory) text metadata e w p = elim (Bool-cases (is_blank text)) [
    | inl b ↦ rw b p
    | inr b ↦ rw b (e.1 (strip text) metadata w p)
  ]

  pub perceive-Keeps : (task : String) → Keeps P (perceive agent task)
  unfolding perceive
  perceive-Keeps task w p = elim (Bool-cases (is_blank task)) [
    | inl b ↦ rw b p
    | inr b ↦ rw b (
        bind-Keeps (recall_for agent.memory task) _ (recall_for-Keeps agent.memory task kept.memory)
          (λ memories s q. q) w p)
  ]

  pub plan-Keeps : (observation : Fields) → Keeps P (plan codec agent observation)
  unfolding plan
  plan-Keeps observation = bind-Keeps _ _ (kept.model _ _) (λ raw s p. p)

  pub reflect-Keeps :
      (observation : Fields) (action : AgentAction) (result : Value)
      → Keeps P (reflect codec agent observation action result)
  unfolding reflect
  reflect-Keeps observation action result = bind-Keeps _ _ (kept.model _ _) (λ raw s p. p)

  pub execute-Keeps : (action : AgentAction) → Keeps P (execute agent action)
  unfolding execute
  execute-Keeps action w p = elim (Bool-cases (action.action == "final")) [
    | inl e ↦ rw e p
    | inr e ↦ elim (Option-cases (lookup action.action agent.tools)) [
      | inl n ↦ rw (e, n) p
      | inr (tool, n) ↦ rw (e, n) (kept.tools action.action tool action.arguments n w p)
    ]
  ]

  pub remember-Keeps :
      (text : String) (metadata : Option Fields) → Keeps P (remember agent text metadata)
  unfolding remember
  remember-Keeps text metadata w p = store_in-Keeps agent.memory text metadata kept.memory w p
