-- ===== src/Runs/Runner.antt =====
-- `OMEGAAgentRunner` of infrastructure/runtime.py.
use ai_agent_hub_project_ome.Base.{
  ◌≡◌, ◌≢◌, ◌⊎◌, inl, inr, refl, Option, none, some, false, Bool-cases, if◌then◌else◌,
}
use ai_agent_hub_project_ome.Base.Str.{is_blank}
use ai_agent_hub_project_ome.Base.Exn.{
  Outcome, ok, raised, stopped, Exn, Exec, pure, ◌>>=◌, continue,
}
use ai_agent_hub_project_ome.Base.Value.{update, Codec}
use ai_agent_hub_project_ome.Agent.Types.{
  AgentConfig, make_agent_config, make_agent_config-IsValidConfig, IsValidConfig-make_agent_config,
}
use ai_agent_hub_project_ome.Agent.Runtime.Making.{make_agent-config}
use ai_agent_hub_project_ome.Agent.Runtime.{AutonomousAgent, AgentFactory, create, make_agent, lift}
use ai_agent_hub_project_ome.Base.Rules.{Ends}
use ai_agent_hub_project_ome.Orchestrator.Run.{AgentRun, Host, EventHandler, run}
use ai_agent_hub_project_ome.Orchestrator.Run.Outcomes.{IsRequest, run-total}
use ai_agent_hub_project_ome.Orchestrator.Graph.{is_completed}
use ai_agent_hub_project_ome.Runs.Models.{RunState, RunCommand, RunSnapshot}

pub record AgentRunner (W : Type 0) : Type 0 where
  pub factory : AgentFactory W
  pub default_config : AgentConfig

module _ (codec : Codec) {W : Type 0} (host : Host W) (handler : Option (EventHandler W))
    (runner : AgentRunner W) where
  abbrev pub config_for : RunCommand → AgentConfig
  unfolding update
  config_for command = record runner.default_config {
    name = command.agent;
    metadata = update runner.default_config.metadata command.metadata;
  }

  abbrev pub snapshot_of : RunCommand → AgentRun → RunSnapshot
  unfolding is_completed
  snapshot_of command execution = record {
    run_id = execution.run_id;
    command = command;
    state = if is_completed execution.status then RunState.completed else RunState.failed;
    result = execution.result;
    error_text = execution.error_text;
    trace = execution.trace;
  }

  -- `run(command)`
  unfoldable pub run_command : RunCommand → Exec W RunSnapshot
  unfolding make_agent_config create run
  run_command command = do
    config ← lift (make_agent_config (config_for command))
    agent ← lift (create runner.factory config none none)
    execution ←
        run codec host handler agent command.prompt (some config.max_iterations)
          (some config.timeout_seconds) (some config.token_budget)
    pure (snapshot_of command execution)

-- A runner with a valid configuration, whose factory makes agents.
pub record IsRunner {W : Type 0} (runner : AgentRunner W) : Type 0 where
  pub config : make_agent_config runner.default_config ≡ ok runner.default_config
  pub agent : AutonomousAgent W
  pub made :
      make_agent runner.default_config runner.factory.llm runner.factory.memory runner.factory.tools
      ≡ ok agent

-- What a runner comes back with: the command, and a final state.
abbrev pub Finished : {W : Type 0} → RunCommand → Outcome RunSnapshot → W → Type 0
Finished command (ok s) w =
    (s.command ≡ command) × ((s.state ≡ RunState.completed) ⊎ (s.state ≡ RunState.failed))
Finished command (raised e) w = ⊥
Finished command (stopped x) w = Unit

module _ (codec : Codec) {W : Type 0} (host : Host W) (handler : Option (EventHandler W))
    (runner : AgentRunner W) (valid : IsRunner runner) where
  make_agent_config-config_for :
      (command : RunCommand)
      → is_blank command.agent ≡ false
      → make_agent_config (config_for codec host handler runner command)
        ≡ ok (config_for codec host handler runner command)
  unfolding config_for
  make_agent_config-config_for command named =
      let v = make_agent_config-IsValidConfig runner.default_config _ valid.config in
      IsValidConfig-make_agent_config (config_for codec host handler runner command) (record {
        named = named;
        prompted = v.prompted;
        iterations = v.iterations;
        seconds = v.seconds;
        tokens = v.tokens;
      })

  snapshot-Finished :
      (command : RunCommand) (r : Outcome AgentRun) (w' : W)
      → ((e : Exn) → r ≢ raised e)
      → Ends (Finished command) (
          continue r
            (λ execution. pure (snapshot_of codec host handler runner command execution))
            w')
  unfolding snapshot_of
  snapshot-Finished command (ok execution) w' h =
      elim (Bool-cases (is_completed execution.status)) [
        | inl e ↦ (refl, inl (rw e refl))
        | inr e ↦ (refl, inr (rw e refl))
      ]
  snapshot-Finished command (raised e) w' h = absurd (h e refl)
  snapshot-Finished command (stopped x) w' h = tt

  -- A command with text for its prompt and its agent does not make the runner raise: it comes back
  -- with a snapshot of the command that is completed or failed, unless its task is stopped.
  pub run_command-Finished :
      (command : RunCommand) (w : W)
      → is_blank command.prompt ≡ false
      → is_blank command.agent ≡ false
      → Ends (Finished command) (run_command codec host handler runner command w)
  unfolding run_command create config_for
  run_command-Finished command w text named =
      let config = config_for codec host handler runner command in
      let (agent, made, same) =
        make_agent-config config runner.default_config runner.factory.llm runner.factory.memory
          runner.factory.tools valid.agent valid.made in
      let v = make_agent_config-IsValidConfig runner.default_config _ valid.config in
      let ran =
        run codec host handler agent command.prompt (some config.max_iterations)
          (some config.timeout_seconds) (some config.token_budget) w in
      let asked : IsRequest agent.config command.prompt (some config.max_iterations)
          (some config.timeout_seconds) (some config.token_budget) =
        record { text = text; iterations = v.iterations; seconds = v.seconds; tokens = v.tokens } in
      rw (make_agent_config-config_for command named, made)
        (snapshot-Finished command ran.0 ran.1 (λ e h.
          run-total codec host handler agent command.prompt (some config.max_iterations)
            (some config.timeout_seconds) (some config.token_budget) w asked e ran.1
            (λ i. (h i, ran.1))))
