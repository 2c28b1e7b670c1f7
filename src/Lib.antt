-- ===== src/Lib.antt =====
-- PROJECT OMEGA: models of the runtime of an agent operating system, and what is proved of them.
--
-- The program. A client submits a command to the run service, which keeps a snapshot of each run
-- in a repository and executes it in a task of its own. The task calls the agent runner, which
-- makes an agent from the factory and gives it to the orchestrator. The orchestrator drives the
-- agent in rounds of planning, executing, reflecting and remembering, within budgets of
-- iterations, tokens and time; it can also chain agents along a graph of nodes. An agent reaches a
-- model through the LLM gateway, which selects a route, retries and accounts for tokens, and tools
-- through the registry, which admits only registered tools and valid arguments. A state graph is a
-- second, smaller workflow engine, with approval gates.
--
-- Files and code. Base is shared: texts, dictionaries, JSON values, sorting, exceptions, and the
-- proof rules for awaited actions. Agent models src/omega/agents/agent_factory.py: the value
-- objects and ports (Agent/Types), how a model's text becomes an action (Agent/Decode:
-- `_decode_json_object`, `_parse_action`), and the agent's operations and the factory
-- (Agent/Runtime). Orchestrator models src/omega/orchestrator/orchestrator.py: `TokenBudget`
-- (Orchestrator/Budget), `run`, `_run_loop` and `_emit` (Orchestrator/Run), `register` and
-- `run_graph` (Orchestrator/Graph). StateGraph models src/omega/orchestrator/state_graph.py.
-- Gateway models src/omega/llm_models/gateway.py and src/omega/llm_models/token_management.py:
-- `TokenEstimator` and `TokenLedger` (Gateway/Tokens), `LLMRouter` (Gateway/Router), `LLMRequest`
-- and `LLMGateway` (Gateway/Retry); and src/omega/llm_models/providers.py, gemini.py and config.py
-- beside them: the adapters of vendors (Gateway/Providers) and `build_gateway`
-- (Gateway/Providers/Config). Tools models the package src/omega/tools: of registry.py `ToolSpec`
-- and the validation of arguments (Tools/Spec), `ToolRegistry` (Tools/Registry), `WebSearchTool`
-- (Tools/Search) and `SafeCodeExecutionTool` (Tools/Code); of runtime.py `ToolPermission`,
-- `RegistryTool` and `build_agent_tools` (Tools/Runtime) and the registration of the built-in
-- tools (Tools/Standard); and filesystem.py, http_tool.py, git.py, database.py and
-- docker_sandbox.py (Tools/Filesystem, Http, Git, Database, Docker). Runs models
-- src/omega/domain/models.py and src/omega/infrastructure/repositories.py (Runs/Models),
-- src/omega/infrastructure/runtime.py (Runs/Runner) src/omega/application/run_service.py
-- (Runs/Service) and src/omega/api/app.py: the routes (Runs/Api) and the wiring of the control
-- plane (Runs/Plane). Memory models src/omega/memory/multi_tier.py, `ShortTermMemory`
-- (Memory/ShortTerm) and the tiers around it (Memory/Tiers), and src/omega/memory/store.py: the
-- vector store and the embedding (Memory/Vectors), the memory over them (Memory/Store) and the
-- journal that it refines (Memory/Store/Journal). Queue models src/omega/queue/broker.py
-- (Queue/Broker). The Tests modules run the definitions at concrete inputs.
--
-- Conventions. Arguments and fields have the types of their annotations. An awaited function is an
-- action `Exec S A`: it takes a state and returns a result and a state, where a result is a value,
-- an exception with its class and text, or a stop. A stop is a cancellation, or the deadline of an
-- enclosing `asyncio.wait_for`, which turns its own into a `TimeoutError`. The ports (models,
-- memories, tools, providers, event handlers, clocks, identifiers, `asyncio.sleep`, the calls of
-- the operating system and of the network) act on a world `W` that the program does not see into,
-- and may do anything with it. Timeouts, delays and temperatures are numbers of hundredths. `str`,
-- `json.dumps` and `json.loads` of values are a parameter, `Codec`.
--
-- Bounds and fuel. Loops over a range are recursions on the rounds that are left. The loop of the
-- state graph runs on fuel: one unit for each step that its bound leaves, and one for the last
-- test of the bound. The tasks of the run service take turns, one for each await where they may be
-- resumed; a task is resumed by what happens there. The loop of the short-term memory runs on fuel
-- that is an argument of `add`, one unit for each round.
--
-- Not modelled. `create_from_dict`, whose values may have any type,
-- src/omega/memory/qdrant_store.py and telemetry (src/omega/observability) are left out. The
-- broker's operations are taken one after the other; tasks that publish at once are not modelled.
-- The operating system, SQLite, git, Docker, the network and the hash functions are parameters; so
-- are the floats of the memory store and of the evaluator, as records of operations (Floats,
-- Floating), of which the theorems ask what they name. Elsewhere floats are finite.
pub mod Base
pub mod Agent
pub mod Orchestrator
pub mod StateGraph
pub mod Gateway
pub mod Tools
pub mod Runs
pub mod Memory
pub mod Queue
