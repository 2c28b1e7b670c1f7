-- ===== src/Tools/Docker.antt =====
-- `DockerSandbox` of tools/docker_sandbox.py. The temporary directory, the files and the processes
-- are the world `W`; the container's process is known by its number.
use ai_agent_hub_project_ome.Base.{
  ℕ, String, ◌<>◌, ◌≡◌, refl, Bool, true, false, not, List, [], ◌∷◌, if◌then◌else◌, Option, none,
  some,
}
use text.Mathlib.Text.{starts_with}
use ai_agent_hub_project_ome.Base.Str.{is_blank, str_take}
use ai_agent_hub_project_ome.Base.Int.{ℤ, ltb_ℤ}
use ai_agent_hub_project_ome.Base.Exn.{
  Outcome, ok, raised, stopped, Exn, ExnKind, error, value_error, os_error, timeout_error,
  other_error, Exec, pure, raise, ◌>>=◌, ◌>>◌,
}

pub record SandboxResult : Type 0 where
  pub stdout : String
  pub stderr : String
  pub return_code : ℤ

pub record DockerSandbox : Type 0 where
  pub image : String
  pub timeout_seconds : ℤ
  pub memory : String
  pub cpus : String

-- `DockerSandbox(…)`
unfoldable pub make_sandbox : DockerSandbox → Outcome DockerSandbox
make_sandbox s =
    if ltb_ℤ s.timeout_seconds 1
    then raised (error value_error "timeout_seconds must be positive")
    else ok s

-- What the sandbox uses of the machine. `communicate` is the wait with its deadline, which raises
-- `TimeoutError`; its texts are decoded, and the return code is the one that the process ends with.
pub record Machine (W : Type 0) : Type 0 where
  pub make_temp : Exec W String
  pub remove_temp : String → W → W
  pub write_text : String → String → Exec W (Unit {0})
  pub spawn : List String → Exec W ℕ
  pub communicate : ℕ → ℤ → Exec W (String × String × ℤ)
  pub kill : ℕ → Exec W (Unit {0})
  pub wait : ℕ → Exec W (Unit {0})

abbrev pub sandbox_error : String → Exn
sandbox_error message = error (other_error "SandboxError") message

-- `"docker" in engine`
abbrev pub names_docker : String → Bool
names_docker String.[] = false
names_docker (String.◌∷◌ c s) =
    let rest = names_docker s in if starts_with (String.◌∷◌ c s) "docker" then true else rest

-- the command line
unfoldable pub command_line : DockerSandbox → String → List String
command_line s script =
    "docker"
    ∷ "run"
    ∷ "--rm"
    ∷ "--network"
    ∷ "none"
    ∷ "--read-only"
    ∷ "--cap-drop"
    ∷ "ALL"
    ∷ "--security-opt"
    ∷ "no-new-privileges"
    ∷ "--pids-limit"
    ∷ "64"
    ∷ "--memory"
    ∷ s.memory
    ∷ "--cpus"
    ∷ s.cpus
    ∷ "--user"
    ∷ "65532:65532"
    ∷ "-v"
    ∷ (script <> ":/app/main.py:ro")
    ∷ "-w"
    ∷ "/app"
    ∷ s.image
    ∷ "python"
    ∷ "/app/main.py"
    ∷ []

module _ {W : Type 0} (machine : Machine W) where
  abbrev unbound : Exn
  unbound =
      error (other_error "UnboundLocalError")
        "cannot access local variable 'process' where it is not associated with a value"

  -- `except asyncio.TimeoutError`, where the process may not have been made
  abbrev timed_out : Option ℕ → Exec W SandboxResult
  timed_out none = raise unbound
  timed_out (some process) = do
    machine.kill process
    machine.wait process
    raise (sandbox_error "sandbox execution timed out")

  -- the `except` clauses, by the class of the exception
  abbrev handle : ExnKind → Option ℕ → Exn → Exec W SandboxResult
  handle timeout_error process e = timed_out process
  handle os_error process e = raise (sandbox_error ("Docker sandbox unavailable: " <> e.message))
  handle _ process e = raise e

  abbrev settle : Option ℕ → Outcome SandboxResult × W → Outcome SandboxResult × W
  settle process (ok result, w) = (ok result, w)
  settle process (raised e, w) = handle e.kind process e w
  settle process (stopped x, w) = (stopped x, w)

  abbrev finish : String × String × ℤ → Exec W SandboxResult
  finish (stdout, stderr, code) = pure (record {
    stdout = str_take 100000 stdout;
    stderr = str_take 100000 stderr;
    return_code = code;
  })

  -- The waiting for a process that was made, or what came instead of it.
  abbrev attend : ℤ → Outcome ℕ × W → Outcome SandboxResult × W
  attend limit (ok process, w) =
      settle (some process) ((machine.communicate process limit >>= finish) w)
  attend limit (raised e, w) = settle none (raised e, w)
  attend limit (stopped x, w) = (stopped x, w)

  -- the body of the `with` block
  abbrev run_in : DockerSandbox → String → String → Exec W SandboxResult
  unfolding command_line
  run_in s code tmp = do
    let script = tmp <> "/main.py"
    machine.write_text script code
    λ w. attend s.timeout_seconds (machine.spawn (command_line s script) w)

  -- `with tempfile.TemporaryDirectory(…) as tmp`: the directory is removed at every end of the block
  abbrev with_temp :
      (String → Exec W SandboxResult) → Outcome String × W → Outcome SandboxResult × W
  with_temp body (ok tmp, w) = let (r, w') = body tmp w in (r, machine.remove_temp tmp w')
  with_temp body (raised e, w) = (raised e, w)
  with_temp body (stopped x, w) = (stopped x, w)

  -- `run_python(code)`, where `engine` is `os.getenv("OMEGA_SANDBOX_ENGINE", "docker")`
  unfoldable pub run_python : DockerSandbox → String → String → Exec W SandboxResult
  unfolding run_in
  run_python s engine code w =
      if is_blank code
      then (raised (error value_error "code cannot be empty"), w)
      else if not (names_docker engine)
      then (raised (sandbox_error "sandbox engine is disabled"), w)
      else with_temp (run_in s code) (machine.make_temp w)

  -- Once the directory is made, removing it is the last thing that a run does, whatever it comes
  -- to: a result, an exception or a stop.
  pub run_python-removes :
      (s : DockerSandbox) (engine code tmp : String) (w w₁ : W)
      → is_blank code ≡ false
      → names_docker engine ≡ true
      → machine.make_temp w ≡ (ok tmp, w₁)
      → (w₂ : W) × ((run_python s engine code w).1 ≡ machine.remove_temp tmp w₂)
  unfolding run_python
  run_python-removes s engine code tmp w w₁ e named made =
      ((run_in s code tmp w₁).1, rw (e, named, made) refl)
