-- ===== src/Tools/Git.antt =====
-- `GitInspectionTool` of tools/git.py. The subprocess in the repository's directory is a call on the
-- world `W`.
use ai_agent_hub_project_ome.Base.{
  zero, String, ◌==◌, ◌<>◌, ◌≡◌, refl, ap, Bool, List, [], ◌∷◌, if◌then◌else◌, inl, inr, Bool-cases,
}
use ai_agent_hub_project_ome.Base.Str.{strip}
use ai_agent_hub_project_ome.Base.Int.{ℤ, pos, str_ℤ}
use ai_agent_hub_project_ome.Base.Exn.{
  Outcome, ok, raised, stopped, Exn, Stop, error, value_error, tool_error, tool_validation_error,
  Exec, ◌>>=◌,
}
use ai_agent_hub_project_ome.Base.Value.{Value, str, dict, Fields, end, field, Codec}
use ai_agent_hub_project_ome.Agent.Runtime.{lift}
use ai_agent_hub_project_ome.Tools.Arguments.{argument, text_of}

-- How `subprocess.run` comes out; `git_failed` is an `OSError` or a `TimeoutExpired`.
pub data Ran : Type 0 where
  finished : (returncode : ℤ) (stdout stderr : String) → Ran
  git_failed : (message : String) → Ran
  other_failure : Exn → Ran
  cut_off : Stop → Ran

-- `["git", *command]`
abbrev pub Subprocess : Type 0 → Type 0
Subprocess W = List String → W → Ran × W

-- `GitInspectionTool(repository_root=…)`, by whether the directory has a ".git"
unfoldable pub make_git : Bool → Outcome (Unit {0})
make_git there =
    if there
    then ok tt
    else raised (error value_error "repository_root must contain a .git directory")

-- the command of an operation of the set
unfoldable pub command_of : String → Outcome (List String)
command_of operation =
    if operation == "status"
    then ok ("status" ∷ "--short" ∷ [])
    else if operation == "log"
    then ok ("log" ∷ "-10" ∷ "--oneline" ∷ [])
    else if operation == "diff"
    then ok ("diff" ∷ "--stat" ∷ [])
    else raised (error tool_validation_error "operation must be status, log, or diff")

-- `stderr.strip() or f"…"`
abbrev failure : ℤ → String → String
failure code stderr =
    if strip stderr == "" then "git exited with code " <> str_ℤ code else strip stderr

abbrev command_name : List String → String
command_name [] = ""
command_name (name ∷ rest) = name

unfoldable pub git_answer : List String → Ran → Outcome Value
git_answer command (finished (pos zero) stdout stderr) =
    ok (dict (field "operation" (str (command_name command)) (field "output" (str stdout) end)))
git_answer command (finished code stdout stderr) = raised (error tool_error (failure code stderr))
git_answer command (git_failed message) =
    raised (error tool_error ("Git operation failed: " <> message))
git_answer command (other_failure e) = raised e
git_answer command (cut_off x) = stopped x

module _ {W : Type 0} (subprocess : Subprocess W) where
  -- `_run(command)`
  unfoldable pub run_command : List String → Exec W Value
  run_command command w =
      let (ran, w') = subprocess ("git" ∷ command) w in (git_answer command ran, w')

  -- `run(arguments)`
  unfoldable pub run_git : Codec → Fields → Exec W Value
  run_git codec arguments = do
    operation ← lift (argument "operation" arguments)
    command ← lift (command_of (text_of codec operation))
    run_command command

run_command-same :
    {W : Type 0} (p q : Subprocess W) (command : List String)
    → p ("git" ∷ command) ≡ q ("git" ∷ command)
    → run_command p command ≡ run_command q command
unfolding run_command
run_command-same {W} p q command same =
    ap {B = Exec W Value}
      (λ (m : W → Ran × W) (w : W). let (ran, w') = m w in (git_answer command ran, w')) same

module _ {W : Type 0} (p q : Subprocess W)
    (status : p ("git" ∷ "status" ∷ "--short" ∷ []) ≡ q ("git" ∷ "status" ∷ "--short" ∷ []))
    (log : p ("git" ∷ "log" ∷ "-10" ∷ "--oneline" ∷ [])
      ≡ q ("git" ∷ "log" ∷ "-10" ∷ "--oneline" ∷ []))
    (diff : p ("git" ∷ "diff" ∷ "--stat" ∷ []) ≡ q ("git" ∷ "diff" ∷ "--stat" ∷ [])) where
  operation-same :
      (operation : String)
      → (lift (command_of operation) >>= run_command p)
        ≡ (lift (command_of operation) >>= run_command q)
  unfolding command_of
  operation-same operation = elim (Bool-cases (operation == "status")) [
    | inl e ↦ rw e (run_command-same p q _ status)
    | inr e ↦ elim (Bool-cases (operation == "log")) [
      | inl e' ↦ rw (e, e') (run_command-same p q _ log)
      | inr e' ↦ elim (Bool-cases (operation == "diff")) [
        | inl f ↦ rw (e, e', f) (run_command-same p q _ diff)
        | inr f ↦ rw (e, e', f) refl
      ]
    ]
  ]

  -- Whatever its arguments are, the tool only runs `git status --short`, `git log -10 --oneline` and
  -- `git diff --stat`: it acts alike over two systems in which those three do the same.
  pub run_git-same :
      (codec : Codec) (arguments : Fields) → run_git p codec arguments ≡ run_git q codec arguments
  unfolding run_git
  run_git-same codec arguments =
      ap (λ (next : Value → Exec W Value). lift (argument "operation" arguments) >>= next)
        (λ i operation. operation-same (text_of codec operation) i)
