-- ===== src/Tools/Filesystem.antt =====
-- `SandboxedFilesystemTool` of tools/filesystem.py. A path is the list of its components below "/".
-- The file system is the world `W`, which the tool reaches by the calls of `Files`; the function
-- that runs in a thread is one action, and where the wait for it is stopped, the call is.
pub mod Confined
pub mod Stored
mod Tests
use text.Mathlib.Text.{starts_with}
use ai_agent_hub_project_ome.Base.{
  ℕ, String, ◌==◌, Option, none, some, Bool, ◌||◌, List, [], ◌∷◌, ◌++◌, map, ltb, if◌then◌else◌,
}
use ai_agent_hub_project_ome.Base.Str.{join}
use ai_agent_hub_project_ome.Base.Int.{ℤ, pos}
use ai_agent_hub_project_ome.Base.Sort.{sort_by, str_le}
use ai_agent_hub_project_ome.Base.Exn.{
  Outcome, ok, raised, Exn, error, tool_error, tool_validation_error, Exec, pure, raise, ◌>>=◌,
  ◌>>◌,
}
use ai_agent_hub_project_ome.Base.Value.{
  Value, str, int, list, dict, Fields, end, field, get_field, values_of, Codec,
}
use ai_agent_hub_project_ome.Agent.Types.{Tool}
use ai_agent_hub_project_ome.Agent.Runtime.{lift}
use ai_agent_hub_project_ome.Tools.Arguments.{argument, text_of, utf8_length}

abbrev pub Parts : Type 0
Parts = List String

-- What the tool uses of the file system.
pub record Files (W : Type 0) : Type 0 where
  -- `(root / relative).resolve()`, which follows the symbolic links
  pub resolve : Parts → String → Exec W Parts
  pub is_file : Parts → Exec W Bool
  pub size : Parts → Exec W ℕ
  pub read_text : Parts → Exec W String
  -- `mkdir(parents=True, exist_ok=True)`
  pub make_dirs : Parts → Exec W (Unit {0})
  pub write_text : Parts → String → Exec W (Unit {0})
  pub is_dir : Parts → Exec W Bool
  -- the names of `iterdir()`
  pub entries : Parts → Exec W (List String)

pub record SandboxedFilesystemTool : Type 0 where
  pub root : Parts
  pub max_read_bytes : ℕ

-- `path.relative_to(root)`; `none` is the `ValueError`
unfoldable pub relative_to : Parts → Parts → Option Parts
relative_to path [] = some path
relative_to [] (r ∷ root) = none
relative_to (p ∷ path) (r ∷ root) = if p == r then relative_to path root else none

-- `path.parent`
abbrev pub parent : Parts → Parts
parent [] = []
parent (p ∷ []) = []
parent (p ∷ q ∷ path) = p ∷ parent (q ∷ path)

-- `str` of a relative path
abbrev pub show_parts : Parts → String
show_parts [] = "."
show_parts (p ∷ path) = join "/" (p ∷ path)

abbrev pub refusal : String → Exn
refusal message = error tool_validation_error message

module _ {W : Type 0} (files : Files W) (tool : SandboxedFilesystemTool) where
  -- The second component is the path below the root that `path.relative_to(self._root)` gives.
  abbrev pub below : Parts → Option Parts → Exec W (Parts × Parts)
  below target none = raise (refusal "Path escapes filesystem sandbox")
  below target (some rest) = pure (target, rest)

  -- `_path(relative)`
  unfoldable pub sandbox_path : String → Exec W (Parts × Parts)
  unfolding relative_to
  sandbox_path relative =
      if relative == "" || starts_with relative "/"
      then raise (refusal "path must be a relative path")
      else files.resolve tool.root relative >>= λ target.
          below target (relative_to target tool.root)

  -- `_read(path)`
  unfoldable pub read_file : Parts × Parts → Exec W Value
  read_file (path, rest) = do
    there ← files.is_file path
    if there then pure tt else raise (error tool_error "File does not exist")
    size ← files.size path
    if ltb tool.max_read_bytes size
        then raise (error tool_error "File exceeds read size limit")
        else pure tt
    content ← files.read_text path
    pure (dict (field "path" (str (show_parts rest)) (field "content" (str content) end)))

  -- `_write(path, content)`
  unfoldable pub write_file : String → Parts × Parts → Exec W Value
  unfolding utf8_length
  write_file content (path, rest) = do
    if ltb tool.max_read_bytes (utf8_length content)
        then raise (error tool_error "Content exceeds write size limit")
        else pure tt
    files.make_dirs (parent path)
    files.write_text path content
    pure (
        dict (
          field "path" (str (show_parts rest))
            (field "bytes" (int (pos (utf8_length content))) end)))

  -- `_list(path)`
  unfoldable pub list_dir : Parts × Parts → Exec W Value
  list_dir (path, rest) = do
    there ← files.is_dir path
    if there then pure tt else raise (error tool_error "Directory does not exist")
    names ← files.entries path
    pure (
        dict (
          field "path" (str (show_parts rest))
            (field "entries" (list (values_of (map (λ s. str s) (sort_by str_le names)))) end)))

  abbrev pub write_content : Option Value → Parts × Parts → Exec W Value
  unfolding write_file
  write_content (some (str content)) path = write_file content path
  write_content _ path = raise (refusal "content must be a string")

  abbrev pub operate : String → Fields → Parts × Parts → Exec W Value
  unfolding read_file list_dir write_file get_field
  operate operation arguments path =
      if operation == "read"
      then read_file path
      else if operation == "write"
      then write_content (get_field "content" arguments) path
      else if operation == "list"
      then list_dir path
      else raise (refusal "operation must be read, write, or list")

  -- `run(arguments)`
  unfoldable pub run_files : Codec → Fields → Exec W Value
  unfolding sandbox_path operate
  run_files codec arguments = do
    operation ← lift (argument "operation" arguments)
    relative ← lift (argument "path" arguments)
    path ← sandbox_path (text_of codec relative)
    operate (text_of codec operation) arguments path
