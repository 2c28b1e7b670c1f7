-- ===== src/Tools/Filesystem/Tests.antt =====
-- Runs over a disk that is a table from paths to texts.
use ai_agent_hub_project_ome.Base.{
  ℕ, ◌≡◌, ◌==◌, inr, eq_refl, refl, ap, subst, String, Option, none, some, true, [], ◌∷◌, ◌++◌,
  if◌then◌else◌,
}
use ai_agent_hub_project_ome.Base.Int.{pos}
use ai_agent_hub_project_ome.Base.Str.{join}
use ai_agent_hub_project_ome.Base.Dict.{Dict, lookup, insert, keys, has, lookup-insert}
use ai_agent_hub_project_ome.Base.Exn.{
  Outcome, ok, raised, error, os_error, tool_validation_error, Exec,
}
use ai_agent_hub_project_ome.Base.Value.{int, str, dict, Fields, end, field, get_field, Codec}
use ai_agent_hub_project_ome.Tools.Arguments.{utf8_length}
use ai_agent_hub_project_ome.Tools.Filesystem.{
  Parts, Files, SandboxedFilesystemTool, relative_to, sandbox_path, write_file, run_files,
}
use ai_agent_hub_project_ome.Tools.Filesystem.Confined.{Agree, run_files-same}
use ai_agent_hub_project_ome.Tools.Filesystem.Stored.{IsKeeping, run_files-stored}

abbrev Disk : Type 0
Disk = Dict String

abbrev place : Parts → String
place path = join "/" path

abbrev text_or : Option String → Outcome String
text_or none = raised (error os_error "No such file or directory")
text_or (some text) = ok text

abbrev length_or : Option String → ℕ
unfolding utf8_length
length_or none = 0
length_or (some text) = utf8_length text

-- ".." is followed; every other name is a file below the root.
abbrev disk : Files Disk
unfolding lookup insert keys
disk = record {
  resolve = λ root relative w. (ok (if relative == ".." then [] else root ++ relative ∷ []), w);
  is_file = λ path w. (ok (has (place path) w), w);
  size = λ path w. (ok (length_or (lookup (place path) w)), w);
  read_text = λ path w. (text_or (lookup (place path) w), w);
  make_dirs = λ path w. (ok tt, w);
  write_text = λ path text w. (ok tt, insert (place path) text w);
  is_dir = λ path w. (ok true, w);
  entries = λ path w. (ok (keys w), w);
}

abbrev only_below : {A : Type 0} → (Parts → Exec Disk A) → Parts → Exec Disk A
unfolding relative_to
only_below act path = elim (relative_to path ("srv" ∷ [])) [
  | none ↦ λ w. (raised (error os_error "Permission denied"), [])
  | some rest ↦ act path
]

-- The same disk, on which every call outside of the root fails and ruins it.
abbrev fragile : Files Disk
unfolding disk only_below
fragile = record {
  resolve = disk.resolve;
  is_file = only_below disk.is_file;
  size = only_below disk.size;
  read_text = only_below disk.read_text;
  make_dirs = disk.make_dirs;
  write_text = λ path text. only_below (λ p. disk.write_text p text) path;
  is_dir = only_below disk.is_dir;
  entries = only_below disk.entries;
}

abbrev tool : SandboxedFilesystemTool
tool = record { root = "srv" ∷ []; max_read_bytes = 20 }

abbrev codec : Codec
codec = record { show = λ v. "value"; dumps = λ v. "{}"; loads = λ text. inr "Expecting value" }

abbrev call : String → String → Fields → Fields
call operation path rest = field "operation" (str operation) (field "path" (str path) rest)

agree : Agree disk fragile tool.root
unfolding disk fragile only_below relative_to
agree = record {
  resolve = refl;
  is_file = λ rest. refl;
  size = λ rest. refl;
  read_text = λ rest. refl;
  make_dirs = λ rest. refl;
  write_text = λ rest. refl;
  is_dir = λ rest. refl;
  entries = λ rest. refl;
}

run_files-same_example :
    run_files disk tool codec (call "read" ".." end)
    ≡ run_files fragile tool codec (call "read" ".." end)
run_files-same_example = run_files-same disk fragile tool agree codec (call "read" ".." end)

escape_test :
    (run_files disk tool codec (call "read" ".." end) []).0
    ≡ raised (error tool_validation_error "Path escapes filesystem sandbox")
unfolding run_files sandbox_path relative_to get_field disk
escape_test = refl

write_test :
    run_files disk tool codec (call "write" "notes.txt" (field "content" (str "hé") end)) [] ≡ (
      ok (dict (field "path" (str "notes.txt") (field "bytes" (int (pos 3)) end))),
      ("srv/notes.txt", "hé") ∷ [],
    )
unfolding run_files sandbox_path write_file relative_to get_field disk utf8_length insert
write_test = refl

keeping : IsKeeping disk
unfolding disk insert utf8_length length_or
keeping = record {
  kept = λ path text w w' plain written.
      let same : insert (place path) text w ≡ w' =
        ap (λ (p : Outcome (Unit {0}) × Disk). p.1) written in
      let there : lookup (place path) w' ≡ some text =
        subst (λ (d : Disk). lookup (place path) d ≡ some text) same
          (rw (lookup-insert (place path) (place path) text w, eq_refl (place path)) refl) in
      (rw there refl, rw there refl, rw there refl);
  leads = λ root path relative text w w₁ w₂ w₃ resolved made written.
      let same : (if relative == ".." then [] else root ++ relative ∷ []) ≡ path = cc in
      rw same refl;
}

run_files-stored_example :
    (shown : String) × (dict (field "path" (str "notes.txt") (field "bytes" (int (pos 3)) end))
      ≡ dict (field "path" (str shown) (field "bytes" (int (pos (utf8_length "hé"))) end)))
    × (run_files disk tool codec (call "read" "notes.txt" end) (("srv/notes.txt", "hé") ∷ []) ≡ (
      ok (dict (field "path" (str shown) (field "content" (str "hé") end))),
      ("srv/notes.txt", "hé") ∷ [],
    ))
unfolding get_field
run_files-stored_example =
    run_files-stored disk tool codec keeping "notes.txt" "hé"
      (call "write" "notes.txt" (field "content" (str "hé") end)) (call "read" "notes.txt" end)
      (dict (field "path" (str "notes.txt") (field "bytes" (int (pos 3)) end))) []
      (("srv/notes.txt", "hé") ∷ []) (refl, refl) refl (refl, refl) refl write_test
