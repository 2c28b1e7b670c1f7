-- ===== src/Tools/Filesystem/Stored.antt =====
-- A file that the tool has written, read back.
use ai_agent_hub_project_ome.Base.{
  String, ◌==◌, ◌≡◌, refl, ap, sym, Option, none, some, true, false, ◌||◌, inl, inr, Bool-cases,
  ltb, ◌∙◌,
}
use text.Mathlib.Text.{starts_with}
use ai_agent_hub_project_ome.Base.Str.{has_code}
use ai_agent_hub_project_ome.Base.Int.{pos}
use ai_agent_hub_project_ome.Base.Exn.{Outcome, ok, ◌>>=◌, pure}
use ai_agent_hub_project_ome.Base.Rules.{bind-eq-ok}
use ai_agent_hub_project_ome.Base.Value.{
  Value, str, int, dict, Fields, end, field, get_field, Codec,
}
use ai_agent_hub_project_ome.Tools.Arguments.{utf8_length}
use ai_agent_hub_project_ome.Tools.Filesystem.{
  Parts, Files, SandboxedFilesystemTool, relative_to, parent, below, show_parts, sandbox_path,
  read_file, write_file, operate, run_files,
}

-- What the file system does with a text that is written: it is there as it was given, where the
-- text has no carriage return, which `read_text` would turn into a line feed. Making directories
-- and writing to a path that has been resolved does not change where a name leads.
pub record IsKeeping {W : Type 0} (files : Files W) : Type 0 where
  pub kept :
      (path : Parts) (text : String) (w w' : W)
      → has_code 13 text ≡ false
      → files.write_text path text w ≡ (ok tt, w')
      → (files.is_file path w' ≡ (ok true, w'))
        × (files.size path w' ≡ (ok (utf8_length text), w'))
        × (files.read_text path w' ≡ (ok text, w'))
  pub leads :
      (root path : Parts) (relative text : String) (w w₁ w₂ w₃ : W)
      → files.resolve root relative w ≡ (ok path, w₁)
      → files.make_dirs (parent path) w₁ ≡ (ok tt, w₂)
      → files.write_text path text w₂ ≡ (ok tt, w₃)
      → files.resolve root relative w₃ ≡ (ok path, w₃)

abbrev written_value : Parts → String → Value
written_value rest content =
    dict
      (field "path" (str (show_parts rest)) (field "bytes" (int (pos (utf8_length content))) end))

module _ {W : Type 0} (files : Files W) (tool : SandboxedFilesystemTool) where
  below-eq-ok :
      (target path rest : Parts) (o : Option Parts) (w w' : W)
      → below files tool target o w ≡ (ok (path, rest), w')
      → (target ≡ path) × (o ≡ some rest) × (w ≡ w')
  below-eq-ok target path rest none w w' e = absurd (cc)
  below-eq-ok target path rest (some r) w w' e = (cc, cc, cc)

  sandbox_path-eq-ok :
      (relative : String) (path rest : Parts) (w w' : W)
      → sandbox_path files tool relative w ≡ (ok (path, rest), w')
      → (relative == "" || starts_with relative "/" ≡ false)
        × (files.resolve tool.root relative w ≡ (ok path, w'))
        × (relative_to path tool.root ≡ some rest)
  unfolding sandbox_path
  sandbox_path-eq-ok relative path rest w w' e =
      elim (Bool-cases (relative == "" || starts_with relative "/")) [
        | inl bad ↦ absurd (let wrong = rw bad at e in cc)
        | inr good ↦
            let (target, w₁, found, after) =
              bind-eq-ok (files.resolve tool.root relative)
                (λ target. below files tool target (relative_to target tool.root)) w w' (path, rest)
                (rw good at e) in
            let (same, inside, still) =
              below-eq-ok target path rest (relative_to target tool.root) w₁ w' after in
            (good, cc, ap (λ (l : Parts). relative_to l tool.root) (sym same) ∙ inside)
      ]

  write_file-eq-ok :
      (content : String) (path rest : Parts) (value : Value) (w w' : W)
      → write_file files tool content (path, rest) w ≡ (ok value, w')
      → (w₁ : W) × (ltb tool.max_read_bytes (utf8_length content) ≡ false)
        × (files.make_dirs (parent path) w ≡ (ok tt, w₁))
        × (files.write_text path content w₁ ≡ (ok tt, w'))
        × (value ≡ written_value rest content)
  unfolding write_file
  write_file-eq-ok content path rest value w w' e =
      elim (Bool-cases (ltb tool.max_read_bytes (utf8_length content))) [
        | inl big ↦ absurd (let wrong = rw big at e in cc)
        | inr small ↦
            let (_, w₁, made, e₁) =
              bind-eq-ok (files.make_dirs (parent path))
                (λ _. files.write_text path content >>= λ _. pure (written_value rest content)) w w'
                value (rw small at e) in
            let (_, w₂, written, e₂) =
              bind-eq-ok (files.write_text path content) (λ _. pure (written_value rest content)) w₁
                w' value e₁ in
            (w₁, small, made, written ∙ ap (λ (p : Outcome Value × W). (ok tt, p.1)) e₂, cc)
      ]

  -- What is kept can be read.
  read_file-kept :
      (content : String) (path rest : Parts) (w : W)
      → ltb tool.max_read_bytes (utf8_length content) ≡ false
      → files.is_file path w ≡ (ok true, w)
      → files.size path w ≡ (ok (utf8_length content), w)
      → files.read_text path w ≡ (ok content, w)
      → read_file files tool (path, rest) w
        ≡ (ok (dict (field "path" (str (show_parts rest)) (field "content" (str content) end))), w)
  unfolding read_file
  read_file-kept content path rest w small there size text = rw (there, size, small, text) refl

  -- Arguments of a call on a path.
  abbrev pub Asks : String → String → Fields → Type 0
  Asks operation relative arguments =
      (get_field "operation" arguments ≡ some (str operation))
      × (get_field "path" arguments ≡ some (str relative))

  -- A write that succeeds can be read back by the name that it was given: the answer has the
  -- content, and the same path as the answer to the write. The text has no carriage return.
  pub run_files-stored :
      (codec : Codec) (keeping : IsKeeping files) (relative content : String) (write read : Fields)
      (value : Value) (w w' : W)
      → Asks "write" relative write
      → get_field "content" write ≡ some (str content)
      → Asks "read" relative read
      → has_code 13 content ≡ false
      → run_files files tool codec write w ≡ (ok value, w')
      → (shown : String) × (value
          ≡ dict (field "path" (str shown) (field "bytes" (int (pos (utf8_length content))) end)))
        × (run_files files tool codec read w'
            ≡ (ok (dict (field "path" (str shown) (field "content" (str content) end))), w'))
  unfolding run_files operate sandbox_path
  run_files-stored codec keeping relative content write read value w w' (op, at_path) text
        (op', at_path') plain e =
      let ((path, rest), w₁, located, done) =
        bind-eq-ok (sandbox_path files tool relative) (write_file files tool content) w w' value
          (rw (op, at_path, text, get_field) at e) in
      let (good, found, inside) = sandbox_path-eq-ok relative path rest w w₁ located in
      let (w₂, small, made, written, same) = write_file-eq-ok content path rest value w₁ w' done in
      let (there, size, readable) = keeping.kept path content w₂ w' plain written in
      let again = keeping.leads tool.root path relative content w w₁ w₂ w' found made written in
      (
        show_parts rest,
        same,
        rw (op', at_path', good, again, inside)
            (read_file-kept content path rest w' small there size readable),
      )
