-- ===== src/Tools/Filesystem/Confined.antt =====
-- What the tool may touch.
use ai_agent_hub_project_ome.Base.{
  String, ◌==◌, ◌≡◌, refl, ap, Option, none, some, ◌||◌, [], ◌∷◌, ◌++◌, inl, inr, Bool-cases,
  Option-cases, eq_iff,
}
use text.Mathlib.Text.{starts_with}
use ai_agent_hub_project_ome.Base.Exn.{Exec, ◌>>=◌}
use ai_agent_hub_project_ome.Base.Rules.{Ends, Returns, bind-same_on, bind-Ends, Returns-any}
use ai_agent_hub_project_ome.Base.Value.{
  Value, null, bool, int, float, str, list, dict, Fields, get_field, Codec,
}
use ai_agent_hub_project_ome.Agent.Runtime.{lift}
use ai_agent_hub_project_ome.Tools.Arguments.{argument, text_of}
use ai_agent_hub_project_ome.Tools.Filesystem.{
  Parts, Files, SandboxedFilesystemTool, relative_to, parent, below, sandbox_path, read_file,
  write_file, list_dir, write_content, operate, run_files,
}

pub relative_to-some :
    (path root rest : Parts) → relative_to path root ≡ some rest → path ≡ root ++ rest
unfolding relative_to
relative_to-some path [] rest e = let same : path ≡ rest = cc in same
relative_to-some [] (r ∷ root) rest e = absurd (cc)
relative_to-some (p ∷ path) (r ∷ root) rest e = elim (Bool-cases (p == r)) [
  | inr h ↦ absurd (let wrong = rw h at e in cc)
  | inl h ↦
      let head : p ≡ r = (eq_iff p r).0 h in
      let tail = relative_to-some path root rest (rw h at e) in rw (head, tail) refl
]

-- Two file systems that resolve paths alike, are the same at and below a directory, and make the
-- parent directories of the paths there alike: also that of the directory itself, on which
-- `make_dirs` is called for a write to the directory.
pub record Agree {W : Type 0} (p q : Files W) (root : Parts) : Type 0 where
  pub resolve : p.resolve root ≡ q.resolve root
  pub is_file : (rest : Parts) → p.is_file (root ++ rest) ≡ q.is_file (root ++ rest)
  pub size : (rest : Parts) → p.size (root ++ rest) ≡ q.size (root ++ rest)
  pub read_text : (rest : Parts) → p.read_text (root ++ rest) ≡ q.read_text (root ++ rest)
  pub make_dirs :
      (rest : Parts) → p.make_dirs (parent (root ++ rest)) ≡ q.make_dirs (parent (root ++ rest))
  pub write_text : (rest : Parts) → p.write_text (root ++ rest) ≡ q.write_text (root ++ rest)
  pub is_dir : (rest : Parts) → p.is_dir (root ++ rest) ≡ q.is_dir (root ++ rest)
  pub entries : (rest : Parts) → p.entries (root ++ rest) ≡ q.entries (root ++ rest)

module _ {W : Type 0} (p q : Files W) (tool : SandboxedFilesystemTool)
    (agree : Agree p q tool.root) where
  -- The path is the root followed by what is left of it.
  abbrev IsBelow : Parts × Parts → Type 0
  IsBelow (path, rest) = path ≡ tool.root ++ rest

  write_content-same :
      (content : Option Value) (rest : Parts)
      → write_content p tool content (tool.root ++ rest, rest)
        ≡ write_content q tool content (tool.root ++ rest, rest)
  unfolding write_file
  write_content-same (some (str content)) rest =
      rw (agree.make_dirs rest, agree.write_text rest) refl
  write_content-same (some null) rest = refl
  write_content-same (some (bool b)) rest = refl
  write_content-same (some (int n)) rest = refl
  write_content-same (some (float m e)) rest = refl
  write_content-same (some (list vs)) rest = refl
  write_content-same (some (dict d)) rest = refl
  write_content-same none rest = refl

  operate-same :
      (operation : String) (arguments : Fields) (path : Parts × Parts)
      → IsBelow path
      → operate p tool operation arguments path ≡ operate q tool operation arguments path
  unfolding operate read_file list_dir
  operate-same operation arguments (path, rest) e =
      rw
        (
          e,
          agree.is_file rest,
          agree.size rest,
          agree.read_text rest,
          write_content-same (get_field "content" arguments) rest,
          agree.is_dir rest,
          agree.entries rest,
        )
        refl

  below-IsBelow :
      (target : Parts) (w : W)
      → Ends (Returns IsBelow) (below q tool target (relative_to target tool.root) w)
  below-IsBelow target w = elim (Option-cases (relative_to target tool.root)) [
    | inl e ↦ rw e tt
    | inr (rest, e) ↦ rw e (relative_to-some target tool.root rest e)
  ]

  sandbox_path-IsBelow :
      (relative : String) (w : W) → Ends (Returns IsBelow) (sandbox_path q tool relative w)
  unfolding sandbox_path
  sandbox_path-IsBelow relative w = elim (Bool-cases (relative == "" || starts_with relative "/")) [
    | inl e ↦ rw e tt
    | inr e ↦ rw e (
        bind-Ends (Returns {S = W} (λ _. Unit)) (Returns IsBelow)
          (λ target. below q tool target (relative_to target tool.root))
          (λ target s _. below-IsBelow target s) (λ _ _ _. tt) (λ _ _ _. tt)
          (q.resolve tool.root relative) w (Returns-any _ _))
  ]

  located-same :
      (arguments : Fields) (operation relative : String) (w : W)
      → (sandbox_path p tool relative >>= operate p tool operation arguments) w
        ≡ (sandbox_path q tool relative >>= operate q tool operation arguments) w
  unfolding sandbox_path
  located-same arguments operation relative w =
      bind-same_on IsBelow (operate p tool operation arguments) (operate q tool operation arguments)
        (λ path s below.
          ap (λ (m : Exec W Value). m s) (operate-same operation arguments path below))
        (sandbox_path p tool relative) (sandbox_path q tool relative) w (rw agree.resolve refl)
        (sandbox_path-IsBelow relative w)

  -- Whatever its arguments are, the tool acts alike over two file systems that resolve paths alike,
  -- are the same at and below its root, and make the parent directories of the paths there alike;
  -- the parent of the root itself is the directory above it. Whatever else is in the two file
  -- systems, and whatever a call does there, does not count.
  pub run_files-same :
      (codec : Codec) (arguments : Fields)
      → run_files p tool codec arguments ≡ run_files q tool codec arguments
  unfolding run_files
  run_files-same codec arguments =
      ap
        (λ (next : Value → Value → Exec W Value). do
          operation ← lift (argument "operation" arguments)
          relative ← lift (argument "path" arguments)
          next operation relative)
        (λ i operation relative w.
          located-same arguments (text_of codec operation) (text_of codec relative) w i)
