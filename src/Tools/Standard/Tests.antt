-- ===== src/Tools/Standard/Tests.antt =====
-- Runs of the built-in tools without a sandbox of their own, and of a registry with the standard
-- ones. The world counts the calls.
use ai_agent_hub_project_ome.Base.{
  ℕ, suc, eq_iff, Bool-cases, inl, ◌≡◌, ◌==◌, refl, inr, String, false, List, [], ◌∷◌,
  if◌then◌else◌,
}
use ai_agent_hub_project_ome.Base.Int.{pos}
use ai_agent_hub_project_ome.Base.Str.{strip, is_space, lstrip, rstrip, is_blank}
use ai_agent_hub_project_ome.Base.Sort.{sort_by}
use ai_agent_hub_project_ome.Base.Dict.{Dict}
use ai_agent_hub_project_ome.Base.Exn.{ok, raised, error, timeout_error, other_error}
use ai_agent_hub_project_ome.Base.Value.{Values, int, str, Fields, end, field, Codec}
use ai_agent_hub_project_ome.Tools.Search.{SearchLib, ranked}
use ai_agent_hub_project_ome.Tools.Git.{Subprocess, finished}
use ai_agent_hub_project_ome.Tools.Database.{
  Connection, changed, selected, run_database, run_database-same, has_inner,
}
use ai_agent_hub_project_ome.Tools.Docker.{Machine, DockerSandbox, run_python}

abbrev codec : Codec
codec = record { show = λ v. "value"; dumps = λ v. "{}"; loads = λ text. inr "Expecting value" }

abbrev search_lib : SearchLib
search_lib = record { lower = λ s. s; to_int = λ v. ok (pos 1) }

abbrev corpus : Dict String
corpus = ("b", "tool use") ∷ ("a", "a tool, a tool") ∷ ("c", "memory") ∷ []

ranked_test :
    ranked search_lib corpus "tool" (pos 5)
    ≡ record { score = 2; title = "a"; content = "a tool, a tool" }
      ∷ record { score = 1; title = "b"; content = "tool use" }
      ∷ []
unfolding ranked sort_by is_space
ranked_test = refl

abbrev system : Subprocess ℕ
system command w = (finished (pos 0) "clean" "", suc w)

-- A system in which only git is there.
abbrev only_git : Subprocess ℕ
only_git [] w = (finished (pos 127) "" "not found", w)
only_git (program ∷ command) w =
    if program == "git"
    then (finished (pos 0) "clean" "", suc w)
    else (finished (pos 127) "" "not found", w)

abbrev rows : List Fields
rows = field "id" (int (pos 1)) end ∷ field "id" (int (pos 2)) end ∷ []

abbrev database : Connection ℕ
database query params w = (selected ("id" ∷ []) rows, suc w)

abbrev drop_all : String
drop_all = "select 1; drop table t"

-- A database in which the second text does harm.
abbrev harmed : Connection ℕ
harmed query params w =
    if query == drop_all then (changed (pos 9), w) else (selected ("id" ∷ []) rows, suc w)

alike_at :
    (query : String) (params : Values) (w : ℕ)
    → has_inner query ≡ false
    → database query params w ≡ harmed query params w
alike_at query params w h = elim (Bool-cases (query == drop_all)) [
  | inl e ↦
      let same : query ≡ drop_all = (eq_iff query drop_all).0 e in
      absurd (let wrong = rw same at h in cc)
  | inr e ↦ rw (harmed, e) refl
]

run_database-same_example :
    run_database 2 database (field "query" (str drop_all) end) 0
    ≡ run_database 2 harmed (field "query" (str drop_all) end) 0
run_database-same_example =
    run_database-same 2 database harmed (λ query h i params w. alike_at query params w h i)
      (field "query" (str drop_all) end) 0

-- A machine whose processes never end in time.
abbrev machine : Machine ℕ
machine = record {
  make_temp = λ w. (ok "/tmp/omega-sandbox-1", suc w);
  remove_temp = λ tmp w. 0;
  write_text = λ path text w. (ok tt, suc w);
  spawn = λ command w. (ok 7, suc w);
  communicate = λ process limit w. (raised (error timeout_error ""), w);
  kill = λ process w. (ok tt, suc w);
  wait = λ process w. (ok tt, suc w);
}

abbrev sandbox : DockerSandbox
sandbox = record {
  image = "python:3.12-alpine";
  timeout_seconds = pos 30;
  memory = "256m";
  cpus = "0.5";
}

run_python_test :
    run_python machine sandbox "docker" "print()" 0
    ≡ (raised (error (other_error "SandboxError") "sandbox execution timed out"), 0)
unfolding run_python is_blank strip lstrip rstrip is_space
run_python_test = refl
