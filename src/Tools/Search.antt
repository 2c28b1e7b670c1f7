-- ===== src/Tools/Search.antt =====
-- `WebSearchTool` of tools/registry.py, over its corpus of texts.
pub mod Ranked
use Prim.Native.String.{count}
use text.Mathlib.Text.{starts_with}
use ai_agent_hub_project_ome.Base.{
  ℕ, zero, suc, ◌+◌, ◌-◌, ◌==◌, ◌<>◌, String, Option, none, some, Bool, true, false, ◌&&◌, ◌||◌,
  List, [], ◌∷◌, length, take, keep, map, contains, ltb, eqb, if◌then◌else◌,
}
use ai_agent_hub_project_ome.Base.Str.{strip, is_space}
use ai_agent_hub_project_ome.Base.Int.{ℤ, pos, negsuc}
use ai_agent_hub_project_ome.Base.Sort.{sort_by, str_le}
use ai_agent_hub_project_ome.Base.Dict.{Dict}
use ai_agent_hub_project_ome.Base.Exn.{Outcome, ok, bind}
use ai_agent_hub_project_ome.Base.Value.{
  Value, int, str, list, dict, Fields, end, field, get_field, values_of, Codec,
}
use ai_agent_hub_project_ome.Tools.Arguments.{argument, text_of}

-- What the search uses of Python: `str.lower` and `int(v)`.
pub record SearchLib : Type 0 where
  pub lower : String → String
  pub to_int : Value → Outcome ℤ

-- `WebSearchTool()`: the corpus where none is given, or an empty one
abbrev default_corpus : Dict String
default_corpus =
    (
      "autonomous agents",
      "Autonomous agents combine perception, planning, tool use, memory, and reflection.",
    )
    ∷ (
      "multi agent systems",
      "Multi-agent systems coordinate specialized agents through a shared task graph and explicit state.",
    )
    ∷ (
      "agent operating system",
      "An agent operating system provides runtime, tools, memory, orchestration, policy, observability, and evaluation.",
    )
    ∷ []

unfoldable pub make_search : Dict String → Dict String
make_search [] = default_corpus
make_search (entry ∷ corpus) = entry ∷ corpus

-- `s.split()`; `word` is the word so far
abbrev pub split_from : String → String → List String
unfolding is_space
split_from word String.[] = if word == "" then [] else word ∷ []
split_from word (String.◌∷◌ c s) =
    let longer = split_from (word <> String.◌∷◌ c "") s in
    let closed = split_from "" s in
    if is_space c then (if word == "" then closed else word ∷ closed) else longer

-- `set(terms)`, of which only sums are taken
abbrev pub distinct : List String → List String
distinct [] = []
distinct (t ∷ terms) = let rest = distinct terms in if contains terms t then rest else t ∷ rest

-- `s.count(term)`: the occurrences that do not overlap; after one, `skip` characters are passed over
abbrev pub count_from : ℕ → String → String → ℕ
count_from skip term String.[] = 0
count_from zero term (String.◌∷◌ c s) =
    let found = suc (count_from (count term - 1) term s) in
    let other = count_from 0 term s in if starts_with (String.◌∷◌ c s) term then found else other
count_from (suc skip) term (String.◌∷◌ c s) = count_from skip term s

pub record Match : Type 0 where
  pub score : ℕ
  pub title : String
  pub content : String

-- The order of `(-score, title)`.
abbrev pub match_le : Match → Match → Bool
match_le x y = ltb y.score x.score || (eqb x.score y.score && str_le x.title y.title)

abbrev pub snippet : Match → Value
snippet m = dict (
    field "title" (str m.title)
      (field "snippet" (str m.content) (field "score" (int (pos m.score)) end)))

-- `xs[:limit]`
abbrev pub slice {ℓ} : {A : Type ℓ} → ℤ → List A → List A
slice (pos n) xs = take n xs
slice (negsuc n) xs = take (length xs - suc n) xs

module _ (lib : SearchLib) where
  -- `sum(haystack.count(term) for term in terms if term)`
  abbrev pub total_count : List String → String → ℕ
  total_count [] haystack = 0
  total_count (t ∷ terms) haystack =
      let rest = total_count terms haystack in
      if t == "" then rest else count_from 0 t haystack + rest

  abbrev pub score_entry : List String → String × String → Match
  score_entry terms (title, content) = record {
    score = total_count terms (lib.lower (title <> " " <> content));
    title = title;
    content = content;
  }

  -- the loop over the corpus
  abbrev pub matches : List String → Dict String → List Match
  matches terms corpus = keep (λ (m : Match). ltb 0 m.score) (map (score_entry terms) corpus)

  abbrev pub terms_of : String → List String
  terms_of query = distinct (split_from "" (lib.lower query))

  -- the entries of the answer
  unfoldable pub ranked : Dict String → String → ℤ → List Match
  ranked corpus query limit = slice limit (sort_by match_le (matches (terms_of query) corpus))

  abbrev or_five : Option Value → Value
  or_five none = int (pos 5)
  or_five (some v) = v

  -- `run(arguments)`
  unfoldable pub run_search : Dict String → Codec → Fields → Outcome Value
  unfolding ranked get_field
  run_search corpus codec arguments = bind (argument "query" arguments) λ given.
      let query = strip (text_of codec given) in
      bind (lib.to_int (or_five (get_field "limit" arguments))) λ limit. ok (
        dict (
          field "query" (str query) (
            field "results" (list (values_of (map snippet (ranked corpus query limit))))
              (field "source" (str "OMEGA_SIMULATED_CORPUS") end))))
