-- ===== src/Tools/Database.antt =====
-- `SQLiteDatabaseTool` of tools/database.py. A statement that is executed over its own connection
-- is a call on the world `W`.
use Prim.Native.Char.{code}
use ai_agent_hub_project_ome.Base.{
  ℕ, length-take, take-append-drop, drop, leb, ◌++◌, String, ◌==◌, ◌<>◌, ◌≡◌, refl, ap, Option,
  none, some, Bool, false, ◌&&◌, ◌||◌, List, length, take, map, eqb, if◌then◌else◌, inl, inr,
  Bool-cases, arith,
}
use Prim.Native.Nat.{min}
use ai_agent_hub_project_ome.Base.Str.{strip, is_blank, has_code}
use ai_agent_hub_project_ome.Base.Int.{ℤ, ltb_ℤ, pos_part}
use ai_agent_hub_project_ome.Base.Exn.{
  Outcome, ok, raised, stopped, Exn, Stop, error, value_error, tool_error, tool_validation_error,
  Exec, raise,
}
use ai_agent_hub_project_ome.Base.Value.{
  Value, null, bool, int, float, str, list, dict, Values, nil, Fields, end, field, get_field,
  values_of,
}

-- `SQLiteDatabaseTool(…)`; its limit of rows
unfoldable pub make_database : ℤ → Outcome ℕ
make_database max_rows =
    if ltb_ℤ max_rows 1
    then raised (error value_error "max_rows must be positive")
    else ok (pos_part max_rows)

-- How a statement comes out: its error, a number of rows that it changed, or the names of the
-- columns and all the rows that there are. The connection commits or rolls back accordingly.
pub data Executed : Type 0 where
  sqlite_error : (message : String) → Executed
  changed : (rowcount : ℤ) → Executed
  selected : (columns : List String) (rows : List Fields) → Executed
  other_failure : Exn → Executed
  cut_off : Stop → Executed

abbrev pub Connection : Type 0 → Type 0
Connection W = String → Values → W → Executed × W

-- `query.rstrip("; ")`
abbrev pub rstrip_ends : String → String
rstrip_ends String.[] = ""
rstrip_ends (String.◌∷◌ c s) =
    let rest = rstrip_ends s in
    if (eqb (code c) b';' || eqb (code c) b' ') && rest == "" then "" else String.◌∷◌ c rest

-- `";" in query.rstrip("; ")`
abbrev pub has_inner : String → Bool
has_inner query = has_code b';' (rstrip_ends query)

abbrev pub refusal : String → Exn
refusal message = error tool_validation_error message

abbrev pub row_values : List String → List Fields → Bool → Value
row_values columns rows truncated = dict (
    field "columns" (list (values_of (map (λ c. str c) columns))) (
      field "rows" (list (values_of (map (λ r. dict r) rows)))
        (field "truncated" (bool truncated) end)))

-- The answer, for which `fetchmany` takes `max_rows` rows at most.
unfoldable pub database_answer : ℕ → Executed → Outcome Value
database_answer max_rows (sqlite_error message) =
    raised (error tool_error ("SQLite operation failed: " <> message))
database_answer max_rows (changed rowcount) = ok (dict (field "rowcount" (int rowcount) end))
database_answer max_rows (selected columns all) =
    let rows = take max_rows all in ok (row_values columns rows (eqb (length rows) max_rows))
database_answer max_rows (other_failure e) = raised e
database_answer max_rows (cut_off x) = stopped x

module _ (max_rows : ℕ) {W : Type 0} (connection : Connection W) where
  -- `_execute(query, params)`
  unfoldable pub execute_query : String → Values → Exec W Value
  execute_query query params w =
      if has_inner query
      then (raised (refusal "Multiple SQL statements are not allowed"), w)
      else let (done, w') = connection query params w in (database_answer max_rows done, w')

  abbrev pub with_params : String → Option Value → Exec W Value
  unfolding execute_query
  with_params query none = execute_query query nil
  with_params query (some (list params)) = execute_query query params
  with_params query (some _) = raise (refusal "params must be an array")

  abbrev pub with_query : Option Value → Option Value → Exec W Value
  unfolding execute_query
  with_query (some (str query)) params =
      if is_blank query
      then raise (refusal "query must be a non-empty string")
      else with_params (strip query) params
  with_query _ params = raise (refusal "query must be a non-empty string")

  -- `run(arguments)`
  unfoldable pub run_database : Fields → Exec W Value
  unfolding with_query get_field
  run_database arguments = with_query (get_field "query" arguments) (get_field "params" arguments)

module _ (max_rows : ℕ) {W : Type 0} (p q : Connection W)
    (same : (query : String) → has_inner query ≡ false → p query ≡ q query) where
  execute_query-same :
      (query : String) (params : Values) (w : W)
      → execute_query max_rows p query params w ≡ execute_query max_rows q query params w
  unfolding execute_query
  execute_query-same query params w = elim (Bool-cases (has_inner query)) [
    | inl e ↦ rw e refl
    | inr e ↦ rw (e, same query e) refl
  ]

  with_params-same :
      (query : String) (params : Option Value) (w : W)
      → with_params max_rows p query params w ≡ with_params max_rows q query params w
  unfolding with_params execute_query
  with_params-same query none w = execute_query-same query nil w
  with_params-same query (some (list params)) w = execute_query-same query params w
  with_params-same query (some null) w = refl
  with_params-same query (some (bool b)) w = refl
  with_params-same query (some (int n)) w = refl
  with_params-same query (some (float m e)) w = refl
  with_params-same query (some (str s)) w = refl
  with_params-same query (some (dict d)) w = refl

  with_query-same :
      (query params : Option Value) (w : W)
      → with_query max_rows p query params w ≡ with_query max_rows q query params w
  unfolding with_query
  with_query-same (some (str query)) params w = elim (Bool-cases (is_blank query)) [
    | inl e ↦ rw e refl
    | inr e ↦ rw e (with_params-same (strip query) params w)
  ]
  with_query-same (some null) params w = refl
  with_query-same (some (bool b)) params w = refl
  with_query-same (some (int n)) params w = refl
  with_query-same (some (float m e)) params w = refl
  with_query-same (some (list vs)) params w = refl
  with_query-same (some (dict d)) params w = refl
  with_query-same none params w = refl

  -- Whatever its arguments are, the tool only executes texts that have no semicolon before the
  -- semicolons and blanks at their end: it acts alike over two databases in which those do the same.
  pub run_database-same :
      (arguments : Fields) (w : W)
      → run_database max_rows p arguments w ≡ run_database max_rows q arguments w
  unfolding run_database
  run_database-same arguments w =
      with_query-same (get_field "query" arguments) (get_field "params" arguments) w

-- The rows of an answer are the first of those that there are, as many as the limit allows. The
-- answer says that it is truncated if there are at least as many rows as the limit: also where
-- there are just as many and none is left out.
pub database_answer-rows :
    (max_rows : ℕ) (columns : List String) (all : List Fields)
    → (rows rest : List Fields) × (database_answer max_rows (selected columns all)
        ≡ ok (row_values columns rows (leb max_rows (length all))))
      × (rows ++ rest ≡ all)
      × (length rows ≡ min max_rows (length all))
unfolding database_answer
database_answer-rows max_rows columns all =
    let rows = take max_rows all in
    let size = length-take max_rows all in
    let full : eqb (length rows) max_rows ≡ leb max_rows (length all) = ground arith in
    (
      rows,
      drop max_rows all,
      ap (λ b. ok (row_values columns rows b)) full,
      take-append-drop max_rows all,
      size,
    )
