-- ===== src/Memory/Tests.antt =====
-- Runs at concrete inputs: memories with room, with a limit of two items, and with a long text.
use ai_agent_hub_project_ome.Base.{ℕ, ◌≡◌, refl, String, none, some, List, [], ◌∷◌, arith}
use ai_agent_hub_project_ome.Base.Str.{is_blank, strip, replace_code}
use ai_agent_hub_project_ome.Base.Int.{pos}
use ai_agent_hub_project_ome.Base.Exn.{ok}
use ai_agent_hub_project_ome.Memory.ShortTerm.{
  ShortTermMemory, make_short_term, compress, squeeze, is_over, shrink, add, context,
}
use ai_agent_hub_project_ome.Memory.ShortTerm.Ending.{IsRoomy, Settled, add-Settled}
use ai_agent_hub_project_ome.Memory.ShortTerm.Hanging.{add-hangs_at_three, add-hangs_on_long}

abbrev memory : ℕ → ℕ → List String → ShortTermMemory
memory max_items max_chars items = record {
  max_items = max_items;
  max_chars = max_chars;
  items = items;
}

made : make_short_term (pos 2) (pos 100) ≡ ok (memory 2 100 [])
unfolding make_short_term
made = refl

context_test : context (memory 2 100 ("first" ∷ [])) ≡ "first" ∷ []
unfolding context
context_test = refl

-- The first two of five items are compressed into one.
add_test :
    add 5 " five " (memory 4 100 ("one" ∷ "two" ∷ "three" ∷ "four" ∷ []))
    ≡ ok (some ("[compressed context]\none two" ∷ "three" ∷ "four" ∷ "five" ∷ []))
unfolding add shrink squeeze is_over compress is_blank strip replace_code
add_test = refl

roomy : IsRoomy (memory 3 24000 ("first" ∷ [])) 9989
roomy = record { three = omega arith; large = omega arith; fits = omega arith }

add-Settled_example :
    (out : List String) × (add 2 " hello " (memory 3 24000 ("first" ∷ [])) ≡ ok (some out))
    × Settled (memory 3 24000 ("first" ∷ [])) 9989 (some out)
unfolding is_blank strip
add-Settled_example =
    add-Settled (memory 3 24000 ("first" ∷ [])) 9989 roomy 2 " hello " refl (omega arith, tt)
      (omega arith) (omega arith)

add-hangs_at_three_example : add 1000 "third" (memory 2 24000 ("first" ∷ "second" ∷ [])) ≡ ok none
unfolding is_blank
add-hangs_at_three_example =
    add-hangs_at_three (memory 2 24000 ("first" ∷ "second" ∷ [])) "first" "second" "third" refl
      (omega arith) refl 1000

abbrev long_text : String
long_text =
    "a line of the transcript a line of the transcript a line of the transcript a line of the transcript a line of the transcript ."

add-hangs_on_long_example : add 1000 long_text (memory 32 100 ("first" ∷ [])) ≡ ok none
unfolding is_blank strip
add-hangs_on_long_example =
    add-hangs_on_long (memory 32 100 ("first" ∷ [])) "first" long_text refl (omega arith) refl 1000
