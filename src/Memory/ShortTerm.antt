-- ===== src/Memory/ShortTerm.antt =====
-- `ShortTermMemory` of memory/multi_tier.py. The `while` loop of `add` runs on fuel, and `none`
-- says that the fuel was not enough. The lock is only held where nothing is awaited.
pub mod Ending
pub mod Hanging
use Prim.Native.String.{count}
use ai_agent_hub_project_ome.Base.{
  ℕ, zero, suc, ◌+◌, ◌/◌, max, String, ◌<>◌, Option, none, some, Bool, true, false, ◌||◌, List, [],
  ◌∷◌, ◌++◌, length, take, drop, ltb, leb, if◌then◌else◌,
}
use ai_agent_hub_project_ome.Base.Str.{is_blank, strip, join, str_take, replace_code}
use ai_agent_hub_project_ome.Base.Int.{ℤ, pos_part, ltb_ℤ}
use ai_agent_hub_project_ome.Base.Exn.{Outcome, ok, raised, error, value_error}

pub record ShortTermMemory : Type 0 where
  pub max_items : ℕ
  pub max_chars : ℕ
  pub items : List String

-- `ShortTermMemory(max_items=…, max_chars=…)`
unfoldable pub make_short_term : ℤ → ℤ → Outcome ShortTermMemory
make_short_term max_items max_chars =
    if ltb_ℤ max_items 2 || ltb_ℤ max_chars 100
    then raised (error value_error "invalid short-term limits")
    else ok (record { max_items = pos_part max_items; max_chars = pos_part max_chars; items = [] })

-- `sum(map(len, items))`
abbrev pub total : List String → ℕ
total [] = 0
total (x ∷ xs) = count x + total xs

-- `_compress(items)`
unfoldable pub compress : List String → String
compress items =
    let text = replace_code 10 " " (join " " items) in
    if leb (count text) 4000 then text else str_take 3997 text <> "..."

-- `max(1, len(items) // 2)`
abbrev pub half : List String → ℕ
half items = max 1 (length items / 2)

-- The body of the loop; `head` is as long as the slice that it is, `half items` at most.
unfoldable pub squeeze : List String → List String
unfolding compress
squeeze items =
    let head = take (half items) items in
    ("[compressed context]\n" <> compress head) ∷ drop (length head) items

-- The condition of the loop.
unfoldable pub is_over : ShortTermMemory → List String → Bool
is_over m items = ltb m.max_items (length items) || ltb m.max_chars (total items)

unfoldable pub shrink : ShortTermMemory → ℕ → List String → Option (List String)
unfolding squeeze is_over
shrink m zero items = if is_over m items then none else some items
shrink m (suc fuel) items =
    let more = shrink m fuel (squeeze items) in if is_over m items then more else some items

-- `add(text)`; what it leaves in the memory
unfoldable pub add : ℕ → String → ShortTermMemory → Outcome (Option (List String))
unfolding shrink
add fuel text m =
    if is_blank text
    then raised (error value_error "text cannot be empty")
    else ok (shrink m fuel (m.items ++ strip text ∷ []))

-- `context()`
unfoldable pub context : ShortTermMemory → List String
context m = m.items
