-- ===== src/Orchestrator/Budget.antt =====
-- `TokenBudget` of orchestrator/orchestrator.py.
use Prim.Native.String.{count}
use ai_agent_hub_project_ome.Base.{
  ℕ, ◌+◌, ◌-◌, ◌*◌, ◌/◌, ◌≤◌, ◌<◌, max, String, Bool, true, ◌≡◌, leb, if◌then◌else◌, arith,
}
use ai_agent_hub_project_ome.Base.Int.{ℤ, pos_part, ltb_ℤ}
use ai_agent_hub_project_ome.Base.Exn.{Outcome, ok, raised, error, value_error}

pub record TokenBudget : Type 0 where
  pub limit : ℕ
  pub used : ℕ

-- `TokenBudget(limit)` with its `__post_init__`
unfoldable pub make_budget : ℤ → Outcome TokenBudget
make_budget limit =
    if ltb_ℤ limit 1
    then raised (error value_error "Token budget must be >= 1")
    else ok (record { limit = pos_part limit; used = 0 })

unfoldable pub remaining : TokenBudget → ℕ
remaining b = b.limit - b.used

-- `max(1, (len(text) + 3) // 4)`
unfoldable pub estimate : String → ℕ
estimate text = max 1 ((count text + 3) / 4)

unfoldable pub consume : String → TokenBudget → TokenBudget
unfolding estimate
consume text b = record b { used = b.used + estimate text }

unfoldable pub can_continue : TokenBudget → ℕ → Bool
unfolding remaining
can_continue b reserve = leb reserve (remaining b)

pub estimate-pos : (text : String) → 1 ≤ estimate text
unfolding estimate
estimate-pos text = omega arith

-- The estimate is at least one, and a quarter of the length rounded up.
pub estimate_covers : (text : String) → count text ≤ 4 * estimate text
unfolding estimate
estimate_covers text = omega arith

pub consume-used : (text : String) (b : TokenBudget) → b.used < (consume text b).used
unfolding consume
consume-used text b = omega (arith, estimate-pos text)

pub can_continue-lt : (b : TokenBudget) → can_continue b 1 ≡ true → b.used < b.limit
unfolding can_continue remaining
can_continue-lt b h = ground arith
