-- ===== src/Gateway/Tokens.antt =====
-- `TokenEstimator` of llm_models/gateway.py and `TokenLedger` of llm_models/token_management.py. A
-- method that raises leaves the ledger as it was.
use Prim.Native.String.{count}
use ai_agent_hub_project_ome.Base.{
  ℕ, ◌+◌, ◌-◌, ◌*◌, ◌/◌, ◌≤◌, max, String, ◌<>◌, ◌≡◌, ◌∙◌, ◌↔◌, refl, List, [], ◌∷◌, ltb,
  if◌then◌else◌, arith,
}
use ai_agent_hub_project_ome.Base.Str.{str_ℕ}
use ai_agent_hub_project_ome.Base.Int.{ℤ, pos, negsuc, pos_part, ltb_ℤ}
use ai_agent_hub_project_ome.Base.Exn.{
  Outcome, ok, raised, error, value_error, token_budget_exceeded, Exec,
}

-- `max(1, (len(text) + 3) // 4)`
unfoldable pub estimate : String → ℕ
estimate text = max 1 ((count text + 3) / 4)

pub record TokenLedger : Type 0 where
  pub limit : ℕ
  pub used : ℕ

-- `TokenLedger(limit)` with its `__post_init__`
unfoldable pub make_ledger : ℤ → Outcome TokenLedger
make_ledger limit =
    if ltb_ℤ limit 1
    then raised (error value_error "Token limit must be >= 1")
    else ok (record { limit = pos_part limit; used = 0 })

unfoldable pub remaining : TokenLedger → ℕ
remaining l = l.limit - l.used

abbrev exceeded : String → ℕ → TokenLedger → String
exceeded what amount l =
    what <> ": requested=" <> str_ℕ amount <> ", remaining=" <> str_ℕ (remaining l)

unfoldable pub charge : String → Exec TokenLedger ℕ
unfolding estimate remaining
charge text l =
    let amount = estimate text in
    if ltb (remaining l) amount
    then (raised (error token_budget_exceeded (exceeded "Token budget exceeded" amount l)), l)
    else (ok amount, record l { used = l.used + amount })

-- `reserve(amount)`
unfoldable pub reserve : ℤ → Exec TokenLedger (Unit {0})
unfolding remaining
reserve amount l =
    let n = pos_part amount in
    if ltb_ℤ amount 1
    then (raised (error value_error "Reservation must be >= 1"), l)
    else if ltb (remaining l) n
    then (raised (error token_budget_exceeded (exceeded "Token reservation exceeds budget" n l)), l)
    else (ok tt, record l { used = l.used + n })

-- A request to the ledger, and a row of them, each of which the caller may catch.
pub data Demand : Type 0 where
  charged : String → Demand
  reserved : ℤ → Demand

unfoldable pub demand : Demand → TokenLedger → TokenLedger
unfolding charge reserve
demand (charged text) l = (charge text l).1
demand (reserved amount) l = (reserve amount l).1

unfoldable pub demand_all : List Demand → TokenLedger → TokenLedger
unfolding demand
demand_all [] l = l
demand_all (d ∷ ds) l = demand_all ds (demand d l)

-- The estimate is the number of four-character groups that the text fills, and at least one.
pub estimate_bounds :
    (text : String) → (count text ≤ 4 * estimate text) × (4 * estimate text ≤ count text + 4)
unfolding estimate
estimate_bounds text = (omega arith, omega arith)

demand-le :
    (d : Demand) (l : TokenLedger)
    → l.used ≤ l.limit
    → ((demand d l).used ≤ (demand d l).limit)
      × (l.used ≤ (demand d l).used)
      × ((demand d l).limit ≡ l.limit)
unfolding demand
demand-le (charged text) l h = ground arith
demand-le (reserved (pos n)) l h = ground arith
demand-le (reserved (negsuc n)) l h = ground arith

-- The limit is hard: whatever is charged and reserved, and whichever of it is refused, the ledger
-- never holds more than its limit, its use never falls, and its limit stays.
pub demand_all-le_limit :
    (ds : List Demand) (l : TokenLedger)
    → l.used ≤ l.limit
    → ((demand_all ds l).used ≤ l.limit)
      × (l.used ≤ (demand_all ds l).used)
      × ((demand_all ds l).limit ≡ l.limit)
unfolding demand_all
demand_all-le_limit [] l h = (h, omega arith, refl)
demand_all-le_limit (d ∷ ds) l h =
    let (fits, grows, same) = demand-le d l h in
    let (fits', grows', same') = demand_all-le_limit ds (demand d l) fits in
    (omega arith, omega arith, same' ∙ same)

-- A charge is taken exactly if the estimate fits into what is left, and then it uses just that.
charge_iff :
    (text : String) (l : TokenLedger) (n : ℕ) (l' : TokenLedger)
    → l.used ≤ l.limit
    → (charge text l ≡ (ok n, l')) ↔ (
        (n ≡ estimate text)
        × (l.used + estimate text ≤ l.limit)
        × (l' ≡ record l { used = l.used + estimate text }))
unfolding charge
charge_iff text l n l' h = (λ e. ground arith, λ (a, b, c). ground arith)
