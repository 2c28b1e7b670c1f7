-- ===== src/Memory/Tiers.antt =====
-- `WorkingMemory`, `EpisodicMemory` and `MultiTierMemory` of memory/multi_tier.py, the episodic tier
-- over the store of memory/store.py. Times are in hundredths of a second.
use ai_agent_hub_project_ome.Base.{ℕ, String, Option, none, some, List, if◌then◌else◌}
use ai_agent_hub_project_ome.Base.Int.{ℤ}
use ai_agent_hub_project_ome.Base.Str.{is_blank}
use ai_agent_hub_project_ome.Base.Dict.{Dict, insert}
use ai_agent_hub_project_ome.Base.Exn.{Outcome, ok, raised, error, value_error, bind}
use ai_agent_hub_project_ome.Base.Value.{Value, Fields}
use ai_agent_hub_project_ome.Memory.ShortTerm.{ShortTermMemory, add}
use ai_agent_hub_project_ome.Memory.Vectors.{Floats, Hashing, MemoryRecord}
use ai_agent_hub_project_ome.Memory.Store.{InMemoryMemoryStore, remember, recall}

pub record WorkingMemory : Type 0 where
  pub run_id : String
  pub values : Dict Value
  pub updated_at : ℕ

-- `set(key, value)` at the time `now`
unfoldable pub set_value : ℕ → String → Value → WorkingMemory → Outcome WorkingMemory
set_value now key value m =
    if is_blank key
    then raised (error value_error "working-memory key cannot be empty")
    else ok (record m { values = insert key value m.values; updated_at = now })

-- `snapshot()`, whose copy is the same table
unfoldable pub working_snapshot : WorkingMemory → Dict Value
working_snapshot m = m.values

pub record MultiTierMemory (F : Type 0) : Type 0 where
  pub short_term : ShortTermMemory
  pub episodic : InMemoryMemoryStore F
  pub working : WorkingMemory

module _ (hashing : Hashing) {F : Type 0} (fl : Floats F) where
  -- `EpisodicMemory.remember` and `EpisodicMemory.search`
  unfoldable pub episodic_remember :
      String → ℕ → String → Fields → InMemoryMemoryStore F → Outcome (InMemoryMemoryStore F)
  unfolding remember
  episodic_remember = remember hashing fl

  unfoldable pub episodic_search : String → ℤ → InMemoryMemoryStore F → Outcome (List MemoryRecord)
  unfolding recall
  episodic_search = recall hashing fl

  -- What the short-term tier has left, and then the episodic tier.
  abbrev store_event :
      String
      → ℕ
      → String
      → Fields
      → MultiTierMemory F
      → Option (List String)
      → Outcome (Option (MultiTierMemory F))
  unfolding episodic_remember
  store_event id now text metadata m none = ok none
  store_event id now text metadata m (some items) =
      bind (episodic_remember id now text metadata m.episodic) λ store.
        ok
          (some (record m { short_term = record m.short_term { items = items }; episodic = store }))

  -- `MultiTierMemory.remember(text, metadata=…)`; `none` says that the fuel was not enough for the
  -- loop of the short-term tier, which the episodic tier waits for.
  unfoldable pub remember_event :
      ℕ → String → ℕ → String → Fields → MultiTierMemory F → Outcome (Option (MultiTierMemory F))
  unfolding store_event add
  remember_event fuel id now text metadata m =
      bind (add fuel text m.short_term) (store_event id now text metadata m)
