-- ===== src/Memory/Store.antt =====
-- `InMemoryMemoryStore` of memory/store.py.
pub mod Last
pub mod Journal
pub mod Recall
mod Tests
use mathlib.Core.List.{reverse}
use ai_agent_hub_project_ome.Base.{
  ℕ, ◌-◌, String, Bool, ◌||◌, List, [], ◌∷◌, ◌++◌, length, drop, keep, map, ltb, if◌then◌else◌,
}
use ai_agent_hub_project_ome.Base.Int.{ℤ, pos_part, ltb_ℤ}
use ai_agent_hub_project_ome.Base.Str.{strip, is_blank}
use ai_agent_hub_project_ome.Base.Exn.{Outcome, ok, raised, error, value_error, bind}
use ai_agent_hub_project_ome.Base.Value.{Fields}
use ai_agent_hub_project_ome.Memory.Vectors.{
  Floats, Hashing, MemoryRecord, InMemoryVectorStore, HashEmbedding, make_embedding, make_vectors,
  upsert, search, embed,
}

pub record InMemoryMemoryStore (F : Type 0) : Type 0 where
  pub embedding : HashEmbedding
  pub vectors : InMemoryVectorStore F
  pub short_term : List MemoryRecord
  pub short_term_limit : ℕ

-- `InMemoryMemoryStore(dimensions=…, short_term_limit=…)`
unfoldable pub make_store : {F : Type 0} → ℤ → ℤ → Outcome (InMemoryMemoryStore F)
make_store dimensions short_term_limit =
    if ltb_ℤ short_term_limit 1
    then raised (error value_error "short_term_limit must be >= 1")
    else bind (make_embedding dimensions) λ embedding. bind (make_vectors dimensions) λ vectors.
      ok (record {
        embedding = embedding;
        vectors = vectors;
        short_term = [];
        short_term_limit = pos_part short_term_limit;
      })

-- `xs[-limit:]` for a limit of at least one
abbrev pub last {ℓ} : {A : Type ℓ} → ℕ → List A → List A
last limit xs = drop (length xs - limit) xs

-- The short-term list once a record is in the vector store.
abbrev pub append : {F : Type 0} → MemoryRecord → InMemoryMemoryStore F → InMemoryMemoryStore F
append item store =
    let longer = store.short_term ++ item ∷ [] in
    record store {
      short_term =
          (if ltb store.short_term_limit (length longer)
            then last store.short_term_limit longer
            else longer);
    }

module _ {F : Type 0} where
  -- `recent(limit=…)`
  unfoldable pub recent : ℤ → InMemoryMemoryStore F → List MemoryRecord
  recent limit store =
      if ltb_ℤ limit 1 then [] else reverse (last (pos_part limit) store.short_term)

  -- `clear_short_term()`
  unfoldable pub clear_short_term : InMemoryMemoryStore F → InMemoryMemoryStore F
  clear_short_term store = record store { short_term = [] }

module _ (hashing : Hashing) {F : Type 0} (fl : Floats F) where
  -- `remember(text, metadata=…)`, with the `uuid4` and the time that it draws; what it leaves
  unfoldable pub remember :
      String → ℕ → String → Fields → InMemoryMemoryStore F → Outcome (InMemoryMemoryStore F)
  remember id now text metadata store =
      let item : MemoryRecord = record {
        id = id;
        text = strip text;
        metadata = metadata;
        created_at = now;
      } in
      if is_blank text
      then raised (error value_error "Memory text cannot be empty")
      else bind (upsert item (embed hashing fl store.embedding item.text) store.vectors)
          λ vectors. ok (append item (record store { vectors = vectors }))

  -- `recall(query, limit=…)`
  unfoldable pub recall : String → ℤ → InMemoryMemoryStore F → Outcome (List MemoryRecord)
  recall query limit store =
      if is_blank query || ltb_ℤ limit 1
      then ok []
      else bind (search fl (embed hashing fl store.embedding query) limit store.vectors) λ matches.
        ok (
          map (λ (m : MemoryRecord × F). m.0)
            (keep (λ (m : MemoryRecord × F). fl.lt_f fl.zero_f m.1) matches))
