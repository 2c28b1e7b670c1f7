-- ===== src/Memory/Store/Journal.antt =====
-- What `remember`, `recent` and `clear_short_term` promise: a journal of the records since the last
-- clear, newest first, that is never trimmed.
use mathlib.Core.List.{reverse, reverse-cons, reverse-reverse}
use ai_agent_hub_project_ome.Base.{
  ℕ, zero, suc, ◌-◌, String, List, [], ◌∷◌, ◌++◌, length, take, ltb, eqb, if◌then◌else◌, ◌≡◌, refl,
  sym, ap, ◌∙◌, true, false, inl, inr, Bool-cases, arith,
}
use ai_agent_hub_project_ome.Base.Int.{ℤ, pos, negsuc, pos_part, ltb_ℤ}
use ai_agent_hub_project_ome.Base.Dict.{insert}
use ai_agent_hub_project_ome.Base.Str.{strip, is_blank}
use ai_agent_hub_project_ome.Base.Exn.{Outcome, ok, raised, stopped, Exn, error, value_error}
use ai_agent_hub_project_ome.Base.Value.{Fields}
use ai_agent_hub_project_ome.Memory.Vectors.{
  Floats, Hashing, MemoryRecord, embed, upsert, make_embedding, make_vectors, InMemoryVectorStore,
}
use ai_agent_hub_project_ome.Memory.Vectors.Search.{length-embed, eq→eqb}
use ai_agent_hub_project_ome.Memory.Store.{
  InMemoryMemoryStore, last, append, recent, clear_short_term, remember, make_store,
}
use ai_agent_hub_project_ome.Memory.Store.Last.{last-reverse, take-take}

pub data Op : Type 0 where
  remembered : (id : String) (now : ℕ) (text : String) (metadata : Fields) → Op
  looked_up : (limit : ℤ) → Op
  cleared : Op

pub data Reply : Type 0 where
  done : Reply
  refused : Exn → Reply
  found : List MemoryRecord → Reply

-- The journal: the blank texts are refused, and the others are kept in front.
unfoldable pub journal_step : ℕ → Op → List MemoryRecord → Reply × List MemoryRecord
journal_step cap (remembered id now text metadata) log =
    if is_blank text
    then (refused (error value_error "Memory text cannot be empty"), log)
    else (done, record { id = id; text = strip text; metadata = metadata; created_at = now } ∷ log)
journal_step cap (looked_up limit) log = (found (take (pos_part limit) (take cap log)), log)
journal_step cap cleared log = (done, [])

unfoldable pub journal_run : ℕ → List Op → List MemoryRecord → List Reply
journal_run cap [] log = []
journal_run cap (op ∷ ops) log =
    let (reply, log') = journal_step cap op log in reply ∷ journal_run cap ops log'

module _ (hashing : Hashing) {F : Type 0} (fl : Floats F) where
  abbrev settle :
      Outcome (InMemoryMemoryStore F) → InMemoryMemoryStore F → Reply × InMemoryMemoryStore F
  settle (ok store') store = (done, store')
  settle (raised e) store = (refused e, store)
  settle (stopped x) store = (done, store)

  unfoldable pub store_step : Op → InMemoryMemoryStore F → Reply × InMemoryMemoryStore F
  store_step (remembered id now text metadata) store =
      settle (remember hashing fl id now text metadata store) store
  store_step (looked_up limit) store = (found (recent limit store), store)
  store_step cleared store = (done, clear_short_term store)

  unfoldable pub store_run : List Op → InMemoryMemoryStore F → List Reply
  store_run [] store = []
  store_run (op ∷ ops) store =
      let (reply, store') = store_step op store in reply ∷ store_run ops store'

-- The store holds what the journal has of the last records, oldest first.
pub record Holds {F : Type 0} (store : InMemoryMemoryStore F) (log : List MemoryRecord)
    : Type 0 where
  pub sized : store.embedding.dimensions ≡ store.vectors.dimensions
  pub trimmed : store.short_term ≡ reverse (take store.short_term_limit log)

module _ {F : Type 0} where
  made-empty :
      (dimensions short_term_limit : ℤ) (store : InMemoryMemoryStore F)
      → make_store dimensions short_term_limit ≡ ok store
      → (store.short_term ≡ [])
        × (store.embedding.dimensions ≡ store.vectors.dimensions)
        × (store.short_term_limit ≡ pos_part short_term_limit)
  unfolding make_store make_embedding make_vectors
  made-empty dimensions short_term_limit store made = elim (Bool-cases (ltb_ℤ short_term_limit 1)) [
    | inl e ↦ absurd (let wrong = rw e at made in cc)
    | inr e ↦ elim (Bool-cases (ltb_ℤ dimensions 16)) [
      | inl d ↦ absurd (let wrong = rw (e, d) at made in cc)
      | inr d ↦ let same = rw (e, d) at made in (cc, cc, cc)
    ]
  ]

  append-last :
      (item : MemoryRecord) (store : InMemoryMemoryStore F)
      → (append item store).short_term ≡ last store.short_term_limit (store.short_term ++ item ∷ [])
  append-last item store =
      let longer = store.short_term ++ item ∷ [] in
      elim (Bool-cases (ltb store.short_term_limit (length longer))) [
        | inl e ↦ rw e refl
        | inr e ↦
            let none_left : length longer - store.short_term_limit ≡ 0 = ground arith in
            rw (e, none_left) refl
      ]

  append-Holds :
      (item : MemoryRecord) (store : InMemoryMemoryStore F) (log : List MemoryRecord)
      → Holds store log
      → Holds (append item store) (item ∷ log)
  append-Holds item store log h =
      let cap = store.short_term_limit in
      record {
        sized = h.sized;
        trimmed =
            append-last item store
            ∙ ap (λ (l : List MemoryRecord). last cap (l ++ item ∷ [])) h.trimmed
            ∙ ap (λ (l : List MemoryRecord). last cap l) (sym (reverse-cons item (take cap log)))
            ∙ last-reverse cap (item ∷ take cap log)
            ∙ ap (λ (l : List MemoryRecord). reverse l) (take-take cap item log);
      }

  recent-take :
      (limit : ℤ) (store : InMemoryMemoryStore F) (log : List MemoryRecord)
      → Holds store log
      → recent limit store ≡ take (pos_part limit) (take store.short_term_limit log)
  unfolding recent
  recent-take (negsuc n) store log h = refl
  recent-take (pos n) store log h = elim (Bool-cases (ltb n 1)) [
    | inl e ↦ let none_asked : n ≡ 0 = ground arith in rw (e, none_asked) refl
    | inr e ↦
        let kept = take store.short_term_limit log in
        rw e (
          ap (λ (l : List MemoryRecord). reverse (last n l)) h.trimmed
          ∙ ap (λ (l : List MemoryRecord). reverse l) (last-reverse n kept)
          ∙ reverse-reverse (take n kept))
  ]

take-nil : (n : ℕ) → take {A = MemoryRecord} n [] ≡ []
take-nil zero = refl
take-nil (suc n) = refl

module _ (hashing : Hashing) {F : Type 0} (fl : Floats F) where
  remember-blank :
      (id : String) (now : ℕ) (text : String) (metadata : Fields) (store : InMemoryMemoryStore F)
      → is_blank text ≡ true
      → remember hashing fl id now text metadata store
        ≡ raised (error value_error "Memory text cannot be empty")
  unfolding remember
  remember-blank id now text metadata store e = rw e refl

  -- The vector always has the dimensions of the vector store.
  remember-kept :
      (id : String) (now : ℕ) (text : String) (metadata : Fields) (store : InMemoryMemoryStore F)
      → is_blank text ≡ false
      → store.embedding.dimensions ≡ store.vectors.dimensions
      → (vectors : InMemoryVectorStore F) × (vectors.dimensions ≡ store.vectors.dimensions)
        × (remember hashing fl id now text metadata store
            ≡ ok (
                append
                  (record { id = id; text = strip text; metadata = metadata; created_at = now })
                  (record store { vectors = vectors })))
  unfolding remember upsert
  remember-kept id now text metadata store e sized =
      let item : MemoryRecord = record {
        id = id;
        text = strip text;
        metadata = metadata;
        created_at = now;
      } in
      let vector = embed hashing fl store.embedding item.text in
      let fits : eqb (length vector) store.vectors.dimensions ≡ true =
        eq→eqb (length-embed hashing fl store.embedding item.text ∙ sized) in
      (
        record store.vectors { stored = insert id (item, vector) store.vectors.stored },
        refl,
        rw (e, fits) refl,
      )

  settle-raised :
      (o : Outcome (InMemoryMemoryStore F)) (store : InMemoryMemoryStore F) (e : Exn)
      → o ≡ raised e
      → settle hashing fl o store ≡ (refused e, store)
  settle-raised o store e same = rw same refl

  -- One operation: the replies are the same, and the store holds what the journal has afterwards.
  store_step-Holds :
      (op : Op) (store : InMemoryMemoryStore F) (log : List MemoryRecord)
      → Holds store log
      → let (reply, store') = store_step hashing fl op store in
        let (reply', log') = journal_step store.short_term_limit op log in
        (reply ≡ reply') × (store'.short_term_limit ≡ store.short_term_limit) × Holds store' log'
  unfolding store_step journal_step clear_short_term
  store_step-Holds (remembered id now text metadata) store log h =
      elim (Bool-cases (is_blank text)) [
        | inl e ↦ rw (e, remember-blank id now text metadata store e) (refl, refl, h)
        | inr e ↦
            let (vectors, same, kept) = remember-kept id now text metadata store e h.sized in
            let item : MemoryRecord = record {
              id = id;
              text = strip text;
              metadata = metadata;
              created_at = now;
            } in
            let holds : Holds (record store { vectors = vectors }) log = record {
              sized = h.sized ∙ sym same;
              trimmed = h.trimmed;
            } in
            rw (e, kept)
              (refl, refl, append-Holds item (record store { vectors = vectors }) log holds)
      ]
  store_step-Holds (looked_up limit) store log h =
      (ap (λ (l : List MemoryRecord). found l) (recent-take limit store log h), refl, h)
  store_step-Holds cleared store log h = (
    refl,
    refl,
    record {
      sized = h.sized;
      trimmed = ap (λ (l : List MemoryRecord). reverse l) (sym (take-nil store.short_term_limit));
    },
  )

  pub store_run-journal :
      (ops : List Op) (store : InMemoryMemoryStore F) (log : List MemoryRecord)
      → Holds store log
      → store_run hashing fl ops store ≡ journal_run store.short_term_limit ops log
  unfolding store_run journal_run
  store_run-journal [] store log h = refl
  store_run-journal (op ∷ ops) store log h =
      let (same, limit, h') = store_step-Holds op store log h in
      let store' = (store_step hashing fl op store).1 in
      let log' = (journal_step store.short_term_limit op log).1 in
      let rest = store_run-journal ops store' log' h' in rw (same, rest, limit) refl

  -- A new store answers any sequence of `remember`, `recent` and `clear_short_term` as a journal
  -- does that forgets nothing until it is cleared: `recent` gives the first of its last
  -- `short_term_limit` records, newest first, and a blank text is refused and leaves no trace.
  pub make_store-journal :
      (dimensions short_term_limit : ℤ) (store : InMemoryMemoryStore F)
      → make_store dimensions short_term_limit ≡ ok store
      → (ops : List Op)
      → store_run hashing fl ops store ≡ journal_run (pos_part short_term_limit) ops []
  make_store-journal dimensions short_term_limit store made ops =
      let (empty, sized, limit) = made-empty dimensions short_term_limit store made in
      rw (sym limit) (
        store_run-journal ops store [] (record {
          sized = sized;
          trimmed =
              empty
              ∙ ap (λ (l : List MemoryRecord). reverse l) (sym (take-nil store.short_term_limit));
        }))
