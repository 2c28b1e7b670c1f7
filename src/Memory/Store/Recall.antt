-- ===== src/Memory/Store/Recall.antt =====
-- `recall`.
use ai_agent_hub_project_ome.Base.{
  ℕ, zero, suc, String, true, false, List, [], ◌∷◌, length, eqb, take, keep, map, All, ◌≡◌, refl,
  ap, ◌∙◌,
}
use ai_agent_hub_project_ome.Base.Sort.{sort_by, All-sort_by}
use ai_agent_hub_project_ome.Base.Int.{ℤ, pos_part, ltb_ℤ}
use ai_agent_hub_project_ome.Base.Str.{is_blank}
use ai_agent_hub_project_ome.Base.Dict.{values}
use ai_agent_hub_project_ome.Base.Exn.{Outcome, ok, raised, stopped, bind}
use ai_agent_hub_project_ome.Memory.Vectors.{
  Floats, Hashing, MemoryRecord, score_all, scored_le, search, embed,
}
use ai_agent_hub_project_ome.Memory.Vectors.Search.{
  IsOrder, IsScored, positive, keep-take, scored-IsSorted, length-embed, eq→eqb,
}
use ai_agent_hub_project_ome.Memory.Store.{InMemoryMemoryStore, recall}

map-take : {A B : Type 0} (f : A → B) (n : ℕ) (xs : List A) → map f (take n xs) ≡ take n (map f xs)
map-take f zero xs = refl
map-take f (suc n) [] = refl
map-take f (suc n) (x ∷ xs) = ap (λ l. f x ∷ l) (map-take f n xs)

module _ {F : Type 0} (fl : Floats F) where
  -- The records whose score is positive, the best ones first.
  unfoldable pub relevant : List (MemoryRecord × F) → List MemoryRecord
  relevant scored =
      map (λ (m : MemoryRecord × F). m.0) (keep (positive fl) (sort_by (scored_le fl) scored))

  module _ (hashing : Hashing) (IsNumber : F → Type 0) (order : IsOrder fl IsNumber) where
    abbrev IsNumbered : Outcome (List (MemoryRecord × F)) → Type 0
    IsNumbered (ok scored) = All (IsScored IsNumber) scored
    IsNumbered (raised e) = Unit
    IsNumbered (stopped x) = Unit

    best-first :
        (n : ℕ) (scored : List (MemoryRecord × F))
        → All (IsScored IsNumber) scored
        → map
            (λ (m : MemoryRecord × F). m.0)
            (keep (positive fl) (take n (sort_by (scored_le fl) scored)))
          ≡ take n (relevant scored)
    unfolding relevant
    best-first n scored numbers =
        let sorted = sort_by (scored_le fl) scored in
        let all = All-sort_by (scored_le fl) (IsScored IsNumber) scored numbers in
        rw
          (
            keep-take fl IsNumber order n sorted all
                (scored-IsSorted fl IsNumber order scored numbers),
            map-take (λ (m : MemoryRecord × F). m.0) n (keep (positive fl) sorted),
          )
          refl

    recalled :
        (n : ℕ) (o : Outcome (List (MemoryRecord × F)))
        → IsNumbered o
        → bind
            (bind o λ scored. ok (take n (sort_by (scored_le fl) scored)))
            (λ found. ok (map (λ (m : MemoryRecord × F). m.0) (keep (positive fl) found)))
          ≡ bind o (λ scored. ok (take n (relevant scored)))
    recalled n (ok scored) numbers =
        ap (λ (l : List MemoryRecord). ok l) (best-first n scored numbers)
    recalled n (raised e) numbers = refl
    recalled n (stopped x) numbers = refl

    -- Where the scores of the store's entries are numbers, `recall` of a query that is not blank,
    -- with a limit of at least one, gives the first `limit` of all stored records whose score is
    -- positive, in descending order of their scores: dropping the scores that are not positive
    -- after the cut leaves out none that would have been within the limit.
    pub recall-relevant :
        (query : String) (limit : ℤ) (store : InMemoryMemoryStore F)
        → is_blank query ≡ false
        → ltb_ℤ limit 1 ≡ false
        → store.embedding.dimensions ≡ store.vectors.dimensions
        → (scores : Outcome (List (MemoryRecord × F)))
        → score_all fl (embed hashing fl store.embedding query) (values store.vectors.stored)
          ≡ scores
        → IsNumbered scores
        → recall hashing fl query limit store
          ≡ bind scores (λ scored. ok (take (pos_part limit) (relevant scored)))
    unfolding recall search
    recall-relevant query limit store e asked sized scores scoring numbers =
        let vector = embed hashing fl store.embedding query in
        let fits : eqb (length vector) store.vectors.dimensions ≡ true =
          eq→eqb (length-embed hashing fl store.embedding query ∙ sized) in
        rw (e, asked, fits, scoring) (recalled (pos_part limit) scores numbers)
