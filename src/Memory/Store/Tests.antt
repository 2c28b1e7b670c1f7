-- ===== src/Memory/Store/Tests.antt =====
-- Runs of the store over a small arithmetic, where a text's vector counts its words by length.
use Prim.Native.String.{count}
use mathlib.Core.List.{Perm, zip}
use ai_agent_hub_project_ome.Base.{
  ℕ, ◌+◌, ◌*◌, ◌/◌, ◌≡◌, refl, String, not, List, [], ◌∷◌, ◌++◌, length, ltb, eqb, arith, take,
}
use ai_agent_hub_project_ome.Base.Sort.{sort_by, IsSorted}
use ai_agent_hub_project_ome.Base.Int.{pos}
use ai_agent_hub_project_ome.Base.Dict.{values, insert}
use ai_agent_hub_project_ome.Base.Str.{strip, is_blank, is_space}
use ai_agent_hub_project_ome.Base.Exn.{ok, error, value_error}
use ai_agent_hub_project_ome.Base.Value.{end}
use ai_agent_hub_project_ome.Memory.Vectors.{
  Floats, Hashing, MemoryRecord, InMemoryVectorStore, make_embedding, make_vectors, upsert, cosine,
  score_all, search, embed, hash_tokens, scored_le,
}
use ai_agent_hub_project_ome.Memory.Vectors.Search.{IsOrder, search-best}
use ai_agent_hub_project_ome.Memory.Store.{
  InMemoryMemoryStore, make_store, remember, recent, recall, clear_short_term,
}
use ai_agent_hub_project_ome.Memory.Store.Journal.{
  Op, remembered, looked_up, cleared, done, found, refused, store_step, store_run, journal_run,
  make_store-journal,
}
use ai_agent_hub_project_ome.Memory.Store.Recall.{relevant, recall-relevant}

abbrev sum : List ℕ → ℕ
sum [] = 0
sum (x ∷ xs) = x + sum xs

abbrev floats : Floats ℕ
floats = record {
  zero_f = 0;
  one_f = 1;
  minus_one_f = 0;
  add_f = λ a b. a + b;
  mul_f = λ a b. a * b;
  div_f = λ a b. a * 100 / b;
  sqrt_f = λ a. a;
  sum_f = sum;
  lt_f = ltb;
  is_zero_f = λ a. eqb a 0;
}

abbrev hashing : Hashing
unfolding is_space
hashing = record {
  lower = λ s. s;
  is_word = λ c. not (is_space c);
  digest = λ token. (0, 0, 0, count token, 1);
}

-- Any number counts, and the order is that of the natural numbers.
abbrev IsAny : ℕ → Type 0
IsAny n = Unit

order : IsOrder floats IsAny
order = record {
  zero-number = tt;
  asym = λ x y _ _ h. ground arith;
  between = λ x y z _ _ _ h k. ground arith;
}

abbrev fact : String → String → MemoryRecord
fact id text = record { id = id; text = text; metadata = end; created_at = 0 }

abbrev vectors : InMemoryVectorStore ℕ
vectors = record {
  dimensions = 2;
  stored =
      ("a", (fact "a" "far", 0 ∷ 1 ∷ []))
      ∷ ("b", (fact "b" "near", 9 ∷ 0 ∷ []))
      ∷ ("c", (fact "c" "between", 9 ∷ 7 ∷ []))
      ∷ [];
}

abbrev store : InMemoryMemoryStore ℕ
store = record {
  embedding = record { dimensions = 16 };
  vectors = record { dimensions = 16; stored = [] };
  short_term = [];
  short_term_limit = 2;
}

abbrev say : String → String → Op
say id text = remembered id 0 text end

store_run_test :
    store_run hashing floats
      (say "a" " one "
        ∷ say "b" " "
        ∷ say "b" "two"
        ∷ say "c" "three"
        ∷ looked_up (pos 5)
        ∷ cleared
        ∷ looked_up (pos 5)
        ∷ [])
      store
    ≡ done
      ∷ refused (error value_error "Memory text cannot be empty")
      ∷ done
      ∷ done
      ∷ found (fact "c" "three" ∷ fact "b" "two" ∷ [])
      ∷ done
      ∷ found []
      ∷ []
unfolding store_run store_step remember upsert embed hash_tokens is_blank strip is_space insert
    recent clear_short_term
store_run_test = refl

abbrev scored : List (MemoryRecord × ℕ)
scored = (fact "a" "far", 0) ∷ (fact "b" "near", 1) ∷ (fact "c" "between", 0) ∷ []

search-best_example :
    (best rest : List (MemoryRecord × ℕ)) × (search floats (9 ∷ 0 ∷ []) (pos 2) vectors ≡ ok best)
    × Perm (best ++ rest) scored
    × IsSorted (scored_le floats) (best ++ rest)
    × (length best ≡ 2)
unfolding score_all cosine values zip
search-best_example =
    search-best floats IsAny order vectors (9 ∷ 0 ∷ []) (pos 2) scored refl refl refl
      (tt, (tt, (tt, tt)))

make_store-journal_example :
    store_run hashing floats (say "a" " one " ∷ say "b" "two" ∷ looked_up (pos 5) ∷ []) store
    ≡ journal_run 2 (say "a" " one " ∷ say "b" "two" ∷ looked_up (pos 5) ∷ []) []
unfolding make_store make_embedding make_vectors
make_store-journal_example =
    make_store-journal hashing floats (pos 16) (pos 2) store refl
      (say "a" " one " ∷ say "b" "two" ∷ looked_up (pos 5) ∷ [])

abbrev scores : List (MemoryRecord × ℕ)
scores = (fact "a" "four", 1) ∷ (fact "b" "five", 0) ∷ []

abbrev filled : InMemoryMemoryStore ℕ
filled = record store {
  vectors = record {
    dimensions = 16;
    stored =
        ("a", (fact "a" "four", 0 ∷ 0 ∷ 0 ∷ 0 ∷ 1 ∷ []))
        ∷ ("b", (fact "b" "five", 0 ∷ 0 ∷ 0 ∷ 0 ∷ 0 ∷ 1 ∷ []))
        ∷ [];
  };
}

recall-relevant_example :
    recall hashing floats "five" (pos 3) filled ≡ ok (take 3 (relevant floats scores))
unfolding is_blank strip is_space embed hash_tokens score_all cosine values zip
recall-relevant_example =
    recall-relevant floats hashing IsAny order "five" (pos 3) filled refl refl refl (ok scores) refl
      (tt, (tt, tt))

recall_test : recall hashing floats "five" (pos 3) filled ≡ ok (fact "a" "four" ∷ [])
unfolding recall search is_blank strip is_space embed hash_tokens score_all cosine values zip
    sort_by
recall_test = refl
