-- ===== src/Memory/Vectors/Search.antt =====
-- `search` and `embed`.
use ai_agent_hub_project_ome.Base.{
  ℕ, zero, suc, String, List, [], ◌∷◌, length, map, ◌≡◌, refl, ap, true, false, inl, inr,
  Bool-cases, ◌∙◌, arith,
}
use ai_agent_hub_project_ome.Base.{
  keep, take, drop, take-append-drop, length-take, ◌++◌, Bool, All, eqb,
}
use ai_agent_hub_project_ome.Base.Sort.{
  sort_by, IsSorted, sort_by-perm, sort_by-IsSorted_on, length-sort_by,
}
use Prim.Native.Nat.{min}
use mathlib.Core.List.{Perm}
use ai_agent_hub_project_ome.Base.Int.{ℤ, pos_part, ltb_ℤ}
use ai_agent_hub_project_ome.Base.Dict.{values}
use ai_agent_hub_project_ome.Base.Exn.{ok}
use ai_agent_hub_project_ome.Memory.Vectors.{
  MemoryRecord, InMemoryVectorStore, score_all, scored_le, search, Floats, Hashing, HashEmbedding,
  bump, zeros, norm, hash_tokens, words_from, embed,
}

pub eq→eqb : {a b : ℕ} → a ≡ b → eqb a b ≡ true
eq→eqb h = ground arith

length-map : {A B : Type 0} (f : A → B) (xs : List A) → length (map f xs) ≡ length xs
length-map f [] = refl
length-map f (x ∷ xs) = ap suc (length-map f xs)

module _ (hashing : Hashing) {F : Type 0} (fl : Floats F) where
  length-bump : (n : ℕ) (x : F) (vector : List F) → length (bump fl n x vector) ≡ length vector
  length-bump n x [] = refl
  length-bump zero x (y ∷ ys) = refl
  length-bump (suc n) x (y ∷ ys) = ap suc (length-bump n x ys)

  length-zeros : (n : ℕ) → length (zeros fl n) ≡ n
  length-zeros zero = refl
  length-zeros (suc n) = ap suc (length-zeros n)

  length-hash_tokens :
      (n : ℕ) (tokens : List String) (vector : List F)
      → length (hash_tokens hashing fl n tokens vector) ≡ length vector
  unfolding hash_tokens
  length-hash_tokens n [] vector = refl
  length-hash_tokens n (token ∷ tokens) vector =
      length-hash_tokens n tokens _ ∙ length-bump _ _ vector

  -- A text's vector has as many components as the embedding has dimensions.
  pub length-embed :
      (embedding : HashEmbedding) (text : String)
      → length (embed hashing fl embedding text) ≡ embedding.dimensions
  unfolding embed
  length-embed embedding text =
      let n = embedding.dimensions in
      let tokens = words_from hashing "" (hashing.lower text) in
      let vector = hash_tokens hashing fl n tokens (zeros fl n) in
      let same : length vector ≡ n = length-hash_tokens n tokens (zeros fl n) ∙ length-zeros n in
      elim (Bool-cases (fl.is_zero_f (norm fl vector))) [
        | inl e ↦ rw e same
        | inr e ↦ rw e (length-map _ vector ∙ same)
      ]

-- The comparison of floats orders the numbers among them, as it does where there is no nan.
pub record IsOrder {F : Type 0} (fl : Floats F) (IsNumber : F → Type 0) : Type 0 where
  pub zero-number : IsNumber fl.zero_f
  pub asym : (x y : F) → IsNumber x → IsNumber y → fl.lt_f x y ≡ true → fl.lt_f y x ≡ false
  pub between :
      (x y z : F)
      → IsNumber x
      → IsNumber y
      → IsNumber z
      → fl.lt_f x y ≡ false
      → fl.lt_f y z ≡ false
      → fl.lt_f x z ≡ false

abbrev pub IsScored : {F : Type 0} → (F → Type 0) → MemoryRecord × F → Type 0
IsScored IsNumber m = IsNumber m.1

abbrev pub positive : {F : Type 0} → Floats F → MemoryRecord × F → Bool
positive fl m = fl.lt_f fl.zero_f m.1

module _ {F : Type 0} (fl : Floats F) (IsNumber : F → Type 0) (order : IsOrder fl IsNumber) where
  scored_total :
      (x y : MemoryRecord × F)
      → IsScored IsNumber x
      → IsScored IsNumber y
      → scored_le fl x y ≡ false
      → scored_le fl y x ≡ true
  scored_total (r, x) (s, y) px py h =
      let less : fl.lt_f x y ≡ true = ground arith in rw (order.asym x y px py less) refl

  scored_trans :
      (x y z : MemoryRecord × F)
      → IsScored IsNumber x
      → IsScored IsNumber y
      → IsScored IsNumber z
      → scored_le fl x y ≡ true
      → scored_le fl y z ≡ true
      → scored_le fl x z ≡ true
  scored_trans (r, x) (s, y) (t, z) px py pz h k =
      let first : fl.lt_f x y ≡ false = ground arith in
      let second : fl.lt_f y z ≡ false = ground arith in
      rw (order.between x y z px py pz first second) refl

  pub scored-IsSorted :
      (scored : List (MemoryRecord × F))
      → All (IsScored IsNumber) scored
      → IsSorted (scored_le fl) (sort_by (scored_le fl) scored)
  scored-IsSorted = sort_by-IsSorted_on (IsScored IsNumber) scored_total scored_trans

  -- Where the scores are numbers, `search` with a limit of at least one gives the best entries:
  -- they and the ones left out are the scored entries of the store, in descending order, and as
  -- many are given as the limit and the store allow.
  pub search-best :
      (store : InMemoryVectorStore F) (vector : List F) (limit : ℤ)
      (scored : List (MemoryRecord × F))
      → ltb_ℤ limit 1 ≡ false
      → length vector ≡ store.dimensions
      → score_all fl vector (values store.stored) ≡ ok scored
      → All (IsScored IsNumber) scored
      → (best rest : List (MemoryRecord × F)) × (search fl vector limit store ≡ ok best)
        × Perm (best ++ rest) scored
        × IsSorted (scored_le fl) (best ++ rest)
        × (length best ≡ min (pos_part limit) (length scored))
  unfolding search
  search-best store vector limit scored asked fits same numbers =
      let sorted = sort_by (scored_le fl) scored in
      let n = pos_part limit in
      let whole : take n sorted ++ drop n sorted ≡ sorted = take-append-drop n sorted in
      (
        take n sorted,
        drop n sorted,
        rw (asked, eq→eqb fits, same) refl,
        rw whole (sort_by-perm (scored_le fl) scored),
        rw whole (scored-IsSorted scored numbers),
        length-take n sorted ∙ ap (λ k. min n k) (length-sort_by (scored_le fl) scored),
      )

  none-positive :
      (m : MemoryRecord × F) (sorted : List (MemoryRecord × F))
      → All (IsScored IsNumber) (m ∷ sorted)
      → positive fl m ≡ false
      → All (λ x. scored_le fl m x ≡ true) sorted
      → keep (positive fl) sorted ≡ []
  none-positive m [] ps e all = refl
  none-positive (r, x) ((s, y) ∷ sorted) (px, (py, ps)) e (h, all) =
      let bound : fl.lt_f x y ≡ false = ground arith in
      let none_here : fl.lt_f fl.zero_f y ≡ false =
        order.between fl.zero_f x y order.zero-number px py e bound in
      rw (none_here, keep, none-positive (r, x) sorted (px, ps) e all) refl

  take-nil : (n : ℕ) → take {A = MemoryRecord × F} n [] ≡ []
  take-nil zero = refl
  take-nil (suc n) = refl

  -- In a sorted list the positive entries come first.
  pub keep-take :
      (n : ℕ) (sorted : List (MemoryRecord × F))
      → All (IsScored IsNumber) sorted
      → IsSorted (scored_le fl) sorted
      → keep (positive fl) (take n sorted) ≡ take n (keep (positive fl) sorted)
  keep-take zero sorted ps s = refl
  keep-take (suc n) [] ps s = refl
  keep-take (suc n) (m ∷ sorted) (pm, ps) (all, s) = elim (Bool-cases (positive fl m)) [
    | inl e ↦ rw (e, keep, keep-take n sorted ps s) refl
    | inr e ↦
        let empty = none-positive m sorted (pm, ps) e all in
        rw (e, keep, keep-take n sorted ps s, empty, take-nil n) refl
  ]
