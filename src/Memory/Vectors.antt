-- ===== src/Memory/Vectors.antt =====
-- `MemoryRecord`, `InMemoryVectorStore` and `HashEmbedding` of memory/store.py. The locks are only
-- held where nothing is awaited, and no operation suspends: each one is a single step.
pub mod Search
use Prim.Native.Char.{Char}
use mathlib.Core.List.{zip}
use Prim.Native.Nat.{◌%◌}
use ai_agent_hub_project_ome.Base.{
  ℕ, zero, suc, ◌+◌, ◌*◌, ◌==◌, ◌<>◌, String, Bool, true, false, not, ◌||◌, List, [], ◌∷◌, length,
  take, map, eqb, ltb, if◌then◌else◌,
}
use ai_agent_hub_project_ome.Base.Int.{ℤ, pos_part, ltb_ℤ}
use ai_agent_hub_project_ome.Base.Dict.{Dict, insert, values}
use ai_agent_hub_project_ome.Base.Sort.{sort_by}
use ai_agent_hub_project_ome.Base.Exn.{Outcome, ok, raised, error, value_error, other_error, bind}
use ai_agent_hub_project_ome.Base.Value.{Fields}

-- What is used of the machine's floats `F`. `sum` is Python's, which may compensate for rounding.
pub record Floats (F : Type 0) : Type 0 where
  pub zero_f : F
  pub one_f : F
  pub minus_one_f : F
  pub add_f : F → F → F
  pub mul_f : F → F → F
  -- the quotient by a number that is not zero
  pub div_f : F → F → F
  pub sqrt_f : F → F
  pub sum_f : List F → F
  pub lt_f : F → F → Bool
  pub is_zero_f : F → Bool

-- What the embedding takes of the standard library: `str.lower`, whether `\w` matches a character,
-- and the first five bytes of `hashlib.blake2b(token.encode("utf-8"), digest_size=16)`.
pub record Hashing : Type 0 where
  pub lower : String → String
  pub is_word : Char → Bool
  pub digest : String → ℕ × ℕ × ℕ × ℕ × ℕ

-- A time is in hundredths of a second.
pub record MemoryRecord : Type 0 where
  pub id : String
  pub text : String
  pub metadata : Fields
  pub created_at : ℕ

pub record InMemoryVectorStore (F : Type 0) : Type 0 where
  pub dimensions : ℕ
  pub stored : Dict (MemoryRecord × List F)

pub record HashEmbedding : Type 0 where
  pub dimensions : ℕ

-- `HashEmbedding(dimensions)`
unfoldable pub make_embedding : ℤ → Outcome HashEmbedding
make_embedding dimensions =
    if ltb_ℤ dimensions 16
    then raised (error value_error "dimensions must be >= 16")
    else ok (record { dimensions = pos_part dimensions })

-- `InMemoryVectorStore(dimensions)`
unfoldable pub make_vectors : {F : Type 0} → ℤ → Outcome (InMemoryVectorStore F)
make_vectors dimensions =
    if ltb_ℤ dimensions 16
    then raised (error value_error "dimensions must be >= 16")
    else ok (record { dimensions = pos_part dimensions; stored = [] })

abbrev pub mismatch {ℓ} : {A : Type ℓ} → Outcome A
mismatch = raised (error value_error "Vector dimension mismatch")

-- `upsert(record, vector)`
unfoldable pub upsert :
    {F : Type 0} → MemoryRecord → List F → InMemoryVectorStore F → Outcome (InMemoryVectorStore F)
upsert item vector store =
    if not (eqb (length vector) store.dimensions)
    then mismatch
    else ok (record store { stored = insert item.id (item, vector) store.stored })

module _ {F : Type 0} (fl : Floats F) where
  abbrev pub product : F × F → F
  product (a, b) = fl.mul_f a b

  abbrev square : F → F
  square value = fl.mul_f value value

  abbrev pub norm : List F → F
  norm vector = fl.sqrt_f (fl.sum_f (map square vector))

  -- `_cosine(left, right)`. The product of two norms that are not zero may be rounded to zero.
  unfoldable pub cosine : List F → List F → Outcome F
  cosine left right =
      let dot = fl.sum_f (map product (zip left right)) in
      let norms = fl.mul_f (norm left) (norm right) in
      if fl.is_zero_f (norm left) || fl.is_zero_f (norm right)
      then ok fl.zero_f
      else if fl.is_zero_f norms
      then raised (error (other_error "ZeroDivisionError") "float division by zero")
      else ok (fl.div_f dot norms)

  -- `[(record, self._cosine(query, stored)) for record, stored in items]`
  unfoldable pub score_all :
      List F → List (MemoryRecord × List F) → Outcome (List (MemoryRecord × F))
  score_all query [] = ok []
  score_all query ((item, vector) ∷ items) =
      bind (cosine query vector)
        λ score. bind (score_all query items) λ scored. ok ((item, score) ∷ scored)

  -- In an order with `reverse=True`, an entry may stand before another one unless its score is less.
  abbrev pub scored_le : MemoryRecord × F → MemoryRecord × F → Bool
  scored_le (_, x) (_, y) = not (fl.lt_f x y)

  -- `search(vector, limit=…)`
  unfoldable pub search : List F → ℤ → InMemoryVectorStore F → Outcome (List (MemoryRecord × F))
  unfolding score_all
  search vector limit store =
      if ltb_ℤ limit 1
      then ok []
      else if not (eqb (length vector) store.dimensions)
      then mismatch
      else bind (score_all vector (values store.stored))
          λ scored. ok (take (pos_part limit) (sort_by scored_le scored))

  abbrev bump : ℕ → F → List F → List F
  bump n x [] = []
  bump zero x (y ∷ ys) = fl.add_f y x ∷ ys
  bump (suc n) x (y ∷ ys) = y ∷ bump n x ys

  abbrev zeros : ℕ → List F
  zeros zero = []
  zeros (suc n) = fl.zero_f ∷ zeros n

  -- The body of the loop over the tokens: four bytes, most significant first, give the index.
  abbrev hash_token : ℕ → ℕ × ℕ × ℕ × ℕ × ℕ → List F → List F
  hash_token dimensions (b₀, b₁, b₂, b₃, b₄) vector =
      let index = (((b₀ * 256 + b₁) * 256 + b₂) * 256 + b₃) % dimensions in
      bump index (if ltb 0 (b₄ % 2) then fl.one_f else fl.minus_one_f) vector

module _ (hashing : Hashing) where
  -- `re.findall(r"[\w-]+", text)`: the longest runs, from left to right; `run` is the one so far.
  abbrev pub words_from : String → String → List String
  words_from run String.[] = if run == "" then [] else run ∷ []
  words_from run (String.◌∷◌ c s) =
      let longer = words_from (run <> String.◌∷◌ c "") s in
      let closed = words_from "" s in
      if hashing.is_word c || String.◌∷◌ c "" == "-"
      then longer
      else if run == ""
      then closed
      else run ∷ closed

  module _ {F : Type 0} (fl : Floats F) where
    unfoldable pub hash_tokens : ℕ → List String → List F → List F
    hash_tokens dimensions [] vector = vector
    hash_tokens dimensions (token ∷ tokens) vector =
        hash_tokens dimensions tokens (hash_token fl dimensions (hashing.digest token) vector)

    -- `embed(text)`
    unfoldable pub embed : HashEmbedding → String → List F
    unfolding hash_tokens
    embed embedding text =
        let vector =
          hash_tokens embedding.dimensions (words_from "" (hashing.lower text))
            (zeros fl embedding.dimensions) in
        if fl.is_zero_f (norm fl vector)
        then vector
        else map (λ value. fl.div_f value (norm fl vector)) vector
