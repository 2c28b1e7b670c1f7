-- ===== src/Base/Dict.antt =====
-- Python's `dict` with texts for keys: an association list in insertion order. A key that is
-- written again keeps its place, as in Python. Proofs elsewhere go by the laws.
use Prim.Native.String.{String}
use mathlib.Core.Path.{◌≡◌, refl, subst}
use mathlib.Core.Logic.{inl, inr}
use mathlib.Core.Bool.{Bool, true}
use mathlib.Core.Option.{Option, none, some, some-injective}
use mathlib.Core.List.{List, [], ◌∷◌}
use native.Mathlib.Omega.{arith}
use text.Mathlib.Text.{◌==◌}
use text.Mathlib.TextEquality.{eq_iff}
use ai_agent_hub_project_ome.Base.Tests.{if◌then◌else◌, is_some, Bool-cases}
use ai_agent_hub_project_ome.Base.Lists.{contains, All}

abbrev pub Dict {ℓ} : Type ℓ → Type ℓ
Dict V = List (String × V)

module _ {ℓ} {V : Type ℓ} where
  -- `d.get(k)`
  unfoldable pub lookup : String → Dict V → Option V
  lookup k [] = none
  lookup k ((j, v) ∷ d) = if j == k then some v else lookup k d

  -- `d[k] = v`
  unfoldable pub insert : String → V → Dict V → Dict V
  insert k v [] = (k, v) ∷ []
  insert k v ((j, w) ∷ d) = if j == k then (j, v) ∷ d else (j, w) ∷ insert k v d

  -- `d.pop(k)` of a key that is there
  unfoldable pub erase : String → Dict V → Dict V
  erase k [] = []
  erase k ((j, w) ∷ d) = let rest = erase k d in if j == k then rest else (j, w) ∷ rest

  unfoldable pub keys : Dict V → List String
  keys [] = []
  keys ((k, v) ∷ d) = k ∷ keys d

  unfoldable pub values : Dict V → List V
  values [] = []
  values ((k, v) ∷ d) = v ∷ values d

  -- `k in d`
  abbrev pub has : String → Dict V → Bool
  has k d = is_some (lookup k d)

  -- `{**d, **e}`
  unfoldable pub merge : Dict V → Dict V → Dict V
  unfolding insert
  merge d [] = d
  merge d ((k, v) ∷ e) = merge (insert k v d) e

  -- `{k: v for k, v in pairs}`
  unfoldable pub of_pairs : List (String × V) → Dict V
  unfolding merge
  of_pairs pairs = merge [] pairs

module _ {ℓ} {V : Type ℓ} where
  pub lookup-insert :
      (j k : String) (v : V) (d : Dict V)
      → lookup j (insert k v d) ≡ (if k == j then some v else lookup j d)
  unfolding lookup insert
  lookup-insert j k v [] = refl
  lookup-insert j k v ((i, w) ∷ d) =
      ground (arith, eq_iff k j, eq_iff i k, eq_iff i j, lookup-insert j k v d)

  pub lookup-erase :
      (j k : String) (d : Dict V) → lookup j (erase k d) ≡ (if k == j then none else lookup j d)
  unfolding lookup erase
  lookup-erase j k [] = ground arith
  lookup-erase j k ((i, w) ∷ d) =
      ground (arith, eq_iff k j, eq_iff i k, eq_iff i j, lookup-erase j k d)

  pub contains-keys : (k : String) (d : Dict V) → contains (keys d) k ≡ has k d
  unfolding keys lookup
  contains-keys k [] = refl
  contains-keys k ((j, v) ∷ d) = ground (arith, contains-keys k d)

  -- A write to a key that is there keeps the keys and their order.
  pub keys-insert_old :
      (k : String) (v : V) (d : Dict V) → has k d ≡ true → keys (insert k v d) ≡ keys d
  unfolding keys insert lookup
  keys-insert_old k v [] h = ground arith
  keys-insert_old k v ((j, w) ∷ d) h = ground (arith, keys-insert_old k v d)

pub lookup-nil {ℓ} : {V : Type ℓ} (k : String) → lookup {V = V} k [] ≡ none
unfolding lookup
lookup-nil k = refl

pub ruleset dict_laws = (lookup-nil, lookup-insert, lookup-erase)

-- What holds of the values that are written holds of the values that are found.
module _ {V : Type 0} (R : V → Type 0) where
  abbrev pub Found : Dict V → Type 0
  Found d = (j : String) (w : V) → lookup j d ≡ some w → R w

  pub list-Found : (d : Dict V) → All (λ (p : String × V). R p.1) d → Found d
  unfolding lookup
  list-Found [] all j w e = absurd (cc)
  list-Found ((k, v) ∷ d) all j w e = elim (Bool-cases (k == j)) [
    | inl c ↦ let same : v ≡ w = some-injective v w (rw c at e) in subst R same all.0
    | inr c ↦ list-Found d all.1 j w (rw c at e)
  ]

  insert-Found : (k : String) (v : V) (d : Dict V) → Found d → R v → Found (insert k v d)
  insert-Found k v d h r j w e = elim (Bool-cases (k == j)) [
    | inl c ↦
        let same : v ≡ w = some-injective v w (rw (lookup-insert j k v d, c) at e) in subst R same r
    | inr c ↦ h j w (rw (lookup-insert j k v d, c) at e)
  ]

  pub merge-Found : (d e : Dict V) → Found d → All (λ (p : String × V). R p.1) e → Found (merge d e)
  unfolding merge
  merge-Found d [] h all = h
  merge-Found d ((k, v) ∷ e) h all = merge-Found (insert k v d) e (insert-Found k v d h all.0) all.1

  absent : (j : String) (w : V) → lookup {V = V} j [] ≡ none → lookup {V = V} j [] ≡ some w → ⊥
  absent j w p q = cc

  pub of_pairs-Found : (e : Dict V) → All (λ (p : String × V). R p.1) e → Found (of_pairs e)
  unfolding of_pairs
  of_pairs-Found e all = merge-Found [] e (λ j w q. absurd (absent j w (lookup-nil j) q)) all
