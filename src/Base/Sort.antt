-- ===== src/Base/Sort.antt =====
-- `sorted`: any stable sort gives this result. The order is a Boolean test `le x y`, "x may stand
-- before y".
pub mod Texts
use Prim.Native.Nat.{Ordering, suc}
use Prim.Native.String.{String, compare}
use mathlib.Core.Path.{◌≡◌, refl, ap, ◌∙◌}
use text.Mathlib.Text.{◌==◌}
use mathlib.Core.Logic.{inl, inr}
use mathlib.Core.Bool.{Bool, true, false, ◌||◌}
use mathlib.Core.List.{List, [], ◌∷◌, Perm}
use mathlib.Core.List.Perm
use ai_agent_hub_project_ome.Base.Tests.{if◌then◌else◌, Bool-cases}
use ai_agent_hub_project_ome.Base.Lists.{All, contains, length}
use native.Mathlib.Omega.{arith}

module _ {ℓ} {A : Type ℓ} (le : A → A → Bool) where
  insert_by : A → List A → List A
  insert_by x [] = x ∷ []
  insert_by x (y ∷ ys) = if le x y then x ∷ y ∷ ys else y ∷ insert_by x ys

  unfoldable pub sort_by : List A → List A
  unfolding insert_by
  sort_by [] = []
  sort_by (x ∷ xs) = insert_by x (sort_by xs)

  -- Each element may stand before all that follow it.
  abbrev pub IsSorted : List A → Type 0
  IsSorted [] = Unit
  IsSorted (x ∷ xs) = All (λ y. le x y ≡ true) xs × IsSorted xs

-- The order of texts is by code points.
abbrev pub str_le : String → String → Bool
str_le s t = elim (compare s t) [ Ordering.gt ↦ false | _ ↦ true ]

module _ {ℓ} {A : Type ℓ} (le : A → A → Bool) where
  insert_by-perm : (x : A) (ys : List A) → Perm (insert_by le x ys) (x ∷ ys)
  unfolding insert_by
  insert_by-perm x [] = Perm.refl (x ∷ [])
  insert_by-perm x (y ∷ ys) = elim (Bool-cases (le x y)) [
    | inl h ↦ rw h (Perm.refl (x ∷ y ∷ ys))
    | inr h ↦ rw h (Perm.trans (Perm.cons y (insert_by-perm x ys)) (Perm.swap x y ys))
  ]

  pub sort_by-perm : (xs : List A) → Perm (sort_by le xs) xs
  unfolding sort_by
  sort_by-perm [] = Perm.refl []
  sort_by-perm (x ∷ xs) =
      Perm.trans (insert_by-perm x (sort_by le xs)) (Perm.cons x (sort_by-perm xs))

module _ {ℓ} {A : Type ℓ} (le : A → A → Bool) where
  length-insert_by : (x : A) (ys : List A) → length (insert_by le x ys) ≡ suc (length ys)
  unfolding insert_by
  length-insert_by x [] = refl
  length-insert_by x (y ∷ ys) = elim (Bool-cases (le x y)) [
    | inl h ↦ rw h refl
    | inr h ↦ rw h (ap suc (length-insert_by x ys))
  ]

  pub length-sort_by : (xs : List A) → length (sort_by le xs) ≡ length xs
  unfolding sort_by
  length-sort_by [] = refl
  length-sort_by (x ∷ xs) = length-insert_by x (sort_by le xs) ∙ ap suc (length-sort_by xs)

  All-insert_by :
      (Q : A → Type 0) (x : A) (ys : List A) → Q x → All Q ys → All Q (insert_by le x ys)
  unfolding insert_by
  All-insert_by Q x [] p all = (p, tt)
  All-insert_by Q x (y ∷ ys) p (q, all) = elim (Bool-cases (le x y)) [
    | inl h ↦ rw h (p, (q, all))
    | inr h ↦ rw h (q, All-insert_by Q x ys p all)
  ]

  pub All-sort_by : (P : A → Type 0) (xs : List A) → All P xs → All P (sort_by le xs)
  unfolding sort_by
  All-sort_by P [] ps = tt
  All-sort_by P (x ∷ xs) (px, ps) = All-insert_by P x (sort_by le xs) px (All-sort_by P xs ps)

-- The order only has to be one on the elements that `P` holds of.
module _ {ℓ} {A : Type ℓ} {le : A → A → Bool} (P : A → Type 0)
    (total : (x y : A) → P x → P y → le x y ≡ false → le y x ≡ true)
    (trans : (x y z : A) → P x → P y → P z → le x y ≡ true → le y z ≡ true → le x z ≡ true) where
  All-le_trans :
      (x y : A) (zs : List A)
      → P x
      → P y
      → All P zs
      → le x y ≡ true
      → All (λ z. le y z ≡ true) zs
      → All (λ z. le x z ≡ true) zs
  All-le_trans x y [] px py ps h all = tt
  All-le_trans x y (z ∷ zs) px py (pz, ps) h (p, all) =
      (trans x y z px py pz h p, All-le_trans x y zs px py ps h all)

  insert_by-IsSorted :
      (x : A) (ys : List A) → P x → All P ys → IsSorted le ys → IsSorted le (insert_by le x ys)
  unfolding insert_by
  insert_by-IsSorted x [] px ps s = (tt, tt)
  insert_by-IsSorted x (y ∷ ys) px (py, ps) (all, s) = elim (Bool-cases (le x y)) [
    | inl h ↦ rw h ((h, All-le_trans x y ys px py ps h all), (all, s))
    | inr h ↦ rw h (
      All-insert_by le (λ z. le y z ≡ true) x ys (total x y px py h) all,
      insert_by-IsSorted x ys px ps s,
    )
  ]

  pub sort_by-IsSorted_on : (xs : List A) → All P xs → IsSorted le (sort_by le xs)
  unfolding sort_by
  sort_by-IsSorted_on [] ps = tt
  sort_by-IsSorted_on (x ∷ xs) (px, ps) =
      insert_by-IsSorted x (sort_by le xs) px (All-sort_by le P xs ps) (sort_by-IsSorted_on xs ps)

All-unit {ℓ} : {A : Type ℓ} (xs : List A) → All (λ (x : A). Unit {0}) xs
All-unit [] = tt
All-unit (x ∷ xs) = (tt, All-unit xs)

module _ {ℓ} {A : Type ℓ} {le : A → A → Bool} (total : (x y : A) → le x y ≡ false → le y x ≡ true)
    (trans : (x y z : A) → le x y ≡ true → le y z ≡ true → le x z ≡ true) where
  pub sort_by-IsSorted : (xs : List A) → IsSorted le (sort_by le xs)
  sort_by-IsSorted xs =
      sort_by-IsSorted_on (λ _. Unit) (λ x y _ _. total x y) (λ x y z _ _ _. trans x y z) xs
        (All-unit xs)

insert_by-contains :
    (le : String → String → Bool) (x : String) (ys : List String) (k : String)
    → contains (insert_by le x ys) k ≡ contains (x ∷ ys) k
unfolding insert_by
insert_by-contains le x [] k = refl
insert_by-contains le x (y ∷ ys) k = ground (arith, insert_by-contains le x ys k)

-- Sorting keeps the members.
pub contains-sort_by :
    (le : String → String → Bool) (xs : List String) (k : String)
    → contains (sort_by le xs) k ≡ contains xs k
unfolding sort_by
contains-sort_by le [] k = refl
contains-sort_by le (x ∷ xs) k =
    insert_by-contains le x (sort_by le xs) k ∙ ap (λ b. x == k || b) (contains-sort_by le xs k)
