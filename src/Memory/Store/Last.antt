-- ===== src/Memory/Store/Last.antt =====
-- The last entries of a list that is kept oldest first, against the first of one that is kept
-- newest first.
use mathlib.Core.List.{reverse, reverse-cons, reverse-append}
use ai_agent_hub_project_ome.Base.{
  ℕ, zero, suc, ◌-◌, List, [], ◌∷◌, ◌++◌, length, take, drop, ◌≡◌, refl, sym, ap, ◌∙◌, arith,
  length-append, length-drop, take-append-drop,
}
use ai_agent_hub_project_ome.Memory.Store.{last}

module _ {ℓ} {A : Type ℓ} where
  pub drop-length : (xs ys : List A) → drop (length xs) (xs ++ ys) ≡ ys
  drop-length [] ys = refl
  drop-length (x ∷ xs) ys = drop-length xs ys

  pub length-reverse : (xs : List A) → length (reverse xs) ≡ length xs
  length-reverse [] = refl
  length-reverse (x ∷ xs) =
      rw (reverse-cons x xs) (omega (arith, length-append (reverse xs) (x ∷ []), length-reverse xs))

  -- The last entries of a list are the first ones from behind.
  pub last-reverse : (n : ℕ) (xs : List A) → last n (reverse xs) ≡ reverse (take n xs)
  last-reverse n xs =
      let parts : reverse xs ≡ reverse (drop n xs) ++ reverse (take n xs) =
        ap (λ (l : List A). reverse l) (sym (take-append-drop n xs))
        ∙ reverse-append (take n xs) (drop n xs) in
      let size : length (reverse xs) - n ≡ length (reverse (drop n xs)) =
        omega (arith, length-reverse xs, length-reverse (drop n xs), length-drop n xs) in
      rw (size, parts) (drop-length (reverse (drop n xs)) (reverse (take n xs)))

  pub take-take : (n : ℕ) (x : A) (xs : List A) → take n (x ∷ take n xs) ≡ take n (x ∷ xs)
  take-take zero x xs = refl
  take-take (suc n) x xs = ap (λ l. x ∷ l) (shorter n xs)
    where
      shorter : (m : ℕ) (ys : List A) → take m (take (suc m) ys) ≡ take m ys
      shorter zero ys = refl
      shorter (suc m) [] = refl
      shorter (suc m) (y ∷ ys) = ap (λ l. y ∷ l) (shorter m ys)
