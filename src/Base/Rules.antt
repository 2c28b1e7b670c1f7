-- ===== src/Base/Rules.antt =====
-- Proof rules for awaited actions: what is known of the result and of the state at the end.
use ai_agent_hub_project_ome.Base.Tests.{Bool-cases}
use mathlib.Core.Path.{◌≡◌, refl, ap}
use mathlib.Core.Logic.{inl, inr}
use ai_agent_hub_project_ome.Base.Exn.{
  Outcome, ok, raised, stopped, Exn, Stop, Exec, continue, continue-eq-ok, recover, ◌>>=◌,
  try_except, Timer, wait_for, own_deadline, expired,
}

-- What is known of the result and the state that an action comes back with.
abbrev pub Ends : {S A : Type 0} → (Outcome A → S → Type 0) → Outcome A × S → Type 0
Ends Q (r, s) = Q r s

module _ {S A : Type 0} (P Q : Outcome A → S → Type 0) (h : Exn → Exec S A)
    (good : (a : A) (s : S) → P (ok a) s → Q (ok a) s)
    (handled : (e : Exn) (s : S) → P (raised e) s → Ends Q (h e s))
    (cut : (x : Stop) (s : S) → P (stopped x) s → Q (stopped x) s) where
  recover-Ends : (r : Outcome A) (s : S) → P r s → Ends Q (recover h r s)
  recover-Ends (ok a) s p = good a s p
  recover-Ends (raised e) s p = handled e s p
  recover-Ends (stopped x) s p = cut x s p

  pub try_except-Ends : (m : Exec S A) (s : S) → Ends P (m s) → Ends Q (try_except m h s)
  try_except-Ends m s p = let (r, s') = m s in recover-Ends r s' p

module _ {S A B : Type 0} (P : Outcome A → S → Type 0) (Q : Outcome B → S → Type 0)
    (f : A → Exec S B) (good : (a : A) (s : S) → P (ok a) s → Ends Q (f a s))
    (bad : (e : Exn) (s : S) → P (raised e) s → Q (raised e) s)
    (cut : (x : Stop) (s : S) → P (stopped x) s → Q (stopped x) s) where
  continue-Ends : (r : Outcome A) (s : S) → P r s → Ends Q (continue r f s)
  continue-Ends (ok a) s p = good a s p
  continue-Ends (raised e) s p = bad e s p
  continue-Ends (stopped x) s p = cut x s p

  pub bind-Ends : (m : Exec S A) (s : S) → Ends P (m s) → Ends Q ((m >>= f) s)
  bind-Ends m s p = let (r, s') = m s in continue-Ends r s' p

module _ {S A : Type 0} (P Q : Outcome A → S → Type 0)
    (good : (a : A) (s : S) → P (ok a) s → Q (ok a) s)
    (bad : (e : Exn) (s : S) → P (raised e) s → Q (raised e) s)
    (late : (e : Exn) (x : Stop) (s : S) → P (stopped x) s → Q (raised e) s)
    (cut : (x : Stop) (s : S) → P (stopped x) s → Q (stopped x) s) where
  own_deadline-Ends : (t : Timer) (r : Outcome A) (s : S) → P r s → Q (own_deadline t r) s
  unfolding wait_for
  own_deadline-Ends t (ok a) s p = good a s p
  own_deadline-Ends t (raised e) s p = bad e s p
  own_deadline-Ends t (stopped x) s p = elim (Bool-cases (expired t x)) [
    | inl e ↦ rw e (late _ x s p)
    | inr e ↦ rw e (cut x s p)
  ]

  -- A stop by the deadline turns into an exception; what is known at the stop stays known.
  pub wait_for-Ends : (t : Timer) (m : Exec S A) (s : S) → Ends P (m s) → Ends Q (wait_for t m s)
  unfolding wait_for
  wait_for-Ends t m s p = let (r, s') = m s in own_deadline-Ends t r s' p

-- What holds of a value that an action returns.
abbrev pub Returns : {S A : Type 0} → (A → Type 0) → Outcome A → S → Type 0
Returns P (ok a) s = P a
Returns P (raised e) s = Unit
Returns P (stopped x) s = Unit

-- Two blocks that begin alike and go on alike for what the beginning returns.
module _ {S A B : Type 0} (P : A → Type 0) (f g : A → Exec S B)
    (same : (a : A) (s : S) → P a → f a s ≡ g a s) where
  continue-same : (r : Outcome A) (s : S) → Returns P r s → continue r f s ≡ continue r g s
  continue-same (ok a) s p = same a s p
  continue-same (raised e) s p = refl
  continue-same (stopped x) s p = refl

  pub bind-same_on :
      (m n : Exec S A) (s : S) → m s ≡ n s → Ends (Returns P) (n s) → (m >>= f) s ≡ (n >>= g) s
  bind-same_on m n s e p = let (r, s') = n s in rw e (continue-same r s' p)

pub Returns-any : {S A : Type 0} (r : Outcome A) (s : S) → Returns (λ _. Unit) r s
Returns-any (ok a) s = tt
Returns-any (raised e) s = tt
Returns-any (stopped x) s = tt

-- Inversion of a block that returns: how its beginning ended.
pub bind-eq-ok :
    {S A B : Type 0} (m : Exec S A) (f : A → Exec S B) (s s' : S) (b : B)
    → (m >>= f) s ≡ (ok b, s')
    → (a : A) × (s₁ : S) × (m s ≡ (ok a, s₁)) × (f a s₁ ≡ (ok b, s'))
bind-eq-ok m f s s' b e =
    let (r, s₁) = m s in
    let (a, same, after) = continue-eq-ok r f s₁ s' b e in
    (a, s₁, ap (λ (o : Outcome _). (o, s₁)) same, after)
