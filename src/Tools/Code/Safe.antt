-- ===== src/Tools/Code/Safe.antt =====
-- What the evaluator lets through.
use ai_agent_hub_project_ome.Base.{
  ◌≡◌, refl, Option, none, some, true, ◌&&◌, sym, inl, inr, Bool-cases,
}
use ai_agent_hub_project_ome.Base.Int.{ℤ, neg_ℤ}
use ai_agent_hub_project_ome.Base.Exn.{Outcome, ok, raised, stopped, bind}
use ai_agent_hub_project_ome.Tools.Code.{
  Floating, Number, whole, real, u_add, u_sub, other_unary, Operator, Expr, constant,
  other_constant, unary, binary, other_node, to_float, negate, is_operator, is_zero, divides,
  large_exponent, compute, bounded, apply, evaluate,
}

-- Only numbers, signs and the seven operators, all the way down.
abbrev pub IsArithmetic : {F : Type 0} → Expr F → Type 0
IsArithmetic (constant value) = Unit
IsArithmetic other_constant = ⊥
IsArithmetic (unary other_unary operand) = ⊥
IsArithmetic (unary _ operand) = IsArithmetic operand
IsArithmetic (binary op left right) =
    (is_operator op ≡ true) × IsArithmetic left × IsArithmetic right
IsArithmetic (other_node class_name) = ⊥

-- Negation keeps to finite floats, as it does on the machine: the negation of an
-- integer with a finite float has one, and a finite float has a finite negation. Signed zeros are left open.
pub record IsNegatable {F : Type 0} (fl : Floating F) : Type 0 where
  pub of_neg :
      (n : ℤ) (x : F)
      → fl.of_int n ≡ ok x
      → fl.is_finite_f x ≡ true
      → (y : F) × (fl.of_int (neg_ℤ n) ≡ ok y) × (fl.is_finite_f y ≡ true)
  pub finite_neg : (x : F) → fl.is_finite_f x ≡ true → fl.is_finite_f (fl.neg_f x) ≡ true

pub bind-ok :
    {A B : Type 0} (o : Outcome A) (f : A → Outcome B) (b : B)
    → bind o f ≡ ok b
    → (a : A) × (o ≡ ok a) × (f a ≡ ok b)
bind-ok (ok a) f b e = (a, refl, e)
bind-ok (raised x) f b e = absurd (cc)
bind-ok (stopped x) f b e = absurd (cc)

module _ {F : Type 0} (fl : Floating F) where
  -- A number that a finite float stands for.
  abbrev pub IsFinite : Number F → Type 0
  IsFinite value = (x : F) × (to_float fl value ≡ ok x) × (fl.is_finite_f x ≡ true)

  bounded-IsFinite :
      (o : Option (Number F)) (value : Number F) → bounded fl o ≡ ok value → IsFinite value
  bounded-IsFinite none value e = absurd (cc)
  bounded-IsFinite (some result) value e =
      let (x, same, after) = bind-ok (to_float fl result) _ value e in
      elim (Bool-cases (fl.is_finite_f x)) [
        | inr bad ↦ absurd (let wrong = rw bad at after in cc)
        | inl good ↦ elim (Bool-cases (fl.above_limit x)) [
          | inl big ↦ absurd (let wrong = rw (good, big) at after in cc)
          | inr small ↦
              let kept : ok result ≡ ok value = rw (good, small) at after in
              let named : result ≡ value = cc in (x, rw named at same, good)
        ]
      ]

  apply-IsFinite :
      (op : Operator) (left right value : Number F)
      → apply fl op left right ≡ ok value
      → IsFinite value
  apply-IsFinite op left right value e =
      let (large, _, e₁) = bind-ok (large_exponent fl op right) _ value e in
      elim (Bool-cases large) [
        | inl h ↦ absurd (let wrong = rw h at e₁ in cc)
        | inr h ↦ elim (Bool-cases (divides op && is_zero fl right)) [
          | inl z ↦ absurd (let wrong = rw (h, z) at e₁ in cc)
          | inr z ↦
              let (o, _, e₂) =
                bind-ok (compute fl op left right) (bounded fl) value (rw (h, z) at e₁) in
              bounded-IsFinite o value e₂
        ]
      ]

  constant-IsFinite :
      (given value : Number F) → evaluate fl (constant given) ≡ ok value → IsFinite value
  unfolding evaluate
  constant-IsFinite given value e =
      let (x, same, after) = bind-ok (to_float fl given) _ value e in
      elim (Bool-cases (fl.is_finite_f x)) [
        | inr bad ↦ absurd (let wrong = rw bad at after in cc)
        | inl good ↦
            let kept : ok given ≡ ok value = rw good at after in
            let named : given ≡ value = cc in (x, rw named at same, good)
      ]

  module _ (symmetric : IsNegatable fl) where
    negate-IsFinite : (value : Number F) → IsFinite value → IsFinite (negate fl value)
    negate-IsFinite (whole n) (x, same, good) = symmetric.of_neg n x same good
    negate-IsFinite (real y) (x, same, good) =
        let named : y ≡ x = cc in
        (fl.neg_f y, refl, symmetric.finite_neg y (rw (sym named) at good))

    -- An expression that is evaluated is made of numbers, signs and the seven operators alone, and
    -- its value is a finite number.
    pub evaluate-safe :
        (e : Expr F) (value : Number F) → evaluate fl e ≡ ok value → IsArithmetic e × IsFinite value
    unfolding evaluate
    evaluate-safe (constant given) value h = (tt, constant-IsFinite given value h)
    evaluate-safe other_constant value h = absurd (cc)
    evaluate-safe (unary u_add operand) value h = evaluate-safe operand value h
    evaluate-safe (unary u_sub operand) value h =
        let (v, same, after) = bind-ok (evaluate fl operand) _ value h in
        let named : negate fl v ≡ value = cc in
        let (shape, finite) = evaluate-safe operand v same in
        (shape, rw named at (negate-IsFinite v finite))
    evaluate-safe (unary other_unary operand) value h = absurd (cc)
    evaluate-safe (binary op left right) value h = elim (Bool-cases (is_operator op)) [
      | inr bad ↦ absurd (let wrong = rw bad at h in cc)
      | inl good ↦
          let (x, same, after) = bind-ok (evaluate fl left) _ value (rw good at h) in
          let (y, same', after') = bind-ok (evaluate fl right) _ value after in
          (
            (good, (evaluate-safe left x same).0, (evaluate-safe right y same').0),
            apply-IsFinite op x y value after',
          )
    ]
    evaluate-safe (other_node class_name) value h = absurd (cc)
