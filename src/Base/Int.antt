-- ===== src/Base/Int.antt =====
-- Signed integers over the native numbers, with Python's arithmetic on them.
use Prim.Native.String.{String, ◌++◌}
use Prim.Native.Nat.{ℕ, zero, suc, ◌+◌, ◌-◌, ◌*◌, ◌/◌, ◌≤◌}
use mathlib.Core.Path.{◌≡◌, refl}
use mathlib.Core.Bool.{Bool, true, false}
use native.Mathlib.Omega.{arith}
use ai_agent_hub_project_ome.Base.Tests.{ltb, leb, if◌then◌else◌}
use ai_agent_hub_project_ome.Base.Str.{str_ℕ, two_digits}

-- `negsuc n` is -(n + 1).
pub data ℤ : Type 0 where
  pos : ℕ → ℤ
  negsuc : ℕ → ℤ

-- `max(0, a)`
abbrev pub pos_part : ℤ → ℕ
pos_part (pos n) = n
pos_part (negsuc n) = 0

-- `a < n` and `a <= n` for a number `n` that is not negative
abbrev pub ltb_ℤ : ℤ → ℕ → Bool
ltb_ℤ (pos a) n = ltb a n
ltb_ℤ (negsuc a) n = true

abbrev pub leb_ℤ : ℤ → ℕ → Bool
leb_ℤ (pos a) n = leb a n
leb_ℤ (negsuc a) n = true

unfoldable pub str_ℤ : ℤ → String
unfolding str_ℕ
str_ℤ (pos n) = str_ℕ n
str_ℤ (negsuc n) = "-" ++ str_ℕ (suc n)

-- `f"{x:.2f}"` of a number of hundredths that is not negative
unfoldable pub fixed_2 : ℕ → String
unfolding str_ℕ two_digits
fixed_2 n = str_ℕ (n / 100) ++ "." ++ two_digits n

-- `-a`
abbrev pub neg_ℤ : ℤ → ℤ
neg_ℤ (pos zero) = pos 0
neg_ℤ (pos (suc n)) = negsuc n
neg_ℤ (negsuc n) = pos (suc n)

-- `a - b` of numbers that are not negative
abbrev pub minus : ℕ → ℕ → ℤ
minus a b = if leb b a then pos (a - b) else negsuc (b - suc a)

infixl 6 ◌+ℤ◌ ◌-ℤ◌
abbrev pub ◌+ℤ◌ : ℤ → ℤ → ℤ
pos a +ℤ pos b = pos (a + b)
pos a +ℤ negsuc b = minus a (suc b)
negsuc a +ℤ pos b = minus b (suc a)
negsuc a +ℤ negsuc b = negsuc (suc (a + b))

abbrev pub ◌-ℤ◌ : ℤ → ℤ → ℤ
a -ℤ b = a +ℤ neg_ℤ b

infixl 7 ◌*ℤ◌
abbrev pub ◌*ℤ◌ : ℤ → ℤ → ℤ
pos a *ℤ pos b = pos (a * b)
pos a *ℤ negsuc b = neg_ℤ (pos (a * suc b))
negsuc a *ℤ pos b = neg_ℤ (pos (suc a * b))
negsuc a *ℤ negsuc b = pos (suc a * suc b)

-- `a // b` for a divisor that is not zero; the quotient is rounded down
abbrev pub floor_div : ℤ → ℤ → ℤ
floor_div (pos a) (pos b) = pos (a / b)
floor_div (negsuc a) (pos b) = negsuc (a / b)
floor_div (pos zero) (negsuc b) = pos 0
floor_div (pos (suc a)) (negsuc b) = negsuc (a / suc b)
floor_div (negsuc a) (negsuc b) = pos (suc a / suc b)

-- `a % b`
abbrev pub mod_ℤ : ℤ → ℤ → ℤ
mod_ℤ a b = a -ℤ b *ℤ floor_div a b

-- `a ** n`
abbrev pub power : ℤ → ℕ → ℤ
power a zero = pos 1
power a (suc n) = a *ℤ power a n

floor_div_test : floor_div (negsuc 6) (pos 2) ≡ negsuc 3
floor_div_test = refl

mod_test : mod_ℤ (negsuc 6) (pos 2) ≡ pos 1
mod_test = refl

mod_negative : mod_ℤ (pos 7) (negsuc 2) ≡ negsuc 1
mod_negative = refl

pub pos_of_not_ltb : (a : ℤ) (n : ℕ) → ltb_ℤ a n ≡ false → n ≤ pos_part a
pos_of_not_ltb (pos a) n h = ground arith
pos_of_not_ltb (negsuc a) n h = ground arith
