-- ===== src/Tools/Code.antt =====
-- `SafeCodeExecutionTool` of tools/registry.py. An expression is what `ast.parse` makes of a text:
-- the nodes that the tool accepts, and the names of all others.
pub mod Safe
mod Tests
use Prim.Native.String.{count}
use ai_agent_hub_project_ome.Base.{
  ℕ, String, ◌<>◌, Option, none, some, Bool, true, false, not, ◌&&◌, ◌||◌, ltb, if◌then◌else◌,
}
use ai_agent_hub_project_ome.Base.Str.{strip}
use ai_agent_hub_project_ome.Base.Int.{
  ℤ, pos, negsuc, neg_ℤ, ◌+ℤ◌, ◌-ℤ◌, ◌*ℤ◌, floor_div, mod_ℤ, power,
}
use ai_agent_hub_project_ome.Base.Exn.{Outcome, ok, raised, error, tool_validation_error, bind}
use ai_agent_hub_project_ome.Base.Value.{Value, int, str, dict, Fields, end, field, Codec}
use ai_agent_hub_project_ome.Tools.Arguments.{argument, text_of}

-- Python's floats, which are numbers of the machine, and the operations of them that may raise.
pub record Floating (F : Type 0) : Type 0 where
  -- `float(n)`, which raises `OverflowError` for a large number, and `a / b` of integers
  pub of_int : ℤ → Outcome F
  pub int_div : ℤ → ℤ → Outcome F
  pub neg_f : F → F
  pub add_f : F → F → F
  pub sub_f : F → F → F
  pub mul_f : F → F → F
  -- for a divisor that is not zero
  pub div_f : F → F → F
  pub floor_div_f : F → F → F
  pub mod_f : F → F → F
  -- `a ** b`, which may raise and may be a complex number: `none`
  pub pow_f : F → F → Outcome (Option F)
  pub is_zero_f : F → Bool
  -- `math.isfinite(x)`, `abs(x) > 12` and `abs(x) > 1e100`
  pub is_finite_f : F → Bool
  pub above_12 : F → Bool
  pub above_limit : F → Bool
  -- the JSON value of a float
  pub to_value : F → Value

pub data Number (F : Type 0) : Type 0 where
  whole : ℤ → Number F
  real : F → Number F

pub data UnaryOp : Type 0 where
  u_add u_sub other_unary : UnaryOp

pub data Operator : Type 0 where
  add sub mult div floor_div_op modulo pow other_operator : Operator

pub data Expr (F : Type 0) : Type 0 where
  constant : Number F → Expr F
  -- a constant that is no number, or a Boolean
  other_constant : Expr F
  unary : UnaryOp → Expr F → Expr F
  binary : Operator → Expr F → Expr F → Expr F
  other_node : (class_name : String) → Expr F

abbrev pub divides : Operator → Bool
divides div = true
divides floor_div_op = true
divides modulo = true
divides _ = false

abbrev pub is_operator : Operator → Bool
is_operator other_operator = false
is_operator _ = true

module _ {F : Type 0} (fl : Floating F) where
  abbrev pub refuse {ℓ} : {A : Type ℓ} → String → Outcome A
  refuse message = raised (error tool_validation_error message)

  -- `float(value)`
  abbrev pub to_float : Number F → Outcome F
  to_float (whole n) = fl.of_int n
  to_float (real x) = ok x

  abbrev pub negate : Number F → Number F
  negate (whole n) = whole (neg_ℤ n)
  negate (real x) = real (fl.neg_f x)

  -- `value == 0`
  abbrev pub is_zero : Number F → Bool
  is_zero (whole (pos n)) = not (ltb 0 n)
  is_zero (whole (negsuc n)) = false
  is_zero (real x) = fl.is_zero_f x

  -- An operation on two integers, or on two floats after the conversion of an integer.
  abbrev arith : (ℤ → ℤ → ℤ) → (F → F → F) → Number F → Number F → Outcome (Option (Number F))
  arith f g (whole m) (whole n) = ok (some (whole (f m n)))
  arith f g (whole m) (real y) = bind (fl.of_int m) λ x. ok (some (real (g x y)))
  arith f g (real x) (whole n) = bind (fl.of_int n) λ y. ok (some (real (g x y)))
  arith f g (real x) (real y) = ok (some (real (g x y)))

  abbrev as_real : Option F → Outcome (Option (Number F))
  as_real none = ok none
  as_real (some x) = ok (some (real x))

  abbrev divide : Number F → Number F → Outcome (Option (Number F))
  divide (whole m) (whole n) = bind (fl.int_div m n) λ x. ok (some (real x))
  divide left right =
      bind (to_float left) λ x. bind (to_float right) λ y. ok (some (real (fl.div_f x y)))

  abbrev raise_to : Number F → Number F → Outcome (Option (Number F))
  raise_to (whole m) (whole (pos n)) = ok (some (whole (power m n)))
  raise_to left right =
      bind (to_float left) λ x. bind (to_float right) λ y. bind (fl.pow_f x y) as_real

  -- `operations[type(node.op)]()`; `none` is a result that is no real number
  abbrev pub compute : Operator → Number F → Number F → Outcome (Option (Number F))
  compute add = arith (λ a b. a +ℤ b) fl.add_f
  compute sub = arith (λ a b. a -ℤ b) fl.sub_f
  compute mult = arith (λ a b. a *ℤ b) fl.mul_f
  compute div = divide
  compute floor_div_op = arith floor_div fl.floor_div_f
  compute modulo = arith mod_ℤ fl.mod_f
  compute pow = raise_to
  compute other_operator = λ left right. ok none

  -- `abs(float(right)) > 12`, which is only asked for a power
  abbrev pub large_exponent : Operator → Number F → Outcome Bool
  large_exponent pow right = bind (to_float right) λ y. ok (fl.above_12 y)
  large_exponent _ right = ok false

  -- the check of a result
  abbrev pub bounded : Option (Number F) → Outcome (Number F)
  bounded none = refuse "Arithmetic result is outside safe bounds"
  bounded (some result) = bind (to_float result) λ x.
      if not (fl.is_finite_f x) || fl.above_limit x
      then refuse "Arithmetic result is outside safe bounds"
      else ok result

  abbrev pub apply : Operator → Number F → Number F → Outcome (Number F)
  apply op left right = bind (large_exponent op right) λ large.
      if large
      then refuse "Exponent is too large"
      else if divides op && is_zero right
      then refuse "Division by zero"
      else bind (compute op left right) bounded

  abbrev unsupported : String → Outcome (Number F)
  unsupported class_name = refuse ("Unsupported expression node: " <> class_name)

  -- `_evaluate(node)`
  unfoldable pub evaluate : Expr F → Outcome (Number F)
  evaluate (constant value) = bind (to_float value) λ x.
      if fl.is_finite_f x then ok value else refuse "Non-finite numeric constants are forbidden"
  evaluate other_constant = unsupported "Constant"
  evaluate (unary u_add operand) = evaluate operand
  evaluate (unary u_sub operand) = bind (evaluate operand) λ value. ok (negate value)
  evaluate (unary other_unary operand) = unsupported "UnaryOp"
  evaluate (binary op left right) =
      let l = evaluate left in
      let r = evaluate right in
      if is_operator op then bind l (λ x. bind r λ y. apply op x y) else unsupported "BinOp"
  evaluate (other_node class_name) = unsupported class_name

  abbrev pub number_value : Number F → Value
  number_value (whole n) = int n
  number_value (real x) = fl.to_value x

  -- `run(arguments)`, over `ast.parse(expression, mode="eval").body`
  unfoldable pub run_code : (String → Outcome (Expr F)) → Codec → Fields → Outcome Value
  unfolding evaluate
  run_code parse codec arguments = bind (argument "expression" arguments) λ given.
      let expression = strip (text_of codec given) in
      if ltb 500 (count expression)
      then refuse "Expression exceeds 500 characters"
      else bind (parse expression) λ tree. bind (evaluate tree) λ value. ok (
          dict (
            field "expression" (str expression)
              (field "result" (number_value value) (field "sandbox" (str "arithmetic-only") end))))
