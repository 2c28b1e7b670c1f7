-- ===== src/Tools/Code/Tests.antt =====
-- Runs of the evaluator over a few floats.
use ai_agent_hub_project_ome.Base.{
  ℕ, suc, [], ◌∷◌, ◌≡◌, refl, String, none, Bool, true, false, ltb, eqb, inl, inr, Bool-cases,
  if◌then◌else◌,
}
use ai_agent_hub_project_ome.Base.Int.{ℤ, pos, negsuc, neg_ℤ, ◌+ℤ◌, ◌-ℤ◌, ◌*ℤ◌, floor_div, mod_ℤ}
use ai_agent_hub_project_ome.Base.Str.{is_blank, strip, is_space, lstrip, rstrip}
use ai_agent_hub_project_ome.Base.Exn.{
  Outcome, ok, raised, error, value_error, other_error, wait_for, tool_validation_error,
}
use ai_agent_hub_project_ome.Base.Value.{
  Value, null, str, int, dict, Fields, end, field, get_field, Codec,
}
use ai_agent_hub_project_ome.Tools.Code.{
  Floating, Number, whole, u_sub, add, mult, div, pow, Expr, constant, unary, binary, other_node,
  evaluate, run_code, number_value,
}
use ai_agent_hub_project_ome.Base.Dict.{insert, lookup}
use ai_agent_hub_project_ome.Agent.Types.{Tool}
use ai_agent_hub_project_ome.Tools.Spec.{make_spec, validate_arguments, has_type}
use ai_agent_hub_project_ome.Tools.Registry.{ToolRegistry, empty_registry, register, execute}
use ai_agent_hub_project_ome.Tools.Standard.{
  search_spec, code_spec, code_tool, register_standard_tools,
}
use ai_agent_hub_project_ome.Tools.Standard.Executed.{execute-safe}
use ai_agent_hub_project_ome.Tools.Code.Safe.{IsArithmetic, IsFinite, IsNegatable}

-- Whole numbers below a million, a negative zero and an infinity.
data Small : Type 0 where
  num : ℤ → Small
  minus_zero infinite : Small

abbrev magnitude : ℤ → ℕ
magnitude (pos n) = n
magnitude (negsuc n) = suc n

abbrev rounded : ℤ → Small
rounded n = if ltb (magnitude n) 1000000 then num n else infinite

-- A result: that of the numbers, or an infinity.
abbrev lifted : (ℤ → ℤ → ℤ) → Small → Small → Small
lifted f infinite b = infinite
lifted f a infinite = infinite
lifted f (num a) (num b) = rounded (f a b)
lifted f (num a) minus_zero = rounded (f a (pos 0))
lifted f minus_zero (num b) = rounded (f (pos 0) b)
lifted f minus_zero minus_zero = rounded (f (pos 0) (pos 0))

abbrev neg_small : Small → Small
neg_small (num (pos ℕ.zero)) = minus_zero
neg_small (num n) = num (neg_ℤ n)
neg_small minus_zero = num (pos 0)
neg_small infinite = infinite

abbrev size : Small → ℕ
size (num n) = magnitude n
size minus_zero = 0
size infinite = 1000000

-- `float(n)`, too large for an infinity
abbrev converted : ℤ → Outcome Small
converted n =
    if ltb (magnitude n) 1000000
    then ok (num n)
    else raised (error (other_error "OverflowError") "int too large to convert to float")

abbrev is_finite_small : Small → Bool
is_finite_small infinite = false
is_finite_small _ = true

abbrev floats : Floating Small
floats = record {
  of_int = converted;
  int_div = λ a b. converted (floor_div a b);
  neg_f = neg_small;
  add_f = lifted (λ a b. a +ℤ b);
  sub_f = lifted (λ a b. a -ℤ b);
  mul_f = lifted (λ a b. a *ℤ b);
  div_f = lifted floor_div;
  floor_div_f = lifted floor_div;
  mod_f = lifted mod_ℤ;
  pow_f = λ a b. ok none;
  is_zero_f = λ a. eqb (size a) 0;
  is_finite_f = is_finite_small;
  above_12 = λ a. ltb 12 (size a);
  above_limit = λ a. ltb 100000 (size a);
  to_value = λ a. int (pos (size a));
}

-- `2 + 3 * -4`
abbrev sum : Expr Small
sum =
    binary add (constant (whole (pos 2)))
      (binary mult (constant (whole (pos 3))) (unary u_sub (constant (whole (pos 4)))))

sum_test : evaluate floats sum ≡ ok (whole (negsuc 9))
unfolding evaluate
sum_test = refl

power_test :
    evaluate floats (binary pow (constant (whole (pos 2))) (constant (whole (pos 13))))
    ≡ raised (error tool_validation_error "Exponent is too large")
unfolding evaluate
power_test = refl

division_test :
    evaluate floats (binary div (constant (whole (pos 2))) (constant (whole (pos 0))))
    ≡ raised (error tool_validation_error "Division by zero")
unfolding evaluate
division_test = refl

call_test :
    evaluate floats (binary add (constant (whole (pos 2))) (other_node "Call"))
    ≡ raised (error tool_validation_error "Unsupported expression node: Call")
unfolding evaluate
call_test = refl

abbrev codec : Codec
codec = record { show = λ v. "value"; dumps = λ v. "{}"; loads = λ text. inr "Expecting value" }

run_code_test :
    run_code floats (λ text. ok sum) codec (field "expression" (str " 2 + 3 * -4 ") end)
    ≡ ok (
        dict (
          field "expression"
            (str "2 + 3 * -4")
            (field "result" (int (negsuc 9)) (field "sandbox" (str "arithmetic-only") end))))
unfolding run_code evaluate get_field strip lstrip rstrip is_space
run_code_test = refl

magnitude-neg : (n : ℤ) → magnitude (neg_ℤ n) ≡ magnitude n
magnitude-neg (pos ℕ.zero) = refl
magnitude-neg (pos (suc n)) = refl
magnitude-neg (negsuc n) = refl

finite_neg-small : (x : Small) → is_finite_small x ≡ true → is_finite_small (neg_small x) ≡ true
finite_neg-small (num (pos ℕ.zero)) e = refl
finite_neg-small (num (pos (suc n))) e = refl
finite_neg-small (num (negsuc n)) e = refl
finite_neg-small minus_zero e = refl
finite_neg-small infinite e = e

negatable : IsNegatable floats
negatable = record {
  of_neg = λ n x e good. elim (Bool-cases (ltb (magnitude n) 1000000)) [
    | inl small ↦ (num (neg_ℤ n), rw (magnitude-neg n, small) refl, refl)
    | inr large ↦ absurd (let wrong = rw large at e in cc)
  ];
  finite_neg = finite_neg-small;
}

abbrev search : Tool ℕ
search = record { name = "web_search"; run = λ arguments w. (ok null, suc w) }

abbrev code : Tool ℕ
code = code_tool floats (λ text. ok sum) codec

abbrev registry : ToolRegistry ℕ
registry = record {
  tools = ("web_search", search) ∷ ("code_execution", code) ∷ [];
  specs = ("web_search", search_spec) ∷ ("code_execution", code_spec) ∷ [];
}

register_test : register_standard_tools search code empty_registry ≡ (ok tt, registry)
unfolding register_standard_tools register make_spec is_blank strip lstrip rstrip is_space insert
    lookup
register_test = refl

-- A registry in which the second name is taken has the first tool all the same.
register_half :
    (register_standard_tools search code (record {
      tools = ("code_execution", code) ∷ [];
      specs = ("code_execution", code_spec) ∷ [];
    })).0
    ≡ raised (error value_error "Tool already registered: code_execution")
unfolding register_standard_tools register make_spec is_blank strip lstrip rstrip is_space insert
    lookup
register_half = refl

abbrev asked : Fields
asked = field "expression" (str "2 + 3 * -4") end

abbrev answered : Value
answered = dict (
    field "expression" (str "2 + 3 * -4")
      (field "result" (int (negsuc 9)) (field "sandbox" (str "arithmetic-only") end)))

execute_test :
    execute codec "code_execution" (dict asked) (registry, 0) ≡ (ok answered, (registry, 0))
unfolding execute validate_arguments has_type lookup get_field run_code evaluate strip lstrip rstrip
    is_space wait_for
execute_test = refl

execute-safe_example :
    (text : String) × (tree : Expr Small) × (n : Number Small) × ((λ (t : String). ok sum) text
      ≡ ok tree)
    × (evaluate floats tree ≡ ok n)
    × (answered
        ≡ dict (
            field "expression" (str text) (
              field "result"
                (number_value floats n)
                (field "sandbox" (str "arithmetic-only") end))))
    × IsArithmetic tree
    × IsFinite floats n
unfolding lookup
execute-safe_example =
    execute-safe floats (λ text. ok sum) codec registry 0 refl negatable asked answered
      (registry, 0) execute_test
