-- ===== src/Tools/Standard/Executed.antt =====
-- The code tool, called through a registry.
use ai_agent_hub_project_ome.Base.{◌≡◌, ap, String, some, inl, inr, Bool-cases, ltb}
use Prim.Native.String.{count}
use ai_agent_hub_project_ome.Base.Str.{strip}
use ai_agent_hub_project_ome.Base.Dict.{lookup}
use ai_agent_hub_project_ome.Base.Exn.{Outcome, ok, continue-eq-ok}
use ai_agent_hub_project_ome.Base.Value.{Value, str, dict, Fields, end, field, Codec}
use ai_agent_hub_project_ome.Tools.Arguments.{argument, text_of}
use ai_agent_hub_project_ome.Tools.Spec.{validate_arguments}
use ai_agent_hub_project_ome.Tools.Registry.{ToolRegistry, execute_tool, execute, spec_of}
use ai_agent_hub_project_ome.Tools.Registry.Calls.{call_tool-eq-ok}
use ai_agent_hub_project_ome.Tools.Code.{Floating, Number, Expr, evaluate, run_code, number_value}
use ai_agent_hub_project_ome.Tools.Code.Safe.{
  IsArithmetic, IsFinite, IsNegatable, evaluate-safe, bind-ok,
}
use ai_agent_hub_project_ome.Tools.Standard.{code_tool}

module _ {F : Type 0} (fl : Floating F) (parse : String → Outcome (Expr F)) (codec : Codec) where
  run_code-eq-ok :
      (arguments : Fields) (value : Value)
      → run_code fl parse codec arguments ≡ ok value
      → (text : String) × (tree : Expr F) × (n : Number F) × (parse text ≡ ok tree)
        × (evaluate fl tree ≡ ok n)
        × (value
            ≡ dict (
                field "expression" (str text) (
                  field "result"
                    (number_value fl n)
                    (field "sandbox" (str "arithmetic-only") end))))
  unfolding run_code
  run_code-eq-ok arguments value e =
      let (given, _, e₁) = bind-ok (argument "expression" arguments) _ value e in
      let text = strip (text_of codec given) in
      elim (Bool-cases (ltb 500 (count text))) [
        | inl long ↦ absurd (let wrong = rw long at e₁ in cc)
        | inr short ↦
            let (tree, parsed, e₂) = bind-ok (parse text) _ value (rw short at e₁) in
            let (n, done, e₃) = bind-ok (evaluate fl tree) _ value e₂ in
            (text, tree, n, parsed, done, cc)
      ]

  module _ {W : Type 0} (s : ToolRegistry W) (w : W)
      (registered : lookup "code_execution" s.tools ≡ some (code_tool fl parse codec)) where
    execute-run :
        (arguments : Fields) (value : Value) (shop : ToolRegistry W × W)
        → execute codec "code_execution" (dict arguments) (s, w) ≡ (ok value, shop)
        → run_code fl parse codec arguments ≡ ok value
    unfolding execute
    execute-run arguments value shop e =
        let (spec, _, e₁) =
          continue-eq-ok (spec_of s "code_execution") _ (s, w) shop value
            (rw (registered, execute_tool) at e) in
        let (_, _, e₂) =
          continue-eq-ok (validate_arguments codec spec arguments) _ (s, w) shop value e₁ in
        call_tool-eq-ok "code_execution" (code_tool fl parse codec) arguments s w value
          (ap (λ (p : Outcome Value × (ToolRegistry W × W)). p.0) e₂)

    -- Where the code tool is registered, and the floats are such that the negation of an integer
    -- with a finite float has one and a finite float has a finite negation, an answer to `code_execution` holds a finite number, the
    -- value of the expression of the text; the expression has numbers, signs and the seven
    -- operators of arithmetic, and nothing else.
    pub execute-safe :
        (symmetric : IsNegatable fl) (arguments : Fields) (value : Value)
        (shop : ToolRegistry W × W)
        → execute codec "code_execution" (dict arguments) (s, w) ≡ (ok value, shop)
        → (text : String) × (tree : Expr F) × (n : Number F) × (parse text ≡ ok tree)
          × (evaluate fl tree ≡ ok n)
          × (value
              ≡ dict (
                  field "expression" (str text) (
                    field "result"
                      (number_value fl n)
                      (field "sandbox" (str "arithmetic-only") end))))
          × IsArithmetic tree
          × IsFinite fl n
    execute-safe symmetric arguments value shop e =
        let (text, tree, n, parsed, done, same) =
          run_code-eq-ok arguments value (execute-run arguments value shop e) in
        let (shape, finite) = evaluate-safe fl symmetric tree n done in
        (text, tree, n, parsed, done, same, shape, finite)
