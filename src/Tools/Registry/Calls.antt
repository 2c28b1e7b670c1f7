-- ===== src/Tools/Registry/Calls.antt =====
-- What `execute` may do.
use ai_agent_hub_project_ome.Base.{
  ◌≡◌, ◌⊎◌, inl, inr, refl, sym, ap, ◌∙◌, subst, String, ◌<>◌, some, true, Bool-cases, Option-cases,
}
use ai_agent_hub_project_ome.Base.Dict.{lookup}
use ai_agent_hub_project_ome.Base.Exn.{
  Outcome, ok, raised, stopped, Exn, error, is_tool_error, is_timeout_error, tool_validation_error,
  convert, wait_for, wait_for-eq-ok, tool_timer,
}
use ai_agent_hub_project_ome.Base.Value.{
  Value, null, bool, int, float, str, list, dict, Fields, Codec,
}
use ai_agent_hub_project_ome.Agent.Types.{Tool}
use ai_agent_hub_project_ome.Tools.Spec.{ToolSpec}
use ai_agent_hub_project_ome.Tools.Registry.{
  ToolRegistry, tool_failure, call_tool, execute_tool, execute,
}
use ai_agent_hub_project_ome.Tools.Spec.Validation.{IsSchema, Conforms, validate-decides}
use ai_agent_hub_project_ome.Tools.Registry.Changes.{IsPaired, IsPaired-spec}

module _ (codec : Codec) {W : Type 0} (s : ToolRegistry W) (name : String) (w : W) where
  -- The schema that the registry holds for the name.
  abbrev pub Schemas : Type 0
  Schemas = (c : ToolSpec) → lookup name s.specs ≡ some c → IsSchema c.input_schema

  abbrev pub Called : Schemas → Value → Outcome Value × (ToolRegistry W × W) → Type 0
  Called schemas arguments result =
      (tool : Tool W) × (fields : Fields) × (spec : ToolSpec) × (known : lookup name s.specs
        ≡ some spec)
      × (lookup name s.tools ≡ some tool)
      × (arguments ≡ dict fields)
      × Conforms (schemas spec known) fields
      × (result ≡ call_tool name tool fields (s, w))

  abbrev pub Refused : Outcome Value × (ToolRegistry W × W) → Type 0
  Refused result = (e : Exn) × (is_tool_error e.kind ≡ true) × (result ≡ (raised e, (s, w)))

  execute_tool-cases :
      (tool : Tool W) (arguments : Value) (spec : ToolSpec) (schemas : Schemas)
      → (known : lookup name s.specs ≡ some spec) → lookup name s.tools ≡ some tool
      → Called schemas arguments (execute_tool codec name (some tool) arguments (s, w))
        ⊎ Refused (execute_tool codec name (some tool) arguments (s, w))
  execute_tool-cases tool (dict fields) spec schemas known found =
      elim (validate-decides codec spec (schemas spec known) fields) [
        | inl (e, conforms) ↦
            inl (tool, fields, spec, known, found, refl, conforms, rw (known, e) refl)
        | inr (x, e, kind, _) ↦ inr (x, rw kind refl, rw (known, e) refl)
      ]
  execute_tool-cases tool null spec schemas known found = inr (_, refl, refl)
  execute_tool-cases tool (bool _) spec schemas known found = inr (_, refl, refl)
  execute_tool-cases tool (int _) spec schemas known found = inr (_, refl, refl)
  execute_tool-cases tool (float _ _) spec schemas known found = inr (_, refl, refl)
  execute_tool-cases tool (str _) spec schemas known found = inr (_, refl, refl)
  execute_tool-cases tool (list _) spec schemas known found = inr (_, refl, refl)

  -- A call through a registry in which tools and specs are paired, under a well-formed schema, either
  -- runs the registered tool on arguments that conform to the schema, or is refused with a tool
  -- error, the registry and the world left as they are. A schema is well formed if `required` is
  -- a list of texts, `properties` an object, and no declared type a list or an object.
  pub execute-cases :
      IsPaired s
      → (schemas : Schemas) → (arguments : Value)
      → Called schemas arguments (execute codec name arguments (s, w))
        ⊎ Refused (execute codec name arguments (s, w))
  unfolding execute
  execute-cases paired schemas arguments = elim (Option-cases (lookup name s.tools)) [
    | inl e ↦
        inr (error tool_validation_error ("Tool is not allow-listed: " <> name), refl, rw e refl)
    | inr (tool, e) ↦
        let (spec, known, _) = IsPaired-spec s name paired (rw e refl) in
        subst
          (λ t.
            Called schemas arguments (execute_tool codec name t arguments (s, w))
            ⊎ Refused (execute_tool codec name t arguments (s, w)))
          (sym e) (execute_tool-cases tool arguments spec schemas known e)
  ]

tool_failure-is_tool_error :
    (name : String) (e : Exn) → is_tool_error (tool_failure name e).kind ≡ true
unfolding tool_failure
tool_failure-is_tool_error name e = elim (Bool-cases (is_timeout_error e.kind)) [
  | inl h ↦ rw h refl
  | inr h ↦ elim (Bool-cases (is_tool_error e.kind)) [
    | inl t ↦ rw (h, t) t
    | inr t ↦ rw (h, t) refl
  ]
]

convert-tool_error :
    {A : Type 0} (name : String) (r : Outcome A) (e : Exn)
    → convert (tool_failure name) r ≡ raised e
    → is_tool_error e.kind ≡ true
convert-tool_error name (ok a) e h = absurd (cc)
convert-tool_error name (raised x) e h =
    let same : tool_failure name x ≡ e = cc in
    subst (λ (y : Exn). is_tool_error y.kind ≡ true) same (tool_failure-is_tool_error name x)
convert-tool_error name (stopped x) e h = absurd (cc)

-- Whatever the tool does, a call through a registry in which tools and specs are paired, under a
-- well-formed schema as above, leaves the registry as it is, and an exception that comes out of it
-- is a `ToolError`.
pub execute-is_tool_error :
    (codec : Codec) {W : Type 0} (s : ToolRegistry W) (name : String) (w : W)
    → IsPaired s
    → Schemas codec s name w
    → (arguments : Value)
    → ((execute codec name arguments (s, w)).1.0 ≡ s)
      × ((e : Exn)
          → (execute codec name arguments (s, w)).0 ≡ raised e
          → is_tool_error e.kind ≡ true)
unfolding call_tool
execute-is_tool_error codec s name w paired schemas arguments =
    elim (execute-cases codec s name w paired schemas arguments) [
      | inl (tool, fields, spec, _, _, _, _, e) ↦
          (ap (λ p. p.1.0) e, λ x h. convert-tool_error name _ x (sym (ap (λ p. p.0) e) ∙ h))
      | inr (x, kind, e) ↦ (
        ap (λ p. p.1.0) e,
        λ y h.
            let both : raised x ≡ raised y = sym (ap (λ p. p.0) e) ∙ h in
            let same : x ≡ y = cc in subst (λ (z : Exn). is_tool_error z.kind ≡ true) same kind,
      )
    ]

-- A call leaves the registry, and the world as the tool leaves it.
pub call_tool-state :
    {W : Type 0} (name : String) (tool : Tool W) (arguments : Fields) (s : ToolRegistry W) (w : W)
    → (call_tool name tool arguments (s, w)).1 ≡ (s, (tool.run arguments w).1)
unfolding call_tool wait_for
call_tool-state name tool arguments s w = refl

convert-ok : {A : Type 0} (f : Exn → Exn) (o : Outcome A) (a : A) → convert f o ≡ ok a → o ≡ ok a
convert-ok f (ok b) a e = e
convert-ok f (raised x) a e = absurd (cc)
convert-ok f (stopped x) a e = absurd (cc)

-- A call that returns a value returns the tool's.
pub call_tool-eq-ok :
    {W : Type 0} (name : String) (tool : Tool W) (arguments : Fields) (s : ToolRegistry W) (w : W)
    (value : Value)
    → (call_tool name tool arguments (s, w)).0 ≡ ok value
    → (tool.run arguments w).0 ≡ ok value
unfolding call_tool
call_tool-eq-ok name tool arguments s w value e =
    wait_for-eq-ok tool_timer (tool.run arguments) w value
      (convert-ok (tool_failure name) (wait_for tool_timer (tool.run arguments) w).0 value e)
