-- ===== src/Tools/Spec/Validation.antt =====
-- `_validate_arguments` against the meaning of a schema.
use ai_agent_hub_project_ome.Base.{
  ◌≡◌, ◌⊎◌, inl, inr, refl, String, ◌<>◌, true, false, List, [], ◌∷◌, Bool-cases,
}
use ai_agent_hub_project_ome.Base.Str.{repr_list}
use ai_agent_hub_project_ome.Base.Exn.{Outcome, ok, raised, error, Exn, tool_validation_error}
use ai_agent_hub_project_ome.Base.Value.{
  Value, null, bool, int, float, str, list, dict, Values, nil, cons, Fields, end, field, Codec,
}
use ai_agent_hub_project_ome.Tools.Spec.{
  ToolSpec, get_or, is_field, missing_keys, unknown_keys, has_type, declared, valid, ill_typed,
  check_types, validate_arguments,
}

-- The names of required arguments are texts, and each of them is given.
abbrev pub Texts : Values → Type 0
Texts nil = Unit
Texts (cons (str key) required) = Texts required
Texts (cons _ required) = ⊥

abbrev pub Present : Values → Fields → Type 0
Present nil arguments = Unit
Present (cons (str key) required) arguments =
    (is_field key arguments ≡ true) × Present required arguments
Present (cons _ required) arguments = ⊥

-- Each argument has a property.
abbrev pub Known : Fields → Fields → Type 0
Known properties end = Unit
Known properties (field key value arguments) =
    (is_field key properties ≡ true) × Known properties arguments

-- A declared type is a text, or there is none.
abbrev pub Plain : Value → Type 0
Plain (list _) = ⊥
Plain (dict _) = ⊥
Plain _ = Unit

abbrev pub Fits : Value → Value → Type 0
Fits (str expected) value = has_type expected value ≡ true
Fits (list _) value = ⊥
Fits (dict _) value = ⊥
Fits _ value = Unit

-- Each argument has the declared type.
abbrev pub Typed : Fields → Fields → Type 0
Typed properties end = Unit
Typed properties (field key value arguments) =
    Fits (declared (get_or key null properties)) value × Typed properties arguments

-- The keyword `required` of a schema is a list of texts, and `properties` an object, in which a
-- declared type is a text or missing.
pub record IsSchema (schema : Fields) : Type 0 where
  pub required : Values
  pub properties : Fields
  pub has_required : get_or "required" (list nil) schema ≡ list required
  pub has_properties : get_or "properties" (dict end) schema ≡ dict properties
  pub texts : Texts required
  pub plain : (key : String) → Plain (declared (get_or key null properties))

abbrev pub Conforms : {schema : Fields} → IsSchema schema → Fields → Type 0
Conforms schema arguments =
    Present schema.required arguments
    × Known schema.properties arguments
    × Typed schema.properties arguments

missing-cases :
    (required : Values) (arguments : Fields)
    → Texts required
    → ((missing_keys required arguments ≡ ok nil) × Present required arguments)
      ⊎ ((key : Value) × (rest : Values) × (missing_keys required arguments ≡ ok (cons key rest))
          × (Present required arguments → ⊥))
missing-cases nil arguments t = inl (refl, tt)
missing-cases (cons (str key) required) arguments t = elim (Bool-cases (is_field key arguments)) [
  | inl h ↦ elim (missing-cases required arguments t) [
    | inl (e, present) ↦ inl (rw (h, e) refl, (h, present))
    | inr (k, rest, e, absent) ↦ inr (k, rest, rw (h, e) refl, λ p. absent p.1)
  ]
  | inr h ↦ elim (missing-cases required arguments t) [
    | inl (e, present) ↦ inr (str key, nil, rw (h, e) refl, λ p. absurd (cc))
    | inr (k, rest, e, absent) ↦ inr (str key, cons k rest, rw (h, e) refl, λ p. absent p.1)
  ]
]
missing-cases (cons null required) arguments t = absurd t
missing-cases (cons (bool _) required) arguments t = absurd t
missing-cases (cons (int _) required) arguments t = absurd t
missing-cases (cons (float _ _) required) arguments t = absurd t
missing-cases (cons (list _) required) arguments t = absurd t
missing-cases (cons (dict _) required) arguments t = absurd t

unknown-cases :
    (arguments properties : Fields)
    → ((unknown_keys arguments properties ≡ []) × Known properties arguments)
      ⊎ ((key : String) × (rest : List String) × (unknown_keys arguments properties ≡ key ∷ rest)
          × (Known properties arguments → ⊥))
unknown-cases end properties = inl (refl, tt)
unknown-cases (field key value arguments) properties = elim (Bool-cases (is_field key properties)) [
  | inl h ↦ elim (unknown-cases arguments properties) [
    | inl (e, known) ↦ inl (rw (h, e) refl, (h, known))
    | inr (k, rest, e, foreign) ↦ inr (k, rest, rw (h, e) refl, λ p. foreign p.1)
  ]
  | inr h ↦ inr (key, unknown_keys arguments properties, rw h refl, λ p. absurd (cc))
]

valid-cases :
    (expected value : Value)
    → Plain expected
    → ((valid expected value ≡ ok true) × Fits expected value)
      ⊎ ((valid expected value ≡ ok false) × (Fits expected value → ⊥))
unfolding valid
valid-cases (str t) value p = elim (Bool-cases (has_type t value)) [
  | inl h ↦ inl (rw h refl, h)
  | inr h ↦ inr (rw h refl, λ e. absurd (cc))
]
valid-cases null value p = inl (refl, tt)
valid-cases (bool _) value p = inl (refl, tt)
valid-cases (int _) value p = inl (refl, tt)
valid-cases (float _ _) value p = inl (refl, tt)
valid-cases (list _) value p = absurd p
valid-cases (dict _) value p = absurd p

-- A check passes and what it checks holds, or it fails as a validation and that does not hold.
abbrev Decides : Outcome (Unit {0}) → Type 0 → Type 0
Decides r P =
    ((r ≡ ok tt) × P) ⊎ ((e : Exn) × (r ≡ raised e) × (e.kind ≡ tool_validation_error) × (P → ⊥))

module _ (codec : Codec) where
  types-cases :
      (arguments properties : Fields)
      → ((key : String) → Plain (declared (get_or key null properties)))
      → Decides (check_types codec arguments properties) (Typed properties arguments)
  types-cases end properties plain = inl (refl, tt)
  types-cases (field key value arguments) properties plain =
      elim (valid-cases (declared (get_or key null properties)) value (plain key)) [
        | inl (e, fits) ↦ elim (types-cases arguments properties plain) [
          | inl (e', typed) ↦ inl (rw (e, e') refl, (fits, typed))
          | inr (x, e', kind, wrong) ↦ inr (x, rw (e, e') refl, kind, λ p. wrong p.1)
        ]
        | inr (e, misfit) ↦ inr (
          ill_typed codec key (declared (get_or key null properties)),
          rw e refl,
          refl,
          λ p. misfit p.0,
        )
      ]

  -- Validation under a schema: the arguments pass if they conform to it, that is if each required
  -- one is given, each given one has a property and each has its declared type; they are refused
  -- with a `ToolValidationError` if they do not.
  pub validate-decides :
      (spec : ToolSpec) (schema : IsSchema spec.input_schema) (arguments : Fields)
      → ((validate_arguments codec spec arguments ≡ ok tt) × Conforms schema arguments)
        ⊎ ((e : Exn) × (validate_arguments codec spec arguments ≡ raised e)
            × (e.kind ≡ tool_validation_error)
            × (Conforms schema arguments → ⊥))
  unfolding validate_arguments
  validate-decides spec schema arguments =
      rw (schema.has_required, schema.has_properties)
        (elim (missing-cases schema.required arguments schema.texts) [
          | inr (k, rest, e, absent) ↦ inr (
            error tool_validation_error
                ("Missing required arguments: " <> codec.show (list (cons k rest))),
            rw e refl,
            refl,
            λ p. absent p.0,
          )
          | inl (e, present) ↦ elim (unknown-cases arguments schema.properties) [
            | inr (k, rest, e', foreign) ↦ inr (
              error tool_validation_error ("Unknown arguments: " <> repr_list (k ∷ rest)),
              rw (e, e') refl,
              refl,
              λ p. foreign p.1,
            )
            | inl (e', known) ↦ elim (types-cases arguments schema.properties schema.plain) [
              | inl (e'', typed) ↦ inl (rw (e, e', e'') refl, (present, known, typed))
              | inr (x, e'', kind, wrong) ↦ inr (x, rw (e, e', e'') refl, kind, λ p. wrong p.2)
            ]
          ]
        ])
