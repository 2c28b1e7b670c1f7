-- ===== src/Tools/Spec.antt =====
-- `ToolSpec` and `ToolRegistry._validate_arguments` of tools/registry.py. Timeouts are numbers of
-- hundredths of a second.
pub mod Validation
use ai_agent_hub_project_ome.Base.{
  String, ◌<>◌, ◌==◌, Option, none, some, Bool, true, false, not, ◌||◌, List, [], ◌∷◌,
  if◌then◌else◌, keep,
}
use ai_agent_hub_project_ome.Base.Str.{is_blank, strip, repr, repr_list}
use ai_agent_hub_project_ome.Base.Int.{ℤ, leb_ℤ}
use ai_agent_hub_project_ome.Base.Sort.{sort_by, str_le}
use ai_agent_hub_project_ome.Base.Dict.{Dict, lookup, insert, erase, keys, has}
use ai_agent_hub_project_ome.Base.Exn.{
  Outcome, ok, raised, stopped, Exn, error, missing_key, describe, is_timeout_error, is_tool_error,
  value_error, type_error, tool_error, tool_validation_error, bind, convert, tool_timer, wait_for,
  Exec, raise, ◌>>=◌, ◌>>◌,
}
use ai_agent_hub_project_ome.Base.Value.{
  Value, null, bool, int, float, str, list, dict, Values, nil, cons, Fields, end, field, get_field,
  Codec,
}
use ai_agent_hub_project_ome.Agent.Types.{Tool}
use ai_agent_hub_project_ome.Agent.Runtime.{lift}

pub record ToolSpec : Type 0 where
  pub name : String
  pub description : String
  pub input_schema : Fields
  pub timeout_seconds : ℤ

-- `ToolSpec(…)` with its `__post_init__`
unfoldable pub make_spec : ToolSpec → Outcome ToolSpec
make_spec s =
    if is_blank s.name || not (s.name == strip s.name)
    then raised (error value_error "Tool name must be non-empty and trimmed")
    else if leb_ℤ s.timeout_seconds 0
    then raised (error value_error "Tool timeout must be positive")
    else ok s

-- `schema.get(key, default)`
abbrev pub get_or : String → Value → Fields → Value
unfolding get_field
get_or key default schema = elim (get_field key schema) [ none ↦ default | some v ↦ v ]

abbrev pub is_field : String → Fields → Bool
unfolding get_field
is_field key fields = elim (get_field key fields) [ none ↦ false | some v ↦ true ]

-- A list or a dict is no key: `key in arguments` and `{…}.get(key)` raise for it.
abbrev unhashable : {A : Type 0} → String → Outcome A
unhashable kind = raised (error type_error ("unhashable type: '" <> kind <> "'"))

-- `key not in arguments`
abbrev pub lacks : Value → Fields → Outcome Bool
lacks (str key) arguments = ok (not (is_field key arguments))
lacks (list _) arguments = unhashable "list"
lacks (dict _) arguments = unhashable "dict"
lacks _ arguments = ok true

-- `[key for key in required if key not in arguments]`
abbrev pub missing_keys : Values → Fields → Outcome Values
missing_keys nil arguments = ok nil
missing_keys (cons key required) arguments = bind (lacks key arguments) λ absent.
    bind (missing_keys required arguments) λ rest. ok (if absent then cons key rest else rest)

-- `[key for key in arguments if key not in properties]`
abbrev pub unknown_keys : Fields → Fields → List String
unknown_keys end properties = []
unknown_keys (field key value arguments) properties =
    let rest = unknown_keys arguments properties in
    if is_field key properties then rest else key ∷ rest

abbrev is_number : Value → Bool
is_number (int _) = true
is_number (float _ _) = true
is_number _ = false

abbrev is_text : Value → Bool
is_text (str _) = true
is_text _ = false

abbrev is_integer : Value → Bool
is_integer (int _) = true
is_integer _ = false

abbrev is_boolean : Value → Bool
is_boolean (bool _) = true
is_boolean _ = false

abbrev is_object : Value → Bool
is_object (dict _) = true
is_object _ = false

abbrev is_array : Value → Bool
is_array (list _) = true
is_array _ = false

-- `{"string": isinstance(value, str), …}.get(expected, True)` of a text
unfoldable pub has_type : String → Value → Bool
has_type expected value =
    if expected == "string"
    then is_text value
    else if expected == "integer"
    then is_integer value
    else if expected == "number"
    then is_number value
    else if expected == "boolean"
    then is_boolean value
    else if expected == "object"
    then is_object value
    else if expected == "array"
    then is_array value
    else true

abbrev pub declared : Value → Value
declared (dict property) = get_or "type" null property
declared _ = null

abbrev pub valid : Value → Value → Outcome Bool
unfolding has_type
valid (str expected) value = ok (has_type expected value)
valid (list _) value = unhashable "list"
valid (dict _) value = unhashable "dict"
valid _ value = ok true

module _ (codec : Codec) where
  abbrev pub ill_typed : String → Value → Exn
  ill_typed key expected =
      error tool_validation_error
        ("Invalid type for argument '" <> key <> "': expected " <> codec.show expected)

  -- `for key, value in arguments.items()`: each key has a property by now
  abbrev pub check_types : Fields → Fields → Outcome (Unit {0})
  check_types end properties = ok tt
  check_types (field key value arguments) properties =
      let expected = declared (get_or key null properties) in
      bind (valid expected value)
        λ fits. if fits then check_types arguments properties else raised (ill_typed key expected)

  abbrev invalid : String → Outcome (Unit {0})
  invalid message = raised (error tool_validation_error message)

  abbrev pub check_missing : Values → Outcome (Unit {0}) → Outcome (Unit {0})
  check_missing nil next = next
  check_missing (cons key rest) next =
      invalid ("Missing required arguments: " <> codec.show (list (cons key rest)))

  abbrev pub check_unknown : List String → Outcome (Unit {0}) → Outcome (Unit {0})
  check_unknown [] next = next
  check_unknown (key ∷ rest) next = invalid ("Unknown arguments: " <> repr_list (key ∷ rest))

  abbrev pub check_fields : String → Value → Value → Fields → Outcome (Unit {0})
  check_fields name (list required) (dict properties) arguments =
      bind (missing_keys required arguments) λ missing.
        check_missing missing
          (check_unknown (unknown_keys arguments properties) (check_types arguments properties))
  check_fields name _ _ arguments = invalid ("Invalid schema for tool: " <> name)

  -- `_validate_arguments(spec, arguments)`
  unfoldable pub validate_arguments : ToolSpec → Fields → Outcome (Unit {0})
  unfolding has_type
  validate_arguments spec arguments =
      check_fields spec.name (get_or "required" (list nil) spec.input_schema)
        (get_or "properties" (dict end) spec.input_schema) arguments
