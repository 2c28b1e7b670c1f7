-- ===== src/Agent/Decode.antt =====
-- How the text of a model becomes a JSON object or an action:
-- `AutonomousAgent._decode_json_object` and `_parse_action`.
pub mod Printed
use text.Mathlib.Text.{starts_with}
use ai_agent_hub_project_ome.Base.{
  suc, ◌-◌, String, ◌==◌, Option, none, some, List, [], ◌∷◌, inl, inr, leb, if◌then◌else◌,
}
use ai_agent_hub_project_ome.Base.Str.{
  strip, is_blank, splitlines, join, find_code, rfind_code, str_take, str_drop,
}
use ai_agent_hub_project_ome.Base.Exn.{
  Outcome, ok, raised, error, json_decode_error, agent_protocol_error, bind,
}
use ai_agent_hub_project_ome.Base.Value.{Value, str, dict, Fields, end, get_field, Codec}
use ai_agent_hub_project_ome.Agent.Types.{AgentAction}

abbrev pub protocol_error {ℓ} : {A : Type ℓ} → String → Outcome A
protocol_error message = raised (error agent_protocol_error message)

-- `lines[1:]` if the first line opens a fence
drop_open : List String → List String
drop_open [] = []
drop_open (l ∷ lines) = if starts_with l "```" then lines else l ∷ lines

-- `lines[:-1]` if the last line closes a fence
drop_close : List String → List String
drop_close [] = []
drop_close (l ∷ []) = if strip l == "```" then [] else l ∷ []
drop_close (l ∷ k ∷ lines) = l ∷ drop_close (k ∷ lines)

-- the text without a surrounding code fence
unfoldable pub unfence : String → String
unfolding drop_open drop_close
unfence candidate =
    if starts_with candidate "```"
    then strip (join "\n" (drop_close (drop_open (splitlines candidate))))
    else candidate

-- `candidate[start:end + 1]` for the first "{" and the last "}"
unfoldable pub braced : String → Option String
braced candidate = elim (find_code b'{' candidate) [
  | none ↦ none
  | some start ↦ elim (rfind_code b'}' candidate) [
    | none ↦ none
    | some last ↦
        if leb last start
        then none
        else some (str_take (suc last - start) (str_drop start candidate))
  ]
]

abbrev as_object : Value → Outcome Fields
as_object (dict fields) = ok fields
as_object _ = protocol_error "Expected a JSON object"

abbrev as_action : Option Value → Outcome String
as_action (some (str action)) =
    if is_blank action then protocol_error "Action must be a non-empty string" else ok action
as_action _ = protocol_error "Action must be a non-empty string"

-- `value.get("arguments", {})` and `value.get("rationale", "")`
abbrev as_arguments : Option Value → Outcome Fields
as_arguments none = ok end
as_arguments (some (dict arguments)) = ok arguments
as_arguments _ = protocol_error "Arguments must be a JSON object"

abbrev as_rationale : Option Value → Outcome String
as_rationale none = ok ""
as_rationale (some (str rationale)) = ok rationale
as_rationale _ = protocol_error "Rationale must be a string"

module _ (codec : Codec) where
  abbrev load : String → Outcome Value
  load text = elim (codec.loads text) [
    | inl value ↦ ok value
    | inr message ↦ raised (error json_decode_error message)
  ]

  abbrev decode_braced : Option String → Outcome Fields
  decode_braced none = protocol_error "No JSON object found in LLM response"
  decode_braced (some text) = bind (load text) as_object

  unfoldable pub decode_json_object : String → Outcome Fields
  unfolding unfence braced
  decode_json_object raw =
      if is_blank raw
      then protocol_error "LLM returned an empty response"
      else decode_braced (braced (unfence (strip raw)))

  unfoldable pub parse_action : String → Outcome AgentAction
  parse_action raw = bind (decode_json_object raw) λ value.
      bind (as_action (get_field "action" value)) λ action.
        bind (as_arguments (get_field "arguments" value)) λ arguments.
          bind (as_rationale (get_field "rationale" value)) λ rationale.
            ok (record { action = strip action; arguments = arguments; rationale = rationale })
