-- ===== src/Agent/Tests.antt =====
-- Replies of a model as actions.
use ai_agent_hub_project_ome.Base.{◌≡◌, refl, String, ◌==◌, inl, inr, if◌then◌else◌}
use ai_agent_hub_project_ome.Base.Str.{
  strip, lstrip, rstrip, is_space, is_blank, splitlines, find_code, rfind_code,
}
use ai_agent_hub_project_ome.Base.Exn.{ok, raised, error, agent_protocol_error}
use ai_agent_hub_project_ome.Base.Value.{str, dict, end, field, get_field, Codec}
use ai_agent_hub_project_ome.Agent.Types.{AgentAction}
use ai_agent_hub_project_ome.Agent.Decode.{unfence, braced, decode_json_object, parse_action}
use ai_agent_hub_project_ome.Agent.Decode.Printed.{
  IsPrinted, Holds, action_fields, parse_action-printed,
}

abbrev action : AgentAction
action = record {
  action = "web_search";
  arguments = field "query" (str "memory") end;
  rationale = "look it up";
}

-- A codec for one object.
abbrev codec : Codec
codec = record {
  show = λ v. "value";
  dumps = λ v. "{\"action\": …}";
  loads = λ text.
      if text == "{\"action\": …}"
      then inl (dict (action_fields action))
      else inr "Expecting value";
}

printed : IsPrinted codec (action_fields action)
printed = record {
  braces = record {
    first = "{";
    inner = "\"action\": …";
    final = "}";
    shape = refl;
    opens = refl;
    closes = refl;
  };
  reads = refl;
}

abbrev reply : String
reply = " I would do {\"action\": …} now.\n"

holds : Holds codec (action_fields action) reply
unfolding strip lstrip rstrip is_space
holds = record {
  before = "I would do ";
  after = " now.";
  parts = refl;
  no_open = refl;
  no_close = refl;
  no_fence = refl;
}

parse_action-printed_example : parse_action codec reply ≡ ok action
unfolding is_blank strip lstrip rstrip is_space
parse_action-printed_example = parse_action-printed codec action reply refl refl printed holds

fenced_test : parse_action codec "```json\n{\"action\": …}\n```" ≡ ok action
unfolding parse_action decode_json_object unfence braced is_blank strip lstrip rstrip is_space
    splitlines find_code rfind_code get_field
fenced_test = refl

prose_test :
    parse_action codec "no action"
    ≡ raised (error agent_protocol_error "No JSON object found in LLM response")
unfolding parse_action decode_json_object unfence braced is_blank strip lstrip rstrip is_space
    splitlines find_code rfind_code
prose_test = refl
