-- ===== src/Gateway/Providers/Tests.antt =====
-- Runs of the adapters over a network that gives one answer.
use ai_agent_hub_project_ome.Base.{
  ℕ, suc, ◌≡◌, inl, refl, List, [], ◌∷◌, Bool, false, eqb, String, ◌==◌, none, some, if◌then◌else◌,
}
use ai_agent_hub_project_ome.Base.Exn.{Outcome, ok, raised, error, llm_error, other_error}
use ai_agent_hub_project_ome.Base.Int.{pos}
use ai_agent_hub_project_ome.Base.Value.{
  Value, str, list, dict, nil, cons, end, field, get_field, Codec,
}
use ai_agent_hub_project_ome.Gateway.Providers.Config.{LlmSettings, from_env}
use ai_agent_hub_project_ome.Gateway.Providers.{
  local_server, Adapter, body, Wire, Web, make_adapter, post_for, content_of, reply_value,
  reply_text, vendor_generate,
}

-- One text is a completion, and all others are objects of another shape.
abbrev parse : String → Value
parse text =
    if text == "completion"
    then dict (
        field "choices"
          (list (cons (dict (field "message" (dict (field "content" (str "hello") end)) end)) nil))
          end)
    else dict (field "choices" (list nil) end)

abbrev codec : Codec
codec = record { show = λ v. "value"; dumps = λ v. "{}"; loads = λ text. inl (parse text) }

abbrev same_bytes : List ℕ → List ℕ → Bool
same_bytes (x ∷ []) (y ∷ []) = eqb x y
same_bytes xs ys = false

-- One byte stands for each of the two texts, and no other bytes are UTF-8.
abbrev decoded : List ℕ → Outcome String
decoded bytes =
    if same_bytes bytes (0 ∷ [])
    then ok "completion"
    else if same_bytes bytes (1 ∷ [])
    then ok "{}"
    else raised (error (other_error "UnicodeDecodeError") "invalid start byte")

abbrev wire : Wire
wire = record {
  check_url = λ url. ok tt;
  to_float = λ v. ok (pos 6000);
  decode = decoded;
  decode_replace = λ bytes. "";
}

abbrev answers : ℕ → Web ℕ
answers byte post w = (body (byte ∷ []), suc w)

abbrev adapter : Adapter
adapter = record {
  vendor = local_server;
  api_key = some "local";
  base_url = "http://localhost:11434/v1";
}

adapter_test : make_adapter local_server none none "http://localhost:11434/v1/" ≡ adapter
unfolding make_adapter
adapter_test = refl

completed :
    vendor_generate codec wire (answers 0) adapter "llama3.2" "system" "prompt" end 0
    ≡ (ok "hello", 1)
unfolding vendor_generate reply_value reply_text content_of post_for get_field
completed = refl

misshapen :
    vendor_generate codec wire (answers 1) adapter "llama3.2" "system" "prompt" end 0
    ≡ (raised (error llm_error "Invalid OpenAI-compatible response shape"), 1)
unfolding vendor_generate reply_value reply_text content_of post_for get_field
misshapen = refl

undecoded :
    vendor_generate codec wire (answers 255) adapter "llama3.2" "system" "prompt" end 0
    ≡ (raised (error (other_error "UnicodeDecodeError") "invalid start byte"), 1)
unfolding vendor_generate reply_value reply_text content_of post_for get_field
undecoded = refl

abbrev settings : LlmSettings
settings = record { provider = "local"; model = "llama3.2"; base_url = "http://localhost:11434/v1" }

from_env_test : from_env (λ s. s) (λ name. none) ≡ settings
unfolding from_env
from_env_test = refl
