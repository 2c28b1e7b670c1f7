-- ===== src/Gateway/Providers.antt =====
-- The adapters of llm_models/providers.py and llm_models/gemini.py. The network is the world `W`,
-- reached by one call that posts a payload.
pub mod Built
pub mod Config
pub mod Replies
mod Tests
use Prim.Native.Char.{code}
use ai_agent_hub_project_ome.Base.{
  ℕ, String, ◌==◌, ◌<>◌, Option, none, some, Bool, true, false, ◌&&◌, not, List, [], ◌∷◌, eqb,
  if◌then◌else◌, inl, inr, ◌⊎◌,
}
use ai_agent_hub_project_ome.Base.Str.{str_take, repr}
use ai_agent_hub_project_ome.Base.Int.{ℤ, pos, negsuc, str_ℤ}
use ai_agent_hub_project_ome.Base.Dict.{Dict, has, lookup}
use ai_agent_hub_project_ome.Base.Exn.{
  Outcome, ok, raised, stopped, Exn, ExnKind, Stop, error, missing_key, key_error, index_error,
  type_error, value_error, llm_error, json_decode_error, Exec, raise, ◌>>=◌, bind, convert,
}
use ai_agent_hub_project_ome.Base.Value.{
  Value, null, int, float, str, list, dict, nil, cons, Fields, end, field, get_field, values_of,
  Codec,
}
use ai_agent_hub_project_ome.Agent.Runtime.{lift}
use ai_agent_hub_project_ome.Gateway.Router.{ProviderRoute, Router, make_router}
use ai_agent_hub_project_ome.Gateway.Retry.{Provider, LlmGateway, make_gateway}

-- The classes of adapters; the local one is that of OpenAI with a key and an address of its own.
pub data Vendor : Type 0 where
  openai anthropic gemini local_server : Vendor

pub record Adapter : Type 0 where
  pub vendor : Vendor
  pub api_key : Option String
  pub base_url : String

-- A JSON payload, posted to an address, with the time-out of `urlopen` in hundredths of a second.
pub record Post : Type 0 where
  pub url : String
  pub headers : Dict String
  pub payload : Value
  pub timeout : ℤ

-- How `urlopen` and the reading of its response come out; an error status comes with the bytes of
-- its body.
pub data Replied : Type 0 where
  body : (bytes : List ℕ) → Replied
  http_error : (status : ℤ) (bytes : List ℕ) → Replied
  url_error : (reason : String) → Replied
  failed : Exn → Replied
  cut_off : Stop → Replied

abbrev pub Web : Type 0 → Type 0
Web W = Post → W → Replied × W

-- What the adapters use of the standard library.
pub record Wire : Type 0 where
  -- what `Request(url, …)` raises, as for an address without a scheme
  pub check_url : String → Outcome (Unit {0})
  -- `float(value)`, in hundredths
  pub to_float : Value → Outcome ℤ
  -- `bytes.decode()` and `bytes.decode(errors="replace")`
  pub decode : List ℕ → Outcome String
  pub decode_replace : List ℕ → String

-- `s.rstrip("/")`
abbrev rstrip_slash : String → String
rstrip_slash String.[] = ""
rstrip_slash (String.◌∷◌ c s) =
    let rest = rstrip_slash s in if eqb (code c) b'/' && rest == "" then "" else String.◌∷◌ c rest

-- `api_key or os.getenv(…)`
abbrev key_or : Option String → Option String → Option String
key_or none env = env
key_or (some key) env = if key == "" then env else some key

-- `OpenAICompatibleProvider(…)`, `AnthropicProvider(…)`, `GeminiProvider(…)`, and
-- `LocalOpenAICompatibleProvider(…)`, whose key is always "local"
unfoldable pub make_adapter : Vendor → Option String → Option String → String → Adapter
make_adapter local_server api_key env base_url = record {
  vendor = local_server;
  api_key = some "local";
  base_url = rstrip_slash base_url;
}
make_adapter vendor api_key env base_url = record {
  vendor = vendor;
  api_key = key_or api_key env;
  base_url = rstrip_slash base_url;
}

-- `v[key]` for a text, and `v[0]`
abbrev pub item_key : String → Value → Outcome Value
unfolding get_field
item_key key (dict fields) = elim (get_field key fields) [
  | none ↦ raised (missing_key key)
  | some v ↦ ok v
]
item_key key (list _) = raised (error type_error "list indices must be integers or slices, not str")
item_key key (str _) = raised (error type_error "string indices must be integers, not 'str'")
item_key key _ = raised (error type_error "object is not subscriptable")

abbrev pub item_first : Value → Outcome Value
item_first (list nil) = raised (error index_error "list index out of range")
item_first (list (cons v _)) = ok v
item_first (str String.[]) = raised (error index_error "string index out of range")
item_first (str (String.◌∷◌ c _)) = ok (str (String.◌∷◌ c ""))
item_first (dict _) = raised (error key_error "0")
item_first _ = raised (error type_error "object is not subscriptable")

-- `parameters.get(key, default)`
abbrev pub parameter : String → Value → Fields → Value
unfolding get_field
parameter key default parameters = elim (get_field key parameters) [ none ↦ default | some v ↦ v ]

abbrev max_tokens : Fields → Value
max_tokens parameters = parameter "max_tokens" (int (pos 2048)) parameters

abbrev temperature : Fields → Value
temperature parameters = parameter "temperature" (float (pos 2) (negsuc 0)) parameters

abbrev message : String → String → Value
message role content = dict (field "role" (str role) (field "content" (str content) end))

abbrev texts : String → Value
texts text = list (cons (dict (field "text" (str text) end)) nil)

-- The payload and the address of a vendor.
unfoldable pub post_for : Vendor → String → String → String → String → String → Fields → ℤ → Post
post_for anthropic key base_url model system prompt parameters timeout = record {
  timeout = timeout;
  url = base_url <> "/messages";
  headers =
      ("x-api-key", key)
      ∷ ("anthropic-version", "2023-06-01")
      ∷ ("content-type", "application/json")
      ∷ [];
  payload = dict (
      field "model" (str model) (
        field "system" (str system) (
          field "messages" (list (cons (message "user" prompt) nil)) (
            field "max_tokens" (max_tokens parameters)
              (field "temperature" (temperature parameters) end)))));
}
post_for gemini key base_url model system prompt parameters timeout = record {
  timeout = timeout;
  url = base_url <> "/models/" <> model <> ":generateContent?key=" <> key;
  headers = ("Content-Type", "application/json") ∷ [];
  payload = dict (
      field "systemInstruction" (dict (field "parts" (texts system) end)) (
        field "contents"
          (list (cons (dict (field "role" (str "user") (field "parts" (texts prompt) end))) nil))
          (field "generationConfig"
            (dict (
              field "temperature" (temperature parameters)
                (field "maxOutputTokens" (max_tokens parameters) end)))
            end)));
}
post_for _ key base_url model system prompt parameters timeout = record {
  timeout = timeout;
  url = base_url <> "/chat/completions";
  headers = ("Authorization", "Bearer " <> key) ∷ ("Content-Type", "application/json") ∷ [];
  payload = dict (
      field "model" (str model) (
        field "messages" (list (cons (message "system" system) (cons (message "user" prompt) nil)))
          (field "max_tokens" (max_tokens parameters)
            (field "temperature" (temperature parameters) end))));
}

-- `if not isinstance(content, list) or not content: raise ValueError`
abbrev pub filled : Value → Outcome Value
filled (list (cons v vs)) = ok (list (cons v vs))
filled _ = raised (error value_error "")

-- Where a vendor puts the text.
unfoldable pub content_of : Vendor → Value → Outcome Value
content_of anthropic data_ =
    bind (item_key "content" data_)
      λ content. bind (filled content) λ c. bind (item_first c) (item_key "text")
content_of gemini data_ = bind (item_key "candidates" data_) λ a. bind (item_first a) λ b.
    bind (item_key "content" b)
      λ c. bind (item_key "parts" c) λ d. bind (item_first d) (item_key "text")
content_of _ data_ =
    bind (item_key "choices" data_)
      λ a. bind (item_first a) λ b. bind (item_key "message" b) (item_key "content")

abbrev vendor_name : Vendor → String
vendor_name anthropic = "Anthropic"
vendor_name gemini = "Gemini"
vendor_name _ = "OpenAI-compatible"

abbrev key_name : Vendor → String
key_name anthropic = "ANTHROPIC_API_KEY"
key_name gemini = "GEMINI_API_KEY"
key_name _ = "OPENAI_API_KEY"

abbrev pub failure : String → Exn
failure text = error llm_error text

-- `except (KeyError, IndexError, TypeError)`, and `ValueError` for the content of Anthropic
abbrev pub shape_error : Vendor → ExnKind → Exn → Exn
shape_error vendor key_error e = failure ("Invalid " <> vendor_name vendor <> " response shape")
shape_error vendor index_error e = failure ("Invalid " <> vendor_name vendor <> " response shape")
shape_error vendor type_error e = failure ("Invalid " <> vendor_name vendor <> " response shape")
shape_error anthropic value_error e = failure "Invalid Anthropic response shape"
shape_error vendor _ e = e

-- `if not isinstance(value, dict): raise LLMError(…)`
abbrev pub object : Value → Outcome Value
object (dict fields) = ok (dict fields)
object _ = raised (failure "Provider response must be a JSON object")

-- What `json.loads` gave; the adapters of the JSON client refuse what is no object.
abbrev pub loaded : Vendor → Value ⊎ String → Outcome Value
loaded gemini (inl value) = ok value
loaded gemini (inr problem) = raised (failure ("Gemini transport/JSON error: " <> problem))
loaded _ (inl value) = object value
loaded _ (inr problem) = raised (failure "Provider returned invalid JSON")

module _ (codec : Codec) (wire : Wire) where
  -- `HTTPJSONClient.post` and the `call` of Gemini, once the network has answered
  unfoldable pub reply_value : Vendor → Replied → Outcome Value
  reply_value vendor (body bytes) =
      bind (wire.decode bytes) λ text. loaded vendor (codec.loads text)
  reply_value gemini (http_error status bytes) = raised (
      failure ("Gemini HTTP " <> str_ℤ status <> ": " <> str_take 1000 (wire.decode_replace bytes)))
  reply_value gemini (url_error reason) =
      raised (failure ("Gemini transport/JSON error: <urlopen error " <> reason <> ">"))
  reply_value vendor (http_error status bytes) =
      raised
        (failure ("HTTP " <> str_ℤ status <> ": " <> str_take 1000 (wire.decode_replace bytes)))
  reply_value vendor (url_error reason) = raised (failure ("HTTP transport error: " <> reason))
  reply_value vendor (failed e) = raised e
  reply_value vendor (cut_off x) = stopped x

  abbrev shown : Value → String
  shown (str text) = text
  shown v = codec.show v

  -- `str(data[…]…)` with its `except` clause
  unfoldable pub reply_text : Vendor → Value → Outcome String
  unfolding content_of
  reply_text vendor data_ =
      bind (convert (λ e. shape_error vendor e.kind e) (content_of vendor data_)) λ v. ok (shown v)

  -- The time-out of the JSON client, or what Gemini is given for it.
  abbrev pub timeout_for : Vendor → Fields → Outcome ℤ
  timeout_for gemini parameters =
      wire.to_float (parameter "timeout_seconds" (int (pos 60)) parameters)
  timeout_for _ parameters = ok (pos 6000)

  -- The request, which is made before the time-out is read.
  abbrev pub prepared : Adapter → String → String → String → String → Fields → Outcome Post
  prepared adapter key model system prompt parameters =
      let post = post_for adapter.vendor key adapter.base_url model system prompt parameters in
      bind (wire.check_url (post (pos 0)).url)
        λ _. bind (timeout_for adapter.vendor parameters) λ timeout. ok (post timeout)

  module _ {W : Type 0} (web : Web W) where
    -- A request and what is made of its reply.
    abbrev pub exchange : Vendor → Post → Exec W String
    exchange vendor post w =
        let (replied, w') = web post w in
        (bind (reply_value vendor replied) (reply_text vendor), w')

    abbrev pub generate_with :
        Option String → Adapter → String → String → String → Fields → Exec W String
    generate_with none adapter model system prompt parameters =
        raise (failure (key_name adapter.vendor <> " is not configured"))
    generate_with (some key) adapter model system prompt parameters =
        if key == "" then raise (failure (key_name adapter.vendor <> " is not configured")) else (do
          post ← lift (prepared adapter key model system prompt parameters)
          exchange adapter.vendor post)

    -- `generate(model=…, system=…, prompt=…, parameters=…)`
    unfoldable pub vendor_generate : Adapter → String → String → String → Fields → Exec W String
    vendor_generate adapter model system prompt parameters =
        generate_with adapter.api_key adapter model system prompt parameters
