-- ===== src/Tools/Http.antt =====
-- `HTTPRequestTool` of tools/http_tool.py. The network is the world `W`, reached by `urlopen`; what
-- the tool uses of `urllib.parse`, `json` and the codecs is in `HttpLib`.
pub mod Allowed
pub mod Whole
mod Tests
use ai_agent_hub_project_ome.Base.{
  ℕ, suc, String, ◌<>◌, ◌==◌, Option, none, some, Bool, true, false, not, ◌&&◌, ◌||◌, List, [], ◌∷◌,
  map, length, take, contains, ltb, if◌then◌else◌,
}
use ai_agent_hub_project_ome.Base.Int.{ℤ, ltb_ℤ, pos_part, pos, str_ℤ}
use ai_agent_hub_project_ome.Base.Dict.{Dict, of_pairs, insert, has}
use ai_agent_hub_project_ome.Base.Exn.{
  Outcome, ok, raised, stopped, Exn, Stop, error, value_error, tool_error, tool_validation_error,
  Exec, ◌>>=◌, bind,
}
use ai_agent_hub_project_ome.Base.Value.{
  Value, null, str, int, list, dict, Fields, end, field, get_field, Codec,
}
use ai_agent_hub_project_ome.Agent.Runtime.{lift}
use ai_agent_hub_project_ome.Tools.Arguments.{argument, text_of}

pub record HttpRequestTool : Type 0 where
  pub allowed_hosts : List String
  pub max_response_bytes : ℕ

-- `urlparse(url)`: the scheme and `hostname`
pub record Url : Type 0 where
  pub scheme : String
  pub hostname : Option String

pub record HttpLib : Type 0 where
  -- `str.upper` and `str.lower`
  pub upper : String → String
  pub lower : String → String
  -- `urlparse`, which raises `ValueError` for some texts
  pub urlparse : String → Outcome Url
  -- `json.dumps(body)`, which escapes what is not ASCII
  pub json_dumps : Value → String
  -- `s.encode("utf-8")` and `data.decode("utf-8", errors="replace")`
  pub encode : String → List ℕ
  pub decode : List ℕ → String

pub record Request : Type 0 where
  pub url : String
  pub payload : Option (List ℕ)
  pub headers : Dict String
  pub method : String

pub record Response : Type 0 where
  pub status : ℤ
  pub url : String
  pub headers : Fields
  -- all the bytes that could be read
  pub bytes : List ℕ

-- How `urlopen` and the reading of its response come out.
pub data Sent : Type 0 where
  response : Response → Sent
  http_error : (code : ℤ) (bytes : List ℕ) → Sent
  url_error : (reason : String) → Sent
  failed : Exn → Sent
  cut_off : Stop → Sent

abbrev pub Network : Type 0 → Type 0
Network W = Request → W → Sent × W

-- `HTTPRequestTool(allowed_hosts=…, max_response_bytes=…)`
unfoldable pub make_http : HttpLib → List String → ℤ → Outcome HttpRequestTool
make_http lib allowed_hosts max_response_bytes =
    if ltb_ℤ max_response_bytes 1
    then raised (error value_error "max_response_bytes must be positive")
    else ok (record {
      allowed_hosts = map lib.lower allowed_hosts;
      max_response_bytes = pos_part max_response_bytes;
    })

abbrev pub methods : List String
methods = "GET" ∷ "POST" ∷ "PUT" ∷ "PATCH" ∷ "DELETE" ∷ []

abbrev pub refuse {ℓ} : {A : Type ℓ} → String → Outcome A
refuse message = raised (error tool_validation_error message)

-- `arguments.get(key, default)`
abbrev pub or_default : Option Value → Value → Value
or_default none v = v
or_default (some v) w = v

abbrev check_body : Value → Outcome (Unit {0})
check_body null = ok tt
check_body (str _) = ok tt
check_body (dict _) = ok tt
check_body (list _) = ok tt
check_body _ = refuse "body must be string, object, array, or null"

-- The headers as an object.
abbrev pub check_headers : Value → Value → Outcome Fields
check_headers (dict headers) body = bind (check_body body) λ _. ok headers
check_headers _ body = refuse "headers must be an object"

module _ (lib : HttpLib) (tool : HttpRequestTool) where
  -- `self._allowed_hosts and host not in self._allowed_hosts` does not hold
  abbrev pub host_allowed : List String → String → Bool
  host_allowed [] host = true
  host_allowed (h ∷ hosts) host = contains (h ∷ hosts) host

  abbrev pub check_host : Option String → Value → Value → Outcome Fields
  check_host none headers body = refuse "URL must use HTTP(S) and include a hostname"
  check_host (some hostname) headers body =
      let host = lib.lower hostname in
      if hostname == ""
      then refuse "URL must use HTTP(S) and include a hostname"
      else if not (host_allowed tool.allowed_hosts host)
      then refuse ("Host is not allow-listed: " <> host)
      else check_headers headers body

  -- `_validate(method, url, headers, body)`; it gives the headers back
  unfoldable pub validate_request : String → String → Value → Value → Outcome Fields
  validate_request method url headers body =
      if not (contains methods method)
      then refuse "Unsupported HTTP method"
      else bind (lib.urlparse url) λ parsed.
        if not (parsed.scheme == "http" || parsed.scheme == "https")
        then refuse "URL must use HTTP(S) and include a hostname"
        else check_host parsed.hostname headers body

  -- `{str(k): str(v) for k, v in headers.items()}`
  abbrev texts : Codec → Fields → List (String × String)
  texts codec end = []
  texts codec (field k v fields) = (k, text_of codec v) ∷ texts codec fields

  -- `request_headers.setdefault(key, value)`
  abbrev set_default : String → String → Dict String → Dict String
  set_default key value headers = if has key headers then headers else insert key value headers

  -- `urllib.request.Request(…)` for the payload and the headers that `_request` makes
  unfoldable pub make_request : Codec → String → String → Fields → Value → Request
  make_request codec method url headers null = record {
    url = url;
    payload = none;
    headers = of_pairs (texts codec headers);
    method = method;
  }
  make_request codec method url headers (str body) = record {
    url = url;
    payload = some (lib.encode body);
    headers = of_pairs (texts codec headers);
    method = method;
  }
  make_request codec method url headers body = record {
    url = url;
    payload = some (lib.encode (lib.json_dumps body));
    headers = set_default "Content-Type" "application/json" (of_pairs (texts codec headers));
    method = method;
  }

  -- The result for a response and the bytes that were read of it.
  abbrev pub answer : Response → List ℕ → Value
  answer r read = dict (
      field "status" (int r.status) (
        field "url" (str r.url)
          (field "headers" (dict r.headers) (field "body" (str (lib.decode read)) end))))

  -- The answer from a response, of which one byte more than the limit is read.
  unfoldable pub receive : Sent → Outcome Value
  receive (response r) =
      let read = take (suc tool.max_response_bytes) r.bytes in
      if ltb tool.max_response_bytes (length read)
      then raised (error tool_error "HTTP response exceeds configured size limit")
      else ok (answer r read)
  receive (http_error code bytes) =
      raised (error tool_error ("HTTP " <> str_ℤ code <> ": " <> lib.decode (take 4096 bytes)))
  receive (url_error reason) = raised (error tool_error ("HTTP transport error: " <> reason))
  receive (failed e) = raised e
  receive (cut_off x) = stopped x

  module _ {W : Type 0} (urlopen : Network W) where
    -- `_request(method, url, headers, body)`
    unfoldable pub send_request : Codec → String → String → Fields → Value → Exec W Value
    send_request codec method url headers body w =
        let (sent, w') = urlopen (make_request codec method url headers body) w in
        (receive sent, w')

    -- `run(arguments)`
    unfoldable pub run_http : Codec → Fields → Exec W Value
    unfolding get_field
    run_http codec arguments = do
      method ← lift (argument "method" arguments)
      url ← lift (argument "url" arguments)
      let body = or_default (get_field "body" arguments) null
      headers ← lift (
          validate_request (lib.upper (text_of codec method)) (text_of codec url)
            (or_default (get_field "headers" arguments) (dict end)) body)
      send_request codec (lib.upper (text_of codec method)) (text_of codec url) headers body
