-- ===== src/Tools/Http/Tests.antt =====
-- Runs over a network with two hosts, one of which is allowed.
use ai_agent_hub_project_ome.Base.{
  ℕ, sym, inl, Bool-cases, ◌≤◌, ◌≡◌, ◌==◌, refl, inr, String, some, [], ◌∷◌, length, if◌then◌else◌,
}
use ai_agent_hub_project_ome.Base.Int.{pos}
use ai_agent_hub_project_ome.Base.Exn.{ok, raised, error, tool_validation_error}
use ai_agent_hub_project_ome.Base.Value.{str, Fields, end, field, get_field, Codec}
use ai_agent_hub_project_ome.Tools.Http.{
  HttpRequestTool, HttpLib, Url, Request, Response, response, url_error, Network, answer,
  validate_request, make_request, receive, send_request, run_http,
}
use ai_agent_hub_project_ome.Tools.Http.Allowed.{IsAllowed, run_http-same}
use ai_agent_hub_project_ome.Tools.Http.Whole.{run_http-whole}

-- The host is what stands between the scheme and the end.
abbrev url_of : String → Url
url_of url =
    if url == "https://api.example"
    then record { scheme = "https"; hostname = some "api.example" }
    else record { scheme = "ftp"; hostname = some "other.example" }

abbrev lib : HttpLib
lib = record {
  upper = λ s. if s == "get" then "GET" else s;
  lower = λ s. s;
  urlparse = λ url. ok (url_of url);
  json_dumps = λ v. "{}";
  encode = λ s. [];
  decode = λ bytes. "body";
}

abbrev tool : HttpRequestTool
tool = record { allowed_hosts = "api.example" ∷ []; max_response_bytes = 3 }

abbrev reply : Response
reply = record {
  status = pos 200;
  url = "https://api.example";
  headers = end;
  bytes = 104 ∷ 105 ∷ [];
}

-- The world counts the requests.
abbrev network : Network ℕ
network request w = (response reply, w)

-- The same network, in which only the allowed host is reached.
abbrev cut_network : Network ℕ
cut_network request w =
    if request.url == "https://api.example"
    then (response reply, w)
    else (url_error "unreachable", w)

abbrev codec : Codec
codec = record { show = λ v. "value"; dumps = λ v. "{}"; loads = λ text. inr "Expecting value" }

abbrev get : String → Fields
get url = field "method" (str "get") (field "url" (str url) end)

run_http_test :
    run_http lib tool network codec (get "https://api.example") 0
    ≡ (ok (answer lib tool reply reply.bytes), 0)
unfolding run_http validate_request make_request send_request receive get_field
run_http_test = refl

refused_test :
    run_http lib tool network codec (get "https://other.example") 0
    ≡ (raised (error tool_validation_error "URL must use HTTP(S) and include a hostname"), 0)
unfolding run_http validate_request make_request send_request receive get_field
refused_test = refl

run_http-whole_example :
    (request : Request) × (r : Response) × (network request 0 ≡ (response r, 0))
    × (length r.bytes ≤ 3)
    × (answer lib tool reply reply.bytes ≡ answer lib tool r r.bytes)
run_http-whole_example =
    run_http-whole lib tool network codec (get "https://api.example")
      (answer lib tool reply reply.bytes) 0 0 run_http_test

alike_at :
    (request : Request) (w : ℕ)
    → IsAllowed lib tool request.method request.url
    → network request w ≡ cut_network request w
alike_at request w h = elim (Bool-cases (request.url == "https://api.example")) [
  | inl e ↦ rw (cut_network, e) refl
  | inr e ↦
      let parsed : ok (url_of request.url) ≡ ok h.parsed = h.reads in
      let other : h.parsed ≡ record { scheme = "ftp"; hostname = some "other.example" } =
        rw (url_of, e) at (sym (let same : url_of request.url ≡ h.parsed = cc in same)) in
      absurd (let wrong = rw other at h.scheme in cc)
]

alike :
    (request : Request)
    → IsAllowed lib tool request.method request.url
    → network request ≡ cut_network request
alike request h = λ i w. alike_at request w h i

run_http-same_example :
    run_http lib tool network codec (get "https://other.example")
    ≡ run_http lib tool cut_network codec (get "https://other.example")
run_http-same_example =
    run_http-same lib tool network cut_network alike codec (get "https://other.example")
