-- ===== src/Tools/Http/Allowed.antt =====
-- Which requests leave the tool, and what comes back.
use ai_agent_hub_project_ome.Base.{
  String, ◌==◌, ◌≡◌, refl, ap, Option, none, some, true, not, ◌||◌, contains, inl, inr, Bool-cases,
  if◌then◌else◌,
}
use ai_agent_hub_project_ome.Base.Exn.{Outcome, ok, raised, stopped, Exec, ◌>>=◌, bind}
use ai_agent_hub_project_ome.Base.Rules.{Returns, bind-same_on}
use ai_agent_hub_project_ome.Base.Value.{
  Value, null, bool, int, float, str, list, dict, Fields, end, get_field, Codec,
}
use ai_agent_hub_project_ome.Agent.Runtime.{lift}
use ai_agent_hub_project_ome.Tools.Arguments.{argument, text_of}
use ai_agent_hub_project_ome.Tools.Http.{
  HttpRequestTool, Url, HttpLib, Request, Network, methods, or_default, refuse, check_headers,
  host_allowed, check_host, validate_request, make_request, send_request, run_http,
}

-- A method of the list, HTTP or HTTPS, and a host of the allow-list if there is one.
pub record IsAllowed (lib : HttpLib) (tool : HttpRequestTool) (method url : String) : Type 0 where
  pub parsed : Url
  pub host : String
  pub reads : lib.urlparse url ≡ ok parsed
  pub scheme : parsed.scheme == "http" || parsed.scheme == "https" ≡ true
  pub named : parsed.hostname ≡ some host
  pub listed : host_allowed lib tool tool.allowed_hosts (lib.lower host) ≡ true
  pub known : contains methods method ≡ true

module _ (lib : HttpLib) (tool : HttpRequestTool) where
  make_request-kept :
      (codec : Codec) (method url : String) (headers : Fields) (body : Value)
      → ((make_request lib tool codec method url headers body).method ≡ method)
        × ((make_request lib tool codec method url headers body).url ≡ url)
  unfolding make_request
  make_request-kept codec method url headers null = (refl, refl)
  make_request-kept codec method url headers (str b) = (refl, refl)
  make_request-kept codec method url headers (bool b) = (refl, refl)
  make_request-kept codec method url headers (int b) = (refl, refl)
  make_request-kept codec method url headers (float m b) = (refl, refl)
  make_request-kept codec method url headers (list b) = (refl, refl)
  make_request-kept codec method url headers (dict b) = (refl, refl)

module _ (lib : HttpLib) (tool : HttpRequestTool) {W : Type 0} where
  abbrev Vouched : String → String → Outcome Fields → W → Type 0
  Vouched method url = Returns (λ _. IsAllowed lib tool method url)

  check_headers-Vouched :
      (method url : String) (headers body : Value) (w : W)
      → IsAllowed lib tool method url
      → Vouched method url (check_headers headers body) w
  check_headers-Vouched method url (dict headers) null w h = h
  check_headers-Vouched method url (dict headers) (str b) w h = h
  check_headers-Vouched method url (dict headers) (dict b) w h = h
  check_headers-Vouched method url (dict headers) (list b) w h = h
  check_headers-Vouched method url (dict headers) (bool b) w h = tt
  check_headers-Vouched method url (dict headers) (int b) w h = tt
  check_headers-Vouched method url (dict headers) (float m b) w h = tt
  check_headers-Vouched method url null body w h = tt
  check_headers-Vouched method url (bool b) body w h = tt
  check_headers-Vouched method url (int n) body w h = tt
  check_headers-Vouched method url (float m n) body w h = tt
  check_headers-Vouched method url (str s) body w h = tt
  check_headers-Vouched method url (list vs) body w h = tt

  check_host-Vouched :
      (method url : String) (parsed : Url) (hostname : Option String) (headers body : Value) (w : W)
      → contains methods method ≡ true
      → lib.urlparse url ≡ ok parsed
      → (parsed.scheme == "http" || parsed.scheme == "https") ≡ true
      → parsed.hostname ≡ hostname
      → Vouched method url (check_host lib tool hostname headers body) w
  check_host-Vouched method url parsed none headers body w known reads scheme named = tt
  check_host-Vouched method url parsed (some host) headers body w known reads scheme named =
      elim (Bool-cases (host == "")) [
        | inl e ↦ rw e tt
        | inr e ↦ elim (Bool-cases (host_allowed lib tool tool.allowed_hosts (lib.lower host))) [
          | inr out ↦ rw (e, out) tt
          | inl listed ↦
              rw (e, listed)
                (check_headers-Vouched method url headers body w (record {
                  parsed = parsed;
                  host = host;
                  reads = reads;
                  scheme = scheme;
                  named = named;
                  listed = listed;
                  known = known;
                }))
        ]
      ]

  parsed-Vouched :
      (method url : String) (headers body : Value) (w : W) (o : Outcome Url)
      → contains methods method ≡ true
      → lib.urlparse url ≡ o
      → Vouched method url
          (bind o λ parsed.
            if not (parsed.scheme == "http" || parsed.scheme == "https")
            then refuse "URL must use HTTP(S) and include a hostname"
            else check_host lib tool parsed.hostname headers body)
          w
  parsed-Vouched method url headers body w (ok parsed) known reads =
      elim (Bool-cases (parsed.scheme == "http" || parsed.scheme == "https")) [
        | inr e ↦ rw e tt
        | inl e ↦
            rw e (
              check_host-Vouched method url parsed parsed.hostname headers body w known reads e
                refl)
      ]
  parsed-Vouched method url headers body w (raised e) known reads = tt
  parsed-Vouched method url headers body w (stopped x) known reads = tt

  validate_request-Vouched :
      (method url : String) (headers body : Value) (w : W)
      → Vouched method url (validate_request lib tool method url headers body) w
  unfolding validate_request
  validate_request-Vouched method url headers body w = elim (Bool-cases (contains methods method)) [
    | inr e ↦ rw e tt
    | inl e ↦ rw e (parsed-Vouched method url headers body w (lib.urlparse url) e refl)
  ]

  -- Two networks that answer alike what the tool may ask.
  abbrev pub Alike : Network W → Network W → Type 0
  Alike p q =
      (request : Request) → IsAllowed lib tool request.method request.url → p request ≡ q request

  module _ (p q : Network W) (alike : Alike p q) where
    send_request-same :
        (codec : Codec) (method url : String) (headers : Fields) (body : Value) (w : W)
        → IsAllowed lib tool method url
        → send_request lib tool p codec method url headers body w
          ≡ send_request lib tool q codec method url headers body w
    unfolding send_request
    send_request-same codec method url headers body w h =
        let request = make_request lib tool codec method url headers body in
        let (m, u) = make_request-kept lib tool codec method url headers body in
        let same : p request ≡ q request = alike request (rw (m, u) h) in rw same refl

    validated-same :
        (codec : Codec) (method url : String) (headers body : Value) (w : W)
        → (lift (validate_request lib tool method url headers body) >>= λ fields.
              send_request lib tool p codec method url fields body)
            w
          ≡ (lift (validate_request lib tool method url headers body) >>= λ fields.
                send_request lib tool q codec method url fields body)
              w
    validated-same codec method url headers body w =
        bind-same_on (λ _. IsAllowed lib tool method url)
          (λ fields. send_request lib tool p codec method url fields body)
          (λ fields. send_request lib tool q codec method url fields body)
          (λ fields s h. send_request-same codec method url fields body s h)
          (lift (validate_request lib tool method url headers body))
          (lift (validate_request lib tool method url headers body)) w refl
          (validate_request-Vouched method url headers body w)

    -- Whatever its arguments are, the tool only sends requests with a method of its list, over HTTP
    -- or HTTPS, to a host of the allow-list if there is one: it acts alike over two networks that
    -- answer those requests alike.
    pub run_http-same :
        (codec : Codec) (arguments : Fields)
        → run_http lib tool p codec arguments ≡ run_http lib tool q codec arguments
    unfolding run_http
    run_http-same codec arguments =
        let body = or_default (get_field "body" arguments) null in
        let headers = or_default (get_field "headers" arguments) (dict end) in
        ap
          (λ (next : Value → Value → Exec W Value). do
            method ← lift (argument "method" arguments)
            url ← lift (argument "url" arguments)
            next method url)
          (λ i method url w.
            validated-same codec (lib.upper (text_of codec method)) (text_of codec url) headers body
              w i)
