-- ===== src/Tools/Http/Whole.antt =====
-- An answer of the HTTP tool against the response that the network gave.
use ai_agent_hub_project_ome.Base.{
  ℕ, zero, suc, [], ◌∷◌, String, ◌≡◌, ◌≤◌, refl, ap, List, length, take, inl, inr, Bool-cases,
  arith, ltb,
}
use ai_agent_hub_project_ome.Base.Exn.{Outcome, ok, continue-eq-ok}
use ai_agent_hub_project_ome.Base.Value.{Value, null, dict, Fields, end, get_field, Codec}
use ai_agent_hub_project_ome.Tools.Arguments.{argument, text_of}
use ai_agent_hub_project_ome.Tools.Http.{
  HttpRequestTool, HttpLib, Request, Response, Sent, response, http_error, url_error, failed,
  cut_off, Network, or_default, validate_request, make_request, receive, send_request, run_http,
  answer,
}

take-all : (n : ℕ) (xs : List ℕ) → length (take (suc n) xs) ≤ n → take (suc n) xs ≡ xs
take-all n [] h = refl
take-all zero (x ∷ xs) h = absurd (omega arith)
take-all (suc n) (x ∷ xs) h = ap (λ (l : List ℕ). x ∷ l) (take-all n xs (omega arith))

pair : {A B : Type 0} {a b : A} {u v : B} → a ≡ b → u ≡ v → ◌≡◌ {A = A × B} (a, u) (b, v)
pair h k = rw (h, k) refl

module _ (lib : HttpLib) (tool : HttpRequestTool) where
  receive-eq-ok :
      (sent : Sent) (value : Value)
      → receive lib tool sent ≡ ok value
      → (r : Response) × (sent ≡ response r)
        × (length r.bytes ≤ tool.max_response_bytes)
        × (value ≡ answer lib tool r r.bytes)
  unfolding receive
  receive-eq-ok (response r) value e =
      let read = take (suc tool.max_response_bytes) r.bytes in
      elim (Bool-cases (ltb tool.max_response_bytes (length read))) [
        | inl big ↦ absurd (let wrong = rw big at e in cc)
        | inr fits ↦
            let small : length read ≤ tool.max_response_bytes = ground arith in
            let all = take-all tool.max_response_bytes r.bytes small in
            let same : ok (answer lib tool r read) ≡ ok value = rw fits at e in
            let whole : value ≡ answer lib tool r read = cc in
            (r, refl, rw all at small, rw all at whole)
      ]
  receive-eq-ok (http_error code bytes) value e = absurd (cc)
  receive-eq-ok (url_error reason) value e = absurd (cc)
  receive-eq-ok (failed x) value e = absurd (cc)
  receive-eq-ok (cut_off x) value e = absurd (cc)

  module _ {W : Type 0} (urlopen : Network W) where
    send_request-eq-ok :
        (codec : Codec) (method url : String) (headers : Fields) (body : Value) (value : Value)
        (w w' : W)
        → send_request lib tool urlopen codec method url headers body w ≡ (ok value, w')
        → (r : Response) × (urlopen (make_request lib tool codec method url headers body) w
            ≡ (response r, w'))
          × (length r.bytes ≤ tool.max_response_bytes)
          × (value ≡ answer lib tool r r.bytes)
    unfolding send_request
    send_request-eq-ok codec method url headers body value w w' e =
        let request = make_request lib tool codec method url headers body in
        let (r, same, small, whole) =
          receive-eq-ok (urlopen request w).0 value (ap (λ (p : Outcome Value × W). p.0) e) in
        (r, pair same (ap (λ (p : Outcome Value × W). p.1) e), small, whole)

    -- An answer is a whole response of the network to one request: its body is decoded from all
    -- the bytes of the response, no more than the limit. Error statuses are never answers.
    pub run_http-whole :
        (codec : Codec) (arguments : Fields) (value : Value) (w w' : W)
        → run_http lib tool urlopen codec arguments w ≡ (ok value, w')
        → (request : Request) × (r : Response) × (urlopen request w ≡ (response r, w'))
          × (length r.bytes ≤ tool.max_response_bytes)
          × (value ≡ answer lib tool r r.bytes)
    unfolding run_http
    run_http-whole codec arguments value w w' e =
        let body = or_default (get_field "body" arguments) null in
        let (method, _, e₁) = continue-eq-ok (argument "method" arguments) _ w w' value e in
        let (url, _, e₂) = continue-eq-ok (argument "url" arguments) _ w w' value e₁ in
        let m = lib.upper (text_of codec method) in
        let u = text_of codec url in
        let (headers, _, e₃) =
          continue-eq-ok
            (validate_request lib tool m u (or_default (get_field "headers" arguments) (dict end))
              body)
            (λ headers. send_request lib tool urlopen codec m u headers body) w w' value e₂ in
        let (r, same, small, whole) = send_request-eq-ok codec m u headers body value w w' e₃ in
        (make_request lib tool codec m u headers body, r, same, small, whole)
