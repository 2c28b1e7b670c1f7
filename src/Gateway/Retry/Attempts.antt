-- ===== src/Gateway/Retry/Attempts.antt =====
-- What the attempts of a request do: calls of the provider, and waits in between.
use native.Mathlib.Nat.{pow-suc}
use ai_agent_hub_project_ome.Base.{
  ℕ, zero, suc, ◌+◌, ◌*◌, ◌^◌, ◌≤◌, ◌≡◌, ◌≢◌, inl, inr, refl, ap, ◌∙◌, String, ◌<>◌, Option, some,
  true, false, arith, ltb, Bool-cases,
}
use ai_agent_hub_project_ome.Base.Str.{is_blank}
use ai_agent_hub_project_ome.Base.Exn.{
  Outcome, ok, raised, stopped, Exn, Exec, llm_error, model_timer, wait_for, ◌>>◌,
}
use ai_agent_hub_project_ome.Base.Value.{Fields}
use ai_agent_hub_project_ome.Base.Rules.{Ends, bind-Ends, wait_for-Ends}
use ai_agent_hub_project_ome.Orchestrator.Run.{Host}
use ai_agent_hub_project_ome.Gateway.Tokens.{estimate}
use ai_agent_hub_project_ome.Gateway.Router.{ProviderRoute}
use ai_agent_hub_project_ome.Gateway.Retry.{
  LlmRequest, LlmResponse, Provider, attempt_metadata, parameters_of, try_once, back_off, after_try,
  attempts,
}

-- A response is that of the route, has text, and says which attempt it is of.
pub record IsAnswer (route : ProviderRoute) (request : LlmRequest) (attempt : ℕ)
    (response : LlmResponse) : Type 0 where
  pub text : is_blank response.text ≡ false
  pub provider_name : response.provider ≡ route.provider
  pub model_name : response.model ≡ route.model
  pub input : response.input_tokens ≡ estimate (request.system <> request.prompt)
  pub output : response.output_tokens ≡ estimate response.text
  pub numbered : response.metadata ≡ attempt_metadata (suc attempt)

-- A reading of the world that counts the calls of the provider and the time slept: a call counts
-- one, a sleep adds its length, and nothing else counts. A sleep does not raise an `Exception`.
pub record IsMeter {W : Type 0} (calls slept : W → ℕ) (host : Host W)
    (sleep : ℕ → Exec W (Unit {0})) (provider : Provider W) : Type 0 where
  pub called :
      (model system prompt : String) (parameters : Fields) (w : W)
      → calls (provider.generate model system prompt parameters w).1 ≡ suc (calls w)
  pub awake :
      (model system prompt : String) (parameters : Fields) (w : W)
      → slept (provider.generate model system prompt parameters w).1 ≡ slept w
  pub clock_calls : (w : W) → calls (host.perf_counter w).1 ≡ calls w
  pub clock_slept : (w : W) → slept (host.perf_counter w).1 ≡ slept w
  pub sleep_calls : (n : ℕ) (w : W) → calls (sleep n w).1 ≡ calls w
  pub sleep_slept : (n : ℕ) (w : W) → slept (sleep n w).1 ≡ slept w + n
  pub sleep_quiet : (n : ℕ) (w : W) (e : Exn) → (sleep n w).0 ≢ raised e

module _ {W : Type 0} (host : Host W) (sleep : ℕ → Exec W (Unit {0})) (max_retries delay : ℕ)
    (provider : Provider W) (route : ProviderRoute) (request : LlmRequest) (calls slept : W → ℕ)
    (meter : IsMeter calls slept host sleep provider) where
  abbrev Answers : ℕ → Outcome LlmResponse → Type 0
  Answers attempt (ok response) = IsAnswer route request attempt response
  Answers attempt _ = Unit

  abbrev Read : {A : Type 0} → ℕ → ℕ → Outcome A → W → Type 0
  Read c t r w = (calls w ≡ c) × (slept w ≡ t)

  -- One attempt calls the provider once and does not sleep.
  abbrev Tried : ℕ → ℕ → ℕ → Outcome LlmResponse → W → Type 0
  Tried attempt c t r w = (calls w ≡ c) × (slept w ≡ t) × Answers attempt r

  try_once-Tried :
      (attempt : ℕ) (w : W)
      → Ends
          (Tried attempt (suc (calls w)) (slept w))
          (try_once host sleep max_retries delay provider route request attempt w)
  unfolding try_once
  try_once-Tried attempt w =
      bind-Ends (Read c (slept w)) (Tried attempt c (slept w)) _
        (λ text u (p, q). elim (Bool-cases (is_blank text)) [
          | inl e ↦ rw e (p, q, tt)
          | inr e ↦ rw e (
            meter.clock_calls u ∙ p,
            meter.clock_slept u ∙ q,
            record {
              text = e;
              provider_name = refl;
              model_name = refl;
              input = refl;
              output = refl;
              numbered = refl;
            },
          )
        ])
        (λ x u (p, q). (p, q, tt)) (λ x u (p, q). (p, q, tt)) (wait_for model_timer call) w'
        (wait_for-Ends (Read c (slept w)) (Read c (slept w)) (λ _ u h. h) (λ _ u h. h)
          (λ _ _ u h. h) (λ _ u h. h) model_timer call w'
          (
            meter.called _ _ _ _ w' ∙ ap suc (meter.clock_calls w),
            meter.awake _ _ _ _ w' ∙ meter.clock_slept w,
          ))
    where
      w' : W
      w' = (host.perf_counter w).1

      c : ℕ
      c = suc (calls w)

      call : Exec W String
      call = provider.generate route.model request.system request.prompt (parameters_of request)

  doubled : (a : ℕ) → delay * 2 ^ suc a ≡ delay * 2 ^ a + delay * 2 ^ a
  doubled a = rw pow-suc (omega arith)

  -- From attempt `a` on, with `left` attempts to go, at the readings `c` and `t`. The waits before
  -- attempt `k` add up to `delay * (2 ^ k - 2 ^ a)`.
  abbrev pub Metered : (left a c t : ℕ) → Outcome LlmResponse → W → Type 0
  Metered left a c t (ok response) w =
      (k : ℕ) × IsAnswer route request k response
      × (k ≤ max_retries)
      × (calls w + a ≡ c + suc k)
      × (slept w + delay * 2 ^ a ≡ t + delay * 2 ^ k)
  Metered left a c t (raised e) w =
      (e.kind ≡ llm_error)
      × (calls w ≡ c + left)
      × (slept w + delay * 2 ^ a ≡ t + delay * 2 ^ max_retries)
  Metered left a c t (stopped x) w = calls w ≤ c + left

  abbrev loop : ℕ → ℕ → Option Exn → Exec W LlmResponse
  loop = attempts host sleep max_retries delay provider route request

  -- A sleep, and the attempts behind it.
  Metered-sleep :
      (left a c t : ℕ) (w : W) (r : Outcome LlmResponse) (w' : W)
      → calls w ≡ suc c
      → slept w ≡ t + delay * 2 ^ a
      → Metered left (suc a) (calls w) (slept w) r w'
      → Metered (suc left) a c t r w'
  Metered-sleep left a c t w (ok response) w' p q (k, answer, fits, called, waited) =
      (k, answer, fits, omega arith, omega (arith, doubled a))
  Metered-sleep left a c t w (raised e) w' p q (kind, called, waited) =
      (kind, omega arith, omega (arith, doubled a))
  Metered-sleep left a c t w (stopped x) w' p q h = omega arith

  abbrev once : ℕ → Exec W LlmResponse
  once = try_once host sleep max_retries delay provider route request

  abbrev after : ℕ → (Exn → Exec W LlmResponse) → Outcome LlmResponse → Exec W LlmResponse
  after = after_try host sleep max_retries delay provider route request

  -- The sleep after an attempt that is not the last one, and what follows it.
  back_off-Metered :
      (left a c t : ℕ) (go : Exn → Exec W LlmResponse) (e : Exn) (w : W)
      → ltb a max_retries ≡ true
      → calls w ≡ suc c
      → slept w ≡ t
      → ((w' : W) → Ends (Metered left (suc a) (calls w') (slept w')) (go e w'))
      → Ends
          (Metered (suc left) a c t)
          ((back_off host sleep max_retries delay provider route request a >> go e) w)
  back_off-Metered left a c t go e w early p q next = rw early (
      bind-Ends Woken (Metered (suc left) a c t) (λ _. go e)
        (λ _ w' (p', q', _). Metered-sleep left a c t w' (go e w').0 (go e w').1 p' q' (next w'))
        (λ x w' (_, _, quiet). absurd (quiet x refl)) (λ x w' (p', _, _). omega arith)
        (sleep (delay * 2 ^ a)) w
        (
          meter.sleep_calls _ w ∙ p,
          meter.sleep_slept _ w ∙ ap (λ n. n + delay * 2 ^ a) q,
          λ x. meter.sleep_quiet _ w x,
        ))
    where
      Woken : Outcome (Unit {0}) → W → Type 0
      Woken r w' = (calls w' ≡ suc c) × (slept w' ≡ t + delay * 2 ^ a) × ((x : Exn) → r ≢ raised x)

  -- The result of one attempt and what follows it, before the last attempt and at it.
  after_try-early :
      (left a c t : ℕ) (go : Exn → Exec W LlmResponse) (r : Outcome LlmResponse) (w : W)
      → a + suc left ≡ max_retries
      → Tried a (suc c) t r w
      → ((e : Exn) (w' : W) → Ends (Metered (suc left) (suc a) (calls w') (slept w')) (go e w'))
      → Ends (Metered (suc (suc left)) a c t) (after a go r w)
  after_try-early left a c t go (ok response) w n (p, q, answer) next =
      (a, answer, omega arith, omega arith, ap (λ n. n + delay * 2 ^ a) q)
  after_try-early left a c t go (raised e) w n (p, q, _) next =
      back_off-Metered (suc left) a c t go e w (ground arith) p q (next e)
  after_try-early left a c t go (stopped x) w n (p, q, _) next = omega arith

  after_try-last :
      (a c t : ℕ) (r : Outcome LlmResponse) (w : W)
      → a ≡ max_retries
      → Tried a (suc c) t r w
      → Ends (Metered 1 a c t) (after a (λ x. loop zero (suc a) (some x)) r w)
  unfolding attempts
  after_try-last a c t (ok response) w n (p, q, answer) =
      (a, answer, omega arith, omega arith, ap (λ n. n + delay * 2 ^ a) q)
  after_try-last a c t (raised e) w n (p, q, _) =
      let late : ltb a max_retries ≡ false = ground arith in
      rw late (refl, omega arith, rw n (ap (λ k. k + delay * 2 ^ max_retries) q))
  after_try-last a c t (stopped x) w n (p, q, _) = omega arith

  pub attempts-Metered :
      (left a : ℕ) (last : Option Exn) (w : W)
      → a + left ≡ max_retries
      → Ends (Metered (suc left) a (calls w) (slept w)) (loop (suc left) a last w)
  unfolding attempts
  attempts-Metered zero a last w e =
      after_try-last a (calls w) (slept w) (once a w).0 (once a w).1 (omega arith)
        (try_once-Tried a w)
  attempts-Metered (suc left) a last w e =
      after_try-early left a (calls w) (slept w) (λ x. loop (suc left) (suc a) (some x))
        (once a w).0 (once a w).1 e (try_once-Tried a w)
        (λ x w'. attempts-Metered left (suc a) (some x) w' (omega arith))
