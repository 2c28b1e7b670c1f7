-- ===== src/Gateway/Providers/Replies.antt =====
-- What an adapter makes of a reply.
use ai_agent_hub_project_ome.Base.{ℕ, List, String, ◌≡◌, ◌⊎◌}
use ai_agent_hub_project_ome.Base.Exn.{Outcome, ok, raised, stopped, Exn, llm_error}
use ai_agent_hub_project_ome.Base.Int.{pos}
use ai_agent_hub_project_ome.Base.Value.{Value, int, Fields, Codec}
use ai_agent_hub_project_ome.Gateway.Providers.{
  Vendor, gemini, Adapter, Post, Replied, body, failed, Wire, Web, parameter, shape_error,
}

module _ (vendor : Vendor) where
  -- An exception that the `except` clause of the adapter turns into an `LLMError`.
  abbrev Caught : {A : Type 0} → Outcome A → Type 0
  Caught (ok a) = Unit
  Caught (raised e) = (shape_error vendor e.kind e).kind ≡ llm_error
  Caught (stopped x) = ⊥

module _ (codec : Codec) (wire : Wire) where
  -- An `LLMError`, or what the network or the decoding of a body raised.
  abbrev Known : Replied → Exn → Type 0
  Known replied e =
      (e.kind ≡ llm_error)
      ⊎ (replied ≡ failed e)
      ⊎ ((bytes : List ℕ) × (replied ≡ body bytes) × (wire.decode bytes ≡ raised e))

  module _ {W : Type 0} (web : Web W) (adapter : Adapter) (parameters : Fields) (w : W) where
    -- Where an exception of an adapter comes from.
    pub data Raised (e : Exn) : Type 0 where
      own : e.kind ≡ llm_error → Raised e
      by_network : (post : Post) → (web post w).0 ≡ failed e → Raised e
      by_decode :
          (post : Post) (bytes : List ℕ)
          → (web post w).0 ≡ body bytes
          → wire.decode bytes ≡ raised e
          → Raised e
      by_request : (url : String) → wire.check_url url ≡ raised e → Raised e
      by_timeout :
          adapter.vendor ≡ gemini
          → wire.to_float (parameter "timeout_seconds" (int (pos 60)) parameters) ≡ raised e
          → Raised e
