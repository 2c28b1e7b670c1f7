-- ===== src/Queue/Broker/Owned.antt =====
-- Which connections of the RabbitMQ broker are live: not yet closed.
use ai_agent_hub_project_ome.Base.{
  String, Option, none, some, List, [], ◌∷◌, Bool, true, ◌≡◌, refl, ap, sym, ◌⊎◌, inl, inr,
  Bool-cases,
}
use ai_agent_hub_project_ome.Base.Exn.{Outcome, ok, raised, stopped, Exec, ◌>>=◌}
use ai_agent_hub_project_ome.Base.Rules.{Ends, bind-Ends}
use ai_agent_hub_project_ome.Agent.Runtime.{lift}
use ai_agent_hub_project_ome.Queue.Broker.{
  MessageCodec, AioPika, RabbitMqBroker, on_world, connected, connect, held, channel_of,
  publish_rabbit, close_held, close_rabbit,
}

-- Messages to publish, and closing the broker.
pub data Op (M : Type 0) : Type 0 where
  published : (topic : String) (message : M) → Op M
  closing : Op M

module _ {W C H X M : Type 0} (codec : MessageCodec M) (pika : AioPika W C H X) where
  -- One operation after the other, however each of them comes out.
  unfoldable pub serve : List (Op M) → RabbitMqBroker C × W → RabbitMqBroker C × W
  unfolding publish_rabbit close_rabbit
  serve [] s = s
  serve (published topic message ∷ ops) s = serve ops (publish_rabbit pika codec topic message s).1
  serve (closing ∷ ops) s = serve ops (close_rabbit pika s).1

module _ {W C : Type 0} (IsLive : C → W → Type 0) where
  abbrev pub Shrinks : {A : Type 0} → Exec W A → Type 0
  Shrinks call = (w : W) (c : C) → IsLive c (call w).1 → IsLive c w

  -- Only a call of `connect_robust` that returns adds a live connection, the one it returns.
  abbrev pub Opens : Outcome C → W → W → Type 0
  Opens (ok c) w w' = (d : C) → IsLive d w' → (c ≡ d) ⊎ IsLive d w
  Opens (raised e) w w' = (d : C) → IsLive d w' → IsLive d w
  Opens (stopped x) w w' = (d : C) → IsLive d w' → IsLive d w

  -- What the broker relies on of its client.
  pub record IsClient {H X : Type 0} (pika : AioPika W C H X) : Type 0 where
    pub opens :
        (url : String) (w : W) → Opens (pika.connect_robust url w).0 w (pika.connect_robust url w).1
    pub closed : (c : C) (w : W) → pika.is_closed c w ≡ true → ¬ IsLive c w
    pub channels : (c : C) → Shrinks (pika.open_channel c)
    pub declares :
        (h : H) (name : String) (durable : Bool) → Shrinks (pika.declare_topic h name durable)
    pub publishes : (x : X) (body : List _) (key : String) → Shrinks (pika.publish_on x body key)
    pub closes : (c : C) → Shrinks (pika.close_connection c)
    pub ends : (c : C) (w w' : W) → pika.close_connection c w ≡ (ok tt, w') → ¬ IsLive c w'

  -- A connection that is live is the one that the broker holds.
  abbrev Owned : RabbitMqBroker C × W → Type 0
  Owned (b, w) = (c : C) → IsLive c w → b.connection ≡ some c

  abbrev Keeps : {A : Type 0} → Exec (RabbitMqBroker C × W) A → Type 0
  Keeps m = (s : RabbitMqBroker C × W) → Owned s → Ends (λ _ t. Owned t) (m s)

  bind-Keeps :
      {A B : Type 0} (m : Exec (RabbitMqBroker C × W) A) (f : A → Exec (RabbitMqBroker C × W) B)
      → Keeps m
      → ((a : A) → Keeps (f a))
      → Keeps (m >>= f)
  bind-Keeps m f first next s own =
      bind-Ends (λ _ t. Owned t) (λ _ t. Owned t) f (λ a t p. next a t p) (λ _ _ p. p) (λ _ _ p. p)
        m s (first s own)

  on_world-Keeps : {A : Type 0} (call : Exec W A) → Shrinks call → Keeps (on_world call)
  on_world-Keeps call shrinks (b, w) own = λ c live. own c (shrinks w c live)

  connected-Owned :
      (b : RabbitMqBroker C) (r : Outcome C) (w w' : W)
      → ((c : C) → ¬ IsLive c w)
      → Opens r w w'
      → Owned (connected b r w').1
  connected-Owned b (ok c) w w' idle opens d live = elim (opens d live) [
    | inl same ↦ ap (λ (x : C). some x) same
    | inr old ↦ absurd (idle d old)
  ]
  connected-Owned b (raised e) w w' idle opens d live = absurd (idle d (opens d live))
  connected-Owned b (stopped x) w w' idle opens d live = absurd (idle d (opens d live))

  module _ {H X : Type 0} (pika : AioPika W C H X) (client : IsClient pika) where
    connect-Owned :
        (b : RabbitMqBroker C) (w : W) → ((c : C) → ¬ IsLive c w) → Owned (connect pika (b, w)).1
    connect-Owned b w idle =
        let (r, w') = pika.connect_robust b.url w in
        connected-Owned b r w w' idle (client.opens b.url w)

    -- The live connection is the one held.
    held-IsLive :
        (c d : C) (b : RabbitMqBroker C) (w : W)
        → b.connection ≡ some c
        → Owned (b, w)
        → IsLive d w
        → IsLive c w
    held-IsLive c d b w e own live =
        let same : d ≡ c = let named = own d live in cc in rw same at live

    held-Owned :
        (held_one : Option C) (s : RabbitMqBroker C × W)
        → s.0.connection ≡ held_one
        → Owned s
        → Owned (held pika held_one s).1
    unfolding held
    held-Owned none (b, w) e own = connect-Owned b w (λ c live. cc (own c live))
    held-Owned (some c) (b, w) e own = elim (Bool-cases (pika.is_closed c w)) [
      | inl closed ↦
          rw closed (
            connect-Owned b w (λ d live. client.closed c w closed (held-IsLive c d b w e own live)))
      | inr is_open ↦ rw is_open own
    ]

    channel_of-Keeps : Keeps (channel_of pika)
    unfolding channel_of
    channel_of-Keeps =
        bind-Keeps (λ s. held pika s.0.connection s) (λ c. on_world (pika.open_channel c))
          (λ s own. held-Owned s.0.connection s refl own)
          (λ c. on_world-Keeps (pika.open_channel c) (client.channels c))

    publish_rabbit-Keeps :
        {M : Type 0} (codec : MessageCodec M) (topic : String) (message : M)
        → Keeps (publish_rabbit pika codec topic message)
    unfolding publish_rabbit
    publish_rabbit-Keeps codec topic message =
        bind-Keeps (channel_of pika) _ channel_of-Keeps λ channel.
          bind-Keeps (on_world (pika.declare_topic channel "omega" true)) _
            (on_world-Keeps (pika.declare_topic channel "omega" true)
              (client.declares channel "omega" true))
            λ exchange.
              bind-Keeps (lift (codec.dumps message)) _ (λ s own. own)
                λ text.
                  on_world-Keeps (pika.publish_on exchange (codec.encode text) topic)
                    (client.publishes exchange (codec.encode text) topic)

    close_held-Owned :
        (held_one : Option C) (s : RabbitMqBroker C × W)
        → Owned s
        → Owned (close_held pika held_one s).1
    close_held-Owned none s own = own
    close_held-Owned (some c) (b, w) own = elim (Bool-cases (pika.is_closed c w)) [
      | inl closed ↦ rw closed own
      | inr is_open ↦
          rw is_open (on_world-Keeps (pika.close_connection c) (client.closes c) (b, w) own)
    ]

    -- What a close that returns leaves behind.
    close_held-over :
        (held_one : Option C) (s s' : RabbitMqBroker C × W)
        → s.0.connection ≡ held_one
        → Owned s
        → close_held pika held_one s ≡ (ok tt, s')
        → (c : C) → ¬ IsLive c s'.1
    close_held-over none s s' e own returned c live =
        let kept : s.1 ≡ s'.1 =
          ap (λ (p : Outcome Unit × (RabbitMqBroker C × W)). p.1.1) returned in
        let named = own c (rw (sym kept) at live) in absurd (cc)
    close_held-over (some d) (b, w) s' e own returned c live =
        elim (Bool-cases (pika.is_closed d w)) [
          | inl closed ↦
              let same = rw closed at returned in
              let kept : w ≡ s'.1 =
                ap (λ (p : Outcome Unit × (RabbitMqBroker C × W)). p.1.1) same in
              client.closed d w closed (held-IsLive d c b w e own (rw (sym kept) at live))
          | inr is_open ↦
              let same = rw is_open at returned in
              let answered : (pika.close_connection d w).0 ≡ ok tt =
                ap (λ (p : Outcome Unit × (RabbitMqBroker C × W)). p.0) same in
              let kept : (pika.close_connection d w).1 ≡ s'.1 =
                ap (λ (p : Outcome Unit × (RabbitMqBroker C × W)). p.1.1) same in
              let after : IsLive c (pika.close_connection d w).1 = rw (sym kept) at live in
              let held : c ≡ d = let named = own c (client.closes d w c after) in cc in
              client.ends d w (pika.close_connection d w).1
                (ap (λ (o : Outcome Unit). (o, (pika.close_connection d w).1)) answered)
                (rw held at after)
        ]

    serve-Owned :
        {M : Type 0} (codec : MessageCodec M) (ops : List (Op M)) (s : RabbitMqBroker C × W)
        → Owned s
        → Owned (serve codec pika ops s)
    unfolding serve publish_rabbit close_rabbit
    serve-Owned codec [] s own = own
    serve-Owned codec (published topic message ∷ ops) s own =
        serve-Owned codec ops _ (publish_rabbit-Keeps codec topic message s own)
    serve-Owned codec (closing ∷ ops) s own =
        serve-Owned codec ops _ (close_held-Owned s.0.connection s own)

    -- Take a broker in a world without live connections. Whatever is published and closed, and
    -- however each of these operations comes out, no connection is live once a further close has
    -- returned.
    pub close_rabbit-serve :
        {M : Type 0} (codec : MessageCodec M) (ops : List (Op M)) (b : RabbitMqBroker C) (w : W)
        (s : RabbitMqBroker C × W)
        → ((c : C) → ¬ IsLive c w)
        → close_rabbit pika (serve codec pika ops (b, w)) ≡ (ok tt, s)
        → (c : C) → ¬ IsLive c s.1
    unfolding close_rabbit
    close_rabbit-serve codec ops b w s idle returned =
        let before = serve codec pika ops (b, w) in
        close_held-over before.0.connection before s refl
          (serve-Owned codec ops (b, w) λ c live. absurd (idle c live)) returned
