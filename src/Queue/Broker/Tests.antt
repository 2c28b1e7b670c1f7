-- ===== src/Queue/Broker/Tests.antt =====
-- Runs of the RabbitMQ broker over a client that counts its connections.
use ai_agent_hub_project_ome.Base.{
  ℕ, suc, String, none, some, List, [], ◌∷◌, ◌≡◌, refl, ap, sym, leb, ◌≤◌, Bool-cases, inl, inr,
  arith,
}
use ai_agent_hub_project_ome.Base.Exn.{Outcome, ok}
use ai_agent_hub_project_ome.Queue.Broker.{
  MessageCodec, AioPika, RabbitMqBroker, publish_rabbit, close_rabbit, held, channel_of,
}
use ai_agent_hub_project_ome.Queue.Broker.Owned.{
  Op, published, closing, serve, IsClient, close_rabbit-serve,
}

-- How many connections were made, how many of them are closed, and the routing keys of what was
-- published.
record World : Type 0 where
  made : ℕ
  ended : ℕ
  keys : List String

abbrev codec : MessageCodec String
codec = record { dumps = λ m. ok m; encode = λ s. [] }

-- Connections are numbered from one, and closed in their order.
abbrev pika : AioPika World ℕ ℕ ℕ
pika = record {
  connect_robust = λ url w. (ok (suc w.made), record w { made = suc w.made });
  is_closed = λ c w. leb c w.ended;
  open_channel = λ c w. (ok c, w);
  declare_topic = λ h name durable w. (ok h, w);
  publish_on = λ x body key w. (ok tt, record w { keys = key ∷ w.keys });
  close_connection = λ c w. (ok tt, record w { ended = w.made });
}

abbrev IsLive : ℕ → World → Type 0
IsLive c w = (suc w.ended ≤ c) × (c ≤ w.made)

client : IsClient IsLive pika
client = record {
  opens = λ url w d (live : IsLive d (record w { made = suc w.made })).
      let (still, below) = live in
      elim (Bool-cases (leb d w.made)) [
        | inl old ↦ inr (still, ground arith)
        | inr new ↦ inl (ground arith)
      ];
  closed = λ c w e live. ground arith;
  channels = λ c w d live. live;
  declares = λ h name durable w d live. live;
  publishes = λ x body key w d live. live;
  closes = λ c w d live. absurd (let (still, below) = live in omega arith);
  ends = λ c w w' e live.
      let same : record w { ended = w.made } ≡ w' = ap (λ (p : Outcome Unit × World). p.1) e in
      absurd (
        let (still, below) : IsLive c (record w { ended = w.made }) = rw (sym same) at live in
        omega arith);
}

abbrev broker : RabbitMqBroker ℕ
broker = record { url = "amqp://rabbitmq"; connection = none }

abbrev ops : List (Op String)
ops = published "a" "{}" ∷ closing ∷ published "b" "{}" ∷ published "c" "{}" ∷ []

abbrev start : World
start = record { made = 0; ended = 0; keys = [] }

abbrev final : World
final = record { made = 2; ended = 2; keys = "c" ∷ "b" ∷ "a" ∷ [] }

serve_test :
    close_rabbit pika (serve codec pika ops (broker, start))
    ≡ (ok tt, (record broker { connection = some 2 }, final))
unfolding serve publish_rabbit close_rabbit held channel_of
serve_test = refl

close_rabbit-serve_example : ¬ IsLive 2 final
unfolding serve publish_rabbit close_rabbit held channel_of
close_rabbit-serve_example =
    close_rabbit-serve IsLive pika client codec ops broker start
      (record broker { connection = some 2 }, final)
      (λ c live. absurd (let (still, below) = live in omega arith)) refl 2
