-- ===== src/Queue/Broker.antt =====
-- queue/broker.py: `RedisBroker` and `RabbitMQBroker`. The clients of Redis and RabbitMQ are
-- parameters: calls that act on a world `W`.
pub mod Owned
mod Tests
use ai_agent_hub_project_ome.Base.{ℕ, String, Option, none, some, List, true, Bool, if◌then◌else◌}
use ai_agent_hub_project_ome.Base.Exn.{
  Outcome, ok, raised, stopped, Exec, ◌>>=◌, error, runtime_error,
}
use ai_agent_hub_project_ome.Agent.Runtime.{lift}

-- `json.dumps(dict(message), separators=(",", ":"))` and `str.encode`
pub record MessageCodec (M : Type 0) : Type 0 where
  pub dumps : M → Outcome String
  pub encode : String → List ℕ

-- `Redis.from_url`, and the calls of the client that it gives
pub record Redis (W R : Type 0) : Type 0 where
  pub from_url : String → Outcome R
  pub publish_to : R → String → String → Exec W Unit
  pub aclose : R → Exec W Unit

-- `RedisBroker(url)`, where `none` says that the package cannot be imported
unfoldable pub make_redis : {W R : Type 0} → Option (Redis W R) → String → Outcome R
make_redis none url = raised (error runtime_error "Install omega-agent-os[redis]")
make_redis (some redis) url = redis.from_url url

module _ {W R : Type 0} (redis : Redis W R) (client : R) where
  unfoldable pub publish_redis : {M : Type 0} → MessageCodec M → String → M → Exec W Unit
  publish_redis codec topic message = do
    text ← lift (codec.dumps message)
    redis.publish_to client topic text

  unfoldable pub close_redis : Exec W Unit
  close_redis = redis.aclose client

-- The calls of `aio_pika` on connections `C`, channels `H` and exchanges `X`. `declare_topic` is
-- `declare_exchange(name, ExchangeType.TOPIC, durable=…)`.
pub record AioPika (W C H X : Type 0) : Type 0 where
  pub connect_robust : String → Exec W C
  pub is_closed : C → W → Bool
  pub open_channel : C → Exec W H
  pub declare_topic : H → String → Bool → Exec W X
  pub publish_on : X → List ℕ → String → Exec W Unit
  pub close_connection : C → Exec W Unit

pub record RabbitMqBroker (C : Type 0) : Type 0 where
  pub url : String
  pub connection : Option C

-- `RabbitMQBroker(url)`, where `none` says that the package cannot be imported
unfoldable pub make_rabbit :
    {W C H X : Type 0} → Option (AioPika W C H X) → String → Outcome (RabbitMqBroker C)
make_rabbit none url = raised (error runtime_error "Install omega-agent-os[rabbitmq]")
make_rabbit (some pika) url = ok (record { url = url; connection = none })

module _ {W C : Type 0} where
  -- A call that leaves the broker itself as it is.
  abbrev pub on_world : {A : Type 0} → Exec W A → Exec (RabbitMqBroker C × W) A
  on_world call (b, w) = let (r, w') = call w in (r, (b, w'))

  abbrev pub connected : RabbitMqBroker C → Outcome C → W → Outcome C × (RabbitMqBroker C × W)
  connected b (ok c) w = (ok c, (record b { connection = some c }, w))
  connected b (raised e) w = (raised e, (b, w))
  connected b (stopped x) w = (stopped x, (b, w))

module _ {W C H X : Type 0} (pika : AioPika W C H X) where
  -- `self._connection = await connect_robust(self._url)`
  abbrev pub connect : Exec (RabbitMqBroker C × W) C
  connect (b, w) = let (r, w') = pika.connect_robust b.url w in connected b r w'

  -- The connection that is there, or a new one if there is none or it is closed.
  unfoldable pub held : Option C → Exec (RabbitMqBroker C × W) C
  held none s = connect s
  held (some c) (b, w) = if pika.is_closed c w then connect (b, w) else (ok c, (b, w))

  -- `_channel()`
  unfoldable pub channel_of : Exec (RabbitMqBroker C × W) H
  unfolding held
  channel_of = do c ← λ s. held s.0.connection s; on_world (pika.open_channel c)

  unfoldable pub publish_rabbit :
      {M : Type 0} → MessageCodec M → String → M → Exec (RabbitMqBroker C × W) Unit
  unfolding channel_of
  publish_rabbit codec topic message = do
    channel ← channel_of
    exchange ← on_world (pika.declare_topic channel "omega" true)
    text ← lift (codec.dumps message)
    on_world (pika.publish_on exchange (codec.encode text) topic)

  abbrev pub close_held : Option C → Exec (RabbitMqBroker C × W) Unit
  close_held none s = (ok tt, s)
  close_held (some c) (b, w) =
      if pika.is_closed c w then (ok tt, (b, w)) else on_world (pika.close_connection c) (b, w)

  unfoldable pub close_rabbit : Exec (RabbitMqBroker C × W) Unit
  close_rabbit s = close_held s.0.connection s
