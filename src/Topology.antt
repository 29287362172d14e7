-- ===== src/Topology.antt =====
-- backend/src/shared/queue/topology.js: the names of the exchanges and queues, and what
-- `assertTopology` declares on a channel, in the order of its calls. A name is the list of its code
-- points. `durable` is not kept: it is the same in every call.
pub mod Names
pub mod Routes
pub mod Expiry
use hook_tracker.Prelude.{ℕ, List, [], ◌∷◌, ◌++◌, Option, none, some, map, codes, find}
use hook_tracker.Retry.{Level, LevelName, m1, m5, m30, h2, h6, s10}
use hook_tracker.World.{Place, delivery_queue, retry_queue, throttle_queue, dead_letter_queue}
use hook_tracker.Publisher.{level_eq}

abbrev pub Name : Type 0
Name = List ℕ

-- The strings that the constructors of `LevelName` stand for.
abbrev pub level_text : LevelName → Name
level_text m1 = codes "1m"
level_text m5 = codes "5m"
level_text m30 = codes "30m"
level_text h2 = codes "2h"
level_text h6 = codes "6h"
level_text s10 = codes "10s"

pub record Exchanges : Type 0 where
  pub main : Name
  pub retry : Name
  pub dlx : Name

pub record DelayQueue : Type 0 where
  pub level : LevelName
  pub delay_ms : ℕ
  pub queue : Name
  pub routing_key : Name

pub record Topology : Type 0 where
  pub namespace : Name
  pub exchanges : Exchanges
  pub delivery_queue_name : Name
  pub delivery_routing_key : Name
  pub retry_queues : List DelayQueue
  pub throttle_queue_entry : DelayQueue
  pub dead_letter_queue_name : Name
  pub dead_letter_routing_key : Name

abbrev pub throttle_level : LevelName
throttle_level = s10

abbrev pub retry_queue_of : Name → Level → DelayQueue
retry_queue_of namespace level = record {
  level = level.level;
  delay_ms = level.delay_ms;
  queue = namespace ++ (codes ".retry." ++ level_text level.level);
  routing_key = codes "retry." ++ level_text level.level;
}

unfoldable pub create_topology : Name → List Level → ℕ → Topology
create_topology namespace schedule throttle_delay_ms = record {
  namespace = namespace;
  exchanges = record {
    main = namespace ++ codes ".exchange";
    retry = namespace ++ codes ".retry";
    dlx = namespace ++ codes ".dlx";
  };
  delivery_queue_name = namespace ++ codes ".delivery";
  delivery_routing_key = codes "delivery";
  retry_queues = map (retry_queue_of namespace) schedule;
  throttle_queue_entry = record {
    level = throttle_level;
    delay_ms = throttle_delay_ms;
    queue = namespace ++ (codes ".throttle." ++ level_text throttle_level);
    routing_key = codes "throttle." ++ level_text throttle_level;
  };
  dead_letter_queue_name = namespace ++ codes ".dlq";
  dead_letter_routing_key = codes "dlq";
}

pub record Arguments : Type 0 where
  pub message_ttl : ℕ
  pub dead_letter_exchange : Name
  pub dead_letter_routing_key : Name

unfoldable pub delay_queue_arguments : Topology → ℕ → Arguments
delay_queue_arguments t delay_ms = record {
  message_ttl = delay_ms;
  dead_letter_exchange = t.exchanges.main;
  dead_letter_routing_key = t.delivery_routing_key;
}

-- `assertExchange` of a direct exchange, `assertQueue`, and `bindQueue` of a queue to an exchange
-- under a key.
pub data Declaration : Type 0 where
  direct_exchange : Name → Declaration
  queue : Name → Option Arguments → Declaration
  binding : Name → Name → Name → Declaration

-- The loop over the delay queues.
unfoldable pub delay_declarations : Topology → List DelayQueue → List Declaration
unfolding delay_queue_arguments
delay_declarations t [] = []
delay_declarations t (level ∷ levels) =
    queue level.queue (some (delay_queue_arguments t level.delay_ms))
    ∷ binding level.queue t.exchanges.retry level.routing_key
    ∷ delay_declarations t levels

unfoldable pub assert_topology : Topology → List Declaration
unfolding delay_declarations
assert_topology t =
    direct_exchange t.exchanges.main
      ∷ direct_exchange t.exchanges.retry
      ∷ direct_exchange t.exchanges.dlx
      ∷ queue t.delivery_queue_name none
      ∷ binding t.delivery_queue_name t.exchanges.main t.delivery_routing_key
      ∷ delay_declarations t (t.retry_queues ++ t.throttle_queue_entry ∷ [])
    ++ queue t.dead_letter_queue_name none
      ∷ binding t.dead_letter_queue_name t.exchanges.dlx t.dead_letter_routing_key
      ∷ []

unfoldable pub all_queue_names : Topology → List Name
all_queue_names t =
    t.delivery_queue_name ∷ map (λ level. level.queue) t.retry_queues
    ++ t.throttle_queue_entry.queue ∷ t.dead_letter_queue_name ∷ []

-- The exchange and the routing key of a message that backend/src/shared/queue/publisher.js posts,
-- by the place that the model has it go to. `none` is the exception of `delayLevel`.
unfoldable pub posted_to : Topology → Place → Option (Name × Name)
posted_to t delivery_queue = some (t.exchanges.main, t.delivery_routing_key)
posted_to t (retry_queue level) = elim (find (λ entry. level_eq entry.level level) t.retry_queues) [
  | none ↦ none
  | some target ↦ some (t.exchanges.retry, target.routing_key)
]
posted_to t throttle_queue = some (t.exchanges.retry, t.throttle_queue_entry.routing_key)
posted_to t dead_letter_queue = some (t.exchanges.dlx, t.dead_letter_routing_key)
