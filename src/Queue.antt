-- ===== src/Queue.antt =====
-- app/queue/producer.py, app/queue/delayed.py and app/queue/consumer.py: what is written to the
-- streams and to the delayed set, and how a worker reads. Redis is not modelled: its replies are
-- arguments.
pub mod Priority
pub mod Runs
use symmetrical_disco.Base.{String, Option, none, some, List, [], ◌∷◌, ◌++◌, ℕ}
use symmetrical_disco.Models.{Json, object, Fields, JobId, Time}
use symmetrical_disco.Effects.{
  M, Message, MessageId, Command, redis_error, throw, xadd, xack, zadd, zrem, canonical, pure,
  ◌>>=◌, ◌>>◌, send, ask,
}

-- `extract(carrier) if carrier else None`: an empty dict is false.
abbrev pub carried : Option Json → Option Json
carried none = none
carried (some (object Fields.end)) = none
carried (some c) = some c

unfoldable pub message_fields : JobId → Option Json → Message
message_fields i carrier = record { job_id = some (canonical i); trace = carried carrier }

unfoldable pub enqueue : String → JobId → Option Json → M (Unit {0})
enqueue stream i carrier = send (xadd stream (message_fields i carrier))

unfoldable pub schedule : String → JobId → Time → M (Unit {0})
schedule zset i score = send (zadd zset i score)

-- The pipeline of `promote`. Its commands run in order, each at a moment of its own, and the first that
-- fails is the last: Redis is down from then on. An error reply to one command, after which Redis
-- would run the others, is not modelled.
unfoldable pub send_all : List (String × Message) → M (Unit {0})
send_all [] = pure tt
send_all ((stream, m) ∷ rest) = do send (xadd stream m); send_all rest

unfoldable pub promote : String → List (String × Message) → List JobId → M (Unit {0})
promote zset routed [] = pure tt
promote zset routed (i ∷ is) = do send_all routed; send (zrem zset (i ∷ is))

unfoldable pub ack : String → String → MessageId → M (Unit {0})
ack stream group m = send (xack stream group m)

-- The reply of XGROUP CREATE: done, the error BUSYGROUP, or another error.
pub data GroupCreation : Type 0 where
  created busy refused : GroupCreation

unfoldable pub ensure_group : GroupCreation → M (Unit {0})
ensure_group reply = ask reply >>= group_created
  where
    group_created : GroupCreation → M (Unit {0})
    group_created refused = throw redis_error
    group_created r = pure tt

-- The ids that ZRANGEBYSCORE gives.
unfoldable pub due_job_ids : List JobId → M (List JobId)
due_job_ids reply = ask reply

abbrev pub Delivery : Type 0
Delivery = String × MessageId × Message

-- A reply of XREADGROUP: the streams, each with its messages.
abbrev pub Reply : Type 0
Reply = List (String × List (MessageId × Message))

unfoldable pub flatten_one : String → List (MessageId × Message) → List Delivery
flatten_one stream [] = []
flatten_one stream ((m, fields) ∷ rest) = (stream, m, fields) ∷ flatten_one stream rest

unfoldable pub flatten : Reply → List Delivery
unfolding flatten_one
flatten [] = []
flatten ((stream, messages) ∷ rest) = flatten_one stream messages ++ flatten rest

-- What `read_priority` returns once a stream has answered.
abbrev pub first_answer : List Delivery → M (List Delivery) → M (List Delivery)
first_answer [] next = next
first_answer (d ∷ ds) next = pure (d ∷ ds)

-- `probe` is the non-blocking reply of one stream, `blocked` the reply of the read that blocks.
unfoldable pub read_priority : (String → Reply) → Reply → List String → M (List Delivery)
read_priority probe blocked [] = do r ← ask blocked; pure (flatten r)
read_priority probe blocked (stream ∷ streams) =
    let rest = read_priority probe blocked streams in
    ask (probe stream) >>= λ r. first_answer (flatten r) rest
