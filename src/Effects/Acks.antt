-- ===== src/Effects/Acks.antt =====
-- Which messages have been acknowledged, and rules by which a block acknowledges none.
use symmetrical_disco.Base.{
  ◌≡◌, refl, ap, ◌∙◌, String, Bool, true, false, Option, none, some, List, [], ◌∷◌, ◌++◌, inl, inr,
  Bool-cases, if◌then◌else◌,
}
use mathlib.Core.List.{append-nil}
use symmetrical_disco.Models.{Time, JobId}
use symmetrical_disco.Repository.{Table}
use symmetrical_disco.Effects.{
  World, Moment, M, Result, ok, raise, Error, pure, throw, ◌>>=◌, continue, arrive, advance,
  transact, query, send, read_clock, measure, on_none, Command, xadd, xack, zadd, zrem, Measurement,
  Message,
}

-- The acknowledgements among some commands, each with its stream, its group and its message.
abbrev pub acks_of : List Command → List Command
acks_of [] = []
acks_of (xack stream group m ∷ cs) = xack stream group m ∷ acks_of cs
acks_of (xadd stream m ∷ cs) = acks_of cs
acks_of (zadd zset i at ∷ cs) = acks_of cs
acks_of (zrem zset is ∷ cs) = acks_of cs

pub acks_of-append : (b c : List Command) → acks_of (b ++ c) ≡ acks_of b ++ acks_of c
acks_of-append [] c = refl
acks_of-append (xack stream group m ∷ b) c = ap (λ l. xack stream group m ∷ l) (acks_of-append b c)
acks_of-append (xadd stream m ∷ b) c = acks_of-append b c
acks_of-append (zadd zset i at ∷ b) c = acks_of-append b c
acks_of-append (zrem zset is ∷ b) c = acks_of-append b c

abbrev pub acked : World → List Command
acked w = acks_of w.sent

-- A block that acknowledges nothing, in any world.
pub record AcksNothing {A : Type 0} (m : M A) : Type 0 where
  pub quiet : (w : World) → acked (m w).1 ≡ acked w

arrive-acked : (ms : List Moment) (w : World) → acked (arrive ms w) ≡ acked w
arrive-acked [] w = refl
arrive-acked (m ∷ ms) w = refl

send-acked : (c : Command) (w : World) → acks_of (c ∷ []) ≡ [] → acked (send c w).1 ≡ acked w
unfolding send
send-acked c w e = elim (Bool-cases (advance w).redis_up) [
  | inl up ↦ rw up (
      acks_of-append (advance w).sent (c ∷ [])
      ∙ rw e (append-nil (acked (advance w)))
      ∙ arrive-acked w.future w)
  | inr down ↦ rw down (arrive-acked w.future w)
]

pub quiet-xadd : (stream : String) (m : Message) → AcksNothing (send (xadd stream m))
quiet-xadd stream m = record { quiet = λ w. send-acked (xadd stream m) w refl }

pub quiet-zadd : (zset : String) (i : JobId) (at : Time) → AcksNothing (send (zadd zset i at))
quiet-zadd zset i at = record { quiet = λ w. send-acked (zadd zset i at) w refl }

module _ {A : Type 0} where
  pub quiet-pure : (a : A) → AcksNothing (pure a)
  unfolding pure
  quiet-pure a = record { quiet = λ w. refl }

  pub quiet-throw : (e : Error) → AcksNothing (throw {A = A} e)
  unfolding throw
  quiet-throw e = record { quiet = λ w. refl }

  pub quiet-if :
      (b : Bool) (m n : M A) → AcksNothing m → AcksNothing n → AcksNothing (if b then m else n)
  quiet-if true m n km kn = km
  quiet-if false m n km kn = kn

  pub quiet-on_none :
      {B : Type 0} (o : Option B) (m : M A) (f : B → M A)
      → AcksNothing m
      → ((b : B) → AcksNothing (f b))
      → AcksNothing (on_none o m f)
  quiet-on_none none m f km kf = km
  quiet-on_none (some b) m f km kf = kf b

  pub quiet-transact : (f : Time → Table → Table × A) → AcksNothing (transact f)
  unfolding transact
  quiet-transact f = record { quiet = λ w. arrive-acked w.future w }

  pub quiet-query : (f : Table → A) → AcksNothing (query f)
  unfolding query
  quiet-query f = record { quiet = λ w. arrive-acked w.future w }

pub quiet-read_clock : AcksNothing read_clock
unfolding read_clock
quiet-read_clock = record { quiet = λ w. refl }

pub quiet-measure : (m : Measurement) → AcksNothing (measure m)
unfolding measure
quiet-measure m = record { quiet = λ w. refl }

module _ {A B : Type 0} where
  continue-acked :
      (f : A → M B) (r : Result A) (v : World)
      → ((a : A) → AcksNothing (f a))
      → acked (continue f r v).1 ≡ acked v
  continue-acked f (ok a) v k = (k a).quiet v
  continue-acked f (raise e) v k = refl

  pub quiet-bind :
      (m : M A) (f : A → M B)
      → AcksNothing m
      → ((a : A) → AcksNothing (f a))
      → AcksNothing (m >>= f)
  unfolding ◌>>=◌
  quiet-bind m f km kf = record { quiet = λ w. continue-acked f (m w).0 (m w).1 kf ∙ km.quiet w }

pub ruleset quiet_rules = (
  quiet-pure, quiet-throw, quiet-if, quiet-on_none, quiet-query, quiet-transact, quiet-read_clock,
  quiet-measure, quiet-bind, quiet-xadd, quiet-zadd,
)

-- How a message stands after its handling, over the commands `before` and `after` it: acknowledged by
-- `last`, the last of all commands, if the outcome says so; otherwise, and also if the handling
-- raised, left for another delivery. Nothing else is acknowledged.
pub data Handled {A : Type 0} (acks : A → Bool) (last : Command) (before : List Command)
    (r : Result A) (after : List Command) : Type 0 where
  acknowledged :
      (a : A) (others : List Command)
      → r ≡ ok a
      → acks a ≡ true
      → after ≡ others ++ last ∷ []
      → acks_of others ≡ acks_of before
      → Handled acks last before r after
  left :
      (a : A)
      → r ≡ ok a
      → acks a ≡ false
      → acks_of after ≡ acks_of before
      → Handled acks last before r after
  failed :
      (e : Error) → r ≡ raise e → acks_of after ≡ acks_of before → Handled acks last before r after
