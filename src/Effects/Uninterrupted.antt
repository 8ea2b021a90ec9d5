-- ===== src/Effects/Uninterrupted.antt =====
-- Rules by which a block that runs alone leaves no other process behind, and Redis as it was.
use symmetrical_disco.Base.{
  ◌≡◌, refl, Bool, true, false, Option, none, some, List, [], ◌∷◌, ◌++◌, inl, inr, Bool-cases,
  if◌then◌else◌,
}
use symmetrical_disco.Models.{Time}
use symmetrical_disco.Repository.{Table}
use symmetrical_disco.Effects.{
  World, Moment, M, Result, ok, raise, Error, pure, throw, ◌>>=◌, continue, arrive, advance,
  transact, query, send, read_clock, measure, on_none, Command, Measurement,
}

-- No moments are to come, and Redis is as it is said to be.
abbrev pub IsAlone : Bool → World → Type 0
IsAlone up w = (w.future ≡ []) × (w.redis_up ≡ up)

pub record StaysAlone {A : Type 0} (m : M A) : Type 0 where
  pub stays : (up : Bool) (w : World) → IsAlone up w → IsAlone up (m w).1

advance-IsAlone : (up : Bool) (w : World) → IsAlone up w → IsAlone up (advance w)
advance-IsAlone up w a = arrive-IsAlone w.future a.0
  where
    arrive-IsAlone : (ms : List Moment) → ms ≡ [] → IsAlone up (arrive ms w)
    arrive-IsAlone [] e = a
    arrive-IsAlone (m ∷ ms) e = cc

module _ {A : Type 0} where
  pub alone-pure : (a : A) → StaysAlone (pure a)
  unfolding pure
  alone-pure a = record { stays = λ up w h. h }

  pub alone-throw : (e : Error) → StaysAlone (throw {A = A} e)
  unfolding throw
  alone-throw e = record { stays = λ up w h. h }

  pub alone-if :
      (b : Bool) (m n : M A) → StaysAlone m → StaysAlone n → StaysAlone (if b then m else n)
  alone-if true m n km kn = km
  alone-if false m n km kn = kn

  pub alone-on_none :
      {B : Type 0} (o : Option B) (m : M A) (f : B → M A)
      → StaysAlone m
      → ((b : B) → StaysAlone (f b))
      → StaysAlone (on_none o m f)
  alone-on_none none m f km kf = km
  alone-on_none (some b) m f km kf = kf b

  pub alone-transact : (f : Time → Table → Table × A) → StaysAlone (transact f)
  unfolding transact
  alone-transact f = record { stays = λ up w h. advance-IsAlone up w h }

  pub alone-query : (f : Table → A) → StaysAlone (query f)
  unfolding query
  alone-query f = record { stays = λ up w h. advance-IsAlone up w h }

pub alone-send : (c : Command) → StaysAlone (send c)
unfolding send
alone-send c = record {
  stays = λ up w h. elim (Bool-cases (advance w).redis_up) [
    | inl e ↦ rw e (rw e at (advance-IsAlone up w h))
    | inr e ↦ rw e (advance-IsAlone up w h)
  ];
}

pub alone-read_clock : StaysAlone read_clock
unfolding read_clock
alone-read_clock = record { stays = λ up w h. h }

pub alone-measure : (m : Measurement) → StaysAlone (measure m)
unfolding measure
alone-measure m = record { stays = λ up w h. h }

module _ {A B : Type 0} where
  continue-IsAlone :
      (f : A → M B) (up : Bool) (r : Result A) (v : World)
      → IsAlone up v
      → ((a : A) → StaysAlone (f a))
      → IsAlone up (continue f r v).1
  continue-IsAlone f up (ok a) v h k = (k a).stays up v h
  continue-IsAlone f up (raise e) v h k = h

  pub alone-bind :
      (m : M A) (f : A → M B) → StaysAlone m → ((a : A) → StaysAlone (f a)) → StaysAlone (m >>= f)
  unfolding ◌>>=◌
  alone-bind m f km kf = record {
    stays = λ up w h. continue-IsAlone f up (m w).0 (m w).1 (km.stays up w h) kf;
  }

pub ruleset alone_rules = (
  alone-pure, alone-throw, alone-if, alone-on_none, alone-query, alone-transact, alone-send,
  alone-read_clock, alone-measure, alone-bind,
)

-- A command that is sent while Redis is up and no other process acts.
pub send-alone :
    (c : Command) (w : World)
    → IsAlone true w
    → ((send c w).0 ≡ ok tt) × ((send c w).1 ≡ record w { sent = w.sent ++ c ∷ [] })
unfolding send
send-alone c w h = rw (h.0, h.1) (refl, refl)
