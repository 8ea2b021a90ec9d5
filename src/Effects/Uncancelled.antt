-- ===== src/Effects/Uncancelled.antt =====
-- Rules by which a block is seen to raise no CancelledError of its own.
use symmetrical_disco.Base.{
  ◌≡◌, refl, Bool, true, false, Option, none, some, inl, inr, Bool-cases, if◌then◌else◌,
}
use symmetrical_disco.Models.{Time}
use symmetrical_disco.Repository.{Table}
use symmetrical_disco.Effects.{
  World, M, Result, ok, raise, Error, cancelled_error, key_error, index_error, pure, throw, ◌>>=◌,
  continue, advance, transact, query, send, ask, read_clock, measure, on_none, Command, Measurement,
}

abbrev pub is_cancel : Error → Bool
is_cancel cancelled_error = true
is_cancel e = false

abbrev pub is_cancellation : {A : Type 0} → Result A → Bool
is_cancellation (ok a) = false
is_cancellation (raise e) = is_cancel e

pub record Uncancelled {A : Type 0} (m : M A) : Type 0 where
  pub never : (w : World) → is_cancellation (m w).0 ≡ false

module _ {A : Type 0} where
  pub unhurt-pure : (a : A) → Uncancelled (pure a)
  unfolding pure
  unhurt-pure a = record { never = λ w. refl }

  unhurt-throw : (e : Error) → is_cancel e ≡ false → Uncancelled (throw {A = A} e)
  unfolding throw
  unhurt-throw e h = record { never = λ w. h }

  pub unhurt-key_error : Uncancelled (throw {A = A} key_error)
  unhurt-key_error = unhurt-throw key_error refl

  pub unhurt-index_error : Uncancelled (throw {A = A} index_error)
  unhurt-index_error = unhurt-throw index_error refl

  pub unhurt-if :
      (b : Bool) (m n : M A) → Uncancelled m → Uncancelled n → Uncancelled (if b then m else n)
  unhurt-if true m n km kn = km
  unhurt-if false m n km kn = kn

  pub unhurt-on_none :
      {B : Type 0} (o : Option B) (m : M A) (f : B → M A)
      → Uncancelled m
      → ((b : B) → Uncancelled (f b))
      → Uncancelled (on_none o m f)
  unhurt-on_none none m f km kf = km
  unhurt-on_none (some b) m f km kf = kf b

  pub unhurt-transact : (f : Time → Table → Table × A) → Uncancelled (transact f)
  unfolding transact
  unhurt-transact f = record { never = λ w. refl }

  pub unhurt-query : (f : Table → A) → Uncancelled (query f)
  unfolding query
  unhurt-query f = record { never = λ w. refl }

  pub unhurt-ask : (a : A) → Uncancelled (ask a)
  unfolding ask
  unhurt-ask a = record {
    never = λ w. elim (Bool-cases (advance w).redis_up) [ inl e ↦ rw e refl | inr e ↦ rw e refl ];
  }

pub unhurt-send : (c : Command) → Uncancelled (send c)
unfolding send
unhurt-send c = record {
  never = λ w. elim (Bool-cases (advance w).redis_up) [ inl e ↦ rw e refl | inr e ↦ rw e refl ];
}

pub unhurt-read_clock : Uncancelled read_clock
unfolding read_clock
unhurt-read_clock = record { never = λ w. refl }

pub unhurt-measure : (m : Measurement) → Uncancelled (measure m)
unfolding measure
unhurt-measure m = record { never = λ w. refl }

module _ {A B : Type 0} where
  continue-never :
      (f : A → M B) (r : Result A) (v : World)
      → is_cancellation r ≡ false
      → ((a : A) → Uncancelled (f a))
      → is_cancellation (continue f r v).0 ≡ false
  continue-never f (ok a) v h k = (k a).never v
  continue-never f (raise e) v h k = h

  pub unhurt-bind :
      (m : M A) (f : A → M B)
      → Uncancelled m
      → ((a : A) → Uncancelled (f a))
      → Uncancelled (m >>= f)
  unfolding ◌>>=◌
  unhurt-bind m f km kf = record { never = λ w. continue-never f (m w).0 (m w).1 (km.never w) kf }

pub ruleset unhurt_rules = (
  unhurt-pure, unhurt-key_error, unhurt-index_error, unhurt-if, unhurt-on_none, unhurt-query,
  unhurt-transact, unhurt-ask, unhurt-send, unhurt-read_clock, unhurt-measure, unhurt-bind,
)
