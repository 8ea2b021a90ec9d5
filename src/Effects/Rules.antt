-- ===== src/Effects/Rules.antt =====
-- Rules by which a handler is seen to change the table by statements of app/repository.py only.
use symmetrical_disco.Base.{
  Bool, true, false, Option, none, some, List, [], ◌∷◌, inl, inr, Bool-cases, if◌then◌else◌, All,
}
use symmetrical_disco.Models.{Time}
use symmetrical_disco.Repository.{Table}
use symmetrical_disco.Repository.Steps.{
  Step, Steps, here, Steps-trans, Steps-one, create, sync, claim, complete, fail, retry, defer,
  reset, promote, begin_progress, cancel_waiting, ask_cancel, cancel, report,
}
use symmetrical_disco.Effects.{
  World, Moment, M, Result, ok, raise, Error, integrity_error, pure, throw, ◌>>=◌, continue, arrive,
  advance, transact, query, send, ask, read_clock, measure, on_none, IsLawful, RunsByStatements,
  Command, Measurement, recover, except_integrity,
}

-- The statements between two worlds.
abbrev Between : World → World → Type 0
Between w v = Steps w.table v.table × IsLawful v

arrive-Between :
    (ms : List Moment) (w : World)
    → All (λ m. (t : Table) → Steps t (m.others t)) ms
    → IsLawful w
    → Between w (arrive ms w)
arrive-Between [] w h l = (here, l)
arrive-Between (m ∷ ms) w h l = (h.0 w.table, h.1)

advance-Between : (w : World) → IsLawful w → Between w (advance w)
advance-Between w l = arrive-Between w.future w l l

module _ {A : Type 0} where
  pub runs-pure : (a : A) → RunsByStatements (pure a)
  unfolding pure
  runs-pure a = record { run = λ w l. (here, l) }

  pub runs-throw : (e : Error) → RunsByStatements (throw {A = A} e)
  unfolding throw
  runs-throw e = record { run = λ w l. (here, l) }

  pub runs-if :
      (b : Bool) (m n : M A)
      → RunsByStatements m
      → RunsByStatements n
      → RunsByStatements (if b then m else n)
  runs-if true m n km kn = km
  runs-if false m n km kn = kn

  pub runs-on_none :
      {B : Type 0} (o : Option B) (m : M A) (f : B → M A)
      → RunsByStatements m
      → ((b : B) → RunsByStatements (f b))
      → RunsByStatements (on_none o m f)
  runs-on_none none m f km kf = km
  runs-on_none (some b) m f km kf = kf b

  pub runs-transact :
      (f : Time → Table → Table × A)
      → ((now : Time) (t : Table) → Steps t (f now t).0)
      → RunsByStatements (transact f)
  unfolding transact
  runs-transact f h = record {
    run = λ w l.
        let (s, m) = advance-Between w l in
        (Steps-trans s (h (advance w).now (advance w).table), m);
  }

  pub runs-query : (f : Table → A) → RunsByStatements (query f)
  unfolding query
  runs-query f = record { run = λ w l. advance-Between w l }

  pub runs-ask : (a : A) → RunsByStatements (ask a)
  unfolding ask
  runs-ask a = record {
    run = λ w l. elim (Bool-cases (advance w).redis_up) [
      | inl e ↦ rw e (advance-Between w l)
      | inr e ↦ rw e (advance-Between w l)
    ];
  }

pub runs-send : (c : Command) → RunsByStatements (send c)
unfolding send
runs-send c = record {
  run = λ w l. elim (Bool-cases (advance w).redis_up) [
    | inl e ↦ rw e (advance-Between w l)
    | inr e ↦ rw e (advance-Between w l)
  ];
}

pub runs-read_clock : RunsByStatements read_clock
unfolding read_clock
runs-read_clock = record { run = λ w l. (here, l) }

pub runs-measure : (m : Measurement) → RunsByStatements (measure m)
unfolding measure
runs-measure m = record { run = λ w l. (here, l) }

module _ {A B : Type 0} where
  continue-Between :
      (f : A → M B) (r : Result A) (w v : World)
      → ((a : A) → RunsByStatements (f a))
      → Between w v
      → Between w (continue f r v).1
  continue-Between f (ok a) w v h b = let (s, l) = (h a).run v b.1 in (Steps-trans b.0 s, l)
  continue-Between f (raise e) w v h b = b

  pub runs-bind :
      (m : M A) (f : A → M B)
      → RunsByStatements m
      → ((a : A) → RunsByStatements (f a))
      → RunsByStatements (m >>= f)
  unfolding ◌>>=◌
  runs-bind m f km kf = record { run = λ w l. continue-Between f (m w).0 w (m w).1 kf (km.run w l) }

recover-Between :
    {A : Type 0} (h : M A) (r : Result A) (w v : World)
    → RunsByStatements h
    → Between w v
    → Between w (recover h r v).1
recover-Between h (raise integrity_error) w v k b =
    let (s, l) = k.run v b.1 in (Steps-trans b.0 s, l)
recover-Between h (ok a) w v k b = b
recover-Between h _ w v k b = b

pub runs-except_integrity :
    {A : Type 0} (m h : M A)
    → RunsByStatements m
    → RunsByStatements h
    → RunsByStatements (except_integrity m h)
unfolding except_integrity
runs-except_integrity m h km kh = record {
  run = λ w l. recover-Between h (m w).0 w (m w).1 kh (km.run w l);
}

-- A handler that is one statement.
pub runs-statement :
    {A : Type 0} (f : Time → Table → Table × A)
    → ((now : Time) (t : Table) → Step t (f now t).0)
    → RunsByStatements (transact f)
runs-statement f h = runs-transact f (λ now t. Steps-one (h now t))

pub ruleset runs_rules = (
  runs-pure, runs-throw, runs-if, runs-on_none, runs-query, runs-ask, runs-send, runs-read_clock,
  runs-measure, runs-bind, runs-except_integrity, runs-statement,
)

pub ruleset statements = (
  create, sync, claim, complete, fail, retry, defer, reset, promote, begin_progress, cancel_waiting,
  ask_cancel, cancel, report,
)
