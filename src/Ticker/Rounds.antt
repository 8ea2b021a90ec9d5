-- ===== src/Ticker/Rounds.antt =====
-- An iteration of the main loop of app/ticker/runner.py as statements of app/repository.py.
use symmetrical_disco.Base.{ℕ, ◌+◌, Option, none, some, leb, Bool-cases, inl, inr}
use symmetrical_disco.Models.{Time}
use symmetrical_disco.Config.{Settings}
use symmetrical_disco.Health.{beat}
use symmetrical_disco.Repository.Steps.{Steps, here, Steps-trans}
use symmetrical_disco.Effects.{World, Result, ok, raise, IsLawful}
use symmetrical_disco.Ticker.{promote_due, reconcile_orphans, reap_stale}
use symmetrical_disco.Ticker.Runs.{promote_due-runs, reconcile_orphans-runs, reap_stale-runs}
use symmetrical_disco.Ticker.Loop.{
  Clocks, Replies, Ticked, try_next, reap_due, after_reconcile, reconcile_due, tick,
}

abbrev Between : World → World → Type 0
Between w v = Steps w.table v.table × IsLawful v

then_Between :
    {A : Type 0} (c : Clocks) (k : A → World → Ticked) (r : Result A) (w v : World)
    → Between w v
    → ((a : A) (u : World) → IsLawful u → Between u (k a u).1)
    → Between w (try_next c k (r, v)).1
then_Between c k (ok a) w v b next = let (s, l) = next a v b.1 in (Steps-trans b.0 s, l)
then_Between c k (raise e) w v b next = b

module _ (s : Settings) (r : Replies) where
  reap_due-Between :
      (now : Time) (n : ℕ) (c : Clocks) (w : World)
      → IsLawful w
      → Between w (reap_due s r now n c w).1
  unfolding reap_due
  reap_due-Between now n c w l = elim (Bool-cases (leb (c.last_reap + s.reaper_interval) now)) [
    | inl e ↦ rw e (
        then_Between c _ (reap_stale s r.claimed w).0 w (reap_stale s r.claimed w).1
          ((reap_stale-runs s r.claimed).run w l) (λ _ u m. (here, m)))
    | inr e ↦ rw e (here, l)
  ]

  after_reconcile-Between :
      (now : Time) (n : ℕ) (c : Clocks) (o : Option ℕ) (w : World)
      → IsLawful w
      → Between w (after_reconcile s r now n c o w).1
  unfolding after_reconcile
  after_reconcile-Between now n c none w l = (here, l)
  after_reconcile-Between now n c (some k) w l = reap_due-Between now n _ w l

  reconcile_due-Between :
      (now : Time) (n : ℕ) (c : Clocks) (w : World)
      → IsLawful w
      → Between w (reconcile_due s r now n c w).1
  unfolding reconcile_due
  reconcile_due-Between now n c w l =
      elim (Bool-cases (leb (c.last_reconcile + s.reconcile_interval) now)) [
        | inl e ↦ rw e (
            then_Between c _ (reconcile_orphans r.fuel s w).0 w (reconcile_orphans r.fuel s w).1
              ((reconcile_orphans-runs r.fuel s).run w l) (after_reconcile-Between now n c))
        | inr e ↦ rw e (reap_due-Between now n c w l)
      ]

  pub tick-Steps :
      (c : Clocks) (w : World)
      → IsLawful w
      → Steps w.table (tick s r c w).1.table × IsLawful (tick s r c w).1
  unfolding tick
  tick-Steps c w l =
      then_Between (record c { heartbeat = beat w.now }) _ (promote_due s r.due w).0 w
        (promote_due s r.due w).1 ((promote_due-runs s r.due).run w l)
        (λ n v. reconcile_due-Between v.now n (record c { heartbeat = beat w.now }) v)
