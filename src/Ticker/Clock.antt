-- ===== src/Ticker/Clock.antt =====
-- The clocks that an iteration of the main loop of app/ticker/runner.py leaves.
use symmetrical_disco.Base.{
  ℕ, ◌+◌, ◌<◌, ◌≡◌, sym, ◌∙◌, true, Option, none, some, arith, leb, Bool-cases, inl, inr,
}
use symmetrical_disco.Models.{Time}
use symmetrical_disco.Config.{Settings}
use symmetrical_disco.Health.{beat}
use symmetrical_disco.Effects.{World, Result, ok, raise}
use symmetrical_disco.Ticker.{promote_due, reconcile_orphans, reap_stale}
use symmetrical_disco.Ticker.Survival.{finished, caught-finished}
use symmetrical_disco.Ticker.Loop.{
  Clocks, Replies, Ticked, try_next, reap_due, after_reconcile, reconcile_due, tick,
}

-- A clock is younger than its interval.
abbrev pub Recent : Settings → Time → Clocks → Type 0
Recent s now c =
    (now < c.last_reconcile + s.reconcile_interval) × (now < c.last_reap + s.reaper_interval)

-- What holds of the clocks of a block that came to its end.
abbrev Leaves : (Clocks → Type 0) → Ticked → Type 0
Leaves P out = finished out.0.0 ≡ true → P out.0.1

try_next-Leaves :
    {A : Type 0} (P : Clocks → Type 0) (c : Clocks) (k : A → World → Ticked) (r : Result A)
    (w : World)
    → ((a : A) (v : World) → Leaves P (k a v))
    → Leaves P (try_next c k (r, w))
try_next-Leaves P c k (ok a) w kept h = kept a w h
try_next-Leaves P c k (raise e) w kept h = let never = sym (caught-finished e) ∙ h in cc

module _ (s : Settings) (r : Replies) (reconciling : 0 < s.reconcile_interval)
    (reaping : 0 < s.reaper_interval) where
  reap_due-Leaves :
      (now : Time) (n : ℕ) (c : Clocks) (w : World)
      → now < c.last_reconcile + s.reconcile_interval
      → Leaves (Recent s now) (reap_due s r now n c w)
  unfolding reap_due
  reap_due-Leaves now n c w early = elim (Bool-cases (leb (c.last_reap + s.reaper_interval) now)) [
    | inl e ↦ rw e (
        try_next-Leaves (Recent s now) c _ (reap_stale s r.claimed w).0 (reap_stale s r.claimed w).1
          (λ _ v h. (early, omega arith)))
    | inr e ↦ rw e (λ h. (early, ground arith))
  ]

  after_reconcile-Leaves :
      (now : Time) (n : ℕ) (c : Clocks) (o : Option ℕ) (w : World)
      → Leaves (Recent s now) (after_reconcile s r now n c o w)
  unfolding after_reconcile
  after_reconcile-Leaves now n c none w = λ h. cc
  after_reconcile-Leaves now n c (some k) w =
      reap_due-Leaves now n (record c { last_reconcile = now }) w (omega arith)

  reconcile_due-Leaves :
      (now : Time) (n : ℕ) (c : Clocks) (w : World)
      → Leaves (Recent s now) (reconcile_due s r now n c w)
  unfolding reconcile_due
  reconcile_due-Leaves now n c w =
      elim (Bool-cases (leb (c.last_reconcile + s.reconcile_interval) now)) [
        | inl e ↦ rw e (
            try_next-Leaves (Recent s now) c _ (reconcile_orphans r.fuel s w).0
              (reconcile_orphans r.fuel s w).1 (after_reconcile-Leaves now n c))
        | inr e ↦ rw e (reap_due-Leaves now n c w (ground arith))
      ]

  tried :
      (c : Clocks) (q : Result ℕ) (v : World)
      → Leaves (Recent s v.now) (try_next c (λ n w. reconcile_due s r w.now n c w) (q, v))
  tried c (ok n) v = reconcile_due-Leaves v.now n c v
  tried c (raise e) v = λ h. let never = sym (caught-finished e) ∙ h in cc

  -- After an iteration in which nothing failed, in any world, the last reconciliation and the last
  -- reaping are younger than their intervals, which are not 0, at the time when its promotion was
  -- over.
  pub tick-Recent :
      (c : Clocks) (w : World)
      → finished (tick s r c w).0.0 ≡ true
      → Recent s (promote_due s r.due w).1.now (tick s r c w).0.1
  unfolding tick
  tick-Recent c w =
      tried (record c { heartbeat = beat w.now }) (promote_due s r.due w).0
        (promote_due s r.due w).1
