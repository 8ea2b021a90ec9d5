-- ===== src/Ticker/Outbox.antt =====
-- An iteration of the main loop of app/ticker/runner.py that runs alone while Redis is up: its
-- promotion and its reconciliation succeed.
use symmetrical_disco.Base.{
  ℕ, ◌+◌, ◌-◌, ◌<◌, ◌≤◌, ◌≡◌, refl, ap, ◌∙◌, String, true, false, Option, none, some, List, [], ◌∷◌,
  ◌++◌, arith, leb, ltb, length, All, Bool-cases, Option-cases, inl, inr,
}
use mathlib.Core.Path.{subst}
use symmetrical_disco.Models.{JobId, Time}
use symmetrical_disco.Config.{Settings}
use symmetrical_disco.Health.{beat}
use symmetrical_disco.Listing.{get_promotion_info}
use symmetrical_disco.Repository.{Table, promote_scheduled_to_pending}
use symmetrical_disco.Repository.Steps.{Steps, promote as promotes}
use symmetrical_disco.Repository.Unique.{IsUnique, Step-IsUnique}
use symmetrical_disco.Ticker.Told.{Told, reconcile_loop-Told}
use symmetrical_disco.Repository.Valid.{IsValid, Steps-IsValid}
use symmetrical_disco.Retry.Decision.{stream_for_priority-some}
use symmetrical_disco.Effects.{
  World, Result, ok, pure, continue, Command, Measurement, Message, zrem, ticker_promoted, ◌>>=◌,
  transact, query, send, ask, read_clock, measure,
}
use symmetrical_disco.Effects.Alone.{alone}
use symmetrical_disco.Queue.{promote, send_all, message_fields}
use symmetrical_disco.Ticker.{
  Info, meta_of, route_due, promote_ids, promote_due, reconcile_loop, report_total,
  reconcile_orphans,
}
use symmetrical_disco.Ticker.Runs.{promote_due-runs}
use symmetrical_disco.Ticker.Unsynced.{unsynced}
use symmetrical_disco.Ticker.Survival.{finished}
use symmetrical_disco.Ticker.Loop.{
  Clocks, Replies, Ticked, try_next, end_tick, reap_due, after_reconcile, reconcile_due, tick,
}
use symmetrical_disco.Ticker.Reconcile.{Done, reconcile_loop-Done}

-- A run that returns, still alone, over the table `t`.
abbrev Returns : {A : Type 0} → Time → Table → Result A × World → Type 0
Returns {A} now t out =
    (a : A) × (c : List Command) × (m : List Measurement) × (out ≡ (ok a, alone true t now c m))

route_due-Returns :
    (s : Settings) (info : Info) (is : List JobId) (w : World)
    → (l : List (String × Message)) × (route_due s info is w ≡ (ok l, w))
unfolding route_due ◌>>=◌
route_due-Returns s info [] w = ([], refl)
route_due-Returns s info (i ∷ is) w =
    let (l, rest) = route_due-Returns s info is w in
    elim (Option-cases (meta_of i info)) [
      | inl gone ↦ (l, rw gone rest)
      | inr (meta, there) ↦
          let (stream, known) = stream_for_priority-some s meta.0 in
          ((stream, message_fields i meta.1) ∷ l, rw (there, known, rest) refl)
    ]

send_all-Returns :
    (l : List (String × Message)) (t : Table) (now : Time) (c : List Command) (m : List Measurement)
    → (d : List Command) × (send_all l (alone true t now c m) ≡ (ok tt, alone true t now d m))
unfolding send_all ◌>>=◌ send
send_all-Returns [] t now c m = (c, refl)
send_all-Returns ((stream, x) ∷ l) t now c m = send_all-Returns l t now _ m

abbrev pub promoted : List JobId → Table → Table
promoted [] t = t
promoted (i ∷ is) t = (promote_scheduled_to_pending (i ∷ is) t).0

promote_due-Returns :
    (s : Settings) (due : List JobId) (t : Table) (now : Time) (c : List Command)
    (m : List Measurement)
    → Returns now (promoted due t) (promote_due s due (alone true t now c m))
unfolding promote_due promote_ids promote ◌>>=◌ transact query send ask measure
promote_due-Returns s [] t now c m = (_, _, _, refl)
promote_due-Returns s (i ∷ is) t now c m =
    let (l, routed) =
      route_due-Returns s (get_promotion_info (i ∷ is) t) (i ∷ is) (alone true t now c m) in
    let (d, sent) = send_all-Returns l t now c m in
    (
      length (i ∷ is),
      d ++ zrem s.delayed_zset (i ∷ is) ∷ [],
      m ++ ticker_promoted (length l) ∷ [],
      rw (routed, sent) refl,
    )

-- The promotion leaves valid rows.
promoted-IsValid :
    (s : Settings) (due : List JobId) (t : Table) → All IsValid t → All IsValid (promoted due t)
promoted-IsValid s due t v =
    let (n, c, m, run) = promote_due-Returns s due t 0 [] [] in
    let (steps, _) = (promote_due-runs s due).run (alone true t 0 [] []) tt in
    Steps-IsValid (subst (Steps t) (ap (λ (out : Result ℕ × World). out.1.table) run) steps) v

pub promoted-IsUnique : (is : List JobId) (t : Table) → IsUnique t → IsUnique (promoted is t)
promoted-IsUnique [] t u = u
promoted-IsUnique (i ∷ is) t u = Step-IsUnique (promotes (i ∷ is) t) u

report_total-table :
    (o : Option ℕ) (w : World)
    → ((report_total o w).0 ≡ ok tt)
      × ((report_total o w).1.table ≡ w.table)
      × ((report_total o w).1.sent ≡ w.sent)
unfolding ◌>>=◌ measure
report_total-table none w = (refl, refl, refl)
report_total-table (some n) w = elim (Bool-cases (ltb 0 n)) [
  | inl some_found ↦ rw some_found (refl, refl, refl)
  | inr none_found ↦ rw none_found (refl, refl, refl)
]

-- Every row of the table that is older than `cutoff` and unsynced is told of.
abbrev pub TellsOf : Settings → Time → Table → World → Type 0
TellsOf s cutoff t w = All (Told s w.sent) (unsynced cutoff t)

module _ (s : Settings) (now : Time) (m : List Measurement) where
  -- The reconciliation is done, and has told Redis of the rows that were unsynced in `t`.
  abbrev DoneTelling : Time → Table → Result (Option ℕ) × World → Type 0
  DoneTelling cutoff t out = Done s now m cutoff out × TellsOf s cutoff t out.1

  then_report :
      (cutoff : Time) (t : Table) (q : Result (Option ℕ)) (v : World)
      → DoneTelling cutoff t (q, v)
      → DoneTelling cutoff t (continue (λ total. report_total total >>= λ _. pure total) q v)
  unfolding ◌>>=◌
  then_report cutoff t q v ((total, e, synced), told) =
      let (reported, same, sent) = report_total-table (some total) v in
      rw (e, reported, sent) ((total, refl, ap (unsynced cutoff) same ∙ synced), told)

  reconcile_orphans-Done :
      (fuel : ℕ) (t : Table) (c : List Command)
      → 0 < s.reconcile_batch_size
      → All IsValid t
      → IsUnique t
      → length (unsynced (now - s.reconcile_grace) t) < fuel
      → DoneTelling (now - s.reconcile_grace) t (reconcile_orphans fuel s (alone true t now c m))
  unfolding reconcile_orphans ◌>>=◌ read_clock
  reconcile_orphans-Done fuel t c size v u h =
      let cutoff = now - s.reconcile_grace in
      let q = reconcile_loop fuel s cutoff 0 (alone true t now c m) in
      then_report cutoff t q.0 q.1 (
        reconcile_loop-Done s now m fuel cutoff 0 t c size v h,
        reconcile_loop-Told s now m fuel cutoff 0 t c size v u h,
      )

-- The end of an iteration that has told Redis of the old unsynced rows of `t`, and has left none.
abbrev pub Drained : Settings → Time → Table → Ticked → Type 0
Drained s cutoff t out =
    (finished out.0.0 ≡ true) × (unsynced cutoff out.1.table ≡ []) × TellsOf s cutoff t out.1

end_tick-finished :
    (s : Settings) (n : ℕ) (k : Clocks) (w : World) → finished (end_tick s n k w).0.0 ≡ true
end_tick-finished s n k w = elim (Bool-cases (leb s.ticker_batch_size n)) [
  | inl full ↦ rw full refl
  | inr short ↦ rw short refl
]

module _ (s : Settings) (r : Replies) (now : Time) (m : List Measurement) where
  after-Drained :
      (cutoff : Time) (t : Table) (n : ℕ) (k : Clocks) (q : Result (Option ℕ)) (v : World)
      → now < k.last_reap + s.reaper_interval
      → DoneTelling s now m cutoff t (q, v)
      → Drained s cutoff t (try_next k (after_reconcile s r now n k) (q, v))
  unfolding after_reconcile reap_due
  after-Drained cutoff t n k q v early ((total, e, synced), told) =
      let resting : leb (k.last_reap + s.reaper_interval) now ≡ false = ground arith in
      rw (e, resting) (end_tick-finished s n (record k { last_reconcile = now }) v, synced, told)

  reconcile_due-Drained :
      (n : ℕ) (k : Clocks) (t : Table) (c : List Command)
      → k.last_reconcile + s.reconcile_interval ≤ now
      → now < k.last_reap + s.reaper_interval
      → 0 < s.reconcile_batch_size
      → All IsValid t
      → IsUnique t
      → length (unsynced (now - s.reconcile_grace) t) < r.fuel
      → Drained s (now - s.reconcile_grace) t (reconcile_due s r now n k (alone true t now c m))
  unfolding reconcile_due
  reconcile_due-Drained n k t c due early size v u h =
      let is_due : leb (k.last_reconcile + s.reconcile_interval) now ≡ true = ground arith in
      let q = reconcile_orphans r.fuel s (alone true t now c m) in
      rw is_due (
        after-Drained (now - s.reconcile_grace) t n k q.0 q.1 early
          (reconcile_orphans-Done s now m r.fuel t c size v u h))

-- Redis being up, and the ticker running alone over valid rows with unique keys: an iteration in
-- which a reconciliation is due, and no reaping, comes to its end, whatever jobs are due in Redis. For
-- each row that is unsynced behind its promotion, and waits for longer than the grace time, the
-- message on the stream of its priority is then among the commands sent, or its entry in the delayed
-- set if it is scheduled; and no such row is left unsynced. The batch size is not 0, and the fuel is
-- more than the rows to hand over.
pub tick-Drained :
    (s : Settings) (r : Replies) (k : Clocks) (t : Table) (now : Time) (c : List Command)
    (m : List Measurement)
    → k.last_reconcile + s.reconcile_interval ≤ now
    → now < k.last_reap + s.reaper_interval
    → 0 < s.reconcile_batch_size
    → All IsValid t
    → IsUnique t
    → length (unsynced (now - s.reconcile_grace) (promoted r.due t)) < r.fuel
    → Drained s (now - s.reconcile_grace) (promoted r.due t) (tick s r k (alone true t now c m))
unfolding tick
tick-Drained s r k t now c m due early size v u h =
    let (n, d, ms, run) = promote_due-Returns s r.due t now c m in
    rw run (
      reconcile_due-Drained s r now ms n (record k { heartbeat = beat now }) (promoted r.due t) d
        due early size (promoted-IsValid s r.due t v) (promoted-IsUnique r.due t u) h)
