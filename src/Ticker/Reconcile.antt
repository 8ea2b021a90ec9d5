-- ===== src/Ticker/Reconcile.antt =====
-- The rounds of `reconcile_orphans` of app/ticker/runner.py, when Redis is up and no other process
-- interferes.
use symmetrical_disco.Base.{
  ℕ, zero, suc, ◌+◌, ◌<◌, ◌≡◌, refl, sym, ap, ◌∙◌, true, false, Option, some, List, [], ◌∷◌, ◌++◌,
  arith, ◌==◌, ltb, String, ◌⊎◌, if◌then◌else◌, Bool-cases, Option-cases, inl, inr, All, length,
}
use mathlib.Core.List.{append-nil, append_assoc}
use symmetrical_disco.Models.{Job, Time, scheduled, same_status}
use symmetrical_disco.Config.{Settings, stream_for_priority}
use symmetrical_disco.Repository.{Table, mark_synced}
use symmetrical_disco.Repository.Valid.{IsValid}
use symmetrical_disco.Retry.Decision.{stream_for_priority-some}
use symmetrical_disco.Listing.{list_unsynced, is_unsynced, older}
use symmetrical_disco.Listing.Order.{keep-All}
use symmetrical_disco.Listing.Members.{sort_by-All_any, take-All}
use symmetrical_disco.Effects.{
  World, M, Result, ok, pure, Command, xadd, zadd, Measurement, ◌>>=◌, transact, query, send,
}
use symmetrical_disco.Effects.Alone.{alone}
use symmetrical_disco.Queue.{enqueue, schedule, message_fields}
use symmetrical_disco.Ticker.{
  hand_over, hand_over_delayed, reconcile_row, reconcile_rows, reconcile_loop,
}
use symmetrical_disco.Ticker.Unsynced.{
  mark_all, mark_all-IsValid, unsynced, short_batch, batch_progress, empty_batch,
}

pub Nil-cases : (l : List Job) → (l ≡ []) ⊎ ((j : Job) × (js : List Job) × (l ≡ j ∷ js))
Nil-cases [] = inl refl
Nil-cases (j ∷ js) = inr (j, js, refl)

-- The command by which Redis is told of a row.
pub data Tells (s : Settings) (j : Job) : Command → Type 0 where
  at_time :
      (at : Time)
      → j.status ≡ scheduled
      → j.scheduled_at ≡ some at
      → Tells s j (zadd s.delayed_zset j.id at)
  at_once :
      (stream : String)
      → same_status j.status scheduled ≡ false
      → stream_for_priority s j.priority ≡ some stream
      → Tells s j (xadd stream (message_fields j.id j.trace_context))

module _ (s : Settings) (now : Time) (m : List Measurement) where
  row-Tells :
      (j : Job) (t : Table) (c : List Command)
      → IsValid j
      → (k : Command) × Tells s j k
        × (reconcile_row s j (alone true t now c m)
            ≡ (ok 1, alone true (mark_synced j.id t) now (c ++ k ∷ []) m))
  unfolding reconcile_row hand_over hand_over_delayed enqueue schedule ◌>>=◌ transact send
  row-Tells j t c v = elim (Bool-cases (same_status j.status scheduled)) [
    | inl later ↦ elim (Option-cases j.scheduled_at) [
      | inl missing ↦
          let never : false ≡ true = rw missing at (v.scheduled_has_time (ground arith)) in cc
      | inr (at, known) ↦ (_, at_time at (ground arith) known, rw (later, known) refl)
    ]
    | inr soon ↦
        let (stream, known) = stream_for_priority-some s j.priority in
        (_, at_once stream soon known, rw (soon, known) refl)
  ]

  -- One command for each row, in order.
  pub data TellsAll : List Job → List Command → Type 0 where
    none_left : TellsAll [] []
    one_more :
        {j : Job} {js : List Job} {k : Command} {ks : List Command}
        → Tells s j k
        → TellsAll js ks
        → TellsAll (j ∷ js) (k ∷ ks)

  same_run :
      {n k : ℕ} {c d : List Command} (t : Table)
      → n ≡ k
      → c ≡ d
      → ◌≡◌ {A = Result ℕ × World} (ok n, alone true t now c m) (ok k, alone true t now d m)
  same_run {k = k} {c = c} t e f =
      ap (λ n. (ok n, alone true t now c m)) e ∙ ap (λ d. (ok k, alone true t now d m)) f

  -- A batch of valid rows is handed over whole: one command for each row, in order, and the sync
  -- flag set on each.
  pub rows-TellsAll :
      (js : List Job) (total : ℕ) (t : Table) (c : List Command)
      → All IsValid js
      → (ks : List Command) × TellsAll js ks
        × (reconcile_rows s js total (alone true t now c m)
            ≡ (ok (total + length js), alone true (mark_all js t) now (c ++ ks) m))
  unfolding reconcile_rows ◌>>=◌ mark_all
  rows-TellsAll [] total t c v = ([], none_left, same_run t (omega arith) (sym (append-nil c)))
  rows-TellsAll (j ∷ js) total t c v =
      let (k, told, one) = row-Tells j t c v.0 in
      let (ks, all_told, rest) =
        rows-TellsAll js (total + 1) (mark_synced j.id t) (c ++ k ∷ []) v.1 in
      (
        k ∷ ks,
        one_more told all_told,
        rw one (rest ∙ same_run _ (omega arith) (append_assoc c (k ∷ []) ks)),
      )

  pub list_unsynced-IsValid :
      (cutoff : Time) (limit : ℕ) (t : Table)
      → All IsValid t
      → All IsValid (list_unsynced cutoff limit t)
  unfolding list_unsynced
  list_unsynced-IsValid cutoff limit t v = take-All IsValid limit _ (
      sort_by-All_any older IsValid (unsynced cutoff t) (keep-All IsValid (is_unsynced cutoff) t v))

  -- The end of the loop.
  abbrev pub Done : Time → Result (Option ℕ) × World → Type 0
  Done cutoff r = (total : ℕ) × (r.0 ≡ ok (some total)) × (unsynced cutoff r.1.table ≡ [])

  -- A round that found rows.
  after_batch :
      (limit : ℕ) (cutoff : Time) (total : ℕ) (t : Table) (c : List Command) (rows : List Job)
      (rest : ℕ → M (Option ℕ))
      → All IsValid rows
      → (length rows < limit → unsynced cutoff (mark_all rows t) ≡ [])
      → ((n : ℕ) (d : List Command) → Done cutoff (rest n (alone true (mark_all rows t) now d m)))
      → Done cutoff (
          (reconcile_rows s rows total >>= λ n.
          if ltb (length rows) limit then pure (some n) else rest n)
            (alone true t now c m))
  unfolding ◌>>=◌
  after_batch limit cutoff total t c rows rest v short go =
      let (ks, _, run) = rows-TellsAll rows total t c v in
      elim (Bool-cases (ltb (length rows) limit)) [
        | inl last ↦ rw (run, last) (total + length rows, refl, short (ground arith))
        | inr full ↦ rw (run, full) (go (total + length rows) (c ++ ks))
      ]

  -- Over a table of valid rows, with Redis up and no other process, and a batch size that is not 0,
  -- the loop ends, in at most one round more than there are rows to hand over, and then no row that
  -- is old enough is unsynced.
  pub reconcile_loop-Done :
      (fuel : ℕ) (cutoff : Time) (total : ℕ) (t : Table) (c : List Command)
      → 0 < s.reconcile_batch_size
      → All IsValid t
      → length (unsynced cutoff t) < fuel
      → Done cutoff (reconcile_loop fuel s cutoff total (alone true t now c m))
  unfolding reconcile_loop ◌>>=◌ query
  reconcile_loop-Done zero cutoff total t c size v h = absurd (omega arith)
  reconcile_loop-Done (suc fuel) cutoff total t c size v h =
      elim (Nil-cases (list_unsynced cutoff s.reconcile_batch_size t)) [
        | inl none_found ↦
            rw none_found (total, refl, empty_batch cutoff s.reconcile_batch_size t size none_found)
        | inr (j, js, some_found) ↦
            let found : (length (list_unsynced cutoff s.reconcile_batch_size t) == 0) ≡ false =
              rw some_found (ground arith) in
            rw found (
              after_batch s.reconcile_batch_size cutoff total t c
                (list_unsynced cutoff s.reconcile_batch_size t) _
                (list_unsynced-IsValid cutoff s.reconcile_batch_size t v)
                (short_batch cutoff s.reconcile_batch_size t)
                (λ n d.
                  reconcile_loop-Done fuel cutoff n
                    (mark_all (list_unsynced cutoff s.reconcile_batch_size t) t) d size
                    (mark_all-IsValid (list_unsynced cutoff s.reconcile_batch_size t) t v)
                    (omega (arith, batch_progress cutoff s.reconcile_batch_size t some_found))))
      ]
