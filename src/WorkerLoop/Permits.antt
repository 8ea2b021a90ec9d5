-- ===== src/WorkerLoop/Permits.antt =====
-- The permits of the semaphore in `run_forever` of app/worker/runner.py, and draining, over any run.
use symmetrical_disco.Base.{
  ℕ, suc, ◌+◌, ◌≤◌, ◌≡◌, refl, sym, ap, ◌∙◌, Bool, true, false, Option, List, [], ◌∷◌, ◌++◌, length,
  arith,
}
use symmetrical_disco.Queue.{Delivery}
use symmetrical_disco.WorkerLoop.{
  Place, testing, acquiring, reading, draining, stopped, Loop, start, LoopStep, signalled, stops,
  recycles, goes_on, acquires, read_raises, reads_nothing, creates_task, task_ends, group_aborts,
  drained,
}

pub data LoopSteps : Loop → Loop → Type 0 where
  here : {l : Loop} → LoopSteps l l
  next : {l m n : Loop} → LoopStep l m → LoopSteps m n → LoopSteps l n

-- The permit that the loop itself holds.
abbrev pub held : Place → ℕ
held reading = 1
held _ = 0

abbrev pub permits : Loop → ℕ
permits l = l.free + length l.running + held l.place

-- Where all tasks have ended.
abbrev pub IsIdle : Loop → Type 0
IsIdle l = l.place ≡ stopped → l.running ≡ []

length-middle :
    (before after : List Delivery) (d : Delivery)
    → length (before ++ d ∷ after) ≡ suc (length (before ++ after))
length-middle [] after d = refl
length-middle (x ∷ before) after d = ap suc (length-middle before after d)

LoopStep-permits : {l m : Loop} → LoopStep l m → permits m ≡ permits l
LoopStep-permits (signalled l) = refl
LoopStep-permits (stops l e s) = ground (arith, ap held e)
LoopStep-permits (recycles rss l e s t) = ground (arith, ap held e)
LoopStep-permits (goes_on rss l e s) = ground (arith, ap held e)
LoopStep-permits (acquires n l e f) = ground (arith, ap held e)
LoopStep-permits (read_raises l e) = ground (arith, ap held e)
LoopStep-permits (reads_nothing l e) = ground (arith, ap held e)
LoopStep-permits (creates_task d l e) = ground (arith, ap held e)
LoopStep-permits (task_ends before after d l e) =
    omega (arith, ap length e ∙ length-middle before after d)
LoopStep-permits (group_aborts l e) = ground (arith, ap held e)
LoopStep-permits (drained l e r) = ground (arith, ap held e)

LoopSteps-permits : {l m : Loop} → LoopSteps l m → permits m ≡ permits l
LoopSteps-permits here = refl
LoopSteps-permits (next s r) = LoopSteps-permits r ∙ LoopStep-permits s

LoopStep-IsIdle : {l m : Loop} → LoopStep l m → IsIdle l → IsIdle m
LoopStep-IsIdle (signalled l) h = h
LoopStep-IsIdle (stops l e s) h = λ p. cc
LoopStep-IsIdle (recycles rss l e s t) h = λ p. cc
LoopStep-IsIdle (goes_on rss l e s) h = λ p. cc
LoopStep-IsIdle (acquires n l e f) h = λ p. cc
LoopStep-IsIdle (read_raises l e) h = λ p. cc
LoopStep-IsIdle (reads_nothing l e) h = λ p. cc
LoopStep-IsIdle (creates_task d l e) h = λ p. cc
LoopStep-IsIdle (task_ends before after d l e) h =
    λ p. absurd (omega (arith, ap length (sym e ∙ h p), length-middle before after d))
LoopStep-IsIdle (group_aborts l e) h = λ p. cc
LoopStep-IsIdle (drained l e r) h = λ p. r

LoopSteps-IsIdle : {l m : Loop} → LoopSteps l m → IsIdle l → IsIdle m
LoopSteps-IsIdle here h = h
LoopSteps-IsIdle (next s r) h = LoopSteps-IsIdle r (LoopStep-IsIdle s h)

-- However tasks, reads and signals interleave, permits are neither lost nor made: the free ones, one
-- for each running task and the one that the loop holds while it reads are as many as the concurrency.
-- So no more tasks than that ever run; and when the loop has stopped, none runs and all permits are
-- free again.
pub start-permits :
    (concurrency : ℕ) (max_mb : Option ℕ) {l : Loop}
    → LoopSteps (start concurrency max_mb) l
    → (l.free + length l.running + held l.place ≡ concurrency)
      × (length l.running ≤ concurrency)
      × (l.place ≡ stopped → (l.running ≡ []) × (l.free ≡ concurrency))
unfolding start
start-permits concurrency max_mb {l} r =
    let kept : permits l ≡ concurrency = LoopSteps-permits r ∙ (omega arith) in
    let idle : IsIdle l = LoopSteps-IsIdle r (λ p. cc) in
    (kept, omega arith, λ p. (idle p, ground (arith, idle p)))

-- Where no more work is taken.
abbrev pub is_closing : Place → Bool
is_closing draining = true
is_closing stopped = true
is_closing _ = false

open_place : {A : Type 0} (p q : Place) → p ≡ q → is_closing q ≡ false → is_closing p ≡ true → A
open_place p q e f c = let never : true ≡ false = sym c ∙ ap is_closing e ∙ f in cc

LoopStep-closing :
    {l m : Loop}
    → LoopStep l m
    → is_closing l.place ≡ true
    → (is_closing m.place ≡ true) × (length m.running ≤ length l.running)
LoopStep-closing (signalled l) c = (c, omega arith)
LoopStep-closing (stops l e s) c = (refl, omega arith)
LoopStep-closing (recycles rss l e s t) c = (refl, omega arith)
LoopStep-closing (goes_on rss l e s) c = open_place l.place testing e refl c
LoopStep-closing (acquires n l e f) c = open_place l.place acquiring e refl c
LoopStep-closing (read_raises l e) c = open_place l.place reading e refl c
LoopStep-closing (reads_nothing l e) c = open_place l.place reading e refl c
LoopStep-closing (creates_task d l e) c = open_place l.place reading e refl c
LoopStep-closing (task_ends before after d l e) c =
    (c, omega (arith, ap length e ∙ length-middle before after d))
LoopStep-closing (group_aborts l e) c = open_place l.place acquiring e refl c
LoopStep-closing (drained l e r) c = (refl, omega arith)

-- A loop that has begun to drain, since it was signalled or since its memory passed the limit, takes
-- no work any more: whatever happens, it drains or has stopped, and never has more tasks than before.
pub LoopSteps-closing :
    {l m : Loop}
    → LoopSteps l m
    → is_closing l.place ≡ true
    → (is_closing m.place ≡ true) × (length m.running ≤ length l.running)
LoopSteps-closing here c = (c, omega arith)
LoopSteps-closing (next s r) c =
    let (closing, fewer) = LoopStep-closing s c in
    let (closing', fewer') = LoopSteps-closing r closing in (closing', omega arith)
