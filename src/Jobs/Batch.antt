-- ===== src/Jobs/Batch.antt =====
-- The summary of a batch of app/jobs/handlers.py, against a description that does not run: the results
-- and the errors of the items, each with its index.
use symmetrical_disco.Base.{
  ℕ, suc, ◌+◌, ◌≤◌, ◌≡◌, refl, sym, Bool, true, false, List, [], ◌∷◌, ◌++◌, arith, length, take,
  if◌then◌else◌, String,
}
use mathlib.Core.List.{append-nil, append_assoc}
use mathlib.Core.Path.{subst}
use symmetrical_disco.Models.{JobId, Json}
use symmetrical_disco.Payloads.{Item}
use symmetrical_disco.Effects.{World, M, ok, pure, ◌>>=◌}
use symmetrical_disco.Effects.Inversion.{bind_ok}
use symmetrical_disco.Jobs.{
  Call, gives, fails, Summary, new_summary, tally, Draws, Context, set_progress, is_cancelled,
  BatchEnd, finished, interrupted, expired, batch_loop, handle_batch, new_context,
}

abbrev pub add_result : ℕ → Call → List (ℕ × Json) → List (ℕ × Json)
add_result k (gives r) l = (k, r) ∷ l
add_result k (fails e) l = l

abbrev pub add_error : ℕ → Call → List (ℕ × String) → List (ℕ × String)
add_error k (gives r) l = l
add_error k (fails e) l = (k, e) ∷ l

-- The results of the items that succeed, from the item at index `k` on.
unfoldable pub results_of : Draws → ℕ → List Item → List (ℕ × Json)
results_of d k [] = []
results_of d k (x ∷ xs) = add_result k (d.call k x) (results_of d (suc k) xs)

-- The errors of those that fail.
unfoldable pub errors_of : Draws → ℕ → List Item → List (ℕ × String)
errors_of d k [] = []
errors_of d k (x ∷ xs) = add_error k (d.call k x) (errors_of d (suc k) xs)

-- Each item has one result or one error.
pub results-errors-length :
    (d : Draws) (k : ℕ) (xs : List Item)
    → length (results_of d k xs) + length (errors_of d k xs) ≡ length xs
unfolding results_of errors_of
results-errors-length d k [] = omega arith
results-errors-length d k (x ∷ xs) = ground (arith, results-errors-length d (suc k) xs)

abbrev extended : Draws → ℕ → List Item → Summary → Summary
extended d k xs s = record {
  total = s.total;
  succeeded = s.succeeded + length (results_of d k xs);
  failed = s.failed + length (errors_of d k xs);
  results = s.results ++ results_of d k xs;
  errors = s.errors ++ errors_of d k xs;
}

extended-tally :
    (d : Draws) (k : ℕ) (x : Item) (xs : List Item) (s : Summary) (c : Call)
    → d.call k x ≡ c
    → extended d (suc k) xs (tally k c s) ≡ extended d k (x ∷ xs) s
unfolding tally results_of errors_of
extended-tally d k x xs s (gives r) e =
    ground (arith, e, append_assoc s.results ((k, r) ∷ []) (results_of d (suc k) xs))
extended-tally d k x xs s (fails r) e =
    ground (arith, e, append_assoc s.errors ((k, r) ∷ []) (errors_of d (suc k) xs))

extended-nil : (d : Draws) (k : ℕ) (s : Summary) → extended d k [] s ≡ s
unfolding results_of errors_of
extended-nil d k s = ground (arith, append-nil s.results, append-nil s.errors)

-- What a batch may end in: all of its items, or the items before its cancellation.
pub data Summarises (d : Draws) (k : ℕ) (xs : List Item) (s : Summary) : BatchEnd → Type 0 where
  of_all : Summarises d k xs s (finished (extended d k xs s))
  of_some : (p : ℕ) → p ≤ length xs → Summarises d k xs s (interrupted (extended d k (take p xs) s))
  of_none : Summarises d k xs s expired

one_more :
    (d : Draws) (k : ℕ) (x : Item) (xs : List Item) (s : Summary) {b : BatchEnd}
    → Summarises d (suc k) xs (tally k (d.call k x) s) b
    → Summarises d k (x ∷ xs) s b
one_more d k x xs s of_all =
    subst (λ (r : Summary). Summarises d k (x ∷ xs) s (finished r))
      (sym (extended-tally d k x xs s (d.call k x) refl)) of_all
one_more d k x xs s (of_some p h) =
    subst (λ (r : Summary). Summarises d k (x ∷ xs) s (interrupted r))
      (sym (extended-tally d k x (take p xs) s (d.call k x) refl)) (of_some (suc p) (omega arith))
one_more d k x xs s of_none = of_none

none_done : (d : Draws) (k : ℕ) (xs : List Item) (s : Summary) → Summarises d k xs s (interrupted s)
none_done d k xs s =
    subst (λ (r : Summary). Summarises d k xs s (interrupted r)) (extended-nil d k s)
      (of_some 0 (omega arith))

all_done : (d : Draws) (k : ℕ) (s : Summary) → Summarises d k [] s (finished s)
all_done d k s =
    subst (λ (r : Summary). Summarises d k [] s (finished r)) (extended-nil d k s) of_all

-- One round, by the answer of the poll and by the timeout.
round-Summarises :
    (d : Draws) (k : ℕ) (x : Item) (xs : List Item) (s : Summary) (stop late : Bool)
    (rest : M BatchEnd) (v : World) {b : BatchEnd}
    → ((if stop then pure (interrupted s) else if late then pure expired else rest) v).0 ≡ ok b
    → ((rest v).0 ≡ ok b → Summarises d (suc k) xs (tally k (d.call k x) s) b)
    → Summarises d k (x ∷ xs) s b
unfolding ◌>>=◌
round-Summarises d k x xs s true late rest v {b} h f =
    subst (λ (e : BatchEnd). Summarises d k (x ∷ xs) s e) (cc) (none_done d k (x ∷ xs) s)
round-Summarises d k x xs s false true rest v {b} h f =
    subst (λ (e : BatchEnd). Summarises d k (x ∷ xs) s e) (cc) of_none
round-Summarises d k x xs s false false rest v h f = one_more d k x xs s (f h)

-- The loop from the item at index `k` on, in any world: whatever others do to the row meanwhile.
batch_loop-Summarises :
    (d : Draws) (interval : ℕ) (i : JobId) (n k : ℕ) (xs : List Item) (c : Context) (s : Summary)
    (w : World) {b : BatchEnd}
    → (batch_loop d interval i n k xs c s w).0 ≡ ok b
    → Summarises d k xs s b
unfolding batch_loop ◌>>=◌
batch_loop-Summarises d interval i n k [] c s w {b} h =
    subst (λ (e : BatchEnd). Summarises d k [] s e) (cc) (all_done d k s)
batch_loop-Summarises d interval i n k (x ∷ xs) c s w {b} h =
    let (polled, _, rest, _) = bind_ok (is_cancelled interval i c) _ w h in
    round-Summarises d k x xs s polled.0 (d.expires k) _ (is_cancelled interval i c w).1 rest (
      batch_loop-Summarises d interval i n (suc k) xs (set_progress (d.percent (suc k) n) polled.1)
        (tally k (d.call k x) s) (is_cancelled interval i c w).1)

-- A batch that returns has in its summary, with its index, the result of every item that succeeded
-- and the error of every other, and their numbers; one that is cancelled has so for a first part of
-- its items. It is so whatever other processes do meanwhile.
pub handle_batch-Summarises :
    (d : Draws) (interval : ℕ) (i : JobId) (xs : List Item) (w : World) {b : BatchEnd}
    → (handle_batch d interval i xs w).0 ≡ ok b
    → Summarises d 0 xs (new_summary (length xs)) b
unfolding handle_batch
handle_batch-Summarises d interval i xs w h =
    batch_loop-Summarises d interval i (length xs) 0 xs new_context (new_summary (length xs)) w h

summary_of : BatchEnd → Summary
summary_of (finished s) = s
summary_of (interrupted s) = s
summary_of expired = new_summary 0

-- The numbers of a summary of `n` items.
pub record Counts (n : ℕ) (s : Summary) : Type 0 where
  pub total : s.total ≡ n
  pub adds_up : s.succeeded + s.failed ≡ n
  pub results : length s.results ≡ s.succeeded
  pub errors : length s.errors ≡ s.failed

extended-Counts :
    (d : Draws) (xs : List Item) → Counts (length xs) (extended d 0 xs (new_summary (length xs)))
unfolding new_summary
extended-Counts d xs = ground (arith, results-errors-length d 0 xs)

Summarises-Counts :
    (d : Draws) (xs : List Item) {b : BatchEnd} (s : Summary)
    → Summarises d 0 xs (new_summary (length xs)) b
    → b ≡ finished s
    → Counts (length xs) s
unfolding summary_of
Summarises-Counts d xs s of_all e =
    subst (λ (b : BatchEnd). Counts (length xs) (summary_of b)) e (extended-Counts d xs)
Summarises-Counts d xs s (of_some p h) e = cc
Summarises-Counts d xs s of_none e = cc

-- The numbers of a finished summary add up to the number of items.
pub handle_batch-Counts :
    (d : Draws) (interval : ℕ) (i : JobId) (xs : List Item) (w : World) {s : Summary}
    → (handle_batch d interval i xs w).0 ≡ ok (finished s)
    → Counts (length xs) s
handle_batch-Counts d interval i xs w {s} h =
    Summarises-Counts d xs s (handle_batch-Summarises d interval i xs w h) refl
