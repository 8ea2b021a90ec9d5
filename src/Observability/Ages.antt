-- ===== src/Observability/Ages.antt =====
-- The reply of `/stats` of app/api/routes.py, by `gather_stats` of app/observability.py, against the
-- table.
use symmetrical_disco.Base.{
  ℕ, ◌-◌, ◌/◌, map, ◌≤◌, ◌≡◌, refl, sym, Bool, true, false, ◌&&◌, ◌||◌, leb, Option, none, some,
  List, [], ◌∷◌, arith, ◌==◌, any, keep, min, All, Bool-cases, inl, inr,
}
use mathlib.Core.Path.{subst}
use symmetrical_disco.Models.{Job, Time, JobStatus, pending, same_status}
use symmetrical_disco.Config.{Settings, priority_streams}
use symmetrical_disco.Repository.{Table}
use symmetrical_disco.Effects.{World, ok, Command, Measurement, ◌>>=◌, query, ask, read_clock}
use symmetrical_disco.Effects.Alone.{alone}
use symmetrical_disco.Observability.{live_worker_count, zero_fill_status_counts}
use symmetrical_disco.Observability.Stats.{
  Fetched, fetched, nogroup, refused, tolerate_nogroup, tolerate_all, Results, Stats, earlier,
  min_created_pending, pending_age, gather_stats, stats, stream_stats, without_reaper,
  group_by_status,
}
use symmetrical_disco.Observability.Totals.{count, zero_fill-group_by_status}

abbrev pub waits : Job → Bool
waits j = same_status j.status pending

-- The earliest creation of a pending row, if there is one.
abbrev IsEarliest : Table → Option Time → Type 0
IsEarliest t none = keep waits t ≡ []
IsEarliest t (some a) =
    All (λ j. a ≤ j.created_at) (keep waits t)
    × (any (λ j. waits j && (j.created_at == a)) t ≡ true)

lower_bound :
    (a b : ℕ) (l : List Job) → b ≤ a → All (λ j. a ≤ j.created_at) l → All (λ j. b ≤ j.created_at) l
lower_bound a b [] h all = tt
lower_bound a b (j ∷ l) h all = (omega (arith, all.0), lower_bound a b l h all.1)

or_true : (b : Bool) → (b || true) ≡ true
or_true true = refl
or_true false = refl

earlier-IsEarliest :
    (j : Job) (t : Table) (o : Option Time)
    → waits j ≡ true
    → IsEarliest t o
    → IsEarliest (j ∷ t) (earlier j.created_at o)
earlier-IsEarliest j t none pends e =
    let self : (j.created_at == j.created_at) ≡ true = ground arith in
    rw (pends, e, self) ((omega arith, tt), refl)
earlier-IsEarliest j t (some b) pends (all, found) = elim (Bool-cases (leb j.created_at b)) [
  | inl first ↦
      let self : (j.created_at == j.created_at) ≡ true = ground arith in
      let later = lower_bound b j.created_at (keep waits t) (ground arith) all in
      least_is j.created_at (ground arith) (rw (pends, self) ((omega arith, later), refl))
  | inr later ↦
      least_is b (ground arith)
        (rw (pends, found) ((ground arith, all), or_true (j.created_at == b)))
]
  where
    least_is :
        (a : Time)
        → min j.created_at b ≡ a
        → IsEarliest (j ∷ t) (some a)
        → IsEarliest (j ∷ t) (some (min j.created_at b))
    least_is a e h = subst (λ x. IsEarliest (j ∷ t) (some x)) (sym e) h

skip-IsEarliest :
    (j : Job) (t : Table) (o : Option Time)
    → waits j ≡ false
    → IsEarliest t o
    → IsEarliest (j ∷ t) o
skip-IsEarliest j t none other e = rw other e
skip-IsEarliest j t (some b) other e = rw other e

min_created_pending-IsEarliest : (t : Table) → IsEarliest t (min_created_pending t)
unfolding min_created_pending
min_created_pending-IsEarliest [] = refl
min_created_pending-IsEarliest (j ∷ t) = elim (Bool-cases (same_status j.status pending)) [
  | inl pends ↦
      rw pends
        (earlier-IsEarliest j t (min_created_pending t) pends (min_created_pending-IsEarliest t))
  | inr other ↦
      rw other
        (skip-IsEarliest j t (min_created_pending t) other (min_created_pending-IsEarliest t))
]

-- The values of the replies; `nogroup` is an empty one.
abbrev pub value : {A : Type 0} → A → Fetched A → A
value empty (fetched a) = a
value empty r = empty

abbrev pub values : {A : Type 0} → A → List (Fetched A) → List A
values empty [] = []
values empty (r ∷ rs) = value empty r ∷ values empty rs

-- A reply that is a value or NOGROUP.
abbrev pub IsTolerable : {A : Type 0} → Fetched A → Type 0
IsTolerable (refused e) = ⊥
IsTolerable r = Unit

tolerate_nogroup-value :
    {A : Type 0} (empty : A) (r : Fetched A) (w : World)
    → IsTolerable r
    → tolerate_nogroup empty r w ≡ (ok (value empty r), w)
unfolding tolerate_nogroup ◌>>=◌
tolerate_nogroup-value empty (fetched a) w h = refl
tolerate_nogroup-value empty nogroup w h = refl
tolerate_nogroup-value empty (refused e) w h = absurd h

tolerate_all-values :
    {A : Type 0} (empty : A) (rs : List (Fetched A)) (w : World)
    → All IsTolerable rs
    → tolerate_all empty rs w ≡ (ok (values empty rs), w)
unfolding tolerate_all ◌>>=◌
tolerate_all-values empty [] w h = refl
tolerate_all-values empty (r ∷ rs) w h =
    rw (tolerate_nogroup-value empty r w h.0, tolerate_all-values empty rs w h.1) refl

-- The age of the pending row that has waited longest.
abbrev pub IsOldest : Table → Time → Option ℕ → Type 0
IsOldest t now none = keep waits t ≡ []
IsOldest t now (some age) =
    All (λ j. now - j.created_at ≤ age) (keep waits t)
    × (any (λ j. waits j && (now - j.created_at == age)) t ≡ true)

oldest :
    (t : Table) (now : Time) (o : Option Time) → IsEarliest t o → IsOldest t now (pending_age o now)
unfolding pending_age
oldest t now none e = e
oldest t now (some a) (all, found) = (ages (keep waits t) all, attained t found)
  where
    ages :
        (l : List Job) → All (λ j. a ≤ j.created_at) l → All (λ j. now - j.created_at ≤ now - a) l
    ages [] h = tt
    ages (j ∷ l) h = (omega (arith, h.0), ages l h.1)

    attained :
        (l : List Job)
        → any (λ j. waits j && (j.created_at == a)) l ≡ true
        → any (λ j. waits j && (now - j.created_at == now - a)) l ≡ true
    attained [] h = cc
    attained (j ∷ l) h = elim (Bool-cases (waits j && (j.created_at == a))) [
      | inl here ↦
          let same : waits j && (now - j.created_at == now - a) ≡ true = ground arith in
          rw same refl
      | inr elsewhere ↦
          rw (attained l (rw elsewhere at h)) (or_true (waits j && (now - j.created_at == now - a)))
    ]

-- The reply, by the values of the replies of Redis and the table.
abbrev pub stats_of : Settings → Results → Table → Time → Stats
stats_of s reply t now = record {
  streams = stream_stats s.consumer_group (priority_streams s) (values [] reply.groups);
  scheduled = value 0 reply.zcard;
  workers =
      live_worker_count (map without_reaper (values [] reply.consumers))
        (s.visibility_timeout / 1000);
  by_status = zero_fill_status_counts (group_by_status t);
  oldest_pending_age = pending_age (min_created_pending t) now;
}

-- With Redis up, and no reply an error but NOGROUP, `/stats` replies: for each status the number of
-- the rows that have it, and the age of the pending row that waits longest, if there is one. It
-- changes nothing.
pub stats-Totals :
    (s : Settings) (reply : Results) (t : Table) (now : Time) (sent : List Command)
    (ms : List Measurement)
    → All IsTolerable reply.groups
    → All IsTolerable reply.consumers
    → IsTolerable reply.zcard
    → (r : Stats) × (stats s reply (alone true t now sent ms) ≡ (ok r, alone true t now sent ms))
      × ((st : JobStatus) → r.by_status st ≡ count st t)
      × IsOldest t now r.oldest_pending_age
unfolding stats gather_stats ◌>>=◌ ask query read_clock
stats-Totals s reply t now sent ms groups consumers zcard =
    let w = alone true t now sent ms in
    (
      stats_of s reply t now,
      rw
          (
            tolerate_all-values [] reply.groups w groups,
            tolerate_all-values [] reply.consumers w consumers,
            tolerate_nogroup-value 0 reply.zcard w zcard,
          )
          refl,
      zero_fill-group_by_status t,
      oldest t now (min_created_pending t) (min_created_pending-IsEarliest t),
    )
