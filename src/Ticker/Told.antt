-- ===== src/Ticker/Told.antt =====
-- What `reconcile_orphans` of app/ticker/runner.py tells Redis, when Redis is up and no other process
-- interferes.
use symmetrical_disco.Base.{
  ℕ, zero, suc, ◌+◌, ◌<◌, ◌≡◌, refl, sym, ap, ◌∙◌, Bool, true, false, Option, some, List, [], ◌∷◌,
  ◌++◌, arith, ◌==◌, ltb, if◌then◌else◌, Bool-cases, inl, inr, All, any, keep, length,
}
use mathlib.Core.Option
use mathlib.Core.Path.{subst}
use mathlib.Core.List.{append-nil, append_assoc}
use symmetrical_disco.Models.{Job, Time}
use symmetrical_disco.Config.{Settings}
use symmetrical_disco.Repository.{Table, find_job, has_id, clashes, mark_synced}
use symmetrical_disco.Repository.Rows.{updated, find-update_where, not-any_of_find}
use symmetrical_disco.Repository.Steps.{sync}
use symmetrical_disco.Repository.Unique.{IsUnique, Step-IsUnique}
use symmetrical_disco.Repository.Valid.{IsValid}
use symmetrical_disco.Listing.{is_unsynced, older, list_unsynced}
use symmetrical_disco.Listing.Order.{keep-All}
use symmetrical_disco.Listing.Members.{sort_by-All_any, take-All}
use symmetrical_disco.Effects.{M, pure, Command, Measurement, ◌>>=◌, query}
use symmetrical_disco.Effects.Alone.{alone}
use symmetrical_disco.Ticker.{reconcile_rows, reconcile_loop}
use symmetrical_disco.Ticker.Unsynced.{
  mark_all, mark_all-IsValid, unsynced, short_batch, batch_progress, empty_batch,
}
use symmetrical_disco.Ticker.Reconcile.{
  Nil-cases, Tells, TellsAll, none_left, one_more, rows-TellsAll, list_unsynced-IsValid,
}

abbrev pub IsAmong : Command → List Command → Type 0
IsAmong k l = (before after : List Command) × (l ≡ before ++ k ∷ after)

-- A command about the row is among those that were sent.
abbrev pub Told : Settings → List Command → Job → Type 0
Told s sent j = (k : Command) × Tells s j k × IsAmong k sent

-- The row is the one that its id finds.
abbrev IsFound : Table → Job → Type 0
IsFound t j = find_job (has_id j.id) t ≡ some j

behind_other :
    (x : Job) (js ks : Table)
    → any (clashes x) ks ≡ false
    → All (IsFound js) ks
    → All (IsFound (x ∷ js)) ks
unfolding find_job
behind_other x js [] a f = tt
behind_other x js (k ∷ ks) a f = (ground arith, behind_other x js ks (ground arith) f.1)

all-IsFound : (t : Table) → IsUnique t → All (IsFound t) t
unfolding find_job
all-IsFound [] u = tt
all-IsFound (x ∷ t) u = (ground arith, behind_other x t t u.0 (all-IsFound t u.1))

mark_all-IsUnique : (js : List Job) (t : Table) → IsUnique t → IsUnique (mark_all js t)
unfolding mark_all
mark_all-IsUnique [] t u = u
mark_all-IsUnique (j ∷ js) t u =
    mark_all-IsUnique js (mark_synced j.id t) (Step-IsUnique (sync j.id t) u)

-- A row that is not in the batch stays as it is.
mark_all-other :
    (rows : List Job) (t : Table) (j : Job)
    → any (λ (b : Job). b.id == j.id) rows ≡ false
    → IsFound t j
    → IsFound (mark_all rows t) j
unfolding mark_all mark_synced
mark_all-other [] t j h e = e
mark_all-other (b ∷ rows) t j h e =
    let f : Job → Job = λ r. record r { is_synced_to_redis = true } in
    let other : has_id b.id j ≡ false = ground arith in
    mark_all-other rows (mark_synced b.id t) j (ground arith) (
      find-update_where (has_id b.id) f j.id (λ r. refl) t
      ∙ ap (Option.map (updated (has_id b.id) f)) e
      ∙ rw other refl)

none_kept : (q : Job → Bool) (t : Table) → keep q t ≡ [] → any q t ≡ false
none_kept q [] e = refl
none_kept q (x ∷ t) e = elim (Bool-cases (q x)) [
  | inl yes_kept ↦ let never : x ∷ keep q t ≡ [] = rw yes_kept at e in cc
  | inr out ↦ rw out (none_kept q t (rw out at e))
]

not_drained :
    (cutoff : Time) (t : Table) (j : Job)
    → IsFound t j
    → is_unsynced cutoff j ≡ true
    → unsynced cutoff t ≡ []
    → ⊥
not_drained cutoff t j e waits empty =
    let no : is_unsynced cutoff j ≡ false =
      not-any_of_find j.id (is_unsynced cutoff) t (none_kept (is_unsynced cutoff) t empty) e in
    cc

one_row : (t : Table) (b j : Job) → b.id ≡ j.id → IsFound t b → IsFound t j → b ≡ j
one_row t b j p f e =
    let both : some b ≡ some j = sym f ∙ ap (λ i. find_job (has_id i) t) p ∙ e in cc

IsAmong-more :
    (k : Command) (before ks after : List Command)
    → IsAmong k ks
    → IsAmong k (before ++ (ks ++ after))
IsAmong-more k before ks after (b, a, e) = (
  before ++ b,
  a ++ after,
  ap (λ l. before ++ (l ++ after)) e
      ∙ ap (λ l. before ++ l) (append_assoc b (k ∷ a) after)
      ∙ sym (append_assoc before b (k ∷ (a ++ after))),
)

module _ (s : Settings) (now : Time) (m : List Measurement) where
  Told-more :
      (before ks after : List Command) (j : Job) → Told s ks j → Told s (before ++ (ks ++ after)) j
  Told-more before ks after j (k, tells, among) = (k, tells, IsAmong-more k before ks after among)

  batch_Told :
      {rows : List Job} {ks : List Command} (t : Table) (j : Job)
      → TellsAll s now m rows ks
      → All (IsFound t) rows
      → any (λ (b : Job). b.id == j.id) rows ≡ true
      → IsFound t j
      → Told s ks j
  batch_Told t j none_left f a e = cc
  batch_Told t j (one_more {j = b} {js = rows} {k = k} {ks = ks} told rest) f a e =
      elim (Bool-cases (b.id == j.id)) [
        | inl same ↦
            let it : b ≡ j = one_row t b j (ground arith) f.0 e in
            (k, subst (λ r. Tells s r k) it told, ([], ks, refl))
        | inr other ↦
            let (x, tells, (before, after, split)) = batch_Told t j rest f.1 (ground arith) e in
            (x, tells, (k ∷ before, after, ap (λ l. k ∷ l) split))
      ]

  -- What a run leaves that has sent `c` before: it has sent more, and every row that was unsynced is
  -- told of.
  pub record Passes (cutoff : Time) (t : Table) (c sent : List Command) : Type 0 where
    pub more : List Command
    pub extends : sent ≡ c ++ more
    pub told : (j : Job) → IsFound t j → is_unsynced cutoff j ≡ true → Told s sent j

  batch_Passes :
      (cutoff : Time) (t : Table) (c : List Command) (rows : List Job) (ks sent : List Command)
      (after : List Command)
      → All (IsFound t) rows
      → TellsAll s now m rows ks
      → sent ≡ (c ++ ks) ++ after
      → ((j : Job) → IsFound (mark_all rows t) j → is_unsynced cutoff j ≡ true → Told s sent j)
      → Passes cutoff t c sent
  batch_Passes cutoff t c rows ks sent after f all_told split rest = record {
    more = ks ++ after;
    extends = split ∙ append_assoc c ks after;
    told = λ j e waits. elim (Bool-cases (any (λ (b : Job). b.id == j.id) rows)) [
      | inl inside ↦
          subst (λ l. Told s l j) (sym (split ∙ append_assoc c ks after))
            (Told-more c ks after j (batch_Told t j all_told f inside e))
      | inr outside ↦ rest j (mark_all-other rows t j outside e) waits
    ];
  }

  list_unsynced-IsFound :
      (cutoff : Time) (limit : ℕ) (t : Table)
      → IsUnique t
      → All (IsFound t) (list_unsynced cutoff limit t)
  unfolding list_unsynced
  list_unsynced-IsFound cutoff limit t u = take-All (IsFound t) limit _ (
      sort_by-All_any older (IsFound t) (unsynced cutoff t)
        (keep-All (IsFound t) (is_unsynced cutoff) t (all-IsFound t u)))

  after_Passes :
      (limit : ℕ) (cutoff : Time) (total : ℕ) (t : Table) (c : List Command) (rows : List Job)
      (rest : ℕ → M (Option ℕ))
      → All IsValid rows
      → All (IsFound t) rows
      → (length rows < limit → unsynced cutoff (mark_all rows t) ≡ [])
      → ((n : ℕ) (d : List Command)
          → Passes cutoff
              (mark_all rows t)
              d
              (rest n (alone true (mark_all rows t) now d m)).1.sent)
      → Passes cutoff t c
          ((reconcile_rows s rows total >>= λ n.
              if ltb (length rows) limit then pure (some n) else rest n)
            (alone true t now c m)).1.sent
  unfolding ◌>>=◌
  after_Passes limit cutoff total t c rows rest v f short go =
      let (ks, all_told, run) = rows-TellsAll s now m rows total t c v in
      elim (Bool-cases (ltb (length rows) limit)) [
        | inl last ↦
            rw (run, last)
              (batch_Passes cutoff t c rows ks (c ++ ks) [] f all_told (sym (append-nil (c ++ ks)))
                (λ j e waits.
                  absurd (not_drained cutoff (mark_all rows t) j e waits (short (ground arith)))))
        | inr full ↦
            rw (run, full)
              (let later = go (total + length rows) (c ++ ks) in
                batch_Passes cutoff t c rows ks _ later.more f all_told later.extends later.told)
      ]

  loop_Passes :
      (fuel : ℕ) (cutoff : Time) (total : ℕ) (t : Table) (c : List Command)
      → 0 < s.reconcile_batch_size
      → All IsValid t
      → IsUnique t
      → length (unsynced cutoff t) < fuel
      → Passes cutoff t c (reconcile_loop fuel s cutoff total (alone true t now c m)).1.sent
  unfolding reconcile_loop ◌>>=◌ query
  loop_Passes zero cutoff total t c size v u h = absurd (omega arith)
  loop_Passes (suc fuel) cutoff total t c size v u h =
      let limit = s.reconcile_batch_size in
      let batch = list_unsynced cutoff limit t in
      elim (Nil-cases batch) [
        | inl none_found ↦ rw none_found (record {
          more = [];
          extends = sym (append-nil c);
          told = λ j e waits.
              absurd (not_drained cutoff t j e waits (empty_batch cutoff limit t size none_found));
        })
        | inr (j, js, some_found) ↦
            let found : (length batch == 0) ≡ false = rw some_found (ground arith) in
            rw found (
              after_Passes limit cutoff total t c batch _
                (list_unsynced-IsValid s now m cutoff limit t v)
                (list_unsynced-IsFound cutoff limit t u) (short_batch cutoff limit t)
                (λ n d.
                  loop_Passes fuel cutoff n (mark_all batch t) d size (mark_all-IsValid batch t v)
                    (mark_all-IsUnique batch t u)
                    (omega (arith, batch_progress cutoff limit t some_found))))
      ]

  found-Told :
      (cutoff : Time) (t : Table) (sent : List Command)
      → ((j : Job) → IsFound t j → is_unsynced cutoff j ≡ true → Told s sent j)
      → (l : Table) → All (IsFound t) l
      → All (Told s sent) (unsynced cutoff l)
  found-Told cutoff t sent told [] f = tt
  found-Told cutoff t sent told (x ∷ l) f = elim (Bool-cases (is_unsynced cutoff x)) [
    | inl waits ↦ rw waits (told x f.0 waits, found-Told cutoff t sent told l f.1)
    | inr done ↦ rw done (found-Told cutoff t sent told l f.1)
  ]

  -- Every row that was unsynced is told of.
  pub reconcile_loop-Told :
      (fuel : ℕ) (cutoff : Time) (total : ℕ) (t : Table) (c : List Command)
      → 0 < s.reconcile_batch_size
      → All IsValid t
      → IsUnique t
      → length (unsynced cutoff t) < fuel
      → All
          (Told s (reconcile_loop fuel s cutoff total (alone true t now c m)).1.sent)
          (unsynced cutoff t)
  reconcile_loop-Told fuel cutoff total t c size v u h =
      let passes = loop_Passes fuel cutoff total t c size v u h in
      found-Told cutoff t _ passes.told t (all-IsFound t u)
