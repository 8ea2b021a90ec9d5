-- ===== src/Ticker/Unsynced.antt =====
-- The rows that Redis was not told of, as `mark_synced` of app/repository.py marks them.
use symmetrical_disco.Base.{
  ℕ, ◌≤◌, ◌<◌, ◌≡◌, refl, sym, ap, ◌∙◌, true, false, ◌&&◌, ◌||◌, List, [], ◌∷◌, arith, ◌==◌,
  Bool-cases, inl, inr, All, keep, any, length,
}
use mathlib.Core.Path.{subst}
use symmetrical_disco.Models.{Job, JobId, Time}
use symmetrical_disco.Repository.{Table, mark_synced, update_where}
use symmetrical_disco.Repository.Steps.{sync}
use symmetrical_disco.Repository.Valid.{IsValid, Step-IsValid}
use symmetrical_disco.Listing.{is_unsynced, older, sort_by, list_unsynced}
use symmetrical_disco.Listing.Order.{All-map}
use symmetrical_disco.Listing.Members.{
  sort_by-All_any, any-sort_by, length-sort_by, take-All, take_all, keep-found, found_itself,
}

-- Each row of a batch is marked.
unfoldable pub mark_all : List Job → Table → Table
mark_all [] t = t
mark_all (j ∷ js) t = mark_all js (mark_synced j.id t)

pub mark_all-IsValid : (js : List Job) (t : Table) → All IsValid t → All IsValid (mark_all js t)
unfolding mark_all
mark_all-IsValid [] t a = a
mark_all-IsValid (j ∷ js) t a =
    mark_all-IsValid js (mark_synced j.id t) (Step-IsValid (sync j.id t) a)

module _ (cutoff : Time) where
  abbrev pub unsynced : Table → List Job
  unsynced t = keep (is_unsynced cutoff) t

  mark_synced-fewer :
      (i : JobId) (t : Table) → length (unsynced (mark_synced i t)) ≤ length (unsynced t)
  unfolding mark_synced update_where
  mark_synced-fewer i [] = omega arith
  mark_synced-fewer i (x ∷ t) = ground (arith, mark_synced-fewer i t)

  mark_all-fewer :
      (js : List Job) (t : Table) → length (unsynced (mark_all js t)) ≤ length (unsynced t)
  unfolding mark_all
  mark_all-fewer [] t = omega arith
  mark_all-fewer (j ∷ js) t =
      omega (arith, mark_all-fewer js (mark_synced j.id t), mark_synced-fewer j.id t)

  -- A row that is marked was unsynced before, and is no longer.
  mark_synced-less :
      (i : JobId) (t : Table)
      → any (λ r. (r.id == i) && is_unsynced cutoff r) t ≡ true
      → length (unsynced (mark_synced i t)) < length (unsynced t)
  unfolding mark_synced update_where
  mark_synced-less i [] h = cc
  mark_synced-less i (x ∷ t) h = ground (arith, mark_synced-less i t, mark_synced-fewer i t)

  tail_of : (P : Job → Type 0) (x : Job) (t : Table) → All P (unsynced (x ∷ t)) → All P (unsynced t)
  tail_of P x t a = elim (Bool-cases (is_unsynced cutoff x)) [
    | inl e ↦ let both : All P (x ∷ unsynced t) = rw e at a in both.1
    | inr e ↦ rw e at a
  ]

  unsynced-marked :
      (k : JobId) (x : Job) (t : Table)
      → (x.id == k) ≡ true
      → unsynced (mark_synced k (x ∷ t)) ≡ unsynced (mark_synced k t)
  unfolding mark_synced update_where
  unsynced-marked k x t same = ground arith

  unsynced-waiting :
      (k : JobId) (x : Job) (t : Table)
      → (x.id == k) ≡ false
      → is_unsynced cutoff x ≡ true
      → unsynced (mark_synced k (x ∷ t)) ≡ x ∷ unsynced (mark_synced k t)
  unfolding mark_synced update_where
  unsynced-waiting k x t other e = ground arith

  unsynced-done :
      (k : JobId) (x : Job) (t : Table)
      → (x.id == k) ≡ false
      → is_unsynced cutoff x ≡ false
      → unsynced (mark_synced k (x ∷ t)) ≡ unsynced (mark_synced k t)
  unfolding mark_synced update_where
  unsynced-done k x t other e = ground arith

  mark_synced-covers :
      (k : JobId) (ks : List Job) (t : Table)
      → All (λ (r : Job). (k == r.id) || any (λ j. j.id == r.id) ks ≡ true) (unsynced t)
      → All (λ (r : Job). any (λ j. j.id == r.id) ks ≡ true) (unsynced (mark_synced k t))
  unfolding mark_synced update_where
  mark_synced-covers k ks [] a = tt
  mark_synced-covers k ks (x ∷ t) a = elim (Bool-cases (x.id == k)) [
    | inl same ↦
        subst (All Found) (sym (unsynced-marked k x t same))
          (mark_synced-covers k ks t (tail_of _ x t a))
    | inr other ↦ elim (Bool-cases (is_unsynced cutoff x)) [
      | inl waits ↦
          let head : (k == x.id) || any (λ j. j.id == x.id) ks ≡ true = (rw waits at a).0 in
          subst (All Found) (sym (unsynced-waiting k x t other waits))
            (ground arith, mark_synced-covers k ks t (tail_of _ x t a))
      | inr done ↦
          subst (All Found) (sym (unsynced-done k x t other done))
            (mark_synced-covers k ks t (tail_of _ x t a))
    ]
  ]
    where
      Found : Job → Type 0
      Found r = any (λ j. j.id == r.id) ks ≡ true

  none_unsynced : (t : Table) → All (λ (r : Job). false ≡ true) (unsynced t) → unsynced t ≡ []
  none_unsynced t a = none_left (unsynced t) a
    where
      none_left : (l : List Job) → All (λ (r : Job). false ≡ true) l → l ≡ []
      none_left [] b = refl
      none_left (x ∷ l) b = let never = b.0 in cc

  mark_all-covers :
      (js : List Job) (t : Table)
      → All (λ (r : Job). any (λ j. j.id == r.id) js ≡ true) (unsynced t)
      → unsynced (mark_all js t) ≡ []
  unfolding mark_all
  mark_all-covers [] t a = none_unsynced t a
  mark_all-covers (j ∷ js) t a =
      mark_all-covers js (mark_synced j.id t) (mark_synced-covers j.id js t a)

  -- A batch that is shorter than it may be leaves no row unsynced.
  pub short_batch :
      (limit : ℕ) (t : Table)
      → length (list_unsynced cutoff limit t) < limit
      → unsynced (mark_all (list_unsynced cutoff limit t) t) ≡ []
  unfolding list_unsynced
  short_batch limit t h =
      let whole = take_all limit (sort_by older (unsynced t)) h in
      rw whole (
        mark_all-covers (sort_by older (unsynced t)) t (
          All-map (unsynced t) (λ r h. any-sort_by older (λ j. j.id == r.id) (unsynced t) ∙ h)
            (found_itself (unsynced t))))

  -- A batch that is not empty leaves fewer rows unsynced.
  pub batch_progress :
      (limit : ℕ) (t : Table) {j : Job} {js : List Job}
      → list_unsynced cutoff limit t ≡ j ∷ js
      → length (unsynced (mark_all (list_unsynced cutoff limit t) t)) < length (unsynced t)
  unfolding list_unsynced mark_all
  batch_progress limit t {j} {js} e =
      let members = take-All _ limit (sort_by older (unsynced t)) (
        sort_by-All_any older (λ j. any (λ r. (r.id == j.id) && is_unsynced cutoff r) t ≡ true)
          (unsynced t) (keep-found (is_unsynced cutoff) t)) in
      let first = rw e at members in
      rw e (omega (arith, mark_all-fewer js (mark_synced j.id t), mark_synced-less j.id t first.0))

  -- An empty batch, of a limit that is not 0, says that no row is unsynced.
  pub empty_batch :
      (limit : ℕ) (t : Table) → 0 < limit → list_unsynced cutoff limit t ≡ [] → unsynced t ≡ []
  unfolding list_unsynced
  empty_batch limit t pos e =
      let whole = take_all limit (sort_by older (unsynced t)) (rw e pos) in
      no_members (unsynced t) (sym (length-sort_by older (unsynced t)) ∙ ap length (sym whole ∙ e))
    where
      no_members : (l : List Job) → length l ≡ 0 → l ≡ []
      no_members [] h = refl
      no_members (x ∷ l) h = absurd (omega arith)
