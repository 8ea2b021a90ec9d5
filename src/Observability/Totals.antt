-- ===== src/Observability/Totals.antt =====
-- The counts by status of app/observability.py against the rows of the table.
use symmetrical_disco.Base.{
  ℕ, suc, ◌≡◌, refl, sym, ap, ◌∙◌, true, false, List, [], ◌∷◌, keep, length, All, Bool-cases, inl,
  inr, if◌then◌else◌,
}
use mathlib.Core.Path.{subst}
use symmetrical_disco.Models.{
  JobStatus, scheduled, pending, processing, completed, failed, cancelled, same_status,
}
use symmetrical_disco.Repository.{Table}
use symmetrical_disco.Observability.{fill_counts, set_count, zero_fill_status_counts}
use symmetrical_disco.Observability.Stats.{bump, group_by_status}

same_status_eq : (a b : JobStatus) → same_status a b ≡ true → a ≡ b
same_status_eq scheduled b = elim b as (λ k. same_status scheduled k ≡ true → scheduled ≡ k) [
  | scheduled ↦ λ h. refl
  | _ ↦ λ h. cc
]
same_status_eq pending b = elim b as (λ k. same_status pending k ≡ true → pending ≡ k) [
  | pending ↦ λ h. refl
  | _ ↦ λ h. cc
]
same_status_eq processing b = elim b as (λ k. same_status processing k ≡ true → processing ≡ k) [
  | processing ↦ λ h. refl
  | _ ↦ λ h. cc
]
same_status_eq completed b = elim b as (λ k. same_status completed k ≡ true → completed ≡ k) [
  | completed ↦ λ h. refl
  | _ ↦ λ h. cc
]
same_status_eq failed b = elim b as (λ k. same_status failed k ≡ true → failed ≡ k) [
  | failed ↦ λ h. refl
  | _ ↦ λ h. cc
]
same_status_eq cancelled b = elim b as (λ k. same_status cancelled k ≡ true → cancelled ≡ k) [
  | cancelled ↦ λ h. refl
  | _ ↦ λ h. cc
]

same_status_refl : (a : JobStatus) → same_status a a ≡ true
same_status_refl scheduled = refl
same_status_refl pending = refl
same_status_refl processing = refl
same_status_refl completed = refl
same_status_refl failed = refl
same_status_refl cancelled = refl

same_status_apart : (a b : JobStatus) → same_status a b ≡ false → same_status b a ≡ false
same_status_apart a b h = elim (Bool-cases (same_status b a)) [
  | inl same ↦
      let both : same_status a b ≡ true =
        ap (λ x. same_status x b) (sym (same_status_eq b a same)) ∙ same_status_refl b in
      cc
  | inr apart ↦ apart
]

abbrev Rows : Type 0
Rows = List (JobStatus × ℕ)

abbrev pub count : JobStatus → Table → ℕ
count s t = length (keep (λ j. same_status j.status s) t)

-- Each status stands in one row at most.
abbrev IsGrouped : Rows → Type 0
IsGrouped [] = Unit
IsGrouped (r ∷ rows) =
    All (λ (q : JobStatus × ℕ). same_status q.0 r.0 ≡ false) rows × IsGrouped rows

fill_counts-same :
    (rows : Rows) (b c : JobStatus → ℕ) (t : JobStatus)
    → b t ≡ c t
    → fill_counts rows b t ≡ fill_counts rows c t
unfolding fill_counts
fill_counts-same [] b c t h = h
fill_counts-same ((k, n) ∷ rows) b c t h =
    fill_counts-same rows _ _ t (ap (λ m. if same_status k t then n else m) h)

fill_counts-missing :
    (rows : Rows) (b : JobStatus → ℕ) (t : JobStatus)
    → All (λ (q : JobStatus × ℕ). same_status q.0 t ≡ false) rows
    → fill_counts rows b t ≡ b t
unfolding fill_counts
fill_counts-missing [] b t a = refl
fill_counts-missing ((k, n) ∷ rows) b t a = fill_counts-missing rows _ t a.1 ∙ rw a.0 refl

-- A row of that status more.
fill_counts-bump :
    (rows : Rows) (b : JobStatus → ℕ) (s : JobStatus)
    → IsGrouped rows
    → b s ≡ 0
    → fill_counts (bump s rows) b s ≡ suc (fill_counts rows b s)
unfolding fill_counts bump
fill_counts-bump [] b s g e = rw (same_status_refl s, e) refl
fill_counts-bump ((k, n) ∷ rows) b s g e = elim (Bool-cases (same_status k s)) [
  | inl same ↦
      let others =
        subst (λ x. All (λ (q : JobStatus × ℕ). same_status q.0 x ≡ false) rows)
          (same_status_eq k s same) g.0 in
      let new : set_count k (suc n) b s ≡ suc n = rw same refl in
      let old : set_count k n b s ≡ n = rw same refl in
      rw same (
        fill_counts-missing rows (set_count k (suc n) b) s others
        ∙ new
        ∙ ap suc (sym (fill_counts-missing rows (set_count k n b) s others ∙ old)))
  | inr other ↦ rw other (fill_counts-bump rows (set_count k n b) s g.1 (rw other e))
]

-- Of the other statuses as many.
fill_counts-bump_other :
    (rows : Rows) (b : JobStatus → ℕ) (s t : JobStatus)
    → same_status s t ≡ false
    → fill_counts (bump s rows) b t ≡ fill_counts rows b t
unfolding fill_counts bump
fill_counts-bump_other [] b s t other = rw other refl
fill_counts-bump_other ((k, n) ∷ rows) b s t other = elim (Bool-cases (same_status k s)) [
  | inl same ↦
      let apart : same_status k t ≡ false =
        ap (λ x. same_status x t) (same_status_eq k s same) ∙ other in
      rw same (fill_counts-same rows _ _ t (rw apart refl))
  | inr differs ↦ rw differs (fill_counts-bump_other rows (set_count k n b) s t other)
]

bump-All :
    (P : JobStatus → Type 0) (s : JobStatus) (rows : Rows)
    → P s
    → All (λ (q : JobStatus × ℕ). P q.0) rows
    → All (λ (q : JobStatus × ℕ). P q.0) (bump s rows)
unfolding bump
bump-All P s [] p a = (p, tt)
bump-All P s ((k, n) ∷ rows) p a = elim (Bool-cases (same_status k s)) [
  | inl same ↦ rw same a
  | inr other ↦ rw other (a.0, bump-All P s rows p a.1)
]

bump-IsGrouped : (s : JobStatus) (rows : Rows) → IsGrouped rows → IsGrouped (bump s rows)
unfolding bump
bump-IsGrouped s [] g = (tt, tt)
bump-IsGrouped s ((k, n) ∷ rows) g = elim (Bool-cases (same_status k s)) [
  | inl same ↦ rw same g
  | inr other ↦ rw other (
    bump-All (λ x. same_status x k ≡ false) s rows (same_status_apart k s other) g.0,
    bump-IsGrouped s rows g.1,
  )
]

group_by_status-IsGrouped : (t : Table) → IsGrouped (group_by_status t)
unfolding group_by_status
group_by_status-IsGrouped [] = tt
group_by_status-IsGrouped (j ∷ t) =
    bump-IsGrouped j.status (group_by_status t) (group_by_status-IsGrouped t)

-- The zero-filled reply of the GROUP BY counts, for every status, the rows that have it.
pub zero_fill-group_by_status :
    (t : Table) (s : JobStatus) → zero_fill_status_counts (group_by_status t) s ≡ count s t
unfolding zero_fill_status_counts group_by_status
zero_fill-group_by_status [] s = refl
zero_fill-group_by_status (j ∷ t) s = elim (Bool-cases (same_status j.status s)) [
  | inl same ↦
      let eq = same_status_eq j.status s same in
      let more : fill_counts (bump j.status (group_by_status t)) (λ x. 0) s
          ≡ suc (fill_counts (group_by_status t) (λ x. 0) s) =
        subst
          (λ x.
            fill_counts (bump x (group_by_status t)) (λ y. 0) s
            ≡ suc (fill_counts (group_by_status t) (λ y. 0) s))
          (sym eq)
          (fill_counts-bump (group_by_status t) (λ y. 0) s (group_by_status-IsGrouped t) refl) in
      rw same (more ∙ ap suc (zero_fill-group_by_status t s))
  | inr other ↦ rw other (
      fill_counts-bump_other (group_by_status t) (λ x. 0) j.status s other
      ∙ zero_fill-group_by_status t s)
]
