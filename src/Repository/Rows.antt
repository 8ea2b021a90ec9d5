-- ===== src/Repository/Rows.antt =====
-- How an UPDATE of app/repository.py acts on the rows of a table, one by one.
use symmetrical_disco.Base.{
  ◌≡◌, refl, Bool, true, false, inl, inr, some, [], ◌∷◌, map, arith, if◌then◌else◌, any, All,
  Bool-cases,
}
use mathlib.Core.Option
use symmetrical_disco.Models.{Job, JobId}
use symmetrical_disco.Repository.{Table, update_where, insert_row, find_job, has_id, clashes}

-- A row after an UPDATE.
abbrev pub updated : (Job → Bool) → (Job → Job) → Job → Job
updated p f j = if p j then f j else j

module _ (p : Job → Bool) (f : Job → Job) where
  pub update_where-map : (t : Table) → (update_where p f t).0 ≡ map (updated p f) t
  unfolding update_where
  update_where-map [] = refl
  update_where-map (j ∷ js) = ground (arith, update_where-map js)

  pub update_where-none : (t : Table) → All (λ j. p j ≡ false) t → update_where p f t ≡ (t, 0)
  unfolding update_where
  update_where-none [] h = refl
  update_where-none (j ∷ js) h = rw (update_where-none js h.1, h.0)

  pub update_where-All {κ} :
      (P : Job → Type κ)
      → ((j : Job) → P j → p j ≡ true → P (f j))
      → (t : Table) → All P t
      → All P (update_where p f t).0
  unfolding update_where
  update_where-All P h [] a = tt
  update_where-All P h (j ∷ js) a = elim (Bool-cases (p j)) [
    | inl e ↦ rw e (h j a.0 e, update_where-All P h js a.1)
    | inr e ↦ rw e (a.0, update_where-All P h js a.1)
  ]

  pub All-update_where {κ} :
      (P : Job → Type κ)
      → ((j : Job) → p j ≡ true → P (f j))
      → ((j : Job) → p j ≡ false → P j)
      → (t : Table) → All P (update_where p f t).0
  unfolding update_where
  All-update_where P h g [] = tt
  All-update_where P h g (j ∷ js) = elim (Bool-cases (p j)) [
    | inl e ↦ rw e (h j e, All-update_where P h g js)
    | inr e ↦ rw e (g j e, All-update_where P h g js)
  ]

  pub find-update_where :
      (i : JobId)
      → ((j : Job) → (f j).id ≡ j.id)
      → (t : Table)
      → find_job (has_id i) (update_where p f t).0
        ≡ Option.map (updated p f) (find_job (has_id i) t)
  unfolding update_where find_job
  find-update_where i k [] = refl
  find-update_where i k (j ∷ js) = ground (arith, k j, find-update_where i k js)

pub find_job_sound : (p : Job → Bool) (t : Table) {j : Job} → find_job p t ≡ some j → p j ≡ true
unfolding find_job
find_job_sound p [] e = cc
find_job_sound p (j ∷ js) e = elim (Bool-cases (p j)) [
  | inl h ↦ ground arith
  | inr h ↦ find_job_sound p js (ground arith)
]

-- A row that is found is none that `any` refuses.
pub not-any_of_find :
    (i : JobId) (q : Job → Bool) (t : Table) {j : Job}
    → any q t ≡ false
    → find_job (has_id i) t ≡ some j
    → q j ≡ false
unfolding find_job
not-any_of_find i q [] a e = cc
not-any_of_find i q (k ∷ ks) a e = elim (Bool-cases (has_id i k)) [
  | inl h ↦ ground arith
  | inr h ↦ not-any_of_find i q ks (ground arith) (ground arith)
]

pub insert_row-some :
    (n : Job) (t : Table) {u : Table}
    → insert_row n t ≡ some u
    → (any (clashes n) t ≡ false) × (u ≡ n ∷ t)
unfolding insert_row
insert_row-some n t e = ground arith

-- A new row hides none of the old.
pub find-insert_row :
    (i : JobId) (n : Job) (t : Table) {t' : Table} {j : Job}
    → insert_row n t ≡ some t'
    → find_job (has_id i) t ≡ some j
    → find_job (has_id i) t' ≡ some j
unfolding insert_row find_job
find-insert_row i n t {t'} {j} e h = elim (Bool-cases (any (clashes n) t)) [
  | inl c ↦ ground arith
  | inr c ↦
      ground
        (arith, not-any_of_find i (clashes n) t {j = j} c h, find_job_sound (has_id i) t {j = j} h)
]
