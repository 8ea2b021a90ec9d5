-- ===== src/Repository/History.antt =====
-- What holds of one row over any sequence of statements of app/repository.py.
use symmetrical_disco.Base.{◌≡◌, refl, ◌∙◌, ap, ◌⊎◌, inl, inr, some, arith}
use symmetrical_disco.Models.{Job, JobId, JobStatus, completed, cancelled}
use symmetrical_disco.Repository.{Table, find_job, has_id}
use symmetrical_disco.Repository.Steps.{Steps, here, next, Edge, Moves, Step-Moves}

-- Paths in the status diagram.
pub data Route : JobStatus → JobStatus → Type 0 where
  arrived : {s : JobStatus} → Route s s
  via : {s t u : JobStatus} → Edge s t → Route t u → Route s u

-- A row that no statement changes any more, but for its sync flag.
abbrev pub IsSettled : Job → Type 0
IsSettled j = (j.status ≡ completed) ⊎ (j.status ≡ cancelled)

-- What the later row keeps of the earlier.
pub record Follows (j k : Job) : Type 0 where
  pub route : Route j.status k.status
  pub same_owner : k.user_id ≡ j.user_id
  pub same_request :
      (k.type ≡ j.type)
      × (k.payload ≡ j.payload)
      × (k.priority ≡ j.priority)
      × (k.max_attempts ≡ j.max_attempts)
      × (k.created_at ≡ j.created_at)
  pub same_key : (k.idempotency_key ≡ j.idempotency_key) × (k.idempotency_hash ≡ j.idempotency_hash)

follow : {j k l : Job} → Moves j k → Follows k l → Follows j l
follow m f = record {
  route = via m.edge f.route;
  same_owner = f.same_owner ∙ m.same_owner;
  same_request = ground (arith, m.same_request, f.same_request);
  same_key = ground (arith, m.same_key, f.same_key);
}

-- No sequence of statements loses a row, leaves the status diagram, or changes whose job it is, what
-- was asked for, or under which idempotency key.
pub Steps-Follows :
    {t u : Table} (i : JobId) {j : Job}
    → Steps t u
    → find_job (has_id i) t ≡ some j
    → (k : Job) × (find_job (has_id i) u ≡ some k) × Follows j k
Steps-Follows i {j} here e = (
  j,
  e,
  record {
    route = arrived;
    same_owner = refl;
    same_request = ground arith;
    same_key = ground arith;
  },
)
Steps-Follows i (next s r) e =
    let (k, found, m) = Step-Moves i s e in
    let (l, last, f) = Steps-Follows i r found in (l, last, follow m f)

refrozen :
    (j k l : Job)
    → k ≡ record j { is_synced_to_redis = k.is_synced_to_redis }
    → l ≡ record k { is_synced_to_redis = l.is_synced_to_redis }
    → l ≡ record j { is_synced_to_redis = l.is_synced_to_redis }
refrozen j k l e f = f ∙ ap (λ (r : Job). record r { is_synced_to_redis = l.is_synced_to_redis }) e

settled :
    (j k : Job)
    → IsSettled j
    → k ≡ record j { is_synced_to_redis = k.is_synced_to_redis }
    → IsSettled k
settled j k (inl d) e = inl (ap (λ (r : Job). r.status) e ∙ d)
settled j k (inr d) e = inr (ap (λ (r : Job). r.status) e ∙ d)

-- A completed or cancelled row is final.
pub Steps-settled :
    {t u : Table} (i : JobId) {j : Job}
    → Steps t u
    → find_job (has_id i) t ≡ some j
    → IsSettled j
    → (k : Job) × (find_job (has_id i) u ≡ some k)
      × (k ≡ record j { is_synced_to_redis = k.is_synced_to_redis })
Steps-settled i {j} here e d = (j, e, refl)
Steps-settled i {j} (next s r) e d =
    let (k, found, m) = Step-Moves i s e in
    let same = m.frozen d in
    let (l, last, f) = Steps-settled i r found (settled j k d same) in
    (l, last, refrozen j k l same f)
