-- ===== src/Health/Ready.antt =====
-- When the routes of app/core/healthcheck.py reply 200.
use symmetrical_disco.Base.{
  ℕ, ◌+◌, ◌-◌, ◌≤◌, ◌≡◌, ◌↔◌, refl, sym, ap, ◌∙◌, Bool, true, false, Option, none, some, [], ◌∷◌,
  arith, leb, Bool-cases, inl, inr,
}
use symmetrical_disco.Models.{Time}
use symmetrical_disco.Health.{
  Heartbeat, health, age, Probe, answered, failed_with, Check, passed, errored, check_any,
  redis_error, timeout_error, database_error, other_error, is_passed, HealthReply, judge,
  all_passed, ready,
}

-- The liveness route replies 200 as long as the last beat is not older than the threshold.
pub health-alive :
    (max_age : ℕ) (now : Time) (h : Heartbeat)
    → ((health max_age now h).code ≡ 200) ↔ (now ≤ h.last + max_age)
unfolding health age
health-alive max_age now h = elim (Bool-cases (leb (now - h.last) max_age)) [
  | inl fresh ↦ rw fresh (λ _. ground arith, λ _. refl)
  | inr old ↦ rw old (λ same. absurd (omega arith), λ recent. absurd (ground arith))
]

answered_any : (p : Probe) → is_passed (check_any p) ≡ true → p ≡ answered
answered_any answered h = refl
answered_any (failed_with e) h = cc

judge-code :
    (p c : Check)
    → ((judge (("postgres", p) ∷ ("redis", c) ∷ [])).code ≡ 200)
      ↔ ((is_passed p ≡ true) × (is_passed c ≡ true))
unfolding judge all_passed
judge-code p c = elim (Bool-cases (is_passed p)) [
  | inl a ↦ elim (Bool-cases (is_passed c)) [
    | inl b ↦ rw (a, b) (λ _. (refl, refl), λ _. refl)
    | inr b ↦ rw (a, b) (λ same. absurd (omega arith), λ both. cc)
  ]
  | inr a ↦ rw a (λ same. absurd (omega arith), λ both. cc)
]

abbrev code_of : Option HealthReply → ℕ
code_of none = 0
code_of (some r) = r.code

-- The code of the reply, by what the two entries say of their probes.
pub judged-code :
    (p q : Probe) (a b : Check) (reply : HealthReply)
    → some (judge (("postgres", a) ∷ ("redis", b) ∷ [])) ≡ some reply
    → ((is_passed a ≡ true) ↔ (p ≡ answered))
    → ((is_passed b ≡ true) ↔ (q ≡ answered))
    → (reply.code ≡ 200) ↔ ((p ≡ answered) × (q ≡ answered))
judged-code p q a b reply e postgres redis =
    let code = ap code_of e in
    let (read, write) = judge-code a b in
    (
      λ same. (postgres.0 (read (code ∙ same)).0, redis.0 (read (code ∙ same)).1),
      λ both. sym code ∙ write (postgres.1 both.0, redis.1 both.1),
    )

answered_only : (p : Probe) → (is_passed (check_any p) ≡ true) ↔ (p ≡ answered)
answered_only p = (answered_any p, λ h. ap (λ x. is_passed (check_any x)) h)

not_draining :
    (p q : Probe) (reply : HealthReply)
    → (reply.code ≡ 200) ↔ ((p ≡ answered) × (q ≡ answered))
    → (reply.code ≡ 200) ↔ ((false ≡ false) × ((p ≡ answered) × (q ≡ answered)))
not_draining p q reply (read, write) = (λ same. (refl, read same), λ both. write both.1)

-- A reply of the readiness route is 200 exactly if the process is not draining and both backends
-- answered.
pub ready-answered :
    (d : Bool) (p q : Probe) (reply : HealthReply)
    → ready d p q ≡ some reply
    → (reply.code ≡ 200) ↔ ((d ≡ false) × ((p ≡ answered) × (q ≡ answered)))
unfolding ready
ready-answered true p q reply e =
    let code : 503 ≡ reply.code = ap code_of e in
    (λ same. absurd (omega arith), λ both. let never = both.0 in cc)
ready-answered false p answered reply e =
    not_draining p answered reply
      (judged-code p answered (check_any p) passed reply e (answered_only p) (λ _. refl, λ _. refl))
ready-answered false p (failed_with redis_error) reply e =
    not_draining p (failed_with redis_error) reply (
      judged-code p (failed_with redis_error) (check_any p) errored reply e (answered_only p)
        (λ never. cc, λ never. cc))
ready-answered false p (failed_with timeout_error) reply e =
    not_draining p (failed_with timeout_error) reply (
      judged-code p (failed_with timeout_error) (check_any p) errored reply e (answered_only p)
        (λ never. cc, λ never. cc))
ready-answered false p (failed_with database_error) reply e = cc
ready-answered false p (failed_with other_error) reply e = cc
