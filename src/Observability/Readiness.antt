-- ===== src/Observability/Readiness.antt =====
-- `check_readiness` of app/observability.py and the route `/ready` of app/api/routes.py.
use symmetrical_disco.Base.{
  ◌≡◌, ◌↔◌, refl, sym, ap, Bool, true, false, Option, none, some, [], ◌∷◌, Option-cases, inl, inr,
}
use symmetrical_disco.Health.{
  Probe, answered, failed_with, database_error, redis_error, timeout_error, other_error, Check,
  passed, errored, HealthReply, judge, is_passed,
}
use symmetrical_disco.Health.Ready.{judged-code}

-- `except SQLAlchemyError` and `except redis.RedisError`; `none` is another exception.
abbrev pub check_postgres : Probe → Option Check
check_postgres answered = some passed
check_postgres (failed_with database_error) = some errored
check_postgres (failed_with e) = none

abbrev pub check_ping : Probe → Option Check
check_ping answered = some passed
check_ping (failed_with redis_error) = some errored
check_ping (failed_with e) = none

abbrev both_checks : Option Check → Option Check → Option HealthReply
both_checks (some a) (some b) = some (judge (("postgres", a) ∷ ("redis", b) ∷ []))
both_checks a b = none

-- The route, with `check_readiness`; `none` is an exception that it lets through.
unfoldable pub api_ready : Probe → Probe → Option HealthReply
api_ready postgres redis = both_checks (check_postgres postgres) (check_ping redis)

passes : Option Check → Bool
passes none = false
passes (some c) = is_passed c

check_postgres-passed :
    (p : Probe) {a : Check} → check_postgres p ≡ some a → (is_passed a ≡ true) ↔ (p ≡ answered)
unfolding passes
check_postgres-passed answered e = (λ _. refl, λ _. sym (ap passes e))
check_postgres-passed (failed_with database_error) e =
    let failed : false ≡ is_passed _ = ap passes e in (λ h. cc, λ never. cc)
check_postgres-passed (failed_with redis_error) e = cc
check_postgres-passed (failed_with timeout_error) e = cc
check_postgres-passed (failed_with other_error) e = cc

check_ping-passed :
    (q : Probe) {b : Check} → check_ping q ≡ some b → (is_passed b ≡ true) ↔ (q ≡ answered)
unfolding passes
check_ping-passed answered e = (λ _. refl, λ _. sym (ap passes e))
check_ping-passed (failed_with redis_error) e =
    let failed : false ≡ is_passed _ = ap passes e in (λ h. cc, λ never. cc)
check_ping-passed (failed_with database_error) e = cc
check_ping-passed (failed_with timeout_error) e = cc
check_ping-passed (failed_with other_error) e = cc

-- The API is ready exactly if both backends answered: a failure of the one does not hide the other.
pub api_ready-answered :
    (p q : Probe) (reply : HealthReply)
    → api_ready p q ≡ some reply
    → (reply.code ≡ 200) ↔ ((p ≡ answered) × (q ≡ answered))
unfolding api_ready
api_ready-answered p q reply e = elim (Option-cases (check_postgres p)) [
  | inl never ↦ let left : none ≡ some reply = rw never at e in cc
  | inr (a, postgres) ↦ elim (Option-cases (check_ping q)) [
    | inl never ↦ let left : none ≡ some reply = rw (postgres, never) at e in cc
    | inr (b, redis) ↦
        judged-code p q a b reply (rw (postgres, redis) at e) (check_postgres-passed p postgres)
          (check_ping-passed q redis)
  ]
]
