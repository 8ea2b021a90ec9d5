-- ===== src/Tests/Health.antt =====
-- The health server's replies when Redis times out, and for a loop that still beats.
use symmetrical_disco.Base.{◌≡◌, refl, false, some, [], ◌∷◌}
use symmetrical_disco.Health.{
  answered, failed_with, timeout_error, HealthReply, unavailable, passed, errored, ready, judge,
  all_passed,
}

abbrev degraded : HealthReply
degraded = record {
  code = 503;
  status = unavailable;
  checks = ("postgres", passed) ∷ ("redis", errored) ∷ [];
}

replies : ready false answered (failed_with timeout_error) ≡ some degraded
unfolding ready judge all_passed
replies = refl
