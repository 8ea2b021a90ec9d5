-- ===== src/Tests/Observability.antt =====
-- Live workers at concrete replies: `w1` is stale on one stream and fresh on another, `w2` is stale.
use symmetrical_disco.Base.{ℕ, ◌≡◌, refl, String, List, [], ◌∷◌, keep, length}
use symmetrical_disco.Models.{failed, pending}
use symmetrical_disco.Observability.{
  live_worker_count, min_idle, min_idle_rows, zero_fill_status_counts, fill_counts,
}
use symmetrical_disco.Observability.Liveness.{all_rows, is_live, add_names}
use symmetrical_disco.Observability.Count.{live_worker_count-names}

abbrev replies : List (List (String × ℕ))
replies = (("w1", 900) ∷ ("w2", 800) ∷ []) ∷ (("w1", 5) ∷ []) ∷ [] ∷ []

one_is_live : live_worker_count replies 100 ≡ 1
unfolding live_worker_count min_idle min_idle_rows
one_is_live = refl

live_worker_count-names_example :
    live_worker_count replies 100
    ≡ length (keep (is_live 100 (all_rows replies)) (add_names [] (all_rows replies)))
live_worker_count-names_example = live_worker_count-names replies 100

no_failed : zero_fill_status_counts ((pending, 3) ∷ []) failed ≡ 0
unfolding zero_fill_status_counts fill_counts
no_failed = refl
