-- ===== src/Tests/Statements.antt =====
-- The theorems about the statements, at the sample table.
use symmetrical_disco.Base.{◌≡◌, refl, true, false, some}
use symmetrical_disco.Models.{Job, null}
use symmetrical_disco.Repository.{find_job, has_id, claim_job, update_where}
use symmetrical_disco.Repository.Steps.{claim, Moves, Step-Moves}
use symmetrical_disco.Repository.Claims.{fails, retries, finish, finish-finish}
use symmetrical_disco.Tests.Samples.{sample, waiting_job}

claim_runs : (claim_job 3000 7 sample).1 ≡ true
unfolding claim_job update_where
claim_runs = refl

finish-finish_example :
    finish retries 9 (finish (fails 3000 null) 9 sample).0
    ≡ ((finish (fails 3000 null) 9 sample).0, false)
finish-finish_example = finish-finish (fails 3000 null) retries 9 sample

Step-Moves_example :
    (k : Job) × (find_job (has_id 7) (claim_job 3000 7 sample).0 ≡ some k) × Moves waiting_job k
unfolding find_job
Step-Moves_example = Step-Moves 7 (claim 3000 7 sample) refl
