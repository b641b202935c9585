-- ===== src/Db/Postgres.antt =====
-- infra/repositories/postgres_job_repo.rs: how the worker takes jobs from the queue in PostgreSQL. The rows
-- that other transactions have locked are a parameter; the order of `RETURNING` is that of the table.
pub mod Earliest
use booking_backend.Prelude.{
  ℕ, String, Bool, ◌&&◌, not, List, leb, keep, any, map, take, order_by, ◌==◌,
}
use booking_backend.Outcome.{Outcome, ok}
use booking_backend.Models.{Instant, Job}
use booking_backend.Env.{Env}
use booking_backend.Db.{Db, Exec, execute, update_where, utc_now, ◌>>=◌}
use booking_backend.Db.Jobs.{is_due}
use booking_backend.Db.Jobs.Claim.{taken}

-- `FOR UPDATE SKIP LOCKED` passes over the rows that are locked.
abbrev pub is_free : (String → Bool) → Instant → Job → Bool
is_free locked now j = is_due now j && not (locked j.id)

abbrev pub is_earlier : Job → Job → Bool
is_earlier i j = leb i.execute_at j.execute_at

-- `SELECT id … ORDER BY execute_at ASC LIMIT $2`
unfoldable pub earliest : (String → Bool) → Instant → ℕ → List Job → List Job
earliest locked now limit jobs = take limit (order_by is_earlier (keep (is_free locked now) jobs))

-- `id IN (…)`
abbrev pub is_among : List Job → Job → Bool
is_among rows j = any (λ (i : Job). i.id == j.id) rows

-- The jobs as they are after the update, and the table.
unfoldable pub claim_earliest : (String → Bool) → Instant → ℕ → List Job → List Job × List Job
claim_earliest locked now limit jobs =
    let p = is_among (earliest locked now limit jobs) in
    (map taken (keep p jobs), update_where p taken jobs)

unfoldable pub claim_earliest_rows : (String → Bool) → Instant → ℕ → Db → Outcome (List Job × Db)
claim_earliest_rows locked now limit db =
    let (batch, jobs) = claim_earliest locked now limit db.jobs in
    ok (batch, record db { jobs = jobs })

unfoldable pub find_pending_earliest : Env → (String → Bool) → ℕ → Exec (List Job)
find_pending_earliest env locked limit = do
  now ← utc_now env
  execute (claim_earliest_rows locked now limit)
