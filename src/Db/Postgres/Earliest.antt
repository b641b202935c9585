-- ===== src/Db/Postgres/Earliest.antt =====
-- Which jobs the queue in PostgreSQL hands out (infra/repositories/postgres_job_repo.rs).
use booking_backend.Prelude.{
  ℕ, ◌≤◌, ◌≡◌, ◌⊎◌, Bool, true, false, List, [], ◌∷◌, In, All, ◌==◌, String,
}
use booking_backend.Models.{Instant, Job}
use booking_backend.Db.Jobs.Claim.{taken}
use booking_backend.Db.Postgres.{is_free, earliest, is_among, claim_earliest}

-- Every job is no later than those behind it.
abbrev IsQueue : List Job → Type 0
IsQueue [] = Unit
IsQueue (j ∷ js) = ((k : Job) → In k js → j.execute_at ≤ k.execute_at) × IsQueue js

module _ (locked : String → Bool) (now : Instant) (limit : ℕ) (jobs : List Job) where
  -- A job that the statement may not hand out, that it selects, or that is not earlier than `i`.
  abbrev pub NotBefore : Job → Job → Type 0
  NotBefore i k =
      (is_free locked now k ≡ false)
      ⊎ ((is_among (earliest locked now limit jobs) k ≡ true) ⊎ (i.execute_at ≤ k.execute_at))

  -- A selected row: it is a due row of the table that no other transaction has locked, no such row that is left
  -- behind is earlier, and it is handed out, marked as taken.
  pub record IsSelected (i : Job) : Type 0 where
    pub row : In i jobs
    pub waits : (i.status == "PENDING") ≡ true
    pub due : i.execute_at ≤ now
    pub unlocked : locked i.id ≡ false
    pub first : All (NotBefore i) jobs
    pub handed : In (taken i) (claim_earliest locked now limit jobs).0
