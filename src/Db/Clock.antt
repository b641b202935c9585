-- ===== src/Db/Clock.antt =====
-- What the clock answers, and a new job (domain/models/job.rs): each call takes the next number.
use booking_backend.Prelude.{◌≡◌, String, suc, none, arith}
use booking_backend.Outcome.{ok}
use booking_backend.Models.{Instant, Job}
use booking_backend.Env.{Env}
use booking_backend.Db.{St, utc_now, ◌>>=◌}
use booking_backend.Db.Jobs.{new_job}

pub utc_now-ok :
    (env : Env) (now : Instant) (s t : St)
    → utc_now env s ≡ (ok now, t)
    → (now ≡ env.now_at s.calls) × (t ≡ record s { calls = suc s.calls })
unfolding utc_now
utc_now-ok env now s t h = ground arith

pub new_job-ok :
    (env : Env) (kind to tenant : String) (at : Instant) (j : Job) (s t : St)
    → new_job env kind to tenant at s ≡ (ok j, t)
    → (j ≡ record {
      id = env.uuid_at s.calls;
      job_type = kind;
      payload = record { booking_id = to; tenant_id = tenant };
      execute_at = at;
      status = "PENDING";
      error_message = none;
      created_at = env.now_at (suc s.calls);
    })
      × (t ≡ record s { calls = suc (suc s.calls) })
unfolding new_job ◌>>=◌
new_job-ok env kind to tenant at j s t h = ground arith
