-- ===== src/Worker/Drain.antt =====
-- Rounds of the worker's loop empty the queue (background.rs, infra/repositories/sqlite_job_repo.rs).
use booking_backend.Prelude.{ℕ, zero, suc, ◌+◌, ◌*◌, ◌≤◌, ◌≡◌, ◌⊎◌, refl, inl, inr, arith}
use booking_backend.Outcome.{ok}
use booking_backend.Models.{Instant}
use booking_backend.Env.{Env}
use booking_backend.Db.{St, pure, utc_now, ◌>>=◌}
use booking_backend.Db.Jobs.{claim, claim_rows, find_pending, is_due}
use booking_backend.Db.Jobs.Claim.{count, at_most, claim-length}
use booking_backend.Worker.Mailer.{Mailer}
use booking_backend.Worker.Process.{round, rounds}
use booking_backend.Worker.Clears.{
  is_pending, claim-count_due, claim-count_pending, claim-count_early, count-due_later,
  count-due_pending, bind-done, work_all-Clears,
}

module _ {env : Env} (mailer : Mailer env) where
  -- A round takes ten jobs, or all that are due, and makes none wait.
  round-ok :
      (early : Instant) (s : St)
      → early ≤ env.now_at s.calls
      → ((round mailer s).0 ≡ ok tt)
        × (count (is_due early) (round mailer s).1.db.jobs ≤ count (is_due early) s.db.jobs)
        × ((count (is_due early) (round mailer s).1.db.jobs ≡ 0)
            ⊎ (count is_pending (round mailer s).1.db.jobs + 10 ≤ count is_pending s.db.jobs))
  unfolding round find_pending claim_rows utc_now ◌>>=◌
  round-ok early s since =
      let now = env.now_at s.calls in
      let (batch, left) = claim now 10 s.db.jobs in
      let s' : St = record {
        db = record s.db { jobs = left };
        calls = suc s.calls;
        sent = s.sent;
      } in
      let all = work_all-Clears mailer batch in
      let due₁ = all.due early s' in
      let pending₁ = all.pending s' in
      let due₂ = claim-count_due now 10 s.db.jobs in
      let pending₂ = claim-count_pending now 10 s.db.jobs in
      let due₃ = claim-count_early early now 10 s.db.jobs in
      let due₄ = count-due_later early now left since in
      let size = claim-length now 10 s.db.jobs in
      (all.done s', omega arith, split due₁ due₄ due₂ pending₁ pending₂ size)
    where
      split :
          {d d' n n' b p p' q : ℕ}
          → d ≤ d'
          → d' ≤ n'
          → b + n' ≡ n
          → q ≤ p'
          → b + p' ≡ p
          → b ≡ at_most 10 n
          → (d ≡ 0) ⊎ (q + 10 ≤ p)
      split h₁ h₂ h₃ h₄ h₅ h₆ = ground arith

  rounds-fewer :
      (early : Instant) (n : ℕ) (s : St)
      → ((k : ℕ) → early ≤ env.now_at k)
      → ((rounds mailer n s).0 ≡ ok tt)
        × (count (is_due early) (rounds mailer n s).1.db.jobs ≤ count (is_due early) s.db.jobs)
  unfolding rounds pure
  rounds-fewer early zero s since = (refl, ground arith)
  rounds-fewer early (suc n) s since =
      let (done, fewer, _) = round-ok early s (since s.calls) in
      let (rest, less) = rounds-fewer early n (round mailer s).1 since in
      rw (bind-done (round mailer) (λ _. rounds mailer n) s done) (rest, omega arith)

  -- The worker drains the queue. Let every reading of the clock be at `early` or later. After as many rounds
  -- as there are tens of waiting jobs, rounded up, or more, no job waits that is due by `early`, whatever
  -- the jobs are and the mail service answers; and the rounds succeed.
  pub rounds-drain :
      (early : Instant) (n : ℕ) (s : St)
      → ((k : ℕ) → early ≤ env.now_at k)
      → count is_pending s.db.jobs ≤ n * 10
      → ((rounds mailer n s).0 ≡ ok tt) × (count (is_due early) (rounds mailer n s).1.db.jobs ≡ 0)
  unfolding rounds pure
  rounds-drain early zero s since few =
      let none_waits = count-due_pending early s.db.jobs in (refl, omega arith)
  rounds-drain early (suc n) s since few =
      let (done, fewer, progress) = round-ok early s (since s.calls) in
      rw (bind-done (round mailer) (λ _. rounds mailer n) s done) (elim progress [
        | inl empty ↦
            let (rest, less) = rounds-fewer early n (round mailer s).1 since in (rest, omega arith)
        | inr ten ↦ rounds-drain early n (round mailer s).1 since (omega arith)
      ])
