-- ===== src/Db/Bookings/Writes.antt =====
-- The transactions of infra/repositories/sqlite_booking_repo.rs: what they write where they succeed,
-- and that they write nothing where they fail.
use booking_backend.Prelude.{
  ◌≡◌, refl, ◌∙◌, sym, ap, subst, inl, inr, String, Bool, true, false, Option, none, some, List, [],
  ◌∷◌, ◌++◌, arith, any, Bool-cases, ◌==◌,
}
use mathlib.Core.List.{append-nil, append_assoc}
use booking_backend.Outcome.{Outcome, ok, err, panic, diverge, conflict}
use booking_backend.Models.{Booking, Job, Invitee}
use booking_backend.Db.{Db, St, Exec, ◌>>=◌, pure, execute, transaction, rollback, update_where}
use booking_backend.Db.Rules.{bind-ok, is_ok}
use booking_backend.Db.Bookings.{
  is_active_token, burn_rows, burn_token, insert_booking_row, insert_job_row, insert_jobs,
  create_with_token,
}

transaction_atomic :
    {A : Type 0} (m : Exec A) (s : St)
    → is_ok (transaction m s).0 ≡ false
    → (transaction m s).1.db ≡ s.db
unfolding transaction
transaction_atomic m s h = let (r, s') = m s in go r s' h
  where
    go :
        {A : Type 0} (r : Outcome A) (t : St)
        → is_ok (rollback r s.db t).0 ≡ false
        → (rollback r s.db t).1.db ≡ s.db
    go (ok a) t h = cc
    go (err e) t h = refl
    go panic t h = refl
    go diverge t h = refl

-- A booking that is not created leaves no trace: the token stays active and no job is queued.
pub create_with_token_atomic :
    (b : Booking) (token : Option String) (jobs : List Job) (s : St)
    → is_ok (create_with_token b token jobs s).0 ≡ false
    → (create_with_token b token jobs s).1.db ≡ s.db
unfolding create_with_token
create_with_token_atomic b token jobs s h = transaction_atomic _ s h

pub transaction-ok :
    {A : Type 0} (m : Exec A) (s : St) {a : A} {t : St}
    → transaction m s ≡ (ok a, t)
    → m s ≡ (ok a, t)
unfolding transaction
transaction-ok m s h = let (r, s') = m s in go r s' h
  where
    go :
        {A : Type 0} (r : Outcome A) (u : St) {a : A} {t : St}
        → rollback r s.db u ≡ (ok a, t)
        → ◌≡◌ {A = Outcome A × St} (r, u) (ok a, t)
    go (ok a) t h = h
    go (err e) t h = absurd (ground arith)
    go panic t h = absurd (ground arith)
    go diverge t h = absurd (ground arith)

-- The invitees after a token is used up.
abbrev pub burnt : Option String → List Invitee → List Invitee
burnt none is = is
burnt (some token) is = update_where (is_active_token token) (λ i. record i { status = "USED" }) is

abbrev pub can_burn : Option String → List Invitee → Bool
can_burn none is = true
can_burn (some token) is = any (is_active_token token) is

burn_token-ok :
    (token : Option String) (s t : St) (u : Unit {0})
    → burn_token token s ≡ (ok u, t)
    → (can_burn token s.db.invitees ≡ true)
      × (t.db ≡ record s.db { invitees = burnt token s.db.invitees })
unfolding burn_token pure execute
burn_token-ok none s t u h = (refl, ap (λ (p : Outcome (Unit {0}) × St). p.1.db) (sym h))
burn_token-ok (some token) s t u h = ground arith

insert_job-ok :
    (j : Job) (s t : St) (k : Job)
    → execute (insert_job_row j) s ≡ (ok k, t)
    → t.db ≡ record s.db { jobs = s.db.jobs ++ j ∷ [] }
unfolding execute insert_job_row
insert_job-ok j s t k h = ground arith

insert_booking-ok :
    (b : Booking) (s t : St) (c : Booking)
    → execute (insert_booking_row b) s ≡ (ok c, t)
    → (c ≡ b)
      × (any (λ r. r.id == b.id) s.db.bookings ≡ false)
      × (t.db ≡ record s.db { bookings = s.db.bookings ++ b ∷ [] })
unfolding execute insert_booking_row
insert_booking-ok b s t c h = ground arith

insert_jobs-ok :
    (jobs : List Job) (s t : St) (u : Unit {0})
    → insert_jobs jobs s ≡ (ok u, t)
    → t.db ≡ record s.db { jobs = s.db.jobs ++ jobs }
unfolding insert_jobs pure
insert_jobs-ok [] s t u h =
    ap (λ (p : Outcome (Unit {0}) × St). p.1.db) (sym h)
    ∙ ap (λ (js : List Job). record s.db { jobs = js }) (sym (append-nil s.db.jobs))
insert_jobs-ok (j ∷ js) s t u h = bind-ok (execute (insert_job_row j)) _ s h λ k s₁ e h₁.
    insert_jobs-ok js s₁ t u h₁
    ∙ ap (λ (db : Db). record db { jobs = db.jobs ++ js }) (insert_job-ok j s s₁ k e)
    ∙ ap (λ (js : List Job). record s.db { jobs = js }) (append_assoc s.db.jobs (j ∷ []) js)

-- The tables after a booking is created.
abbrev pub with_booking : Booking → Option String → List Job → Db → Db
with_booking b token jobs db = record db {
  bookings = db.bookings ++ b ∷ [];
  invitees = burnt token db.invitees;
  jobs = db.jobs ++ jobs;
}

-- A booking that is created stands at the end of its table under an identifier that was free, its jobs
-- stand at the end of the queue, its token was active and is active no more, and nothing else changed.
pub create_with_token-ok :
    (b : Booking) (token : Option String) (jobs : List Job) (s t : St) (c : Booking)
    → create_with_token b token jobs s ≡ (ok c, t)
    → (c ≡ b)
      × (any (λ r. r.id == b.id) s.db.bookings ≡ false)
      × (can_burn token s.db.invitees ≡ true)
      × (t.db ≡ with_booking b token jobs s.db)
unfolding create_with_token pure
create_with_token-ok b token jobs s t c h =
    bind-ok (burn_token token) _ s (transaction-ok _ s h) λ u s₁ e₁ h₁.
      bind-ok (execute (insert_booking_row b)) _ s₁ h₁ λ c' s₂ e₂ h₂.
        bind-ok (insert_jobs jobs) _ s₂ h₂ λ u' s₃ e₃ h₃.
          let (active, db₁) = burn_token-ok token s s₁ u e₁ in
          let (same, free, db₂) = insert_booking-ok b s₁ s₂ c' e₂ in
          let db₃ = insert_jobs-ok jobs s₂ s₃ u' e₃ in
          let table =
            db₃
            ∙ ap (λ (db : Db). record db { jobs = db.jobs ++ jobs })
                (db₂ ∙ ap (λ (db : Db). record db { bookings = db.bookings ++ b ∷ [] }) db₁) in
          (
            ap result (sym h₃) ∙ same,
            subst (λ (db : Db). any (λ r. r.id == b.id) db.bookings ≡ false) db₁ free,
            active,
            ap (λ (p : Outcome Booking × St). p.1.db) (sym h₃) ∙ table,
          )
  where
    result : Outcome Booking × St → Booking
    result (ok a, u) = a
    result (err e, u) = b
    result (panic, u) = b
    result (diverge, u) = b

used_inactive :
    (token : String) (i : Invitee) → is_active_token token (record i { status = "USED" }) ≡ false
used_inactive token i = elim (Bool-cases (i.token == token)) [ inl e ↦ rw e | inr e ↦ rw e ]

update_where-any :
    (token : String) (is : List Invitee)
    → any
        (is_active_token token)
        (update_where (is_active_token token) (λ i. record i { status = "USED" }) is)
      ≡ false
update_where-any token [] = refl
update_where-any token (i ∷ is) = elim (Bool-cases (is_active_token token i)) [
  | inl e ↦ rw (e, used_inactive token i) (update_where-any token is)
  | inr e ↦ rw (e, e) (update_where-any token is)
]

-- A token is good for one booking: whatever request was checked before the first booking was
-- created, the transaction of a second one with the same token, run next, is refused, and writes
-- nothing.
pub create_with_token_once :
    (b b' : Booking) (token : String) (jobs jobs' : List Job) (s t : St) (c : Booking)
    → create_with_token b (some token) jobs s ≡ (ok c, t)
    → create_with_token b' (some token) jobs' t
      ≡ (err (conflict "Token invalid or already used"), t)
unfolding create_with_token transaction burn_token burn_rows execute ◌>>=◌
create_with_token_once b b' token jobs jobs' s t c h =
    let (_, _, _, db) = create_with_token-ok b (some token) jobs s t c h in
    let spent : any (is_active_token token) t.db.invitees ≡ false =
      ap (λ (db : Db). any (is_active_token token) db.invitees) db
      ∙ update_where-any token s.db.invitees in
    rw spent
