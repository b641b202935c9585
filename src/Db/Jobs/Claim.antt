-- ===== src/Db/Jobs/Claim.antt =====
-- What `find_pending` (infra/repositories/sqlite_job_repo.rs) takes from the queue.
use booking_backend.Prelude.{
  ℕ, zero, suc, ◌+◌, ◌≡◌, refl, inl, inr, String, Bool, true, ◌&&◌, List, [], ◌∷◌, arith, leb, In,
  Bool-cases, ◌==◌, if◌then◌else◌, length,
}
use booking_backend.Models.{Instant, Job}
use booking_backend.Db.Jobs.{claim, is_due}

-- How many rows meet a condition.
abbrev pub count : {A : Type 0} → (A → Bool) → List A → ℕ
count p [] = 0
count p (x ∷ xs) = (if p x then 1 else 0) + count p xs

abbrev pub at_most : ℕ → ℕ → ℕ
at_most limit n = if leb n limit then n else limit

abbrev pub taken : Job → Job
taken j = record j { status = "PROCESSING" }

-- A batch has as many jobs as there are due, up to the limit.
pub claim-length :
    (now : Instant) (limit : ℕ) (jobs : List Job)
    → length (claim now limit jobs).0 ≡ at_most limit (count (is_due now) jobs)
unfolding claim
claim-length now limit [] = ground arith
claim-length now zero (j ∷ js) = ground arith
claim-length now (suc limit) (j ∷ js) = elim (Bool-cases (is_due now j)) [
  | inl e ↦ let rest = claim-length now limit js in rw e (ground arith)
  | inr e ↦ let rest = claim-length now (suc limit) js in rw e (ground arith)
]

-- Every job of a batch is a row that was due, marked as taken.
claim-due :
    (now : Instant) (limit : ℕ) (jobs : List Job) (j : Job)
    → In j (claim now limit jobs).0
    → (i : Job) × In i jobs × (is_due now i ≡ true) × (j ≡ taken i)
unfolding claim
claim-due now limit [] j h = absurd h
claim-due now zero (i ∷ is) j h = absurd h
claim-due now (suc limit) (i ∷ is) j h = elim (Bool-cases (is_due now i)) [
  | inl e ↦ elim (rw e at h) [
    | inl g ↦ (i, inl refl, e, g)
    | inr g ↦ let (k, within, due, same) = claim-due now limit is j g in (k, inr within, due, same)
  ]
  | inr e ↦
      let (k, within, due, same) = claim-due now (suc limit) is j (rw e at h) in
      (k, inr within, due, same)
]

-- The jobs with an identifier, and those of them that wait.
abbrev pub has_id : String → Job → Bool
has_id id j = j.id == id

abbrev pub is_waiting : String → Job → Bool
is_waiting id j = j.id == id && j.status == "PENDING"

-- A job that is taken waits no more.
pub claim-moves :
    (id : String) (now : Instant) (limit : ℕ) (jobs : List Job)
    → count (has_id id) (claim now limit jobs).0 + count (is_waiting id) (claim now limit jobs).1
      ≡ count (is_waiting id) jobs
unfolding claim
claim-moves id now limit [] = ground arith
claim-moves id now zero (j ∷ js) = ground arith
claim-moves id now (suc limit) (j ∷ js) = elim (Bool-cases (is_due now j)) [
  | inl e ↦
      let rest = claim-moves id now limit js in
      let waits : (j.status == "PENDING") ≡ true = ground arith in
      elim (Bool-cases (j.id == id)) [
        | inl f ↦ rw (e, f, waits) (ground arith)
        | inr f ↦ rw (e, f) (ground arith)
      ]
  | inr e ↦ let rest = claim-moves id now (suc limit) js in rw e (ground arith)
]
