-- ===== src/Outcome.antt =====
-- error.rs: the errors of the application, and the results of code that may fail.
use booking_backend.Prelude.{String, Option, none, some, ◌≡◌, refl}

-- `AppError`; the payload of `Database` is what the driver reports.
pub data DbError : Type 0 where
  row_not_found unique_violation foreign_key_violation : DbError

pub data AppError : Type 0 where
  database : DbError → AppError
  not_found : String → AppError
  unauthorized : AppError
  forbidden : String → AppError
  conflict : String → AppError
  validation : String → AppError
  internal : AppError
  internal_with_msg : String → AppError

-- A result, an error, a panic of the task, or a loop that spent its fuel.
pub data Outcome {ℓ} (A : Type ℓ) : Type ℓ where
  ok : A → Outcome A
  err : AppError → Outcome A
  panic : Outcome A
  diverge : Outcome A

-- Code without effects: `?` and the unwrapping of an `Option`.
infixl 5 ◌>>=◌
abbrev pub ◌>>=◌ {ℓ κ} : {A : Type ℓ} {B : Type κ} → Outcome A → (A → Outcome B) → Outcome B
ok a >>= f = f a
err e >>= f = err e
panic >>= f = panic
diverge >>= f = diverge

-- `Option::unwrap`
abbrev pub unwrap {ℓ} : {A : Type ℓ} → Option A → Outcome A
unwrap none = panic
unwrap (some a) = ok a

-- `Option::ok_or(e)?`
abbrev pub ok_or {ℓ} : {A : Type ℓ} → Option A → AppError → Outcome A
ok_or none e = err e
ok_or (some a) e = ok a

-- A run that succeeds succeeded in both of its parts; the goal goes on from these.
pub >>=-ok {ℓ κ μ} :
    {A : Type ℓ} {B : Type κ} {C : Type μ} (m : Outcome A) (f : A → Outcome B) {b : B}
    → (m >>= f) ≡ ok b
    → ((a : A) → m ≡ ok a → f a ≡ ok b → C)
    → C
>>=-ok (ok a) f h go = go a refl h
>>=-ok (err e) f h go = absurd (cc)
>>=-ok panic f h go = absurd (cc)
>>=-ok diverge f h go = absurd (cc)

-- A run that diverges did so in one of its parts.
pub >>=-diverge {ℓ κ μ} :
    {A : Type ℓ} {B : Type κ} {C : Type μ} (m : Outcome A) (f : A → Outcome B)
    → (m >>= f) ≡ diverge
    → (m ≡ diverge → C)
    → ((a : A) → m ≡ ok a → f a ≡ diverge → C)
    → C
>>=-diverge (ok a) f h here later = later a refl h
>>=-diverge (err e) f h here later = absurd (cc)
>>=-diverge panic f h here later = absurd (cc)
>>=-diverge diverge f h here later = here refl

pub unwrap-ok {ℓ} : {A : Type ℓ} (o : Option A) {a : A} → unwrap o ≡ ok a → o ≡ some a
unwrap-ok none h = cc
unwrap-ok (some a) h = cc

pub ok_or-ok {ℓ} :
    {A : Type ℓ} (o : Option A) (e : AppError) {a : A} → ok_or o e ≡ ok a → o ≡ some a
ok_or-ok none e h = cc
ok_or-ok (some a) e h = cc
