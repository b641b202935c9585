-- ===== src/Availability/Loop.antt =====
-- Termination of `while cursor + duration_min <= win_end_idx` (domain/services/availability.rs), for
-- every `i32` duration and interval: the sum `cursor + duration_min` moves one way through the at most
-- 1441 values that let the loop go on, and its next step past them stops it, wrapped around or not.
use booking_backend.Prelude.{
  ℕ, zero, suc, ◌+◌, ◌-◌, ◌%◌, ◌≤◌, ◌<◌, ◌≡◌, ◌≢◌, refl, inl, inr, ℤ, pos, negsuc, String, some,
  List, [], arith, leb, leb→le, usize_mod, as_usize, IsI32, Bool-cases,
}
use booking_backend.Env.{Env}
use booking_backend.Availability.{Day, window_loop, window_fuel, slot_at, push_slot}

module _ (env : Env) (d : Day env.Tz) (capacity : ℤ) (win_end : ℕ) where
  abbrev stop_of : ℕ → ℕ
  stop_of cursor = (cursor + as_usize d.duration) % usize_mod

  abbrev next_of : ℕ → ℕ
  next_of cursor = (cursor + as_usize d.interval) % usize_mod

  -- Every round goes on from the slots of the rounds that follow.
  Returns : ℕ → ℕ → Type 0
  Returns fuel cursor =
      (slots : List String) × (window_loop env d capacity win_end fuel cursor ≡ some slots)

  Returns-step :
      (fuel cursor : ℕ)
      → (stop_of cursor ≤ win_end → Returns fuel (next_of cursor))
      → Returns (suc fuel) cursor
  unfolding window_loop Returns
  Returns-step fuel cursor next = elim (Bool-cases (leb (stop_of cursor) win_end)) [
    | inl more ↦
        let (slots, e) = next (leb→le _ _ more) in
        (push_slot env (slot_at env d capacity cursor (stop_of cursor)) slots, rw (more, e))
    | inr done ↦ ([], rw done)
  ]

  Returns-up :
      (step fuel cursor : ℕ)
      → d.interval ≡ pos (suc step)
      → step < 2147483648
      → win_end ≤ 1440
      → 1441 - stop_of cursor < fuel
      → Returns fuel cursor
  Returns-up step zero cursor e small bound enough = elim enough [ ]
  Returns-up step (suc fuel) cursor e small bound enough =
      Returns-step fuel cursor
        λ more. Returns-up step fuel (next_of cursor) e small bound (rw e (omega arith))

  Returns-down :
      (step fuel cursor : ℕ)
      → d.interval ≡ negsuc step
      → step < 2147483648
      → win_end ≤ 1440
      → 0 < fuel
      → (stop_of cursor ≤ win_end → stop_of cursor + 1 < fuel)
      → Returns fuel cursor
  Returns-down step zero cursor e small bound positive enough = elim positive [ ]
  Returns-down step (suc fuel) cursor e small bound positive enough =
      Returns-step fuel cursor λ more.
        let room : stop_of cursor + 1 < suc fuel = enough more in
        Returns-down step fuel (next_of cursor) e small bound (omega arith) (rw e (omega arith))

  Returns-all :
      (interval : ℤ)
      → d.interval ≡ interval
      → IsI32 interval
      → as_usize interval ≢ 0
      → win_end ≤ 1440
      → (cursor : ℕ) → Returns window_fuel cursor
  Returns-all (pos zero) e range nonzero bound cursor = absurd (nonzero refl)
  Returns-all (pos (suc step)) e range nonzero bound cursor =
      Returns-up step window_fuel cursor e (omega arith) bound (omega arith)
  Returns-all (negsuc step) e range nonzero bound cursor =
      Returns-down step window_fuel cursor e (omega arith) bound (omega arith) (omega arith)

-- Whatever `i32` the interval and the duration of an event are, negative ones included, the loop over
-- a window ends within `window_fuel` rounds, if the interval is not zero and the window ends by
-- midnight.
pub window_loop_total :
    (env : Env) (d : Day env.Tz) (capacity : ℤ) (win_end cursor : ℕ)
    → IsI32 d.interval
    → as_usize d.interval ≢ 0
    → win_end ≤ 1440
    → (slots : List String) × (window_loop env d capacity win_end window_fuel cursor ≡ some slots)
unfolding Returns
window_loop_total env d capacity win_end cursor range nonzero bound =
    Returns-all env d capacity win_end d.interval refl range nonzero bound cursor
