-- ===== src/Availability/Counts.antt =====
-- The minute counts and the first booking of the day (domain/services/availability.rs), against
-- descriptions of them that count and compare bookings.
use booking_backend.Prelude.{
  ℕ, zero, suc, ◌+◌, ◌*◌, ◌<◌, min, max, ◌≡◌, ◌∙◌, refl, ap, fun_ext, Bool, ◌&&◌, List, [], ◌∷◌,
  arith, Bool-cases, inl, inr, ltb, leb, length, get_or, replicate, keep, if◌then◌else◌,
}
use booking_backend.Models.{Instant, Booking, second_ns, minute_ns}
use booking_backend.Availability.{
  saturating_inc, bump_range, is_in_day, start_index, end_index, count_booking, count_from,
  minute_counts, total_minutes,
}

length-bump_range : (s e i : ℕ) (cs : List ℕ) → length (bump_range s e i cs) ≡ length cs
unfolding bump_range
length-bump_range s e i [] = refl
length-bump_range s e i (c ∷ cs) = omega (arith, length-bump_range s e (i + 1) cs)

get_or-bump_range :
    (s e i k : ℕ) (cs : List ℕ)
    → k < length cs
    → get_or (bump_range s e i cs) k 0
      ≡ (if leb s (i + k) && ltb (i + k) e then saturating_inc (get_or cs k 0) else get_or cs k 0)
unfolding bump_range
get_or-bump_range s e i k [] h = elim h [ ]
get_or-bump_range s e i zero (c ∷ cs) h = ground arith
get_or-bump_range s e i (suc k) (c ∷ cs) h = ground (arith, get_or-bump_range s e (i + 1) k cs)

module _ (day_start day_end : Instant) (k : ℕ) where
  -- The booking is counted at the minute `k` of the day.
  pub is_counted : Booking → Bool
  is_counted b =
      is_in_day day_start day_end b
      && (leb (start_index day_start b) k && ltb k (end_index day_start day_end b))

  length-count_booking :
      (cs : List ℕ) (b : Booking) → length (count_booking day_start day_end cs b) ≡ length cs
  unfolding count_booking
  length-count_booking cs b =
      ground
        (arith, length-bump_range (start_index day_start b) (end_index day_start day_end b) 0 cs)

  get_or-count_booking :
      (cs : List ℕ) (b : Booking)
      → k < length cs
      → get_or (count_booking day_start day_end cs b) k 0
        ≡ (if is_counted b then saturating_inc (get_or cs k 0) else get_or cs k 0)
  unfolding count_booking is_counted
  get_or-count_booking cs b h =
      ground
        (arith, get_or-bump_range (start_index day_start b) (end_index day_start day_end b) 0 k cs)

  get_or-count_from :
      (n : ℕ) (cs : List ℕ) (bs : List Booking)
      → k < length cs
      → get_or cs k 0 ≡ min 255 n
      → get_or (count_from day_start day_end cs bs) k 0 ≡ min 255 (n + length (keep is_counted bs))
  unfolding count_from saturating_inc
  get_or-count_from n cs [] h e = omega arith
  get_or-count_from n cs (b ∷ bs) h e =
      let counts = count_booking day_start day_end cs b in
      elim (Bool-cases (is_counted b)) [
        | inl hit ↦ ground (
          arith,
          length-count_booking cs b,
          get_or-count_booking cs b,
          get_or-count_from (n + 1) counts bs,
        )
        | inr miss ↦ ground (
          arith,
          length-count_booking cs b,
          get_or-count_booking cs b,
          get_or-count_from n counts bs,
        )
      ]

  -- `b`, cut to the day, starts before the minute `k` of the day ends, and does not end before it does.
  pub covers_minute : Booking → Bool
  covers_minute b =
      ltb (max b.start_time day_start) (day_start + (k + 1) * minute_ns)
      && leb (day_start + (k + 1) * minute_ns) (min b.end_time day_end)

  is_counted-eq-covers_minute :
      (b : Booking) (seconds : ℕ)
      → day_start ≡ seconds * second_ns
      → k < 1440
      → is_counted b ≡ covers_minute b
  unfolding is_counted is_in_day start_index end_index covers_minute
  is_counted-eq-covers_minute b seconds e h = ground arith

  keep-is_counted :
      (bs : List Booking) (seconds : ℕ)
      → day_start ≡ seconds * second_ns
      → k < 1440
      → keep is_counted bs ≡ keep covers_minute bs
  keep-is_counted bs seconds e h =
      ap (λ p. keep p bs) (fun_ext λ b. is_counted-eq-covers_minute b seconds e h)

  keep-covers_minute-nil :
      (bs : List Booking) → day_end < day_start + (k + 1) * minute_ns → keep covers_minute bs ≡ []
  unfolding covers_minute
  keep-covers_minute-nil [] h = refl
  keep-covers_minute-nil (b ∷ bs) h = ground (arith, keep-covers_minute-nil bs h)

get_or-replicate : (n k : ℕ) → ◌≡◌ {A = ℕ} (get_or (replicate n 0) k 0) 0
get_or-replicate zero k = refl
get_or-replicate (suc n) zero = refl
get_or-replicate (suc n) (suc k) = get_or-replicate n k

length-replicate : (n : ℕ) → length (replicate {A = ℕ} n 0) ≡ n
length-replicate zero = refl
length-replicate (suc n) = ap suc (length-replicate n)

count_from-replicate :
    (day_start day_end : Instant) (n k : ℕ) (bs : List Booking)
    → k < n
    → get_or (count_from day_start day_end (replicate n 0) bs) k 0
      ≡ min 255 (length (keep (is_counted day_start day_end k) bs))
count_from-replicate day_start day_end n k bs h = omega (
  arith,
  get_or-count_from day_start day_end k 0 (replicate n 0) bs (omega (arith, length-replicate n))
      (omega (arith, get_or-replicate n k)),
)

-- If the day starts at a whole second, the count of a minute is the number of the bookings that, cut
-- to the day, start before the minute ends and last at least to its end, cut off at 255.
pub minute_counts_lem :
    (day_start day_end : Instant) (seconds k : ℕ) (bs : List Booking)
    → day_start ≡ seconds * second_ns
    → k < 1440
    → get_or (minute_counts day_start day_end bs) k 0
      ≡ min 255 (length (keep (covers_minute day_start day_end k) bs))
unfolding minute_counts
minute_counts_lem day_start day_end seconds k bs e h =
    count_from-replicate day_start day_end total_minutes k bs h
    ∙ ap (λ (bs : List Booking). min 255 (length bs))
        (keep-is_counted day_start day_end k bs seconds e h)

-- A minute that the day does not reach the end of is never counted: so it is with the last minute of
-- each day of 24 hours, since the day is taken to end at 23:59:59.
pub minute_counts-last :
    (day_start day_end : Instant) (seconds k : ℕ) (bs : List Booking)
    → day_start ≡ seconds * second_ns
    → k < 1440
    → day_end < day_start + (k + 1) * minute_ns
    → get_or (minute_counts day_start day_end bs) k 0 ≡ zero
minute_counts-last day_start day_end seconds k bs e h short =
    rw
      (
        minute_counts_lem day_start day_end seconds k bs e h,
        keep-covers_minute-nil day_start day_end k bs short,
      )
      (omega arith)
