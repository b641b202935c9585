-- ===== src/Availability/Days.antt =====
-- `calculate_slots` as a whole (domain/services/availability.rs): what it returns for an event with
-- windows and for one with sessions, that its result is sorted, and that it always ends.
use booking_backend.Prelude.{
  ℕ, ◌≤◌, ◌<◌, ◌≡◌, ◌≢◌, ◌↔◌, ◌||◌, inl, inr, pos, String, false, Option, none, some, List, [], ◌∷◌,
  arith, eqb, as_usize, IsI32, Bool-cases, Option-cases, In, refl, ◌++◌, unwrap_or, ◌==◌,
}
use booking_backend.Outcome.{Outcome, ok, diverge, >>=-ok, >>=-diverge}
use booking_backend.Text.{sort_dedup}
use booking_backend.Text.Sorted.{In-sort_dedup, IsSortedNew, sort_dedup-IsSortedNew}
use booking_backend.Availability.Loop.{window_loop_total}
use booking_backend.Models.{
  NaiveTime, Instant, NaiveDate, TimeWindow, Event, Booking, EventOverride, EventSession,
}
use booking_backend.Env.{Env}
use booking_backend.Availability.{
  Day, day_of, day_bound, timezone, daily_windows, effective_config, windows_slots, recurring_slots,
  window_slots, win_end_index, minute_index, is_unavailable, calculate_slots, or_diverge,
}
use booking_backend.Availability.Offers.{ClockFace, SomeOffers, windows_slots_iff}

or_diverge-ok : {A : Type 0} (o : Option A) {a : A} → or_diverge o ≡ ok a → o ≡ some a
or_diverge-ok none h = cc
or_diverge-ok (some a) h = cc

module _ (env : Env) (event : Event) (date : NaiveDate) (bookings : List Booking)
    (rule : Option EventOverride) (now : Instant) where
  abbrev pub windows_of : List TimeWindow
  windows_of = unwrap_or (daily_windows (effective_config env event rule) (env.weekday date)) []

  abbrev pub the_day : Instant → Instant → Day env.Tz
  the_day day_start day_end = day_of env event date bookings rule now day_start day_end

  -- A successful run found both ends of the day, and sorted the slots of its windows.
  recurring_slots-ok :
      (slots : List String)
      → as_usize event.duration_min ≢ 0
      → as_usize event.interval_min ≢ 0
      → recurring_slots env event date bookings rule now ≡ ok slots
      → (day_start : Instant) × (day_end : Instant) × (raw : List String) × (day_bound env
            (timezone env event)
            date
            0
            0
            0
          ≡ ok day_start)
        × (day_bound env (timezone env event) date 23 59 59 ≡ ok day_end)
        × (windows_slots env (the_day day_start day_end) windows_of ≡ some raw)
        × (slots ≡ sort_dedup raw)
  unfolding recurring_slots
  recurring_slots-ok slots d i h =
      let x : eqb (as_usize event.duration_min) 0 ≡ false = ground arith in
      let y : eqb (as_usize event.interval_min) 0 ≡ false = ground arith in
      >>=-ok (day_bound env (timezone env event) date 0 0 0) _ h λ day_start e h₁.
        >>=-ok (day_bound env (timezone env event) date 23 59 59) _ h₁ λ day_end f h₂.
          >>=-ok (or_diverge (windows_slots env (the_day day_start day_end) windows_of)) _
            (rw (x, y) at h₂)
            λ raw g h₃. (day_start, day_end, raw, e, f, or_diverge-ok _ g, ground arith)

  -- The day has both its ends, and one of its windows offers `s`.
  pub record DayOffers (minutes step : ℕ) (s : String) : Type 0 where
    pub day_start : Instant
    pub day_end : Instant
    pub starts : day_bound env (timezone env event) date 0 0 0 ≡ ok day_start
    pub ends : day_bound env (timezone env event) date 23 59 59 ≡ ok day_end
    pub offers : SomeOffers env (the_day day_start day_end) minutes step windows_of s

  recurring_slots_iff_at :
      (minutes step : ℕ) (slots : List String) (s : String)
      → ClockFace env
      → event.duration_min ≡ pos minutes
      → event.interval_min ≡ pos step
      → minutes < 2147483648
      → step < 2147483648
      → (day_start day_end : Instant) (raw : List String)
      → day_bound env (timezone env event) date 0 0 0 ≡ ok day_start
      → day_bound env (timezone env event) date 23 59 59 ≡ ok day_end
      → windows_slots env (the_day day_start day_end) windows_of ≡ some raw
      → slots ≡ sort_dedup raw
      → In s slots ↔ DayOffers minutes step s
  recurring_slots_iff_at minutes step slots s face d i short near day_start day_end raw e f g
        sorted =
      let at =
        windows_slots_iff env face (the_day day_start day_end) minutes step d i short near
          windows_of raw s g in
      let same = In-sort_dedup s raw in
      rw sorted (
        λ m. record {
          day_start = day_start;
          day_end = day_end;
          starts = e;
          ends = f;
          offers = at.0 (same.0 m);
        },
        λ o.
            let p : o.day_start ≡ day_start = ground arith in
            let q : o.day_end ≡ day_end = ground arith in same.1 (at.1 (rw (← p, ← q) o.offers)),
      )

  recurring_slots_iff :
      (minutes step : ℕ) (slots : List String) (s : String)
      → ClockFace env
      → event.duration_min ≡ pos minutes
      → event.interval_min ≡ pos step
      → 0 < minutes
      → 0 < step
      → minutes < 2147483648
      → step < 2147483648
      → recurring_slots env event date bookings rule now ≡ ok slots
      → In s slots ↔ DayOffers minutes step s
  recurring_slots_iff minutes step slots s face d i m p short near h =
      let (day_start, day_end, raw, e, f, g, sorted) =
        recurring_slots-ok slots (rw d (omega arith)) (rw i (omega arith)) h in
      recurring_slots_iff_at minutes step slots s face d i short near day_start day_end raw e f g
        sorted

-- Totality: with chrono's times of day, no window spends the fuel.
module _ (env : Env) (face : ClockFace env) (d : Day env.Tz) (range : IsI32 d.interval)
    (nonzero : as_usize d.interval ≢ 0) where
  win_end_index_le : (t : NaiveTime) → win_end_index env t ≤ 1440
  win_end_index_le t = let h = face.hour_lt t in let m = face.minute_lt t in ground arith

  window_slots_total :
      (w : TimeWindow) → (slots : List String) × (window_slots env d w ≡ some slots)
  unfolding window_slots
  window_slots_total w = elim (Option-cases (env.parse_time w.start)) [
    | inl e ↦ ([], ground arith)
    | inr (start, e) ↦ elim (Option-cases (env.parse_time w.end)) [
      | inl f ↦ ([], ground arith)
      | inr (end, f) ↦
          let (slots, g) =
            window_loop_total env d (unwrap_or w.max_participants d.day_max_capacity)
              (win_end_index env end) (minute_index env start) range nonzero
              (win_end_index_le end) in
          (slots, ground (arith, g))
    ]
  ]

  windows_slots_total :
      (ws : List TimeWindow) → (slots : List String) × (windows_slots env d ws ≡ some slots)
  unfolding windows_slots
  windows_slots_total [] = ([], refl)
  windows_slots_total (w ∷ ws) =
      let (first, e) = window_slots_total w in
      let (others, f) = windows_slots_total ws in (first ++ others, ground (arith, e, f))

sorted_of :
    (raw slots : List String)
    → ◌≡◌ {A = Outcome (List String)} (ok (sort_dedup raw)) (ok slots)
    → IsSortedNew slots
sorted_of raw slots h =
    let e : slots ≡ sort_dedup raw = ground arith in rw e (sort_dedup-IsSortedNew raw)

sorted_nil :
    (slots : List String) → ◌≡◌ {A = Outcome (List String)} (ok []) (ok slots) → IsSortedNew slots
sorted_nil slots h = let e : slots ≡ [] = ground arith in rw e tt

module _ (env : Env) (event : Event) (date : NaiveDate) (bookings : List Booking)
    (rule : Option EventOverride) (sessions : Option (List EventSession)) (now : Instant) where
  day_bound-ne-diverge : (h m s : ℕ) → day_bound env (timezone env event) date h m s ≢ diverge
  unfolding day_bound
  day_bound-ne-diverge h m s e = ground arith

  recurring_slots-ne-diverge :
      ClockFace env
      → IsI32 event.interval_min
      → recurring_slots env event date bookings rule now ≢ diverge
  unfolding recurring_slots
  recurring_slots-ne-diverge face range h =
      >>=-diverge (day_bound env (timezone env event) date 0 0 0) _ h (day_bound-ne-diverge 0 0 0)
        λ day_start _ h₁.
          >>=-diverge (day_bound env (timezone env event) date 23 59 59) _ h₁
            (day_bound-ne-diverge 23 59 59)
            λ day_end _ h₂. elim (Bool-cases (eqb (as_usize event.interval_min) 0)) [
              | inl e ↦ ground arith
              | inr e ↦
                  let day = the_day env event date bookings rule now day_start day_end in
                  let (raw, found) =
                    windows_slots_total env face day range
                      (λ (z : as_usize event.interval_min ≡ 0). ground arith)
                      (windows_of env event date bookings rule now) in
                  ground (arith, found)
            ]

  recurring_slots-IsSortedNew :
      (slots : List String)
      → recurring_slots env event date bookings rule now ≡ ok slots
      → IsSortedNew slots
  unfolding recurring_slots
  recurring_slots-IsSortedNew slots h =
      >>=-ok (day_bound env (timezone env event) date 0 0 0) _ h λ day_start _ h₁.
        >>=-ok (day_bound env (timezone env event) date 23 59 59) _ h₁ λ day_end _ h₂.
          elim (Bool-cases
            (eqb (as_usize event.duration_min) 0 || eqb (as_usize event.interval_min) 0)) [
              | inl e ↦ sorted_nil slots (rw e at h₂)
              | inr e ↦
                  >>=-ok
                    (or_diverge (
                      windows_slots env (the_day env event date bookings rule now day_start day_end)
                        (windows_of env event date bookings rule now)))
                    _ (rw e at h₂) λ raw _ h₃. sorted_of raw slots h₃
            ]

  -- For every event whose interval fits an `i32`, zero and negative ones included, on a clock
  -- whose hours are below 24 and minutes below 60, the computation of the slots ends.
  pub calculate_slots-ne-diverge :
      ClockFace env
      → IsI32 event.interval_min
      → calculate_slots env event date bookings rule sessions now ≢ diverge
  unfolding calculate_slots recurring_slots
  calculate_slots-ne-diverge face range h = elim (Bool-cases (event.schedule_type == "MANUAL")) [
    | inl e ↦ ground arith
    | inr e ↦ elim (Bool-cases (is_unavailable rule)) [
      | inl f ↦ ground arith
      | inr f ↦ recurring_slots-ne-diverge face range (rw (e, f) at h)
    ]
  ]

  -- Whatever the schedule, the slots come in order, and none equals the one before it.
  pub calculate_slots-IsSortedNew :
      (slots : List String)
      → calculate_slots env event date bookings rule sessions now ≡ ok slots
      → IsSortedNew slots
  unfolding calculate_slots recurring_slots
  calculate_slots-IsSortedNew slots h = elim (Bool-cases (event.schedule_type == "MANUAL")) [
    | inl e ↦ sorted_of _ slots (rw e at h)
    | inr e ↦ elim (Bool-cases (is_unavailable rule)) [
      | inl f ↦ sorted_nil slots (rw (e, f) at h)
      | inr f ↦ recurring_slots-IsSortedNew slots (rw (e, f) at h)
    ]
  ]

  -- For an event with windows whose duration and interval are positive and fit an `i32`, on a day
  -- that is not blocked, on a clock whose hours are below 24 and minutes below 60, and where the
  -- slots are computed without a panic: a text is among them exactly when a window of the day
  -- offers it. Then it names an instant that stands at a whole number of intervals after the start
  -- of the window, ends within the window and the active range of the event, keeps the notice, and
  -- has a count in `minute_counts` below the capacity in each of its minutes.
  pub calculate_slots_iff :
      (minutes step : ℕ) (slots : List String) (s : String)
      → ClockFace env
      → (event.schedule_type == "MANUAL") ≡ false
      → is_unavailable rule ≡ false
      → event.duration_min ≡ pos minutes
      → event.interval_min ≡ pos step
      → 0 < minutes
      → 0 < step
      → minutes < 2147483648
      → step < 2147483648
      → calculate_slots env event date bookings rule sessions now ≡ ok slots
      → In s slots ↔ DayOffers env event date bookings rule now minutes step s
  unfolding calculate_slots
  calculate_slots_iff minutes step slots s face recurring free d i m p short near h =
      recurring_slots_iff env event date bookings rule now minutes step slots s face d i m p short
        near (rw (recurring, free) at h)
