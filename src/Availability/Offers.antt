-- ===== src/Availability/Offers.antt =====
-- The slots of a window and of a day (domain/services/availability.rs) are those that Slots describes:
-- nothing else is offered, and nothing is left out.
use booking_backend.Prelude.{
  ℕ, zero, suc, ◌+◌, ◌%◌, ◌≤◌, ◌<◌, ◌≡◌, ◌↔◌, ◌⊎◌, inl, inr, ℤ, pos, String, true, false, Option,
  none, some, List, [], ◌∷◌, ◌++◌, arith, leb, leb→le, usize_mod, as_usize, Bool-cases,
  Option-cases, In, unwrap_or,
}
use booking_backend.Env.{Env}
use booking_backend.Models.{NaiveTime, TimeWindow}
use booking_backend.Availability.{
  Day, slot_at, push_slot, window_loop, window_fuel, minute_index, win_end_index, window_slots,
  windows_slots,
}
use booking_backend.Availability.Slots.{
  Offers, slot_at_sound, slot_at_complete, Offers-here, Offers-next, Offers-cases,
}

module _ (env : Env) (d : Day env.Tz) (capacity : ℤ) (win_end : ℕ) where
  window_loop-suc :
      (fuel cursor stop next : ℕ) (slots : List String)
      → (cursor + as_usize d.duration) % usize_mod ≡ stop
      → (cursor + as_usize d.interval) % usize_mod ≡ next
      → window_loop env d capacity win_end (suc fuel) cursor ≡ some slots
      → ((leb stop win_end ≡ false) × (slots ≡ []))
        ⊎ ((rest : List String) × (leb stop win_end ≡ true)
            × (window_loop env d capacity win_end fuel next ≡ some rest)
            × (slots ≡ push_slot env (slot_at env d capacity cursor stop) rest))
  unfolding window_loop
  window_loop-suc fuel cursor stop next slots e f h = elim (Bool-cases (leb stop win_end)) [
    | inl more ↦ elim (Option-cases (window_loop env d capacity win_end fuel next)) [
      | inl out ↦ absurd (ground arith)
      | inr (rest, found) ↦ inr (rest, more, found, ground arith)
    ]
    | inr done ↦ inl (done, ground arith)
  ]

  In-push_slot :
      (o : Option String) (rest : List String) (s : String)
      → In s (push_slot env o rest) ↔ ((o ≡ some s) ⊎ In s rest)
  In-push_slot none rest s = (λ h. inr h, λ h. ground arith)
  In-push_slot (some t) rest s = (λ h. ground arith, λ h. ground arith)

  module _ (minutes step : ℕ) (duration : d.duration ≡ pos minutes)
      (interval : d.interval ≡ pos step) (short : minutes < 2147483648) (near : step < 2147483648)
      (bound : win_end ≤ 1440) where
    abbrev Offer : ℕ → String → Type 0
    Offer cursor s = Offers env d capacity win_end minutes step cursor s

    stop_lem :
        (cursor : ℕ)
        → cursor ≤ 4294967296
        → (cursor + as_usize d.duration) % usize_mod ≡ cursor + minutes
    stop_lem cursor h = rw duration (omega arith)

    next_lem :
        (cursor : ℕ)
        → cursor ≤ 4294967296
        → (cursor + as_usize d.interval) % usize_mod ≡ cursor + step
    next_lem cursor h = rw interval (omega arith)

    window_loop_sound :
        (fuel cursor : ℕ) (slots : List String) (s : String)
        → cursor ≤ 4294967296
        → window_loop env d capacity win_end fuel cursor ≡ some slots
        → In s slots
        → Offer cursor s
    unfolding window_loop
    window_loop_sound zero cursor slots s h e m = absurd (ground arith)
    window_loop_sound (suc fuel) cursor slots s h e m =
        elim (window_loop-suc fuel cursor (cursor + minutes) (cursor + step) slots
          (stop_lem cursor h) (next_lem cursor h) e) [
            | inl (done, empty) ↦ absurd (rw empty at m)
            | inr (rest, more, found, pushed) ↦
                elim ((In-push_slot (slot_at env d capacity cursor (cursor + minutes)) rest s).0
                  (rw pushed at m)) [
                    | inl here ↦
                        Offers-here env d capacity win_end minutes step cursor s (leb→le _ _ more)
                          (slot_at_sound env d capacity cursor minutes s here)
                    | inr later ↦
                        Offers-next env d capacity win_end minutes step cursor s
                          (window_loop_sound fuel (cursor + step) rest s (ground arith) found later)
                  ]
          ]

    window_loop_complete :
        (fuel cursor : ℕ) (slots : List String) (s : String)
        → cursor ≤ 4294967296
        → window_loop env d capacity win_end fuel cursor ≡ some slots
        → Offer cursor s
        → In s slots
    unfolding window_loop
    window_loop_complete zero cursor slots s h e o = absurd (ground arith)
    window_loop_complete (suc fuel) cursor slots s h e o =
        elim (window_loop-suc fuel cursor (cursor + minutes) (cursor + step) slots
          (stop_lem cursor h) (next_lem cursor h) e) [
            | inl (done, empty) ↦ absurd (ground arith)
            | inr (rest, more, found, pushed) ↦ rw pushed (
                (In-push_slot (slot_at env d capacity cursor (cursor + minutes)) rest s).1
                  (elim (Offers-cases env d capacity win_end minutes step cursor s o) [
                    | inl here ↦ inl (slot_at_complete env d capacity cursor minutes s here)
                    | inr later ↦ inr (
                        window_loop_complete fuel (cursor + step) rest s (ground arith) found later)
                  ]))
          ]

-- What the code relies on in chrono: a time of day has an hour below 24 and a minute below 60.
pub record ClockFace (env : Env) : Type 0 where
  pub hour_lt : (t : NaiveTime) → env.hour t < 24
  pub minute_lt : (t : NaiveTime) → env.minute t < 60

module _ (env : Env) (d : Day env.Tz) (minutes step : ℕ) where
  -- `w` is a window with two valid times, and `s` a slot that it offers.
  pub record WindowOffers (w : TimeWindow) (s : String) : Type 0 where
    pub start : NaiveTime
    pub end : NaiveTime
    pub starts : env.parse_time w.start ≡ some start
    pub ends : env.parse_time w.end ≡ some end
    pub offers :
        Offers env d
          (unwrap_or w.max_participants d.day_max_capacity)
          (win_end_index env end)
          minutes
          step
          (minute_index env start)
          s

  -- Some window of the list offers `s`.
  abbrev pub SomeOffers : List TimeWindow → String → Type 0
  SomeOffers [] s = ⊥
  SomeOffers (w ∷ ws) s = WindowOffers w s ⊎ SomeOffers ws s

module _ (env : Env) (face : ClockFace env) (d : Day env.Tz) (minutes step : ℕ)
    (duration : d.duration ≡ pos minutes) (interval : d.interval ≡ pos step)
    (short : minutes < 2147483648) (near : step < 2147483648) where
  abbrev WindowOffer : TimeWindow → String → Type 0
  WindowOffer = WindowOffers env d minutes step

  index_le : (t : NaiveTime) → (minute_index env t ≤ 1439) × (win_end_index env t ≤ 1440)
  index_le t = let h = face.hour_lt t in let m = face.minute_lt t in (omega arith, ground arith)

  window_slots_iff :
      (w : TimeWindow) (slots : List String) (s : String)
      → window_slots env d w ≡ some slots
      → In s slots ↔ WindowOffer w s
  unfolding window_slots
  window_slots_iff w slots s h = elim (Option-cases (env.parse_time w.start)) [
    | inl e ↦
        let empty : slots ≡ [] = ground arith in
        rw empty (λ m. absurd m, λ o. absurd (ground (arith, o.starts)))
    | inr (start, e) ↦ elim (Option-cases (env.parse_time w.end)) [
      | inl f ↦
          let empty : slots ≡ [] = ground arith in
          rw empty (λ m. absurd m, λ o. absurd (ground (arith, o.ends)))
      | inr (end, f) ↦
          let capacity = unwrap_or w.max_participants d.day_max_capacity in
          let win_end = win_end_index env end in
          let cursor = minute_index env start in
          let low = (index_le start).0 in
          let found : window_loop env d capacity win_end window_fuel cursor ≡ some slots =
            ground arith in
          (
            λ m. record {
              start = start;
              end = end;
              starts = e;
              ends = f;
              offers =
                  window_loop_sound env d capacity win_end minutes step duration interval short near
                    (index_le end).1 window_fuel cursor slots s (omega arith) found m;
            },
            λ o.
                let p : o.start ≡ start = ground arith in
                let q : o.end ≡ end = ground arith in
                let offers : Offers env d capacity (win_end_index env end) minutes step
                    (minute_index env start) s =
                  rw (← p, ← q) o.offers in
                window_loop_complete env d capacity win_end minutes step duration interval short
                  near (index_le end).1 window_fuel cursor slots s (omega arith) found offers,
          )
    ]
  ]

  In-append : (xs ys : List String) (s : String) → In s (xs ++ ys) ↔ (In s xs ⊎ In s ys)
  In-append [] ys s = (λ m. inr m, λ m. ground arith)
  In-append (x ∷ xs) ys s =
      let ih = In-append xs ys s in (λ m. ground (arith, ih.0), λ m. ground (arith, ih.1))

  windows_slots-cons :
      (w : TimeWindow) (ws : List TimeWindow) (slots : List String)
      → windows_slots env d (w ∷ ws) ≡ some slots
      → (first : List String) × (others : List String) × (window_slots env d w ≡ some first)
        × (windows_slots env d ws ≡ some others)
        × (slots ≡ first ++ others)
  unfolding windows_slots
  windows_slots-cons w ws slots h = elim (Option-cases (window_slots env d w)) [
    | inl e ↦ absurd (ground arith)
    | inr (first, e) ↦ elim (Option-cases (windows_slots env d ws)) [
      | inl f ↦ absurd (ground arith)
      | inr (others, f) ↦ (first, others, e, f, ground arith)
    ]
  ]

  -- The slots of a day's windows are those that one of the windows offers.
  pub windows_slots_iff :
      (ws : List TimeWindow) (slots : List String) (s : String)
      → windows_slots env d ws ≡ some slots
      → In s slots ↔ SomeOffers env d minutes step ws s
  unfolding windows_slots
  windows_slots_iff [] slots s h =
      let empty : slots ≡ [] = ground arith in rw empty (λ m. m, λ o. o)
  windows_slots_iff (w ∷ ws) slots s h =
      let (first, others, e, f, joined) = windows_slots-cons w ws slots h in
      let at = window_slots_iff w first s e in
      let ih = windows_slots_iff ws others s f in
      let app = In-append first others s in
      rw joined (
        λ m. elim (app.0 m) [ inl a ↦ inl (at.0 a) | inr b ↦ inr (ih.0 b) ],
        λ o. app.1 (elim o [ inl a ↦ inl (at.1 a) | inr b ↦ inr (ih.1 b) ]),
      )
