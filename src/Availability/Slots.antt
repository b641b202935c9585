-- ===== src/Availability/Slots.antt =====
-- What the loop over a window offers (domain/services/availability.rs), for an event whose duration and
-- interval are positive: a description of a slot that does not mention the loop.
use booking_backend.Prelude.{
  ℕ, zero, suc, ◌+◌, ◌*◌, ◌≤◌, ◌<◌, ◌≡◌, ◌↔◌, ◌⊎◌, refl, inl, inr, ℤ, pos, String, true, some, List,
  arith, ltb, ltb_ℤ, get_or, Bool-cases, eqb, eqb→eq, ltb→lt, Option-cases,
}
use booking_backend.Models.{Instant, add_minutes}
use booking_backend.Env.{Env}
use booking_backend.Availability.{
  Day, is_capacity_ok, required_cutoff, is_slot_valid, slot_instant, slot_at,
}

-- Every minute of the day from `i` on, `n` of them, has fewer bookings than the capacity.
pub record HasRoom (counts : List ℕ) (capacity : ℤ) (i n : ℕ) : Type 0 where
  pub at_minute :
      (k : ℕ) → i ≤ k → k < i + n → k < 1440 → ltb_ℤ (pos (get_or counts k 0)) capacity ≡ true

is_capacity_ok-suc :
    (counts : List ℕ) (capacity : ℤ) (i n : ℕ)
    → is_capacity_ok counts capacity i (suc n) ≡ true
    → (i < 1440 → ltb_ℤ (pos (get_or counts i 0)) capacity ≡ true)
      × (is_capacity_ok counts capacity (i + 1) n ≡ true)
unfolding is_capacity_ok
is_capacity_ok-suc counts capacity i n h = (λ day. ground arith, ground arith)

is_capacity_ok-HasRoom :
    (counts : List ℕ) (capacity : ℤ) (i n : ℕ)
    → is_capacity_ok counts capacity i n ≡ true
    → HasRoom counts capacity i n
unfolding is_capacity_ok
is_capacity_ok-HasRoom counts capacity i zero h = record {
  at_minute = λ k above below day. absurd (omega arith);
}
is_capacity_ok-HasRoom counts capacity i (suc n) h = record {
  at_minute = λ k above below day.
      let (first, others) = is_capacity_ok-suc counts capacity i n h in
      elim (Bool-cases (eqb k i)) [
        | inl e ↦ let e' : k ≡ i = eqb→eq k i e in rw e' (first (rw (← e') day))
        | inr e ↦
            let rest = is_capacity_ok-HasRoom counts capacity (i + 1) n others in
            rest.at_minute k (ground arith) (omega arith) day
      ];
}

HasRoom-is_capacity_ok :
    (counts : List ℕ) (capacity : ℤ) (i n : ℕ)
    → HasRoom counts capacity i n
    → is_capacity_ok counts capacity i n ≡ true
unfolding is_capacity_ok
HasRoom-is_capacity_ok counts capacity i zero r = refl
HasRoom-is_capacity_ok counts capacity i (suc n) r =
    let rest =
      HasRoom-is_capacity_ok counts capacity (i + 1) n (record {
        at_minute = λ k above below day. r.at_minute k (omega arith) (omega arith) day;
      }) in
    let first = r.at_minute i (omega arith) (omega arith) in
    elim (Bool-cases (ltb i 1440)) [
      | inl e ↦ let room = first (ltb→lt i 1440 e) in ground arith
      | inr e ↦ ground arith
    ]

module _ (env : Env) (d : Day env.Tz) (capacity : ℤ) where
  -- A slot that starts at the minute `cursor` of the day, `minutes` long.
  pub record IsSlot (cursor minutes : ℕ) (slot : Instant) : Type 0 where
    pub at : slot_instant env d cursor ≡ some slot
    pub noticed : required_cutoff env d d.first_start slot < slot
    pub begun : d.active_start ≤ slot
    pub ended : add_minutes slot d.duration ≤ d.active_end
    pub room : HasRoom d.counts capacity cursor minutes

  -- `s` names a slot at a whole number of intervals from `cursor`, which ends by `win_end`.
  pub record Offers (win_end minutes interval cursor : ℕ) (s : String) : Type 0 where
    pub rounds : ℕ
    pub slot : Instant
    pub fits : cursor + rounds * interval + minutes ≤ win_end
    pub is_slot : IsSlot (cursor + rounds * interval) minutes slot
    pub text : s ≡ env.to_rfc3339 slot

  is_slot_valid_iff :
      (cursor minutes : ℕ) (slot : Instant)
      → slot_instant env d cursor ≡ some slot
      → (is_slot_valid env d capacity cursor (cursor + minutes) slot ≡ true)
        ↔ IsSlot cursor minutes slot
  unfolding is_slot_valid
  is_slot_valid_iff cursor minutes slot e = (
    λ h. record {
      at = e;
      noticed = ground arith;
      begun = ground arith;
      ended = ground arith;
      room = is_capacity_ok-HasRoom d.counts capacity cursor minutes (ground arith);
    },
    λ r. ground (arith, HasRoom-is_capacity_ok d.counts capacity cursor minutes r.room),
  )

  abbrev pub SlotAt : ℕ → ℕ → String → Type 0
  SlotAt cursor minutes s =
      (slot : Instant) × IsSlot cursor minutes slot × (s ≡ env.to_rfc3339 slot)

  pub slot_at_sound :
      (cursor minutes : ℕ) (s : String)
      → slot_at env d capacity cursor (cursor + minutes) ≡ some s
      → SlotAt cursor minutes s
  unfolding slot_at
  slot_at_sound cursor minutes s h = elim (Option-cases (slot_instant env d cursor)) [
    | inl e ↦ absurd (ground arith)
    | inr (slot, e) ↦
        elim (Bool-cases (is_slot_valid env d capacity cursor (cursor + minutes) slot)) [
          | inl good ↦ (slot, (is_slot_valid_iff cursor minutes slot e).0 good, ground arith)
          | inr bad ↦ absurd (ground arith)
        ]
  ]

  pub slot_at_complete :
      (cursor minutes : ℕ) (s : String)
      → SlotAt cursor minutes s
      → slot_at env d capacity cursor (cursor + minutes) ≡ some s
  unfolding slot_at
  slot_at_complete cursor minutes s (slot, r, e) =
      ground (arith, r.at, (is_slot_valid_iff cursor minutes slot r.at).1 r)

  module _ (win_end minutes interval : ℕ) where
    pub Offers-here :
        (cursor : ℕ) (s : String)
        → cursor + minutes ≤ win_end
        → SlotAt cursor minutes s
        → Offers win_end minutes interval cursor s
    Offers-here cursor s h (slot, r, e) =
        let at : cursor + 0 * interval ≡ cursor = omega arith in
        record { rounds = 0; slot = slot; fits = omega arith; is_slot = rw at r; text = e }

    pub Offers-next :
        (cursor : ℕ) (s : String)
        → Offers win_end minutes interval (cursor + interval) s
        → Offers win_end minutes interval cursor s
    Offers-next cursor s o =
        let at : cursor + suc o.rounds * interval ≡ cursor + interval + o.rounds * interval =
          grind arith in
        record {
          rounds = suc o.rounds;
          slot = o.slot;
          fits = rw at o.fits;
          is_slot = rw at o.is_slot;
          text = o.text;
        }

    -- An offer is the first slot of the window or one of those that follow.
    pub Offers-cases :
        (cursor : ℕ) (s : String)
        → Offers win_end minutes interval cursor s
        → SlotAt cursor minutes s ⊎ Offers win_end minutes interval (cursor + interval) s
    Offers-cases cursor s o = go o.rounds refl
      where
        go :
            (n : ℕ)
            → o.rounds ≡ n
            → SlotAt cursor minutes s ⊎ Offers win_end minutes interval (cursor + interval) s
        go zero e =
            let at : cursor + o.rounds * interval ≡ cursor = rw e (omega arith) in
            inl (o.slot, rw at at o.is_slot, o.text)
        go (suc n) e =
            let at : cursor + o.rounds * interval ≡ cursor + interval + n * interval =
              rw e (grind arith) in
            inr (record {
              rounds = n;
              slot = o.slot;
              fits = rw at at o.fits;
              is_slot = rw at at o.is_slot;
              text = o.text;
            })
