-- ===== src/Handlers/Tenants.antt =====
-- What one tenant deletes leaves the rows of the others (api/handlers/booking.rs, label.rs).
use booking_backend.Prelude.{
  ◌≡◌, refl, sym, subst, inl, inr, String, Bool, true, false, ◌&&◌, List, [], ◌∷◌, arith, any, keep,
  Bool-cases, ◌==◌, eq_iff,
}
use booking_backend.Models.{Booking, BookingLabel}
use booking_backend.Db.{St, ◌>>=◌, delete_where}
use booking_backend.Db.Bookings.{delete, delete_rows}
use booking_backend.Handlers.Booking.{delete_booking}
use booking_backend.Handlers.Labels.{delete_label, delete_label_rows}

module _ {A : Type 0} (p q : A → Bool) (apart : (x : A) → p x ≡ true → q x ≡ false) where
  keep-delete_where : (xs : List A) → keep q (delete_where p xs) ≡ keep q xs
  keep-delete_where [] = refl
  keep-delete_where (x ∷ xs) =
      let rest = keep-delete_where xs in
      let off = apart x in
      elim (Bool-cases (p x)) [ inl e ↦ rw (e, off e) rest | inr e ↦ rw e (ground arith) ]

other_tenant :
    (tenant other row : String) (b : Bool)
    → (tenant == other) ≡ false
    → (b && row == tenant) ≡ true
    → (row == other) ≡ false
other_tenant tenant other row b off h =
    let same : (row == tenant) ≡ true = ground arith in
    subst (λ (r : String). (r == other) ≡ false) (sym ((eq_iff row tenant).0 same)) off

-- Whatever identifier a tenant gives, and whether the request succeeds or not, deleting a booking keeps
-- every booking of another tenant.
pub delete_booking-keep :
    (tenant id other : String) (s : St)
    → (tenant == other) ≡ false
    → keep (λ (b : Booking). b.tenant_id == other) (delete_booking tenant id s).1.db.bookings
      ≡ keep (λ (b : Booking). b.tenant_id == other) s.db.bookings
unfolding delete_booking delete delete_rows ◌>>=◌
delete_booking-keep tenant id other s off =
    elim (Bool-cases (any (λ (r : Booking). r.id == id && r.tenant_id == tenant) s.db.bookings)) [
      | inl e ↦ rw e (
          keep-delete_where _ _
            (λ (r : Booking). other_tenant tenant other r.tenant_id (r.id == id) off) s.db.bookings)
      | inr e ↦ rw e
    ]

-- Whatever identifier a tenant gives, and whether the request succeeds or not, deleting a label keeps
-- every label of another tenant.
delete_label-keep :
    (tenant id other : String) (s : St)
    → (tenant == other) ≡ false
    → keep (λ (l : BookingLabel). l.tenant_id == other) (delete_label tenant id s).1.db.labels
      ≡ keep (λ (l : BookingLabel). l.tenant_id == other) s.db.labels
unfolding delete_label delete_label_rows ◌>>=◌
delete_label-keep tenant id other s off =
    elim (Bool-cases
      (any (λ (r : BookingLabel). r.id == id && r.tenant_id == tenant) s.db.labels)) [
        | inl e ↦ rw e (
            keep-delete_where _ _
              (λ (r : BookingLabel). other_tenant tenant other r.tenant_id (r.id == id) off)
              s.db.labels)
        | inr e ↦ rw e
      ]
