-- ===== src/Examples/Deletes.antt =====
-- A booking of another tenant beside one that is deleted.
use booking_backend.Prelude.{◌≡◌, refl, [], ◌∷◌, keep, pos, ◌==◌}
use booking_backend.Models.{Booking, BookingLabel}
use booking_backend.Db.{St}
use booking_backend.Handlers.Booking.{delete_booking}
use booking_backend.Handlers.Tenants.{delete_booking-keep}
use booking_backend.Examples.{ann, booked_world}

abbrev label : BookingLabel
label = record {
  id = "new";
  tenant_id = "acme";
  name = "new";
  color = "red";
  payout = pos 0;
  created_at = 0;
}

abbrev shared : St
shared = record booked_world {
  db = record booked_world.db {
    bookings = ann ∷ record ann { id = "4"; tenant_id = "umbra" } ∷ [];
    labels = label ∷ record label { id = "old"; tenant_id = "umbra" } ∷ [];
  };
}

delete_booking-keep_example :
    keep (λ (b : Booking). b.tenant_id == "umbra") (delete_booking "acme" "3" shared).1.db.bookings
    ≡ keep (λ (b : Booking). b.tenant_id == "umbra") shared.db.bookings
delete_booking-keep_example = delete_booking-keep "acme" "3" "umbra" shared refl
