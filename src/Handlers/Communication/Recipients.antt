-- ===== src/Handlers/Communication/Recipients.antt =====
-- api/handlers/communication.rs: whom a campaign may go to, and the placeholders of templates.
use booking_backend.Prelude.{
  String, Bool, true, false, ◌&&◌, Option, none, some, List, [], ◌∷◌, keep, map, ◌==◌,
  if◌then◌else◌,
}
use booking_backend.Models.{Booking, Invitee}
use booking_backend.Models.Mail.{TemplatePlaceholder}
use booking_backend.Db.{Exec, pure, query, ◌>>=◌}
use booking_backend.Db.Schedule.{list_invitees_by_event}
use booking_backend.Db.Bookings.{list_by_event}

pub record CampaignPreviewRequest : Type 0 where
  pub event_id : String
  pub target_type : String
  pub label_id : Option String
  pub status_filter : Option String

pub record CampaignRecipient : Type 0 where
  pub id : String
  pub email : String
  pub name : Option String
  pub status : String
  pub received_mail : Bool

-- `if let Some(f) = filter && value != f { continue; }`
abbrev pub passes : Option String → Option String → Bool
passes none value = true
passes (some f) none = false
passes (some f) (some value) = value == f

abbrev pub is_chosen : CampaignPreviewRequest → Booking → Bool
is_chosen payload b =
    passes payload.status_filter (some b.status) && passes payload.label_id b.label_id

abbrev pub recipient_of : Booking → CampaignRecipient
recipient_of b = record {
  id = b.id;
  email = b.customer_email;
  name = some b.customer_name;
  status = b.status;
  received_mail = false;
}

-- The invitees that pass the filter and have an address.
abbrev pub invited : Option String → List Invitee → List CampaignRecipient
invited filter [] = []
invited filter (i ∷ is) =
    let rest = invited filter is in
    elim i.email [
      | none ↦ rest
      | some email ↦
          if passes filter (some i.status)
          then (record {
            id = i.id;
            email = email;
            name = none;
            status = i.status;
            received_mail = false;
          })
            ∷ rest
          else rest
    ]

unfoldable pub preview_campaign : String → CampaignPreviewRequest → Exec (List CampaignRecipient)
preview_campaign tenant_id payload =
    if payload.target_type == "BOOKING"
    then (do
      bookings ← query (list_by_event tenant_id payload.event_id)
      pure (map recipient_of (keep (is_chosen payload) bookings)))
    else if payload.target_type == "INVITEE"
    then (do
      invitees ← query (list_invitees_by_event tenant_id payload.event_id)
      pure (invited payload.status_filter invitees))
    else pure []

-- What a template may name, with an example of each.
abbrev pub get_placeholders : List TemplatePlaceholder
get_placeholders =
    record { key = "user_name"; description = "Customer Name"; sample_value = "John Doe" }
    ∷ record {
      key = "event_title";
      description = "Event Title";
      sample_value = "Consultation Call";
    }
    ∷ record {
      key = "event_description";
      description = "Event Description";
      sample_value = "Detailed description of the event.";
    }
    ∷ record {
      key = "start_time";
      description = "Booking Start Time";
      sample_value = "2023-10-15 14:00";
    }
    ∷ record { key = "location"; description = "Event Location"; sample_value = "Zoom Meeting" }
    ∷ record { key = "duration"; description = "Duration (min)"; sample_value = "30" }
    ∷ record { key = "payout"; description = "Payout Amount"; sample_value = "20" }
    ∷ record {
      key = "tenant_name";
      description = "Tenant Name";
      sample_value = "Research Institute";
    }
    ∷ record {
      key = "logo_url";
      description = "Tenant Logo URL";
      sample_value = "https://example.com/logo.png";
    }
    ∷ record {
      key = "manage_link";
      description = "Link to manage booking";
      sample_value = "https://example.com/manage/123";
    }
    ∷ record { key = "token"; description = "Invitee Token"; sample_value = "abc-123-xyz" }
    ∷ record {
      key = "book_link";
      description = "Direct booking link (Invite)";
      sample_value = "https://example.com/book?token=abc";
    }
    ∷ record {
      key = "booking_link";
      description = "Alias for book_link";
      sample_value = "https://example.com/book?token=abc";
    }
    ∷ []
