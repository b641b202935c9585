-- ===== src/Models/Mail.antt =====
-- domain/models/communication.rs, and what infra/email/http_email_service.rs sends.
use booking_backend.Prelude.{String, Option, List}
use booking_backend.Models.{Instant}

pub record EmailTemplate : Type 0 where
  pub id : String
  pub tenant_id : String
  pub event_id : Option String
  pub name : String
  pub subject_template : String
  pub body_template : String
  pub template_type : String
  pub created_at : Instant
  pub updated_at : Instant

pub record EmailTemplateVersion : Type 0 where
  pub id : String
  pub template_id : String
  pub subject_template : String
  pub body_template : String
  pub created_at : Instant

pub record MailLog : Type 0 where
  pub id : String
  pub job_id : String
  pub recipient : String
  pub template_id : String
  pub context_hash : String
  pub sent_at : Instant
  pub status : String

pub record TemplatePlaceholder : Type 0 where
  pub key : String
  pub description : String
  pub sample_value : String

-- The data of an attachment, which is sent in base 64.
pub record AttachmentPayload : Type 0 where
  pub filename : String
  pub content_base64 : String

pub record EmailPayload : Type 0 where
  pub from_alias : String
  pub to_addr : String
  pub subject : String
  pub html_body : String
  pub attachments : List AttachmentPayload
