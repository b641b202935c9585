-- ===== src/Handlers/Invitees.antt =====
-- api/handlers/invitee.rs: the tokens of a restricted event.
use booking_backend.Prelude.{String, Option, List, or_else}
use booking_backend.Outcome.{not_found}
use booking_backend.Models.{Invitee}
use booking_backend.Env.{Env}
use booking_backend.Db.{Exec, pure, query, query_or, execute, utc_now, new_uuid, random_text, ◌>>=◌}
use booking_backend.Db.Schedule.{
  find_event_by_slug, find_invitee_by_id, list_invitees_by_event, insert_invitee,
  update_invitee_rows, delete_invitee_rows,
}

pub record UpdateInviteeRequest : Type 0 where
  pub status : String
  pub email : Option String

module _ (env : Env) where
  -- `Invitee::new`
  unfoldable pub new_invitee : String → String → Option String → Exec Invitee
  new_invitee tenant_id event_id email = do
    token ← random_text env
    id ← new_uuid env
    now ← utc_now env
    pure (record {
      id = id;
      tenant_id = tenant_id;
      event_id = event_id;
      token = token;
      email = email;
      status = "ACTIVE";
      created_at = now;
    })

  unfoldable pub create_invitee : String → String → Option String → Exec Invitee
  create_invitee tenant_id slug email = do
    event ← query_or (find_event_by_slug tenant_id slug) (not_found "Event not found")
    invitee ← new_invitee tenant_id event.id email
    execute (insert_invitee invitee)

unfoldable pub list_invitees : String → String → Exec (List Invitee)
list_invitees tenant_id slug = do
  event ← query_or (find_event_by_slug tenant_id slug) (not_found "Event not found")
  query (list_invitees_by_event tenant_id event.id)

unfoldable pub update_invitee : String → String → UpdateInviteeRequest → Exec Invitee
update_invitee tenant_id invitee_id payload = do
  invitee ← query_or (find_invitee_by_id tenant_id invitee_id) (not_found "Invitee not found")
  execute (
      update_invitee_rows
        (record invitee { status = payload.status; email = or_else payload.email invitee.email }))

unfoldable pub delete_invitee : String → String → Exec (Unit {0})
delete_invitee tenant_id invitee_id = execute (delete_invitee_rows tenant_id invitee_id)
