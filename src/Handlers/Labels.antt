-- ===== src/Handlers/Labels.antt =====
-- api/handlers/label.rs and infra/repositories/sqlite_label_repo.rs.
use booking_backend.Prelude.{
  ℤ, pos, String, not, ◌&&◌, Option, List, [], ◌∷◌, ◌++◌, leb, any, find, keep, unwrap_or, ◌==◌,
  if◌then◌else◌,
}
use booking_backend.Outcome.{Outcome, ok, err, database, unique_violation, not_found}
use booking_backend.Models.{BookingLabel}
use booking_backend.Env.{Env}
use booking_backend.Db.{
  Db, Exec, query, query_or, execute, reject, update_where, delete_where, fetch_one, utc_now,
  new_uuid, ◌>>=◌, ◌>>◌,
}

unfoldable pub insert_label : BookingLabel → Db → Outcome (BookingLabel × Db)
insert_label l db =
    if any (λ r. r.id == l.id) db.labels
    then err (database unique_violation)
    else ok (l, record db { labels = db.labels ++ l ∷ [] })

unfoldable pub find_label_by_id : String → Db → Option BookingLabel
find_label_by_id id db = find (λ l. l.id == id) db.labels

unfoldable pub update_label_rows : BookingLabel → Db → Outcome (BookingLabel × Db)
update_label_rows l db =
    let rows =
      update_where (λ (r : BookingLabel). r.id == l.id)
        (λ r. record r { name = l.name; color = l.color; payout = l.payout }) db.labels in
    fetch_one (find (λ r. r.id == l.id) rows) (record db { labels = rows })

-- `ORDER BY created_at ASC`
abbrev pub insert_by_age : BookingLabel → List BookingLabel → List BookingLabel
insert_by_age l [] = l ∷ []
insert_by_age l (m ∷ ms) =
    if leb l.created_at m.created_at then l ∷ m ∷ ms else m ∷ insert_by_age l ms

abbrev pub order_by_age : List BookingLabel → List BookingLabel
order_by_age [] = []
order_by_age (l ∷ ls) = insert_by_age l (order_by_age ls)

unfoldable pub labels_of : String → Db → List BookingLabel
labels_of tenant_id db = order_by_age (keep (λ l. l.tenant_id == tenant_id) db.labels)

unfoldable pub delete_label_rows : String → String → Db → Outcome (Unit {0} × Db)
delete_label_rows tenant_id id db =
    if any (λ (l : BookingLabel). l.id == id && l.tenant_id == tenant_id) db.labels
    then ok (
      tt,
      record db { labels = delete_where (λ l. l.id == id && l.tenant_id == tenant_id) db.labels },
    )
    else err (not_found "Label not found")

pub record CreateLabelRequest : Type 0 where
  pub name : String
  pub color : String
  pub payout : Option ℤ

pub record UpdateLabelRequest : Type 0 where
  pub name : Option String
  pub color : Option String
  pub payout : Option ℤ

module _ (env : Env) where
  unfoldable pub create_label : String → CreateLabelRequest → Exec BookingLabel
  create_label tenant_id payload = do
    id ← new_uuid env
    now ← utc_now env
    execute (
        insert_label (record {
          id = id;
          tenant_id = tenant_id;
          name = payload.name;
          color = payload.color;
          payout = unwrap_or payload.payout (pos 0);
          created_at = now;
        }))

unfoldable pub list_labels : String → Exec (List BookingLabel)
list_labels tenant_id = query (labels_of tenant_id)

unfoldable pub update_label : String → String → UpdateLabelRequest → Exec BookingLabel
update_label tenant_id label_id payload = do
  label ← query_or (find_label_by_id label_id) (not_found "Label not found")
  reject (not (label.tenant_id == tenant_id)) (not_found "Label not found")
  execute (
      update_label_rows (record label {
        name = unwrap_or payload.name label.name;
        color = unwrap_or payload.color label.color;
        payout = unwrap_or payload.payout label.payout;
      }))

unfoldable pub delete_label : String → String → Exec (Unit {0})
delete_label tenant_id label_id = execute (delete_label_rows tenant_id label_id)
