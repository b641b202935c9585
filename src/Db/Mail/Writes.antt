-- ===== src/Db/Mail/Writes.antt =====
-- What the statements on templates and versions write (infra/repositories/sqlite_communication_repo.rs).
use booking_backend.Prelude.{
  ◌≡◌, String, false, some, [], ◌∷◌, ◌++◌, arith, any, ◌==◌, if◌then◌else◌,
}
use booking_backend.Outcome.{ok}
use booking_backend.Models.Mail.{EmailTemplate, EmailTemplateVersion}
use booking_backend.Db.{St, execute, update_where, delete_where}
use booking_backend.Db.Rows.{find-update_where}
use booking_backend.Db.Rules.{fetch_one-ok}
use booking_backend.Db.Mail.{
  insert_template, update_template_rows, update_template_row, delete_template_rows, insert_version,
  has_template, find_template,
}

pub insert_template-ok :
    (n c : EmailTemplate) (s t : St)
    → execute (insert_template n) s ≡ (ok c, t)
    → (c ≡ n)
      × (any (λ (r : EmailTemplate). r.id == n.id) s.db.templates ≡ false)
      × (t.db ≡ record s.db { templates = s.db.templates ++ n ∷ [] })
unfolding execute insert_template
insert_template-ok n c s t h = ground arith

pub insert_version-ok :
    (v : EmailTemplateVersion) (u : Unit {0}) (s t : St)
    → execute (insert_version v) s ≡ (ok u, t)
    → t.db ≡ record s.db { versions = s.db.versions ++ v ∷ [] }
unfolding execute insert_version
insert_version-ok v u s t h = ground arith

pub update_template_rows-ok :
    (n c : EmailTemplate) (s t : St)
    → execute (update_template_rows n) s ≡ (ok c, t)
    → t.db ≡ record s.db {
      templates =
          update_where (λ (r : EmailTemplate). r.id == n.id) (update_template_row n) s.db.templates;
    }
unfolding execute update_template_rows
update_template_rows-ok n c s t h = (fetch_one-ok _ _ s t c h).1

pub delete_template_rows-ok :
    (id : String) (u : Unit {0}) (s t : St)
    → execute (delete_template_rows id) s ≡ (ok u, t)
    → t.db ≡ record s.db {
      templates = delete_where (λ (r : EmailTemplate). r.id == id) s.db.templates;
      versions =
          if has_template id s.db
          then delete_where (λ (v : EmailTemplateVersion). v.template_id == id) s.db.versions
          else s.db.versions;
    }
unfolding execute delete_template_rows
delete_template_rows-ok id u s t h = ground arith

-- What is read back after an update: the row as it was, with the new texts.
pub update_template_rows-row :
    (n c : EmailTemplate) (s t : St)
    → execute (update_template_rows n) s ≡ (ok c, t)
    → (find_template n.id t.db ≡ some c)
      × ((r : EmailTemplate) × (find_template n.id s.db ≡ some r) × (c ≡ update_template_row n r))
unfolding execute update_template_rows find_template
update_template_rows-row n c s t h =
    let (first, tables) = fetch_one-ok _ _ s t c h in
    (
      rw tables first,
      find-update_where (λ (r : EmailTemplate). r.id == n.id) (update_template_row n) (λ x e. e) c
          s.db.templates first,
    )
