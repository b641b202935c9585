-- ===== src/Handlers/Communication/History/Refines.antt =====
-- The template handlers implement their specification (api/handlers/communication.rs).
use booking_backend.Prelude.{◌≡◌, ◌∙◌, Option, sym, ap, subst, String, some, arith, In}
use booking_backend.Outcome.{ok}
use booking_backend.Models.Mail.{EmailTemplate, EmailTemplateVersion}
use booking_backend.Env.{Env}
use booking_backend.Db.{Db, St, ◌>>=◌}
use booking_backend.Db.Rules.{reads_rules, bind-ok, reads-ok, pure-ok}
use booking_backend.Db.Rows.{find-In}
use booking_backend.Db.Mail.{find_template, find_version}
use booking_backend.Db.Mail.Writes.{
  insert_template-ok, update_template_rows-ok, update_template_rows-row, delete_template_rows-ok,
}
use booking_backend.Handlers.Communication.{
  CreateTemplateRequest, create_template, new_template, update_template, restore_version,
  delete_template,
}
use booking_backend.Handlers.Communication.History.Runs.{
  Reads-get_template, Reads-version_of, get_template-ok, version_of-ok, record_version-ok, restored,
}
use booking_backend.Handlers.Communication.History.Undo.{find_template-id}
use booking_backend.Handlers.Communication.History.Revisions.{
  Revision, Operation, Specified, revised, put_back, removed, revision, histories, asked, shown,
  Step, created, updated, restored_one, deleted, histories-push, histories-clear, In-revisions_of,
  has_template-find, push, clear, revise, restore, remove,
}

revision_lem :
    (v : EmailTemplateVersion) (subject body : String)
    → v.subject_template ≡ subject
    → v.body_template ≡ body
    → revision v ≡ record { subject = subject; body = body }
revision_lem v subject body e f = λ i. record { subject = e i; body = f i }

new_template-ok :
    (env : Env) (tenant : String) (event : Option String) (name subject body kind : String)
    (n : EmailTemplate) (s t : St)
    → new_template env tenant event name subject body kind s ≡ (ok n, t)
    → (n.subject_template ≡ subject) × (n.body_template ≡ body) × (t.db ≡ s.db)
unfolding new_template ◌>>=◌
new_template-ok env tenant event name subject body kind n s t h = ground arith

create-Specified :
    (env : Env) (tenant : String) (payload : CreateTemplateRequest) (s t : St) (c : EmailTemplate)
    → create_template env tenant payload s ≡ (ok c, t)
    → histories t.db ≡ push c.id (asked payload) (histories s.db)
unfolding create_template
create-Specified env tenant payload s t c h = bind-ok _ _ s h λ n s₁ new h₁.
    bind-ok _ _ s₁ h₁ λ made s₂ inserted h₂. bind-ok _ _ s₂ h₂ λ u s₃ versioned h₃.
      let (subject₁, body₁, d₁) = new_template-ok env _ _ _ _ _ _ n s s₁ new in
      let (same, _, d₂) = insert_template-ok n made s₁ s₂ inserted in
      let (v, of_n, subject, body, d₃) = record_version-ok env _ _ _ u s₂ s₃ versioned in
      let (result, end) = pure-ok made s₃ h₃ in
      histories-push v s.db t.db c.id (asked payload) (rw (end, d₃, d₂, d₁))
        (of_n ∙ ap (λ (x : EmailTemplate). x.id) (sym result))
        (revision_lem v _ _
          (subject ∙ ap (λ (x : EmailTemplate). x.subject_template) same ∙ subject₁)
          (body ∙ ap (λ (x : EmailTemplate). x.body_template) same ∙ body₁))

update-Specified :
    (env : Env) (tenant id : String) (payload : CreateTemplateRequest) (s t : St)
    (c : EmailTemplate)
    → update_template env tenant id payload s ≡ (ok c, t)
    → histories t.db ≡ push id (asked payload) (histories s.db)
unfolding update_template
update-Specified env tenant id payload s t c h =
    reads-ok _ s _ (Reads-get_template tenant id) h λ n s₁ d₁ named h₁.
      bind-ok _ _ s₁ h₁ λ u s₂ versioned h₂.
        reads-ok _ s₂ _ (search reads_rules) h₂ λ now s₃ d₂ _ h₃.
          let (is_n, _) = get_template-ok tenant id s s₁ n named in
          let (v, of_n, subject, body, d₃) = record_version-ok env _ _ _ u s₁ s₂ versioned in
          histories-push v s.db t.db id (asked payload)
            (rw (update_template_rows-ok _ c s₃ t h₃, d₂, d₃, d₁))
            (of_n ∙ find_template-id id n s.db is_n) (revision_lem v _ _ subject body)

restore-Specified :
    (env : Env) (tenant id version : String) (s t : St) (c : EmailTemplate)
    → restore_version env tenant id version s ≡ (ok c, t)
    → (histories t.db ≡ push id (shown c) (histories s.db)) × In (shown c) (histories s.db id)
unfolding restore_version find_version
restore-Specified env tenant id version s t c h =
    reads-ok _ s _ (Reads-get_template tenant id) h λ n s₁ d₁ named h₁.
      reads-ok _ s₁ _ (Reads-version_of id version) h₁ λ old s₂ d₂ versioned h₂.
        reads-ok _ s₂ _ (search reads_rules) h₂ λ now s₃ d₃ _ h₃.
          bind-ok _ _ s₃ h₃ λ kept s₄ written h₄. bind-ok _ _ s₄ h₄ λ u s₅ added h₅.
            let (is_n, _) = get_template-ok tenant id s s₁ n named in
            let (is_old, belongs) = version_of-ok id version s₁ s₂ old versioned in
            let (_, (r, was, same)) =
              update_template_rows-row (restored n old now) kept s₃ s₄ written in
            let d₄ = update_template_rows-ok (restored n old now) kept s₃ s₄ written in
            let (v, of_n, subject, body, d₅) = record_version-ok env _ _ _ u s₄ s₅ added in
            let (result, end) = pure-ok kept s₅ h₅ in
            let texts : revision old ≡ shown c =
              ap (λ (x : EmailTemplate). shown x) (sym (result ∙ same)) in
            (
              histories-push v s.db t.db id (shown c) (rw (end, d₅, d₄, d₃, d₂, d₁))
                  (of_n ∙ find_template-id id n s.db is_n)
                  (revision_lem v _ _ subject body ∙ texts),
              subst (λ (x : Revision). In x (histories s.db id)) texts
                  (In-revisions_of id old s.db.versions
                    (find-In _ old s.db.versions
                      (subst (λ (db : Db). find_version version db ≡ some old) d₁ is_old))
                    belongs),
            )

delete-Specified :
    (tenant id : String) (s t : St) (u : Unit {0})
    → delete_template tenant id s ≡ (ok u, t)
    → histories t.db ≡ clear id (histories s.db)
unfolding delete_template find_template
delete-Specified tenant id s t u h =
    reads-ok _ s _ (Reads-get_template tenant id) h λ n s₁ d₁ named h₁.
      let (is_n, _) = get_template-ok tenant id s s₁ n named in
      let here = has_template-find id n s.db.templates is_n in
      histories-clear s.db t.db id (rw (delete_template_rows-ok id u s₁ t h₁, d₁, here))

-- The template handlers refine their specification: a request to create, update, restore or delete a
-- template that succeeds changes the histories of revisions as the specification allows for what was
-- asked. It adds what was asked to one history, or a revision that this history has had, or it empties
-- one; every other history stays.
pub Step-Specified :
    (env : Env) (op : Operation) (s t : St)
    → Step env op s t
    → Specified op (histories s.db) (histories t.db)
Step-Specified env _ s t (created {c = c} tenant payload h) =
    subst (Specified (revise c.id (asked payload)) (histories s.db))
      (sym (create-Specified env tenant payload s t c h)) revised
Step-Specified env _ s t (updated {c = c} tenant id payload h) =
    subst (Specified (revise id (asked payload)) (histories s.db))
      (sym (update-Specified env tenant id payload s t c h)) revised
Step-Specified env _ s t (restored_one {c = c} tenant id version h) =
    let (after, had) = restore-Specified env tenant id version s t c h in
    subst (Specified (restore id (shown c)) (histories s.db)) (sym after) (put_back had)
Step-Specified env _ s t (deleted {u = u} tenant id h) =
    subst (Specified (remove id) (histories s.db)) (sym (delete-Specified tenant id s t u h))
      removed
