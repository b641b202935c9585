-- ===== src/Handlers/Communication/History/Runs.antt =====
-- The versions of the templates over the life of the program (api/handlers/communication.rs).
use booking_backend.Prelude.{
  ◌≡◌, ◌∙◌, refl, ap, String, true, Option, some, [], ◌∷◌, ◌++◌, ◌+◌, length, arith, ◌==◌,
  if◌then◌else◌,
}
use booking_backend.Outcome.{ok}
use booking_backend.Models.Mail.{EmailTemplate, EmailTemplateVersion}
use booking_backend.Env.{Env}
use booking_backend.Db.{St, ◌>>=◌}
use booking_backend.Db.Rules.{
  Reads, reads_rules, bind-ok, reads-ok, query_or-ok, reject-ok, pure-ok,
}
use booking_backend.Db.Mail.{find_template, find_version}
use booking_backend.Db.Mail.Writes.{
  insert_template-ok, insert_version-ok, update_template_rows-ok, delete_template_rows-ok,
}
use booking_backend.Handlers.Communication.{
  CreateTemplateRequest, get_template, version_of, new_template, new_version, record_version,
  create_template, update_template, restore_version, delete_template,
}
use booking_backend.Handlers.Events.Setup.{CreateEventRequest, create_event}
use booking_backend.Handlers.Events.Versions.{create_event-IsRecorded}
use booking_backend.Text.Forms.{is_mjml}
use booking_backend.Models.{Instant, Event}
use booking_backend.Handlers.Communication.History.{
  IsRecorded, IsRecorded-create, IsRecorded-update, IsRecorded-delete,
}

Reads-new_template :
    (env : Env) (tenant : String) (event : Option String) (name subject body kind : String)
    → Reads (new_template env tenant event name subject body kind)
unfolding new_template
Reads-new_template env tenant event name subject body kind = search reads_rules depth 10

pub record_version-ok :
    (env : Env) (id subject body : String) (u : Unit {0}) (s t : St)
    → record_version env id subject body s ≡ (ok u, t)
    → (v : EmailTemplateVersion) × (v.template_id ≡ id)
      × (v.subject_template ≡ subject)
      × (v.body_template ≡ body)
      × (t.db ≡ record s.db { versions = s.db.versions ++ v ∷ [] })
unfolding record_version new_version ◌>>=◌
record_version-ok env id subject body u s t h = (_, refl, refl, refl, insert_version-ok _ u _ t h)

pub Reads-get_template : (tenant id : String) → Reads (get_template tenant id)
unfolding get_template
Reads-get_template tenant id = search reads_rules depth 10

pub Reads-version_of : (template_id id : String) → Reads (version_of template_id id)
unfolding version_of
Reads-version_of template_id id = search reads_rules depth 10

pub get_template-ok :
    (tenant id : String) (s t : St) (c : EmailTemplate)
    → get_template tenant id s ≡ (ok c, t)
    → (find_template id s.db ≡ some c) × ((c.tenant_id == tenant) ≡ true)
unfolding get_template
get_template-ok tenant id s t c h = query_or-ok _ s _ _ h λ found e h₁.
    reject-ok _ s _ _ h₁
      λ own h₂. let same : c ≡ found = (pure-ok found s h₂).0 in rw same (e, ground arith)

pub get_template-same :
    (tenant id : String) (s t : St) (c : EmailTemplate)
    → get_template tenant id s ≡ (ok c, t)
    → t ≡ s
unfolding get_template
get_template-same tenant id s t c h =
    query_or-ok _ s _ _ h λ found e h₁. reject-ok _ s _ _ h₁ λ own h₂. (pure-ok found s h₂).1

pub version_of-ok :
    (template_id id : String) (s t : St) (v : EmailTemplateVersion)
    → version_of template_id id s ≡ (ok v, t)
    → (find_version id s.db ≡ some v) × ((v.template_id == template_id) ≡ true)
unfolding version_of
version_of-ok template_id id s t v h = query_or-ok _ s _ _ h λ found e h₁.
    reject-ok _ s _ _ h₁
      λ own h₂. let same : v ≡ found = (pure-ok found s h₂).0 in rw same (e, ground arith)

create_template-IsRecorded :
    (env : Env) (tenant : String) (payload : CreateTemplateRequest) (s t : St) (c : EmailTemplate)
    → create_template env tenant payload s ≡ (ok c, t)
    → IsRecorded s.db
    → IsRecorded t.db
unfolding create_template
create_template-IsRecorded env tenant payload s t c h recorded =
    reads-ok _ s _ (search (reads_rules, Reads-new_template) depth 10) h λ n s₁ d₁ _ h₁.
      bind-ok _ _ s₁ h₁ λ made s₂ inserted h₂. bind-ok _ _ s₂ h₂ λ u s₃ versioned h₃.
        let (same, new, d₂) = insert_template-ok n made s₁ s₂ inserted in
        let (v, of_n, subject, body, d₃) = record_version-ok env _ _ _ u s₂ s₃ versioned in
        rw ((pure-ok made s₃ h₃).1, d₃, d₂, d₁)
          (IsRecorded-create s.db recorded v n (rw d₁ at new)
            (of_n ∙ ap (λ (e : EmailTemplate). e.id) same)
            (subject ∙ ap (λ (e : EmailTemplate). e.subject_template) same)
            (body ∙ ap (λ (e : EmailTemplate). e.body_template) same))

pub update_template-versions :
    (env : Env) (tenant id : String) (payload : CreateTemplateRequest) (s t : St)
    (c : EmailTemplate)
    → update_template env tenant id payload s ≡ (ok c, t)
    → (v : EmailTemplateVersion) × (t.db.versions ≡ s.db.versions ++ v ∷ [])
unfolding update_template
update_template-versions env tenant id payload s t c h =
    reads-ok _ s _ (Reads-get_template tenant id) h λ n s₁ d₁ _ h₁.
      bind-ok _ _ s₁ h₁ λ u s₂ versioned h₂.
        reads-ok _ s₂ _ (search reads_rules) h₂ λ now s₃ d₂ _ h₃.
          let (v, _, _, _, d₃) = record_version-ok env _ _ _ u s₁ s₂ versioned in
          (v, rw (update_template_rows-ok _ c s₃ t h₃, d₂, d₃, d₁))

update_template-IsRecorded :
    (env : Env) (tenant id : String) (payload : CreateTemplateRequest) (s t : St)
    (c : EmailTemplate)
    → update_template env tenant id payload s ≡ (ok c, t)
    → IsRecorded s.db
    → IsRecorded t.db
unfolding update_template
update_template-IsRecorded env tenant id payload s t c h recorded =
    reads-ok _ s _ (Reads-get_template tenant id) h λ n s₁ d₁ _ h₁.
      bind-ok _ _ s₁ h₁ λ u s₂ versioned h₂.
        reads-ok _ s₂ _ (search reads_rules) h₂ λ now s₃ d₂ _ h₃.
          let (v, of_n, subject, body, d₃) = record_version-ok env _ _ _ u s₁ s₂ versioned in
          let n' : EmailTemplate = record n {
            name = payload.name;
            subject_template = payload.subject_template;
            body_template = payload.body_template;
            template_type = payload.template_type;
            updated_at = now;
          } in
          let d₄ = update_template_rows-ok n' c s₃ t h₃ in
          rw (d₄, d₂, d₃, d₁) (IsRecorded-update s.db recorded v n' of_n subject body)

-- A template with the texts of a version.
abbrev pub restored : EmailTemplate → EmailTemplateVersion → Instant → EmailTemplate
restored n old now = record n {
  subject_template = old.subject_template;
  body_template = old.body_template;
  template_type = if is_mjml old.body_template then "mjml" else "html";
  updated_at = now;
}

restore_version-IsRecorded :
    (env : Env) (tenant id version : String) (s t : St) (c : EmailTemplate)
    → restore_version env tenant id version s ≡ (ok c, t)
    → IsRecorded s.db
    → IsRecorded t.db
unfolding restore_version
restore_version-IsRecorded env tenant id version s t c h recorded =
    reads-ok _ s _ (Reads-get_template tenant id) h λ n s₁ d₁ _ h₁.
      reads-ok _ s₁ _ (Reads-version_of id version) h₁ λ old s₂ d₂ _ h₂.
        reads-ok _ s₂ _ (search reads_rules) h₂ λ now s₃ d₃ _ h₃.
          bind-ok _ _ s₃ h₃ λ updated s₄ written h₄. bind-ok _ _ s₄ h₄ λ u s₅ versioned h₅.
            let n' = restored n old now in
            let d₄ = update_template_rows-ok n' updated s₃ s₄ written in
            let (v, of_n, subject, body, d₅) = record_version-ok env _ _ _ u s₄ s₅ versioned in
            rw ((pure-ok updated s₅ h₅).1, d₅, d₄, d₃, d₂, d₁)
              (IsRecorded-update s.db recorded v n' of_n subject body)

delete_template-IsRecorded :
    (tenant id : String) (s t : St) (u : Unit {0})
    → delete_template tenant id s ≡ (ok u, t)
    → IsRecorded s.db
    → IsRecorded t.db
unfolding delete_template
delete_template-IsRecorded tenant id s t u h recorded =
    reads-ok _ s _ (Reads-get_template tenant id) h λ n s₁ d₁ _ h₁.
      let d₂ = delete_template_rows-ok id u s₁ t h₁ in
      rw (d₂, d₁) (IsRecorded-delete s.db id recorded)

-- The tables over a sequence of the four requests on templates, where they succeed, and of creations of events
-- that record a version for each of their five templates; a creation that passes over a version is left out.
-- `other` is any change that keeps the templates and the versions.
pub data Run (env : Env) : St → Type 0 where
  start : (s : St) → s.db.templates ≡ [] → Run env s
  other :
      {s : St} (t : St)
      → Run env s
      → t.db.templates ≡ s.db.templates
      → t.db.versions ≡ s.db.versions
      → Run env t
  created :
      {s : St} (tenant : String) (payload : CreateTemplateRequest) (t : St) (c : EmailTemplate)
      → Run env s
      → create_template env tenant payload s ≡ (ok c, t)
      → Run env t
  updated :
      {s : St} (tenant id : String) (payload : CreateTemplateRequest) (t : St) (c : EmailTemplate)
      → Run env s
      → update_template env tenant id payload s ≡ (ok c, t)
      → Run env t
  put_back :
      {s : St} (tenant id version : String) (t : St) (c : EmailTemplate)
      → Run env s
      → restore_version env tenant id version s ≡ (ok c, t)
      → Run env t
  deleted :
      {s : St} (tenant id : String) (t : St) (u : Unit {0})
      → Run env s
      → delete_template tenant id s ≡ (ok u, t)
      → Run env t
  event_created :
      {s : St} (file : String → String) (tenant : String) (payload : CreateEventRequest) (t : St)
      (c : Event)
      → Run env s
      → create_event env file tenant payload s ≡ (ok c, t)
      → length t.db.versions ≡ length s.db.versions + 5
      → Run env t

-- From a table without templates, and over any sequence of successes of `create_template`, `update_template`,
-- `restore_version` and `delete_template`, of events created with a version for each of their five templates,
-- and of changes that keep the templates and the versions, the version of a template that was recorded last
-- holds its texts.
pub Run-IsRecorded : (env : Env) (s : St) → Run env s → IsRecorded s.db
Run-IsRecorded env s (start _ empty) = record { at = λ t i. absurd (rw empty at i) }
Run-IsRecorded env t (other {s = s} _ r same kept) =
    let recorded = Run-IsRecorded env s r in
    record { at = λ e i. rw kept (recorded.at e (rw same at i)) }
Run-IsRecorded env t (created {s = s} tenant payload _ c r h) =
    create_template-IsRecorded env tenant payload s t c h (Run-IsRecorded env s r)
Run-IsRecorded env t (updated {s = s} tenant id payload _ c r h) =
    update_template-IsRecorded env tenant id payload s t c h (Run-IsRecorded env s r)
Run-IsRecorded env t (put_back {s = s} tenant id version _ c r h) =
    restore_version-IsRecorded env tenant id version s t c h (Run-IsRecorded env s r)
Run-IsRecorded env t (deleted {s = s} tenant id _ u r h) =
    delete_template-IsRecorded tenant id s t u h (Run-IsRecorded env s r)
Run-IsRecorded env t (event_created {s = s} file tenant payload _ c r h full) =
    create_event-IsRecorded env file tenant payload s t c h full (Run-IsRecorded env s r)
