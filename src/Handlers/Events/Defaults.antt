-- ===== src/Handlers/Events/Defaults.antt =====
-- The default templates of an event (`create_event`, api/handlers/event.rs, and domain/services/defaults.rs).
use booking_backend.Prelude.{
  suc, ◌≡◌, ◌∙◌, refl, ap, String, Option, some, List, [], ◌∷◌, ◌++◌, arith,
}
use mathlib.Core.List.{append-nil, append_assoc}
use booking_backend.Text.Forms.{concat}
use booking_backend.Outcome.{ok}
use booking_backend.Models.{Event, NotificationRule}
use booking_backend.Models.Mail.{EmailTemplate, EmailTemplateVersion}
use booking_backend.Env.{Env}
use booking_backend.Db.{Db, St, pure, ◌>>=◌}
use booking_backend.Db.Rules.{Reads, reads_rules, bind-ok, pure-ok}
use booking_backend.Db.Keeps.{
  Keeps, Keeps-Reads, Keeps-attempt, Keeps-execute, Keeps-bind, Keeps-on_option, Keeps-run,
}
use booking_backend.Db.Mail.{insert_version, insert_rule}
use booking_backend.Db.Mail.Writes.{insert_template-ok}
use booking_backend.Handlers.Communication.{new_template, new_version, new_rule, record_version}
use booking_backend.Handlers.Events.Setup.{DefaultTemplate, rule_for, create_defaults}

-- A template of an event that is made from a default one.
pub record IsDefault (tenant_id slug event_id : String) (d : DefaultTemplate) (x : EmailTemplate)
    : Type 0 where
  pub of_tenant : x.tenant_id ≡ tenant_id
  pub of_event : x.event_id ≡ some event_id
  pub named : x.name ≡ concat (slug ∷ " - " ∷ d.suffix ∷ [])
  pub subject : x.subject_template ≡ d.subject
  pub body : x.body_template ≡ d.body
  pub kind : x.template_type ≡ "mjml"

abbrev pub Defaults : String → String → String → List DefaultTemplate → List EmailTemplate → Type 0
Defaults tenant_id slug event_id [] [] = Unit
Defaults tenant_id slug event_id [] (x ∷ xs) = ⊥
Defaults tenant_id slug event_id (d ∷ ds) [] = ⊥
Defaults tenant_id slug event_id (d ∷ ds) (x ∷ xs) =
    IsDefault tenant_id slug event_id d x × Defaults tenant_id slug event_id ds xs

-- The tables that an event and its templates stand in.
abbrev shown : Db → List Event × List EmailTemplate
shown db = (db.events, db.templates)

insert_version-shown :
    (v : EmailTemplateVersion) (old new : Db) (a : Unit {0})
    → insert_version v old ≡ ok (a, new)
    → shown new ≡ shown old
unfolding insert_version
insert_version-shown v old new a h = ground arith

insert_rule-shown :
    (r : NotificationRule) (old new : Db) (a : NotificationRule)
    → insert_rule r old ≡ ok (a, new)
    → shown new ≡ shown old
unfolding insert_rule
insert_rule-shown r old new a h = ground arith

module _ (env : Env) where
  new_version-Reads : (id subject body : String) → Reads (new_version env id subject body)
  unfolding new_version
  new_version-Reads id subject body = search reads_rules

  pub new_rule-Reads :
      (tenant : String) (event : Option String) (trigger id : String)
      → Reads (new_rule env tenant event trigger id)
  unfolding new_rule
  new_rule-Reads tenant event trigger id = search reads_rules

  record_version-Keeps :
      (id subject body : String) → Keeps shown (record_version env id subject body)
  unfolding record_version
  record_version-Keeps id subject body =
      Keeps-bind shown _ _ (Keeps-Reads shown _ (new_version-Reads id subject body))
        λ v. Keeps-execute shown _ (insert_version-shown v)

  rule_for-Keeps :
      (tenant event id trigger : String) → Keeps shown (rule_for env tenant event id trigger)
  unfolding rule_for
  rule_for-Keeps tenant event id trigger =
      Keeps-bind shown _ _ (Keeps-Reads shown _ (new_rule-Reads tenant (some event) trigger id))
        λ r.
          Keeps-bind shown _ _ (Keeps-attempt shown _ (Keeps-execute shown _ (insert_rule-shown r)))
            λ u. Keeps-Reads shown _ (search reads_rules)

  pub new_template-ok :
      (tenant name subject body kind : String) (event : Option String) (x : EmailTemplate)
      (s t : St)
      → new_template env tenant event name subject body kind s ≡ (ok x, t)
      → (x ≡ record {
        id = env.uuid_at (suc s.calls);
        tenant_id = tenant;
        event_id = event;
        name = name;
        subject_template = subject;
        body_template = body;
        template_type = kind;
        created_at = env.now_at s.calls;
        updated_at = env.now_at s.calls;
      })
        × (t.db ≡ s.db)
  unfolding new_template ◌>>=◌
  new_template-ok tenant name subject body kind event x s t h = ground arith

  pub create_defaults-ok :
      (tenant slug event : String) (ds : List DefaultTemplate) (s t : St) (u : Unit {0})
      → create_defaults env tenant slug event ds s ≡ (ok u, t)
      → (added : List EmailTemplate) × (t.db.events ≡ s.db.events)
        × (t.db.templates ≡ s.db.templates ++ added)
        × Defaults tenant slug event ds added
  unfolding create_defaults
  create_defaults-ok tenant slug event [] s t u h =
      let same = (pure-ok tt s h).1 in
      ([], ap (λ (x : St). x.db.events) same, rw (same, append-nil s.db.templates), tt)
  create_defaults-ok tenant slug event (d ∷ ds) s t u h = bind-ok _ _ s h λ x s₁ new h₁.
      bind-ok _ _ s₁ h₁ λ saved s₂ made h₂. bind-ok _ _ s₂ h₂ λ r s₃ versioned h₃.
        bind-ok _ _ s₃ h₃ λ v s₄ ruled h₄.
          let (is_new, db₁) = new_template-ok tenant _ _ _ _ _ x s s₁ new in
          let (is_x, fresh, db₂) = insert_template-ok x saved s₁ s₂ made in
          let keep₃ =
            Keeps-run shown _ (Keeps-attempt shown _ (record_version-Keeps _ _ _)) versioned in
          let keep₄ =
            Keeps-run shown _
              (Keeps-on_option shown d.trigger (pure tt) (rule_for env tenant event saved.id)
                (Keeps-Reads shown (pure tt) (search reads_rules))
                (rule_for-Keeps tenant event saved.id))
              ruled in
          let kept = keep₄ ∙ keep₃ in
          let (added, events, templates, rest) =
            create_defaults-ok tenant slug event ds s₄ t u h₄ in
          (
            x ∷ added,
            events ∙ ap (λ (p : List Event × List EmailTemplate). p.0) kept ∙ rw (db₂, db₁) refl,
            templates
                ∙ ap (λ (p : List Event × List EmailTemplate). p.1 ++ added) kept
                ∙ rw (db₂, db₁) (append_assoc s.db.templates (x ∷ []) added),
            (
              rw is_new (record {
                of_tenant = refl;
                of_event = refl;
                named = refl;
                subject = refl;
                body = refl;
                kind = refl;
              }),
              rest,
            ),
          )
