-- ===== src/Handlers/Events/Versions.antt =====
-- The versions that the creation of an event (`create_event`, api/handlers/event.rs) records for its templates.
use booking_backend.Prelude.{
  suc, ◌+◌, ◌≤◌, ◌≡◌, ◌∙◌, ◌⊎◌, inl, inr, refl, sym, ap, String, some, List, [], ◌∷◌, ◌++◌, length,
  arith,
}
use booking_backend.Outcome.{Outcome, ok}
use booking_backend.Models.{Event, NotificationRule}
use booking_backend.Models.Mail.{EmailTemplate, EmailTemplateVersion}
use booking_backend.Env.{Env}
use booking_backend.Db.{Db, St, pure, execute, attempt, ◌>>=◌}
use booking_backend.Db.Rules.{reads_rules, bind-ok, lift-ok, reject-ok, pure-ok}
use booking_backend.Db.Keeps.{
  Keeps-Reads, Keeps-attempt, Keeps-execute, Keeps-bind, Keeps-on_option, Keeps-run, Keeps,
}
use booking_backend.Db.Mail.{insert_rule, insert_version}
use booking_backend.Db.Mail.Writes.{insert_template-ok}
use booking_backend.Handlers.Communication.{record_version, new_version}
use booking_backend.Handlers.Communication.History.{IsRecorded, IsRecorded-create}
use booking_backend.Handlers.Events.Setup.{
  CreateEventRequest, DefaultTemplate, templates_to_create, rule_for, create_defaults, create_event,
}
use booking_backend.Handlers.Events.Defaults.{new_rule-Reads, new_template-ok}
use booking_backend.Handlers.Events.Created.{insert_event-ok, new_event-ok}

abbrev texts : Db → List EmailTemplate × List EmailTemplateVersion
texts db = (db.templates, db.versions)

IsRecorded-same : (old new : Db) → texts new ≡ texts old → IsRecorded old → IsRecorded new
IsRecorded-same old new e recorded = record {
  at = λ t i. rw (ap (λ (p : List EmailTemplate × List EmailTemplateVersion). p.1) e) (
      recorded.at t (rw (ap (λ (p : List EmailTemplate × List EmailTemplateVersion). p.0) e) at i));
}

length-end :
    (v : EmailTemplateVersion) (vs : List EmailTemplateVersion)
    → length (vs ++ v ∷ []) ≡ suc (length vs)
length-end v [] = refl
length-end v (w ∷ vs) = ap suc (length-end v vs)

insert_rule-texts :
    (r : NotificationRule) (old new : Db) (a : NotificationRule)
    → insert_rule r old ≡ ok (a, new)
    → texts new ≡ texts old
unfolding insert_rule
insert_rule-texts r old new a h = ground arith

insert_version-either :
    (v : EmailTemplateVersion) (s : St)
    → ((execute (insert_version v) s).1.db ≡ s.db)
      ⊎ ((execute (insert_version v) s).1.db ≡ record s.db { versions = s.db.versions ++ v ∷ [] })
unfolding execute insert_version
insert_version-either v s = ground arith

module _ (env : Env) where
  rule_for-Keeps :
      (tenant event id trigger : String) → Keeps texts (rule_for env tenant event id trigger)
  unfolding rule_for
  rule_for-Keeps tenant event id trigger =
      Keeps-bind texts _ _ (Keeps-Reads texts _ (new_rule-Reads env tenant (some event) trigger id))
        λ r.
          Keeps-bind texts _ _ (Keeps-attempt texts _ (Keeps-execute texts _ (insert_rule-texts r)))
            λ u. Keeps-Reads texts _ (search reads_rules)

  -- The first version of a template, which is recorded or passed over.
  first_version :
      (id subject body : String) (r : Outcome (Unit {0})) (s t : St)
      → attempt (record_version env id subject body) s ≡ (ok r, t)
      → (t.db ≡ s.db)
        ⊎ ((v : EmailTemplateVersion) × (v.template_id ≡ id)
            × (v.subject_template ≡ subject)
            × (v.body_template ≡ body)
            × (t.db ≡ record s.db { versions = s.db.versions ++ v ∷ [] }))
  unfolding attempt record_version new_version insert_version ◌>>=◌
  first_version id subject body r s t h =
      let v : EmailTemplateVersion = record {
        id = env.uuid_at s.calls;
        template_id = id;
        subject_template = subject;
        body_template = body;
        created_at = env.now_at (suc s.calls);
      } in
      let same = ap (λ (p : Outcome (Outcome (Unit {0})) × St). p.1.db) (sym h) in
      elim (insert_version-either v (record s { calls = suc (suc s.calls) })) [
        | inl e ↦ inl (same ∙ e)
        | inr e ↦ inr (v, refl, refl, refl, same ∙ e)
      ]

  -- The defaults add at most one version for each; where they add as many, the last versions hold the texts.
  module _ (tenant slug event : String) where
    create_defaults-length :
        (ds : List DefaultTemplate) (s t : St) (u : Unit {0})
        → create_defaults env tenant slug event ds s ≡ (ok u, t)
        → (length t.db.versions ≤ length s.db.versions + length ds)
          × (length t.db.versions ≡ length s.db.versions + length ds
              → IsRecorded s.db
              → IsRecorded t.db)
    unfolding create_defaults
    create_defaults-length [] s t u h =
        let same = (pure-ok tt s h).1 in rw same (omega arith, λ full recorded. recorded)
    create_defaults-length (d ∷ ds) s t u h = bind-ok _ _ s h λ x s₁ new h₁.
        bind-ok _ _ s₁ h₁ λ saved s₂ made h₂. bind-ok _ _ s₂ h₂ λ r s₃ versioned h₃.
          bind-ok _ _ s₃ h₃ λ v s₄ ruled h₄.
            let (_, db₁) = new_template-ok env tenant _ _ _ _ _ x s s₁ new in
            let (is_x, fresh, db₂) = insert_template-ok x saved s₁ s₂ made in
            let kept =
              Keeps-run texts _
                (Keeps-on_option texts d.trigger (pure tt) (rule_for env tenant event saved.id)
                  (Keeps-Reads texts (pure tt) (search reads_rules))
                  (rule_for-Keeps tenant event saved.id))
                ruled in
            let same_versions : s₄.db.versions ≡ s₃.db.versions =
              ap (λ (p : List EmailTemplate × List EmailTemplateVersion). p.1) kept in
            let (fewer, rest) = create_defaults-length ds s₄ t u h₄ in
            let d₂ : s₂.db ≡ record s.db { templates = s.db.templates ++ x ∷ [] } =
              rw (db₂, db₁) refl in
            elim (first_version saved.id saved.subject_template saved.body_template r s₂ s₃
              versioned) [
                | inl d₃ ↦
                    let size : length s₄.db.versions ≡ length s.db.versions =
                      ap length same_versions ∙ ap (λ (db : Db). length db.versions) (d₃ ∙ d₂) in
                    (omega arith, λ full recorded. absurd (omega arith))
                | inr (w, of_x, subject, body, d₃) ↦
                    let d : s₃.db ≡ record s.db {
                      templates = s.db.templates ++ x ∷ [];
                      versions = s.db.versions ++ w ∷ [];
                    } =
                      d₃ ∙ ap (λ (db : Db). record db { versions = db.versions ++ w ∷ [] }) d₂ in
                    let size : length s₄.db.versions ≡ suc (length s.db.versions) =
                      ap length same_versions
                      ∙ ap (λ (db : Db). length db.versions) d
                      ∙ length-end w s.db.versions in
                    (
                      omega arith,
                      λ full recorded. rest (omega arith) (
                          IsRecorded-same s₃.db s₄.db kept (
                            rw d (
                              IsRecorded-create s.db recorded w x (rw db₁ at fresh)
                                (of_x ∙ ap (λ (e : EmailTemplate). e.id) is_x)
                                (subject ∙ ap (λ (e : EmailTemplate). e.subject_template) is_x)
                                (body ∙ ap (λ (e : EmailTemplate). e.body_template) is_x)))),
                    )
              ]

  -- An event whose five templates all got their first version keeps every template recorded.
  pub create_event-IsRecorded :
      (file : String → String) (tenant : String) (payload : CreateEventRequest) (s t : St)
      (c : Event)
      → create_event env file tenant payload s ≡ (ok c, t)
      → length t.db.versions ≡ length s.db.versions + 5
      → IsRecorded s.db
      → IsRecorded t.db
  unfolding create_event
  create_event-IsRecorded file tenant payload s t c h full recorded = reject-ok _ s _ _ h λ _ h₁.
      reject-ok _ s _ _ h₁ λ _ h₂. reject-ok _ s _ _ h₂ λ _ h₃. reject-ok _ s _ _ h₃ λ _ h₄.
        lift-ok _ s _ h₄ λ json _ h₅. bind-ok _ _ s h₅ λ e s₁ new h₆.
          bind-ok _ _ s₁ h₆ λ made s₂ inserted h₇. bind-ok _ _ s₂ h₇ λ u s₃ defaults h₈.
            let (_, db₁) = new_event-ok env tenant payload json e s s₁ new in
            let (_, _, db₂) = insert_event-ok e made s₁ s₂ inserted in
            let same : texts s₂.db ≡ texts s.db = rw (db₂, db₁) refl in
            let end : t ≡ s₃ = (pure-ok made s₃ h₈).1 in
            let size : length s₂.db.versions ≡ length s.db.versions =
              ap (λ (p : List EmailTemplate × List EmailTemplateVersion). length p.1) same in
            let full₃ : length s₃.db.versions ≡ length s₂.db.versions + 5 = rw (← end, size) full in
            rw end (
              (create_defaults-length tenant payload.slug made.id (templates_to_create file) s₂ s₃ u
                  defaults).1
                full₃ (IsRecorded-same s.db s₂.db same recorded))
