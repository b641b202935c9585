-- ===== src/Handlers/Communication/History/Undo.antt =====
-- What `restore_version` puts back, and how it undoes `update_template` (api/handlers/communication.rs).
use booking_backend.Prelude.{
  ◌≡◌, ◌∙◌, sym, ap, subst, String, true, some, [], ◌∷◌, ◌++◌, arith, ◌==◌, eq_iff, if◌then◌else◌,
}
use booking_backend.Outcome.{ok}
use booking_backend.Models.Mail.{EmailTemplate, EmailTemplateVersion}
use booking_backend.Env.{Env}
use booking_backend.Db.{Db, St}
use booking_backend.Db.Rules.{reads_rules, bind-ok, reads-ok, pure-ok}
use booking_backend.Db.Rows.{find-holds, find-In}
use booking_backend.Db.Mail.{find_template, find_version}
use booking_backend.Handlers.Communication.{CreateTemplateRequest, update_template, restore_version}
use booking_backend.Text.Forms.{is_mjml}
use booking_backend.Db.Rows.{find-append}
use booking_backend.Db.Mail.Writes.{update_template_rows-row}
use booking_backend.Handlers.Communication.History.{latest}
use booking_backend.Handlers.Communication.History.Runs.{
  Run, Run-IsRecorded, update_template-versions, restored, Reads-get_template, Reads-version_of,
  get_template-ok, version_of-ok, record_version-ok,
}

pub find_template-id :
    (id : String) (n : EmailTemplate) (db : Db) → find_template id db ≡ some n → n.id ≡ id
unfolding find_template
find_template-id id n db h =
    (eq_iff n.id id).0 (find-holds (λ (t : EmailTemplate). t.id == id) n db.templates h)

some_injective : {A : Type 0} (a b : A) → some a ≡ some b → a ≡ b
some_injective a b h = ground arith

find_template_kept :
    (c : EmailTemplate) (id : String) (s t : St) (v : EmailTemplateVersion)
    → t.db ≡ record s.db { versions = s.db.versions ++ v ∷ [] }
    → find_template id s.db ≡ some c
    → find_template id t.db ≡ some c
unfolding find_template
find_template_kept c id s t v d h = rw d h

-- A version is put back only into its own template, by a tenant that owns it. The row then has the texts
-- of the version, the kind that they have, and its old name.
pub restore_version-ok :
    (env : Env) (tenant id version : String) (s t : St) (c : EmailTemplate)
    → restore_version env tenant id version s ≡ (ok c, t)
    → (n : EmailTemplate) × (old : EmailTemplateVersion) × (find_template id s.db ≡ some n)
      × ((n.tenant_id == tenant) ≡ true)
      × (find_version version s.db ≡ some old)
      × ((old.template_id == id) ≡ true)
      × (find_template id t.db ≡ some c)
      × (c.subject_template ≡ old.subject_template)
      × (c.body_template ≡ old.body_template)
      × (c.template_type ≡ (if is_mjml old.body_template then "mjml" else "html"))
      × (c.name ≡ n.name)
unfolding restore_version
restore_version-ok env tenant id version s t c h =
    reads-ok _ s _ (Reads-get_template tenant id) h λ n s₁ d₁ named h₁.
      reads-ok _ s₁ _ (Reads-version_of id version) h₁ λ old s₂ d₂ versioned h₂.
        reads-ok _ s₂ _ (search reads_rules) h₂ λ now s₃ d₃ _ h₃.
          bind-ok _ _ s₃ h₃ λ updated s₄ written h₄. bind-ok _ _ s₄ h₄ λ u s₅ added h₅.
            let (is_n, owned) = get_template-ok tenant id s s₁ n named in
            let (is_old, belongs) = version_of-ok id version s₁ s₂ old versioned in
            let (found, (r, was, same)) =
              update_template_rows-row (restored n old now) updated s₃ s₄ written in
            let (v, _, _, _, d₅) = record_version-ok env _ _ _ u s₄ s₅ added in
            let (result, end) = pure-ok updated s₅ h₅ in
            let same_c = result ∙ same in
            (
              n,
              old,
              is_n,
              owned,
              subst (λ (db : Db). find_version version db ≡ some old) d₁ is_old,
              belongs,
              rw (← find_template-id id n s.db is_n, result, end)
                  (find_template_kept updated n.id s₄ s₅ v d₅ found),
              ap (λ (x : EmailTemplate). x.subject_template) same_c,
              ap (λ (x : EmailTemplate). x.body_template) same_c,
              ap (λ (x : EmailTemplate). x.template_type) same_c,
              ap (λ (x : EmailTemplate). x.name) same_c,
            )

-- An update is undone by restoring the version that was recorded last before it: the template has its
-- texts from before again. The tables are those of a run, where the last version holds the texts, and the
-- identifier of the version finds it.
pub update_template-restore_version :
    (env : Env) (tenant other id : String) (payload : CreateTemplateRequest) (s u t : St)
    (n c d : EmailTemplate) (old : EmailTemplateVersion)
    → Run env s
    → find_template id s.db ≡ some n
    → latest id s.db.versions ≡ some old
    → find_version old.id s.db ≡ some old
    → update_template env tenant id payload s ≡ (ok c, u)
    → restore_version env other id old.id u ≡ (ok d, t)
    → (d.subject_template ≡ n.subject_template)
      × (d.body_template ≡ n.body_template)
      × (find_template id t.db ≡ some d)
unfolding find_version find_template
update_template-restore_version env tenant other id payload s u t n c d old run is_n last found h
      k =
    let (v, db_versions) = update_template-versions env tenant id payload s u c h in
    let (w, is_w, subject, body) =
      (Run-IsRecorded env s run).at n (find-In _ n s.db.templates is_n) in
    let (_, back, _, _, is_back, _, result, subject', body', _, _) =
      restore_version-ok env other id old.id u t d k in
    let kept : find_version old.id u.db ≡ some old =
      rw db_versions (find-append _ old s.db.versions (v ∷ []) found) in
    let same_back : back ≡ old = some_injective back old (sym is_back ∙ kept) in
    let same_w : w ≡ old = some_injective w old (
      sym (
        subst (λ (x : String). latest x s.db.versions ≡ some w) (find_template-id id n s.db is_n)
          is_w)
      ∙ last) in
    (
      subject'
          ∙ ap (λ (x : EmailTemplateVersion). x.subject_template) (same_back ∙ sym same_w)
          ∙ subject,
      body' ∙ ap (λ (x : EmailTemplateVersion). x.body_template) (same_back ∙ sym same_w) ∙ body,
      result,
    )
