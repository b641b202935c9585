-- ===== src/Handlers/Communication/History.antt =====
-- The versions of the templates, and the texts of the templates (api/handlers/communication.rs): what each
-- write of the two tables keeps.
pub mod Runs
pub mod Undo
pub mod Revisions
pub mod Refines
use booking_backend.Prelude.{
  ◌≡◌, ◌∙◌, refl, sym, ap, subst, ◌⊎◌, inl, inr, String, Bool, true, false, not, Option, none, some,
  List, [], ◌∷◌, ◌++◌, arith, In, or_else, any, Bool-cases, ◌==◌, eq_iff, if◌then◌else◌,
}
use booking_backend.Outcome.{ok}
use booking_backend.Models.Mail.{EmailTemplate, EmailTemplateVersion}
use booking_backend.Env.{Env}
use booking_backend.Db.{Db, St, execute, pure, ◌>>=◌, update_where, delete_where}
use booking_backend.Db.Rules.{
  Reads, reads_rules, bind-ok, reads-ok, query_or-ok, reject-ok, pure-ok,
}
use booking_backend.Db.Rows.{In-append, In-update_where, In-delete_where, any-In, find-holds}
use booking_backend.Db.Mail.{
  has_template, find_template, find_version, insert_version, update_template_rows,
  update_template_row,
}
use booking_backend.Db.Mail.Writes.{
  insert_template-ok, insert_version-ok, update_template_rows-ok, delete_template_rows-ok,
}
use booking_backend.Handlers.Communication.{
  CreateTemplateRequest, get_template, version_of, new_template, new_version, record_version,
  create_template, update_template, restore_version, delete_template,
}

-- The version of a template that was recorded last.
abbrev pub latest : String → List EmailTemplateVersion → Option EmailTemplateVersion
latest id [] = none
latest id (v ∷ vs) = or_else (latest id vs) (if v.template_id == id then some v else none)

-- The last version of a template holds the texts of the template.
abbrev IsLatest : EmailTemplate → List EmailTemplateVersion → Type 0
IsLatest t vs =
    (v : EmailTemplateVersion) × (latest t.id vs ≡ some v)
    × (v.subject_template ≡ t.subject_template)
    × (v.body_template ≡ t.body_template)

pub record IsRecorded (db : Db) : Type 0 where
  pub at : (t : EmailTemplate) → In t db.templates → IsLatest t db.versions

or_else-none : {A : Type 0} (o : Option A) → o ≡ or_else o none
or_else-none none = refl
or_else-none (some a) = refl

eq_flip : (s t : String) → (s == t) ≡ false → (t == s) ≡ false
eq_flip s t h = elim (Bool-cases (t == s)) [
  | inl e ↦
      let same : s ≡ t = sym ((eq_iff t s).0 e) in
      let on : (s == t) ≡ true = (eq_iff s t).1 same in absurd (ground arith)
  | inr e ↦ e
]

latest-same :
    (id : String) (v : EmailTemplateVersion) (vs : List EmailTemplateVersion)
    → (v.template_id == id) ≡ true
    → latest id (vs ++ v ∷ []) ≡ some v
latest-same id v [] h = rw h
latest-same id v (w ∷ vs) h = rw (latest-same id v vs h)

latest-other :
    (id : String) (v : EmailTemplateVersion) (vs : List EmailTemplateVersion)
    → (v.template_id == id) ≡ false
    → latest id (vs ++ v ∷ []) ≡ latest id vs
latest-other id v [] h = rw h
latest-other id v (w ∷ vs) h = rw (latest-other id v vs h)

latest-delete :
    (id gone : String) (vs : List EmailTemplateVersion)
    → (id == gone) ≡ false
    → latest id (delete_where (λ (v : EmailTemplateVersion). v.template_id == gone) vs)
      ≡ latest id vs
latest-delete id gone [] h = refl
latest-delete id gone (v ∷ vs) h = elim (Bool-cases (v.template_id == gone)) [
  | inl e ↦
      let same : v.template_id ≡ gone = (eq_iff v.template_id gone).0 e in
      let off : (v.template_id == id) ≡ false = rw same (eq_flip id gone h) in
      rw (e, off, latest-delete id gone vs h) (or_else-none (latest id vs))
  | inr e ↦ rw (e, latest-delete id gone vs h)
]

module _ (db : Db) (recorded : IsRecorded db) (v : EmailTemplateVersion) where
  -- A version of another template hides nothing.
  IsLatest-other :
      (t : EmailTemplate)
      → In t db.templates
      → (v.template_id == t.id) ≡ false
      → IsLatest t (db.versions ++ v ∷ [])
  IsLatest-other t i off =
      let (w, last, subject, body) = recorded.at t i in
      (w, latest-other t.id v db.versions off ∙ last, subject, body)

  -- A new template with its first version.
  pub IsRecorded-create :
      (n : EmailTemplate)
      → any (λ (r : EmailTemplate). r.id == n.id) db.templates ≡ false
      → v.template_id ≡ n.id
      → v.subject_template ≡ n.subject_template
      → v.body_template ≡ n.body_template
      → IsRecorded
          (record db { templates = db.templates ++ n ∷ []; versions = db.versions ++ v ∷ [] })
  IsRecorded-create n new of_n subject body = record {
    at = λ t i. elim (In-append t db.templates (n ∷ []) i) [
      | inl old ↦ IsLatest-other t old (
          rw of_n (
            eq_flip t.id n.id
              (any-In (λ (r : EmailTemplate). r.id == n.id) t db.templates new old)))
      | inr (inl e) ↦
          rw e
            (v, latest-same n.id v db.versions ((eq_iff v.template_id n.id).1 of_n), subject, body)
      | inr (inr e) ↦ absurd e
    ];
  }

  -- New texts of a template, with the version that holds them.
  pub IsRecorded-update :
      (n : EmailTemplate)
      → v.template_id ≡ n.id
      → v.subject_template ≡ n.subject_template
      → v.body_template ≡ n.body_template
      → IsRecorded (record db {
        templates =
            update_where (λ (r : EmailTemplate). r.id == n.id) (update_template_row n) db.templates;
        versions = db.versions ++ v ∷ [];
      })
  IsRecorded-update n of_n subject body = record {
    at = λ t i. elim (In-update_where _ (update_template_row n) t db.templates i) [
      | inl (r, old, e, same) ↦
          let is_n : r.id ≡ n.id = (eq_iff r.id n.id).0 e in
          rw same (
            v,
            latest-same r.id v db.versions ((eq_iff v.template_id r.id).1 (of_n ∙ sym is_n)),
            subject,
            body,
          )
      | inr (old, e) ↦ IsLatest-other t old (rw of_n (eq_flip t.id n.id e))
    ];
  }

pub IsRecorded-delete :
    (db : Db) (id : String)
    → IsRecorded db
    → IsRecorded (record db {
      templates = delete_where (λ (r : EmailTemplate). r.id == id) db.templates;
      versions =
          if has_template id db
          then delete_where (λ (v : EmailTemplateVersion). v.template_id == id) db.versions
          else db.versions;
    })
IsRecorded-delete db id recorded = record {
  at = λ t i.
      let (old, off) = In-delete_where _ t db.templates i in
      let (w, last, subject, body) = recorded.at t old in
      elim (Bool-cases (has_template id db)) [
        | inl e ↦ rw e (w, latest-delete t.id id db.versions off ∙ last, subject, body)
        | inr e ↦ rw e (w, last, subject, body)
      ];
}
