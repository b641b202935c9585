-- ===== src/Handlers/Communication/History/Revisions.antt =====
-- What the template handlers promise (api/handlers/communication.rs): every template has a history of
-- revisions that is only added to. The tables, with their identifiers, times and two places for the
-- current texts, implement it.
use booking_backend.Prelude.{
  ◌≡◌, refl, ap, subst, fun_ext, inl, inr, String, true, false, some, List, [], ◌∷◌, ◌++◌, arith,
  In, any, find, Bool-cases, ◌==◌, eq_iff, if◌then◌else◌,
}
use booking_backend.Outcome.{ok}
use booking_backend.Models.Mail.{EmailTemplate, EmailTemplateVersion}
use booking_backend.Env.{Env}
use booking_backend.Db.{Db, St, delete_where}
use booking_backend.Handlers.Communication.{
  CreateTemplateRequest, create_template, update_template, restore_version, delete_template,
}

pub record Revision : Type 0 where
  pub subject : String
  pub body : String

-- The revisions of each template, the oldest first.
abbrev pub Histories : Type 0
Histories = String → List Revision

abbrev pub push : String → Revision → Histories → Histories
push id r h x = if id == x then h x ++ r ∷ [] else h x

abbrev pub clear : String → Histories → Histories
clear id h x = if id == x then [] else h x

-- What is asked of the store.
pub data Operation : Type 0 where
  revise : String → Revision → Operation
  restore : String → Revision → Operation
  remove : String → Operation

-- The specification: a revision is added to one history; one that is restored is in it already and is added
-- again; a removal empties one history. The others stay.
pub data Specified : Operation → Histories → Histories → Type 0 where
  revised : {id : String} {r : Revision} {h : Histories} → Specified (revise id r) h (push id r h)
  put_back :
      {id : String} {r : Revision} {h : Histories}
      → In r (h id)
      → Specified (restore id r) h (push id r h)
  removed : {id : String} {h : Histories} → Specified (remove id) h (clear id h)

abbrev pub revision : EmailTemplateVersion → Revision
revision v = record { subject = v.subject_template; body = v.body_template }

abbrev pub revisions_of : String → List EmailTemplateVersion → List Revision
revisions_of id [] = []
revisions_of id (v ∷ vs) =
    if v.template_id == id then revision v ∷ revisions_of id vs else revisions_of id vs

-- The view of the tables.
abbrev pub histories : Db → Histories
histories db id = revisions_of id db.versions

abbrev pub asked : CreateTemplateRequest → Revision
asked payload = record { subject = payload.subject_template; body = payload.body_template }

abbrev pub shown : EmailTemplate → Revision
shown c = record { subject = c.subject_template; body = c.body_template }

-- The requests that succeed, with what they ask.
pub data Step (env : Env) : Operation → St → St → Type 0 where
  created :
      {s t : St} {c : EmailTemplate} (tenant : String) (payload : CreateTemplateRequest)
      → create_template env tenant payload s ≡ (ok c, t)
      → Step env (revise c.id (asked payload)) s t
  updated :
      {s t : St} {c : EmailTemplate} (tenant id : String) (payload : CreateTemplateRequest)
      → update_template env tenant id payload s ≡ (ok c, t)
      → Step env (revise id (asked payload)) s t
  restored_one :
      {s t : St} {c : EmailTemplate} (tenant id version : String)
      → restore_version env tenant id version s ≡ (ok c, t)
      → Step env (restore id (shown c)) s t
  deleted :
      {s t : St} {u : Unit {0}} (tenant id : String)
      → delete_template tenant id s ≡ (ok u, t)
      → Step env (remove id) s t

revisions_of-append :
    (id : String) (v : EmailTemplateVersion) (vs : List EmailTemplateVersion)
    → revisions_of id (vs ++ v ∷ [])
      ≡ (if v.template_id == id then revisions_of id vs ++ revision v ∷ [] else revisions_of id vs)
revisions_of-append id v [] = refl
revisions_of-append id v (w ∷ vs) =
    let rest = revisions_of-append id v vs in
    elim (Bool-cases (w.template_id == id)) [
      | inl e ↦ elim (Bool-cases (v.template_id == id)) [
        | inl g ↦ rw (e, rest, g)
        | inr g ↦ rw (e, rest, g)
      ]
      | inr e ↦ rw (e, rest)
    ]

pub histories-push :
    (v : EmailTemplateVersion) (old new : Db) (id : String) (r : Revision)
    → new.versions ≡ old.versions ++ v ∷ []
    → v.template_id ≡ id
    → revision v ≡ r
    → histories new ≡ push id r (histories old)
histories-push v old new id r tables of_id same =
    fun_ext λ x. rw (tables, revisions_of-append x v old.versions, of_id, same)

deleted_same :
    (id : String) (vs : List EmailTemplateVersion)
    → revisions_of id (delete_where (λ (v : EmailTemplateVersion). v.template_id == id) vs) ≡ []
deleted_same id [] = refl
deleted_same id (v ∷ vs) = elim (Bool-cases (v.template_id == id)) [
  | inl e ↦ rw e (deleted_same id vs)
  | inr e ↦ rw (e, e) (deleted_same id vs)
]

deleted_other :
    (id gone : String) (vs : List EmailTemplateVersion)
    → (gone == id) ≡ false
    → revisions_of id (delete_where (λ (v : EmailTemplateVersion). v.template_id == gone) vs)
      ≡ revisions_of id vs
deleted_other id gone [] off = refl
deleted_other id gone (v ∷ vs) off =
    let rest = deleted_other id gone vs off in
    elim (Bool-cases (v.template_id == gone)) [
      | inl e ↦
          let same : v.template_id ≡ gone = (eq_iff v.template_id gone).0 e in
          let away : (v.template_id == id) ≡ false = rw same off in rw (e, away, rest)
      | inr e ↦ rw (e, rest)
    ]

pub histories-clear :
    (old new : Db) (id : String)
    → new.versions ≡ delete_where (λ (v : EmailTemplateVersion). v.template_id == id) old.versions
    → histories new ≡ clear id (histories old)
histories-clear old new id tables = fun_ext λ x. elim (Bool-cases (id == x)) [
  | inl e ↦
      let same : id ≡ x = (eq_iff id x).0 e in
      rw (tables, e)
        (subst
          (λ (y : String).
            revisions_of y
              (delete_where (λ (v : EmailTemplateVersion). v.template_id == id) old.versions)
            ≡ [])
          same (deleted_same id old.versions))
  | inr e ↦ rw (tables, e) (deleted_other x id old.versions e)
]

pub In-revisions_of :
    (id : String) (v : EmailTemplateVersion) (vs : List EmailTemplateVersion)
    → In v vs
    → (v.template_id == id) ≡ true
    → In (revision v) (revisions_of id vs)
In-revisions_of id v [] i e = absurd i
In-revisions_of id v (w ∷ vs) i e = elim i [
  | inl same ↦
      let on : (w.template_id == id) ≡ true =
        subst (λ (x : EmailTemplateVersion). (x.template_id == id) ≡ true) same e in
      rw on (inl (ap (λ (x : EmailTemplateVersion). revision x) same))
  | inr later ↦ elim (Bool-cases (w.template_id == id)) [
    | inl g ↦ rw g (inr (In-revisions_of id v vs later e))
    | inr g ↦ rw g (In-revisions_of id v vs later e)
  ]
]

pub has_template-find :
    (id : String) (n : EmailTemplate) (ts : List EmailTemplate)
    → find (λ (t : EmailTemplate). t.id == id) ts ≡ some n
    → any (λ (t : EmailTemplate). t.id == id) ts ≡ true
has_template-find id n [] h = absurd (ground arith)
has_template-find id n (t ∷ ts) h = elim (Bool-cases (t.id == id)) [
  | inl e ↦ rw e
  | inr e ↦ rw e (has_template-find id n ts (rw e at h))
]
