-- ===== src/Handlers/Sessions/Apart.antt =====
-- The sessions of an event do not overlap (api/handlers/session.rs).
use booking_backend.Prelude.{
  ℤ, ◌≡◌, refl, inl, inr, String, Bool, false, not, List, [], ◌∷◌, ◌++◌, All, In, arith, Bool-cases,
}
use booking_backend.Outcome.{ok}
use booking_backend.Models.{Instant, EventSession}
use booking_backend.Env.{Env}
use booking_backend.Db.{St, execute, ◌>>=◌, update_where, delete_where}
use booking_backend.Db.Rules.{
  Reads, reads_rules, reads-ok, lift-ok, query_or-ok, query-ok, reject-ok,
}
use booking_backend.Db.Rows.{keep-none}
use booking_backend.Db.Schedule.{meets, find_overlap, insert_session}
use booking_backend.Handlers.Sessions.{CreateSessionRequest, is_empty, new_session, create_session}

-- The session `a` does not overlap `b`, or is of another event.
abbrev pub Apart : EventSession → EventSession → Type 0
Apart a b = meets b.event_id b.start_time b.end_time a ≡ false

abbrev pub AllApart : List EventSession → Type 0
AllApart [] = Unit
AllApart (s ∷ ss) = All (Apart s) ss × AllApart ss

All-end :
    (s n : EventSession) (ss : List EventSession)
    → All (Apart s) ss
    → Apart s n
    → All (Apart s) (ss ++ n ∷ [])
All-end s n [] all p = (p, tt)
All-end s n (t ∷ ts) all p = (all.0, All-end s n ts all.1 p)

pub AllApart-end :
    (n : EventSession) (ss : List EventSession)
    → AllApart ss
    → ((s : EventSession) → In s ss → Apart s n)
    → AllApart (ss ++ n ∷ [])
AllApart-end n [] apart new = (tt, tt)
AllApart-end n (s ∷ ss) apart new =
    (All-end s n ss apart.0 (new s (inl refl)), AllApart-end n ss apart.1 λ t i. new t (inr i))

-- A change that keeps the event and the times keeps the sessions apart.
module _ (q : EventSession → Bool) where
  All-delete :
      (s : EventSession) (ss : List EventSession)
      → All (Apart s) ss
      → All (Apart s) (delete_where q ss)
  All-delete s [] all = tt
  All-delete s (t ∷ ts) all = elim (Bool-cases (q t)) [
    | inl e ↦ rw e (All-delete s ts all.1)
    | inr e ↦ rw e (all.0, All-delete s ts all.1)
  ]

  pub AllApart-delete : (ss : List EventSession) → AllApart ss → AllApart (delete_where q ss)
  AllApart-delete [] apart = tt
  AllApart-delete (s ∷ ss) apart = elim (Bool-cases (q s)) [
    | inl e ↦ rw e (AllApart-delete ss apart.1)
    | inr e ↦ rw e (All-delete s ss apart.0, AllApart-delete ss apart.1)
  ]

  module _ (n : EventSession) where
    abbrev pub change : EventSession → EventSession
    change r = record r {
      max_participants = n.max_participants;
      location = n.location;
      host_name = n.host_name;
    }

    All-update :
        (s : EventSession) (ss : List EventSession)
        → All (Apart s) ss
        → All (Apart s) (update_where q change ss)
    All-update s [] all = tt
    All-update s (t ∷ ts) all = elim (Bool-cases (q t)) [
      | inl e ↦ rw e (all.0, All-update s ts all.1)
      | inr e ↦ rw e (all.0, All-update s ts all.1)
    ]

    pub AllApart-update :
        (ss : List EventSession) → AllApart ss → AllApart (update_where q change ss)
    AllApart-update [] apart = tt
    AllApart-update (s ∷ ss) apart = elim (Bool-cases (q s)) [
      | inl e ↦ rw e (All-update s ss apart.0, AllApart-update ss apart.1)
      | inr e ↦ rw e (All-update s ss apart.0, AllApart-update ss apart.1)
    ]

insert_session-ok :
    (n c : EventSession) (s t : St)
    → execute (insert_session n) s ≡ (ok c, t)
    → (c ≡ n) × (t.db ≡ record s.db { sessions = s.db.sessions ++ n ∷ [] })
unfolding execute insert_session
insert_session-ok n c s t h = ground arith

is_empty-nil : {A : Type 0} (xs : List A) → not (is_empty xs) ≡ false → xs ≡ []
is_empty-nil [] h = refl
is_empty-nil (x ∷ xs) h = absurd (ground arith)

Reads-new_session :
    (env : Env) (id : String) (start end : Instant) (n : ℤ) → Reads (new_session env id start end n)
unfolding new_session
Reads-new_session env id start end n = search reads_rules

new_session-ok :
    (env : Env) (id : String) (start end : Instant) (n : ℤ) (s u : St) (c : EventSession)
    → new_session env id start end n s ≡ (ok c, u)
    → (c.event_id ≡ id) × (c.start_time ≡ start) × (c.end_time ≡ end)
unfolding new_session ◌>>=◌
new_session-ok env id start end n s u c h = ground arith

-- A session that is created overlaps none of its event, and stands at the end of the table.
pub create_session-ok :
    (env : Env) (tenant slug : String) (payload : CreateSessionRequest) (s t : St)
    (c : EventSession)
    → create_session env tenant slug payload s ≡ (ok c, t)
    → (t.db ≡ record s.db { sessions = s.db.sessions ++ c ∷ [] })
      × ((r : EventSession) → In r s.db.sessions → Apart r c)
unfolding create_session find_overlap
create_session-ok env tenant slug payload s t c h = query_or-ok _ s _ _ h λ event is_event h₁.
    reject-ok _ s _ _ h₁ λ manual h₂. lift-ok _ s _ h₂ λ date _ h₃.
      lift-ok _ s _ h₃ λ start_time _ h₄. lift-ok _ s _ h₄ λ end_time _ h₅.
        reject-ok _ s _ _ h₅ λ ordered h₆. lift-ok _ s _ h₆ λ start _ h₇.
          lift-ok _ s _ h₇ λ end _ h₈. reject-ok _ s _ _ (query-ok _ s _ h₈) λ free h₉.
            reads-ok _ s _ (Reads-new_session env event.id start end _) h₉ λ n s₁ d₁ made h₁₀.
              let (same, db) = insert_session-ok n c s₁ t h₁₀ in
              let (of_event, starts, ends) = new_session-ok env event.id start end _ s s₁ n made in
              let none_meets =
                keep-none (meets event.id start end) s.db.sessions (is_empty-nil _ free) in
              (rw (same, ← d₁) db, λ r i. rw (same, of_event, starts, ends) (none_meets r i))
