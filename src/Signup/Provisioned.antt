-- ===== src/Signup/Provisioned.antt =====
-- What a provisioned account may do.
use uigraph_api.Prelude.{
  ℕ, ◌+◌, ◌<◌, String, false, ◌||◌, Option, none, some, List, ◌≡◌, ◌≢◌, eq_iff, refl, ◌==◌, ap, sym,
  ◌∙◌, arith, any, find, inl, inr, Bool-cases, Option-cases, subst,
}
use uigraph_api.Http.{json}
use uigraph_api.Db.{Session}
use uigraph_api.Exec.{World, ok, ◌>>=◌}
use uigraph_api.Exec.Steps.{bind_ok, call_ok, insert_if_ok, pure_ok, attempt_ok, called}
use uigraph_api.Authz.Scope.{all_scopes}
use uigraph_api.Identity.Principal.{Principal, user}
use uigraph_api.Middleware.{verify_bearer}
use uigraph_api.Store.Users as Users
use uigraph_api.Store.Orgs as OrgRows
use uigraph_api.Store.Members.{add_member, is_member}
use uigraph_api.Store.Accounts.{create_service_account}
use uigraph_api.Store.Sessions.{create_session}
use uigraph_api.Sessions.{SessionBackend, Client, session_lifetime}
use uigraph_api.Sessions.Password.{Fresh, start_session}
use uigraph_api.Sessions.Started.{IsStarted, start_session-IsStarted}
use uigraph_api.Sessions.Accepted.{started_accepted}
use uigraph_api.Orgs.{admin_member, system_account}
use uigraph_api.Orgs.Deleted.{founded}
use uigraph_api.Signup.{
  Ids, AccountRequest, AccountResponse, new_org, is_stranger, insert_account, open_account,
  provision_account,
}

module _ (h : SessionBackend) (bcrypt : String → Option String) (internal : String) where
  insert_account-member :
      (A : Type 0) (ids : Ids) (req : AccountRequest) (hash : String) (w : World) (t : Unit {0})
      → (insert_account h bcrypt internal {A = A} ids req hash w).0 ≡ ok t
      → (find
            (is_member ids.user ids.org)
            (insert_account h bcrypt internal {A = A} ids req hash w).1.db.members
          ≡ some (admin_member ids.user ids.org))
  unfolding insert_account
  insert_account-member A ids req hash w t e =
      let (a, d1, e1, s1) = call_ok _ _ w _ e in
      let (b, d2, e2, s2) = call_ok _ _ _ _ e1 in
      let (c, d3, e3, s3) = call_ok _ _ _ _ e2 in
      let (d4, s4) = attempt_ok _ _ _ e3 in
      rw (s1, s2, s3, s4)
        (founded (new_org ids.org req.org_name) (admin_member ids.user ids.org)
          (system_account ids.account ids.org all_scopes) _ b c t d2 d3 d4)

  insert_account-sessions :
      (A : Type 0) (ids : Ids) (req : AccountRequest) (hash : String) (w : World) (t : Unit {0})
      → (insert_account h bcrypt internal {A = A} ids req hash w).0 ≡ ok t
      → ((insert_account h bcrypt internal {A = A} ids req hash w).1.db.sessions ≡ w.db.sessions)
        × ((insert_account h bcrypt internal {A = A} ids req hash w).1.now ≡ w.now)
  unfolding insert_account Users.create_user OrgRows.create_org add_member create_service_account
  insert_account-sessions A ids req hash w t e =
      let (a, d1, e1, s1) = call_ok _ _ w _ e in
      let (b, d2, e2, s2) = call_ok _ _ _ _ e1 in
      let (c, d3, e3, s3) = call_ok _ _ _ _ e2 in
      let (d4, s4) = attempt_ok _ _ _ e3 in
      let (_, db1, now1) = insert_if_ok _ _ _ a d1 in
      let (_, db2, now2) = insert_if_ok _ _ _ b d2 in
      let (_, db3, now3) = insert_if_ok _ _ _ c d3 in
      let (_, db4, now4) = insert_if_ok _ _ _ t d4 in
      (
        rw (s1, s2, s3, s4, db4, db3, db2, db1) refl,
        rw (s1, s2, s3, s4, now4, now3, now2, now1) refl,
      )

  start_session-members :
      (A : Type 0) (fresh : Fresh) (client : Client) (user_id provider : String) (w : World)
      → (start_session h {A = A} fresh client user_id provider w).1.db.members ≡ w.db.members
  unfolding start_session create_session ◌>>=◌
  start_session-members A fresh client user_id provider w = elim (Option-cases fresh.token) [
    | inl missing ↦ ground (arith, missing)
    | inr (token, drawn) ↦ ground (arith, drawn)
  ]

  -- The rows behind a response.
  pub record IsOpened (ids : Ids) (r : AccountResponse) (now : ℕ) (before : List Session)
      (v : World) : Type 0 where
    pub user : r.user_id ≡ ids.user
    pub org : r.org_id ≡ ids.org
    pub session : IsStarted h.hash ids.user r.session_token now before v.db.sessions
    pub member :
        find (is_member ids.user ids.org) v.db.members ≡ some (admin_member ids.user ids.org)

  rows_of_account :
      (ids : Ids) (req : AccountRequest) (hash : String) (fresh : Fresh) (client : Client)
      (token : String) (expires : ℕ) (r : AccountResponse) (t : Unit {0}) (w v : World)
      → (insert_account h bcrypt internal {A = AccountResponse} ids req hash w).0 ≡ ok t
      → v ≡ (insert_account h bcrypt internal {A = AccountResponse} ids req hash w).1
      → (start_session h {A = AccountResponse} fresh client ids.user "password" v).0
        ≡ ok (token, expires)
      → r ≡ record {
        session_token = token;
        expires_at = expires;
        user_id = ids.user;
        org_id = ids.org;
      }
      → IsOpened ids r w.now w.db.sessions
          (start_session h {A = AccountResponse} fresh client ids.user "password" v).1
  rows_of_account ids req hash fresh client token expires r t w v inserted at started shown =
      let (sessions, now) = insert_account-sessions AccountResponse ids req hash w t inserted in
      let member = insert_account-member AccountResponse ids req hash w t inserted in
      let row =
        start_session-IsStarted h {A = AccountResponse} fresh client ids.user "password" token
          expires v started in
      let same_now : v.now ≡ w.now = ap (λ (x : World). x.now) at ∙ now in
      let same_sessions : v.db.sessions ≡ w.db.sessions =
        ap (λ (x : World). x.db.sessions) at ∙ sessions in
      record {
        user = ap (λ (x : AccountResponse). x.user_id) shown;
        org = ap (λ (x : AccountResponse). x.org_id) shown;
        session = rw shown (
            subst
              (λ n.
                IsStarted h.hash ids.user token n w.db.sessions
                  (start_session h {A = AccountResponse} fresh client ids.user "password"
                    v).1.db.sessions)
              same_now
              (subst
                (λ (b : List Session).
                  IsStarted h.hash ids.user token v.now b
                    (start_session h {A = AccountResponse} fresh client ids.user "password"
                      v).1.db.sessions)
                same_sessions row));
        member =
            ap (find (is_member ids.user ids.org)) (
              start_session-members AccountResponse fresh client ids.user "password" v
              ∙ ap (λ (x : World). x.db.members) at)
            ∙ member;
      }

  opened :
      (ids : Ids) (fresh : Fresh) (client : Client) (req : AccountRequest) (hash : String)
      (w : World) (r : AccountResponse)
      → (open_account h bcrypt internal ids fresh client req hash w).0 ≡ ok (json 201 r)
      → IsOpened ids r w.now w.db.sessions
          (open_account h bcrypt internal ids fresh client req hash w).1
  unfolding open_account
  opened ids fresh client req hash w r e =
      let (t, inserted, e1, s1) = bind_ok _ _ w _ e in
      let (session, started, e2, s2) = bind_ok _ _ _ _ e1 in
      let (answer, still) = pure_ok _ _ _ e2 in
      rw (s1, s2, still)
        (rows_of_account ids req hash fresh client session.0 session.1 r t w _ inserted refl started
          (ground (arith, answer)))

  provision_checked :
      (ids : Ids) (fresh : Fresh) (client : Client) (given : String) (body : Option AccountRequest)
      (w : World) (r : AccountResponse)
      → (provision_account h bcrypt internal ids fresh client given body w).0 ≡ ok (json 201 r)
      → (req : AccountRequest) × (hash : String) × (provision_account h bcrypt internal ids fresh
            client given body w
          ≡ open_account h bcrypt internal ids fresh client req hash (called w))
        × (is_stranger internal given ≡ false)
  unfolding provision_account Users.get_user_by_email ◌>>=◌
  provision_checked ids fresh client given none w r e = absurd (ground arith)
  provision_checked ids fresh client given (some req) w r e =
      elim (Bool-cases (is_stranger internal given)) [
        | inl stranger ↦ absurd (ground (arith, stranger))
        | inr known ↦
            elim (Bool-cases
              (req.email == "" || req.password == "" || req.name == "" || req.org_name == "")) [
                | inl missing ↦ absurd (ground (arith, known, missing))
                | inr complete ↦ elim (Bool-cases (w.fails w.calls)) [
                  | inl failed ↦ absurd (ground (arith, known, complete, failed))
                  | inr first ↦ elim (Option-cases (find (λ u. u.email == req.email) w.db.users)) [
                    | inr (u, taken) ↦ absurd (ground (arith, known, complete, first, taken))
                    | inl new ↦ elim (Option-cases (bcrypt req.password)) [
                      | inl failed ↦ absurd (ground (arith, known, complete, first, new, failed))
                      | inr (hash, hashed) ↦
                          (req, hash, rw (known, complete, first, new, hashed) refl, known)
                    ]
                  ]
                ]
              ]
      ]

  -- ProvisionAccount answers 201 only if the token of the request is the internal one, and that is
  -- set. The account is then
  -- that of an admin of the new organisation, and while the sessions stay as they were left and the
  -- database answers, the token of the response is accepted for the new user until thirty days after
  -- the request, if no session before had the hash of the token as its previous one.
  pub provision_account-verify_bearer :
      (ids : Ids) (fresh : Fresh) (client : Client) (given : String) (body : Option AccountRequest)
      (w later : World) (r : AccountResponse)
      → (provision_account h bcrypt internal ids fresh client given body w).0 ≡ ok (json 201 r)
      → any (λ s. s.prev_token_hash == h.hash r.session_token) w.db.sessions ≡ false
      → later.db.sessions
        ≡ (provision_account h bcrypt internal ids fresh client given body w).1.db.sessions
      → later.now < w.now + session_lifetime
      → ((n : ℕ) → later.fails n ≡ false)
      → (given ≡ internal)
        × (internal ≢ "")
        × (find
              (is_member r.user_id r.org_id)
              (provision_account h bcrypt internal ids fresh client given body w).1.db.members
            ≡ some (admin_member r.user_id r.org_id))
        × (p : Principal) × ((verify_bearer h.hash r.session_token later).0 ≡ ok p)
        × (p.kind ≡ user)
        × (p.user_id ≡ r.user_id)
  provision_account-verify_bearer ids fresh client given body w later r e unseen kept soon answers =
      let (req, hash, same, known) = provision_checked ids fresh client given body w r e in
      let rows : IsOpened ids r w.now w.db.sessions
          (provision_account h bcrypt internal ids fresh client given body w).1 =
        rw same (opened ids fresh client req hash (called w) r (ap (λ x. x.0) (sym same) ∙ e)) in
      let (p, accepted, kind, owner) =
        started_accepted h.hash ids.user r.session_token w.now w.db.sessions _ later rows.session
          unseen kept soon answers in
      (
        ground (arith, known, eq_iff given internal),
        ground (arith, known, eq_iff internal ""),
        rw (rows.user, rows.org) rows.member,
        p,
        accepted,
        kind,
        owner ∙ sym rows.user,
      )
