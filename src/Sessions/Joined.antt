-- ===== src/Sessions/Joined.antt =====
-- The membership that a sign-in through an identity provider leaves.
use uigraph_api.Prelude.{
  String, Bool, true, false, Option, none, some, List, [], ◌∷◌, ℕ, In, inl, inr, ◌⊎◌, ◌==◌, find,
  ◌≡◌, ◌∙◌, refl, sym, ap, subst, arith,
}
use uigraph_api.Authz.Scope.{Role}
use uigraph_api.Db.{Db, User, AuthProvider, LoginState, Rule, Session, AuthIdentity}
use uigraph_api.Exec.{World, ok}
use uigraph_api.Exec.Rules.{
  Maintains, Maintains-insert_if, Maintains-attempt, Maintains-bind, maintains_rules,
}
use uigraph_api.Exec.Steps.{bind_ok, require_ok, stop_if_ok, query_ok, pure_ok}
use uigraph_api.Identity.Provider.{email_allowed}
use uigraph_api.Store.Users.{get_user_by_email, create_user}
use uigraph_api.Store.Sessions.{create_session}
use uigraph_api.Store.Logins.{upsert_auth_identity}
use uigraph_api.Sessions.{SessionBackend, set_session, Answer, Client}
use uigraph_api.Sessions.Password.{Fresh, start_session}
use uigraph_api.Sessions.Complete.{
  CompletedAuth, signed_up, user_or_new, finish_login, valid_email, check_email, find_user,
  link_identity, complete_login,
}
use uigraph_api.Store.Tables.{insert}
use uigraph_api.Sessions.Started.{start_session-IsStarted}
use uigraph_api.Sessions.Enrolled.{HasRole, resolved_role, enroll_ok}

-- The user with an address, or the new one that the provider lets sign up with it.
abbrev pub IsOwner : AuthProvider → String → String → String → List User → User → Type 0
IsOwner prov new_id email name users u =
    (find (λ v. v.email == email) users ≡ some u)
    ⊎ ((find (λ v. v.email == email) users ≡ none)
        × (prov.allow_sign_up ≡ true)
        × (u ≡ signed_up new_id email name))

In-insert : {A : Type 0} (a : A) (xs : List A) → In a (insert a xs)
In-insert a [] = inl refl
In-insert a (x ∷ xs) = inr (In-insert a xs)

module _ (h : SessionBackend) where
  check_email_ok :
      (prov : AuthProvider) (raw email : String) (w : World)
      → (check_email h prov raw w).0 ≡ ok email
      → (valid_email h raw ≡ some email)
        × (email_allowed h.lower prov email ≡ true)
        × ((check_email h prov raw w).1 ≡ w)
  unfolding check_email
  check_email_ok prov raw email w e =
      let (_, e1, same1) = stop_if_ok _ _ _ w email e in
      let (found, valid, e2, same2) = require_ok _ _ _ w email e1 in
      let (allowed, e3, same3) = stop_if_ok _ _ _ w email e2 in
      let (same, same4) = pure_ok _ _ w e3 in
      (
        valid ∙ ap some same,
        subst (λ x. email_allowed h.lower prov x ≡ true) same (ground (arith, allowed)),
        same1 ∙ same2 ∙ same3 ∙ same4,
      )

  user_or_new_ok :
      (allow : Bool) (fresh : User) (found : Option User) (u : User) (w : World)
      → (user_or_new allow fresh found w).0 ≡ ok u
      → (found ≡ some u) ⊎ ((found ≡ none) × (allow ≡ true) × (u ≡ fresh))
  user_or_new_ok allow fresh (some v) u w e = inl (ap some (pure_ok v u w e).0)
  user_or_new_ok allow fresh none u w e =
      let (allowed, e1, _) = stop_if_ok _ _ _ w u e in
      let (t, _, e2, _) = bind_ok _ _ w u e1 in
      inr (refl, ground (arith, allowed), sym (pure_ok fresh u _ e2).0)

  find_user_ok :
      (new_id : String) (prov : AuthProvider) (email name : String) (u : User) (w : World)
      → (find_user h new_id prov email name w).0 ≡ ok u
      → IsOwner prov new_id email name w.db.users u × (u.disabled ≡ false)
  unfolding find_user get_user_by_email
  find_user_ok new_id prov email name u w e =
      let (e1, same1) = query_ok _ _ w u e in
      let (v, e2, e3, same2) = bind_ok _ _ _ u e1 in
      let (enabled, e4, same3) = stop_if_ok _ _ _ _ u e3 in
      let (same, same4) = pure_ok v u _ e4 in
      (
        subst (IsOwner prov new_id email name w.db.users) same (user_or_new_ok _ _ _ v _ e2),
        subst (λ x. x.disabled ≡ false) same enabled,
      )

  -- The rules of the providers stay as they are until they are read.
  abbrev RulesAre : List Rule → Db → Type 0
  RulesAre rules db = db.rules ≡ rules

  user_or_new-rules :
      (allow : Bool) (fresh : User) (found : Option User) (rules : List Rule)
      → Maintains (RulesAre rules) (user_or_new allow fresh found)
  unfolding create_user
  user_or_new-rules allow fresh (some u) rules = search maintains_rules
  user_or_new-rules allow fresh none rules =
      Maintains-bind _
        (λ _.
          Maintains-bind _ (λ _. search maintains_rules) _
            (Maintains-attempt _ (Maintains-insert_if _ _ λ db _ s. s)))
        _ (search maintains_rules)

  find_user-rules :
      (new_id : String) (prov : AuthProvider) (email name : String) (rules : List Rule)
      → Maintains (RulesAre rules) (find_user h new_id prov email name)
  unfolding find_user get_user_by_email
  find_user-rules new_id prov email name rules =
      search (maintains_rules, user_or_new-rules) depth 20

  identity-HasRole :
      (user_id org_id : String) (role : Role) (a : AuthIdentity)
      → Maintains (HasRole user_id org_id role) (upsert_auth_identity a)
  unfolding upsert_auth_identity
  identity-HasRole user_id org_id role a =
      Maintains-insert_if _ _
        λ db _ s. record { member = s.member; listed = s.listed; given = s.given }

  link_identity-HasRole :
      (user_id org_id : String) (role : Role) (prov : AuthProvider) (sub : String) (u : User)
      → Maintains (HasRole user_id org_id role) (link_identity h prov sub u)
  link_identity-HasRole user_id org_id role prov sub u = search (maintains_rules, identity-HasRole)

  create_session-HasRole :
      (user_id org_id : String) (role : Role) (s : Session)
      → Maintains (HasRole user_id org_id role) (create_session s)
  unfolding create_session
  create_session-HasRole user_id org_id role s =
      Maintains-bind _
        (λ now.
          Maintains-insert_if _ _
            λ db _ s. record { member = s.member; listed = s.listed; given = s.given })
        _ (search maintains_rules)

  start_session-HasRole :
      (user_id org_id : String) (role : Role) (fresh : Fresh) (client : Client) (id name : String)
      → Maintains (HasRole user_id org_id role) (start_session h {A = String} fresh client id name)
  unfolding start_session
  start_session-HasRole user_id org_id role fresh client id name =
      search (maintains_rules, create_session-HasRole) depth 20

  -- The part of completeLogin after the membership.
  finish-HasRole :
      (user_id org_id : String) (role : Role) (fresh : Fresh) (client : Client)
      (prov : AuthProvider) (state : LoginState) (sub : String) (u : User)
      → Maintains (HasRole user_id org_id role) (finish_login h fresh client prov state sub u)
  unfolding finish_login
  finish-HasRole user_id org_id role fresh client prov state sub u =
      search (maintains_rules, link_identity-HasRole, start_session-HasRole) depth 20

  -- The cookie of the answer carries the token of a session of that user.
  pub record HasSession (user_id : String) (answer : Answer String) (sessions : List Session)
      : Type 0 where
    pub token : String
    pub expires : ℕ
    pub cookie : answer.1 ≡ set_session token expires
    pub row : Session
    pub listed : In row sessions
    pub owner : row.user_id ≡ user_id
    pub hashed : row.token_hash ≡ h.hash token

  finish_session :
      (fresh : Fresh) (client : Client) (prov : AuthProvider) (state : LoginState) (sub : String)
      (u : User) (w : World) (answer : Answer String)
      → (finish_login h fresh client prov state sub u w).0 ≡ ok answer
      → HasSession u.id answer (finish_login h fresh client prov state sub u w).1.db.sessions
  unfolding finish_login
  finish_session fresh client prov state sub u w answer e =
      let (t, linked, e1, same1) = bind_ok _ _ w answer e in
      let (session, started, e2, same2) = bind_ok _ _ _ answer e1 in
      let (same, same3) = pure_ok _ answer _ e2 in
      let s =
        start_session-IsStarted h {A = String} fresh client u.id prov.display_name session.0
          session.1 _ started in
      record {
        token = session.0;
        expires = session.1;
        cookie = ap (λ (a : Answer String). a.1) (sym same);
        row = s.row;
        listed = rw (same1, same2, same3, s.inserted) (In-insert s.row _);
        owner = s.owner;
        hashed = s.hashed;
      }

  -- What a sign-in through an identity provider that has ended well means, from the world before it
  -- to the one after it.
  pub record IsCompleted (new_id : String) (prov : AuthProvider) (auth : CompletedAuth)
      (w v : World) (answer : Answer String) : Type 0 where
    pub email : String
    pub valid : valid_email h auth.email ≡ some email
    pub allowed : email_allowed h.lower prov email ≡ true
    pub user : User
    pub owner : IsOwner prov new_id email auth.name w.db.users user
    pub enabled : user.disabled ≡ false
    pub role : Role
    pub resolved : resolved_role h prov auth.attributes w.db.rules ≡ ok role
    pub member : HasRole user.id prov.org_id role v.db
    pub session : HasSession user.id answer v.db.sessions

  -- A sign-in through an identity provider that ends in a redirect: the provider returned a valid
  -- address that it is allowed to vouch for; the user is the one with that address, or, if there is
  -- none and the provider lets users sign up, a new one with it; the user is not disabled, and is
  -- now a member of the provider's organisation with the role that Resolve makes of the rules of the
  -- provider and the attributes; and the cookie carries the token of a session of that user.
  pub complete_login-HasRole :
      (new_id : String) (fresh : Fresh) (client : Client) (prov : AuthProvider) (state : LoginState)
      (auth : CompletedAuth) (w : World) (answer : Answer String)
      → (complete_login h new_id fresh client prov state auth w).0 ≡ ok answer
      → IsCompleted new_id prov auth w
          (complete_login h new_id fresh client prov state auth w).1
          answer
  unfolding complete_login
  complete_login-HasRole new_id fresh client prov state auth w answer e =
      let (email, checked, e1, same1) = bind_ok _ _ w answer e in
      let (valid, allowed, still) = check_email_ok prov auth.email email w checked in
      let (u, found, e2, same2) = bind_ok _ _ _ answer e1 in
      let (owner, enabled) = find_user_ok new_id prov email auth.name u _ found in
      let (t, enrolled, e3, same3) = bind_ok _ _ _ answer e2 in
      let (role, resolved, member) = enroll_ok h prov auth.attributes u _ t enrolled in
      record {
        email = email;
        valid = valid;
        allowed = allowed;
        user = u;
        owner = subst (λ (v : World). IsOwner prov new_id email auth.name v.db.users u) still owner;
        enabled = enabled;
        role = role;
        resolved =
            ap (resolved_role h prov auth.attributes) (
              sym (
                (find_user-rules new_id prov email auth.name
                    (check_email h prov auth.email w).1.db.rules).at
                  _ refl
                ∙ ap (λ v. v.db.rules) still))
            ∙ resolved;
        member =
            subst (HasRole u.id prov.org_id role) (ap (λ v. v.db) (sym (same1 ∙ same2 ∙ same3))) (
              (finish-HasRole u.id prov.org_id role fresh client prov state auth.sub u).at _
                member);
        session =
            subst (λ (v : World). HasSession u.id answer v.db.sessions)
              (sym (same1 ∙ same2 ∙ same3))
              (finish_session fresh client prov state auth.sub u _ answer e3);
      }
