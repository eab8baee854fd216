-- ===== src/Router/Guarded.antt =====
-- Which requests reach a handler.
use uigraph_api.Prelude.{
  ◌≢◌, ℕ, ◌+◌, String, true, false, some, List, ◌≡◌, ◌⊎◌, inl, inr, refl, eq_iff, arith, subst,
  Option-cases, Bool-cases,
}
use uigraph_api.Http.{Error, refused}
use uigraph_api.Exec.{World, ok, err, Result-cases}
use uigraph_api.Identity.Principal.{Principal, PrincipalKind, user, service_account}
use uigraph_api.Authz.Scope.{Scope, has}
use uigraph_api.Authz.Authorizer.{scopes_for_user}
use uigraph_api.Authz.Authorizer.Decisions.{entitled, scopes_for_user_sound, scopes_for_user_total}
use uigraph_api.Middleware.{Middleware, Request, Handler, authenticate, authenticated}
use uigraph_api.Router.{principal_scopes, scope_guard, require_scope}

-- What a principal may do in an organisation: an account only what its own organisation gave it,
-- a user what the rows of the database say.
abbrev pub MayDo : World → Principal → String → Scope → Type 0
MayDo w p org_id scope =
    ((p.kind ≡ service_account) × (p.org_id ≡ org_id) × (has p.scopes scope ≡ true))
    ⊎ ((p.kind ≡ user) × (has (entitled w p.user_id org_id) scope ≡ true))

kind_cases : (k : PrincipalKind) → (k ≡ service_account) ⊎ (k ≡ user)
kind_cases user = inr refl
kind_cases service_account = inl refl

principal_scopes_sound :
    (p : Principal) (org_id : String) (scope : Scope) (w : World) (scopes : List String)
    → (principal_scopes p org_id w).0 ≡ some scopes
    → has scopes scope ≡ true
    → MayDo w p org_id scope
unfolding principal_scopes
principal_scopes_sound p org_id scope w scopes h g = elim (kind_cases p.kind) [
  | inl account ↦
      let e : scopes ≡ p.scopes = ground arith in
      inl (account, ground (arith, eq_iff p.org_id org_id), subst (λ x. has x scope ≡ true) e g)
  | inr human ↦
      let answered : (scopes_for_user p.user_id org_id w).0 ≡ ok scopes = ground arith in
      inr (
        human,
        subst (λ x. has x scope ≡ true) (scopes_for_user_sound p.user_id org_id w scopes answered)
            g,
      )
]

module _ {A : Type 0} (mw : Middleware) (scope : Scope) (h : Handler A) (r : Request)
    (w : World) where
  -- The handler ran, once, for an authenticated principal that may do `scope`.
  pub record Ran : Type 0 where
    pub principal : Principal
    pub authentic : (authenticate mw r w).0 ≡ ok principal
    pub allowed : MayDo (authenticate mw r w).1 principal r.org_id scope
    pub result :
        require_scope mw scope h r w
        ≡ h r (some principal) (principal_scopes principal r.org_id (authenticate mw r w).1).1

  -- Whatever the handler is, a route behind `requireScope` answers 401 if the request cannot be
  -- authenticated, and then the world is as the authentication left it; else it runs the handler
  -- once, for a principal that may do the scope in the organisation of the path, or it answers 403,
  -- and then the world is as the lookup of the principal's scopes left it.
  pub require_scope_sound :
      Ran
      ⊎ ((e : Error) × ((authenticate mw r w).0 ≡ err e)
          × (require_scope mw scope h r w
              ≡ (refused 401 "unauthenticated", (authenticate mw r w).1)))
      ⊎ ((p : Principal) × ((authenticate mw r w).0 ≡ ok p)
          × (require_scope mw scope h r w
              ≡ (refused 403 "forbidden", (principal_scopes p r.org_id (authenticate mw r w).1).1)))
  unfolding require_scope authenticated scope_guard
  require_scope_sound = elim (Result-cases (authenticate mw r w).0) [
    | inr (e, failed) ↦ inr (inl (e, failed, ground arith))
    | inl (p, known) ↦
        let w' : World = (authenticate mw r w).1 in
        elim (Option-cases (principal_scopes p r.org_id w').0) [
          | inl denied ↦ inr (inr (p, known, ground arith))
          | inr (scopes, given) ↦ elim (Bool-cases (has scopes scope)) [
            | inr lacking ↦ inr (inr (p, known, ground arith))
            | inl granted ↦ inl (record {
              principal = p;
              authentic = known;
              allowed = principal_scopes_sound p r.org_id scope w' scopes given granted;
              result = ground arith;
            })
          ]
        ]
  ]

  -- An authenticated principal that may do the scope in the organisation of the path, whose id is
  -- not empty, gets to the handler while the database answers.
  pub require_scope_complete :
      (p : Principal)
      → (authenticate mw r w).0 ≡ ok p
      → MayDo (authenticate mw r w).1 p r.org_id scope
      → r.org_id ≢ ""
      → ((n : ℕ) → (authenticate mw r w).1.fails n ≡ false)
      → require_scope mw scope h r w
        ≡ h r (some p) (principal_scopes p r.org_id (authenticate mw r w).1).1
  unfolding require_scope authenticated scope_guard principal_scopes
  require_scope_complete p known (inl (kind, org, granted)) named answers =
      ground (arith, eq_iff p.org_id r.org_id, eq_iff p.org_id "")
  require_scope_complete p known (inr (kind, granted)) named answers =
      let w' : World = (authenticate mw r w).1 in
      ground (
        arith,
        scopes_for_user_total p.user_id r.org_id w' (answers w'.calls) (answers (w'.calls + 1)),
      )
