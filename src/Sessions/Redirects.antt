-- ===== src/Sessions/Redirects.antt =====
-- Where a sign-in through an identity provider may end.
use uigraph_api.Prelude.{
  String, true, false, ◌&&◌, not, Option, ◌≡◌, refl, All, arith, Bool-cases, inl, inr,
}
use uigraph_api.Prelude.Text.{has_prefix}
use uigraph_api.Db.{Db, AuthProvider, LoginState}
use uigraph_api.Exec.Rules.{
  Maintains, Maintains-bind, Maintains-attempt, Maintains-insert_if, Maintains-statement,
  maintains_rules,
}
use uigraph_api.Store.Tables.{All-insert, All-delete_where}
use uigraph_api.Store.Providers.{get_auth_provider_by_slug}
use uigraph_api.Store.Logins.{create_login_state, take_login_state, consume_login_state}
use uigraph_api.Sessions.{SessionBackend, safe_redirect}
use uigraph_api.Sessions.SignOn.{
  FreshState, load_provider, oauth_provider, saml_provider, depart_oidc, depart_saml, depart,
  initiate_login, check_provider, find_provider, consume_state,
}

-- A path on the server itself: one slash at its start, and no second one.
abbrev pub IsLocal : String → Type 0
IsLocal path = (has_prefix path "/" ≡ true) × (has_prefix path "//" ≡ false)

safe_redirect-IsLocal : (raw : String) → IsLocal (safe_redirect raw)
unfolding safe_redirect
safe_redirect-IsLocal raw = elim (Bool-cases (has_prefix raw "/" && not (has_prefix raw "//"))) [
  | inl t ↦ rw t (ground (arith, t), ground (arith, t))
  | inr f ↦ rw f (unfold has_prefix in (refl, refl))
]

pub record AreLocal (db : Db) : Type 0 where
  pub states : All (λ s. IsLocal s.redirect_to) db.login_states

create_login_state-AreLocal :
    (s : LoginState) → IsLocal s.redirect_to → Maintains AreLocal (create_login_state s)
unfolding create_login_state
create_login_state-AreLocal s local =
    Maintains-bind _
      (λ now. Maintains-insert_if _ _ λ db _ k. record {
        states =
            All-insert (λ x. IsLocal x.redirect_to) (record s { created_at = now }) db.login_states
              local k.states;
      })
      _ (search maintains_rules)

load_provider-AreLocal : (org_id slug : String) → Maintains AreLocal (load_provider org_id slug)
unfolding load_provider get_auth_provider_by_slug
load_provider-AreLocal org_id slug = search maintains_rules

take-AreLocal : (state : String) → Maintains AreLocal (take_login_state state)
unfolding take_login_state
take-AreLocal state = Maintains-statement _ _ λ db _ _ k. record {
  states = All-delete_where (λ x. IsLocal x.redirect_to) _ db.login_states k.states;
}

module _ (h : SessionBackend) where
  depart_oidc-AreLocal :
      (prov : AuthProvider) (state : String) (random : Option String)
      → Maintains AreLocal (depart_oidc h prov state random)
  unfolding oauth_provider
  depart_oidc-AreLocal prov state random = search maintains_rules depth 30

  depart_saml-AreLocal :
      (prov : AuthProvider) (state : String) → Maintains AreLocal (depart_saml h prov state)
  unfolding saml_provider
  depart_saml-AreLocal prov state = search maintains_rules depth 30

  depart-AreLocal :
      (prov : AuthProvider) (state : String) (random : Option String)
      → Maintains AreLocal (depart h prov state random)
  unfolding depart
  depart-AreLocal prov state random =
      search (maintains_rules, depart_oidc-AreLocal, depart_saml-AreLocal) depth 20

  -- The start of a sign-in, whatever the path that the request asks to return to, keeps every
  -- stored path one on the server itself, and so does a callback that takes a state.
  pub initiate_login-AreLocal :
      (fresh : FreshState) (org_id slug redirect_to state kind : String)
      → Maintains AreLocal (initiate_login h fresh org_id slug redirect_to)
        × Maintains AreLocal (consume_state org_id slug state kind)
  unfolding initiate_login consume_state find_provider check_provider consume_login_state
  initiate_login-AreLocal fresh org_id slug redirect_to state kind = (
    Maintains-bind _
        (λ prov.
          Maintains-bind _
            (λ token.
              Maintains-bind _
                (λ departure.
                  Maintains-bind _
                    (λ now.
                      Maintains-bind _ (λ _. search maintains_rules) _
                        (Maintains-attempt _
                          (create_login_state-AreLocal _ (safe_redirect-IsLocal redirect_to))))
                    _ (search maintains_rules))
                _ (search (maintains_rules, depart-AreLocal)))
            _ (search maintains_rules))
        _ (search (maintains_rules, load_provider-AreLocal)),
    search (maintains_rules, take-AreLocal, load_provider-AreLocal) depth 40,
  )
