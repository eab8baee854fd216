-- ===== src/Router/Administered.antt =====
-- Which requests reach a handler behind `serverAdmin`.
use uigraph_api.Prelude.{
  String, Bool, true, false, some, ◌≡◌, ◌⊎◌, ◌==◌, inl, inr, arith, find, Option, none, refl,
  eq_iff, sym,
}
use uigraph_api.Http.{Error, refused}
use uigraph_api.Db.{User}
use uigraph_api.Exec.{World, ok, err, Result-cases, ◌>>=◌}
use uigraph_api.Store.Users.{get_user}
use uigraph_api.Identity.Principal.{Principal}
use uigraph_api.Authz.Authorizer.{is_server_admin, is_user_server_admin}
use uigraph_api.Middleware.{Middleware, Request, Handler, authenticate, authenticated}
use uigraph_api.Router.{server_admin_guard, server_admin}

-- The answer of the authorizer is what the user's row says.
admin_by_row :
    (user_id : String) (w : World) (admin : Bool)
    → (is_user_server_admin user_id w).0 ≡ ok admin
    → admin ≡ is_server_admin (find (λ u. u.id == user_id) w.db.users)
unfolding is_user_server_admin get_user ◌>>=◌
admin_by_row user_id w admin h = ground arith

enabled_admin :
    (found : Option User)
    → is_server_admin found ≡ true
    → (u : User) × (found ≡ some u) × (u.disabled ≡ false) × (u.role ≡ "server_admin")
unfolding is_server_admin
enabled_admin none h = absurd (ground arith)
enabled_admin (some u) h = (u, refl, ground arith, ground (arith, eq_iff u.role "server_admin"))

module _ {A : Type 0} (mw : Middleware) (h : Handler A) (r : Request) (w : World) where
  -- A route behind `serverAdmin` answers 401 if the request cannot be authenticated, and then the
  -- world is as the authentication left it; else it runs the handler once, for a principal whose
  -- user has a row that is not disabled and has the role "server_admin", or it answers 403, and then
  -- the world is as the lookup of that row left it.
  pub server_admin_sound :
      ((p : Principal) × ((authenticate mw r w).0 ≡ ok p)
        × ((u : User) × (find (λ u. u.id == p.user_id) (authenticate mw r w).1.db.users ≡ some u)
            × (u.disabled ≡ false)
            × (u.role ≡ "server_admin"))
        × (server_admin mw h r w
            ≡ h r (some p) (is_user_server_admin p.user_id (authenticate mw r w).1).1))
      ⊎ ((e : Error) × ((authenticate mw r w).0 ≡ err e)
          × (server_admin mw h r w ≡ (refused 401 "unauthenticated", (authenticate mw r w).1)))
      ⊎ ((p : Principal) × ((authenticate mw r w).0 ≡ ok p)
          × (server_admin mw h r w ≡ (
            refused 403 "forbidden",
            (is_user_server_admin p.user_id (authenticate mw r w).1).1,
          )))
  unfolding server_admin authenticated server_admin_guard
  server_admin_sound = elim (Result-cases (authenticate mw r w).0) [
    | inr (e, failed) ↦ inr (inl (e, failed, ground arith))
    | inl (p, known) ↦
        let w' : World = (authenticate mw r w).1 in
        elim (Result-cases (is_user_server_admin p.user_id w').0) [
          | inr (e, unknown) ↦ inr (inr (p, known, ground arith))
          | inl (false, denied) ↦ inr (inr (p, known, ground arith))
          | inl (true, granted) ↦ inl (
            p,
            known,
            enabled_admin (find (λ u. u.id == p.user_id) w'.db.users)
                (sym (admin_by_row p.user_id w' true granted)),
            ground arith,
          )
        ]
  ]
