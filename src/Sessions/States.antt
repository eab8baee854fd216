-- ===== src/Sessions/States.antt =====
-- A login state is used once.
use uigraph_api.Prelude.{
  ℕ, ◌+◌, ◌≤◌, String, Bool, true, false, not, ltb, Option, none, some, List, [], ◌∷◌, ◌≡◌, ◌==◌,
  ◌∙◌, refl, sym, ap, subst, arith, find, eq_iff, inl, inr, Option-cases, Bool-cases,
}
use uigraph_api.Http.{bad_request}
use uigraph_api.Db.{AuthProvider, LoginState}
use uigraph_api.Exec.{World, ok, err, require, ◌>>=◌}
use uigraph_api.Exec.Steps.{called, bind_ok, require_ok, stop_if_ok, pure_ok, attempt_ok}
use uigraph_api.Store.Tables.{delete_where}
use uigraph_api.Store.Providers.{has_slug, get_auth_provider_by_slug}
use uigraph_api.Store.Logins.{if_fresh, take_login_state, consume_login_state}
use uigraph_api.Sessions.SignOn.{load_provider, check_provider, find_provider, consume_state}

find-delete_where : {A : Type 0} (p : A → Bool) (xs : List A) → find p (delete_where p xs) ≡ none
unfolding delete_where
find-delete_where p [] = refl
find-delete_where p (x ∷ xs) = ground (arith, find-delete_where p xs)

-- What consuming a state leaves, and what it answers.
consume_ok :
    (state : String) (w : World) (found : Option LoginState)
    → (consume_login_state state w).0 ≡ ok found
    → (found ≡ if_fresh w.now (find (λ s. s.state == state) w.db.login_states))
      × ((consume_login_state state w).1 ≡ record w {
        db = record w.db { login_states = delete_where (λ s. s.state == state) w.db.login_states };
        calls = w.calls + 1;
      })
unfolding consume_login_state take_login_state ◌>>=◌
consume_ok state w found e = elim (Bool-cases (w.fails w.calls)) [
  | inl failed ↦ absurd (ground arith)
  | inr fine ↦ (ground (arith, fine), rw fine refl)
]

load_provider_ok :
    (org_id slug : String) (w : World) (p : AuthProvider)
    → (load_provider org_id slug w).0 ≡ ok p
    → (find (has_slug org_id slug) w.db.providers ≡ some p)
      × (p.enabled ≡ true)
      × ((load_provider org_id slug w).1 ≡ called w)
unfolding load_provider get_auth_provider_by_slug ◌>>=◌
load_provider_ok org_id slug w p e =
    elim (Option-cases (find (has_slug org_id slug) w.db.providers)) [
      | inl missing ↦ absurd (ground arith)
      | inr (q, found) ↦
          let same : q ≡ p = ground (arith, found) in
          (
            found ∙ ap some same,
            subst (λ v. v.enabled ≡ true) same (ground (arith, found)),
            ground (arith, found),
          )
    ]

-- What holds when consumeState lets a request go on: the state was there and had not expired, and
-- it belongs to the enabled provider of the route, which is of the kind of the route.
pub record IsConsumed (w : World) (org_id slug state kind : String) (prov : AuthProvider)
    (ls : LoginState) : Type 0 where
  pub listed : find (λ s. s.state == state) w.db.login_states ≡ some ls
  pub fresh : w.now ≤ ls.expires_at
  pub provider : find (has_slug org_id slug) w.db.providers ≡ some prov
  pub enabled : prov.enabled ≡ true
  pub same_provider : ls.provider_id ≡ prov.id
  pub same_kind : prov.kind ≡ kind

if_fresh-some :
    (now : ℕ) (o : Option LoginState) (ls : LoginState)
    → some ls ≡ if_fresh now o
    → (o ≡ some ls) × (now ≤ ls.expires_at)
if_fresh-some now none ls e = absurd (ground arith)
if_fresh-some now (some s) ls e = elim (Bool-cases (ltb s.expires_at now)) [
  | inl expired ↦ absurd (ground arith)
  | inr fresh ↦
      let same : s ≡ ls = ground (arith, fresh) in
      (ap some same, subst (λ v. now ≤ v.expires_at) same (ground (arith, fresh)))
]

not_other : (a b : String) → not (a == b) ≡ false → a ≡ b
not_other a b h = ground (arith, eq_iff a b)

check_provider_ok :
    (kind : String) (row ls : LoginState) (p prov : AuthProvider) (w : World)
    → (check_provider kind row p w).0 ≡ ok (prov, ls)
    → (row ≡ ls)
      × (p ≡ prov)
      × (row.provider_id ≡ p.id)
      × (p.kind ≡ kind)
      × ((check_provider kind row p w).1 ≡ w)
unfolding check_provider
check_provider_ok kind row ls p prov w e =
    let (mine, e1, same1) = stop_if_ok _ _ _ w _ e in
    let (right, e2, same2) = stop_if_ok _ _ _ w _ e1 in
    let (result, same3) = pure_ok _ _ w e2 in
    (
      ap (λ v. v.1) result,
      ap (λ v. v.0) result,
      not_other row.provider_id p.id mine,
      not_other p.kind kind right,
      same1 ∙ same2 ∙ same3,
    )

find_provider_ok :
    (org_id slug kind : String) (row ls : LoginState) (prov : AuthProvider) (w : World)
    → (find_provider org_id slug kind row w).0 ≡ ok (prov, ls)
    → (row ≡ ls)
      × (find (has_slug org_id slug) w.db.providers ≡ some prov)
      × (prov.enabled ≡ true)
      × (row.provider_id ≡ prov.id)
      × (prov.kind ≡ kind)
      × ((find_provider org_id slug kind row w).1 ≡ called w)
unfolding find_provider
find_provider_ok org_id slug kind row ls prov w e =
    let (p, loaded, e1, same1) = bind_ok _ _ w _ e in
    let (loaded_there, same_there) = attempt_ok (load_provider org_id slug) w p loaded in
    let (found, enabled, still) = load_provider_ok org_id slug w p loaded_there in
    let (same_ls, same_p, mine, right, same2) = check_provider_ok kind row ls p prov _ e1 in
    (
      same_ls,
      found ∙ ap some same_p,
      subst (λ v. v.enabled ≡ true) same_p enabled,
      mine ∙ ap (λ v. v.id) same_p,
      sym (ap (λ v. v.kind) same_p) ∙ right,
      same1 ∙ same2 ∙ same_there ∙ still,
    )

-- What consumeState lets through, and the states that it leaves.
consume_state-from :
    (org_id slug state kind : String) (w v : World) (taken : Option LoginState)
    (prov : AuthProvider) (ls : LoginState)
    → taken ≡ if_fresh w.now (find (λ s. s.state == state) w.db.login_states)
    → v.db.providers ≡ w.db.providers
    → ((require taken (bad_request "login state is unknown or expired")
          >>= find_provider org_id slug kind)
        v).0
      ≡ ok (prov, ls)
    → IsConsumed w org_id slug state kind prov ls
      × (((require taken (bad_request "login state is unknown or expired")
              >>= find_provider org_id slug kind)
            v).1
          ≡ called v)
consume_state-from org_id slug state kind w v taken prov ls answer providers e =
    let (row, sent, e1, same1) = require_ok taken _ _ v _ e in
    let (same_ls, found, enabled, mine, right, same2) =
      find_provider_ok org_id slug kind row ls prov v e1 in
    let (listed, fresh) =
      if_fresh-some w.now (find (λ s. s.state == state) w.db.login_states) row
        (sym sent ∙ answer) in
    (
      record {
        listed = listed ∙ ap some same_ls;
        fresh = subst (λ s. w.now ≤ s.expires_at) same_ls fresh;
        provider = ap (find (has_slug org_id slug)) (sym providers) ∙ found;
        enabled = enabled;
        same_provider = sym (ap (λ s. s.provider_id) same_ls) ∙ mine;
        same_kind = right;
      },
      same1 ∙ same2,
    )

consume_state-left :
    (org_id slug state kind : String) (w : World) (prov : AuthProvider) (ls : LoginState)
    → (consume_state org_id slug state kind w).0 ≡ ok (prov, ls)
    → IsConsumed w org_id slug state kind prov ls
      × ((consume_state org_id slug state kind w).1.db.login_states
          ≡ delete_where (λ s. s.state == state) w.db.login_states)
unfolding consume_state
consume_state-left org_id slug state kind w prov ls e =
    let (_, e1, same1) = stop_if_ok _ _ _ w _ e in
    let (taken, done, e2, same2) = bind_ok _ _ w _ e1 in
    let (consumed, same_world) = attempt_ok (consume_login_state state) w taken done in
    let (answer, after) = consume_ok state w taken consumed in
    let (result, same3) =
      consume_state-from org_id slug state kind w _ taken prov ls answer
        (ap (λ v. v.db.providers) (same_world ∙ after)) e2 in
    (
      result,
      ap (λ v. v.db.login_states) (same1 ∙ same2 ∙ same3)
          ∙ ap (λ v. v.db.login_states) (same_world ∙ after),
    )

consume_missing :
    (state : String) (w : World)
    → find (λ s. s.state == state) w.db.login_states ≡ none
    → w.fails w.calls ≡ false
    → (consume_login_state state w).0 ≡ ok none
unfolding consume_login_state take_login_state ◌>>=◌
consume_missing state w missing answers = rw (answers, missing) refl

consume_state_missing :
    (org_id slug state kind : String) (w : World)
    → (state == "") ≡ false
    → find (λ s. s.state == state) w.db.login_states ≡ none
    → w.fails w.calls ≡ false
    → (consume_state org_id slug state kind w).0
      ≡ err (bad_request "login state is unknown or expired")
unfolding consume_state ◌>>=◌
consume_state_missing org_id slug state kind w named missing answers =
    rw (named, consume_missing state w missing answers) refl

consume_state_named :
    (org_id slug state kind : String) (w : World) (found : AuthProvider × LoginState)
    → (consume_state org_id slug state kind w).0 ≡ ok found
    → (state == "") ≡ false
unfolding consume_state
consume_state_named org_id slug state kind w found e = (stop_if_ok _ _ _ w _ e).0

-- A callback goes on only with a state that is in the table, has not expired, and belongs to the
-- enabled provider that the route names, which is of the kind of the route. A second callback with
-- that state, on any route and at any time, is refused with 400, as long as the states are those
-- that the first one left and the database answers its first call.
pub consume_state-once :
    (org_id slug state kind : String) (w : World) (prov : AuthProvider) (ls : LoginState)
    (other_org other_slug other_kind : String) (later : World)
    → (consume_state org_id slug state kind w).0 ≡ ok (prov, ls)
    → later.db.login_states ≡ (consume_state org_id slug state kind w).1.db.login_states
    → later.fails later.calls ≡ false
    → IsConsumed w org_id slug state kind prov ls
      × ((consume_state other_org other_slug state other_kind later).0
          ≡ err (bad_request "login state is unknown or expired"))
consume_state-once org_id slug state kind w prov ls other_org other_slug other_kind later e kept
      answers =
    let (consumed, left) = consume_state-left org_id slug state kind w prov ls e in
    (
      consumed,
      consume_state_missing other_org other_slug state other_kind later
          (consume_state_named org_id slug state kind w (prov, ls) e)
          (ap (find (λ s. s.state == state)) (kept ∙ left)
            ∙ find-delete_where (λ s. s.state == state) w.db.login_states)
          answers,
    )
