-- ===== src/Store/Providers.antt =====
-- internal/store/postgres/provider_store.go: identity providers and their role mappings, on the
-- tables of migrations/0068_org_auth_fixup.sql and 0069_auth_provider_slug.sql.
use uigraph_api.Prelude.{
  String, Bool, not, ◌&&◌, ◌||◌, Option, none, some, List, ◌==◌, any, find, filter, if◌then◌else◌,
}
use uigraph_api.Prelude.Int.{lt_int}
use uigraph_api.Http.{Error, not_found, conflict, database}
use uigraph_api.Db.{Db, AuthProvider, Rule}
use uigraph_api.Exec.{Exec, Result, ok, err, query, exec, insert_if, statement}
use uigraph_api.Store.Tables.{update_where, delete_where, insert}
use uigraph_api.Store.Ordered.{Locale, order_by}

-- `id = $1 AND org_id = $2`
abbrev pub is_provider : String → String → AuthProvider → Bool
is_provider org_id id p = p.id == id && p.org_id == org_id

-- `UNIQUE (org_id, slug)` and `UNIQUE (org_id, display_name)`
abbrev same_slug : AuthProvider → AuthProvider → Bool
same_slug p row = row.org_id == p.org_id && row.slug == p.slug

abbrev same_name : AuthProvider → AuthProvider → Bool
same_name p row = row.org_id == p.org_id && row.display_name == p.display_name

abbrev has_org : Db → String → Bool
has_org db id = any (λ o. o.id == id) db.orgs

unfoldable pub creation : AuthProvider → Db → Result Error (Unit {0})
creation p db =
    if any (λ row. row.id == p.id) db.providers
    then err database
    else if any (same_slug p) db.providers || any (same_name p) db.providers
    then err conflict
    else if not (has_org db p.org_id)
    then err database
    else ok tt

unfoldable pub create_auth_provider : AuthProvider → Exec Error (Unit {0})
create_auth_provider p =
    statement (creation p) (λ db. record db { providers = insert p db.providers })

-- The statement sets every column but these and the times.
abbrev pub updated_provider : AuthProvider → AuthProvider → AuthProvider
updated_provider p row = record p {
  id = row.id;
  slug = row.slug;
  org_id = row.org_id;
  icon_asset_id = row.icon_asset_id;
}

unfoldable pub update : AuthProvider → Db → Result Error (Unit {0})
update p db =
    if not (any (is_provider p.org_id p.id) db.providers)
    then err not_found
    else if any (λ row. same_name p row && not (row.id == p.id)) db.providers
    then err conflict
    else ok tt

unfoldable pub update_auth_provider : AuthProvider → Exec Error (Unit {0})
update_auth_provider p = statement (update p) (λ db. record db {
  providers = update_where (is_provider p.org_id p.id) (updated_provider p) db.providers;
})

abbrev pub has_slug : String → String → AuthProvider → Bool
has_slug org_id slug p = p.org_id == org_id && p.slug == slug

unfoldable pub get_auth_provider_by_slug : String → String → Exec Error (Option AuthProvider)
get_auth_provider_by_slug org_id slug = query (λ db. find (has_slug org_id slug) db.providers)

-- The rows that the cascades of the two foreign keys take along.
abbrev pub drop_provider : String → String → Db → Db
drop_provider org_id id db =
    if any (is_provider org_id id) db.providers
    then record db {
      providers = delete_where (is_provider org_id id) db.providers;
      rules = delete_where (λ r. r.provider_id == id) db.rules;
      login_states = delete_where (λ s. s.provider_id == id) db.login_states;
    }
    else db

unfoldable pub delete_auth_provider : String → String → Exec Error (Unit {0})
delete_auth_provider org_id id = exec (drop_provider org_id id)

-- A NULL is read as the empty text.
abbrev or_empty : Option String → String
or_empty none = ""
or_empty (some s) = s

unfoldable pub set_auth_provider_icon : String → String → Option String → Exec Error (Unit {0})
set_auth_provider_icon org_id id asset_id = exec (λ db. record db {
  providers =
      update_where (is_provider org_id id) (λ p. record p { icon_asset_id = or_empty asset_id })
        db.providers;
})

unfoldable pub create_role_mapping : Rule → Exec Error (Unit {0})
create_role_mapping r =
    insert_if
      (λ db.
        any (λ row. row.id == r.id) db.rules || not (any (λ p. p.id == r.provider_id) db.providers))
      (λ db. record db { rules = insert r db.rules })

abbrev pub is_mapping : String → String → Rule → Bool
is_mapping provider_id id r = r.id == id && r.provider_id == provider_id

abbrev pub updated_mapping : Rule → Rule → Rule
updated_mapping r row = record r { id = row.id; provider_id = row.provider_id }

unfoldable pub update_role_mapping : Rule → Exec Error (Unit {0})
update_role_mapping r =
    statement (λ db. if any (is_mapping r.provider_id r.id) db.rules then ok tt else err not_found)
      (λ db. record db {
        rules = update_where (is_mapping r.provider_id r.id) (updated_mapping r) db.rules;
      })

unfoldable pub list_role_mappings : String → Exec Error (List Rule)
list_role_mappings provider_id = query (λ db.
    order_by (λ r q. lt_int r.priority q.priority)
      (filter (λ r. r.provider_id == provider_id) db.rules))

unfoldable pub delete_role_mapping : String → String → Exec Error (Unit {0})
delete_role_mapping provider_id id =
    exec (λ db. record db { rules = delete_where (is_mapping provider_id id) db.rules })

module _ (locale : Locale) where
  abbrev by_display_name : AuthProvider → AuthProvider → Bool
  by_display_name p q = locale.before p.display_name q.display_name

  unfoldable pub list_auth_providers : String → Exec Error (List AuthProvider)
  list_auth_providers org_id =
      query (λ db. order_by by_display_name (filter (λ p. p.org_id == org_id) db.providers))

  unfoldable pub list_enabled_auth_providers : String → Exec Error (List AuthProvider)
  list_enabled_auth_providers org_id =
      query (λ db.
        order_by by_display_name (filter (λ p. p.org_id == org_id && p.enabled) db.providers))
