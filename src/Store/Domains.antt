-- ===== src/Store/Domains.antt =====
-- internal/store/postgres/provider_store.go: the e-mail domains of organisations, on the table of
-- migrations/0068_org_auth_fixup.sql with the check of 0070_org_domain_validation.sql; and
-- ListOrgsForUser of member_store.go.
pub mod Format
use Prim.Native.String.{[], ◌∷◌}
use mathlib.Core.List
use uigraph_api.Prelude.{
  ℕ, suc, String, Bool, true, false, not, ◌&&◌, ◌||◌, Option, none, some, List, ◌==◌, all, any,
  find, filter, leb, length, if◌then◌else◌,
}
use uigraph_api.Prelude.Text.{split, all_chars, some_char, char_len}
use uigraph_api.Http.{Error, not_found, database}
use uigraph_api.Db.{Db, Org, OrgDomain, Member}
use uigraph_api.Exec.{Exec, Result, ok, err, query, exec, insert_if, statement}
use uigraph_api.Store.Tables.{update_where, delete_where, insert}
use uigraph_api.Store.Ordered.{Locale, order_by}
use uigraph_api.Identity.Provider.{is_letter, label_char, label_pattern}

-- `[a-z0-9]([a-z0-9-]{0,61}[a-z0-9])?`
abbrev pub label_format : String → Bool
label_format label = leb (char_len label) 63 && label_pattern label

-- What the table asks of the part behind the last dot.
abbrev pub ends_with_letters : List String → Bool
ends_with_letters List.[] = false
ends_with_letters (List.◌∷◌ label List.[]) = all_chars label_char label && some_char is_letter label
ends_with_letters (List.◌∷◌ label (List.◌∷◌ next labels)) = ends_with_letters (List.◌∷◌ next labels)

-- org_domains_domain_format_check
unfoldable pub domain_format : Locale → String → Bool
domain_format locale domain =
    domain == locale.lower domain
    && (leb 3 (char_len domain) && leb (char_len domain) 253)
    && (leb 2 (length (split b'.' domain)) && all label_format (split b'.' domain))
    && ends_with_letters (split b'.' domain)

abbrev pub same_domain : String → String → OrgDomain → Bool
same_domain org_id domain row = row.org_id == org_id && row.domain == domain

module _ (locale : Locale) where
  abbrev pub lowered : OrgDomain → OrgDomain
  lowered d = record d { domain = locale.lower d.domain }

  abbrev pub is_taken : OrgDomain → Db → Bool
  is_taken d db = any (same_domain d.org_id (locale.lower d.domain)) db.domains

  abbrev creation_refused : OrgDomain → Db → Bool
  creation_refused d db =
      not (domain_format locale (locale.lower d.domain))
      || (not (is_taken d db)
          && (any (λ row. row.id == d.id) db.domains || not (any (λ o. o.id == d.org_id) db.orgs)))

  -- `ON CONFLICT (org_id, domain) DO NOTHING`
  unfoldable pub create_org_domain : OrgDomain → Exec Error (Unit {0})
  create_org_domain d =
      insert_if (creation_refused d)
        (λ db. if is_taken d db then db else record db { domains = insert (lowered d) db.domains })

  abbrev is_domain : String → String → OrgDomain → Bool
  is_domain org_id id row = row.id == id && row.org_id == org_id

  abbrev change : OrgDomain → Db → Result Error (Unit {0})
  change d db =
      if not (any (is_domain d.org_id d.id) db.domains)
      then err not_found
      else if not (domain_format locale (locale.lower d.domain))
          || any (λ row. same_domain d.org_id (locale.lower d.domain) row && not (row.id == d.id))
              db.domains
      then err database
      else ok tt

  unfoldable pub update_org_domain : OrgDomain → Exec Error (Unit {0})
  update_org_domain d = statement (change d) (λ db. record db {
    domains =
        update_where (is_domain d.org_id d.id)
          (λ row. record row { domain = locale.lower d.domain }) db.domains;
  })

  unfoldable pub list_org_domains : String → Exec Error (List OrgDomain)
  list_org_domains org_id = query (λ db.
      order_by (λ c d. locale.before c.domain d.domain)
        (filter (λ d. d.org_id == org_id) db.domains))

  unfoldable pub delete_org_domain : String → String → Exec Error (Unit {0})
  delete_org_domain org_id id =
      exec (λ db. record db { domains = delete_where (is_domain org_id id) db.domains })

  -- `JOIN org_domains`, of the organisations that are not disabled.
  unfoldable pub orgs_of : List Org → List OrgDomain → List Org
  orgs_of orgs List.[] = List.[]
  orgs_of orgs (List.◌∷◌ d domains) = elim (find (λ o. o.id == d.org_id && not o.disabled) orgs) [
    | none ↦ orgs_of orgs domains
    | some o ↦ List.◌∷◌ o (orgs_of orgs domains)
  ]

  unfoldable pub list_orgs_by_domain : String → Exec Error (List Org)
  list_orgs_by_domain domain = query (λ db.
      order_by (λ o p. locale.before o.name p.name)
        (orgs_of db.orgs (filter (λ d. d.domain == locale.lower domain) db.domains)))

  -- org.OrgMembershipView
  unfoldable pub memberships_of : List Org → List Member → List (Org × String)
  memberships_of orgs List.[] = List.[]
  memberships_of orgs (List.◌∷◌ m members) = elim (find (λ o. o.id == m.org_id) orgs) [
    | none ↦ memberships_of orgs members
    | some o ↦ List.◌∷◌ (o, m.role) (memberships_of orgs members)
  ]

  unfoldable pub list_orgs_for_user : String → Exec Error (List (Org × String))
  list_orgs_for_user user_id = query (λ db.
      order_by (λ v w. locale.before v.0.name w.0.name)
        (memberships_of db.orgs (filter (λ m. m.user_id == user_id) db.members)))
