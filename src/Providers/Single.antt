-- ===== src/Providers/Single.antt =====
-- The number of e-mail domains of an organisation.
use uigraph_api.Prelude.{
  ◌+◌, ◌≤◌, Char, String, Bool, Option, List, [], ◌∷◌, ◌≡◌, ◌==◌, refl, sym, ap, ◌∙◌, subst, arith,
  eq_iff, filter, length, ltb, ◌&&◌, Bool-cases, inl, inr, if◌then◌else◌,
}
use uigraph_api.Db.{Db, OrgDomain}
use uigraph_api.Exec.{World}
use uigraph_api.Exec.Rules.{Maintains, Maintains-exec, Maintains-statement, maintains_rules}
use uigraph_api.Exec.Checks.{
  Ensures-read, Ensures-stop_if, Ensures-require, Ensures-insert_if, Ensures-bind,
  Maintains-of_Ensures,
}
use uigraph_api.Identity.Provider.{normalize_org_domain}
use uigraph_api.Store.Tables.{update_where, delete_where, insert}
use uigraph_api.Store.Ordered.{Locale, place, order_by}
use uigraph_api.Store.Domains as Store
use uigraph_api.Providers.Domains.{create_domain, update_domain, delete_domain, list_domains}

abbrev pub domains_of : String → List OrgDomain → List OrgDomain
domains_of org_id domains = filter (λ d. d.org_id == org_id) domains

-- No organisation has two domains.
pub record IsSingle (db : Db) : Type 0 where
  pub single : (org_id : String) → length (domains_of org_id db.domains) ≤ 1

module _ {A : Type 0} where
  length-place :
      (before : A → A → Bool) (x : A) (xs : List A) → length (place before x xs) ≡ length xs + 1
  unfolding place
  length-place before x [] = refl
  length-place before x (y ∷ ys) = ground (arith, length-place before x ys)

  length-order_by : (before : A → A → Bool) (xs : List A) → length (order_by before xs) ≡ length xs
  unfolding order_by
  length-order_by before [] = refl
  length-order_by before (x ∷ xs) =
      ground (arith, length-place before x (order_by before xs), length-order_by before xs)

  length-filter-insert :
      (p : A → Bool) (x : A) (xs : List A)
      → length (filter p (insert x xs)) ≡ length (filter p xs) + (if p x then 1 else 0)
  length-filter-insert p x [] = ground arith
  length-filter-insert p x (y ∷ ys) = ground (arith, length-filter-insert p x ys)

  length-filter-update :
      (p q : A → Bool) (f : A → A) (xs : List A)
      → ((x : A) → p (f x) ≡ p x)
      → length (filter p (update_where q f xs)) ≡ length (filter p xs)
  unfolding update_where
  length-filter-update p q f [] k = refl
  length-filter-update p q f (x ∷ xs) k = ground (arith, k x, length-filter-update p q f xs k)

  length-filter-delete :
      (p q : A → Bool) (xs : List A) → length (filter p (delete_where q xs)) ≤ length (filter p xs)
  unfolding delete_where
  length-filter-delete p q [] = ground arith
  length-filter-delete p q (x ∷ xs) = ground (arith, length-filter-delete p q xs)

module _ (locale : Locale) (lower : Char → Char) where
  insert-IsSingle :
      (d : OrgDomain) (db : Db)
      → length (domains_of d.org_id db.domains) ≡ 0
      → IsSingle db
      → IsSingle (record db { domains = insert d db.domains })
  insert-IsSingle d db free s = record {
    single = λ org_id. elim (Bool-cases (d.org_id == org_id)) [
      | inl t ↦
          let here : length (domains_of org_id db.domains) ≡ 0 =
            subst (λ o. length (domains_of o db.domains) ≡ 0) ((eq_iff d.org_id org_id).0 t) free in
          ground (
            arith,
            t,
            here,
            length-filter-insert (λ (x : OrgDomain). x.org_id == org_id) d db.domains,
          )
      | inr f ↦ ground (
        arith,
        f,
        s.single org_id,
        length-filter-insert (λ (x : OrgDomain). x.org_id == org_id) d db.domains,
      )
    ];
  }

  created-IsSingle :
      (d : OrgDomain) (db : Db) (listed : List OrgDomain)
      → order_by (λ c e. locale.before c.domain e.domain) (domains_of d.org_id db.domains) ≡ listed
      → length listed ≡ 0
      → IsSingle db
      → IsSingle (
          if Store.is_taken locale d db
          then db
          else record db { domains = insert (Store.lowered locale d) db.domains })
  created-IsSingle d db listed same none_listed s =
      let free : length (domains_of d.org_id db.domains) ≡ 0 =
        sym (length-order_by _ (domains_of d.org_id db.domains)) ∙ ap length same ∙ none_listed in
      elim (Bool-cases (Store.is_taken locale d db)) [
        | inl t ↦ rw t s
        | inr f ↦ rw f (insert-IsSingle (Store.lowered locale d) db free s)
      ]

  pub create_domain-IsSingle :
      (id org_id : String) (body : Option String)
      → Maintains IsSingle (create_domain locale lower id org_id body)
  unfolding create_domain Store.list_org_domains Store.create_org_domain
  create_domain-IsSingle id org_id body = Maintains-of_Ensures _ (
      Ensures-require (λ db s. s) body _ _
        λ value _.
          Ensures-require (λ db s. s) (normalize_org_domain lower value) _ _
            λ domain _.
              Ensures-read (λ db s. s) _ _
                λ domains.
                  Ensures-stop_if (λ db s. s.0) (ltb 0 (length domains)) _ _
                    λ few.
                      Ensures-bind _ _
                        (Ensures-insert_if (λ db s. s.0) _ _
                          λ db fine s.
                            created-IsSingle (record { id = id; org_id = org_id; domain = domain })
                              db domains s.1 (ground (arith, few)) s.0)
                        λ _. search maintains_rules)

  update_org_domain-IsSingle :
      (d : OrgDomain) → Maintains IsSingle (Store.update_org_domain locale d)
  unfolding Store.update_org_domain
  update_org_domain-IsSingle d = Maintains-statement _ _ λ db _ _ s. record {
    single = λ org_id. ground (
      arith,
      s.single org_id,
      length-filter-update (λ (x : OrgDomain). x.org_id == org_id)
          (λ row. row.id == d.id && row.org_id == d.org_id)
          (λ row. record row { domain = locale.lower d.domain }) db.domains (λ _. refl),
    );
  }

  update_domain-IsSingle :
      (org_id id : String) (body : Option String)
      → Maintains IsSingle (update_domain locale lower org_id id body)
  unfolding update_domain
  update_domain-IsSingle org_id id body =
      search (maintains_rules, update_org_domain-IsSingle) depth 30

  delete_org_domain-IsSingle :
      (org_id id : String) → Maintains IsSingle (Store.delete_org_domain locale org_id id)
  unfolding Store.delete_org_domain
  delete_org_domain-IsSingle org_id id = Maintains-exec _ λ db s. record {
    single = λ org. ground (
      arith,
      s.single org,
      length-filter-delete (λ (x : OrgDomain). x.org_id == org)
          (λ row. row.id == id && row.org_id == org_id) db.domains,
    );
  }

  delete_domain-IsSingle :
      (org_id id : String) → Maintains IsSingle (delete_domain locale lower org_id id)
  unfolding delete_domain
  delete_domain-IsSingle org_id id = search (maintains_rules, delete_org_domain-IsSingle)

  list_domains-IsSingle : (org_id : String) → Maintains IsSingle (list_domains locale lower org_id)
  unfolding list_domains Store.list_org_domains
  list_domains-IsSingle org_id = search maintains_rules

-- A request for the domain of an organisation, with the fresh id that it may need.
pub data DomainCall : Type 0 where
  to_list : String → DomainCall
  to_create : String → String → Option String → DomainCall
  to_update : String → String → Option String → DomainCall
  to_delete : String → String → DomainCall

module _ (locale : Locale) (lower : Char → Char) where
  -- The world after a request.
  pub serve : World → DomainCall → World
  serve w (to_list org) = (list_domains locale lower org w).1
  serve w (to_create id org body) = (create_domain locale lower id org body w).1
  serve w (to_update org id body) = (update_domain locale lower org id body w).1
  serve w (to_delete org id) = (delete_domain locale lower org id w).1

  pub serve_all : World → List DomainCall → World
  serve_all w [] = w
  serve_all w (c ∷ cs) = serve_all (serve w c) cs

  serve-IsSingle : (w : World) (c : DomainCall) → IsSingle w.db → IsSingle (serve w c).db
  unfolding serve
  serve-IsSingle w (to_list org) = (list_domains-IsSingle locale lower org).at w
  serve-IsSingle w (to_create id org body) = (create_domain-IsSingle locale lower id org body).at w
  serve-IsSingle w (to_update org id body) = (update_domain-IsSingle locale lower org id body).at w
  serve-IsSingle w (to_delete org id) = (delete_domain-IsSingle locale lower org id).at w

  -- From a database in which no organisation has two domains: over any sequence of requests to the
  -- handlers for domains, one after the other, and whichever database calls fail, no organisation
  -- has two domains.
  pub serve_all-IsSingle :
      (w : World) (cs : List DomainCall) → IsSingle w.db → IsSingle (serve_all w cs).db
  unfolding serve_all
  serve_all-IsSingle w [] s = s
  serve_all-IsSingle w (c ∷ cs) s = serve_all-IsSingle (serve w c) cs (serve-IsSingle w c s)
