-- ===== src/Samples/Rules.antt =====
-- Rules and attributes of a sign-in.
use uigraph_api.Prelude.{String, Bool, true, false, not, none, [], ◌∷◌, ◌≡◌, ◌⊎◌, refl, All}
use uigraph_api.Prelude.Int.{pos, negsuc, lt_int}
use uigraph_api.Exec.{Result, ok}
use uigraph_api.Authz.Scope.{role_admin, role_editor, role_viewer}
use uigraph_api.Rolemap.{
  Rule, RuleError, Compile, validate_rule, valid_operator, valid_operators, takes_value,
  apply_operator, known_role, first_match, insert_rule, by_priority, resolve_with, resolve,
}
use uigraph_api.Rolemap.Values.{
  Attribute, Attributes, nil, text, texts, nested, empty, entry, lookup,
}
use uigraph_api.Rolemap.Winner.{Winner, resolve_with_sound}
use uigraph_api.Rolemap.Operators.{with_operator, resolve_total, negated_operators}
use uigraph_api.Rolemap.Paths.{Finds, lookup-Finds}
use uigraph_api.Prelude.Text.{trim_space, trim_left, trim_right, is_space}

-- No expression compiles.
abbrev compile : Compile
compile s = none

abbrev show : Attribute → String
show v = "?"

abbrev admins : Rule
admins = record {
  id = "r1";
  provider_id = "p1";
  priority = pos 2;
  attribute_key = "user.groups";
  operator = "equals";
  attribute_value = "admins";
  role = role_admin;
}

abbrev everyone : Rule
everyone = record {
  id = "r2";
  provider_id = "p1";
  priority = negsuc 0;
  attribute_key = "email";
  operator = "exists";
  attribute_value = "";
  role = role_editor;
}

abbrev attributes : Attributes
attributes =
    entry "email" (text "alice@acme.io")
      (entry "user" (nested (entry "groups" (texts ("admins" ∷ [])) empty)) empty)

abbrev matches : Rule → Result RuleError Bool
matches r = ok true

resolve_with_sound_example :
    ((r : Rule) × Winner matches (admins ∷ everyone ∷ []) r × (role_editor ≡ r.role))
    ⊎ (All (λ q. matches q ≡ ok false) (admins ∷ everyone ∷ []) × (role_editor ≡ role_viewer))
unfolding resolve_with first_match by_priority insert_rule lt_int
resolve_with_sound_example =
    resolve_with_sound matches (admins ∷ everyone ∷ []) role_viewer role_editor refl

resolve_total_example :
    (role : String) × (resolve compile show (admins ∷ everyone ∷ []) attributes role_viewer
      ≡ ok role)
    × (known_role role ≡ true)
unfolding validate_rule valid_operator valid_operators takes_value trim_space trim_left trim_right
    is_space
resolve_total_example =
    resolve_total compile show (admins ∷ everyone ∷ []) attributes role_viewer (refl, (refl, tt))
      refl

negated_operators_example :
    ((b : Bool) × (apply_operator compile (with_operator admins "equals") true ("x" ∷ []) ≡ ok b)
      × (apply_operator compile (with_operator admins "notEquals") true ("x" ∷ []) ≡ ok (not b)))
    × ((b : Bool) × (apply_operator compile (with_operator admins "contains") true ("x" ∷ [])
          ≡ ok b)
        × (apply_operator compile (with_operator admins "notContains") true ("x" ∷ [])
            ≡ ok (not b)))
    × ((present : Bool)
        → (b : Bool) × (apply_operator compile (with_operator admins "exists") present ("x" ∷ [])
            ≡ ok b)
          × (apply_operator compile (with_operator admins "notExists") present ("x" ∷ [])
              ≡ ok (not b)))
    × All
        (λ op. apply_operator compile (with_operator admins op) false [] ≡ ok false)
        ("equals" ∷ "notEquals" ∷ "contains" ∷ "notContains" ∷ [])
negated_operators_example = negated_operators compile admins ("x" ∷ [])

lookup-Finds_example :
    ((v : Attribute) → Finds attributes "user.groups" v → lookup attributes "user.groups" ≡ v)
    × (Finds attributes "user.groups" (lookup attributes "user.groups")
        ⊎ ((lookup attributes "user.groups" ≡ nil)
            × ((v : Attribute) → ¬ Finds attributes "user.groups" v)))
lookup-Finds_example = lookup-Finds attributes "user.groups"
