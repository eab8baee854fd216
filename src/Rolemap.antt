-- ===== src/Rolemap.antt =====
-- internal/rolemap/rolemap.go: the role of a user who signs in through an identity provider, from
-- the provider's rules and the attributes that it returned. `regexp.Compile` and `fmt.Sprintf("%v")`
-- are parameters.
pub mod Values
pub mod Priority
pub mod Winner
pub mod Operators
pub mod Paths
use uigraph_api.Prelude.{
  ℕ, String, Bool, true, false, not, ◌&&◌, ◌||◌, Option, none, some, List, [], ◌∷◌, ◌==◌, any,
  contains, if◌then◌else◌,
}
use uigraph_api.Prelude.Int.{ℤ, lt_int}
use uigraph_api.Prelude.Text.{trim_space, has_prefix, has_suffix, contains_text}
pub use uigraph_api.Db.{Rule}
use uigraph_api.Exec.{Result, ok, err}
use uigraph_api.Authz.Scope.{Role, role_admin, role_editor, role_viewer}
use uigraph_api.Rolemap.Values.{Attribute, Attributes, is_present, lookup, string_values}

pub data RuleError : Type 0 where
  key_required unknown_operator value_required invalid_regex unknown_role : RuleError

unfoldable pub valid_operators : List String
valid_operators =
    "equals" ∷ "notEquals" ∷ "contains" ∷ "notContains" ∷ "startsWith" ∷ "endsWith" ∷ "exists"
    ∷ "notExists" ∷ "regex" ∷ []

unfoldable pub valid_operator : String → Bool
valid_operator op = contains valid_operators op

unfoldable pub takes_value : String → Bool
takes_value op = if op == "exists" || op == "notExists" then false else true

-- A compiled expression, or none if it is invalid.
abbrev pub Compile : Type 0
Compile = String → Option (String → Bool)

abbrev pub compiles : Option (String → Bool) → Bool
compiles none = false
compiles (some m) = true

abbrev pub known_role : Role → Bool
known_role role = role == role_admin || role == role_editor || role == role_viewer

module _ (compile : Compile) where
  unfoldable pub validate_rule : Rule → Option RuleError
  validate_rule r =
      if trim_space r.attribute_key == ""
      then some key_required
      else if not (valid_operator r.operator)
      then some unknown_operator
      else if takes_value r.operator && r.attribute_value == ""
      then some value_required
      else if r.operator == "regex" && not (compiles (compile r.attribute_value))
      then some invalid_regex
      else if not (known_role r.role)
      then some unknown_role
      else none

  abbrev match_regex : Option (String → Bool) → List String → Result RuleError Bool
  match_regex none values = err invalid_regex
  match_regex (some matches) values = ok (any matches values)

  -- The switch of Match, on whether the attribute is present and on its texts.
  unfoldable pub apply_operator : Rule → Bool → List String → Result RuleError Bool
  apply_operator r present values =
      if r.operator == "exists"
      then ok present
      else if r.operator == "notExists"
      then ok (not present)
      else if r.operator == "equals"
      then ok (any (λ v. v == r.attribute_value) values)
      else if r.operator == "notEquals"
      then ok (if not present then false else not (any (λ v. v == r.attribute_value) values))
      else if r.operator == "contains"
      then ok (any (λ v. contains_text v r.attribute_value) values)
      else if r.operator == "notContains"
      then ok
          (if not present then false else not (any (λ v. contains_text v r.attribute_value) values))
      else if r.operator == "startsWith"
      then ok (any (λ v. has_prefix v r.attribute_value) values)
      else if r.operator == "endsWith"
      then ok (any (λ v. has_suffix v r.attribute_value) values)
      else if r.operator == "regex"
      then match_regex (compile r.attribute_value) values
      else err unknown_operator

module _ (compile : Compile) (show : Attribute → String) where
  unfoldable pub match_rule : Rule → Attributes → Result RuleError Bool
  match_rule r attrs =
      let raw = lookup attrs r.attribute_key in
      apply_operator compile r (is_present raw) (string_values show raw)

-- `sort.SliceStable` by priority: a rule comes before those of the same priority behind it.
unfoldable pub insert_rule : Rule → List Rule → List Rule
insert_rule r [] = r ∷ []
insert_rule r (q ∷ rules) =
    if lt_int q.priority r.priority then q ∷ insert_rule r rules else r ∷ q ∷ rules

unfoldable pub by_priority : List Rule → List Rule
unfolding insert_rule
by_priority [] = []
by_priority (r ∷ rules) = insert_rule r (by_priority rules)

module _ (matches : Rule → Result RuleError Bool) where
  abbrev pick :
      Result RuleError Bool → Rule → Result RuleError (Option Rule) → Result RuleError (Option Rule)
  pick (err e) r rest = err e
  pick (ok true) r rest = ok (some r)
  pick (ok false) r rest = rest

  -- The loop of Resolve: the first rule that matches, and an error before it ends the search.
  unfoldable pub first_match : List Rule → Result RuleError (Option Rule)
  first_match [] = ok none
  first_match (r ∷ rules) = pick (matches r) r (first_match rules)

  abbrev role_or : Role → Result RuleError (Option Rule) → Result RuleError Role
  role_or default_role (err e) = err e
  role_or default_role (ok none) = ok default_role
  role_or default_role (ok (some r)) = ok r.role

  unfoldable pub resolve_with : List Rule → Role → Result RuleError Role
  unfolding first_match
  resolve_with rules default_role = role_or default_role (first_match (by_priority rules))

module _ (compile : Compile) (show : Attribute → String) where
  unfoldable pub resolve : List Rule → Attributes → Role → Result RuleError Role
  unfolding resolve_with
  resolve rules attrs default_role =
      resolve_with (λ r. match_rule compile show r attrs) rules default_role
