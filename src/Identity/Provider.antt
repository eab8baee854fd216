-- ===== src/Identity/Provider.antt =====
-- internal/identity/provider.go: the checks on the identity providers and on the e-mail domains of
-- an organisation. The table of `unicode.ToLower` is a parameter.
pub mod Domains
use Prim.Native.String.{[], ◌∷◌}
use mathlib.Core.List
use uigraph_api.Prelude.{
  ℕ, Char, code, String, Bool, true, false, not, ◌&&◌, ◌||◌, Option, none, some, List, ◌==◌, all,
  any, length, leb, ltb, nat_beq, if◌then◌else◌,
}
use uigraph_api.Prelude.Text.{
  trim_space, split, cut_last, to_lower, trim_first, all_chars, some_char, byte_len,
}
use uigraph_api.Authz.Scope.{Role, role_admin, role_editor, role_viewer}
use uigraph_api.Db.{AuthProvider}

abbrev pub kind_oidc : String
kind_oidc = "oidc"

abbrev pub kind_saml : String
kind_saml = "saml"

abbrev pub type_generic : String
type_generic = "generic"

abbrev pub type_entra : String
type_entra = "entra"

abbrev pub type_okta : String
type_okta = "okta"

-- The errors, one for each message of the source.
pub data ProviderError : Type 0 where
  org_required slug_required slug_length slug_shape name_required : ProviderError
  unknown_default_role unknown_oidc_type client_id_required endpoints_required : ProviderError
  sso_url_required cert_required unknown_kind : ProviderError

abbrev pub is_letter : Char → Bool
is_letter c = leb b'a' (code c) && leb (code c) b'z'

-- `[a-z0-9]`
abbrev pub is_alnum : Char → Bool
is_alnum c = is_letter c || (leb b'0' (code c) && leb (code c) b'9')

-- slugPattern: words of letters and digits, with one hyphen between two words.
unfoldable pub slug_pattern : String → Bool
slug_pattern slug = all (λ word. not (word == "") && all_chars is_alnum word) (split b'-' slug)

unfoldable pub validate_slug : String → Option ProviderError
unfolding slug_pattern
validate_slug slug =
    if slug == ""
    then some slug_required
    else if ltb (byte_len slug) 2 || ltb 63 (byte_len slug)
    then some slug_length
    else if not (slug_pattern slug)
    then some slug_shape
    else none

abbrev validate_oidc : AuthProvider → Option ProviderError
validate_oidc p =
    if not (p.type == type_generic) && not (p.type == type_entra) && not (p.type == type_okta)
    then some unknown_oidc_type
    else if trim_space p.client_id == ""
    then some client_id_required
    else if trim_space p.auth_url == "" || trim_space p.token_url == ""
    then some endpoints_required
    else none

abbrev validate_saml : AuthProvider → Option ProviderError
validate_saml p =
    if trim_space p.idp_sso_url == ""
    then some sso_url_required
    else if trim_space p.idp_cert == ""
    then some cert_required
    else none

-- The checks after that of the slug.
abbrev validate_rest : AuthProvider → Option ProviderError
validate_rest p =
    if trim_space p.display_name == ""
    then some name_required
    else if not (p.default_role == role_admin)
        && not (p.default_role == role_editor)
        && not (p.default_role == role_viewer)
    then some unknown_default_role
    else if p.kind == kind_oidc
    then validate_oidc p
    else if p.kind == kind_saml
    then validate_saml p
    else some unknown_kind

abbrev or_else : Option ProviderError → Option ProviderError → Option ProviderError
or_else (some e) rest = some e
or_else none rest = rest

-- `Validate`: `none` is the answer `nil`.
unfoldable pub validate : AuthProvider → Option ProviderError
validate p =
    if trim_space p.org_id == ""
    then some org_required
    else or_else (validate_slug p.slug) (validate_rest p)

-- The first character of a label, and its last.
abbrev starts_alnum : String → Bool
starts_alnum [] = false
starts_alnum (c ∷ s) = is_alnum c

abbrev ends_after : Char → String → Bool → Bool
ends_after c [] rest = is_alnum c
ends_after c (d ∷ s) rest = rest

abbrev ends_alnum : String → Bool
ends_alnum [] = false
ends_alnum (c ∷ s) = ends_after c s (ends_alnum s)

-- `[a-z0-9-]`
abbrev pub label_char : Char → Bool
label_char c = is_alnum c || nat_beq (code c) b'-'

-- domainLabelPattern
unfoldable pub label_pattern : String → Bool
label_pattern label = starts_alnum label && all_chars label_char label && ends_alnum label

abbrev pub label_ok : String → Bool
label_ok label =
    not (ltb (byte_len label) 1 || ltb 63 (byte_len label) || not (label_pattern label))

-- domainLetterPattern on the last label.
abbrev pub last_has_letter : List String → Bool
last_has_letter List.[] = false
last_has_letter (List.◌∷◌ label List.[]) = some_char is_letter label
last_has_letter (List.◌∷◌ label (List.◌∷◌ next labels)) = last_has_letter (List.◌∷◌ next labels)

-- The tests of NormalizeOrgDomain, after the spelling is made uniform.
unfoldable pub is_org_domain : String → Bool
is_org_domain domain =
    if ltb (byte_len domain) 3 || ltb 253 (byte_len domain)
    then false
    else if ltb (length (split b'.' domain)) 2
    then false
    else if not (all label_ok (split b'.' domain))
    then false
    else last_has_letter (split b'.' domain)

module _ (lower : Char → Char) where
  unfoldable pub email_allowed : AuthProvider → String → Bool
  email_allowed p email =
      if trim_space p.allowed_domains == "" then true else elim (cut_last b'@' email) [
        | none ↦ false
        | some parts ↦
            any (λ d. to_lower lower (trim_space d) == to_lower lower parts.1)
              (split b',' p.allowed_domains)
      ]

  abbrev pub uniform : String → String
  uniform value = to_lower lower (trim_space (trim_first b'@' (trim_space value)))

  unfoldable pub normalize_org_domain : String → Option String
  normalize_org_domain value = if is_org_domain (uniform value) then some (uniform value) else none
