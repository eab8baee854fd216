-- ===== src/Billing/Selection.antt =====
-- Which resources a list of tag rules selects.
use Prim.Native.String
use uigraph_api.Prelude.{
  String, Bool, false, ◌&&◌, List, [], ◌∷◌, ◌≡◌, refl, arith, ap, any, filter, map, All, ◌==◌,
  eq_iff, Bool-cases, inl, inr, if◌then◌else◌,
}
use uigraph_api.Billing.{
  TagRule, Resource, tag, satisfies, match_tags, with_matched, matched_loop, filter_matched,
}

-- The entries of a map: no key stands twice.
abbrev pub IsMap : List (String × String) → Type 0
IsMap [] = Unit
IsMap (e ∷ es) = (any (λ x. x.0 == e.0) es ≡ false) × IsMap es

-- One of the tags is the key and the value of the rule.
abbrev pub holds : List (String × String) → TagRule → Bool
holds tags rule = any (λ e. e.0 == rule.tag_key && e.1 == rule.tag_value) tags

abbrev pub label : TagRule → String
label rule = String.◌++◌ rule.tag_key (String.◌++◌ ":" rule.tag_value)

-- A resource with the labels of the rules that hold of its tags.
abbrev pub labelled : List TagRule → Resource → Resource
labelled rules r = record r { matched_tags = map label (filter (holds r.tags) rules) }

no_entry :
    (key key' value : String) (es : List (String × String))
    → any (λ x. x.0 == key') es ≡ false
    → key' ≡ key
    → any (λ e. e.0 == key && e.1 == value) es ≡ false
no_entry key key' value [] h same = refl
no_entry key key' value (e ∷ es) h same = ground (
  arith,
  ap (λ k. e.0 == k) same,
  ap (λ k. any (λ x. x.0 == k) es) same,
  no_entry key key' value es (ground arith) same,
)

satisfies_lem :
    (rule : TagRule) (tags : List (String × String))
    → IsMap tags
    → satisfies (tag tags rule.tag_key) rule.tag_value ≡ holds tags rule
unfolding tag
satisfies_lem rule [] h = refl
satisfies_lem rule (e ∷ es) (once, h) = elim (Bool-cases (e.0 == rule.tag_key)) [
  | inl named ↦
      let same : e.0 ≡ rule.tag_key = ground (arith, eq_iff e.0 rule.tag_key) in
      ground (arith, named, no_entry rule.tag_key e.0 rule.tag_value es once same)
  | inr other ↦ ground (arith, other, satisfies_lem rule es h)
]

match_tags_lem :
    (tags : List (String × String)) (rules : List TagRule)
    → IsMap tags
    → match_tags tags rules ≡ map label (filter (holds tags) rules)
unfolding match_tags
match_tags_lem tags [] h = refl
match_tags_lem tags (rule ∷ rules) h =
    ground (arith, satisfies_lem rule tags h, match_tags_lem tags rules h)

with_labels :
    (rules : List TagRule) (p : TagRule → Bool) (r : Resource) (rest : List Resource)
    → with_matched (map label (filter p rules)) r rest ≡ (
        if any p rules then record r { matched_tags = map label (filter p rules) } ∷ rest else rest)
with_labels [] p r rest = refl
with_labels (rule ∷ rules) p r rest = elim (Bool-cases (p rule)) [
  | inl t ↦ rw t refl
  | inr f ↦ rw f (with_labels rules p r rest)
]

matched_loop_lem :
    (rules : List TagRule) (resources : List Resource)
    → All (λ r. IsMap r.tags) resources
    → matched_loop rules resources
      ≡ map (labelled rules) (filter (λ r. any (holds r.tags) rules) resources)
unfolding matched_loop
matched_loop_lem rules [] h = refl
matched_loop_lem rules (r ∷ resources) (m, ms) = ground (
  arith,
  match_tags_lem r.tags rules m,
  with_labels rules (holds r.tags) r (matched_loop rules resources),
  matched_loop_lem rules resources ms,
)

none_linked : (resources : List Resource) → filter (λ r. any (holds r.tags) []) resources ≡ []
none_linked [] = refl
none_linked (r ∷ resources) = none_linked resources

-- For resources whose tags are maps, FilterMatched selects those that have a tag with the key and the
-- value of one of the rules, in their order, and otherwise unchanged but for the matched tags: these
-- are the key, a colon and the value of every rule that some tag fits, in the order of the rules.
pub filter_matched_lem :
    (resources : List Resource) (rules : List TagRule)
    → All (λ r. IsMap r.tags) resources
    → filter_matched resources rules
      ≡ map (labelled rules) (filter (λ r. any (holds r.tags) rules) resources)
unfolding filter_matched
filter_matched_lem resources [] h = rw (none_linked resources) refl
filter_matched_lem resources (rule ∷ rules) h = matched_loop_lem (rule ∷ rules) resources h
