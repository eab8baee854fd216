-- ===== src/Identity/Provider/Domains.antt =====
-- The spelling of an organisation's domain, as NormalizeOrgDomain leaves it.
use Prim.Native.String.{[], ◌∷◌}
use uigraph_api.Prelude.{
  ℕ, Char, code, String, Bool, true, false, ◌||◌, ◌≡◌, refl, ap, subst, List, some, arith, all,
  nat_beq, Bool-cases, inl, inr,
}
use uigraph_api.Prelude.Text.{
  is_space, trim_left, trim_right, keep_before, trim_space, split, to_lower, trim_first, all_chars,
}
use uigraph_api.Identity.Provider.{
  label_char, label_pattern, label_ok, is_org_domain, uniform, normalize_org_domain,
}

-- A character of a domain: a dot, or a character of a label.
abbrev pub domain_char : Char → Bool
domain_char c = nat_beq (code c) b'.' || label_char c

pub all_chars-label : (label : String) → label_ok label ≡ true → all_chars label_char label ≡ true
unfolding label_pattern
all_chars-label label h = ground arith

pub all-labels :
    (labels : List String) → all label_ok labels ≡ true → all (all_chars label_char) labels ≡ true
all-labels List.[] h = refl
all-labels (List.◌∷◌ label labels) h = ground (arith, all_chars-label label, all-labels labels)

split-nonempty :
    (sep : ℕ) (s : String)
    → (word : String) × (words : List String) × (split sep s ≡ List.◌∷◌ word words)
unfolding split
split-nonempty sep [] = ([], List.[], refl)
split-nonempty sep (c ∷ s) =
    let (word, words, same) = split-nonempty sep s in
    elim (Bool-cases (nat_beq (code c) sep)) [
      | inl t ↦ ([], split sep s, rw t refl)
      | inr f ↦ (c ∷ word, words, rw (f, same) refl)
    ]

pub all_chars-split :
    (p : Char → Bool) (sep : ℕ) (s : String)
    → all (all_chars p) (split sep s) ≡ true
    → all_chars (λ c. nat_beq (code c) sep || p c) s ≡ true
unfolding split all_chars
all_chars-split p sep [] h = refl
all_chars-split p sep (c ∷ s) h =
    let (word, words, same) = split-nonempty sep s in
    elim (Bool-cases (nat_beq (code c) sep)) [
      | inl t ↦ ground (arith, all_chars-split p sep s)
      | inr f ↦ ground (arith, same, all_chars-split p sep s)
    ]

domain_char-visible : (c : Char) → domain_char c ≡ true → is_space c ≡ false
unfolding is_space
domain_char-visible c h = ground arith

trim_right-domain : (s : String) → all_chars domain_char s ≡ true → trim_right s ≡ s
unfolding trim_right all_chars
trim_right-domain [] h = refl
trim_right-domain (c ∷ []) h = ground (arith, domain_char-visible c)
trim_right-domain (c ∷ d ∷ s) h = ap (keep_before c) (trim_right-domain (d ∷ s) (ground arith))

trim_left-domain : (s : String) → all_chars domain_char s ≡ true → trim_left s ≡ s
unfolding trim_left all_chars
trim_left-domain [] h = refl
trim_left-domain (c ∷ s) h = ground (arith, domain_char-visible c)

trim_first-domain : (s : String) → all_chars domain_char s ≡ true → trim_first b'@' s ≡ s
unfolding trim_first all_chars
trim_first-domain [] h = refl
trim_first-domain (c ∷ s) h = ground arith

trim_space-domain : (s : String) → all_chars domain_char s ≡ true → trim_space s ≡ s
unfolding trim_space
trim_space-domain s h = rw (trim_left-domain s h) (trim_right-domain s h)

is_org_domain-chars : (s : String) → is_org_domain s ≡ true → all_chars domain_char s ≡ true
unfolding is_org_domain
is_org_domain-chars s h =
    all_chars-split label_char b'.' s (all-labels (split b'.' s) (ground arith))

module _ (lower : Char → Char)
    (lower_domain : (c : Char) → domain_char c ≡ true → lower c ≡ c) where
  to_lower-domain : (s : String) → all_chars domain_char s ≡ true → to_lower lower s ≡ s
  unfolding to_lower all_chars
  to_lower-domain [] h = refl
  to_lower-domain (c ∷ s) h = ground (arith, lower_domain c, to_lower-domain s)

  uniform-domain : (s : String) → is_org_domain s ≡ true → uniform lower s ≡ s
  uniform-domain s h =
      let k : all_chars domain_char s ≡ true = is_org_domain-chars s h in
      rw (trim_space-domain s k, trim_first-domain s k, trim_space-domain s k) (to_lower-domain s k)

  -- The domain that the check lets through is its own spelling: it is let through again, unchanged,
  -- whenever `unicode.ToLower` leaves the characters of a domain alone.
  pub normalize_org_domain_stable :
      (value domain : String)
      → normalize_org_domain lower value ≡ some domain
      → normalize_org_domain lower domain ≡ some domain
  unfolding normalize_org_domain
  normalize_org_domain_stable value domain h =
      elim (Bool-cases (is_org_domain (uniform lower value))) [
        | inl t ↦
            let same : uniform lower value ≡ domain = ground arith in
            let fine : is_org_domain domain ≡ true = subst (λ d. is_org_domain d ≡ true) same t in
            rw (uniform-domain domain fine, fine) refl
        | inr f ↦ absurd (ground arith)
      ]
