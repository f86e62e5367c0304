-- ===== src/RichText/Links.antt =====
-- The links and attributes that the sanitizer keeps: src/pwms/utils/richtext.py.
use text.Mathlib.TextEquality.{eq_iff}
use pwms_project.Prelude.{
  ◌≡◌, refl, ap, sym, subst, ◌⊎◌, ◌↔◌, ◌≢◌, true, ◌||◌, Option, none, some, List, [], ◌∷◌, ◌++◌,
  String, arith, All, All-append, contains, string_eq, ◌==◌, Bool-cases, Option-cases, inl, inr,
  some_inj, beq→eq, beq_differ,
}
use pwms_project.RichText.{
  Texts, Attrs, safe_href, linked, with_scheme, value_or_empty, is_empty, attribute, attributes,
  href_attribute, starts_with, allowed_attributes, is_allowed_scheme,
}

-- A target that starts with a slash or a hash, has no scheme, or has one of those that are allowed.
-- Of the first kind is also `//host`, which a browser takes for another site.
abbrev pub KeptLink : Texts → String → Type 0
KeptLink lib target =
    ((starts_with target "/" || starts_with target "#") ≡ true)
    ⊎ (lib.scheme target ≡ some "")
    ⊎ ((scheme : String) × (lib.scheme target ≡ some scheme)
        × (is_allowed_scheme (lib.lower scheme) ≡ true))

-- A rendered attribute: its name is allowed on the tag, its value is escaped, and the value of an
-- href is a link that is kept.
abbrev pub SafeAttribute : Texts → String → String × String → Type 0
SafeAttribute lib tag (name, value) =
    (contains name (allowed_attributes tag) ≡ true)
    × ((words : String) × (value ≡ lib.escape words) × (name ≡ "href" → KeptLink lib words))

-- A link that names a host alone begins with a slash, so the test for one never refuses it.
starts_with-slashes : (s : String) → starts_with s "//" ≡ true → starts_with s "/" ≡ true
unfolding starts_with
starts_with-slashes String.[] h = ground arith
starts_with-slashes (String.◌∷◌ c s) h = ground arith

module _ (lib : Texts) where
  with_scheme-KeptLink :
      (c scheme : String) {target : String}
      → lib.scheme c ≡ some scheme
      → with_scheme lib c scheme ≡ some target
      → (c ≡ target) × KeptLink lib c
  unfolding with_scheme is_empty
  with_scheme-KeptLink c scheme e h = elim (Bool-cases (scheme == "")) [
    | inl none_given ↦
        (ground (arith, none_given), inr (inl (rw e (ap some (beq→eq scheme "" none_given)))))
    | inr given ↦ elim (Bool-cases (is_allowed_scheme (lib.lower scheme))) [
      | inl allowed ↦ (ground (arith, given, allowed), inr (inr (scheme, e, allowed)))
      | inr refused ↦ absurd (ground (arith, given, refused))
    ]
  ]

  kept_link :
      (c target : String)
      → linked lib c ≡ some (some target)
      → (target ≡ c) × (c ≢ "") × KeptLink lib c
  unfolding linked is_empty
  kept_link c target h = elim (Bool-cases (c == "")) [
    | inl empty ↦ absurd (ground (arith, empty))
    | inr full ↦ elim (Bool-cases (starts_with c "/" || starts_with c "#")) [
      | inl local ↦ (ground (arith, full, local), beq_differ c "" full, inl local)
      | inr remote ↦ elim (Option-cases (lib.scheme c)) [
        | inl bad ↦ absurd (ground (arith, full, remote, bad))
        | inr (scheme, e) ↦
            let (k, safe) =
              with_scheme-KeptLink c scheme {target = target} e (ground (arith, full, remote, e)) in
            (sym k, beq_differ c "" full, safe)
      ]
    ]
  ]

  kept_if_safe : (c : String) → c ≢ "" → KeptLink lib c → linked lib c ≡ some (some c)
  unfolding linked is_empty with_scheme
  kept_if_safe c n (inl local) = ground (arith, eq_iff c "")
  kept_if_safe c n (inr (inl e)) = ground (arith, eq_iff c "", starts_with-slashes c, e)
  kept_if_safe c n (inr (inr (scheme, e, allowed))) =
      ground (arith, eq_iff c "", starts_with-slashes c, e)

  -- The href of a link survives exactly as its stripped value, and exactly when that is not empty
  -- and starts with a slash or a hash sign, has no scheme, or has the scheme http, https or
  -- mailto. A value `//host`, which names a host alone, therefore survives.
  pub safe_href_iff :
      (value : Option String) (target : String)
      → safe_href lib value ≡ some (some target)
        ↔ ((target ≡ lib.strip (value_or_empty value)) × (target ≢ "") × KeptLink lib target)
  unfolding safe_href
  safe_href_iff value target = (
    (λ h. let (e, n, safe) = kept_link _ target h in (e, rw e n, rw e safe)),
    (λ (e, n, safe). rw (← e) (kept_if_safe target n safe)),
  )

  href_attribute-SafeAttribute :
      (tag name : String) (value href : Option String)
      → contains name (allowed_attributes tag) ≡ true
      → name ≡ "href"
      → safe_href lib value ≡ some href
      → All (SafeAttribute lib tag) (href_attribute lib href)
  unfolding href_attribute
  href_attribute-SafeAttribute tag name value none allowed e h = tt
  href_attribute-SafeAttribute tag name value (some target) allowed e h =
      let (_, _, safe) = (safe_href_iff value target).0 h in
      (
        (
          subst (λ n. contains n (allowed_attributes tag) ≡ true) e allowed,
          (target, refl, (λ same. safe)),
        ),
        tt,
      )

  attribute-SafeAttribute :
      (tag name : String) (value : Option String) {kept : List (String × String)}
      → attribute lib tag name value ≡ some kept
      → All (SafeAttribute lib tag) kept
  unfolding attribute
  attribute-SafeAttribute tag name value h =
      elim (Bool-cases (contains name (allowed_attributes tag))) [
        | inr other ↦
            subst (All (SafeAttribute lib tag)) {x = []} (some_inj (ground (arith, other))) tt
        | inl allowed ↦ elim (Bool-cases (name == "href")) [
          | inr plain ↦
              subst (All (SafeAttribute lib tag))
                {x = (name, lib.escape (value_or_empty value)) ∷ []}
                (some_inj (ground (arith, allowed, plain)))
                (
                  (
                    allowed,
                    (value_or_empty value, refl, (λ e. absurd (beq_differ name "href" plain e))),
                  ),
                  tt,
                )
          | inl link ↦ elim (Option-cases (safe_href lib value)) [
            | inl bad ↦ absurd (ground (arith, allowed, link, bad))
            | inr (href, e) ↦
                subst (All (SafeAttribute lib tag)) {x = href_attribute lib href}
                  (some_inj (ground (arith, allowed, link, e)))
                  (href_attribute-SafeAttribute tag name value href allowed
                    (beq→eq name "href" link) e)
          ]
        ]
      ]

  pub attributes-SafeAttribute :
      (tag : String) (attrs : Attrs) {kept : List (String × String)}
      → attributes lib tag attrs ≡ some kept
      → All (SafeAttribute lib tag) kept
  unfolding attributes
  attributes-SafeAttribute tag [] h = subst (All (SafeAttribute lib tag)) (some_inj h) tt
  attributes-SafeAttribute tag ((name, value) ∷ rest) h =
      elim (Option-cases (attribute lib tag name value)) [
        | inl bad ↦ absurd (ground (arith, bad))
        | inr (first, e) ↦ elim (Option-cases (attributes lib tag rest)) [
          | inl worse ↦ absurd (ground (arith, e, worse))
          | inr (more, k) ↦
              subst (All (SafeAttribute lib tag)) {x = first ++ more}
                (some_inj (ground (arith, e, k)))
                (All-append (SafeAttribute lib tag) first more
                  (attribute-SafeAttribute tag name value e) (attributes-SafeAttribute tag rest k))
        ]
      ]
