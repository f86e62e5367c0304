-- ===== src/RichText/Safety.antt =====
-- What the sanitizer lets through, whatever the parser hands it: src/pwms/utils/richtext.py.
use pwms_project.Prelude.{
  ◌≡◌, refl, subst, Bool, true, false, not, ◌||◌, some, List, [], ◌∷◌, ◌++◌, String, arith,
  contains, string_eq, if◌then◌else◌, Bool-cases, Option-cases, inl, inr, some_inj,
}
use pwms_project.RichText.{
  Texts, ParserEvent, starttag, startendtag, endtag, content, comment, decl, pi, Piece, Sanitizer,
  Attrs, is_allowed, is_void, drops_content, is_dropping, open_tag, close_tag, attributes, init,
  handle_starttag, handle_endtag, handle_data, handle, feed, finished, closing, sanitized,
}
use pwms_project.RichText.Links.{attributes-SafeAttribute}
use pwms_project.RichText.Markup.{
  Markup, Unfinished, empty, words, break, whole, inside, Unfinished-append,
  Unfinished-close_through, Markup-closing,
}

module _ (lib : Texts) where
  abbrev Sound : Sanitizer → Type 0
  Sound s = Unfinished lib s.open_tags s.out

  Sound-if : (b : Bool) (s t : Sanitizer) → Sound s → Sound t → Sound (if b then s else t)
  Sound-if true s t h k = h
  Sound-if false s t h k = k

  open_tag-Sound :
      (tag : String) (attrs : Attrs) (s : Sanitizer) {kept : List (String × String)}
      → is_allowed tag ≡ true
      → attributes lib tag attrs ≡ some kept
      → Sound s
      → Sound (open_tag tag kept s)
  unfolding open_tag
  open_tag-Sound tag attrs s allowed e h = elim (Bool-cases (is_void tag)) [
    | inl leaf ↦ rw leaf (
        Unfinished-append h
          (break tag _ leaf allowed (attributes-SafeAttribute lib tag attrs e) empty))
    | inr nests ↦
        rw nests
          (inside tag _ nests allowed (attributes-SafeAttribute lib tag attrs e) h empty refl)
  ]

  handle_starttag-Sound :
      (tag : String) (attrs : Attrs) (s : Sanitizer) {s₁ : Sanitizer}
      → handle_starttag lib tag attrs s ≡ some s₁
      → Sound s
      → Sound s₁
  unfolding handle_starttag
  handle_starttag-Sound tag attrs s {s₁} e h = elim (Bool-cases (is_dropping s)) [
    | inl dropping ↦
        subst Sound {x = record s { drop = tag ∷ s.drop }} {y = s₁}
          (some_inj (ground (arith, dropping))) h
    | inr showing ↦ elim (Bool-cases (drops_content tag)) [
      | inl starts_drop ↦
          subst Sound {x = record s { drop = tag ∷ s.drop }} {y = s₁}
            (some_inj (ground (arith, showing, starts_drop))) h
      | inr keeps ↦ elim (Bool-cases (is_allowed tag)) [
        | inr unknown ↦
            subst Sound {x = s} {y = s₁} (some_inj (ground (arith, showing, keeps, unknown))) h
        | inl allowed ↦ elim (Option-cases (attributes lib tag attrs)) [
          | inl bad ↦ absurd (ground (arith, showing, keeps, allowed, bad))
          | inr (kept, k) ↦
              subst Sound {x = open_tag tag kept s} {y = s₁}
                (some_inj (ground (arith, showing, keeps, allowed, k)))
                (open_tag-Sound tag attrs s allowed k h)
        ]
      ]
    ]
  ]

  handle_endtag-Sound : (tag : String) (s : Sanitizer) → Sound s → Sound (handle_endtag tag s)
  unfolding handle_endtag close_tag
  handle_endtag-Sound tag s h =
      Sound-if (is_dropping s) _ _ (Sound-if (contains tag s.drop) _ _ h h) (
        Sound-if (is_void tag || not (is_allowed tag)) _ _ h
          (Sound-if (contains tag s.open_tags) _ _ (Unfinished-close_through tag s.open_tags h) h))

  handle_data-Sound : (w : String) (s : Sanitizer) → Sound s → Sound (handle_data lib w s)
  unfolding handle_data
  handle_data-Sound w s h = elim (Bool-cases (is_dropping s)) [
    | inl dropping ↦ rw dropping h
    | inr showing ↦ rw showing (Unfinished-append h (words w empty))
  ]

  handle-Sound :
      (e : ParserEvent) (s : Sanitizer) {s₁ : Sanitizer}
      → handle lib e s ≡ some s₁
      → Sound s
      → Sound s₁
  unfolding handle
  handle-Sound (starttag tag attrs) s e h = handle_starttag-Sound tag attrs s e h
  handle-Sound (startendtag tag attrs) s e h = handle_starttag-Sound tag attrs s e h
  handle-Sound (endtag tag) s e h =
      subst Sound {x = handle_endtag tag s} (some_inj e) (handle_endtag-Sound tag s h)
  handle-Sound (content w) s e h = subst Sound (some_inj e) (handle_data-Sound w s h)
  handle-Sound (comment w) s e h = subst Sound (some_inj e) h
  handle-Sound (decl w) s e h = subst Sound (some_inj e) h
  handle-Sound (pi w) s e h = subst Sound (some_inj e) h

  feed-Sound :
      (events : List ParserEvent) (s : Sanitizer) {s₁ : Sanitizer}
      → feed lib events s ≡ some s₁
      → Sound s
      → Sound s₁
  unfolding feed
  feed-Sound [] s e h = subst Sound (some_inj e) h
  feed-Sound (x ∷ rest) s e h = elim (Option-cases (handle lib x s)) [
    | inl bad ↦ absurd (ground (arith, bad))
    | inr (s₁, k) ↦ feed-Sound rest s₁ (rw (feed, k) at e) (handle-Sound x s k h)
  ]

  -- Whatever events the parser reports, in any order and however they nest: if no href makes
  -- urlparse raise, the output is markup of the grammar `Markup`. So every tag is one of the
  -- allowed ones, every element but `br` is closed and the elements nest, every attribute is
  -- allowed on its tag and has an escaped value, and every text is escaped. Every href starts with
  -- `/` or `#`, or urlparse finds no scheme in it or one of those that are allowed; so none has
  -- another scheme, but one may be `//host`, a link to another site, which the docstring of
  -- _safe_href says is rejected.
  pub sanitized-Markup :
      (events : List ParserEvent) {pieces : List Piece}
      → sanitized lib events ≡ some pieces
      → Markup lib pieces
  unfolding sanitized finished init
  sanitized-Markup events e = elim (Option-cases (feed lib events init)) [
    | inl bad ↦ absurd (ground (arith, bad))
    | inr (s, k) ↦
        subst (Markup lib) {x = s.out ++ closing s.open_tags} (some_inj (ground (arith, k)))
          (Markup-closing s.open_tags (feed-Sound events init k (whole empty)))
  ]
