-- ===== src/RichText/Dropped.antt =====
-- An element whose content is dropped and that is never closed: the drop stack of
-- src/pwms/utils/richtext.py.
use text.Mathlib.TextEquality.{eq_iff}
use pwms_project.Prelude.{
  ◌≡◌, refl, ◌∙◌, Bool, true, false, some, List, [], ◌∷◌, ◌++◌, String, arith, exists, contains,
  string_eq, ◌==◌, Bool-cases, inl, inr,
}
use pwms_project.RichText.{
  Texts, ParserEvent, starttag, endtag, startendtag, decl, pi, content, comment, Piece, Sanitizer,
  Attrs, drops_content, is_dropping, pop_through, init, handle_starttag, handle_endtag, handle_data,
  handle, feed, finished, sanitized,
}
use pwms_project.RichText.Document.Feeding.{state, then_feed, feed-append, feed-step}

unfoldable pub closes : String → ParserEvent → Bool
closes tag (endtag other) = other == tag
closes tag (starttag other attrs) = false
closes tag (startendtag other attrs) = false
closes tag (content w) = false
closes tag (comment w) = false
closes tag (decl w) = false
closes tag (pi w) = false

pop_through-keeps :
    (junk : List String) (tag other : String)
    → contains other (junk ++ (tag ∷ [])) ≡ true
    → (other == tag) ≡ false
    → (left : List String) × (pop_through other (junk ++ (tag ∷ [])) ≡ left ++ (tag ∷ []))
unfolding pop_through
pop_through-keeps [] tag other h n = absurd (ground (arith, n, h))
pop_through-keeps (j ∷ junk) tag other h n = elim (Bool-cases (j == other)) [
  | inl same ↦ (junk, ground (arith, same))
  | inr differs ↦
      let (left, e) =
        pop_through-keeps junk tag other
          (ground (arith, h, differs, eq_iff j other, eq_iff other j)) n in
      (left, ground (arith, differs, e))
]

module _ (lib : Texts) (tag : String) where
  is_dropping-under :
      (out : List Piece) (tags junk : List String)
      → is_dropping (state out tags (junk ++ (tag ∷ []))) ≡ true
  unfolding is_dropping
  is_dropping-under out tags [] = refl
  is_dropping-under out tags (j ∷ junk) = refl

  handle-unclosed :
      (e : ParserEvent) (out : List Piece) (tags junk : List String)
      → closes tag e ≡ false
      → (left : List String) × (handle lib e (state out tags (junk ++ (tag ∷ [])))
          ≡ some (state out tags (left ++ (tag ∷ []))))
  unfolding handle closes handle_starttag handle_endtag handle_data
  handle-unclosed (starttag other attrs) out tags junk h =
      (other ∷ junk, ground (arith, is_dropping-under out tags junk))
  handle-unclosed (startendtag other attrs) out tags junk h =
      (other ∷ junk, ground (arith, is_dropping-under out tags junk))
  handle-unclosed (endtag other) out tags junk h =
      elim (Bool-cases (contains other (junk ++ (tag ∷ [])))) [
        | inl inside ↦
            let (left, e) =
              pop_through-keeps junk tag other inside
                (ground (arith, h, eq_iff tag other, eq_iff other tag)) in
            (left, ground (arith, is_dropping-under out tags junk, inside, e))
        | inr outside ↦ (junk, ground (arith, is_dropping-under out tags junk, outside))
      ]
  handle-unclosed (content w) out tags junk h =
      (junk, ground (arith, is_dropping-under out tags junk))
  handle-unclosed (comment w) out tags junk h = (junk, refl)
  handle-unclosed (decl w) out tags junk h = (junk, refl)
  handle-unclosed (pi w) out tags junk h = (junk, refl)

  feed-unclosed :
      (es : List ParserEvent) (out : List Piece) (tags junk : List String)
      → exists (closes tag) es ≡ false
      → (left : List String) × (feed lib es (state out tags (junk ++ (tag ∷ [])))
          ≡ some (state out tags (left ++ (tag ∷ []))))
  unfolding feed
  feed-unclosed [] out tags junk h = (junk, refl)
  feed-unclosed (e ∷ es) out tags junk h =
      let (left, k) = handle-unclosed e out tags junk (ground (arith, h)) in
      let (more, q) = feed-unclosed es out tags left (ground (arith, h)) in
      (more, feed-step lib e es _ _ k ∙ q)

  start-clear :
      (attrs : Attrs) (s : Sanitizer)
      → s.drop ≡ []
      → drops_content tag ≡ true
      → handle lib (starttag tag attrs) s ≡ some (state s.out s.open_tags (tag ∷ []))
  unfolding handle handle_starttag is_dropping
  start-clear attrs s clear dropped = ground (arith, clear, dropped)

  start-unclosed :
      (es : List ParserEvent) (attrs : Attrs) (s : Sanitizer)
      → s.drop ≡ []
      → drops_content tag ≡ true
      → exists (closes tag) es ≡ false
      → (left : List String) × (feed lib (starttag tag attrs ∷ es) s
          ≡ some (state s.out s.open_tags (left ++ (tag ∷ []))))
  start-unclosed es attrs s clear dropped h =
      let (left, e) = feed-unclosed es s.out s.open_tags [] h in
      (left, feed-step lib (starttag tag attrs) es _ _ (start-clear attrs s clear dropped) ∙ e)

  -- When a tag whose content is dropped opens outside dropped content and its closing tag does not
  -- follow, everything that follows is lost: the output is that of the events before it. An
  -- `embed`, which has no closing tag in HTML, is such a tag.
  pub sanitized-unclosed :
      (before after : List ParserEvent) (attrs : Attrs) {s : Sanitizer}
      → feed lib before init ≡ some s
      → s.drop ≡ []
      → drops_content tag ≡ true
      → exists (closes tag) after ≡ false
      → sanitized lib (before ++ (starttag tag attrs ∷ after)) ≡ sanitized lib before
  unfolding sanitized finished then_feed
  sanitized-unclosed before after attrs {s} e clear dropped h =
      let (left, k) = start-unclosed after attrs s clear dropped h in
      ground (arith, e, k, feed-append lib before (starttag tag attrs ∷ after) init)
