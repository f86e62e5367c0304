-- ===== src/RichText/Document/Refines.antt =====
-- The sanitizer of src/pwms/utils/richtext.py computes what the recursion over the tree displays.
use pwms_project.Prelude.{
  ◌≡◌, sym, ap, ◌∙◌, Bool, some, [], ◌∷◌, ◌++◌, String, arith, string_eq, Bool-cases, Option-cases,
  inl, inr, append-nil,
}
use pwms_project.RichText.{
  Texts, starttag, endtag, shown, is_allowed, drops_content, is_dropping, init, handle_data, handle,
  feed, finished, closing, sanitized,
}
use pwms_project.RichText.Document.{
  Doc, finish, says, remarks, single, element, events, IsRegular, displayed,
}
use pwms_project.RichText.Document.Feeding.{
  state, after_pieces, after_pieces-followed_by, Shows, feed-step,
}
use pwms_project.RichText.Document.Nodes.{
  Shows-single, Shows-dropped, Shows-closing, Shows-element, start-unknown,
}

module _ (lib : Texts) where
  Shows-displayed :
      (leaf : String → Bool) (doc : Doc)
      → IsRegular leaf doc
      → Shows lib (events doc) (displayed lib doc)
  unfolding feed events displayed after_pieces handle handle_data is_dropping
  Shows-displayed leaf finish h out tags = ap (λ l. some (state l tags [])) (sym (append-nil out))
  Shows-displayed leaf (says w rest) h out tags =
      Shows-displayed leaf rest h (out ++ (shown (lib.escape w) ∷ [])) tags
      ∙ after_pieces-followed_by out (shown (lib.escape w) ∷ []) tags (displayed lib rest)
  Shows-displayed leaf (remarks w rest) h out tags = Shows-displayed leaf rest h out tags
  Shows-displayed leaf (single tag attrs rest) (l, n, v, h) out tags =
      Shows-single lib tag attrs (events rest) (displayed lib rest) n v
        (Shows-displayed leaf rest h) out tags
  Shows-displayed leaf (element tag attrs inner rest) (l, v, h, k) out tags =
      let within = Shows-displayed leaf inner h in
      let after = Shows-displayed leaf rest k in
      elim (Bool-cases (drops_content tag)) [
        | inl drops ↦
            rw drops
              (Shows-dropped lib leaf tag attrs inner (events rest) _ l drops h after out tags)
        | inr n ↦ elim (Bool-cases (is_allowed tag)) [
          | inl allowed ↦
              rw (n, allowed)
                (Shows-element lib tag attrs (events inner) (events rest) _ _ n v allowed within
                  after out tags)
          | inr unknown ↦
              rw (n, unknown)
                (feed-step lib (starttag tag attrs) (events inner ++ (endtag tag ∷ events rest)) _ _
                    (start-unknown lib out tags tag attrs n unknown)
                  ∙ Shows-closing lib tag (events inner) (events rest) _ _ unknown within after out
                      tags)
        ]
      ]

  -- On the events of a document tree in which the names without a closing tag are not names of
  -- elements, are not tags whose content is dropped, and are `br` or not allowed, and in which
  -- `br` is no element, the sanitizer computes exactly what the recursion `displayed` does:
  -- allowed elements with their allowed attributes around their content, the content alone of
  -- other elements, nothing of those whose content is dropped, and no finished when an href that
  -- would be displayed makes urlparse raise.
  pub sanitized-displayed :
      (leaf : String → Bool) (doc : Doc)
      → IsRegular leaf doc
      → sanitized lib (events doc) ≡ displayed lib doc
  unfolding sanitized init after_pieces finished closing
  sanitized-displayed leaf doc h =
      let e = Shows-displayed leaf doc h [] [] in
      elim (Option-cases (displayed lib doc)) [
        | inl bad ↦ ground (arith, e, bad)
        | inr (pieces, k) ↦ ground (arith, e, k, append-nil pieces)
      ]
