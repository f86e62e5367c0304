-- ===== src/RichText/Document/Dropping.antt =====
-- Inside content that is dropped: the drop stack of src/pwms/utils/richtext.py.
use pwms_project.Prelude.{
  ◌≡◌, refl, sym, ap, ◌∙◌, Bool, true, false, some, List, [], ◌∷◌, ◌++◌, String, arith, All,
  All-append, contains, string_eq, ◌==◌, Bool-cases, inl, inr, append_assoc, beq_refl, beq→eq,
  true-false,
}
use pwms_project.RichText.{
  Texts, endtag, Piece, is_dropping, pop_through, handle_starttag, handle_endtag, handle_data,
  handle, feed,
}
use pwms_project.RichText.Document.{Doc, finish, says, remarks, single, element, events, IsRegular}
use pwms_project.RichText.Document.Feeding.{state, then_feed, feed-append}

module _ (lib : Texts) where
  module _ (leaf : String → Bool) where
    contains-under :
        (junk : List String) (tag : String) (rest : List String)
        → contains tag (junk ++ (tag ∷ rest)) ≡ true
    contains-under [] tag rest = ground (arith, beq_refl tag)
    contains-under (j ∷ junk) tag rest = ground (arith, contains-under junk tag rest)

    pop_through-leaves :
        (junk : List String) (tag : String) (rest : List String)
        → All (λ t. leaf t ≡ true) junk
        → leaf tag ≡ false
        → pop_through tag (junk ++ (tag ∷ rest)) ≡ rest
    unfolding pop_through
    pop_through-leaves [] tag rest h n = ground (arith, beq_refl tag)
    pop_through-leaves (j ∷ junk) tag rest (l, h) n = elim (Bool-cases (j == tag)) [
      | inl same ↦ absurd (true-false l (rw (beq→eq j tag same) n))
      | inr other ↦ ground (arith, other, pop_through-leaves junk tag rest h n)
    ]

    pub handle_endtag-dropping :
        (junk : List String) (tag : String) (rest : List String) (out : List Piece)
        (tags : List String)
        → All (λ t. leaf t ≡ true) junk
        → leaf tag ≡ false
        → handle_endtag tag (state out tags (junk ++ (tag ∷ rest))) ≡ state out tags rest
    unfolding handle_endtag is_dropping
    handle_endtag-dropping [] tag rest out tags h n =
        ground (arith, contains-under [] tag rest, pop_through-leaves [] tag rest h n)
    handle_endtag-dropping (j ∷ junk) tag rest out tags h n =
        ground
          (arith, contains-under (j ∷ junk) tag rest, pop_through-leaves (j ∷ junk) tag rest h n)

    -- In dropped content a regular tree leaves at most leaves on the stack.
    pub feed-dropping :
        (doc : Doc) (out : List Piece) (tags drop : List String) (d : String)
        → IsRegular leaf doc
        → (junk : List String) × All (λ t. leaf t ≡ true) junk
          × (feed lib (events doc) (state out tags (d ∷ drop))
              ≡ some (state out tags (junk ++ (d ∷ drop))))
    unfolding feed events handle handle_starttag handle_data is_dropping then_feed
    feed-dropping finish out tags drop d h = ([], tt, refl)
    feed-dropping (says w rest) out tags drop d h = feed-dropping rest out tags drop d h
    feed-dropping (remarks w rest) out tags drop d h = feed-dropping rest out tags drop d h
    feed-dropping (single tag attrs rest) out tags drop d (l, _, _, h) =
        let (junk, leaves, e) = feed-dropping rest out tags (d ∷ drop) tag h in
        (
          junk ++ (tag ∷ []),
          All-append (λ t. leaf t ≡ true) junk (tag ∷ []) leaves (l, tt),
          e ∙ ap (λ l. some (state out tags l)) (sym (append_assoc junk (tag ∷ []) (d ∷ drop))),
        )
    feed-dropping (element tag attrs inner rest) out tags drop d (l, _, h, k) =
        let (junk, leaves, e) = feed-dropping inner out tags (d ∷ drop) tag h in
        let (more, after, q) = feed-dropping rest out tags drop d k in
        (
          more,
          after,
          feed-append lib (events inner) (endtag tag ∷ events rest)
                (state out tags (tag ∷ d ∷ drop))
              ∙ (ap (then_feed lib (endtag tag ∷ events rest)) e
                  ∙ (ap (feed lib (events rest))
                        (handle_endtag-dropping junk tag (d ∷ drop) out tags leaves l)
                      ∙ q)),
        )
