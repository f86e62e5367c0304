-- ===== src/RichText/Document/Nodes.antt =====
-- One node of a tree at a time: the hooks of src/pwms/utils/richtext.py.
use pwms_project.Prelude.{
  ◌≡◌, ap, ◌∙◌, Bool, true, false, not, ◌||◌, Option, none, some, List, [], ◌∷◌, ◌++◌, String,
  if◌then◌else◌, arith, string_eq, Bool-cases, Option-cases, inl, inr, beq_refl,
}
use pwms_project.RichText.{
  Texts, ParserEvent, starttag, endtag, Piece, opened, closed, Attrs, is_allowed, is_void,
  drops_content, is_dropping, open_tag, close_tag, close_through, attributes, handle_starttag,
  handle_endtag, handle, feed,
}
use pwms_project.RichText.Document.{Doc, events, IsRegular, followed_by, opening}
use pwms_project.RichText.Document.Feeding.{
  state, after_pieces, then_feed, feed-append, after_pieces-followed_by, Shows, feed-step,
}
use pwms_project.RichText.Document.Dropping.{feed-dropping, handle_endtag-dropping}

module _ (lib : Texts) where
  module _ (out : List Piece) (tags : List String) (tag : String) (attrs : Attrs) where
    start-dropped :
        drops_content tag ≡ true
        → handle lib (starttag tag attrs) (state out tags []) ≡ some (state out tags (tag ∷ []))
    unfolding handle handle_starttag is_dropping
    start-dropped h = ground (arith, h)

    pub start-unknown :
        drops_content tag ≡ false
        → is_allowed tag ≡ false
        → handle lib (starttag tag attrs) (state out tags []) ≡ some (state out tags [])
    unfolding handle handle_starttag is_dropping
    start-unknown h k = ground (arith, h, k)

    start-allowed :
        (es : List ParserEvent)
        → drops_content tag ≡ false
        → is_allowed tag ≡ true
        → feed lib (starttag tag attrs ∷ es) (state out tags []) ≡ elim (attributes lib tag attrs) [
          | none ↦ none
          | some kept ↦ feed lib es (open_tag tag kept (state out tags []))
        ]
    unfolding feed handle handle_starttag is_dropping
    start-allowed es h k = elim (Option-cases (attributes lib tag attrs)) [
      | inl bad ↦ ground (arith, h, k, bad)
      | inr (kept, e) ↦ ground (arith, h, k, e)
    ]

  pub Shows-single :
      (tag : String) (attrs : Attrs) (es : List ParserEvent) (o : Option (List Piece))
      → drops_content tag ≡ false
      → (is_void tag || not (is_allowed tag)) ≡ true
      → Shows lib es o
      → Shows lib
          (starttag tag attrs ∷ es)
          (if is_allowed tag then followed_by (opening lib tag attrs) o else o)
  unfolding open_tag opening after_pieces followed_by
  Shows-single tag attrs es o n v ih out tags = elim (Bool-cases (is_allowed tag)) [
    | inr unknown ↦ rw unknown (
        feed-step lib (starttag tag attrs) es _ _ (start-unknown out tags tag attrs n unknown)
        ∙ ih out tags)
    | inl allowed ↦ elim (Option-cases (attributes lib tag attrs)) [
      | inl bad ↦ ground (arith, allowed, bad, start-allowed out tags tag attrs es n allowed)
      | inr (kept, e) ↦ ground (
        arith,
        allowed,
        v,
        e,
        start-allowed out tags tag attrs es n allowed,
        ih (out ++ (opened tag kept ∷ [])) tags,
        after_pieces-followed_by out (opened tag kept ∷ []) tags o,
      )
    ]
  ]

  pub Shows-dropped :
      (leaf : String → Bool) (tag : String) (attrs : Attrs) (inner : Doc) (es : List ParserEvent)
      (o : Option (List Piece))
      → leaf tag ≡ false
      → drops_content tag ≡ true
      → IsRegular leaf inner
      → Shows lib es o
      → Shows lib (starttag tag attrs ∷ (events inner ++ (endtag tag ∷ es))) o
  unfolding then_feed handle
  Shows-dropped leaf tag attrs inner es o l dropped h ih out tags =
      let (junk, leaves, e) = feed-dropping lib leaf inner out tags [] tag h in
      feed-step lib (starttag tag attrs) (events inner ++ (endtag tag ∷ es)) _ _
        (start-dropped out tags tag attrs dropped)
      ∙ (feed-append lib (events inner) (endtag tag ∷ es) (state out tags (tag ∷ []))
          ∙ (ap (then_feed lib (endtag tag ∷ es)) e
              ∙ (feed-step lib (endtag tag) es _ _
                    (ap some (handle_endtag-dropping lib leaf junk tag [] out tags leaves l))
                  ∙ ih out tags)))

  end-unknown :
      (out : List Piece) (tags : List String) (tag : String)
      → is_allowed tag ≡ false
      → handle_endtag tag (state out tags []) ≡ state out tags []
  unfolding handle_endtag is_dropping
  end-unknown out tags tag h = ground (arith, h)

  end-allowed :
      (out : List Piece) (tags : List String) (tag : String)
      → is_void tag ≡ false
      → is_allowed tag ≡ true
      → handle_endtag tag (state out (tag ∷ tags) []) ≡ state (out ++ (closed tag ∷ [])) tags []
  unfolding handle_endtag is_dropping close_tag close_through
  end-allowed out tags tag v h = ground (arith, h, v, beq_refl tag)

  pub Shows-closing :
      (tag : String) (xs es : List ParserEvent) (within o : Option (List Piece))
      → is_allowed tag ≡ false
      → Shows lib xs within
      → Shows lib es o
      → Shows lib (xs ++ (endtag tag ∷ es)) (followed_by within o)
  unfolding then_feed handle after_pieces followed_by
  Shows-closing tag xs es none o unknown h ih out tags =
      feed-append lib xs (endtag tag ∷ es) (state out tags [])
      ∙ ap (then_feed lib (endtag tag ∷ es)) (h out tags)
  Shows-closing tag xs es (some pieces) o unknown h ih out tags =
      feed-append lib xs (endtag tag ∷ es) (state out tags [])
      ∙ (ap (then_feed lib (endtag tag ∷ es)) (h out tags)
          ∙ (feed-step lib (endtag tag) es _ _
                (ap some (end-unknown (out ++ pieces) tags tag unknown))
              ∙ (ih (out ++ pieces) tags ∙ after_pieces-followed_by out pieces tags o)))

  feed-closing :
      (tag : String) (xs es : List ParserEvent) (within o : Option (List Piece)) (out : List Piece)
      (tags : List String)
      → is_void tag ≡ false
      → is_allowed tag ≡ true
      → Shows lib xs within
      → Shows lib es o
      → feed lib (xs ++ (endtag tag ∷ es)) (state out (tag ∷ tags) [])
        ≡ after_pieces out tags (followed_by within (followed_by (some (closed tag ∷ [])) o))
  unfolding then_feed handle after_pieces followed_by
  feed-closing tag xs es none o out tags v allowed h ih =
      feed-append lib xs (endtag tag ∷ es) (state out (tag ∷ tags) [])
      ∙ ap (then_feed lib (endtag tag ∷ es)) (h out (tag ∷ tags))
  feed-closing tag xs es (some pieces) o out tags v allowed h ih =
      feed-append lib xs (endtag tag ∷ es) (state out (tag ∷ tags) [])
      ∙ (ap (then_feed lib (endtag tag ∷ es)) (h out (tag ∷ tags))
          ∙ (feed-step lib (endtag tag) es _ _
                (ap some (end-allowed (out ++ pieces) tags tag v allowed))
              ∙ (ih ((out ++ pieces) ++ (closed tag ∷ [])) tags
                  ∙ (after_pieces-followed_by (out ++ pieces) (closed tag ∷ []) tags o
                      ∙ after_pieces-followed_by out pieces tags
                          (followed_by (some (closed tag ∷ [])) o)))))

  pub Shows-element :
      (tag : String) (attrs : Attrs) (xs es : List ParserEvent) (within o : Option (List Piece))
      → drops_content tag ≡ false
      → is_void tag ≡ false
      → is_allowed tag ≡ true
      → Shows lib xs within
      → Shows lib es o
      → Shows lib (starttag tag attrs ∷ (xs ++ (endtag tag ∷ es))) (
          followed_by
            (opening lib tag attrs)
            (followed_by within (followed_by (some (closed tag ∷ [])) o)))
  unfolding open_tag opening after_pieces followed_by
  Shows-element tag attrs xs es within o n v allowed h ih out tags =
      elim (Option-cases (attributes lib tag attrs)) [
        | inl bad ↦
            ground
              (arith, bad, start-allowed out tags tag attrs (xs ++ (endtag tag ∷ es)) n allowed)
        | inr (kept, e) ↦ ground (
          arith,
          v,
          e,
          start-allowed out tags tag attrs (xs ++ (endtag tag ∷ es)) n allowed,
          feed-closing tag xs es within o (out ++ (opened tag kept ∷ [])) tags v allowed h ih,
          after_pieces-followed_by out (opened tag kept ∷ []) tags
              (followed_by within (followed_by (some (closed tag ∷ [])) o)),
        )
      ]
