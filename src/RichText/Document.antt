-- ===== src/RichText/Document.antt =====
-- The sanitizer of src/pwms/utils/richtext.py on the events of a document tree, against a
-- recursion over the tree.
pub mod Feeding
pub mod Dropping
pub mod Nodes
pub mod Refines
use pwms_project.Prelude.{
  ◌≡◌, refl, sym, ap, ◌∙◌, Bool, true, false, not, ◌||◌, Option, none, some, List, [], ◌∷◌, ◌++◌,
  String, if◌then◌else◌, arith, All, All-append, contains, string_eq, ◌==◌, Bool-cases,
  Option-cases, inl, inr, some_inj, append-nil, append_assoc, beq_refl, beq→eq, ◌≢◌, true-false,
}
use pwms_project.RichText.{
  Texts, ParserEvent, starttag, endtag, content, comment, Piece, opened, closed, shown, Sanitizer,
  Attrs, is_allowed, is_void, drops_content, is_dropping, open_tag, close_tag, close_through,
  pop_through, attributes, init, handle_starttag, handle_endtag, handle_data, handle, feed,
  finished, closing, sanitized,
}

-- A tree of markup: each constructor is the first node with the nodes that follow it.
pub data Doc : Type 0 where
  finish : Doc
  says : String → Doc → Doc
  remarks : String → Doc → Doc
  single : String → Attrs → Doc → Doc
  element : String → Attrs → Doc → Doc → Doc

-- What the parser reports of the tree's text.
unfoldable pub events : Doc → List ParserEvent
events finish = []
events (says w rest) = content w ∷ events rest
events (remarks w rest) = comment w ∷ events rest
events (single tag attrs rest) = starttag tag attrs ∷ events rest
events (element tag attrs inner rest) =
    starttag tag attrs ∷ (events inner ++ (endtag tag ∷ events rest))

-- Names for which `leaf` holds have no closing tag: a line break, or a tag that is not displayed.
abbrev pub IsRegular : (String → Bool) → Doc → Type 0
IsRegular leaf finish = Unit
IsRegular leaf (says w rest) = IsRegular leaf rest
IsRegular leaf (remarks w rest) = IsRegular leaf rest
IsRegular leaf (single tag attrs rest) =
    (leaf tag ≡ true)
    × (drops_content tag ≡ false)
    × ((is_void tag || not (is_allowed tag)) ≡ true)
    × IsRegular leaf rest
IsRegular leaf (element tag attrs inner rest) =
    (leaf tag ≡ false) × (is_void tag ≡ false) × IsRegular leaf inner × IsRegular leaf rest

unfoldable pub followed_by : Option (List Piece) → Option (List Piece) → Option (List Piece)
followed_by none ys = none
followed_by (some xs) none = none
followed_by (some xs) (some ys) = some (xs ++ ys)

module _ (lib : Texts) where
  unfoldable pub opening : String → Attrs → Option (List Piece)
  opening tag attrs = elim (attributes lib tag attrs) [
    | none ↦ none
    | some kept ↦ some (opened tag kept ∷ [])
  ]

  -- What is displayed of a tree: allowed elements with their content, of other elements the
  -- content alone, and nothing of those whose content is dropped.
  unfoldable pub displayed : Doc → Option (List Piece)
  displayed finish = some []
  displayed (says w rest) = followed_by (some (shown (lib.escape w) ∷ [])) (displayed rest)
  displayed (remarks w rest) = displayed rest
  displayed (single tag attrs rest) =
      let after = displayed rest in
      if is_allowed tag then followed_by (opening tag attrs) after else after
  displayed (element tag attrs inner rest) =
      let after = displayed rest in
      let within = displayed inner in
      if drops_content tag
      then after
      else if is_allowed tag
      then followed_by (opening tag attrs)
          (followed_by within (followed_by (some (closed tag ∷ [])) after))
      else followed_by within after
