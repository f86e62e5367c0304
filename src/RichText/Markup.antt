-- ===== src/RichText/Markup.antt =====
-- What may be displayed, as a grammar: the markup that src/pwms/utils/richtext.py reduces to.
use pwms_project.Prelude.{
  ◌≡◌, sym, subst, ap, true, false, List, [], ◌∷◌, ◌++◌, String, All, string_eq, ◌==◌, Bool-cases,
  inl, inr, append-nil, append_assoc,
}
use pwms_project.RichText.{
  Texts, Piece, opened, closed, shown, is_allowed, is_void, close_through, closing,
}
use pwms_project.RichText.Links.{SafeAttribute}

-- Escaped text, line breaks, and elements of allowed tags, closed in the order of their nesting.
pub data Markup (lib : Texts) : List Piece → Type 0 where
  empty : Markup lib []
  words :
      (s : String) {rest : List Piece} → Markup lib rest → Markup lib (shown (lib.escape s) ∷ rest)
  break :
      (tag : String) (attrs : List (String × String)) {rest : List Piece}
      → is_void tag ≡ true
      → is_allowed tag ≡ true
      → All (SafeAttribute lib tag) attrs
      → Markup lib rest
      → Markup lib (opened tag attrs ∷ rest)
  element :
      (tag : String) (attrs : List (String × String)) {inner rest : List Piece}
      → is_void tag ≡ false
      → is_allowed tag ≡ true
      → All (SafeAttribute lib tag) attrs
      → Markup lib inner
      → Markup lib rest
      → Markup lib (opened tag attrs ∷ inner ++ (closed tag ∷ rest))

-- Markup in which the elements of `tags` are still open, the innermost first.
pub data Unfinished (lib : Texts) : List String → List Piece → Type 0 where
  whole : {out : List Piece} → Markup lib out → Unfinished lib [] out
  inside :
      (tag : String) (attrs : List (String × String)) {tags : List String}
      {before inner out : List Piece}
      → is_void tag ≡ false
      → is_allowed tag ≡ true
      → All (SafeAttribute lib tag) attrs
      → Unfinished lib tags before
      → Markup lib inner
      → out ≡ before ++ (opened tag attrs ∷ inner)
      → Unfinished lib (tag ∷ tags) out

module _ {lib : Texts} where
  Markup-append : {xs ys : List Piece} → Markup lib xs → Markup lib ys → Markup lib (xs ++ ys)
  Markup-append empty k = k
  Markup-append (words s h) k = words s (Markup-append h k)
  Markup-append (break tag attrs v a s h) k = break tag attrs v a s (Markup-append h k)
  Markup-append {ys = ys} (element tag attrs {inner = inner} {rest = rest} v a s h more) k =
      subst (Markup lib)
        (ap (λ l. opened tag attrs ∷ l) (sym (append_assoc inner (closed tag ∷ rest) ys)))
        (element tag attrs v a s h (Markup-append more k))

  pub Unfinished-append :
      {tags : List String} {out more : List Piece}
      → Unfinished lib tags out
      → Markup lib more
      → Unfinished lib tags (out ++ more)
  Unfinished-append (whole h) k = whole (Markup-append h k)
  Unfinished-append {more = more}
        (inside tag attrs {before = before} {inner = inner} v a s under h e) k =
      inside tag attrs v a s under (Markup-append h k)
        (rw e (append_assoc before (opened tag attrs ∷ inner) more))

  Unfinished-close :
      {tag : String} {tags : List String} {out : List Piece}
      → Unfinished lib (tag ∷ tags) out
      → Unfinished lib tags (out ++ (closed tag ∷ []))
  Unfinished-close {tag = tag} (inside _ attrs {before = before} {inner = inner} v a s under h e) =
      rw e (
        rw (append_assoc before (opened tag attrs ∷ inner) (closed tag ∷ []))
          (Unfinished-append under (element tag attrs v a s h empty)))

  pub Unfinished-close_through :
      (tag : String) (tags : List String) {out : List Piece}
      → Unfinished lib tags out
      → Unfinished lib (close_through tag tags).1 (out ++ (close_through tag tags).0)
  unfolding close_through
  Unfinished-close_through tag [] {out} h = rw (append-nil out) h
  Unfinished-close_through tag (o ∷ rest) {out} h = elim (Bool-cases (o == tag)) [
    | inl here ↦ rw (close_through, here) (Unfinished-close h)
    | inr further ↦
        rw (close_through, further)
          (rw (← append_assoc out (closed o ∷ []) (close_through tag rest).0)
            (Unfinished-close_through tag rest (Unfinished-close h)))
  ]

  pub Markup-closing :
      (tags : List String) {out : List Piece}
      → Unfinished lib tags out
      → Markup lib (out ++ closing tags)
  unfolding closing
  Markup-closing [] {out} (whole h) = rw (append-nil out) h
  Markup-closing (o ∷ rest) {out} h =
      rw (← append_assoc out (closed o ∷ []) (closing rest))
        (Markup-closing rest (Unfinished-close h))
