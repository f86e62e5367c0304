-- ===== src/RichText/Document/Feeding.antt =====
-- Handing events over one after the other: feed of src/pwms/utils/richtext.py's parser.
use pwms_project.Prelude.{
  ◌≡◌, refl, ap, Option, none, some, List, [], ◌∷◌, ◌++◌, String, arith, string_eq, Option-cases,
  inl, inr, append_assoc,
}
use pwms_project.RichText.{Texts, ParserEvent, Piece, Sanitizer, handle, feed}
use pwms_project.RichText.Document.{followed_by}

abbrev pub state : List Piece → List String → List String → Sanitizer
state out open_tags drop = record { out = out; open_tags = open_tags; drop = drop }

unfoldable pub after_pieces : List Piece → List String → Option (List Piece) → Option Sanitizer
after_pieces out tags none = none
after_pieces out tags (some pieces) = some (state (out ++ pieces) tags [])

pub after_pieces-followed_by :
    (out pieces : List Piece) (tags : List String) (o : Option (List Piece))
    → after_pieces (out ++ pieces) tags o ≡ after_pieces out tags (followed_by (some pieces) o)
unfolding after_pieces followed_by
after_pieces-followed_by out pieces tags none = refl
after_pieces-followed_by out pieces tags (some more) =
    ap (λ l. some (state l tags [])) (append_assoc out pieces more)

module _ (lib : Texts) where
  unfoldable pub then_feed : List ParserEvent → Option Sanitizer → Option Sanitizer
  then_feed ys none = none
  then_feed ys (some s) = feed lib ys s

  pub feed-append :
      (xs ys : List ParserEvent) (s : Sanitizer)
      → feed lib (xs ++ ys) s ≡ then_feed ys (feed lib xs s)
  unfolding feed then_feed
  feed-append [] ys s = refl
  feed-append (x ∷ xs) ys s = elim (Option-cases (handle lib x s)) [
    | inl bad ↦ ground (arith, bad)
    | inr (t, e) ↦ ground (arith, e, feed-append xs ys t)
  ]

  -- Outside dropped content the events append these pieces and leave the open tags as they were.
  abbrev pub Shows : List ParserEvent → Option (List Piece) → Type 0
  Shows es o =
      (out : List Piece) (tags : List String)
      → feed lib es (state out tags []) ≡ after_pieces out tags o

  pub feed-step :
      (x : ParserEvent) (rest : List ParserEvent) (s t : Sanitizer)
      → handle lib x s ≡ some t
      → feed lib (x ∷ rest) s ≡ feed lib rest t
  unfolding feed
  feed-step x rest s t e = ground (arith, e)
