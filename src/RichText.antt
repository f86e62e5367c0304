-- ===== src/RichText.antt =====
-- The sanitizer of rich text: src/pwms/utils/richtext.py. The HTML parser of the standard library
-- hands over events; a stack has its top first.
pub mod Links
pub mod Markup
pub mod Safety
pub mod Dropped
pub mod Document
use Prim.Native.Char.{code}
use Prim.Native.String.{◌++◌ as join}
use pwms_project.Prelude.{
  ℕ, Bool, true, false, not, ◌&&◌, ◌||◌, Option, none, some, List, [], ◌∷◌, ◌++◌, String,
  if◌then◌else◌, ◌==◌, string_eq, nat_eq, contains, exists,
}
use mathlib.Core.Option

-- (name, value) of an attribute as the parser reads it, `none` for one without a value
abbrev pub Attrs : Type 0
Attrs = List (String × Option String)

-- The calls of the hooks of HTMLParser.
pub data ParserEvent : Type 0 where
  starttag : String → Attrs → ParserEvent
  startendtag : String → Attrs → ParserEvent
  endtag : String → ParserEvent
  content : String → ParserEvent
  comment : String → ParserEvent
  decl : String → ParserEvent
  pi : String → ParserEvent

-- What str, urlparse, html, HTMLParser and django's escape and strip_tags do; `scheme` is that of urlparse, `none`
-- where it raises.
pub record Texts : Type 0 where
  pub strip : String → String
  pub lower : String → String
  pub scheme : String → Option String
  pub escape : String → String
  pub strip_tags : String → String
  pub unescape : String → String
  pub parse : String → List ParserEvent

abbrev pub allowed_tags : List String
allowed_tags =
    "p" ∷ "br" ∷ "div" ∷ "span" ∷ "strong" ∷ "b" ∷ "em" ∷ "i" ∷ "u" ∷ "s" ∷ "sub" ∷ "sup" ∷ "ul"
    ∷ "ol" ∷ "li" ∷ "h1" ∷ "h2" ∷ "h3" ∷ "h4" ∷ "blockquote" ∷ "a" ∷ []

unfoldable pub allowed_attributes : String → List String
allowed_attributes tag = if tag == "a" then "href" ∷ "title" ∷ "target" ∷ "rel" ∷ [] else []

abbrev pub void_tags : List String
void_tags = "br" ∷ []

abbrev pub drop_content_tags : List String
drop_content_tags =
    "script" ∷ "style" ∷ "iframe" ∷ "object" ∷ "embed" ∷ "noscript" ∷ "template" ∷ "svg" ∷ "math"
    ∷ []

abbrev pub allowed_schemes : List String
allowed_schemes = "http" ∷ "https" ∷ "mailto" ∷ []

unfoldable pub is_allowed : String → Bool
is_allowed tag = contains tag allowed_tags

unfoldable pub is_void : String → Bool
is_void tag = contains tag void_tags

unfoldable pub drops_content : String → Bool
drops_content tag = contains tag drop_content_tags

unfoldable pub is_allowed_scheme : String → Bool
is_allowed_scheme scheme = contains scheme allowed_schemes

unfoldable pub is_empty : String → Bool
is_empty s = s == ""

-- s.startswith(prefix)
unfoldable pub starts_with : String → String → Bool
starts_with s String.[] = true
starts_with String.[] (String.◌∷◌ c prefix) = false
starts_with (String.◌∷◌ d s) (String.◌∷◌ c prefix) = code d == code c && starts_with s prefix

unfoldable pub value_or_empty : Option String → String
value_or_empty none = ""
value_or_empty (some v) = v

-- A piece of the output: an opening tag with its rendered attributes, a closing tag, a text.
pub data Piece : Type 0 where
  opened : String → List (String × String) → Piece
  closed : String → Piece
  shown : String → Piece

pub record Sanitizer : Type 0 where
  pub out : List Piece
  pub open_tags : List String
  pub drop : List String

unfoldable pub init : Sanitizer
init = record { out = []; open_tags = []; drop = [] }

-- The loop over the open tags that stops once it has closed `tag`.
unfoldable pub close_through : String → List String → List Piece × List String
close_through tag [] = ([], [])
close_through tag (o ∷ rest) = elim (o == tag) [
  | true ↦ (closed o ∷ [], rest)
  | false ↦ let (pieces, left) = close_through tag rest in (closed o ∷ pieces, left)
]

-- The loop that pops the dropped tags up to `tag`.
unfoldable pub pop_through : String → List String → List String
pop_through tag [] = []
pop_through tag (o ∷ rest) = elim (o == tag) [ true ↦ rest | false ↦ pop_through tag rest ]

unfoldable pub is_dropping : Sanitizer → Bool
is_dropping s = elim s.drop [ [] ↦ false | t ∷ rest ↦ true ]

unfoldable pub close_tag : String → Sanitizer → Sanitizer
close_tag tag s =
    let (pieces, left) = close_through tag s.open_tags in
    record s { out = s.out ++ pieces; open_tags = left }

unfoldable pub handle_endtag : String → Sanitizer → Sanitizer
handle_endtag tag s =
    if is_dropping s
    then if contains tag s.drop then record s { drop = pop_through tag s.drop } else s
    else if is_void tag || not (is_allowed tag)
    then s
    else if contains tag s.open_tags
    then close_tag tag s
    else s

unfoldable pub closing : List String → List Piece
closing [] = []
closing (o ∷ rest) = closed o ∷ closing rest

unfoldable pub finished : Sanitizer → List Piece
finished s = s.out ++ closing s.open_tags

unfoldable pub open_tag : String → List (String × String) → Sanitizer → Sanitizer
open_tag tag attrs s = record s {
  out = s.out ++ (opened tag attrs ∷ []);
  open_tags = if is_void tag then s.open_tags else tag ∷ s.open_tags;
}

-- `none` is the ValueError of urlparse, which nothing here catches.
module _ (lib : Texts) where
  unfoldable pub with_scheme : String → String → Option String
  with_scheme candidate scheme =
      if not (is_empty scheme)
      then if is_allowed_scheme (lib.lower scheme) then some candidate else none
      else if starts_with candidate "//"
      then none
      else some candidate

  -- on the stripped value
  unfoldable pub linked : String → Option (Option String)
  linked candidate =
      if is_empty candidate
      then some none
      else if starts_with candidate "/" || starts_with candidate "#"
      then some (some candidate)
      else elim (lib.scheme candidate) [
        | none ↦ none
        | some scheme ↦ some (with_scheme candidate scheme)
      ]

  unfoldable pub safe_href : Option String → Option (Option String)
  safe_href value = linked (lib.strip (value_or_empty value))

  unfoldable pub href_attribute : Option String → List (String × String)
  href_attribute none = []
  href_attribute (some href) = ("href", lib.escape href) ∷ []

  unfoldable pub attribute : String → String → Option String → Option (List (String × String))
  attribute tag name value =
      if not (contains name (allowed_attributes tag))
      then some []
      else if name == "href"
      then elim (safe_href value) [ none ↦ none | some href ↦ some (href_attribute href) ]
      else some ((name, lib.escape (value_or_empty value)) ∷ [])

  unfoldable pub attributes : String → Attrs → Option (List (String × String))
  attributes tag [] = some []
  attributes tag ((name, value) ∷ rest) = elim (attribute tag name value) [
    | none ↦ none
    | some first ↦ elim (attributes tag rest) [ none ↦ none | some more ↦ some (first ++ more) ]
  ]

  unfoldable pub handle_starttag : String → Attrs → Sanitizer → Option Sanitizer
  handle_starttag tag attrs s =
      if is_dropping s
      then some (record s { drop = tag ∷ s.drop })
      else if drops_content tag
      then some (record s { drop = tag ∷ s.drop })
      else if not (is_allowed tag)
      then some s
      else elim (attributes tag attrs) [ none ↦ none | some kept ↦ some (open_tag tag kept s) ]

  unfoldable pub handle_data : String → Sanitizer → Sanitizer
  handle_data words s =
      if is_dropping s then s else record s { out = s.out ++ (shown (lib.escape words) ∷ []) }

  unfoldable pub handle : ParserEvent → Sanitizer → Option Sanitizer
  handle (starttag tag attrs) s = handle_starttag tag attrs s
  handle (startendtag tag attrs) s = handle_starttag tag attrs s
  handle (endtag tag) s = some (handle_endtag tag s)
  handle (content words) s = some (handle_data words s)
  handle (comment words) s = some s
  handle (decl words) s = some s
  handle (pi words) s = some s

  unfoldable pub feed : List ParserEvent → Sanitizer → Option Sanitizer
  feed [] s = some s
  feed (e ∷ rest) s = elim (handle e s) [ none ↦ none | some s₁ ↦ feed rest s₁ ]

  unfoldable pub sanitized : List ParserEvent → Option (List Piece)
  sanitized events = elim (feed events init) [ none ↦ none | some s ↦ some (finished s) ]

unfoldable pub written_attributes : List (String × String) → String
written_attributes [] = ""
written_attributes ((name, value) ∷ rest) =
    join " " (join name (join "=\"" (join value (join "\"" (written_attributes rest)))))

unfoldable pub markup_text : Piece → String
markup_text (opened tag attrs) = join "<" (join tag (join (written_attributes attrs) ">"))
markup_text (closed tag) = join "</" (join tag ">")
markup_text (shown words) = words

unfoldable pub joined : List Piece → String
joined [] = ""
joined (p ∷ rest) = join (markup_text p) (joined rest)

unfoldable pub sanitize_html : Texts → Option String → Option String
sanitize_html lib value =
    if is_empty (value_or_empty value)
    then some ""
    else elim (sanitized lib (lib.parse (value_or_empty value))) [
      | none ↦ none
      | some pieces ↦ some (joined pieces)
    ]

abbrev pub block_markers : List String
block_markers =
    "<p" ∷ "<div" ∷ "<ul" ∷ "<ol" ∷ "<li" ∷ "<h1" ∷ "<h2" ∷ "<h3" ∷ "<h4" ∷ "<blockquote" ∷ "<br"
    ∷ []

-- marker in text, at the start or further on
unfoldable pub occurs : String → String → Bool
occurs marker String.[] = is_empty marker
occurs marker (String.◌∷◌ c rest) =
    let later = occurs marker rest in starts_with (String.◌∷◌ c rest) marker || later

-- text.replace("\n", "<br>")
unfoldable pub with_breaks : String → String
with_breaks String.[] = ""
with_breaks (String.◌∷◌ c rest) =
    let later = with_breaks rest in if code c == 10 then join "<br>" later else String.◌∷◌ c later

unfoldable pub broken : String → String
broken html =
    if not (is_empty html) && not (exists (λ m. occurs m html) block_markers)
    then with_breaks html
    else html

unfoldable pub render_rich_text : Texts → Option String → Option String
render_rich_text lib value = Option.map broken (sanitize_html lib value)

unfoldable pub rich_text_to_text : Texts → Option String → Option String
rich_text_to_text lib value =
    Option.map (λ html. lib.unescape (lib.strip_tags html)) (sanitize_html lib value)
