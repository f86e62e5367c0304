-- ===== src/Examples/Agenda.antt =====
-- An agenda with a link, a script and an embedded film: the theorems on
-- src/pwms/utils/richtext.py.
use pwms_project.RichText.Dropped.{closes, sanitized-unclosed}
use pwms_project.RichText.{
  href_attribute, value_or_empty, is_empty, linked, allowed_attributes, attribute, attributes,
  is_allowed, drops_content, Texts, starttag, endtag, content, opened, closed, shown, starts_with,
  is_void, is_allowed_scheme, with_scheme, open_tag, close_tag, close_through, pop_through, handle,
  handle_starttag, handle_endtag, handle_data, is_dropping, finished, closing, markup_text,
  written_attributes, joined, broken, occurs, with_breaks, safe_href, sanitized, feed, init,
  render_rich_text, sanitize_html,
}
use pwms_project.RichText.Document.{
  opening, followed_by, Doc, finish, says, single, element, events, displayed,
}
use pwms_project.Prelude.{
  ◌≡◌, ◌≢◌, ◌||◌, refl, Bool, some, [], ◌∷◌, String, ◌↔◌, if◌then◌else◌, ◌==◌, string_eq,
}
use pwms_project.RichText.Links.{KeptLink, safe_href_iff}
use pwms_project.RichText.Markup.{Markup}
use pwms_project.RichText.Safety.{sanitized-Markup}
use pwms_project.RichText.Document.Refines.{sanitized-displayed}

abbrev notice : Doc
notice =
    element "p" (("class", some "x") ∷ [])
      (says "See " (
        element "a" (("href", some "//host") ∷ ("onclick", some "f()") ∷ []) (says "this" finish)
          (single "br" [] (single "img" [] finish))))
      (element "script" [] (says "f()" finish) (element "center" [] (says "End" finish) finish))

abbrev lib : Texts
lib = record {
  strip = λ s. s;
  lower = λ s. s;
  scheme = λ s. if starts_with s "javascript:" then some "javascript" else some "";
  escape = λ s. s;
  strip_tags = λ s. s;
  unescape = λ s. s;
  parse = λ s. events notice;
}

abbrev is_leaf : String → Bool
is_leaf t = t == "br" || t == "img"

displayed-notice :
    displayed lib notice
    ≡ some (
        opened "p" []
        ∷ shown "See "
        ∷ opened "a" (("href", "//host") ∷ [])
        ∷ shown "this"
        ∷ closed "a"
        ∷ opened "br" []
        ∷ closed "p"
        ∷ shown "End"
        ∷ [])
unfolding is_allowed is_void drops_content is_allowed_scheme allowed_attributes attribute attributes
    href_attribute with_scheme linked value_or_empty is_empty open_tag close_tag close_through
    pop_through handle handle_starttag handle_endtag handle_data is_dropping finished closing
    starts_with safe_href sanitized feed init displayed opening followed_by
displayed-notice = refl

render-notice :
    render_rich_text lib (some "x") ≡ some "<p>See <a href=\"//host\">this</a><br></p>End"
unfolding is_allowed is_void drops_content is_allowed_scheme allowed_attributes attribute attributes
    href_attribute with_scheme linked value_or_empty is_empty open_tag close_tag close_through
    pop_through handle handle_starttag handle_endtag handle_data is_dropping finished closing
    starts_with safe_href sanitized feed init events render_rich_text sanitize_html markup_text
    written_attributes joined broken occurs with_breaks
render-notice = refl

safe_href_iff_example : (safe_href lib (some "//host") ≡ some (some "//host")) ↔ (
    (◌≡◌ {A = String} "//host" "//host") × (◌≢◌ {A = String} "//host" "") × KeptLink lib "//host")
unfolding value_or_empty
safe_href_iff_example = safe_href_iff lib (some "//host") "//host"

sanitized-displayed_example : sanitized lib (events notice) ≡ displayed lib notice
unfolding is_void is_allowed drops_content
sanitized-displayed_example = sanitized-displayed lib is_leaf notice (
  refl,
  refl,
  (refl, refl, tt, (refl, refl, refl, (refl, refl, refl, tt))),
  (refl, refl, tt, (refl, refl, tt, tt)),
)

sanitized-Markup_example : Markup lib (shown "a" ∷ opened "b" [] ∷ closed "b" ∷ [])
unfolding is_allowed is_void drops_content is_allowed_scheme allowed_attributes attribute attributes
    href_attribute with_scheme linked value_or_empty is_empty open_tag close_tag close_through
    pop_through handle handle_starttag handle_endtag handle_data is_dropping finished closing
    starts_with safe_href sanitized feed init
sanitized-Markup_example =
    sanitized-Markup lib (content "a" ∷ starttag "b" [] ∷ endtag "i" ∷ []) refl

sanitized-unclosed_example :
    sanitized lib (content "a" ∷ starttag "embed" [] ∷ content "b" ∷ [])
    ≡ sanitized lib (content "a" ∷ [])
unfolding feed init handle handle_data is_dropping drops_content closes
sanitized-unclosed_example =
    sanitized-unclosed lib "embed" (content "a" ∷ []) (content "b" ∷ []) []
      {s = record { out = shown "a" ∷ []; open_tags = []; drop = [] }} refl refl refl refl
