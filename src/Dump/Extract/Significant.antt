-- ===== src/Dump/Extract/Significant.antt =====
-- Which events of a dump count for its parse.
use citescoop.Prelude.{◌≡◌, Bool, true, not, ◌&&◌, ◌||◌, List, [], ◌∷◌, arith, if◌then◌else◌}
use citescoop.Prelude.Text.{Text, codes, text_eq}
use citescoop.Dump.Handlers.{Event, start_element, end_element, characters, is_field}

-- The elements that the handlers tell from others.
unfoldable pub is_known : Text → Bool
unfolding is_field
is_known name =
    text_eq name (codes "page")
    || text_eq name (codes "revision")
    || text_eq name (codes "contributor")
    || is_field true true name

pub field-known : (name : Text) → is_field true true name ≡ true → is_known name ≡ true
unfolding is_known
field-known name h = ground arith

-- After an event, whether a field has begun and no known element has ended since.
unfoldable pub opened : Bool → Event → Bool
unfolding is_known is_field
opened within (start_element name) = within || is_field true true name
opened within (end_element name) = within && not (is_known name)
opened within _ = within

-- The tags of a known element count, and so does all between the start of a field and the next end
-- of a known element; and so do warnings and errors.
unfoldable pub counts : Bool → Event → Bool
unfolding is_known
counts within (start_element name) = within || is_known name
counts within (end_element name) = within || is_known name
counts within (characters text) = within
counts within _ = true

unfoldable pub significant : Bool → List Event → List Event
unfolding opened counts
significant within [] = []
significant within (e ∷ es) =
    let rest = significant (opened within e) es in if counts within e then e ∷ rest else rest

-- The end of a field comes only after the start of a field, without the end of a known element
-- between them.
unfoldable pub fits : Bool → Event → Bool
unfolding is_field
fits within (end_element name) = within || not (is_field true true name)
fits within _ = true

unfoldable pub fields_closed : Bool → List Event → Bool
unfolding opened fits
fields_closed within [] = true
fields_closed within (e ∷ es) =
    let rest = fields_closed (opened within e) es in fits within e && rest
