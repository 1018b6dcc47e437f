-- ===== src/Dump/Extract/Padded.antt =====
-- Dumps as they are: with white space between the elements, and with elements that the dump parser
-- does not read.
use citescoop.Prelude.{
  ◌≡◌, refl, sym, ap, subst, ◌∙◌, Bool, true, false, not, ◌&&◌, ◌||◌, Option, none, some, List, [],
  ◌∷◌, ◌++◌, map, arith, Bool-cases, inl, inr,
}
use citescoop.Prelude.Text.{Text, codes, text_eq}
use citescoop.Result.{Returns}
use citescoop.Dump.Citations.PageList.{SortLaws}
use citescoop.Dump.Handlers.{
  Event, start_element, end_element, characters, warning, error, fatal_error, is_field,
}
use citescoop.Dump.Run.Field.{element}
use citescoop.Dump.Run.Optional.{ContributorXml, optional_element, contributor_events}
use citescoop.Dump.Run.RevisionElement.{RevisionXml}
use citescoop.Dump.Extract.{Calls, parse_xml}
use citescoop.Dump.Extract.Pages.{PageXml, revisions_events, dump_events, read_pages}
use citescoop.Dump.Extract.Refines.{parse_xml-dump_events}
use citescoop.Dump.Run.{nothing_stored}
use citescoop.Dump.Extract.Readable.{PagesReadable, PagesOf, memory, parse_xml-PagesOf}
use citescoop.Dump.Extract.Significant.{
  is_known, opened, counts, fits, significant, fields_closed, field-known,
}
use citescoop.Dump.Extract.Others.{parse_xml-significant}

-- An event that does not count changes nothing.
dropped_lem :
    (within : Bool) (e : Event)
    → counts within e ≡ false
    → (opened within e ≡ within) × (fits within e ≡ true)
unfolding counts opened fits is_known
dropped_lem within (start_element name) h = ground arith
dropped_lem within (end_element name) h = ground arith
dropped_lem within (characters text) h = (refl, refl)
dropped_lem within (warning text) h = cc
dropped_lem within (error text) h = cc
dropped_lem within (fatal_error text) h = cc

fields_closed-significant :
    (es : List Event) (within : Bool)
    → fields_closed within (significant within es) ≡ fields_closed within es
unfolding fields_closed significant
fields_closed-significant [] within = refl
fields_closed-significant (e ∷ es) within = elim (Bool-cases (counts within e)) [
  | inl kept ↦
      rw kept (ap (λ b. fits within e && b) (fields_closed-significant es (opened within e)))
  | inr dropped ↦
      rw (dropped, (dropped_lem within e dropped).1)
        (subst
          (λ b.
            fields_closed b (significant (opened within e) es) ≡ fields_closed (opened within e) es)
          (dropped_lem within e dropped).0 (fields_closed-significant es (opened within e)))
]

fields_closed-characters :
    (pieces : List Text) (es : List Event)
    → fields_closed true (map characters pieces ++ es) ≡ fields_closed true es
unfolding fields_closed opened fits
fields_closed-characters [] es = refl
fields_closed-characters (piece ∷ pieces) es = fields_closed-characters pieces es

fields_closed-element :
    (within : Bool) (name : Text) (pieces : List Text) (es : List Event)
    → is_field true true name ≡ true
    → fields_closed within (element name pieces es) ≡ fields_closed false es
unfolding fields_closed opened fits
fields_closed-element within name pieces es field =
    let shut : (within || is_field true true name) ≡ true = ground arith in
    ap (λ b. fields_closed b (map characters pieces ++ (end_element name ∷ es))) shut
    ∙ fields_closed-characters pieces (end_element name ∷ es)
    ∙ ap (λ b. fields_closed (not b) es) (field-known name field)

fields_closed-optional :
    (name : Text) (x : Option (List Text)) (es : List Event)
    → is_field true true name ≡ true
    → fields_closed false (optional_element name x es) ≡ fields_closed false es
fields_closed-optional name none es field = refl
fields_closed-optional name (some pieces) es field =
    fields_closed-element false name pieces es field

fields_closed-contributor :
    (x : Option ContributorXml) (es : List Event)
    → fields_closed false (contributor_events x es) ≡ fields_closed false es
unfolding fields_closed opened fits is_known is_field text_eq
fields_closed-contributor none es = refl
fields_closed-contributor (some x) es =
    fields_closed-optional (codes "username") x.username _ refl
    ∙ fields_closed-optional (codes "id") x.id _ refl

fields_closed-revisions :
    (xs : List RevisionXml) (es : List Event)
    → fields_closed false es ≡ true
    → fields_closed false (revisions_events xs es) ≡ true
unfolding fields_closed opened fits is_known is_field text_eq
fields_closed-revisions [] es h = h
fields_closed-revisions (x ∷ xs) es h =
    fields_closed-element false (codes "id") x.id _ refl
    ∙ fields_closed-optional (codes "parentid") x.parent_id _ refl
    ∙ fields_closed-optional (codes "timestamp") x.timestamp _ refl
    ∙ fields_closed-contributor x.contributor _
    ∙ fields_closed-element false (codes "text") x.text _ refl
    ∙ fields_closed-revisions xs es h

fields_closed-dump_events : (xs : List PageXml) → fields_closed false (dump_events xs) ≡ true
unfolding fields_closed opened fits is_known is_field text_eq
fields_closed-dump_events [] = refl
fields_closed-dump_events (x ∷ xs) =
    fields_closed-element false (codes "title") x.title _ refl
    ∙ fields_closed-element false (codes "id") x.id _ refl
    ∙ fields_closed-revisions x.revisions _ (fields_closed-dump_events xs)

-- Events that are those of a dump but for what does not count close their fields.
pub fields_closed-padded :
    (events : List Event) (xs : List PageXml)
    → significant false events ≡ dump_events xs
    → fields_closed false events ≡ true
fields_closed-padded events xs h =
    sym (fields_closed-significant events false)
    ∙ ap (fields_closed false) h
    ∙ fields_closed-dump_events xs

module _ (c : Calls) where
  -- A parse depends on the significant events alone, where these are the events of a dump.
  parse_xml-padded :
      (events : List Event) (xs : List PageXml)
      → significant false events ≡ dump_events xs
      → parse_xml c events ≡ parse_xml c (dump_events xs)
  parse_xml-padded events xs h =
      parse_xml-significant c events (fields_closed-padded events xs h) ∙ ap (parse_xml c) h

  -- Take events that are those of a dump but for the tags of elements that the dump parser does not
  -- know and for text outside of fields. In the dump, the fields are in the order of the export
  -- format, each in any number of pieces; a page has a title and an id, and each revision has an id
  -- and a text, and its parent, its time, its contributor and the name and id of the contributor
  -- where they are there. The parse in memory then returns what the dump says: the pages, each with
  -- the citations of all its revisions, and the revisions that these name; or it throws the
  -- exception of the first field that has one, or of the citations of a page.
  pub parse_xml-read_pages :
      (events : List Event) (xs : List PageXml)
      → significant false events ≡ dump_events xs
      → parse_xml c events ≡ read_pages (memory c) xs nothing_stored
  parse_xml-read_pages events xs h = parse_xml-padded events xs h ∙ parse_xml-dump_events c xs

  -- Given a sort that permutes its list, and events that are those of a dump but for the tags of
  -- elements that the dump parser does not know and for text outside of fields; each revision of
  -- the dump has an id and a text, and the other fields or not. If the ids of the dump, also those
  -- of the parents that are there, are numbers and its texts parse, then the parse in memory
  -- returns. It returns one page for each page of the dump, in their order, with the title and the
  -- id of its element, and with the citations that its revisions give it in the order into which
  -- the sort puts them.
  pub parse_xml-PagesOf_padded :
      SortLaws c.sort
      → (events : List Event) (xs : List PageXml) → significant false events ≡ dump_events xs
      → PagesReadable (memory c) xs
      → Returns (parse_xml c events) (λ stored. PagesOf c xs stored.pages)
  parse_xml-PagesOf_padded laws events xs h readable =
      subst (λ m. Returns m (λ stored. PagesOf c xs stored.pages))
        (sym (parse_xml-padded events xs h)) (parse_xml-PagesOf c laws xs readable)
