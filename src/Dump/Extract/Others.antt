-- ===== src/Dump/Extract/Others.antt =====
-- The events of other elements, and the text between elements, make no difference to a parse.
use citescoop.Prelude.{
  ℕ, ◌≡◌, refl, sym, ap, subst, ◌∙◌, inl, inr, Bool, true, false, not, Bool-cases, List, [], ◌∷◌,
  arith, if◌then◌else◌,
}
use citescoop.Prelude.Text.{Text, codes, text_eq}
use citescoop.Proto.{Revision, Page, empty_page}
use citescoop.StdMap.{Map}
use citescoop.Dump.Citations.{make_page_citation_list}
use citescoop.Result.{Result, ok, err, ◌>>=◌}
use citescoop.Dump.State.{DumpParser, Services, new_parser}
use citescoop.Dump.Handlers.{
  Event, start_element, end_element, characters, warning, error, fatal_error, is_field,
  on_start_element, on_characters, on_end_page, on_end_revision, on_end_field, stop_storing,
  end_branch, on_end_element, handle,
}
use citescoop.Dump.Run.{run, start_parser, nothing_stored, store_in_memory}
use citescoop.Dump.Extract.{Calls, services, parse_xml}
use citescoop.Dump.Extract.Ending.{ending, ending-step}
use citescoop.Dump.Extract.Significant.{
  is_known, field-known, opened, counts, significant, fits, fields_closed,
}

module _ {O : Type 0} where
  -- The states of both parses: the same, or with another text in the buffer that is of no use.
  abbrev Same : Bool → DumpParser O → DumpParser O → Type 0
  Same true p q = p ≡ q
  Same false p q = (p.should_store ≡ false) × (text : Text) × (q ≡ record p { text_buf = text })

  abbrev BothSame : Bool → Result (DumpParser O) → Result (DumpParser O) → Type 0
  BothSame within (ok p) (ok q) = Same within p q
  BothSame within (err x) (err y) = x ≡ y
  BothSame within (ok p) (err y) = ⊥
  BothSame within (err x) (ok q) = ⊥

  >>=-BothSame :
      {A : Type 0} (within : Bool) (m n : Result (DumpParser O)) (f g : DumpParser O → Result A)
      → BothSame within m n
      → ((p q : DumpParser O) → Same within p q → f p ≡ g q)
      → (m >>= f) ≡ (n >>= g)
  >>=-BothSame within (ok p) (ok q) f g same h = h p q same
  >>=-BothSame within (err x) (err y) f g same h = ap err same
  >>=-BothSame within (ok p) (err y) f g same h = absurd same
  >>=-BothSame within (err x) (ok q) f g same h = absurd same

module _ {O : Type 0} (s : Services O) where
  abbrev page_ended : Map ℕ Revision → Page → DumpParser O → DumpParser O
  page_ended to_store page p = record p {
    in_page = false;
    output = s.store to_store page p.output;
    current_page = empty_page;
    current_page_revisions = [];
    citations_by_revision = [];
    revisions_to_store = [];
  }

  stopped : (p : DumpParser O) → (stop_storing p).should_store ≡ false
  stopped p = ground arith

  -- After an event while a known element is open, the same event in the same state.
  ends-BothSame :
      (known : Bool) (m : Result (DumpParser O))
      → BothSame (not known) (m >>= λ q. ok (stop_storing q)) (m >>= λ q. ok (stop_storing q))
  ends-BothSame true (ok q) = (stopped q, (stop_storing q).text_buf, refl)
  ends-BothSame false (ok q) = refl
  ends-BothSame known (err x) = refl

  open-BothSame :
      (e : Event) (p : DumpParser O) → BothSame (opened true e) (handle s e p) (handle s e p)
  unfolding opened handle on_end_element
  open-BothSame (start_element name) p = refl
  open-BothSame (end_element name) p = ends-BothSame (is_known name) (end_branch s name p)
  open-BothSame (characters text) p = refl
  open-BothSame _ p = refl

  module _ (p : DumpParser O) (idle : p.should_store ≡ false) where
    start_unknown :
        (name : Text) → is_known name ≡ false → on_start_element name p ≡ record p { text_buf = [] }
    unfolding on_start_element is_known is_field
    start_unknown name h = ground arith

    end_unknown : (name : Text) → is_known name ≡ false → handle s (end_element name) p ≡ ok p
    unfolding handle on_end_element end_branch on_end_field is_known is_field
    end_unknown name h = ground arith

  module _ (p : DumpParser O) (idle : p.should_store ≡ false) (text : Text) where
    abbrev other : DumpParser O
    other = record p { text_buf = text }

    start_known : (name : Text) → on_start_element name p ≡ on_start_element name other
    unfolding on_start_element
    start_known name = refl

    end_page_Same :
        (m : Result (Page × Map ℕ Revision))
        → BothSame false
            ((m >>= λ r. ok (page_ended r.1 r.0 p)) >>= λ q. ok (stop_storing q))
            ((m >>= λ r. ok (page_ended r.1 r.0 other)) >>= λ q. ok (stop_storing q))
    end_page_Same (ok r) = (ground arith, text, ground arith)
    end_page_Same (err x) = refl

    end_known :
        (name : Text)
        → is_field true true name ≡ false
        → BothSame false (handle s (end_element name) p) (handle s (end_element name) other)
    unfolding handle on_end_element end_branch on_end_field is_field on_end_page on_end_revision
        is_known
    end_known name h = elim (Bool-cases (text_eq name (codes "page"))) [
      | inl page ↦ rw page (
          end_page_Same (
            make_page_citation_list s.sort p.current_page_revisions p.citations_by_revision
              p.revisions_to_store p.current_page))
      | inr not_page ↦ elim (Bool-cases (text_eq name (codes "revision"))) [
        | inl revision ↦ rw (not_page, revision) (ground arith, text, ground arith)
        | inr not_revision ↦ elim (Bool-cases (text_eq name (codes "contributor"))) [
          | inl contributor ↦
              rw (not_page, not_revision, contributor) (ground arith, text, ground arith)
          | inr not_contributor ↦
              let unknown : is_known name ≡ false =
                rw (not_page, not_revision, not_contributor, h, is_known) in
              rw (end_unknown p idle name unknown, end_unknown other idle name unknown)
                (idle, text, refl)
        ]
      ]
    ]

    start_idle :
        (name : Text)
        → is_field true true name ≡ false
        → (on_start_element name p).should_store ≡ false
    unfolding on_start_element is_field
    start_idle name h = ground arith

    start-BothSame :
        (name : Text)
        → BothSame
            (is_field true true name)
            (ok (on_start_element name p))
            (if is_known name then ok (on_start_element name other) else ok other)
    start-BothSame name = elim (Bool-cases (is_field true true name)) [
      | inl field ↦ rw (field, field-known name field) (start_known name)
      | inr other_tag ↦ elim (Bool-cases (is_known name)) [
        | inl known ↦
            rw (other_tag, known)
              (
                start_idle name other_tag,
                (on_start_element name p).text_buf,
                sym (start_known name),
              )
        | inr unknown ↦
            rw (other_tag, unknown, start_unknown p idle name unknown) (idle, text, refl)
      ]
    ]

    end-BothSame :
        (name : Text)
        → not (is_field true true name) ≡ true
        → BothSame false
            (handle s (end_element name) p)
            (if is_known name then handle s (end_element name) other else ok other)
    end-BothSame name h = elim (Bool-cases (is_known name)) [
      | inl known ↦ rw known (end_known name (ground (arith, h)))
      | inr unknown ↦ rw (unknown, end_unknown p idle name unknown) (idle, text, refl)
    ]

    characters-BothSame : (c : Text) → Same false (on_characters c p) other
    unfolding on_characters
    characters-BothSame c =
        let unread : on_characters c p ≡ p = ground arith in
        subst (λ r. Same false r other) (sym unread) (idle, text, refl)

  event-BothSame :
      (within : Bool) (e : Event) (p q : DumpParser O)
      → fits within e ≡ true
      → Same within p q
      → BothSame (opened within e) (handle s e p) (if counts within e then handle s e q else ok q)
  unfolding opened counts fits handle
  event-BothSame true e p q h same =
      subst
        (λ q.
          BothSame (opened true e) (handle s e p) (if counts true e then handle s e q else ok q))
        same (rw (counts_all e) (open-BothSame e p))
    where
      counts_all : (e : Event) → counts true e ≡ true
      counts_all (start_element name) = refl
      counts_all (end_element name) = refl
      counts_all _ = refl
  event-BothSame false (start_element name) p q h (idle, text, same) =
      subst
        (λ q.
          BothSame (is_field true true name) (ok (on_start_element name p))
            (if is_known name then ok (on_start_element name q) else ok q))
        (sym same) (start-BothSame p idle text name)
  event-BothSame false (end_element name) p q h (idle, text, same) =
      subst
        (λ q.
          BothSame false (handle s (end_element name) p)
            (if is_known name then handle s (end_element name) q else ok q))
        (sym same) (end-BothSame p idle text name h)
  event-BothSame false (characters c) p q h (idle, text, same) =
      subst (Same false (on_characters c p)) (sym same) (characters-BothSame p idle text c)
  event-BothSame false (warning c) p q h same = refl
  event-BothSame false (error c) p q h same = refl
  event-BothSame false (fatal_error c) p q h same = refl

  pub ending-significant :
      (es : List Event) (within : Bool) (p q : DumpParser O)
      → fields_closed within es ≡ true
      → Same within p q
      → ending s es p ≡ ending s (significant within es) q
  unfolding fields_closed significant run
  ending-significant [] true p q h same = ap (λ p. ok p.output) same
  ending-significant [] false p q h (idle, text, same) = ap (λ p. ok p.output) (sym same)
  ending-significant (e ∷ es) within p q h same =
      ending-step s e es p
      ∙ >>=-BothSame (opened within e) (handle s e p)
          (if counts within e then handle s e q else ok q) (ending s es) (ending s rest)
          (event-BothSame within e p q (ground (arith, h)) same)
          (λ p q k. ending-significant es (opened within e) p q (ground (arith, h)) k)
      ∙ counted
    where
      rest : List Event
      rest = significant (opened within e) es

      counted :
          ((if counts within e then handle s e q else ok q) >>= ending s rest)
          ≡ ending s (if counts within e then e ∷ rest else rest) q
      counted = elim (Bool-cases (counts within e)) [
        | inl kept ↦ rw kept (sym (ending-step s e rest q))
        | inr dropped ↦ rw dropped refl
      ]

-- Given events in which the end of a field comes only after the start of a field, without the end
-- of a field, page, revision or contributor between them: the parse in memory returns or throws the
-- same without the tags of all other elements and without the text outside of fields.
pub parse_xml-significant :
    (c : Calls) (events : List Event)
    → fields_closed false events ≡ true
    → parse_xml c events ≡ parse_xml c (significant false events)
unfolding parse_xml start_parser new_parser
parse_xml-significant c events h =
    ending-significant (services store_in_memory c) events false (new_parser nothing_stored)
      (new_parser nothing_stored) h (refl, [], refl)
