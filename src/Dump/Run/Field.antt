-- ===== src/Dump/Run/Field.antt =====
-- An element whose text a dump parser keeps, from its start to its end.
use mathlib.Core.List.{append_assoc, append-nil}
use citescoop.Prelude.{◌≡◌, ap, ◌∙◌, Bool, true, false, some, List, [], ◌∷◌, ◌++◌, map, arith}
use citescoop.Prelude.Text.{Text, codes, text_eq}
use citescoop.Proto.{Revision}
use citescoop.Result.{Error, ok, err}
use citescoop.StdMap.Keys.{number_ord}
use citescoop.Dump.State.{DumpParser, Services}
use citescoop.Dump.Handlers.{
  Event, start_element, end_element, characters, is_field, on_start_element, on_characters,
  on_end_field, end_branch, stop_storing, on_end_element, handle,
}
use citescoop.Dump.Run.{run}

-- The text of an element comes in any number of pieces.
abbrev pub concat : List Text → Text
concat [] = []
concat (piece ∷ pieces) = piece ++ concat pieces

-- <name>text</name>, and more events behind it.
abbrev pub element : Text → List Text → List Event → List Event
element name pieces es = start_element name ∷ (map characters pieces ++ (end_element name ∷ es))

module _ {O : Type 0} where
  -- Within a page, and outside of its revisions.
  abbrev pub in_page_only : DumpParser O → DumpParser O
  in_page_only p = record p {
    in_page = true;
    in_revision = false;
    in_contributor = false;
    should_store = false;
  }

  abbrev pub after : DumpParser O → Text → Revision → DumpParser O
  after p text r = record p { text_buf = text; current_revision = r }

  abbrev pub storing : Text → DumpParser O → DumpParser O
  storing text p = record p { should_store = true; text_buf = text }

  -- The state within a page and a revision, outside of a contributor if the flag says so.
  abbrev pub inside : Bool → DumpParser O → DumpParser O
  inside contributor p = record p {
    in_page = true;
    in_revision = true;
    in_contributor = contributor;
    should_store = false;
  }

  abbrev idle : DumpParser O → DumpParser O
  idle p = record p { should_store = false }

  stop_storing-idle : (p : DumpParser O) → stop_storing p ≡ idle p
  stop_storing-idle p = ground arith

module _ {O : Type 0} (s : Services O) where
  pub run-step :
      (e : Event) (es : List Event) (p q : DumpParser O)
      → handle s e p ≡ ok q
      → run s (e ∷ es) p ≡ run s es q
  unfolding run
  run-step e es p q h = rw (h, run)

  run-characters :
      (pieces : List Text) (text : Text) (p : DumpParser O) (es : List Event)
      → run s (map characters pieces ++ es) (storing text p)
        ≡ run s es (storing (text ++ concat pieces) p)
  unfolding run handle on_characters
  run-characters [] text p es = rw append-nil
  run-characters (piece ∷ pieces) text p es =
      run-characters pieces (text ++ piece) p es ∙ rw append_assoc

  -- The element of a field ends, as on_end_field says, with its whole text in the buffer.
  module _ (name : Text) (is_page : text_eq name (codes "page") ≡ false)
      (is_revision : text_eq name (codes "revision") ≡ false)
      (is_contributor : text_eq name (codes "contributor") ≡ false) where
    start-field :
        (p : DumpParser O)
        → is_field p.in_page p.in_revision name ≡ true
        → handle s (start_element name) p ≡ ok (storing [] p)
    unfolding handle on_start_element
    start-field p kept = rw (is_page, is_revision, is_contributor, kept)

    end-field :
        (p q : DumpParser O)
        → on_end_field s name p ≡ ok q
        → handle s (end_element name) p ≡ ok (idle q)
    unfolding handle on_end_element end_branch
    end-field p q h = rw (is_page, is_revision, is_contributor, h) (ap ok (stop_storing-idle q))

    end-field_err :
        (p : DumpParser O) (x : Error)
        → on_end_field s name p ≡ err x
        → handle s (end_element name) p ≡ err x
    unfolding handle on_end_element end_branch
    end-field_err p x h = rw (is_page, is_revision, is_contributor, h)

    module _ (pieces : List Text) (p : DumpParser O) (es : List Event)
        (kept : is_field p.in_page p.in_revision name ≡ true) where
      run-to_end :
          run s (element name pieces es) p
          ≡ run s (end_element name ∷ es) (storing (concat pieces) p)
      run-to_end =
          run-step (start_element name) _ _ _ (start-field p kept)
          ∙ run-characters pieces [] p (end_element name ∷ es)

      pub run-field :
          (q : DumpParser O)
          → on_end_field s name (storing (concat pieces) p) ≡ ok q
          → run s (element name pieces es) p ≡ run s es (idle q)
      run-field q h = run-to_end ∙ run-step (end_element name) es _ _ (end-field _ q h)

      pub run-field_err :
          (x : Error)
          → on_end_field s name (storing (concat pieces) p) ≡ err x
          → run s (element name pieces es) p ≡ (storing (concat pieces) p, some x)
      unfolding run
      run-field_err x h = run-to_end ∙ rw (end-field_err _ x h, run)
