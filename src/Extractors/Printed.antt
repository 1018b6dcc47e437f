-- ===== src/Extractors/Printed.antt =====
-- What a text extractor makes of a dump whose texts are printed templates, from the templates to the
-- citations of the pages.
use citescoop.Prelude.{◌≡◌, sym, ap, subst, ◌∙◌, true, false, some, List, [], ◌∷◌, map}
use citescoop.Prelude.Text.{Text}
use citescoop.Proto.{Timestamp, Page}
use citescoop.Result.{ok, Returns, Returns-weaken, Returns-at}
use citescoop.StdMap.{find}
use citescoop.StdMap.Keys.{text_ord}
use citescoop.Parser.{Libraries}
use citescoop.Parser.Combinators.{Combinators, CombinatorLaws}
use citescoop.Parser.Entries.{TemplateEntry}
use citescoop.Parser.Grammar.Junk.{NoOpen}
use citescoop.Parser.Grammar.Wikitext.{print_wikitext, entries_of, AreSegments}
use citescoop.Parser.Templates.{FirstTitled, first_titled}
use citescoop.Parser.Whole.{ParserImpl, with_grammar, parse_text, parse_text-print_wikitext}
use citescoop.Dump.Citations.{Sort, earlier}
use citescoop.Dump.Citations.PageList.{SortLaws, PageCitations}
use citescoop.Dump.Handlers.{parse_id}
use citescoop.Dump.Run.Field.{concat}
use citescoop.Dump.Run.Optional.{read_parent, user_of, time_of}
use citescoop.Dump.Run.RevisionElement.{RevisionXml}
use citescoop.Dump.Extract.{Sax, Calls}
use citescoop.Dump.Extract.Pages.{PageXml, dump_events, read_revisions}
use citescoop.Dump.Extract.Readable.{PagesOf, memory}
use citescoop.Dump.Extract.Reads.{Read, ReadOf, read_cons, read_revision-ReadOf}
use citescoop.Dump.Extract.Significant.{significant}
use citescoop.Extractors.{
  BaseExtractor, calls_of, text_extractor_extract, IdsAreNumbers, text_extractor_extract-PagesOf,
}

-- A revision whose text is that of some templates, each behind a text without templates.
pub record PrintedRevision : Type 0 where
  pub xml : RevisionXml
  pub segments : List (Text × TemplateEntry)
  pub tail : Text

pub record PrintedPage : Type 0 where
  pub title : List Text
  pub id : List Text
  pub revisions : List PrintedRevision

abbrev pub page_xml : PrintedPage → PageXml
page_xml x = record { title = x.title; id = x.id; revisions = map (λ r. r.xml) x.revisions }

module _ (lib : Libraries) (b : Combinators) where
  -- The text of the revision is the print of its templates.
  abbrev pub IsPrinted : PrintedRevision → Type 0
  IsPrinted x =
      (concat x.xml.text ≡ print_wikitext x.segments x.tail)
      × AreSegments b x.segments x.tail
      × NoOpen b [] x.tail

  abbrev pub ArePrinted : List PrintedRevision → Type 0
  ArePrinted [] = Unit
  ArePrinted (x ∷ xs) = IsPrinted x × ArePrinted xs

  abbrev pub PagesPrinted : List PrintedPage → Type 0
  PagesPrinted [] = Unit
  PagesPrinted (x ∷ xs) = ArePrinted x.revisions × PagesPrinted xs

  module _ (timestamp_from : Text → Timestamp) (p : ParserImpl) where
    -- The revision with the citations of its templates: under each title the first template with it.
    pub record Says (x : PrintedRevision) (r : Read) : Type 0 where
      pub known : parse_id (concat x.xml.id) ≡ ok r.0.revision_id
      pub parent : read_parent x.xml.parent_id ≡ ok r.0.parent_id
      pub user : r.0.user ≡ user_of x.xml.contributor
      pub timestamp : r.0.timestamp ≡ time_of timestamp_from x.xml.timestamp
      pub revision : r.1.revision ≡ some r.0
      pub cited :
          (title : Text)
          → find r.1.citations title
            ≡ first_titled (with_grammar lib b) p.filter p.options title (entries_of x.segments)

    abbrev pub AllSay : List PrintedRevision → List Read → Type 0
    AllSay [] [] = Unit
    AllSay (x ∷ xs) (r ∷ rs) = Says x r × AllSay xs rs
    AllSay [] (r ∷ rs) = ⊥
    AllSay (x ∷ xs) [] = ⊥

    -- The page has the citations that its revisions give it over their time.
    pub record PageSays (sort : Sort) (x : PrintedPage) (page : Page) : Type 0 where
      pub read : List Read
      pub says : AllSay x.revisions read
      pub known : parse_id (concat x.id) ≡ ok page.page_id
      pub titled : page.title ≡ some (concat x.title)
      pub cited : PageCitations (sort earlier (map (λ r. r.1) read)) page.citations

    abbrev pub PagesSay : Sort → List PrintedPage → List Page → Type 0
    PagesSay sort [] [] = Unit
    PagesSay sort (x ∷ xs) (page ∷ pages) = PageSays sort x page × PagesSay sort xs pages
    PagesSay sort [] (page ∷ pages) = ⊥
    PagesSay sort (x ∷ xs) [] = ⊥

  module _ (laws : CombinatorLaws b) (sort : Sort) (sort_laws : SortLaws sort)
      (timestamp_from : Text → Timestamp) (sax : Sax) (e : BaseExtractor)
      (lenient : e.citation_parser.options.ignore_invalid_ident ≡ true) where
    abbrev calls : Calls
    calls = calls_of lib b sort timestamp_from sax e

    read-Says :
        (x : PrintedRevision) (r : Read)
        → IsPrinted x
        → ReadOf (memory calls) x.xml r
        → Says timestamp_from e.citation_parser x r
    read-Says x r printed h =
        let found : FirstTitled (with_grammar lib b) e.citation_parser.filter
            e.citation_parser.options (entries_of x.segments) h.parsed =
          Returns-at (parse_text lib b e.citation_parser (concat x.xml.text)) _
            (subst
              (λ text. Returns (parse_text lib b e.citation_parser text) (
                FirstTitled (with_grammar lib b) e.citation_parser.filter e.citation_parser.options
                  (entries_of x.segments)))
              (sym printed.0)
              (parse_text-print_wikitext lib b laws e.citation_parser x.segments x.tail lenient
                printed.1 printed.2))
            h.parses in
        record {
          known = h.known;
          parent = h.parent;
          user = h.user;
          timestamp = h.timestamp;
          revision = h.revision;
          cited = λ title. ap (λ m. find m title) h.same_citations ∙ found.1 title;
        }

    reads-AllSay :
        (xs : List PrintedRevision) (read : List Read)
        → ArePrinted xs
        → read_revisions (memory calls) (map (λ r. r.xml) xs) ≡ ok read
        → AllSay timestamp_from e.citation_parser xs read
    unfolding read_revisions
    reads-AllSay [] read printed h =
        let empty : [] ≡ read = cc in subst (AllSay timestamp_from e.citation_parser []) empty tt
    reads-AllSay (x ∷ xs) read printed h =
        let (r, rs, one, others, all) =
          read_cons (memory calls) x.xml (map (λ r. r.xml) xs) read h in
        subst (AllSay timestamp_from e.citation_parser (x ∷ xs)) all (
          read-Says x r printed.0 (read_revision-ReadOf (memory calls) x.xml r one),
          reads-AllSay xs rs printed.1 others,
        )

    PagesOf-PagesSay :
        (xs : List PrintedPage) (pages : List Page)
        → PagesPrinted xs
        → PagesOf calls (map page_xml xs) pages
        → PagesSay timestamp_from e.citation_parser sort xs pages
    PagesOf-PagesSay [] [] printed h = tt
    PagesOf-PagesSay (x ∷ xs) (page ∷ pages) printed h = (
      record {
        read = h.0.read;
        says = reads-AllSay x.revisions h.0.read printed.0 h.0.reads;
        known = h.0.known;
        titled = h.0.titled;
        cited = h.0.cited;
      },
      PagesOf-PagesSay xs pages printed.1 h.1,
    )
    PagesOf-PagesSay [] (page ∷ pages) printed h = absurd h
    PagesOf-PagesSay (x ∷ xs) [] printed h = absurd h

    -- Given the laws of the combinators of the grammar and a sort that permutes its list: a text
    -- extractor whose parser ignores invalid identifiers, on an input whose significant events are
    -- those of a dump with numbers for its ids and for those of the parents that are there, in
    -- which each revision has an id and a text and the other fields or not, and the text is a print
    -- of templates, without the marks of the grammar inside their names, keys and values and
    -- without blanks at the beginnings of these, and without a "{{" elsewhere: Extract returns one
    -- page for each page of the dump, in their order, with its title and its id. Its citations are
    -- those of its revisions in the order into which the sort puts them, each revision with its id
    -- and, as far as they are there, its parent, user and time, and with, under each title, the
    -- citation of the first template with that title among those that the filter accepts.
    pub text_extractor_extract-PagesSay :
        (input : Text) (xs : List PrintedPage)
        → significant false (sax input) ≡ dump_events (map page_xml xs)
        → IdsAreNumbers (map page_xml xs)
        → PagesPrinted xs
        → Returns
            (text_extractor_extract lib b sort timestamp_from sax e input)
            (λ stored. PagesSay timestamp_from e.citation_parser sort xs stored.pages)
    text_extractor_extract-PagesSay input xs h ids printed =
        Returns-weaken (text_extractor_extract lib b sort timestamp_from sax e input)
          (λ stored. PagesOf calls (map page_xml xs) stored.pages)
          (λ stored. PagesSay timestamp_from e.citation_parser sort xs stored.pages)
          (text_extractor_extract-PagesOf lib b laws sort sort_laws timestamp_from sax e lenient
            input (map page_xml xs) h ids)
          (λ stored all. PagesOf-PagesSay xs stored.pages printed all)
