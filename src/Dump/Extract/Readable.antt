-- ===== src/Dump/Extract/Readable.antt =====
-- Dumps whose pages can all be read: their parse returns.
use mathlib.Core.List.{append_assoc, append-nil}
use citescoop.Prelude.{ℕ, ◌≡◌, refl, sym, ap, subst, ◌∙◌, true, some, List, [], ◌∷◌, ◌++◌, map}
use citescoop.Proto.{Revision, RevisionCitations, Page}
use citescoop.Result.{Result, ok, err, Returns, Returns-bind, Returns-weaken}
use citescoop.StdMap.{Map, contains, insert}
use citescoop.StdMap.Keys.{number_ord}
use citescoop.Dump.Citations.{id_of, earlier}
use citescoop.Dump.Citations.PageList.{
  SortLaws, AllStored, PageCitations, PageMade, make_page_citation_list-PageMade,
}
use citescoop.Dump.State.{Services}
use citescoop.Dump.Handlers.{parse_id}
use citescoop.Dump.Run.{Stored, nothing_stored, store_in_memory}
use citescoop.Dump.Run.Field.{concat}
use citescoop.Dump.Run.Consistent.{contains-insert, contains-insert_self}
use citescoop.Dump.Run.Optional.{read_parent}
use citescoop.Dump.Run.RevisionElement.{RevisionXml}
use citescoop.Dump.Extract.{Calls, services, parse_xml}
use citescoop.Dump.Extract.Pages.{
  PageXml, dump_events, by_id, read_revision, read_revisions, read_page, read_pages,
}
use citescoop.Dump.Extract.Refines.{parse_xml-dump_events}

abbrev Answers : {A : Type 0} → Result A → Type 0
Answers m = Returns m (λ a. Unit)

answer : {A : Type 0} (m : Result A) → Answers m → (a : A) × (m ≡ ok a)
answer (ok a) h = (a, refl)
answer (err x) h = absurd h

module _ {O : Type 0} (s : Services O) where
  -- The id of the revision and that of its parent, where it has one, are numbers, and its text
  -- parses.
  abbrev pub IsReadable : RevisionXml → Type 0
  IsReadable x =
      Answers (parse_id (concat x.id))
      × Answers (read_parent x.parent_id)
      × Answers (s.parse (concat x.text))

  abbrev pub AllReadable : List RevisionXml → Type 0
  AllReadable [] = Unit
  AllReadable (x ∷ xs) = IsReadable x × AllReadable xs

  abbrev pub PagesReadable : List PageXml → Type 0
  PagesReadable [] = Unit
  PagesReadable (x ∷ xs) =
      (Answers (parse_id (concat x.id)) × AllReadable x.revisions) × PagesReadable xs

  -- A revision goes by the id that its citations name.
  abbrev pub Named : List (Revision × RevisionCitations) → Type 0
  Named [] = Unit
  Named (read ∷ others) = (id_of read.1 ≡ read.0.revision_id) × Named others

  read_revision-Returns :
      (x : RevisionXml)
      → IsReadable x
      → Returns (read_revision s x) (λ read. id_of read.1 ≡ read.0.revision_id)
  unfolding read_revision
  read_revision-Returns x h =
      let (id, k) = answer (parse_id (concat x.id)) h.0 in
      let (parent_id, l) = answer (read_parent x.parent_id) h.1 in
      let (citations, m) = answer (s.parse (concat x.text)) h.2 in rw (k, l, m) refl

  read_revisions-Returns :
      (xs : List RevisionXml) → AllReadable xs → Returns (read_revisions s xs) Named
  unfolding read_revisions
  read_revisions-Returns [] h = tt
  read_revisions-Returns (x ∷ xs) h =
      Returns-bind (read_revision s x) _ (λ read. id_of read.1 ≡ read.0.revision_id) Named
        (read_revision-Returns x h.0)
        λ read named.
          Returns-bind (read_revisions s xs) _ Named Named (read_revisions-Returns xs h.1)
            λ others all. (named, all)

  by_id-keeps :
      (reads : List (Revision × RevisionCitations)) (revisions : Map ℕ Revision) (id : ℕ)
      → contains revisions id ≡ true
      → contains (by_id reads revisions) id ≡ true
  by_id-keeps [] revisions id h = h
  by_id-keeps (read ∷ others) revisions id h =
      by_id-keeps others (insert read.0.revision_id read.0 revisions) id
        (contains-insert revisions read.0.revision_id read.0 id h)

  pub by_id-AllStored :
      (reads : List (Revision × RevisionCitations)) (revisions : Map ℕ Revision)
      → Named reads
      → AllStored (by_id reads revisions) (map (λ r. r.1) reads)
  by_id-AllStored [] revisions h = tt
  by_id-AllStored (read ∷ others) revisions h = (
    rw (h.0) (
        by_id-keeps others _ read.0.revision_id
          (contains-insert_self revisions read.0.revision_id read.0)),
    by_id-AllStored others (insert read.0.revision_id read.0 revisions) h.1,
  )

  -- The page is what its element says, with the citations of all its revisions.
  pub record PageOf (x : PageXml) (page : Page) : Type 0 where
    pub read : List (Revision × RevisionCitations)
    pub reads : read_revisions s x.revisions ≡ ok read
    pub known : parse_id (concat x.id) ≡ ok page.page_id
    pub titled : page.title ≡ some (concat x.title)
    pub cited : PageCitations (s.sort earlier (map (λ r. r.1) read)) page.citations

  read_page-Returns :
      SortLaws s.sort
      → (x : PageXml) → Answers (parse_id (concat x.id))
      → AllReadable x.revisions
      → Returns (read_page s x) (λ made. PageOf x made.0)
  unfolding read_page
  read_page-Returns laws x h k =
      let (id, is_id) = answer (parse_id (concat x.id)) h in
      let (read, reads, named) =
        found (read_revisions s x.revisions) (read_revisions-Returns x.revisions k) in
      let page : Page = record { page_id = id; title = some (concat x.title); citations = [] } in
      rw (is_id, reads)
        (Returns-weaken _ (PageMade (by_id read []) (s.sort earlier (map (λ r. r.1) read)) page)
          (λ made. PageOf x made.0)
          (make_page_citation_list-PageMade s.sort laws (by_id read []) (map (λ r. r.1) read) page
            [] (by_id-AllStored read [] named) refl refl)
          (λ made m. record {
            read = read;
            reads = reads;
            known = is_id ∙ ap ok (sym m.same_id);
            titled = m.same_title;
            cited = m.cited;
          }))
    where
      found :
          (m : Result (List (Revision × RevisionCitations)))
          → Returns m Named
          → (read : List (Revision × RevisionCitations)) × (m ≡ ok read) × Named read
      found (ok read) h = (read, refl, h)
      found (err x) h = absurd h

module _ (c : Calls) where
  abbrev pub memory : Services Stored
  memory = services store_in_memory c

  -- One page for each element, in their order.
  abbrev pub PagesOf : List PageXml → List Page → Type 0
  PagesOf [] [] = Unit
  PagesOf (x ∷ xs) (page ∷ pages) = PageOf memory x page × PagesOf xs pages
  PagesOf [] (page ∷ pages) = ⊥
  PagesOf (x ∷ xs) [] = ⊥

  abbrev Adds : List PageXml → Stored → Stored → Type 0
  Adds xs before stored =
      (pages : List Page) × (stored.pages ≡ before.pages ++ pages) × PagesOf xs pages

  read_pages-Returns :
      SortLaws c.sort
      → (xs : List PageXml) (before : Stored) → PagesReadable memory xs
      → Returns (read_pages memory xs before) (Adds xs before)
  unfolding read_pages store_in_memory
  read_pages-Returns laws [] before h = ([], sym (append-nil before.pages), tt)
  read_pages-Returns laws (x ∷ xs) before h =
      Returns-bind (read_page memory x) _ (λ made. PageOf memory x made.0) (Adds (x ∷ xs) before)
        (read_page-Returns memory laws x h.0.0 h.0.1)
        λ made is_page.
          let stored = store_in_memory made.1 made.0 before in
          Returns-weaken (read_pages memory xs stored) (Adds xs stored) (Adds (x ∷ xs) before)
            (read_pages-Returns laws xs stored h.1)
            λ last (pages, added, others). (
              made.0 ∷ pages,
              added ∙ append_assoc before.pages (made.0 ∷ []) pages,
              (is_page, others),
            )

  -- Given a sort that permutes its list: the parse in memory of the events of a dump whose ids are
  -- numbers and whose texts parse returns. It returns one page for each page of the dump, in their
  -- order, with the title and the id of its element, and with the citations that its revisions give
  -- it in the order into which the sort puts them.
  pub parse_xml-PagesOf :
      SortLaws c.sort
      → (xs : List PageXml) → PagesReadable memory xs
      → Returns (parse_xml c (dump_events xs)) (λ stored. PagesOf xs stored.pages)
  parse_xml-PagesOf laws xs h =
      subst (λ m. Returns m (λ stored. PagesOf xs stored.pages)) (sym (parse_xml-dump_events c xs))
        (Returns-weaken (read_pages memory xs nothing_stored) (Adds xs nothing_stored)
          (λ stored. PagesOf xs stored.pages) (read_pages-Returns laws xs nothing_stored h)
          λ last (pages, added, all). subst (PagesOf xs) (sym added) all)
