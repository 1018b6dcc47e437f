-- ===== src/Dump/Extract/AnyOrder.antt =====
-- The order in which a dump lists the revisions of a page makes no difference.
use mathlib.Core.List.{Permᴰ, Pairwise, mem-cons_self}
use mathlib.Core.List.Permᴰ
use mathlib.Core.List.Pairwise
use mathlib.Core.Bool.{Bool-set}
use citescoop.Prelude.{
  ℕ, false, ◌≡◌, refl, sym, ap, subst, ◌∙◌, Option, none, some, List, [], ◌∷◌, map, arith, ltb,
  ◌==◌, if◌then◌else◌,
}
use citescoop.Prelude.Sorting.{Untied}
use citescoop.Proto.{Revision, Page}
use citescoop.Result.{ok, >>=-pointwise}
use citescoop.StdMap.{Map, find, insert, or_else, find-insert, find_ext, IsSorted, insert-IsSorted}
use citescoop.StdMap.Keys.{number_ord}
use citescoop.Dump.Citations.{make_page_citation_list}
use citescoop.Dump.Citations.AnyOrder.{make_page_citation_list-reordered}
use citescoop.Dump.Citations.PageList.{SortLaws}
use citescoop.Dump.Citations.Reordered.{SortOrderLaws, DistinctTimes, content}
use citescoop.Dump.State.{Services}
use citescoop.Dump.Handlers.{parse_id}
use citescoop.Dump.Run.{nothing_stored, store_in_memory}
use citescoop.Dump.Run.Field.{concat}
use citescoop.Dump.Run.RevisionElement.{RevisionXml}
use citescoop.Dump.Extract.{Calls, services, parse_xml}
use citescoop.Dump.Extract.Pages.{
  PageXml, dump_events, by_id, read_revision, read_revisions, read_page, read_pages,
}
use citescoop.Dump.Extract.Readable.{by_id-AllStored}
use citescoop.Dump.Extract.Reads.{Read, read_cons, cons_read, read-Named}
use citescoop.Dump.Extract.Padded.{parse_xml-read_pages}
use citescoop.Dump.Extract.Significant.{significant}
use citescoop.Dump.Handlers.{Event}

-- No two of the revisions have the same id.
abbrev pub DistinctIds : List Read → Type 0
DistinctIds = Untied (λ a b. ltb a.0.revision_id b.0.revision_id)

-- The first of the revisions with the id.
first_with : ℕ → List Read → Option Revision
first_with id [] = none
first_with id (r ∷ rs) = if r.0.revision_id == id then some r.0 else first_with id rs

find-by_id :
    (rs : List Read) (m : Map ℕ Revision) (id : ℕ)
    → find (by_id rs m) id ≡ or_else (find m id) (first_with id rs)
unfolding first_with
find-by_id [] m id = ground arith
find-by_id (r ∷ rs) m id =
    ground
      (arith, find-by_id rs (insert r.0.revision_id r.0 m) id, find-insert r.0.revision_id r.0 m id)

by_id-IsSorted : (rs : List Read) (m : Map ℕ Revision) → IsSorted m → IsSorted (by_id rs m)
by_id-IsSorted [] m s = s
by_id-IsSorted (r ∷ rs) m s =
    by_id-IsSorted rs (insert r.0.revision_id r.0 m) (insert-IsSorted r.0.revision_id r.0 m s)

distinct-Permᴰ : (rs qs : List Read) → Permᴰ rs qs → DistinctIds rs → DistinctIds qs
distinct-Permᴰ rs qs p d = Permᴰ.pairwise (λ a b. Bool-set _ _) (λ a b h. ground arith) p d

first_with-Permᴰ :
    (id : ℕ) (rs qs : List Read)
    → Permᴰ rs qs
    → DistinctIds rs
    → first_with id rs ≡ first_with id qs
unfolding first_with
first_with-Permᴰ id [] [] Permᴰ.nil d = refl
first_with-Permᴰ id (r ∷ rs) (q ∷ qs) (Permᴰ.cons e p) d =
    ground (arith, e, first_with-Permᴰ id rs qs p (Pairwise.of_cons d))
first_with-Permᴰ id (r ∷ s ∷ rs) (q ∷ t ∷ qs) (Permᴰ.swap e f) (Pairwise.cons apart rest) =
    ground (arith, e, f, apart s mem-cons_self)
first_with-Permᴰ id rs qs (Permᴰ.trans p p') d =
    first_with-Permᴰ id rs _ p d ∙ first_with-Permᴰ id _ qs p' (distinct-Permᴰ rs _ p d)

by_id-Permᴰ : (rs qs : List Read) → Permᴰ rs qs → DistinctIds rs → by_id rs [] ≡ by_id qs []
unfolding find
by_id-Permᴰ rs qs p d =
    find_ext (by_id rs []) (by_id qs []) (by_id-IsSorted rs [] tt) (by_id-IsSorted qs [] tt) λ id.
      find-by_id rs [] id
      ∙ ap (or_else none) (first_with-Permᴰ id rs qs p d)
      ∙ sym (find-by_id qs [] id)

module _ {O : Type 0} (s : Services O) where
  -- A permutation of the revisions permutes what is read of them.
  read-Permᴰ :
      (xs ys : List RevisionXml) (read : List Read)
      → Permᴰ xs ys
      → read_revisions s xs ≡ ok read
      → (read' : List Read) × (read_revisions s ys ≡ ok read') × Permᴰ read read'
  read-Permᴰ [] [] read Permᴰ.nil e = (read, e, Permᴰ.refl read)
  read-Permᴰ (x ∷ xs) (y ∷ ys) read (Permᴰ.cons d p) e =
      let (r, rs, one, others, all) = read_cons s x xs read e in
      let (qs, others', q) = read-Permᴰ xs ys rs p others in
      (
        r ∷ qs,
        cons_read s y ys r qs (ap (read_revision s) (sym d) ∙ one) others',
        subst (λ l. Permᴰ l (r ∷ qs)) all (Permᴰ.cons refl q),
      )
  read-Permᴰ (x ∷ y ∷ xs) (y' ∷ x' ∷ ys) read (Permᴰ.swap d d') e =
      let (r, rs, one, others, all) = read_cons s x (y ∷ xs) read e in
      let (q, qs, two, others', all') = read_cons s y xs rs others in
      (
        q ∷ r ∷ qs,
        cons_read s y' (x' ∷ xs) q (r ∷ qs) (ap (read_revision s) (sym d') ∙ two)
            (cons_read s x' xs r qs (ap (read_revision s) (sym d) ∙ one) others'),
        subst (λ l. Permᴰ l (q ∷ r ∷ qs)) (ap (◌∷◌ r) all' ∙ all) (Permᴰ.swap refl refl),
      )
  read-Permᴰ xs ys read (Permᴰ.trans p p') e =
      let (rs, e1, q) = read-Permᴰ xs _ read p e in
      let (qs, e2, q') = read-Permᴰ _ ys rs p' e1 in (qs, e2, Permᴰ.trans q q')

  -- The same page, with its revisions in another order; they can be read, and no two of them have
  -- the same id or the same time.
  pub record SameHistory (x y : PageXml) : Type 0 where
    pub same_title : concat x.title ≡ concat y.title
    pub same_id : concat x.id ≡ concat y.id
    pub permuted : Permᴰ x.revisions y.revisions
    pub read : List Read
    pub reads : read_revisions s x.revisions ≡ ok read
    pub distinct_ids : DistinctIds read
    pub distinct_times : DistinctTimes (map (λ r. r.1) read)

  unfoldable pub SameHistories : List PageXml → List PageXml → Type 0
  SameHistories [] [] = Unit
  SameHistories (x ∷ xs) (y ∷ ys) = SameHistory x y × SameHistories xs ys
  SameHistories [] (y ∷ ys) = ⊥
  SameHistories (x ∷ xs) [] = ⊥

  module _ (laws : SortLaws s.sort) (order_laws : SortOrderLaws s.sort) where
    read_page-SameHistory : (x y : PageXml) → SameHistory x y → read_page s x ≡ read_page s y
    unfolding read_page
    read_page-SameHistory x y h =
        let (read', reads', p) = read-Permᴰ x.revisions y.revisions h.read h.permuted h.reads in
        rw (h.same_title, h.same_id, h.reads, reads')
          (>>=-pointwise (parse_id (concat y.id)) _ _ λ id.
            let page : Page = record {
              page_id = id;
              title = some (concat y.title);
              citations = [];
            } in
            make_page_citation_list-reordered (by_id h.read []) s.sort laws order_laws page refl
              (map (λ r. r.1) h.read) (map (λ r. r.1) read')
              (by_id-AllStored s h.read [] (read-Named s x.revisions h.read h.reads))
              h.distinct_times (∣ Permᴰ.map content (Permᴰ.map (λ r. r.1) p) ∣₁)
            ∙ ap (λ known. make_page_citation_list s.sort known (map (λ r. r.1) read') [] page)
                (by_id-Permᴰ h.read read' p h.distinct_ids))

    read_pages-SameHistories :
        (xs ys : List PageXml) (output : O)
        → SameHistories xs ys
        → read_pages s xs output ≡ read_pages s ys output
    unfolding read_pages SameHistories
    read_pages-SameHistories [] [] output h = refl
    read_pages-SameHistories (x ∷ xs) (y ∷ ys) output h = rw (read_page-SameHistory x y h.0) (
        >>=-pointwise (read_page s y) _ _
          λ made. read_pages-SameHistories xs ys (s.store made.1 made.0 output) h.1)
    read_pages-SameHistories [] (y ∷ ys) output h = absurd h
    read_pages-SameHistories (x ∷ xs) [] output h = absurd h

module _ (c : Calls) where
  -- Given a sort that permutes its list and puts it into the order of a comparison that meets its
  -- requirements: of two lists of events that are, but for the tags of elements that the dump
  -- parser does not know and for text outside of fields, those of dumps with the same pages, each
  -- with its revisions in any order, the parses in memory give the same result, pages and revisions
  -- to store. Each revision has an id and a text, and the other fields or not; the revisions of
  -- each page can be read, and no two of them have the same id or the same time.
  pub parse_xml-reordered :
      SortLaws c.sort
      → SortOrderLaws c.sort
      → (events others : List Event) (xs ys : List PageXml)
      → significant false events ≡ dump_events xs
      → significant false others ≡ dump_events ys
      → SameHistories (services store_in_memory c) xs ys
      → parse_xml c events ≡ parse_xml c others
  parse_xml-reordered laws order_laws events others xs ys is_xs is_ys h =
      parse_xml-read_pages c events xs is_xs
      ∙ read_pages-SameHistories (services store_in_memory c) laws order_laws xs ys nothing_stored h
      ∙ sym (parse_xml-read_pages c others ys is_ys)
