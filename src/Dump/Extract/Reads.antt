-- ===== src/Dump/Extract/Reads.antt =====
-- What is read of a list of revision elements, one element after the other.
use citescoop.Prelude.{◌≡◌, refl, subst, some, List, [], ◌∷◌}
use citescoop.Proto.{Revision, RevisionCitations}
use citescoop.Result.{ok, >>=-eq-ok}
use citescoop.Dump.Citations.{id_of}
use citescoop.Dump.State.{Services}
use citescoop.Dump.Handlers.{parse_id}
use citescoop.Dump.Run.Field.{concat}
use citescoop.Dump.Run.Optional.{read_parent, user_of, time_of}
use citescoop.Dump.Run.RevisionElement.{RevisionXml}
use citescoop.Dump.Extract.Pages.{read_revision, read_revisions}
use citescoop.Dump.Extract.Readable.{Named}

abbrev pub Read : Type 0
Read = Revision × RevisionCitations

module _ {O : Type 0} (s : Services O) where
  -- What is read of a revision goes by the id that its citations name.
  pub read_revision-Named :
      (x : RevisionXml) (r : Read) → read_revision s x ≡ ok r → id_of r.1 ≡ r.0.revision_id
  unfolding read_revision
  read_revision-Named x r e =
      let (id, id_read, e1) = >>=-eq-ok (parse_id (concat x.id)) _ e in
      let (parent_id, parent_read, e2) = >>=-eq-ok (read_parent x.parent_id) _ e1 in
      let (citations, text_read, e3) = >>=-eq-ok (s.parse (concat x.text)) _ e2 in cc (e3)

  pub read_cons :
      (x : RevisionXml) (xs : List RevisionXml) (read : List Read)
      → read_revisions s (x ∷ xs) ≡ ok read
      → (r : Read) × (rs : List Read) × (read_revision s x ≡ ok r)
        × (read_revisions s xs ≡ ok rs)
        × (r ∷ rs ≡ read)
  unfolding read_revisions
  read_cons x xs read e =
      let (r, one, e1) = >>=-eq-ok (read_revision s x) _ e in
      let (rs, others, e2) = >>=-eq-ok (read_revisions s xs) _ e1 in (r, rs, one, others, cc)

  pub cons_read :
      (x : RevisionXml) (xs : List RevisionXml) (r : Read) (rs : List Read)
      → read_revision s x ≡ ok r
      → read_revisions s xs ≡ ok rs
      → read_revisions s (x ∷ xs) ≡ ok (r ∷ rs)
  unfolding read_revisions
  cons_read x xs r rs one others = rw (one, others) refl

  pub read-Named :
      (xs : List RevisionXml) (read : List Read) → read_revisions s xs ≡ ok read → Named s read
  unfolding read_revisions
  read-Named [] read e = let empty : [] ≡ read = cc in subst (Named s) empty tt
  read-Named (x ∷ xs) read e =
      let (r, rs, one, others, all) = read_cons x xs read e in
      subst (Named s) all (read_revision-Named x r one, read-Named xs rs others)

  -- The revision is what its element says, and its citations are those of its text.
  pub record ReadOf (x : RevisionXml) (r : Read) : Type 0 where
    pub known : parse_id (concat x.id) ≡ ok r.0.revision_id
    pub parent : read_parent x.parent_id ≡ ok r.0.parent_id
    pub user : r.0.user ≡ user_of x.contributor
    pub timestamp : r.0.timestamp ≡ time_of s.timestamp_from x.timestamp
    pub revision : r.1.revision ≡ some r.0
    pub parsed : RevisionCitations
    pub parses : s.parse (concat x.text) ≡ ok parsed
    pub same_citations : r.1.citations ≡ parsed.citations

  pub read_revision-ReadOf : (x : RevisionXml) (r : Read) → read_revision s x ≡ ok r → ReadOf x r
  unfolding read_revision
  read_revision-ReadOf x r e =
      let (id, id_read, e1) = >>=-eq-ok (parse_id (concat x.id)) _ e in
      let (parent_id, parent_read, e2) = >>=-eq-ok (read_parent x.parent_id) _ e1 in
      let (citations, text_read, e3) = >>=-eq-ok (s.parse (concat x.text)) _ e2 in
      record {
        known = cc;
        parent = cc;
        user = cc;
        timestamp = cc;
        revision = cc;
        parsed = citations;
        parses = text_read;
        same_citations = cc;
      }
