-- ===== src/Dump/Citations/Named.antt =====
-- The revisions that the citations of a page name are stored with it.
use citescoop.Prelude.{
  ℕ, ◌≤◌, ◌≡◌, refl, ◌∙◌, sym, subst, true, some, List, [], ◌∷◌, arith, All, All-weaken, All-and,
  Option-cases, inl, inr,
}
use citescoop.Prelude.Text.{Text}
use citescoop.Proto.{Revision, RevisionCitations, Citation}
use citescoop.StdMap.{Map, find, contains, find-Above, IsSorted}
use citescoop.StdMap.Keys.{text_ord, number_ord}
use citescoop.Dump.Citations.{id_of}
use citescoop.Dump.Citations.Counts.{references_in, citation_references, values}
use citescoop.Dump.Citations.Lifetime.{gone, lifetime}
use citescoop.Dump.Citations.PageList.{AllStored, PageCitations, StoredRevisions}

same_value : (a b : Citation) → some a ≡ some b → a ≡ b
same_value a b h = cc

module _ (revisions : Map ℕ Revision) where
  -- The revisions that added and removed the citation are among these.
  abbrev pub NamesKnown : Citation → Type 0
  NamesKnown c =
      (contains revisions c.revision_added ≡ true)
      × ((id : ℕ) → c.revision_removed ≡ some id → contains revisions id ≡ true)

  gone-known :
      (key : Text) (rs : List RevisionCitations)
      → AllStored revisions rs
      → (id : ℕ) → gone key rs ≡ some id
      → contains revisions id ≡ true
  unfolding gone
  gone-known key [] h id e = cc
  gone-known key (r ∷ rs) h id e = ground (arith, gone-known key rs h.1 id, h.0)

  lifetime-NamesKnown :
      (key : Text) (rs : List RevisionCitations)
      → AllStored revisions rs
      → (c : Citation) → lifetime key rs ≡ some c
      → NamesKnown c
  unfolding lifetime
  lifetime-NamesKnown key [] h c e = cc
  lifetime-NamesKnown key (r ∷ rs) h c e = elim (Option-cases (find r.citations key)) [
    | inl absent ↦ lifetime-NamesKnown key rs h.1 c (sym (rw (absent, lifetime) refl) ∙ e)
    | inr (found, here) ↦
        let made : Citation = record {
          citation = found;
          revision_added = id_of r;
          revision_removed = gone key rs;
        } in
        subst NamesKnown (same_value made c (sym (rw (here, lifetime) refl) ∙ e))
          (h.0, gone-known key rs h.1)
  ]

-- What holds of everything that a map finds holds of all its values.
values-All :
    (P : Citation → Type 0) (m : Map Text Citation)
    → IsSorted m
    → ((key : Text) (c : Citation) → find m key ≡ some c → P c)
    → All P (values m)
unfolding find
values-All P [] sorted h = tt
values-All P ((k, c) ∷ m) sorted h = (
  h k c (ground (arith, text_ord.eq_iff k k)),
  values-All P m sorted.1 (λ key d found.
      h key d (ground (arith, text_ord.eq_iff k key, find-Above k m sorted.0, found))),
)

-- Each citation contributes to the references of all.
All-references :
    (cs : List Citation) (total : ℕ → ℕ)
    → ((id : ℕ) → references_in cs id ≤ total id)
    → All (λ c. (id : ℕ) → citation_references c id ≤ total id) cs
unfolding references_in
All-references [] total h = tt
All-references (c ∷ cs) total h =
    ((λ id. omega (arith, h id)), All-references cs total (λ id. omega (arith, h id)))

module _ (revisions to_store : Map ℕ Revision) (citations : List Citation) where
  kept :
      StoredRevisions revisions citations to_store
      → (id : ℕ) → 1 ≤ references_in citations id
      → contains revisions id ≡ true
      → contains to_store id ≡ true
  kept stored id named known = ground (arith, stored.at_id id, named, known)

  -- What is stored with a page has the revisions that its citations name.
  pub citations-NamesKnown :
      (rs : List RevisionCitations)
      → AllStored revisions rs
      → PageCitations rs citations
      → StoredRevisions revisions citations to_store
      → All (NamesKnown to_store) citations
  citations-NamesKnown rs known cited stored =
      All-weaken _ (NamesKnown to_store) citations
        (λ c (names, counts). (
          kept stored c.revision_added (ground (arith, counts c.revision_added)) names.0,
          λ id removed. kept stored id (ground (arith, counts id, removed)) (names.1 id removed),
        ))
        (All-and (NamesKnown revisions)
          (λ c. (id : ℕ) → citation_references c id ≤ references_in citations id) citations
          (subst (All (NamesKnown revisions)) (sym cited.listed) (
            values-All (NamesKnown revisions) cited.discovered cited.sorted (λ key c found.
              lifetime-NamesKnown revisions key rs known c (sym (cited.lifetimes key) ∙ found))))
          (All-references citations (references_in citations) (λ id. omega arith)))
