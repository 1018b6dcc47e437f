-- ===== src/Dump/State.antt =====
-- The fields of class DumpParser (src/extract/dump_parser.h), and what the class is given.
use citescoop.Prelude.{ℕ, Bool, false, List, []}
use citescoop.Prelude.Text.{Text}
use citescoop.Proto.{
  Timestamp, Revision, RevisionCitations, Page, empty_page, empty_revision, empty_citations,
}
use citescoop.Result.{Result}
use citescoop.StdMap.{Map}
use citescoop.Dump.Citations.{Sort}

-- `output` is what the virtual method Store writes to. The flag store_revision_ is never used.
pub record DumpParser (O : Type 0) : Type 0 where
  pub in_page : Bool
  pub in_revision : Bool
  pub in_contributor : Bool
  pub should_store : Bool
  pub text_buf : Text
  pub citations_by_revision : List RevisionCitations
  pub current_citations : RevisionCitations
  pub current_page : Page
  pub current_revision : Revision
  pub current_page_revisions : Map ℕ Revision
  pub revisions_to_store : Map ℕ Revision
  pub output : O

-- What the class calls: Parser::Parse of its parser, std::ranges::sort, TimeUtil::FromString on a
-- default time stamp, and the method Store that a subclass may override.
pub record Services (O : Type 0) : Type 0 where
  pub parse : Text → Result RevisionCitations
  pub sort : Sort
  pub timestamp_from : Text → Timestamp
  pub store : Map ℕ Revision → Page → O → O

module _ {O : Type 0} where
  unfoldable pub reset_state : DumpParser O → DumpParser O
  reset_state p = record p {
    in_page = false;
    in_revision = false;
    in_contributor = false;
    should_store = false;
  }

  -- InitializeParser; `current_citations_` and `text_buf_` stay as they are.
  unfoldable pub initialize_parser : DumpParser O → DumpParser O
  unfolding reset_state
  initialize_parser p = reset_state (record p {
    revisions_to_store = [];
    current_page = empty_page;
    current_revision = empty_revision;
    current_page_revisions = [];
    citations_by_revision = [];
  })

  -- A new object, set up by InitializeParser; the flags have no value before.
  unfoldable pub new_parser : O → DumpParser O
  unfolding initialize_parser
  new_parser output = initialize_parser (record {
    in_page = false;
    in_revision = false;
    in_contributor = false;
    should_store = false;
    text_buf = [];
    citations_by_revision = [];
    current_citations = empty_citations;
    current_page = empty_page;
    current_revision = empty_revision;
    current_page_revisions = [];
    revisions_to_store = [];
    output = output;
  })
