-- ===== src/Proto.antt =====
-- The protocol buffer messages, of the package citescoop-proto. Its generated classes are not in
-- the repository: a message is the values that the program stores in it through the accessors of
-- its fields. A field that was not set is `none`, or the default value where only the getter is
-- called.
use citescoop.Prelude.{ℕ, Option, none, some, List, []}
use citescoop.Prelude.Int.{ℤ, pos}
use citescoop.Prelude.Text.{Text}

pub record Timestamp : Type 0 where
  pub seconds : ℤ
  pub nanos : ℤ

pub data UrlType : Type 0 where
  url_type_default url_type_archive : UrlType

pub record Url : Type 0 where
  pub type : UrlType
  pub url : Text

pub record Identifiers : Type 0 where
  pub doi : Option Text
  pub isbn : Option Text
  pub issn : Option Text
  pub pmid : Option ℕ
  pub pmcid : Option ℕ

abbrev pub no_identifiers : Identifiers
no_identifiers = record { doi = none; isbn = none; issn = none; pmid = none; pmcid = none }

pub record ExtractedCitation : Type 0 where
  pub title : Option Text
  pub identifiers : Option Identifiers
  pub urls : List Url

pub record Revision : Type 0 where
  pub revision_id : ℕ
  pub parent_id : Option ℕ
  pub user : Option Text
  pub timestamp : Option Timestamp

abbrev pub empty_revision : Revision
empty_revision = record { revision_id = 0; parent_id = none; user = none; timestamp = none }

-- The getter of a message field gives the default message where the field is not set.
abbrev pub timestamp_or_default : Option Timestamp → Timestamp
timestamp_or_default none = record { seconds = pos 0; nanos = pos 0 }
timestamp_or_default (some t) = t

abbrev pub revision_or_default : Option Revision → Revision
revision_or_default none = empty_revision
revision_or_default (some r) = r

-- `citations` is a map field: its entries, in the order in which it happens to be iterated.
pub record RevisionCitations : Type 0 where
  pub revision : Option Revision
  pub citations : List (Text × ExtractedCitation)

abbrev pub empty_citations : RevisionCitations
empty_citations = record { revision = none; citations = [] }

pub record Citation : Type 0 where
  pub citation : ExtractedCitation
  pub revision_added : ℕ
  pub revision_removed : Option ℕ

pub record Page : Type 0 where
  pub page_id : ℕ
  pub title : Option Text
  pub citations : List Citation

abbrev pub empty_page : Page
empty_page = record { page_id = 0; title = none; citations = [] }

pub record Author : Type 0 where
  pub openalex_id : Text
  pub name : Option Text
  pub orcid : Option Text

pub record Institution : Type 0 where
  pub openalex_id : Text
  pub name : Option Text
  pub ror : Option Text

pub data OaCategory : Type 0 where
  oa_category_unspecified oa_category_diamond oa_category_gold oa_category_green oa_category_hybrid
        oa_category_bronze oa_category_closed :
      OaCategory

-- A language is the number of its value in the enumeration, where 0 is unspecified.
pub record Work : Type 0 where
  pub openalex_id : Text
  pub title : Option Text
  pub publication_date : Option Timestamp
  pub language : Option ℕ
  pub oa_status : OaCategory
  pub oa_url : Option Text
  pub author_ids : List Text
  pub institution_ids : List Text
  pub ids : Identifiers
