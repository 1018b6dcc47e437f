-- ===== src/Parser/Entries.antt =====
-- The structs of src/parser/parser_impl.h that the grammar fills.
use citescoop.Prelude.{Option, List}
use citescoop.Prelude.Text.{Text}

pub record ParameterEntry : Type 0 where
  pub key : Text
  pub value : Option Text

pub record TemplateEntry : Type 0 where
  pub name : Text
  pub params : List ParameterEntry
