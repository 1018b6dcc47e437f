-- ===== src/Exceptions.antt =====
-- The messages of the program's exceptions: src/parser/exceptions.cc and
-- src/extract/exceptions.cc.
pub mod Truncate
use citescoop.Prelude.{ℕ, ◌-◌, ◌++◌, [], ◌∷◌, leb, length, take, if◌then◌else◌}
use citescoop.Prelude.Text.{Text, codes}
use citescoop.Result.{Error, template_parse_exception, dump_parse_exception}

abbrev pub max_length : ℕ
max_length = 100

unfoldable pub truncate_input : Text → Text
truncate_input input =
    if leb (length input) max_length then input else take (max_length - 3) input ++ codes "..."

-- The constructors of TemplateParseException, without and with the input.
unfoldable pub template_parse_error : Text → Error
template_parse_error message =
    template_parse_exception (codes "Citation parse failure: " ++ message)

unfoldable pub template_parse_error_at : Text → Text → Error
template_parse_error_at message input_text = template_parse_exception (
    codes "Citation parse failure: "
    ++ (message ++ (codes " (input: \"" ++ (truncate_input input_text ++ codes "\")"))))

-- The constructor of DumpParseException.
unfoldable pub dump_parse_error : Text → Error
dump_parse_error message = dump_parse_exception (codes "Dump parse failure: " ++ message)
