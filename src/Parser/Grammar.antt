-- ===== src/Parser/Grammar.antt =====
-- The rules of the grammar of citation templates, at the beginning of src/parser/parser_impl.cc.
pub mod Chars
pub mod Junk
pub mod Params
pub mod ParamList
pub mod Template
pub mod Wikitext
use citescoop.Prelude.{ℕ, true, Option, none, some, List, [], ◌∷◌}
use citescoop.Prelude.Text.{Text, codes}
use citescoop.Parser.Combinators.{Combinators}
use citescoop.Parser.Entries.{ParameterEntry, TemplateEntry}

module _ (b : Combinators) where
  -- p - 'x' - 'y' ...
  unfoldable pub except : b.Rule ℕ → Text → b.Rule ℕ
  except p [] = p
  except p (c ∷ marks) = except (b.minus p (b.lit (c ∷ []))) marks

  unfoldable pub template_type_rule : b.Rule Text
  unfolding except
  template_type_rule = b.lexeme (b.plus (except b.char (codes "|")))

  unfoldable pub key_rule : b.Rule Text
  unfolding except
  key_rule = b.lexeme (b.star (except b.char (codes "=|}")))

  unfoldable pub val_rule : b.Rule Text
  unfolding except
  val_rule = b.seq_right (b.lit (codes "=")) (b.lexeme (b.star (except b.char (codes "|}"))))

  unfoldable pub param_rule : b.Rule ParameterEntry
  unfolding key_rule val_rule
  param_rule =
      b.attribute (λ kv. record { key = kv.0; value = kv.1 }) (b.seq key_rule (b.optional val_rule))

  unfoldable pub template_rule : b.Rule TemplateEntry
  unfolding template_type_rule param_rule
  template_rule =
      b.attribute (λ np. record { name = np.0; params = np.1 })
        (b.seq_left
          (b.seq
            (b.seq_left (b.seq_right (b.lit (codes "{{")) template_type_rule) (b.lit (codes "|")))
            (b.separated param_rule (b.lit (codes "|"))))
          (b.lit (codes "}}")))

  -- Any characters up to the next "{{", which stays.
  unfoldable pub skip_to_template : b.Rule Text
  skip_to_template = b.star (b.seq_right (b.not_here (b.lit (codes "{{"))) b.char)

  unfoldable pub wikitext_rule : b.Rule (List TemplateEntry)
  unfolding skip_to_template template_rule
  wikitext_rule = b.star (b.seq_right (b.omit skip_to_template) template_rule)

  -- bp::prefix_parse of the rule, with bp::ws as the skipper.
  unfoldable pub prefix_parse : Text → Option (List TemplateEntry)
  unfolding wikitext_rule
  prefix_parse text = elim (b.match wikitext_rule true text) [
    | none ↦ none
    | some (entries, rest) ↦ some entries
  ]
