-- ===== src/Tests/SqlRuns.antt =====
-- Runs of the scanner, the literals, the substitution and the tracking of src/frostlake_sql.c.
use frostlake_pdo.Libc.{bytes_eq, decimal, decimal_nat}
use frostlake_pdo.Prelude.{
  Bytes, [], arith, codes, false, get_or, length, negsuc, none, refl, some, true, ◌++◌, ◌||◌, ◌↔◌,
  ◌∷◌, ◌≡◌, ◌≢◌,
}
use frostlake_pdo.Sql.Identifier.{is_identifier, quoted_ok}
use frostlake_pdo.Sql.Literal.{doubled, string_literal}
use frostlake_pdo.Sql.Literal.Closed.{skip-string_literal}
use frostlake_pdo.Sql.Numeric.{is_numeric_literal, span}
use frostlake_pdo.Sql.Numeric.Accepts.{is_numeric_literal_iff}
use frostlake_pdo.Sql.Numeric.Grammar.{IsNumber, is_numeric_literal-IsNumber}
use frostlake_pdo.Sql.Render.{
  Params, at_index, bind_index, done, find_index, finish, render_loop, render_statement, round,
  starved,
}
use frostlake_pdo.Sql.Render.Counts.{render-questions, render_statement-ne-starved}
use frostlake_pdo.Sql.Render.Tokens.{
  parameters, questions, render_statement-substitute, statement_tokens, token, tokens, two_passes,
}
use frostlake_pdo.Sql.Scan.{opens_named_parameter, single_quoted, skip, skip_pair}
use frostlake_pdo.Sql.Session.{
  Tracked, is_one_of, leading_words, note_words, object_kind, touches_session, track_loop,
  track_session, transaction_effect, word, words_loop,
}
use frostlake_pdo.Sql.Session.Statements.{
  any_touches, last_decision, statements, track_session_fields,
}
use frostlake_pdo.Sql.Session.Use.{role, statements-use_statement, use_statement}
use frostlake_pdo.Sql.Value.{
  long_value, Param, Php, append_int, append_typed, append_value, append_zval, appended,
  number_literal, param_int, string_value,
}
use frostlake_pdo.Sql.Value.Safe.{SqlLiteral, append_value-SqlLiteral}

skip-string_literal_example :
    skip (some b'(') (string_literal (codes "it's \\ ?") ++ codes ")")
    ≡ some (string_literal (codes "it's \\ ?"), codes ")")
skip-string_literal_example =
    skip-string_literal (some b'(') (codes "it's \\ ?") (codes ")") (ground arith)

abbrev some_bytes : Bytes
some_bytes = 0 ∷ 39 ∷ 255 ∷ []

-- A PHP without doubles or objects.
abbrev plain_php : Php (Unit {0}) (Unit {0})
plain_php = record {
  to_string = λ _. none;
  is_true = λ _. false;
  is_nan = λ _. false;
  is_inf = λ _. false;
  is_positive = λ _. false;
  double_text = λ _. [];
  stream = λ _. none;
}

abbrev one_int : Params (Unit {0}) (Unit {0})
one_int = (at_index 0, record { value = long_value (negsuc 4); type = param_int }) ∷ []

abbrev query : Bytes
query = codes "SELECT '?', 7-?"

render_statement-substitute_example :
    render_statement plain_php one_int query ≡ two_passes plain_php one_int query
render_statement-substitute_example = render_statement-substitute plain_php one_int query

query-rendered : render_statement plain_php one_int query ≡ done (codes "SELECT '?', 7- -5")
unfolding render_statement render_loop round bind_index find_index finish skip skip_pair
    single_quoted append_value append_zval append_typed append_int number_literal decimal
    decimal_nat opens_named_parameter
query-rendered = refl

query-questions : questions (statement_tokens query) ≡ 1
unfolding tokens token skip skip_pair single_quoted opens_named_parameter
query-questions = refl

render-questions_example :
    (questions (statement_tokens query) ≡ length one_int)
    × (parameters (statement_tokens query) ≡ 0)
render-questions_example =
    render-questions plain_php one_int query (omega arith) (omega (arith, query-questions))
      query-rendered

render_statement-ne-starved_example : render_statement plain_php one_int query ≢ starved
render_statement-ne-starved_example = render_statement-ne-starved plain_php one_int query

abbrev requested : Bytes
requested = codes "BEGIN; USE ROLE a; COMMIT"

abbrev untouched : Tracked
untouched = record { dirty = false; in_transaction = false }

track_session_fields_example :
    ((track_session true requested untouched).dirty ≡ (any_touches (statements requested) || false))
    × ((track_session true requested untouched).in_transaction
        ≡ get_or (last_decision true (statements requested)) false)
track_session_fields_example = track_session_fields true requested untouched

requested-tracked :
    track_session true requested untouched ≡ record { dirty = true; in_transaction = false }
unfolding track_session track_loop skip skip_pair note_words leading_words words_loop word span
    touches_session bytes_eq transaction_effect is_one_of object_kind
requested-tracked = refl

quoted_name : is_identifier (codes "\"a;b\"") ≡ true
unfolding is_identifier quoted_ok
quoted_name = refl

statements-use_statement_example :
    statements (use_statement role (codes "\"a;b\"")) ≡ use_statement role (codes "\"a;b\"") ∷ []
statements-use_statement_example = statements-use_statement role (codes "\"a;b\"") quoted_name

is_numeric_literal_iff_example :
    (is_numeric_literal (codes " -1.5e+3") ≡ true) ↔ IsNumber (codes " -1.5e+3")
is_numeric_literal_iff_example = is_numeric_literal_iff (codes " -1.5e+3")

not_numeric : is_numeric_literal (codes "0 OR 1=1") ≡ false
unfolding is_numeric_literal
not_numeric = refl

-- A PHP with one double, whose text is a number.
abbrev float_php : Php (Unit {0}) (Unit {0})
float_php = record {
  to_string = λ _. none;
  is_true = λ _. false;
  is_nan = λ _. false;
  is_inf = λ _. false;
  is_positive = λ _. true;
  double_text = λ _. codes "2.5";
  stream = λ _. none;
}

one_text-IsNumber : IsNumber (codes "2.5")
unfolding is_numeric_literal
one_text-IsNumber = is_numeric_literal-IsNumber (codes "2.5") refl

abbrev injected : Param (Unit {0}) (Unit {0})
injected = record { value = string_value (codes "0 OR 1=1"); type = param_int }

injected-appended : append_value float_php injected (codes "id=") ≡ appended (codes "id='0 OR 1=1'")
unfolding append_value is_numeric_literal string_literal doubled
injected-appended = refl

append_value-SqlLiteral_example :
    (lit : Bytes) × SqlLiteral lit × (codes "id='0 OR 1=1'" ≡ codes "id=" ++ lit)
append_value-SqlLiteral_example =
    append_value-SqlLiteral float_php (λ _ _ _. one_text-IsNumber) injected (codes "id=")
      injected-appended
