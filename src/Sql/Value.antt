-- ===== src/Sql/Value.antt =====
-- `append_value` of frostlake_sql.c: one bound value as a SQL literal. What PHP does to a value is a
-- parameter, `Php`.
pub mod Safe
use frostlake_pdo.Libc.{decimal}
use frostlake_pdo.Prelude.{
  Bool, Bytes, Option, [], codes, false, if◌then◌else◌, none, some, ℕ, ℤ, ◌&&◌, ◌++◌, ◌==◌, ◌∷◌,
}
use frostlake_pdo.Sql.Literal.{binary_literal, string_literal}
use frostlake_pdo.Sql.Numeric.{is_numeric_literal}
use frostlake_pdo.Sql.Scan.{last_byte}

-- A PHP value. A double, and an array, object or resource, are PHP's own.
pub data Zval (D O : Type 0) : Type 0 where
  null_value false_value true_value : Zval D O
  long_value : ℤ → Zval D O
  double_value : D → Zval D O
  string_value : Bytes → Zval D O
  resource_value : O → Zval D O
  other_value : O → Zval D O

-- PDO_PARAM_TYPE of a binding.
pub data ParamType : Type 0 where
  param_null param_bool param_int param_lob param_other : ParamType

pub record Param (D O : Type 0) : Type 0 where
  pub value : Zval D O
  pub type : ParamType

-- What the driver takes from PHP.
pub record Php (D O : Type 0) : Type 0 where
  -- zval_try_get_string, none if PHP threw
  pub to_string : Zval D O → Option Bytes
  -- zend_is_true
  pub is_true : Zval D O → Bool
  pub is_nan : D → Bool
  pub is_inf : D → Bool
  pub is_positive : D → Bool
  -- smart_str_append_double
  pub double_text : D → Bytes
  -- the stream of a resource, and the bytes that it has left
  pub stream : O → Option (Option Bytes)

-- A literal in the buffer, or a refusal: its SQLSTATE and its message.
pub data Appended : Type 0 where
  appended : Bytes → Appended
  refuses : Bytes → Bytes → Appended

-- `text[0] == '-'` of a text that has a byte.
abbrev pub is_negative : Bytes → Bool
is_negative [] = false
is_negative (c ∷ _) = c == b'-'

abbrev pub ends_in_minus : Option ℕ → Bool
ends_in_minus none = false
ends_in_minus (some c) = c == b'-'

-- `append_number`: what it adds to a buffer.
unfoldable pub number_literal : Bytes → Bytes → Bytes
number_literal out text =
    if is_negative text && ends_in_minus (last_byte none out) then b' ' ∷ text else text

module _ {D O : Type 0} (php : Php D O) where
  open php use {to_string, is_true, is_nan, is_inf, is_positive, double_text, stream}

  unfoldable pub append_double : Bytes → D → Bytes
  unfolding number_literal
  append_double out d =
      if is_nan d
      then codes "'NaN'::FLOAT"
      else if is_inf d
      then (if is_positive d then codes "'inf'::FLOAT" else codes "'-inf'::FLOAT")
      else number_literal out (double_text d)

  unfoldable pub append_as_string : Zval D O → Bytes → Appended
  append_as_string v out = elim (to_string v) [
    | none ↦ refuses (codes "HY105") (codes "A parameter could not be converted to a string")
    | some text ↦ appended (out ++ string_literal text)
  ]

  -- `case PDO_PARAM_INT`
  unfoldable pub append_int : Zval D O → Bytes → Appended
  append_int (long_value n) out = appended (out ++ number_literal out (decimal n))
  append_int true_value out = appended (out ++ codes "1")
  append_int false_value out = appended (out ++ codes "0")
  append_int (double_value d) out = appended (out ++ append_double out d)
  append_int (string_value s) out =
      if is_numeric_literal s
      then appended (out ++ number_literal out s)
      else appended (out ++ string_literal s)
  append_int v out = append_as_string v out

  -- `case PDO_PARAM_LOB`
  unfoldable pub append_lob : Zval D O → Bytes → Appended
  append_lob (resource_value r) out = elim (stream r) [
    | none ↦
        refuses (codes "HY105") (codes "Expected a stream resource for a PDO::PARAM_LOB parameter")
    | some none ↦ appended (out ++ binary_literal [])
    | some (some bytes) ↦ appended (out ++ binary_literal bytes)
  ]
  append_lob v out = elim (to_string v) [
    | none ↦ refuses (codes "HY105") (codes "A PDO::PARAM_LOB parameter could not be read as bytes")
    | some bytes ↦ appended (out ++ binary_literal bytes)
  ]

  -- The `switch` on the binding's type, for a value that is not null.
  unfoldable pub append_typed : ParamType → Zval D O → Bytes → Appended
  append_typed param_null v out = appended (out ++ codes "NULL")
  append_typed param_bool v out =
      appended (out ++ (if is_true v then codes "TRUE" else codes "FALSE"))
  append_typed param_int v out = append_int v out
  append_typed param_lob v out = append_lob v out
  append_typed param_other v out = append_as_string v out

  unfoldable pub append_zval : Zval D O → ParamType → Bytes → Appended
  append_zval null_value t out = appended (out ++ codes "NULL")
  append_zval v t out = append_typed t v out

  -- `append_value`
  unfoldable pub append_value : Param D O → Bytes → Appended
  unfolding append_zval append_typed append_int append_lob append_as_string append_double
  append_value p out = append_zval p.value p.type out
