-- ===== src/Pipeline/Condition.antt =====
-- src/pipeline/condition.rs: the conditions of outputs and transforms. Regular expressions and
-- floating-point numbers are parameters.
pub mod Paths
use softnix_log_agent.Prelude.{
  Bool, true, false, ◌&&◌, ◌||◌, not, Option, none, some, Io, done, fail, if◌then◌else◌,
}
use Prim.Native.String.{String}
use text.Mathlib.Text.{◌==◌ as str_eq}
use softnix_log_agent.Event.{
  Json, Value, null, bool, number, string, tree, Event, option_map, and_then, value_to_string,
  get_field, get_str,
}

-- The `regex` crate, `str::contains`, and `f64`.
pub record Texts (Num Regex Float : Type 0) : Type 0 where
  pub compile_regex : String → Option Regex
  pub is_match : Regex → String → Bool
  pub replace_all : Regex → String → String → String
  pub contains : String → String → Bool
  pub as_f64 : Num → Option Float
  pub parse_f64 : String → Option Float
  pub float_lt : Float → Float → Bool

pub record Condition (Num Tree : Type 0) : Type 0 where
  pub field : String
  pub op : String
  pub value : Option (Value Num Tree)

pub record CompiledCondition (Num Tree Regex : Type 0) : Type 0 where
  pub field : String
  pub op : String
  pub value : Option (Value Num Tree)
  pub value_str : Option String
  pub regex : Option Regex

module _ {Time Num Tree Regex Float : Type 0} (json : Json Time Num Tree)
    (texts : Texts Num Regex Float) where
  -- `Regex::new` of the literal, for the operator `matches` with a string only
  unfoldable pub compile_pattern : Condition Num Tree → Io (Option Regex)
  compile_pattern c =
      if str_eq c.op "matches"
      then elim c.value [
        | none ↦ done none
        | some v ↦ elim v [
          | string pat ↦ elim (texts.compile_regex pat) [ none ↦ fail | some re ↦ done (some re) ]
          | null ↦ done none
          | bool b ↦ done none
          | number n ↦ done none
          | tree t ↦ done none
        ]
      ]
      else done none

  unfoldable pub compile : Condition Num Tree → Io (CompiledCondition Num Tree Regex)
  unfolding compile_pattern value_to_string
  compile c = elim (compile_pattern c) [
    | fail ↦ fail
    | done re ↦ done (record {
      field = c.field;
      op = c.op;
      value = c.value;
      value_str = and_then c.value (value_to_string json);
      regex = re;
    })
  ]

  -- `PartialEq` of `Value`
  unfoldable pub value_eq : Value Num Tree → Value Num Tree → Bool
  value_eq null null = true
  value_eq (bool a) (bool b) = if a then b else not b
  value_eq (number a) (number b) = json.num_eq a b
  value_eq (string a) (string b) = str_eq a b
  value_eq (tree a) (tree b) = json.tree_eq a b
  value_eq _ _ = false

  unfoldable pub values_eq : Value Num Tree → Value Num Tree → Bool
  unfolding value_eq value_to_string
  values_eq a b = if value_eq a b then true else elim (value_to_string json a) [
    | none ↦ false
    | some x ↦ elim (value_to_string json b) [ none ↦ false | some y ↦ str_eq x y ]
  ]

  unfoldable pub value_to_f64 : Value Num Tree → Option Float
  value_to_f64 (number n) = texts.as_f64 n
  value_to_f64 (string s) = texts.parse_f64 s
  value_to_f64 null = none
  value_to_f64 (bool b) = none
  value_to_f64 (tree t) = none

  -- The path that borrows the field: the arms of its `match`.
  unfoldable pub str_op : CompiledCondition Num Tree Regex → String → Option Bool
  str_op cond a =
      if str_eq cond.op "contains"
      then some (elim cond.value_str [ none ↦ false | some b ↦ texts.contains a b ])
      else if str_eq cond.op "eq"
      then some (elim cond.value_str [ none ↦ false | some b ↦ str_eq a b ])
      else if str_eq cond.op "ne"
      then some (elim cond.value [
        | none ↦ false
        | some _ ↦ elim cond.value_str [ none ↦ true | some b ↦ not (str_eq a b) ]
      ])
      else if str_eq cond.op "matches"
      then some (elim cond.regex [ none ↦ false | some re ↦ texts.is_match re a ])
      else none

  unfoldable pub eval_str_op : CompiledCondition Num Tree Regex → Event Time Num Tree → Option Bool
  unfolding str_op get_str
  eval_str_op cond ev = elim (get_str json cond.field ev) [ none ↦ none | some a ↦ str_op cond a ]

  unfoldable pub op_eq : Option (Value Num Tree) → Option (Value Num Tree) → Bool
  unfolding values_eq
  op_eq (some a) (some b) = values_eq a b
  op_eq _ _ = false

  unfoldable pub op_ne : Option (Value Num Tree) → Option (Value Num Tree) → Bool
  unfolding values_eq
  op_ne (some a) (some b) = not (values_eq a b)
  op_ne none (some b) = true
  op_ne _ none = false

  unfoldable pub op_contains : Option (Value Num Tree) → Option (Value Num Tree) → Bool
  unfolding value_to_string
  op_contains (some a) (some b) = elim (value_to_string json a) [
    | none ↦ false
    | some x ↦ elim (value_to_string json b) [ none ↦ false | some y ↦ texts.contains x y ]
  ]
  op_contains _ _ = false

  unfoldable pub op_matches : Option (Value Num Tree) → Option Regex → Bool
  unfolding value_to_string
  op_matches (some a) (some re) = elim (value_to_string json a) [
    | none ↦ false
    | some x ↦ texts.is_match re x
  ]
  op_matches _ _ = false

  -- The path that owns the field's value: the arms of its `match`.
  unfoldable pub value_op : CompiledCondition Num Tree Regex → Option (Value Num Tree) → Bool
  unfolding op_eq op_ne op_contains op_matches
  value_op cond field_val =
      if str_eq cond.op "eq"
      then op_eq field_val cond.value
      else if str_eq cond.op "ne"
      then op_ne field_val cond.value
      else if str_eq cond.op "contains"
      then op_contains field_val cond.value
      else if str_eq cond.op "matches"
      then op_matches field_val cond.regex
      else false

  unfoldable pub eval_value_op : CompiledCondition Num Tree Regex → Event Time Num Tree → Bool
  unfolding value_op get_field
  eval_value_op cond ev = value_op cond (get_field json cond.field ev)

  unfoldable pub field_present : CompiledCondition Num Tree Regex → Event Time Num Tree → Bool
  unfolding get_str get_field
  field_present cond ev =
      elim (get_str json cond.field ev) [ some _ ↦ true | none ↦ false ]
      || elim (get_field json cond.field ev) [ some _ ↦ true | none ↦ false ]

  -- `gt` and `lt`: both sides as numbers
  unfoldable pub eval_order : CompiledCondition Num Tree Regex → Event Time Num Tree → Bool
  unfolding value_to_f64 get_field
  eval_order cond ev = elim (and_then (get_field json cond.field ev) value_to_f64) [
    | none ↦ false
    | some a ↦ elim (and_then cond.value value_to_f64) [
      | none ↦ false
      | some b ↦ if str_eq cond.op "gt" then texts.float_lt b a else texts.float_lt a b
    ]
  ]

  unfoldable pub eval_condition : CompiledCondition Num Tree Regex → Event Time Num Tree → Bool
  unfolding field_present eval_str_op eval_value_op eval_order
  eval_condition cond ev =
      if str_eq cond.op "exists"
      then field_present cond ev
      else if str_eq cond.op "not_exists"
      then not (field_present cond ev)
      else if str_eq cond.op "eq"
          || str_eq cond.op "ne"
          || str_eq cond.op "contains"
          || str_eq cond.op "matches"
      then elim (eval_str_op cond ev) [ some hit ↦ hit | none ↦ eval_value_op cond ev ]
      else if str_eq cond.op "gt" || str_eq cond.op "lt"
      then eval_order cond ev
      else false
