-- ===== src/Pipeline/Transform.antt =====
-- src/pipeline/transform.rs: the chain of transforms.
pub mod Laws
use softnix_log_agent.Prelude.{
  ℕ, Bool, true, false, not, Option, none, some, List, [], ◌∷◌, map, Io, done, fail, if◌then◌else◌,
}
use Prim.Native.String.{String}
use text.Mathlib.Text.{◌==◌ as str_eq}
use softnix_log_agent.Event.{
  Json, Value, null, bool, number, string, tree, Event, option_map, and_then, value_to_string,
  get_field, get_str, set_field, remove_field, codes, lower, among,
}
use softnix_log_agent.Pipeline.Condition.{
  Texts, Condition, CompiledCondition, compile, eval_condition,
}

-- What the conversions call of `serde_json` and `str`: `as_i64` and `parse::<i64>` behind `trim`,
-- both back as a number, the same for `f64`, and the test for zero.
pub record Numbers (Num : Type 0) : Type 0 where
  pub int_of_num : Num → Option Num
  pub int_of_string : String → Option Num
  pub int_of_bool : Bool → Num
  pub float_of_num : Num → Option Num
  pub float_of_string : String → Option Num
  pub num_is_zero : Num → Bool

pub data TransformStep (Num Tree : Type 0) : Type 0 where
  add_field : String → Value Num Tree → Option (Condition Num Tree) → TransformStep Num Tree
  remove_field_step : String → Option (Condition Num Tree) → TransformStep Num Tree
  rename_field : String → String → Option (Condition Num Tree) → TransformStep Num Tree
  convert : String → String → Option (Condition Num Tree) → TransformStep Num Tree
  mask : String → String → String → Option (Condition Num Tree) → TransformStep Num Tree
  drop : Condition Num Tree → TransformStep Num Tree
  keep : Condition Num Tree → TransformStep Num Tree

pub data CompiledStep (Num Tree Regex : Type 0) : Type 0 where
  add_field :
      String
      → Value Num Tree
      → Option (CompiledCondition Num Tree Regex)
      → CompiledStep Num Tree Regex
  remove_field_step :
      String → Option (CompiledCondition Num Tree Regex) → CompiledStep Num Tree Regex
  rename_field :
      String → String → Option (CompiledCondition Num Tree Regex) → CompiledStep Num Tree Regex
  convert :
      String → String → Option (CompiledCondition Num Tree Regex) → CompiledStep Num Tree Regex
  mask :
      String
      → Regex
      → String
      → Option (CompiledCondition Num Tree Regex)
      → CompiledStep Num Tree Regex
  drop : CompiledCondition Num Tree Regex → CompiledStep Num Tree Regex
  keep : CompiledCondition Num Tree Regex → CompiledStep Num Tree Regex

-- `?` and `map` on a `Result`
abbrev pub io_then : {A B : Type 0} → Io A → (A → Io B) → Io B
io_then fail f = fail
io_then (done a) f = f a

module _ {Time Num Tree Regex Float : Type 0} (json : Json Time Num Tree)
    (texts : Texts Num Regex Float) (numbers : Numbers Num) where
  unfoldable pub compile_when :
      Option (Condition Num Tree) → Io (Option (CompiledCondition Num Tree Regex))
  compile_when none = done none
  compile_when (some c) = io_then (compile json texts c) (λ k. done (some k))

  -- `Regex::new(&pattern)?`
  abbrev regex_new : String → Io Regex
  regex_new pattern = elim (texts.compile_regex pattern) [ none ↦ fail | some re ↦ done re ]

  unfoldable pub compile_step : TransformStep Num Tree → Io (CompiledStep Num Tree Regex)
  unfolding compile_when
  compile_step (TransformStep.add_field field value when) =
      io_then (compile_when when) (λ w. done (CompiledStep.add_field field value w))
  compile_step (TransformStep.remove_field_step field when) =
      io_then (compile_when when) (λ w. done (CompiledStep.remove_field_step field w))
  compile_step (TransformStep.rename_field from to when) =
      io_then (compile_when when) (λ w. done (CompiledStep.rename_field from to w))
  compile_step (TransformStep.convert field to when) =
      io_then (compile_when when) (λ w. done (CompiledStep.convert field to w))
  compile_step (TransformStep.mask field pattern replacement when) =
      io_then (regex_new pattern)
        (λ re. io_then (compile_when when) (λ w. done (CompiledStep.mask field re replacement w)))
  compile_step (TransformStep.drop when) =
      io_then (compile json texts when) (λ w. done (CompiledStep.drop w))
  compile_step (TransformStep.keep when) =
      io_then (compile json texts when) (λ w. done (CompiledStep.keep w))

  unfoldable pub compile_steps :
      List (TransformStep Num Tree) → Io (List (CompiledStep Num Tree Regex))
  compile_steps [] = done []
  compile_steps (t ∷ ts) =
      io_then (compile_step t) (λ s. io_then (compile_steps ts) (λ ss. done (s ∷ ss)))

  -- `when.as_ref().is_none_or(..)`
  unfoldable pub holds : Option (CompiledCondition Num Tree Regex) → Event Time Num Tree → Bool
  holds none ev = true
  holds (some w) ev = eval_condition json texts w ev

  -- the arm for `"bool"`, of a string
  unfoldable pub bool_of_string : String → Option (Value Num Tree)
  unfolding among
  bool_of_string s =
      let cs = map lower (codes s) in
      if among cs ("true" ∷ "1" ∷ "yes" ∷ [])
      then some (bool true)
      else if among cs ("false" ∷ "0" ∷ "no" ∷ [])
      then some (bool false)
      else none

  unfoldable pub to_int : Value Num Tree → Option (Value Num Tree)
  to_int (number n) = option_map number (numbers.int_of_num n)
  to_int (string s) = option_map number (numbers.int_of_string s)
  to_int (bool b) = some (number (numbers.int_of_bool b))
  to_int _ = none

  unfoldable pub to_float : Value Num Tree → Option (Value Num Tree)
  to_float (number n) = option_map number (numbers.float_of_num n)
  to_float (string s) = option_map number (numbers.float_of_string s)
  to_float _ = none

  unfoldable pub to_bool : Value Num Tree → Option (Value Num Tree)
  unfolding bool_of_string
  to_bool (bool b) = some (bool b)
  to_bool (string s) = bool_of_string s
  to_bool (number n) = some (bool (not (numbers.num_is_zero n)))
  to_bool _ = none

  unfoldable pub convert_value : Value Num Tree → String → Option (Value Num Tree)
  unfolding value_to_string to_int to_float to_bool
  convert_value v to =
      if str_eq to "string"
      then option_map string (value_to_string json v)
      else if str_eq to "int"
      then to_int v
      else if str_eq to "float"
      then to_float v
      else if str_eq to "bool"
      then to_bool v
      else none

  unfoldable pub rename_step : String → String → Event Time Num Tree → Event Time Num Tree
  rename_step from to ev = elim (get_field json from ev) [
    | none ↦ ev
    | some v ↦ set_field json to v (remove_field json from ev)
  ]

  unfoldable pub convert_step : String → String → Event Time Num Tree → Event Time Num Tree
  convert_step field to ev = elim (and_then (get_field json field ev) (λ v. convert_value v to)) [
    | none ↦ ev
    | some v ↦ set_field json field v ev
  ]

  -- The masked text of the field: by the borrowing access, or of the stringified value.
  unfoldable pub masked_text : String → Regex → String → Event Time Num Tree → Option String
  masked_text field re replacement ev = elim (get_str json field ev) [
    | some s ↦ some (texts.replace_all re s replacement)
    | none ↦
        option_map (λ s. texts.replace_all re s replacement)
          (and_then (get_field json field ev) (value_to_string json))
  ]

  unfoldable pub mask_field : String → Regex → String → Event Time Num Tree → Event Time Num Tree
  unfolding masked_text
  mask_field field re replacement ev = elim (masked_text field re replacement ev) [
    | none ↦ ev
    | some s ↦ set_field json field (string s) ev
  ]

  unfoldable pub mask_step : String → Regex → String → Event Time Num Tree → Event Time Num Tree
  mask_step field re replacement ev =
      let masked = mask_field field re replacement ev in
      if str_eq field "message"
      then record masked {
        raw_message = option_map (λ raw. texts.replace_all re raw replacement) masked.raw_message;
      }
      else masked

  -- One step: whether the event stays, and the event.
  unfoldable pub apply_step :
      CompiledStep Num Tree Regex → Event Time Num Tree → Bool × Event Time Num Tree
  apply_step (CompiledStep.add_field field value when) ev =
      (true, if holds when ev then set_field json field value ev else ev)
  apply_step (CompiledStep.remove_field_step field when) ev =
      (true, if holds when ev then remove_field json field ev else ev)
  apply_step (CompiledStep.rename_field from to when) ev =
      (true, if holds when ev then rename_step from to ev else ev)
  apply_step (CompiledStep.convert field to when) ev =
      (true, if holds when ev then convert_step field to ev else ev)
  apply_step (CompiledStep.mask field re replacement when) ev =
      (true, if holds when ev then mask_step field re replacement ev else ev)
  apply_step (CompiledStep.drop when) ev = (not (eval_condition json texts when ev), ev)
  apply_step (CompiledStep.keep when) ev = (eval_condition json texts when ev, ev)

  -- `Transformer::apply`: nothing behind a step that drops the event is run.
  unfoldable pub apply :
      List (CompiledStep Num Tree Regex) → Event Time Num Tree → Bool × Event Time Num Tree
  apply [] ev = (true, ev)
  apply (s ∷ ss) ev =
      let (stays, next) = apply_step s ev in
      elim stays [ false ↦ (false, next) | true ↦ apply ss next ]
