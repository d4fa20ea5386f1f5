-- ===== src/Pipeline/Condition/Paths.antt =====
-- src/pipeline/condition.rs: the two paths of `eval_condition`.
use softnix_log_agent.Prelude.{
  ◌≡◌, inl, inr, refl, sym, Bool, true, false, not, ◌||◌, Option, none, some, done, arith,
  Option-cases, if◌then◌else◌,
}
use Prim.Native.String.{String}
use text.Mathlib.Text.{◌==◌ as str_eq}
use text.Mathlib.TextEquality.{eq_iff}
use softnix_log_agent.Event.{
  Json, Value, null, bool, number, string, tree, Event, and_then, value_to_string, get_field,
  get_str,
}
use softnix_log_agent.Event.Laws.{get_str-get_field}
use softnix_log_agent.Pipeline.Condition.{
  Texts, Condition, CompiledCondition, compile, value_eq, values_eq, str_op, eval_str_op,
  eval_value_op, op_eq, op_ne, op_contains, op_matches, value_op, field_present, eval_order,
  eval_condition,
}

-- A text that is one text is not another.
apart : (s t u : String) → str_eq t u ≡ false → str_eq s t ≡ true → str_eq s u ≡ false
apart s t u d h = let e : s ≡ t = (eq_iff s t).0 h in rw e d

module _ {Time Num Tree Regex Float : Type 0} (json : Json Time Num Tree)
    (texts : Texts Num Regex Float) where
  -- What `compile` establishes of the fields that it derives.
  compile-value_str :
      (c : Condition Num Tree) (cond : CompiledCondition Num Tree Regex)
      → compile json texts c ≡ done cond
      → cond.value_str ≡ and_then cond.value (value_to_string json)
  unfolding compile
  compile-value_str c cond h = ground arith

  values_eq-string :
      (a : String) (b : Value Num Tree)
      → values_eq json texts (string a) b
        ≡ elim (value_to_string json b) [ none ↦ false | some y ↦ str_eq a y ]
  unfolding values_eq value_eq value_to_string
  values_eq-string a null = ground arith
  values_eq-string a (bool b) = ground arith
  values_eq-string a (number n) = ground arith
  values_eq-string a (string s) = ground arith
  values_eq-string a (tree t) = ground arith

  op_eq-string :
      (a : String) (v : Option (Value Num Tree))
      → op_eq json texts (some (string a)) v
        ≡ elim (and_then v (value_to_string json)) [ none ↦ false | some b ↦ str_eq a b ]
  unfolding op_eq
  op_eq-string a none = refl
  op_eq-string a (some b) = values_eq-string a b

  op_ne-string :
      (a : String) (v : Option (Value Num Tree)) (w : Option String)
      → w ≡ and_then v (value_to_string json)
      → op_ne json texts (some (string a)) v
        ≡ elim v [ none ↦ false | some _ ↦ elim w [ none ↦ true | some b ↦ not (str_eq a b) ] ]
  unfolding op_ne
  op_ne-string a none w e = refl
  op_ne-string a (some b) w e = ground (arith, values_eq-string a b)

  op_contains-string :
      (a : String) (v : Option (Value Num Tree))
      → op_contains json texts (some (string a)) v
        ≡ elim (and_then v (value_to_string json)) [ none ↦ false | some b ↦ texts.contains a b ]
  unfolding op_contains value_to_string
  op_contains-string a none = refl
  op_contains-string a (some b) = ground arith

  op_matches-string :
      (a : String) (r : Option Regex)
      → op_matches json texts (some (string a)) r
        ≡ elim r [ none ↦ false | some re ↦ texts.is_match re a ]
  unfolding op_matches value_to_string
  op_matches-string a none = refl
  op_matches-string a (some re) = refl

  -- Both paths on a field that holds a string.
  str_op-value_op :
      (cond : CompiledCondition Num Tree Regex) (a : String) (hit : Bool)
      → cond.value_str ≡ and_then cond.value (value_to_string json)
      → str_op json texts cond a ≡ some hit
      → value_op json texts cond (some (string a)) ≡ hit
  unfolding str_op
  str_op-value_op cond a hit e h =
      let v = cond.value in
      unfold value_op in
      rw
        (
          op_eq-string a v,
          op_ne-string a v cond.value_str e,
          op_contains-string a v,
          op_matches-string a cond.regex,
          ← e,
        )
        (ground (arith, apart cond.op "contains" "eq" refl, apart cond.op "contains" "ne" refl))

  -- On a compiled condition, the path that borrows the field answers what the path that owns its
  -- value does, wherever it answers.
  pub eval_str_op-eval_value_op :
      (c : Condition Num Tree) (cond : CompiledCondition Num Tree Regex) (ev : Event Time Num Tree)
      (hit : Bool)
      → compile json texts c ≡ done cond
      → eval_str_op json texts cond ev ≡ some hit
      → eval_value_op json texts cond ev ≡ hit
  unfolding eval_str_op eval_value_op
  eval_str_op-eval_value_op c cond ev hit h e = elim (Option-cases (get_str json cond.field ev)) [
    | inl n ↦ ground arith
    | inr (a, g) ↦
        rw (get_str-get_field json cond.field ev a g)
          (str_op-value_op cond a hit (compile-value_str c cond h) (ground arith))
  ]

  -- The evaluation as it was before the borrowing path: every operator owns the field's value.
  unfoldable pub eval_owned : CompiledCondition Num Tree Regex → Event Time Num Tree → Bool
  eval_owned cond ev =
      let present : Bool = elim (get_field json cond.field ev) [ some _ ↦ true | none ↦ false ] in
      if str_eq cond.op "exists"
      then present
      else if str_eq cond.op "not_exists"
      then not present
      else if str_eq cond.op "eq"
          || str_eq cond.op "ne"
          || str_eq cond.op "contains"
          || str_eq cond.op "matches"
      then eval_value_op json texts cond ev
      else if str_eq cond.op "gt" || str_eq cond.op "lt"
      then eval_order json texts cond ev
      else false

  field_present-get_field :
      (cond : CompiledCondition Num Tree Regex) (ev : Event Time Num Tree)
      → field_present json texts cond ev
        ≡ elim (get_field json cond.field ev) [ some _ ↦ true | none ↦ false ]
  unfolding field_present
  field_present-get_field cond ev = elim (Option-cases (get_str json cond.field ev)) [
    | inl n ↦ ground arith
    | inr (a, g) ↦ ground (arith, get_str-get_field json cond.field ev a g)
  ]

  borrowed-owned :
      (c : Condition Num Tree) (cond : CompiledCondition Num Tree Regex) (ev : Event Time Num Tree)
      → compile json texts c ≡ done cond
      → (elim (eval_str_op json texts cond ev) [
        | some hit ↦ hit
        | none ↦ eval_value_op json texts cond ev
      ])
        ≡ eval_value_op json texts cond ev
  borrowed-owned c cond ev h = elim (Option-cases (eval_str_op json texts cond ev)) [
    | inl n ↦ rw n
    | inr (hit, g) ↦ rw g (sym (eval_str_op-eval_value_op c cond ev hit h g))
  ]

  -- A compiled condition, whatever its operator, is evaluated as if every operator owned the
  -- field's value.
  pub eval_condition-eval_owned :
      (c : Condition Num Tree) (cond : CompiledCondition Num Tree Regex) (ev : Event Time Num Tree)
      → compile json texts c ≡ done cond
      → eval_condition json texts cond ev ≡ eval_owned cond ev
  unfolding eval_condition eval_owned
  eval_condition-eval_owned c cond ev h =
      rw (field_present-get_field cond ev, borrowed-owned c cond ev h)
