-- ===== src/Pipeline/Transform/Laws.antt =====
-- src/pipeline/transform.rs: masking, renaming, and the order of a chain.
use softnix_log_agent.Prelude.{
  ◌≡◌, ◌≢◌, inl, inr, refl, sym, ◌∙◌, true, false, Option, none, some, List, [], ◌∷◌, ◌++◌, arith,
  Option-cases, Bool-cases, if◌then◌else◌,
}
use Prim.Native.String.{String}
use softnix_log_agent.Event.{
  Json, Value, Event, other, name_of, get, remove, option_map, and_then, value_to_string, get_named,
  get_field, get_str_named, get_str, set_named, set_field, remove_field,
}
use softnix_log_agent.Event.Laws.{get_str-get_field, get_field-set_field, get-insert_self}
use softnix_log_agent.Pipeline.Condition.{Texts, CompiledCondition}
use softnix_log_agent.Pipeline.Transform.{
  Numbers, CompiledStep, holds, rename_step, masked_text, mask_field, mask_step, apply_step, apply,
}

module _ {V : Type 0} where
  get-remove : (k : String) (m : List (String × V)) → get k (remove k m) ≡ none
  unfolding get remove
  get-remove k [] = refl
  get-remove k ((j, v) ∷ m) = ground (arith, get-remove k m)

module _ {Time Num Tree Regex Float : Type 0} (json : Json Time Num Tree)
    (texts : Texts Num Regex Float) (numbers : Numbers Num) where
  -- The masked text does not depend on the path that reads the field.
  pub masked_text-get_field :
      (field : String) (re : Regex) (replacement : String) (ev : Event Time Num Tree)
      → masked_text json texts numbers field re replacement ev
        ≡ option_map
            (λ s. texts.replace_all re s replacement)
            (and_then (get_field json field ev) (value_to_string json))
  unfolding masked_text value_to_string
  masked_text-get_field field re replacement ev = elim (Option-cases (get_str json field ev)) [
    | inl n ↦ rw (masked_text, n)
    | inr (s, g) ↦ rw (masked_text, g, get_str-get_field json field ev s g)
  ]

  -- A mask of `message` whose condition holds masks the message and the raw message alike, keeps
  -- every other field, and keeps the event.
  pub apply_step-mask_message :
      (re : Regex) (replacement : String) (when : Option (CompiledCondition Num Tree Regex))
      (ev : Event Time Num Tree)
      → holds json texts numbers when ev ≡ true
      → apply_step json texts numbers (CompiledStep.mask "message" re replacement when) ev ≡ (
        true,
        record ev {
          message = texts.replace_all re ev.message replacement;
          raw_message = option_map (λ raw. texts.replace_all re raw replacement) ev.raw_message;
        },
      )
  unfolding apply_step mask_step mask_field masked_text get_str set_field get_str_named set_named
  apply_step-mask_message re replacement when ev h = rw h

  apply-step :
      (s : CompiledStep Num Tree Regex) (ss : List (CompiledStep Num Tree Regex))
      (ev : Event Time Num Tree)
      → (apply_step json texts numbers s ev).0 ≡ true
      → apply json texts numbers (s ∷ ss) ev
        ≡ apply json texts numbers ss (apply_step json texts numbers s ev).1
  unfolding apply
  apply-step s ss ev h = rw (apply, h)

  apply-stop :
      (s : CompiledStep Num Tree Regex) (ss : List (CompiledStep Num Tree Regex))
      (ev : Event Time Num Tree)
      → (apply_step json texts numbers s ev).0 ≡ false
      → apply json texts numbers (s ∷ ss) ev ≡ (false, (apply_step json texts numbers s ev).1)
  unfolding apply apply_step
  apply-stop s ss ev h = rw (apply, h)

  -- A chain of two parts runs the second on what the first leaves, and only if the first keeps the
  -- event.
  pub apply-append :
      (ss ts : List (CompiledStep Num Tree Regex)) (ev : Event Time Num Tree)
      → apply json texts numbers (ss ++ ts) ev ≡ (
          let (stays, next) = apply json texts numbers ss ev in
          if stays then apply json texts numbers ts next else (false, next))
  apply-append [] ts ev = unfold apply in refl
  apply-append (s ∷ ss) ts ev = elim (Bool-cases (apply_step json texts numbers s ev).0) [
    | inl h ↦
        rw (apply-step s (ss ++ ts) ev h, apply-step s ss ev h)
          (apply-append ss ts (apply_step json texts numbers s ev).1)
    | inr h ↦ rw (apply-stop s (ss ++ ts) ev h, apply-stop s ss ev h)
  ]

  rename_step-some :
      (from to : String) (v : Value Num Tree) (ev : Event Time Num Tree)
      → get_field json from ev ≡ some v
      → rename_step json texts numbers from to ev ≡ set_field json to v (remove_field json from ev)
  unfolding rename_step set_field
  rename_step-some from to v ev g = rw (rename_step, g)

  get_field-remove_field :
      (key : String) (ev : Event Time Num Tree)
      → name_of key ≡ other key
      → get_field json key (remove_field json key ev) ≡ none
  unfolding get_field get_named remove_field
  get_field-remove_field key ev f = rw (get_field, remove_field, f) (get-remove key ev.fields)

  -- Renaming a custom field that is there to another custom field, of another name, moves its value to
  -- that name and leaves none under the old one.
  pub rename_step-moves :
      (from to : String) (v : Value Num Tree) (ev : Event Time Num Tree)
      → name_of from ≡ other from
      → name_of to ≡ other to
      → from ≢ to
      → get_field json from ev ≡ some v
      → (get_field json to (rename_step json texts numbers from to ev) ≡ some v)
        × (get_field json from (rename_step json texts numbers from to ev) ≡ none)
  unfolding get_field set_field get_named set_named
  rename_step-moves from to v ev f t ne g = rw (rename_step-some from to v ev g) (
    rw t (get-insert_self to v (remove_field json from ev).fields),
    get_field-set_field json to from v (remove_field json from ev) (λ e. ne (sym e))
        ∙ get_field-remove_field from ev f,
  )
