-- ===== src/Pipeline/Tests.antt =====
-- src/event.rs and src/pipeline: runs on concrete events.
use softnix_log_agent.Prelude.{
  ℕ, ◌≡◌, refl, true, false, none, some, [], ◌∷◌, ◌++◌, done, arith, if◌then◌else◌,
}
use Prim.Native.String.{String}
use text.Mathlib.Text.{◌==◌ as str_eq}
use text.Mathlib.TextEquality.{eq_iff}
use softnix_log_agent.Event.{
  number, string, other, name_of, option_map, and_then, value_to_string, value_to_u8, get_field,
  get_str, set_field, severity_from_name, severity_name,
}
use softnix_log_agent.Event.Laws.{
  get_str-get_field, get_field-set_field, value_to_u8-Reads, Reads,
  severity_from_name-severity_name,
}
use softnix_log_agent.Pipeline.Sample.{json, texts, numbers, event}
use softnix_log_agent.Pipeline.Condition.{Condition, CompiledCondition, compile, eval_condition}
use softnix_log_agent.Pipeline.Condition.Paths.{eval_owned, eval_condition-eval_owned}
use softnix_log_agent.Pipeline.Transform.{
  CompiledStep, holds, rename_step, masked_text, apply_step, apply,
}
use softnix_log_agent.Pipeline.Transform.Laws.{
  masked_text-get_field, apply_step-mask_message, apply-append, rename_step-moves,
}

abbrev condition : Condition ℕ ℕ
condition = record { field = "message"; op = "eq"; value = some (string "secret") }

abbrev compiled : CompiledCondition ℕ ℕ String
compiled = record {
  field = "message";
  op = "eq";
  value = some (string "secret");
  value_str = some "secret";
  regex = none;
}

compiles : compile json texts condition ≡ done compiled
unfolding compile
compiles = refl

borrows : get_str json "user" event ≡ some "root"
unfolding get_str
borrows = refl

get_str-get_field_example : get_field json "user" event ≡ some (string "root")
get_str-get_field_example = get_str-get_field json "user" event "root" borrows

names_apart : (s t : String) → str_eq s t ≡ false → s ≡ t → ⊥
names_apart s t d e = ground (arith, eq_iff s t)

reads_u8 : value_to_u8 json (number 7) ≡ some 7
unfolding value_to_u8
reads_u8 = refl

value_to_u8-Reads_example : Reads json (number 7) 7
value_to_u8-Reads_example = value_to_u8-Reads json (number 7) 7 reads_u8

severity_from_name-severity_name_example : severity_from_name (severity_name 4) ≡ some 4
severity_from_name-severity_name_example = severity_from_name-severity_name 4 (omega arith)

get_field-set_field_example :
    get_field json "message" (set_field json "user" (string "x") event)
    ≡ get_field json "message" event
get_field-set_field_example =
    get_field-set_field json "user" "message" (string "x") event (names_apart "user" "message" refl)

eval_condition-eval_owned_example :
    eval_condition json texts compiled event ≡ eval_owned json texts compiled event
eval_condition-eval_owned_example =
    eval_condition-eval_owned json texts condition compiled event compiles

masked_text-get_field_example :
    masked_text json texts numbers "user" "root" "***" event
    ≡ option_map
        (λ s. texts.replace_all "root" s "***")
        (and_then (get_field json "user" event) (value_to_string json))
masked_text-get_field_example = masked_text-get_field json texts numbers "user" "root" "***" event

always : holds json texts numbers none event ≡ true
unfolding holds
always = refl

apply_step-mask_message_example :
    apply_step json texts numbers (CompiledStep.mask "message" "secret" "***" none) event
    ≡ (true, record event { message = "***"; raw_message = some "***" })
apply_step-mask_message_example =
    apply_step-mask_message json texts numbers "secret" "***" none event always

apply-append_example :
    apply json texts numbers
      (CompiledStep.keep compiled ∷ [] ++ CompiledStep.drop compiled ∷ [])
      event
    ≡ (let (stays, next) = apply json texts numbers (CompiledStep.keep compiled ∷ []) event in
        if stays
        then apply json texts numbers (CompiledStep.drop compiled ∷ []) next
        else (false, next))
apply-append_example =
    apply-append json texts numbers (CompiledStep.keep compiled ∷ [])
      (CompiledStep.drop compiled ∷ []) event

user_other : name_of "user" ≡ other "user"
unfolding name_of
user_other = refl

login_other : name_of "login" ≡ other "login"
unfolding name_of
login_other = refl

reads_user : get_field json "user" event ≡ some (string "root")
unfolding get_field
reads_user = refl

rename_step-moves_example :
    (get_field json "login" (rename_step json texts numbers "user" "login" event)
      ≡ some (string "root"))
    × (get_field json "user" (rename_step json texts numbers "user" "login" event) ≡ none)
rename_step-moves_example =
    rename_step-moves json texts numbers "user" "login" (string "root") event user_other login_other
      (names_apart "user" "login" refl) reads_user
