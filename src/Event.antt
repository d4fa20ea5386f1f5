-- ===== src/Event.antt =====
-- src/event.rs: the event, and access to its fields by name. Times, JSON numbers, arrays and objects
-- are of third-party crates: the record `Json` holds what the code calls of them.
pub mod Laws
use softnix_log_agent.Prelude.{
  ℕ, zero, suc, ◌+◌, ◌*◌, ◌-◌, Bool, true, false, ◌&&◌, ◌||◌, Option, none, some, List, [], ◌∷◌,
  map, length, leb, ltb, ◌==◌, if◌then◌else◌,
}
use Prim.Native.Char.{code}
use Prim.Native.String.{String}
use text.Mathlib.Text.{◌==◌ as str_eq}

-- `Time` stands for `DateTime<Utc>`, `Num` for `serde_json::Number`, and `Tree` for an array or an
-- object.
pub record Json (Time Num Tree : Type 0) : Type 0 where
  pub to_rfc3339 : Time → String
  pub parse_from_rfc3339 : String → Option Time
  pub num_to_string : Num → String
  pub tree_to_string : Tree → String
  pub num_eq : Num → Num → Bool
  pub tree_eq : Tree → Tree → Bool
  pub as_u64 : Num → Option ℕ
  pub num_of : ℕ → Num

pub data Value (Num Tree : Type 0) : Type 0 where
  null : Value Num Tree
  bool : Bool → Value Num Tree
  number : Num → Value Num Tree
  string : String → Value Num Tree
  tree : Tree → Value Num Tree

pub record Event (Time Num Tree : Type 0) : Type 0 where
  pub timestamp : Time
  pub received_at : Time
  pub hostname : Option String
  pub source : String
  pub source_type : String
  pub severity : Option ℕ
  pub facility : Option ℕ
  pub application : Option String
  pub process_id : Option String
  pub message : String
  pub raw_message : Option String
  pub collector_version : String
  pub fields : List (String × Value Num Tree)

-- The names that the `match`es on a field name tell apart.
pub data Name : Type 0 where
  timestamp received_at hostname source source_type severity facility : Name
  application process_id message raw_message collector_version : Name
  other : String → Name

unfoldable pub name_of : String → Name
name_of s =
    if str_eq s "timestamp"
    then Name.timestamp
    else if str_eq s "received_at"
    then Name.received_at
    else if str_eq s "hostname"
    then Name.hostname
    else if str_eq s "source"
    then Name.source
    else if str_eq s "source_type"
    then Name.source_type
    else if str_eq s "severity"
    then Name.severity
    else if str_eq s "facility"
    then Name.facility
    else if str_eq s "application"
    then Name.application
    else if str_eq s "process_id"
    then Name.process_id
    else if str_eq s "message"
    then Name.message
    else if str_eq s "raw_message"
    then Name.raw_message
    else if str_eq s "collector_version"
    then Name.collector_version
    else other s

-- `Map<String, Value>`, as an association list
module _ {V : Type 0} where
  unfoldable pub get : String → List (String × V) → Option V
  get k [] = none
  get k ((j, v) ∷ m) = if str_eq j k then some v else get k m

  unfoldable pub insert : String → V → List (String × V) → List (String × V)
  insert k v [] = (k, v) ∷ []
  insert k v ((j, w) ∷ m) = if str_eq j k then (k, v) ∷ m else (j, w) ∷ insert k v m

  unfoldable pub remove : String → List (String × V) → List (String × V)
  remove k [] = []
  remove k ((j, v) ∷ m) = let rest = remove k m in if str_eq j k then rest else (j, v) ∷ rest

abbrev pub option_map : {A B : Type 0} → (A → B) → Option A → Option B
option_map f none = none
option_map f (some a) = some (f a)

abbrev pub and_then : {A B : Type 0} → Option A → (A → Option B) → Option B
and_then none f = none
and_then (some a) f = f a

abbrev pub unwrap_or : {A : Type 0} → A → Option A → A
unwrap_or d none = d
unwrap_or d (some a) = a

-- The code points of a text.
abbrev pub codes : String → List ℕ
codes String.[] = []
codes (String.◌∷◌ c s) = code c ∷ codes s

unfoldable pub same : List ℕ → List ℕ → Bool
same [] [] = true
same [] (d ∷ ds) = false
same (c ∷ cs) [] = false
same (c ∷ cs) (d ∷ ds) = (c == d) && same cs ds

-- `to_ascii_lowercase`
abbrev pub lower : ℕ → ℕ
lower c = if leb 65 c && leb c 90 then c + 32 else c

-- `a if "x" | "y" =>`: whether a text is among these.
unfoldable pub among : List ℕ → List String → Bool
unfolding same
among cs [] = false
among cs (s ∷ ss) = same cs (codes s) || among cs ss

unfoldable pub severity_from_name : String → Option ℕ
unfolding among
severity_from_name s =
    let cs = map lower (codes s) in
    if among cs ("emerg" ∷ "emergency" ∷ "panic" ∷ [])
    then some 0
    else if among cs ("alert" ∷ [])
    then some 1
    else if among cs ("crit" ∷ "critical" ∷ "fatal" ∷ [])
    then some 2
    else if among cs ("err" ∷ "error" ∷ [])
    then some 3
    else if among cs ("warn" ∷ "warning" ∷ [])
    then some 4
    else if among cs ("notice" ∷ [])
    then some 5
    else if among cs ("info" ∷ "informational" ∷ [])
    then some 6
    else if among cs ("debug" ∷ "trace" ∷ [])
    then some 7
    else none

unfoldable pub severity_name : ℕ → String
severity_name sev =
    if sev == 0
    then "emerg"
    else if sev == 1
    then "alert"
    else if sev == 2
    then "crit"
    else if sev == 3
    then "err"
    else if sev == 4
    then "warning"
    else if sev == 5
    then "notice"
    else if sev == 6
    then "info"
    else "debug"

-- The loop of `parse::<u8>` over the digits behind `n`.
unfoldable pub parse_digits : List ℕ → ℕ → Option ℕ
parse_digits [] n = some n
parse_digits (c ∷ cs) n =
    let m = n * 10 + (c - 48) in
    let rest = parse_digits cs m in if leb 48 c && leb c 57 && leb m 255 then rest else none

-- `s.parse::<u8>()`: digits, with at most one plus sign in front
unfoldable pub parse_u8 : List ℕ → Option ℕ
unfolding parse_digits
parse_u8 [] = none
parse_u8 (c ∷ []) = parse_digits (c ∷ []) 0
parse_u8 (c ∷ d ∷ cs) = if c == 43 then parse_digits (d ∷ cs) 0 else parse_digits (c ∷ d ∷ cs) 0

module _ {Time Num Tree : Type 0} (json : Json Time Num Tree) where
  unfoldable pub value_to_string : Value Num Tree → Option String
  value_to_string null = none
  value_to_string (bool b) = some (if b then "true" else "false")
  value_to_string (number n) = some (json.num_to_string n)
  value_to_string (string s) = some s
  value_to_string (tree t) = some (json.tree_to_string t)

  -- `u8::try_from(x).ok()`
  abbrev pub try_u8 : ℕ → Option ℕ
  try_u8 n = if leb n 255 then some n else none

  unfoldable pub value_to_u8 : Value Num Tree → Option ℕ
  unfolding parse_u8 severity_from_name
  value_to_u8 (number n) = and_then (json.as_u64 n) try_u8
  value_to_u8 (string s) = elim (parse_u8 (codes s)) [
    | some n ↦ some n
    | none ↦ severity_from_name s
  ]
  value_to_u8 null = none
  value_to_u8 (bool b) = none
  value_to_u8 (tree t) = none

  unfoldable pub get_named : Name → Event Time Num Tree → Option (Value Num Tree)
  unfolding get
  get_named Name.timestamp ev = some (string (json.to_rfc3339 ev.timestamp))
  get_named Name.received_at ev = some (string (json.to_rfc3339 ev.received_at))
  get_named Name.hostname ev = option_map string ev.hostname
  get_named Name.source ev = some (string ev.source)
  get_named Name.source_type ev = some (string ev.source_type)
  get_named Name.severity ev = option_map (λ n. number (json.num_of n)) ev.severity
  get_named Name.facility ev = option_map (λ n. number (json.num_of n)) ev.facility
  get_named Name.application ev = option_map string ev.application
  get_named Name.process_id ev = option_map string ev.process_id
  get_named Name.message ev = some (string ev.message)
  get_named Name.raw_message ev = option_map string ev.raw_message
  get_named Name.collector_version ev = some (string ev.collector_version)
  get_named (other k) ev = get k ev.fields

  unfoldable pub get_field : String → Event Time Num Tree → Option (Value Num Tree)
  unfolding get_named name_of
  get_field name ev = get_named (name_of name) ev

  -- `Some(Value::String(s)) => Some(s.as_str())`
  abbrev as_str : Option (Value Num Tree) → Option String
  as_str (some (string s)) = some s
  as_str _ = none

  unfoldable pub get_str_named : Name → Event Time Num Tree → Option String
  unfolding get
  get_str_named Name.message ev = some ev.message
  get_str_named Name.raw_message ev = ev.raw_message
  get_str_named Name.hostname ev = ev.hostname
  get_str_named Name.application ev = ev.application
  get_str_named Name.process_id ev = ev.process_id
  get_str_named Name.source ev = some ev.source
  get_str_named Name.source_type ev = some ev.source_type
  get_str_named Name.timestamp ev = none
  get_str_named Name.received_at ev = none
  get_str_named Name.severity ev = none
  get_str_named Name.facility ev = none
  get_str_named Name.collector_version ev = none
  get_str_named (other k) ev = as_str (get k ev.fields)

  unfoldable pub get_str : String → Event Time Num Tree → Option String
  unfolding get_str_named name_of
  get_str name ev = get_str_named (name_of name) ev

  -- `set_field`; the two names that only `get_field` treats as core fields go to the map.
  unfoldable pub set_named : Name → Value Num Tree → Event Time Num Tree → Event Time Num Tree
  unfolding value_to_string value_to_u8 insert
  set_named Name.hostname v ev = record ev { hostname = value_to_string v }
  set_named Name.source v ev = record ev { source = unwrap_or ev.source (value_to_string v) }
  set_named Name.source_type v ev = record ev {
    source_type = unwrap_or ev.source_type (value_to_string v);
  }
  set_named Name.severity v ev = record ev { severity = value_to_u8 v }
  set_named Name.facility v ev = record ev { facility = value_to_u8 v }
  set_named Name.application v ev = record ev { application = value_to_string v }
  set_named Name.process_id v ev = record ev { process_id = value_to_string v }
  set_named Name.message v ev = record ev { message = unwrap_or ev.message (value_to_string v) }
  set_named Name.raw_message v ev = record ev { raw_message = value_to_string v }
  set_named Name.timestamp v ev = record ev {
    timestamp = unwrap_or ev.timestamp (and_then (value_to_string v) json.parse_from_rfc3339);
  }
  set_named Name.received_at v ev = record ev { fields = insert "received_at" v ev.fields }
  set_named Name.collector_version v ev = record ev {
    fields = insert "collector_version" v ev.fields;
  }
  set_named (other k) v ev = record ev { fields = insert k v ev.fields }

  unfoldable pub set_field : String → Value Num Tree → Event Time Num Tree → Event Time Num Tree
  unfolding set_named name_of
  set_field name v ev = set_named (name_of name) v ev

  -- `remove_field`: a core field that is always there has no case of its own.
  unfoldable pub remove_field : String → Event Time Num Tree → Event Time Num Tree
  unfolding name_of remove
  remove_field name ev = elim (name_of name) [
    | Name.hostname ↦ record ev { hostname = none }
    | Name.severity ↦ record ev { severity = none }
    | Name.facility ↦ record ev { facility = none }
    | Name.application ↦ record ev { application = none }
    | Name.process_id ↦ record ev { process_id = none }
    | Name.raw_message ↦ record ev { raw_message = none }
    | _ ↦ record ev { fields = remove name ev.fields }
  ]

  -- `preserve_raw`
  unfoldable pub preserve_raw : String → Event Time Num Tree → Event Time Num Tree
  preserve_raw raw ev = elim ev.raw_message [
    | none ↦ record ev { raw_message = some raw }
    | some _ ↦ ev
  ]
