-- ===== src/Event/Laws.antt =====
-- src/event.rs: laws of field access.
use softnix_log_agent.Prelude.{
  ℕ, zero, suc, ◌+◌, ◌*◌, ◌-◌, ◌≤◌, ◌<◌, ◌≡◌, ◌≢◌, refl, sym, ap, ◌∙◌, ◌⊎◌, inl, inr, Bool-cases,
  Option-cases, ◌&&◌, leb, ◌==◌, if◌then◌else◌, Option, none, some, List, [], ◌∷◌, arith,
}
use Prim.Native.String.{String}
use text.Mathlib.TextEquality.{eq_iff}
use softnix_log_agent.Event.{
  Json, Value, string, Event, Name, other, name_of, get, insert, value_to_u8, parse_u8,
  parse_digits, severity_from_name, severity_name, get_named, get_field, get_str_named, get_str,
  set_named, set_field, codes, among, same,
}

module _ {Time Num Tree : Type 0} (json : Json Time Num Tree) where
  get_str_named-get_named :
      (n : Name) (ev : Event Time Num Tree) (s : String)
      → get_str_named json n ev ≡ some s
      → get_named json n ev ≡ some (string s)
  unfolding get_str_named get_named
  get_str_named-get_named n ev s h = ground arith

  -- Where the borrowing access to a field answers, the owned access answers the same string.
  pub get_str-get_field :
      (name : String) (ev : Event Time Num Tree) (s : String)
      → get_str json name ev ≡ some s
      → get_field json name ev ≡ some (string s)
  unfolding get_str get_field
  get_str-get_field name ev s h = get_str_named-get_named (name_of name) ev s h

module _ {V : Type 0} where
  pub get-insert :
      (k j : String) (v : V) (m : List (String × V)) → k ≢ j → get j (insert k v m) ≡ get j m
  unfolding get insert
  get-insert k j v [] ne = ground (arith, eq_iff k j)
  get-insert k j v ((i, w) ∷ m) ne =
      ground (arith, eq_iff k j, eq_iff i k, eq_iff i j, get-insert k j v m ne)

  pub get-insert_self : (k : String) (v : V) (m : List (String × V)) → get k (insert k v m) ≡ some v
  unfolding get insert
  get-insert_self k v [] = ground (arith, eq_iff k k)
  get-insert_self k v ((i, w) ∷ m) = ground (arith, eq_iff k k, eq_iff i k, get-insert_self k v m)

-- The text of a name.
abbrev text_of : Name → String
text_of Name.timestamp = "timestamp"
text_of Name.received_at = "received_at"
text_of Name.hostname = "hostname"
text_of Name.source = "source"
text_of Name.source_type = "source_type"
text_of Name.severity = "severity"
text_of Name.facility = "facility"
text_of Name.application = "application"
text_of Name.process_id = "process_id"
text_of Name.message = "message"
text_of Name.raw_message = "raw_message"
text_of Name.collector_version = "collector_version"
text_of (other k) = k

text_of-name_of : (s : String) → text_of (name_of s) ≡ s
unfolding name_of
text_of-name_of s = ground (
  arith,
  eq_iff s "timestamp",
  eq_iff s "received_at",
  eq_iff s "hostname",
  eq_iff s "source",
  eq_iff s "source_type",
  eq_iff s "severity",
  eq_iff s "facility",
  eq_iff s "application",
  eq_iff s "process_id",
  eq_iff s "message",
  eq_iff s "raw_message",
  eq_iff s "collector_version",
)

module _ {Time Num Tree : Type 0} (json : Json Time Num Tree) where
  get_named-set_named :
      (n m : Name) (v : Value Num Tree) (ev : Event Time Num Tree)
      → text_of n ≢ text_of m
      → get_named json m (set_named json n v ev) ≡ get_named json m ev
  unfolding get_named set_named
  get_named-set_named n m v ev ne =
      ground (arith, get-insert (text_of n) (text_of m) v ev.fields ne)

  -- Setting a field leaves every field of another name as it was.
  pub get_field-set_field :
      (name key : String) (v : Value Num Tree) (ev : Event Time Num Tree)
      → name ≢ key
      → get_field json key (set_field json name v ev) ≡ get_field json key ev
  unfolding get_field set_field
  get_field-set_field name key v ev ne =
      get_named-set_named (name_of name) (name_of key) v ev
        (λ e. ne (sym (text_of-name_of name) ∙ e ∙ text_of-name_of key))

-- The number that digits stand for, behind the number `n`; `none` where one is no digit.
unfoldable pub decimal : List ℕ → ℕ → Option ℕ
decimal [] n = some n
decimal (c ∷ cs) n =
    let rest = decimal cs (n * 10 + (c - 48)) in if leb 48 c && leb c 57 then rest else none

-- The number of a text of digits, a plus sign in front of them or not.
abbrev pub numeral : List ℕ → Option ℕ
numeral [] = none
numeral (c ∷ cs) = if c == 43 then decimal cs 0 else decimal (c ∷ cs) 0

parse_digits-decimal :
    (cs : List ℕ) (n m : ℕ)
    → n ≤ 255
    → parse_digits cs n ≡ some m
    → (decimal cs n ≡ some m) × (m ≤ 255)
unfolding parse_digits decimal
parse_digits-decimal [] n m h e = (ground arith, ground arith)
parse_digits-decimal (c ∷ cs) n m h e =
    let r : (decimal cs (n * 10 + (c - 48)) ≡ some m) × (m ≤ 255) =
      parse_digits-decimal cs (n * 10 + (c - 48)) m (ground arith) (ground arith) in
    (ground (arith, r.0), r.1)

-- A plus sign is no digit.
plus-none : (c m : ℕ) → c ≡ 43 → parse_digits (c ∷ []) 0 ≢ some m
unfolding parse_digits
plus-none c m h e = ground (arith, e)

parse_u8-numeral : (cs : List ℕ) (m : ℕ) → parse_u8 cs ≡ some m → (numeral cs ≡ some m) × (m ≤ 255)
unfolding parse_u8
parse_u8-numeral [] m e = ground arith
parse_u8-numeral (c ∷ []) m e = elim (Bool-cases (c == 43)) [
  | inl p ↦ absurd (plus-none c m (ground (arith, p)) e)
  | inr p ↦ rw p (parse_digits-decimal (c ∷ []) 0 m (omega arith) e)
]
parse_u8-numeral (c ∷ d ∷ cs) m e = elim (Bool-cases (c == 43)) [
  | inl p ↦ let r = parse_digits-decimal (d ∷ cs) 0 m (omega arith) (ground (arith, p)) in rw p r
  | inr p ↦
      let r = parse_digits-decimal (c ∷ d ∷ cs) 0 m (omega arith) (ground (arith, p)) in rw p r
]

module _ {Time Num Tree : Type 0} (json : Json Time Num Tree) where
  -- The value stands for this number of eight bits: it is the number, a numeral for it, or the name
  -- of a severity.
  abbrev pub Reads : Value Num Tree → ℕ → Type 0
  Reads (Value.number n) m = (json.as_u64 n ≡ some m) × (m ≤ 255)
  Reads (string s) m = ((numeral (codes s) ≡ some m) × (m ≤ 255)) ⊎ (severity_from_name s ≡ some m)
  Reads (Value.null) m = ⊥
  Reads (Value.bool b) m = ⊥
  Reads (Value.tree t) m = ⊥

  -- A severity or facility is read only from a value that stands for it: a number or a numeral of at
  -- most 255, which is never cut to eight bits, or the name of a severity.
  pub value_to_u8-Reads : (v : Value Num Tree) (m : ℕ) → value_to_u8 json v ≡ some m → Reads v m
  unfolding value_to_u8
  value_to_u8-Reads (Value.null) m e = ground arith
  value_to_u8-Reads (Value.bool b) m e = ground arith
  value_to_u8-Reads (Value.tree t) m e = ground arith
  value_to_u8-Reads (Value.number n) m e = (ground arith, ground arith)
  value_to_u8-Reads (string s) m e = elim (Option-cases (parse_u8 (codes s))) [
    | inl n ↦ inr (ground (arith, n))
    | inr (k, p) ↦
        let q : k ≡ m = ground (arith, p) in inl (parse_u8-numeral (codes s) m (p ∙ ap some q))
  ]

-- The name of a severity is read back as that severity.
pub severity_from_name-severity_name :
    (n : ℕ) → n < 8 → severity_from_name (severity_name n) ≡ some n
unfolding severity_from_name severity_name among same
severity_from_name-severity_name zero h = refl
severity_from_name-severity_name (suc zero) h = refl
severity_from_name-severity_name (suc (suc zero)) h = refl
severity_from_name-severity_name (suc (suc (suc zero))) h = refl
severity_from_name-severity_name (suc (suc (suc (suc zero)))) h = refl
severity_from_name-severity_name (suc (suc (suc (suc (suc zero))))) h = refl
severity_from_name-severity_name (suc (suc (suc (suc (suc (suc zero)))))) h = refl
severity_from_name-severity_name (suc (suc (suc (suc (suc (suc (suc zero))))))) h = refl
severity_from_name-severity_name (suc (suc (suc (suc (suc (suc (suc (suc n)))))))) h =
    absurd (omega arith)
