-- ===== src/Update.antt =====
-- src/update/manifest.rs: the versions and the freshness of a release manifest. Times are of a
-- third-party crate; signatures are checked before this code runs.
pub mod Freshness
mod Tests
use softnix_log_agent.Prelude.{
  ℕ, zero, suc, ◌+◌, ◌*◌, ◌-◌, ◌^◌, Bool, true, false, ◌&&◌, ◌||◌, not, Option, none, some, List,
  [], ◌∷◌, Io, done, fail, leb, ltb, ◌==◌, if◌then◌else◌,
}
use Prim.Native.String.{String}
use softnix_log_agent.Event.{codes}

-- What `chrono` gives: `parse::<DateTime<Utc>>` and the order of times.
pub record Clock (Time : Type 0) : Type 0 where
  pub parse_time : String → Option Time
  pub time_lt : Time → Time → Bool

-- the fields of a manifest that the tests read
pub record Manifest : Type 0 where
  pub version : String
  pub manifest_serial : ℕ
  pub expires_at : String
  pub min_upgrade_from : Option String

pub record Version : Type 0 where
  pub major : ℕ
  pub minor : ℕ
  pub patch : ℕ

-- `char::is_whitespace`
unfoldable pub is_whitespace : ℕ → Bool
is_whitespace c =
    (leb 9 c && leb c 13)
    || c == 32
    || c == 133
    || c == 160
    || c == 5760
    || (leb 8192 c && leb c 8202)
    || c == 8232
    || c == 8233
    || c == 8239
    || c == 8287
    || c == 12288

unfoldable pub trim_start : List ℕ → List ℕ
unfolding is_whitespace
trim_start [] = []
trim_start (c ∷ cs) = if is_whitespace c then trim_start cs else c ∷ cs

unfoldable pub trim_end : List ℕ → List ℕ
unfolding is_whitespace
trim_end [] = []
trim_end (c ∷ cs) = elim (trim_end cs) [
  | [] ↦ if is_whitespace c then [] else c ∷ []
  | d ∷ ds ↦ c ∷ d ∷ ds
]

-- What stands in front of the first dot, and what behind it, if there is one.
unfoldable pub split_dot : List ℕ → List ℕ × Option (List ℕ)
split_dot [] = ([], none)
split_dot (c ∷ cs) =
    let (head, tail) = split_dot cs in if c == 46 then ([], some cs) else (c ∷ head, tail)

-- The loop of `parse::<u64>` over the digits behind `n`.
unfoldable pub parse_u64_digits : List ℕ → ℕ → Option ℕ
parse_u64_digits [] n = some n
parse_u64_digits (c ∷ cs) n =
    let m = n * 10 + (c - 48) in
    let rest = parse_u64_digits cs m in
    if leb 48 c && leb c 57 && ltb m (2 ^ 64) then rest else none

unfoldable pub parse_u64 : List ℕ → Option ℕ
unfolding parse_u64_digits
parse_u64 [] = none
parse_u64 (c ∷ []) = parse_u64_digits (c ∷ []) 0
parse_u64 (c ∷ d ∷ cs) =
    if c == 43 then parse_u64_digits (d ∷ cs) 0 else parse_u64_digits (c ∷ d ∷ cs) 0

-- A part that `splitn` does not give is read as "0".
unfoldable pub parse_part : Option (List ℕ) → Option ℕ
unfolding parse_u64
parse_part none = parse_u64 (48 ∷ [])
parse_part (some cs) = parse_u64 cs

unfoldable pub parse_parts : List ℕ → Option (List ℕ) → Option (List ℕ) → Option Version
unfolding parse_part
parse_parts a b c = elim (parse_u64 a) [
  | none ↦ none
  | some major ↦ elim (parse_part b) [
    | none ↦ none
    | some minor ↦ elim (parse_part c) [
      | none ↦ none
      | some patch ↦ some (record { major = major; minor = minor; patch = patch })
    ]
  ]
]

-- `splitn(3, '.')`: the third part keeps its dots.
unfoldable pub parse_version : String → Option Version
unfolding parse_parts split_dot trim_start trim_end
parse_version v =
    let (a, rest) = split_dot (trim_end (trim_start (codes v))) in
    elim rest [
      | none ↦ parse_parts a none none
      | some cs ↦ let (b, c) = split_dot cs in parse_parts a (some b) c
    ]

-- The order of the triples.
unfoldable pub version_lt : Version → Version → Bool
version_lt v w =
    ltb v.major w.major
    || (v.major == w.major && (ltb v.minor w.minor || (v.minor == w.minor && ltb v.patch w.patch)))

module _ {Time : Type 0} (clock : Clock Time) where
  -- The last test of `check_freshness`.
  unfoldable pub check_min_from : Option String → Version → Io (Unit {0})
  check_min_from none running = done tt
  check_min_from (some min_from) running = elim (parse_version min_from) [
    | none ↦ fail
    | some v ↦ if version_lt running v then fail else done tt
  ]

  unfoldable pub check_versions : Manifest → String → Bool → Io (Unit {0})
  check_versions manifest running_version allow_downgrade = elim (parse_version manifest.version) [
    | none ↦ fail
    | some target ↦ elim (parse_version running_version) [
      | none ↦ fail
      | some running ↦
          if not allow_downgrade && version_lt target running
          then fail
          else check_min_from manifest.min_upgrade_from running
    ]
  ]

  unfoldable pub check_freshness : Manifest → ℕ → String → Bool → Time → Io (Unit {0})
  check_freshness manifest highest_seen_serial running_version allow_downgrade now =
      if leb manifest.manifest_serial highest_seen_serial
      then fail
      else elim (clock.parse_time manifest.expires_at) [
        | none ↦ fail
        | some expires_at ↦
            if clock.time_lt expires_at now
            then fail
            else check_versions manifest running_version allow_downgrade
      ]

-- `CheckOutcome`, without the text of the reason
pub data CheckOutcome : Type 0 where
  up_to_date : CheckOutcome
  available not_acceptable : String → CheckOutcome

module _ {Time : Type 0} (clock : Clock Time) where
  unfoldable pub evaluate_check : Manifest → ℕ → String → Time → Io CheckOutcome
  evaluate_check manifest highest_seen_serial running_version now =
      elim (parse_version manifest.version) [
        | none ↦ fail
        | some target ↦ elim (parse_version running_version) [
          | none ↦ fail
          | some running ↦
              if not (version_lt running target)
              then done up_to_date
              else elim (check_freshness clock manifest highest_seen_serial running_version false
                  now) [
                    | done _ ↦ done (available manifest.version)
                    | fail ↦ done (not_acceptable manifest.version)
                  ]
        ]
      ]
