-- ===== src/Outputs/Format/Pri.antt =====
-- src/outputs/format.rs and src/pipeline/syslog.rs: the priority that is written is the one that is
-- read.
use softnix_log_agent.Prelude.{
  ℕ, zero, suc, ◌+◌, ◌/◌, ◌%◌, ◌≤◌, ◌<◌, ◌≡◌, refl, false, some, List, [], ◌∷◌, ◌++◌, map, length,
  arith, ltb, if◌then◌else◌, Bool-cases, inl, inr, is_char, split_once-append, Without,
}
use Prim.Native.Char.{Char, code}
use softnix_log_agent.Update.{parse_u64, parse_u64_digits}
use softnix_log_agent.Pipeline.Syslog.{parse_pri}
use softnix_log_agent.Outputs.Format.{digit, show_u8}

code-digit : (n : ℕ) → n < 10 → code (digit n) ≡ 48 + n
unfolding digit
code-digit zero h = refl
code-digit (suc zero) h = refl
code-digit (suc (suc zero)) h = refl
code-digit (suc (suc (suc zero))) h = refl
code-digit (suc (suc (suc (suc zero)))) h = refl
code-digit (suc (suc (suc (suc (suc zero))))) h = refl
code-digit (suc (suc (suc (suc (suc (suc zero)))))) h = refl
code-digit (suc (suc (suc (suc (suc (suc (suc zero))))))) h = refl
code-digit (suc (suc (suc (suc (suc (suc (suc (suc zero)))))))) h = refl
code-digit (suc (suc (suc (suc (suc (suc (suc (suc (suc n))))))))) h = omega arith

-- The digits of a number, as the parser reads them.
shown : ℕ → List ℕ
shown n =
    if ltb n 10
    then (48 + n) ∷ []
    else if ltb n 100
    then (48 + n / 10) ∷ (48 + n % 10) ∷ []
    else (48 + n / 100) ∷ (48 + n / 10 % 10) ∷ (48 + n % 10) ∷ []

map-show_u8 : (n : ℕ) → n < 256 → map code (show_u8 n) ≡ shown n
unfolding show_u8 shown
map-show_u8 n h = ground (
  arith,
  code-digit n,
  code-digit (n / 10),
  code-digit (n % 10),
  code-digit (n / 100),
  code-digit (n / 10 % 10),
)

parse_u64-shown : (n : ℕ) → n < 256 → parse_u64 (shown n) ≡ some n
unfolding parse_u64 parse_u64_digits shown
parse_u64-shown n h = ground arith

Without-digit : (n : ℕ) → n < 10 → is_char b'>' (digit n) ≡ false
Without-digit n h = ground (arith, code-digit n h)

Without-show_u8 : (n : ℕ) → n < 256 → Without b'>' (show_u8 n)
unfolding show_u8
Without-show_u8 n h = elim (Bool-cases (ltb n 10)) [
  | inl a ↦ rw (show_u8, a) (Without-digit n (ground arith), tt)
  | inr a ↦ elim (Bool-cases (ltb n 100)) [
    | inl b ↦
        rw (show_u8, a, b)
          (Without-digit (n / 10) (ground arith), (Without-digit (n % 10) (omega arith), tt))
    | inr b ↦
        rw (show_u8, a, b)
          (
            Without-digit (n / 100) (omega arith),
            (Without-digit (n / 10 % 10) (omega arith), (Without-digit (n % 10) (omega arith), tt)),
          )
  ]
]

length-show_u8 : (n : ℕ) → (1 ≤ length (show_u8 n)) × (length (show_u8 n) ≤ 3)
unfolding show_u8
length-show_u8 n = (ground arith, ground arith)

pub parse_pri-show_u8 :
    (n : ℕ) (rest : List Char)
    → n ≤ 191
    → parse_pri ("<" ∷ (show_u8 n ++ ">" ∷ rest)) ≡ some (n / 8, n % 8, rest)
unfolding parse_pri
parse_pri-show_u8 n rest h =
    let (lo, hi) = length-show_u8 n in
    rw
      (
        parse_pri,
        split_once-append b'>' (show_u8 n) ">" rest (Without-show_u8 n (omega arith)) refl,
      )
      (ground (arith, lo, hi, map-show_u8 n, parse_u64-shown n))
