-- ===== src/Prelude/Chars.antt =====
-- A text as the list of its characters, for code that walks it.
use Prim.Native.Nat.{ℕ}
use Prim.Native.Char.{Char, code}
use Prim.Native.String.{String}
use mathlib.Core.Path.{◌≡◌, refl, ap}
use mathlib.Core.Bool.{Bool, true, false}
use mathlib.Core.Option.{Option, none, some}
use mathlib.Core.List.{List, [], ◌∷◌, ◌++◌}
use softnix_log_agent.Prelude.Tests.{◌==◌, if◌then◌else◌}

abbrev pub chars : String → List Char
chars String.[] = []
chars (String.◌∷◌ c s) = c ∷ chars s

abbrev pub of_chars : List Char → String
of_chars [] = String.[]
of_chars (c ∷ cs) = String.◌∷◌ c (of_chars cs)

pub of_chars-chars : (s : String) → of_chars (chars s) ≡ s
of_chars-chars String.[] = refl
of_chars-chars (String.◌∷◌ c s) = ap (String.◌∷◌ c) (of_chars-chars s)

-- The test of a character against the code of another.
abbrev pub is_char : ℕ → Char → Bool
is_char n c = code c == n

-- `strip_prefix` of one character.
abbrev pub strip_char : ℕ → List Char → Option (List Char)
strip_char n [] = none
strip_char n (c ∷ cs) = if is_char n c then some cs else none

-- `split_once` at a character.
unfoldable pub split_once : ℕ → List Char → Option (List Char × List Char)
split_once n [] = none
split_once n (c ∷ cs) = elim (is_char n c) [
  | true ↦ some ([], cs)
  | false ↦ elim (split_once n cs) [ none ↦ none | some (head, tail) ↦ some (c ∷ head, tail) ]
]

-- No character is the one of this code.
abbrev pub Without : ℕ → List Char → Type 0
Without n [] = Unit
Without n (c ∷ cs) = (is_char n c ≡ false) × Without n cs

pub split_once-append :
    (n : ℕ) (head : List Char) (c : Char) (tail : List Char)
    → Without n head
    → is_char n c ≡ true
    → split_once n (head ++ c ∷ tail) ≡ some (head, tail)
unfolding split_once
split_once-append n [] c tail h e = rw (split_once, e) refl
split_once-append n (x ∷ head) c tail (f, h) e =
    rw (split_once, f, split_once-append n head c tail h e) refl
