-- ===== src/Outputs/Format/Syslog.antt =====
-- src/outputs/format.rs and src/pipeline/syslog.rs: the structured data that is written is found
-- again.
use softnix_log_agent.Prelude.{
  ℕ, ◌≡◌, refl, ap, sym, ◌∙◌, true, false, ◌||◌, Option, none, some, List, [], ◌∷◌, ◌++◌,
  append_assoc, arith, if◌then◌else◌, Bool-cases, Option-cases, inl, inr, chars, is_char, Without,
}
use Prim.Native.Char.{Char}
use Prim.Native.String.{String}
use text.Mathlib.Text.{◌==◌ as str_eq}
use softnix_log_agent.Event.{Json, Value, Event}
use softnix_log_agent.Pipeline.Syslog.{onto, opens, split_sd, split_tail, trim_start_chars}
use softnix_log_agent.Outputs.Format.{
  sd_escape, bad_name, is_empty_name, value_to_param, sd_param, sd_params, rfc5424_structured_data,
}

abbrev pub over : List Char → List Char × List Char → List Char × List Char
over [] r = r
over (c ∷ cs) r = onto c (over cs r)

pub over-pair : (xs a b : List Char) → over xs (a, b) ≡ (xs ++ a, b)
over-pair [] a b = refl
over-pair (x ∷ xs) a b = ap (onto x) (over-pair xs a b)

over-append :
    (xs ys : List Char) (r : List Char × List Char) → over (xs ++ ys) r ≡ over xs (over ys r)
over-append [] ys r = refl
over-append (x ∷ xs) ys r = ap (onto x) (over-append xs ys r)

-- Text that the scan of an element passes over at any depth.
abbrev pub Passes : List Char → Type 0
Passes xs = (d : ℕ) (ys : List Char) → split_sd false d (xs ++ ys) ≡ over xs (split_sd false d ys)

Passes-nil : Passes []
Passes-nil d ys = refl

Passes-append : (xs ys : List Char) → Passes xs → Passes ys → Passes (xs ++ ys)
Passes-append xs ys p q d zs =
    ap (split_sd false d) (append_assoc xs ys zs)
    ∙ p d (ys ++ zs)
    ∙ ap (over xs) (q d zs)
    ∙ sym (over-append xs ys (split_sd false d zs))

Passes-plain :
    (c : Char)
    → is_char b'[' c ≡ false
    → is_char b']' c ≡ false
    → is_char b'\\' c ≡ false
    → Passes (c ∷ [])
unfolding split_sd
Passes-plain c a b e d ys = rw (split_sd, a, b, e) refl

Passes-escaped : (c : Char) → Passes ("\\" ∷ c ∷ [])
unfolding split_sd
Passes-escaped c d ys = refl

Passes-sd_escape : (cs : List Char) → Without b'[' cs → Passes (sd_escape cs)
unfolding sd_escape
Passes-sd_escape [] h = Passes-nil
Passes-sd_escape (c ∷ cs) (o, h) =
    elim (Bool-cases (is_char 34 c || is_char b'\\' c || is_char b']' c)) [
      | inl e ↦
          rw (sd_escape, e)
            (Passes-append ("\\" ∷ c ∷ []) (sd_escape cs) (Passes-escaped c)
              (Passes-sd_escape cs h))
      | inr e ↦
          rw (sd_escape, e)
            (Passes-append (c ∷ []) (sd_escape cs)
              (Passes-plain c o (ground (arith, e)) (ground (arith, e))) (Passes-sd_escape cs h))
    ]

pub Passes-name :
    (cs : List Char) → bad_name cs ≡ false → Without b'[' cs → Without b'\\' cs → Passes cs
unfolding bad_name
Passes-name [] b h k = Passes-nil
Passes-name (c ∷ cs) b (o, h) (e, k) =
    Passes-append (c ∷ []) cs (Passes-plain c o (ground (arith, b)) e)
      (Passes-name cs (ground (arith, b)) h k)

pub split_tail-opens :
    (c : Char) (rest sd m : List Char)
    → is_char b'[' c ≡ true
    → is_char b'-' c ≡ false
    → split_sd false 0 (c ∷ rest) ≡ (sd, m)
    → split_tail (c ∷ rest) ≡ (some sd, trim_start_chars m)
unfolding split_tail
split_tail-opens c rest sd m o n e = rw (split_tail, n, o, e) refl

module _ {Time Num Tree : Type 0} (json : Json Time Num Tree) where
  -- No opening bracket and, in a name, no backslash: a reader that counts brackets and skips what is
  -- behind a backslash finds the end of the element.
  abbrev pub Bracketless : List (String × Value Num Tree) → Type 0
  Bracketless [] = Unit
  Bracketless ((k, v) ∷ m) =
      Without b'[' (chars k)
      × Without b'\\' (chars k)
      × ((s : String) → value_to_param json v ≡ some s → Without b'[' (chars s))
      × Bracketless m

  Passes-value :
      (k : String) (s : String)
      → bad_name (chars k) ≡ false
      → Without b'[' (chars k)
      → Without b'\\' (chars k)
      → Without b'[' (chars s)
      → Passes (" " ∷ (chars k ++ "=" ∷ "\"" ∷ (sd_escape (chars s) ++ "\"" ∷ [])))
  Passes-value k s b o e h =
      Passes-append (" " ∷ []) (chars k ++ "=" ∷ "\"" ∷ (sd_escape (chars s) ++ "\"" ∷ []))
        (Passes-plain " " refl refl refl)
        (Passes-append (chars k) ("=" ∷ "\"" ∷ (sd_escape (chars s) ++ "\"" ∷ []))
          (Passes-name (chars k) b o e)
          (Passes-append ("=" ∷ []) ("\"" ∷ (sd_escape (chars s) ++ "\"" ∷ []))
            (Passes-plain "=" refl refl refl)
            (Passes-append ("\"" ∷ []) (sd_escape (chars s) ++ "\"" ∷ [])
              (Passes-plain "\"" refl refl refl)
              (Passes-append (sd_escape (chars s)) ("\"" ∷ []) (Passes-sd_escape (chars s) h)
                (Passes-plain "\"" refl refl refl)))))

  Passes-sd_param :
      (k : String) (v : Value Num Tree)
      → Without b'[' (chars k)
      → Without b'\\' (chars k)
      → ((s : String) → value_to_param json v ≡ some s → Without b'[' (chars s))
      → Passes (sd_param json k v)
  unfolding sd_param
  Passes-sd_param k v o e h = elim (Bool-cases (str_eq k "structured_data")) [
    | inl q ↦ rw (sd_param, q) Passes-nil
    | inr q ↦ elim (Option-cases (value_to_param json v)) [
      | inl n ↦ rw (sd_param, q, n) Passes-nil
      | inr (s, w) ↦ elim (Bool-cases (is_empty_name (chars k) || bad_name (chars k))) [
        | inl b ↦ rw (sd_param, q, w, b) Passes-nil
        | inr b ↦ rw (sd_param, q, w, b) (Passes-value k s (ground (arith, b)) o e (h s w))
      ]
    ]
  ]

  Passes-sd_params :
      (m : List (String × Value Num Tree)) → Bracketless m → Passes (sd_params json m)
  unfolding sd_params
  Passes-sd_params [] h = Passes-nil
  Passes-sd_params ((k, v) ∷ m) (o, e, h, r) =
      Passes-append (sd_param json k v) (sd_params json m) (Passes-sd_param k v o e h)
        (Passes-sd_params m r)

  Passes-name_softnix : Passes (chars "softnix@32473")
  unfolding split_sd
  Passes-name_softnix d ys = refl

  -- An element, up to its closing bracket.
  split_sd-element :
      (xs : List Char) (c : Char) (rest : List Char)
      → Passes xs
      → is_char b'[' c ≡ false
      → split_sd false 0 ("[" ∷ (xs ++ "]" ∷ c ∷ rest)) ≡ ("[" ∷ (xs ++ "]" ∷ []), c ∷ rest)
  unfolding split_sd
  split_sd-element xs c rest p e = ap (onto "[") (
      p 1 ("]" ∷ c ∷ rest)
      ∙ ap (over xs) (rw (split_sd, e) refl)
      ∙ over-pair xs ("]" ∷ []) (c ∷ rest))

  -- What a reader keeps of the structured data.
  abbrev pub kept : List Char → Option (List Char)
  kept sd = if opens sd then some sd else none

  -- The element of these parameters, and the text that follows it.
  abbrev element : List Char → List Char
  element xs = "[" ∷ (chars "softnix@32473" ++ (xs ++ "]" ∷ []))

  rfc5424_structured_data-cons :
      (ev : Event Time Num Tree) (c : Char) (cs : List Char)
      → sd_params json ev.fields ≡ c ∷ cs
      → rfc5424_structured_data json ev ≡ element (c ∷ cs)
  unfolding rfc5424_structured_data
  rfc5424_structured_data-cons ev c cs e = rw (rfc5424_structured_data, e) refl

  split_tail-element :
      (xs message : List Char)
      → Passes xs
      → trim_start_chars message ≡ message
      → split_tail (element xs ++ " " ∷ message) ≡ (some (element xs), message)
  unfolding trim_start_chars
  split_tail-element xs message h t =
      let body = chars "softnix@32473" ++ xs in
      let s =
        split_sd-element body " " message
          (Passes-append (chars "softnix@32473") xs Passes-name_softnix h) refl in
      let w : "[" ∷ (body ++ "]" ∷ " " ∷ message) ≡ element xs ++ " " ∷ message =
        ap (λ z. "[" ∷ (chars "softnix@32473" ++ z))
          (sym (append_assoc xs ("]" ∷ []) (" " ∷ message))) in
      split_tail-opens "[" (chars "softnix@32473" ++ ((xs ++ "]" ∷ []) ++ " " ∷ message))
        (element xs) (" " ∷ message) refl refl (ap (split_sd false 0) (sym w) ∙ s)
      ∙ ap (λ m. (some (element xs), m)) t

  split_tail-params :
      (ev : Event Time Num Tree) (p message : List Char)
      → sd_params json ev.fields ≡ p
      → Passes p
      → trim_start_chars message ≡ message
      → split_tail (rfc5424_structured_data json ev ++ " " ∷ message)
        ≡ (kept (rfc5424_structured_data json ev), message)
  unfolding rfc5424_structured_data split_tail trim_start_chars
  split_tail-params ev [] message e h t = rw (rfc5424_structured_data, e) (ap (λ m. (none, m)) t)
  split_tail-params ev (c ∷ cs) message e h t =
      rw (rfc5424_structured_data-cons ev c cs e) (split_tail-element (c ∷ cs) message h t)

  pub split_tail-rfc5424_structured_data :
      (ev : Event Time Num Tree) (message : List Char)
      → Bracketless ev.fields
      → trim_start_chars message ≡ message
      → split_tail (rfc5424_structured_data json ev ++ " " ∷ message)
        ≡ (kept (rfc5424_structured_data json ev), message)
  split_tail-rfc5424_structured_data ev message h t =
      split_tail-params ev (sd_params json ev.fields) message refl (Passes-sd_params ev.fields h) t
