-- ===== src/Buffer/Record/Recovery.antt =====
-- src/buffer.rs: `scan_segment` over whole records and over a torn tail.
use softnix_log_agent.Prelude.{
  ℕ, suc, ◌+◌, ◌-◌, ◌≤◌, ◌<◌, ◌≡◌, refl, ap, sym, ◌∙◌, none, some, List, [], ◌∷◌, ◌++◌, length,
  take, arith, append_assoc, append-nil, length-append, length-take-le, drop-length-append,
}
use softnix_log_agent.Buffer.Record.{
  Codec, eof, header_len, to_le_bytes, read_header, read_payload, read_record, encode_record,
  scan_loop, scan_segment,
}
use softnix_log_agent.Buffer.Record.RoundTrip.{
  IsPayload, length-encode_record, read_record-encode_record, drop-encode_record,
}

module _ {E : Type 0} (codec : Codec E) where
  -- The bytes of a segment that holds these payloads.
  unfoldable pub encode_all : List (List ℕ) → List ℕ
  encode_all [] = []
  encode_all (p ∷ ps) = encode_record codec p ++ encode_all ps

  abbrev pub AllPayloads : List (List ℕ) → Type 0
  AllPayloads [] = Unit
  AllPayloads (p ∷ ps) = IsPayload codec p × AllPayloads ps

  pub encode_all-append :
      (ps qs : List (List ℕ)) → encode_all (ps ++ qs) ≡ encode_all ps ++ encode_all qs
  unfolding encode_all
  encode_all-append [] qs = refl
  encode_all-append (p ∷ ps) qs = rw (encode_all-append ps qs, append_assoc (encode_record codec p))

  pub length-le-encode_all : (ps : List (List ℕ)) → length ps ≤ length (encode_all ps)
  unfolding encode_all
  length-le-encode_all [] = omega arith
  length-le-encode_all (p ∷ ps) = omega (
    arith,
    length-append (encode_record codec p) (encode_all ps),
    length-encode_record codec p,
    length-le-encode_all ps,
  )

  scan_loop-record :
      (p tail : List ℕ) (fuel seg_bytes off n : ℕ)
      → IsPayload codec p
      → length p ≤ seg_bytes
      → scan_loop codec (suc fuel) (encode_record codec p ++ tail) seg_bytes none off n
        ≡ scan_loop codec fuel tail seg_bytes none (off + (header_len + length p)) (suc n)
  unfolding scan_loop
  scan_loop-record p tail fuel seg_bytes off n v h =
      ground (
        arith,
        read_record-encode_record codec p tail seg_bytes v h,
        drop-encode_record codec p tail,
      )

  pub scan_loop-eof :
      (tail : List ℕ) (fuel seg_bytes off n : ℕ)
      → read_record codec tail seg_bytes ≡ eof
      → scan_loop codec (suc fuel) tail seg_bytes none off n ≡ (off, n)
  unfolding scan_loop
  scan_loop-eof tail fuel seg_bytes off n h = ground arith

  -- A scan of whole records passes over all of them, and goes on with what follows.
  pub scan_loop-encode_all :
      (ps : List (List ℕ)) (tail : List ℕ) (fuel seg_bytes off n : ℕ)
      → AllPayloads ps
      → length (encode_all ps) ≤ seg_bytes
      → scan_loop codec (length ps + fuel) (encode_all ps ++ tail) seg_bytes none off n
        ≡ scan_loop codec fuel tail seg_bytes none (off + length (encode_all ps)) (n + length ps)
  unfolding encode_all
  scan_loop-encode_all [] tail fuel seg_bytes off n v h =
      let a : 0 + fuel ≡ fuel = omega arith in
      let b : off + 0 ≡ off = omega arith in let c : n + 0 ≡ n = omega arith in rw (a, b, c)
  scan_loop-encode_all (p ∷ ps) tail fuel seg_bytes off n v h =
      let e : suc (length ps) + fuel ≡ suc (length ps + fuel) = omega arith in
      let l = length-append (encode_record codec p) (encode_all ps) in
      let m = length-encode_record codec p in
      let o : off + length (encode_record codec p ++ encode_all ps)
          ≡ off + (header_len + length p) + length (encode_all ps) =
        omega (arith, l, m) in
      let c : n + suc (length ps) ≡ suc n + length ps = omega arith in
      rw (e, o, c, append_assoc (encode_record codec p) (encode_all ps) tail)
        (scan_loop-record p (encode_all ps ++ tail) (length ps + fuel) seg_bytes off n v.0
            (omega (arith, l, m))
          ∙ scan_loop-encode_all ps tail fuel seg_bytes (off + (header_len + length p)) (suc n) v.1
              (omega (arith, l, m)))

  read_header-short : (file : List ℕ) → length file < header_len → read_header file ≡ none
  unfolding read_header
  read_header-short [] h = refl
  read_header-short (a ∷ []) h = refl
  read_header-short (a ∷ b ∷ []) h = refl
  read_header-short (a ∷ b ∷ c ∷ []) h = refl
  read_header-short (a ∷ b ∷ c ∷ d ∷ []) h = refl
  read_header-short (a ∷ b ∷ c ∷ d ∷ e ∷ []) h = refl
  read_header-short (a ∷ b ∷ c ∷ d ∷ e ∷ f ∷ []) h = refl
  read_header-short (a ∷ b ∷ c ∷ d ∷ e ∷ f ∷ g ∷ []) h = refl
  read_header-short (a ∷ b ∷ c ∷ d ∷ e ∷ f ∷ g ∷ i ∷ r) h = absurd (omega arith)

  read_record-short :
      (file : List ℕ) (max : ℕ) → length file < header_len → read_record codec file max ≡ eof
  unfolding read_record
  read_record-short file max h = ground (arith, read_header-short file h)

  -- A header whose payload is cut off.
  read_payload-short :
      (len crc : ℕ) (rest : List ℕ) → length rest < len → read_payload codec len crc rest ≡ eof
  unfolding read_payload
  read_payload-short len crc rest h = ground arith

  take-encode_record :
      (p : List ℕ) (j : ℕ)
      → IsPayload codec p
      → read_header (take (suc (suc (suc (suc (suc (suc (suc (suc j)))))))) (encode_record codec p))
        ≡ some (length p, codec.hash p, take j p)
  unfolding read_header encode_record to_le_bytes
  take-encode_record p j v = ground arith

  -- A record that the end of the file cuts off, wherever it does, reads as the end of the file.
  pub read_record-torn :
      (p : List ℕ) (k max : ℕ)
      → IsPayload codec p
      → k < length (encode_record codec p)
      → read_record codec (take k (encode_record codec p)) max ≡ eof
  unfolding read_record
  read_record-torn p (suc (suc (suc (suc (suc (suc (suc (suc j)))))))) max v h = ground (
    arith,
    take-encode_record p j v,
    v.nonempty,
    read_payload-short (length p) (codec.hash p) (take j p)
        (omega (arith, length-encode_record codec p, length-take-le j p)),
  )
  read_record-torn p k max v h =
      read_record-short (take k (encode_record codec p)) max
        (omega (arith, length-take-le k (encode_record codec p)))

  read_record-nil : (max : ℕ) → read_record codec [] max ≡ eof
  read_record-nil max = read_record-short [] max (omega arith)

  -- A scan from a boundary of two whole records counts those behind it.
  pub scan_segment-behind :
      (before behind : List (List ℕ))
      → AllPayloads behind
      → scan_segment codec (encode_all (before ++ behind)) (length (encode_all before)) none
        ≡ (length (encode_all (before ++ behind)), length behind)
  unfolding scan_segment
  scan_segment-behind before behind v =
      let bs = encode_all behind in
      let total = length (encode_all before ++ bs) in
      let l = length-append (encode_all before) bs in
      let k : suc total ≡ length behind + suc (total - length behind) =
        omega (arith, l, length-le-encode_all behind) in
      rw (encode_all-append before behind, drop-length-append (encode_all before) bs, k)
        (ap
            (λ z.
              scan_loop codec (length behind + suc (total - length behind)) z total none
                (length (encode_all before)) 0)
            (sym (append-nil bs))
          ∙ scan_loop-encode_all behind [] (suc (total - length behind)) total
              (length (encode_all before)) 0 v (omega (arith, l))
          ∙ scan_loop-eof [] (total - length behind) total (length (encode_all before) + length bs)
              (0 + length behind) (read_record-nil total)
          ∙ ground (arith, l))

  -- A scan of whole records followed by a part of one more, of any length, ends behind the last
  -- whole record and has counted the whole ones.
  pub scan_segment-torn :
      (ps : List (List ℕ)) (p : List ℕ) (k : ℕ)
      → AllPayloads ps
      → IsPayload codec p
      → k < length (encode_record codec p)
      → scan_segment codec (encode_all ps ++ take k (encode_record codec p)) 0 none
        ≡ (length (encode_all ps), length ps)
  unfolding scan_segment
  scan_segment-torn ps p k v w h =
      let tail = take k (encode_record codec p) in
      let total = length (encode_all ps ++ tail) in
      let l : length ps + suc (total - length ps) ≡ suc total =
        omega (arith, length-append (encode_all ps) tail, length-le-encode_all ps) in
      rw (← l) (
        scan_loop-encode_all ps tail (suc (total - length ps)) total 0 0 v
          (omega (arith, length-append (encode_all ps) tail))
        ∙ scan_loop-eof tail (total - length ps) total (0 + length (encode_all ps)) (0 + length ps)
            (read_record-torn p k total w h)
        ∙ ground arith)
