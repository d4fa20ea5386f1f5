-- ===== src/Buffer/Record.antt =====
-- src/buffer.rs: the record format of a segment file, `read_record` and `scan_segment`.
-- A file opened at an offset is the list of the bytes from there to its end.
pub mod RoundTrip
pub mod Recovery
use softnix_log_agent.Prelude.{
  ℕ, zero, suc, ◌+◌, ◌*◌, ◌/◌, ◌%◌, ◌≡◌, Bool, true, false, ◌||◌, Option, none, some, List, [], ◌∷◌,
  ◌++◌, length, take, drop, ltb, leb, ◌==◌, if◌then◌else◌,
}

-- What `crc32fast` and `serde_json` give: the hash, and the coding of an event.
pub record Codec (E : Type 0) : Type 0 where
  pub hash : List ℕ → ℕ
  pub to_vec : E → Option (List ℕ)
  pub from_slice : List ℕ → Option E

-- `const HEADER: u64 = 8`
abbrev pub header_len : ℕ
header_len = 8

-- `u32::to_le_bytes`, of a value that `as u32` has cut to 32 bits
unfoldable pub to_le_bytes : ℕ → List ℕ
to_le_bytes n = n % 256 ∷ n / 256 % 256 ∷ n / 65536 % 256 ∷ n / 16777216 % 256 ∷ []

-- `u32::from_le_bytes`
abbrev pub from_le_bytes : ℕ → ℕ → ℕ → ℕ → ℕ
from_le_bytes a b c d = a + b * 256 + c * 65536 + d * 16777216

pub data RecordRead : Type 0 where
  ok : List ℕ → ℕ → RecordRead
  corrupt : ℕ → RecordRead
  eof : RecordRead

-- `read_exact` of the 8 header bytes: length, checksum and what follows
unfoldable pub read_header : List ℕ → Option (ℕ × ℕ × List ℕ)
read_header (a ∷ b ∷ c ∷ d ∷ e ∷ f ∷ g ∷ h ∷ rest) =
    some (from_le_bytes a b c d, from_le_bytes e f g h, rest)
read_header _ = none

module _ {E : Type 0} (codec : Codec E) where
  -- the part of `read_record` behind the two tests of the length
  unfoldable pub read_payload : ℕ → ℕ → List ℕ → RecordRead
  read_payload len crc rest =
      if ltb (length rest) len
      then eof
      else if codec.hash (take len rest) == crc
      then ok (take len rest) (header_len + len)
      else corrupt (header_len + len)

  unfoldable pub read_record : List ℕ → ℕ → RecordRead
  read_record file max_believable_len = elim (read_header file) [
    | none ↦ eof
    | some (len, crc, rest) ↦
        if (len == 0) || ltb max_believable_len len then eof else read_payload len crc rest
  ]

  -- the bytes that `push` appends for one payload
  unfoldable pub encode_record : List ℕ → List ℕ
  encode_record payload =
      to_le_bytes (length payload % 4294967296) ++ (to_le_bytes (codec.hash payload) ++ payload)

  -- `if let Some(m) = max { if n >= m { break; } }`
  abbrev reached : Option ℕ → ℕ → Bool
  reached none n = false
  reached (some m) n = leb m n

  -- The loop of `scan_segment`: `file` is what follows the current position. The fuel bounds the
  -- rounds; each takes a header at least.
  unfoldable pub scan_loop : ℕ → List ℕ → ℕ → Option ℕ → ℕ → ℕ → ℕ × ℕ
  scan_loop zero file seg_bytes max off n = (off, n)
  scan_loop (suc fuel) file seg_bytes max off n = elim (reached max n) [
    | true ↦ (off, n)
    | false ↦ elim (read_record file seg_bytes) [
      | ok payload rec_len ↦
          scan_loop fuel (drop rec_len file) seg_bytes max (off + rec_len) (suc n)
      | corrupt skip ↦ scan_loop fuel (drop skip file) seg_bytes max (off + skip) n
      | eof ↦ (off, n)
    ]
  ]

  -- `scan_segment` of a file that can be read: the offset behind the last record, and the count
  unfoldable pub scan_segment : List ℕ → ℕ → Option ℕ → ℕ × ℕ
  scan_segment file start max =
      scan_loop (suc (length file)) (drop start file) (length file) max start 0
