-- ===== src/Js/Utf8.antt =====
-- `Buffer.from(text, "utf8")` and `buf.toString("utf8")`: UTF-16 code units to UTF-8 bytes and
-- back, with U+FFFD for what is not well formed, as the WHATWG encoding standard has it.
use mtdd.Prelude.{
  ℕ, ◌+◌, ◌-◌, ◌*◌, ◌/◌, ◌%◌, Bool, true, false, ◌&&◌, ◌||◌, [], ◌∷◌, ◌++◌, leb, ltb, ◌==◌,
  if◌then◌else◌,
}
use mtdd.Js.Text.{Text}
use mtdd.Js.Buffer.{Bytes}

abbrev is_high : ℕ → Bool
is_high c = leb 0xd800 c && leb c 0xdbff

abbrev is_low : ℕ → Bool
is_low c = leb 0xdc00 c && leb c 0xdfff

abbrev tail_byte : ℕ → ℕ
tail_byte n = 0x80 + n % 64

-- one code unit that is not half of a pair
abbrev encode_unit : ℕ → Bytes
encode_unit c =
    if ltb c 0x80
    then c ∷ []
    else if ltb c 0x800
    then (0xc0 + c / 64) ∷ tail_byte c ∷ []
    else if is_high c || is_low c
    then 0xef ∷ 0xbf ∷ 0xbd ∷ []
    else (0xe0 + c / 4096) ∷ tail_byte (c / 64) ∷ tail_byte c ∷ []

-- the code point of a surrogate pair
abbrev encode_pair : ℕ → ℕ → Bytes
encode_pair hi lo =
    let p = 0x10000 + (hi - 0xd800) * 1024 + (lo - 0xdc00) in
    (0xf0 + p / 262144) ∷ tail_byte (p / 4096) ∷ tail_byte (p / 64) ∷ tail_byte p ∷ []

unfoldable pub encode : Text → Bytes
encode [] = []
encode (c ∷ []) = encode_unit c
encode (c ∷ d ∷ s) = elim (is_high c && is_low d) [
  | true ↦ encode_pair c d ++ encode s
  | false ↦ encode_unit c ++ encode (d ∷ s)
]

-- The state of the decoder: how many bytes are left of a sequence, the range of the next byte, and
-- the bits so far.
pub record Decoder : Type 0 where
  pub left : ℕ
  pub lower : ℕ
  pub upper : ℕ
  pub point : ℕ

abbrev pub idle : Decoder
idle = record { left = 0; lower = 0x80; upper = 0xbf; point = 0 }

abbrev sequence : ℕ → ℕ → ℕ → ℕ → Text × Decoder
sequence left lower upper point =
    ([], record { left = left; lower = lower; upper = upper; point = point })

abbrev start_byte : ℕ → Text × Decoder
start_byte b =
    if ltb b 0x80
    then (b ∷ [], idle)
    else if leb 0xc2 b && leb b 0xdf
    then sequence 1 0x80 0xbf (b - 0xc0)
    else if leb 0xe0 b && leb b 0xef
    then sequence 2 (if b == 0xe0 then 0xa0 else 0x80) (if b == 0xed then 0x9f else 0xbf) (b - 0xe0)
    else if leb 0xf0 b && leb b 0xf4
    then sequence 3 (if b == 0xf0 then 0x90 else 0x80) (if b == 0xf4 then 0x8f else 0xbf) (b - 0xf0)
    else (0xfffd ∷ [], idle)

abbrev units : ℕ → Text
units p =
    if ltb p 0x10000
    then p ∷ []
    else (0xd800 + (p - 0x10000) / 1024) ∷ (0xdc00 + (p - 0x10000) % 1024) ∷ []

-- A byte that does not continue the sequence ends it and is read as a first byte.
unfoldable pub feed : Decoder → ℕ → Text × Decoder
feed d b =
    if d.left == 0
    then start_byte b
    else if ltb b d.lower || ltb d.upper b
    then (0xfffd ∷ (start_byte b).0, (start_byte b).1)
    else if d.left == 1
    then (units (d.point * 64 + b % 64), idle)
    else sequence (d.left - 1) 0x80 0xbf (d.point * 64 + b % 64)

unfoldable pub decode_from : Decoder → Bytes → Text
unfolding feed
decode_from d [] = if d.left == 0 then [] else 0xfffd ∷ []
decode_from d (b ∷ s) = (feed d b).0 ++ decode_from (feed d b).1 s

unfoldable pub decode : Bytes → Text
unfolding decode_from
decode = decode_from idle
