-- ===== src/Js/Buffer.antt =====
-- Node's `Buffer` as a list of bytes: big- and little-endian integers, `subarray`, `indexOf`.
use mtdd.Prelude.{
  ℕ, suc, ◌+◌, ◌-◌, ◌*◌, ◌/◌, ◌%◌, ◌^◌, List, [], ◌∷◌, ◌++◌, Option, none, some, ltb, ◌==◌,
  if◌then◌else◌, length, take, drop,
}
use mtdd.Prelude.Int.{ℤ, pos, negsuc}
use mtdd.Js.Effect.{Result, ok, err}
use mtdd.Js.Text.{Text, codes, decimal}

abbrev pub Bytes : Type 0
Bytes = List ℕ

-- An `Error`: its class and its message.
pub record JsError : Type 0 where
  pub name : Text
  pub message : Text

abbrev pub error : Text → JsError
error m = record { name = codes "Error"; message = m }

abbrev pub show_ℤ : ℤ → Text
show_ℤ (pos n) = decimal n
show_ℤ (negsuc n) = b'-' ∷ decimal (suc n)

-- `ERR_OUT_OF_RANGE` and `ERR_BUFFER_OUT_OF_BOUNDS` of a read of `size` bytes at `offset`
unfoldable pub range_error : ℕ → ℕ → ℤ → JsError
range_error len size offset =
    if ltb len size
    then record {
      name = codes "RangeError";
      message = codes "Attempt to access memory outside buffer bounds";
    }
    else record {
      name = codes "RangeError";
      message =
          codes "The value of \"offset\" is out of range. It must be >= 0 and <= "
          ++ (decimal (len - size) ++ (codes ". Received " ++ show_ℤ offset));
    }

-- the two's complement value of `w` bits
abbrev pub signed : ℕ → ℕ → ℤ
signed half n = if ltb n half then pos n else negsuc (half + half - n - 1)

-- the bit pattern of an integer in `modulus` values
abbrev pub unsigned : ℕ → ℤ → ℕ
unsigned modulus (pos n) = n % modulus
unsigned modulus (negsuc n) = modulus - 1 - n % modulus

abbrev pub be16 : ℕ → Bytes
be16 n = n / 256 % 256 ∷ n % 256 ∷ []

abbrev pub be32 : ℕ → Bytes
be32 n = n / 2 ^ 24 % 256 ∷ n / 2 ^ 16 % 256 ∷ n / 256 % 256 ∷ n % 256 ∷ []

-- `writeInt16BE` and `writeInt32BE` of a value that fits
unfoldable pub write_i16_be : ℤ → Bytes
write_i16_be z = be16 (unsigned (2 ^ 16) z)

unfoldable pub write_i32_be : ℤ → Bytes
write_i32_be z = be32 (unsigned (2 ^ 32) z)

abbrev take_i16 : Bytes → Option ℤ
take_i16 (a ∷ b ∷ _) = some (signed (2 ^ 15) (a * 256 + b))
take_i16 _ = none

abbrev take_i32 : Bytes → Option ℤ
take_i32 (a ∷ b ∷ c ∷ d ∷ _) = some (signed (2 ^ 31) (a * 2 ^ 24 + b * 2 ^ 16 + c * 256 + d))
take_i32 _ = none

abbrev or_range : Option ℤ → JsError → Result JsError ℤ
or_range (some z) e = ok z
or_range none e = err e

-- `buf.readInt16BE(offset)` and `buf.readInt32BE(offset)`
unfoldable pub read_i16_be : Bytes → ℤ → Result JsError ℤ
read_i16_be buf (pos i) = or_range (take_i16 (drop i buf)) (range_error (length buf) 2 (pos i))
read_i16_be buf (negsuc i) = err (range_error (length buf) 2 (negsuc i))

unfoldable pub read_i32_be : Bytes → ℤ → Result JsError ℤ
read_i32_be buf (pos i) = or_range (take_i32 (drop i buf)) (range_error (length buf) 4 (pos i))
read_i32_be buf (negsuc i) = err (range_error (length buf) 4 (negsuc i))

-- an index of `subarray`: a negative one counts from the end
abbrev pub from_end : ℕ → ℤ → ℕ
from_end len (pos i) = i
from_end len (negsuc i) = len - suc i

-- `buf.subarray(start, end)` and `buf.subarray(start)`; past the end there is nothing
unfoldable pub subarray : Bytes → ℤ → ℤ → Bytes
subarray buf i j =
    let start = from_end (length buf) i in drop start (take (from_end (length buf) j) buf)

unfoldable pub subarray_from : Bytes → ℤ → Bytes
subarray_from buf i = drop (from_end (length buf) i) buf

-- `buf.indexOf(0)`
unfoldable pub index_of_nul : Bytes → Option ℕ
index_of_nul [] = none
index_of_nul (b ∷ s) =
    if b == 0 then some 0 else elim (index_of_nul s) [ none ↦ none | some i ↦ some (suc i) ]

abbrev pub be64 : ℕ → Bytes
be64 n = be32 (n / 2 ^ 32) ++ be32 n

-- `writeBigInt64BE` of a value that fits
unfoldable pub write_i64_be : ℤ → Bytes
write_i64_be z = be64 (unsigned (2 ^ 64) z)

abbrev take_i64 : Bytes → Option ℤ
take_i64 (a ∷ b ∷ c ∷ d ∷ e ∷ f ∷ g ∷ h ∷ _) = some (
    signed (2 ^ 63)
      ((a * 2 ^ 24 + b * 2 ^ 16 + c * 256 + d) * 2 ^ 32 + (e * 2 ^ 24 + f * 2 ^ 16 + g * 256 + h)))
take_i64 _ = none

-- `buf.readBigInt64BE(0)`
unfoldable pub read_i64_be : Bytes → Result JsError ℤ
read_i64_be buf = or_range (take_i64 buf) (range_error (length buf) 8 (pos 0))

-- `writeUInt32LE` and `readUInt32LE`
abbrev pub le32 : ℕ → Bytes
le32 n = n % 256 ∷ n / 256 % 256 ∷ n / 2 ^ 16 % 256 ∷ n / 2 ^ 24 % 256 ∷ []

abbrev pub from_le32 : ℕ → ℕ → ℕ → ℕ → ℕ
from_le32 a b c d = a + b * 256 + c * 2 ^ 16 + d * 2 ^ 24
