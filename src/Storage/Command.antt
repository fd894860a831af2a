-- ===== src/Storage/Command.antt =====
-- pkg/storage/command.go. A byte is a number below 256, a slice is the list of its bytes, and `nil`
-- is an empty one. `none` stands for a panic: an index or a slice out of range. The version is an
-- `int64`, kept as its bit pattern. The buffer that `Encode` fills piece by piece, each at the end of
-- the one before, is the pieces put together.
pub mod RoundTrip
use hermes.Base.{
  ℕ, ◌+◌, ◌/◌, ◌%◌, ◌*◌, Bool, true, false, ◌&&◌, ◌||◌, Option, none, some, List, [], ◌∷◌, ◌++◌,
  ltb, leb, ◌==◌, if◌then◌else◌, length, get_elem?, take, drop, GoString,
}
use hermes.Base.Partial.{◌>>=◌}

pub data CommandType : Type 0 where
  put delete cas : CommandType

-- the constants of the source
abbrev pub code_of : CommandType → ℕ
code_of put = 1
code_of delete = 2
code_of cas = 3

-- The source's type is any byte, so the field is its code.
pub record Command : Type 0 where
  pub type : ℕ
  pub key : GoString
  pub value : List ℕ
  pub version : ℕ

-- `binary.LittleEndian.PutUint32` of a number converted to `uint32`
unfoldable pub put_uint32 : ℕ → List ℕ
put_uint32 n = n % 256 ∷ n / 256 % 256 ∷ n / 65536 % 256 ∷ n / 16777216 % 256 ∷ []

-- `binary.LittleEndian.Uint32`, which panics on fewer than four bytes
pub uint32 : List ℕ → Option ℕ
uint32 (a ∷ b ∷ c ∷ d ∷ rest) = some (a + b * 256 + c * 65536 + d * 16777216)
uint32 _ = none

-- `binary.LittleEndian.PutUint64`
unfoldable pub put_uint64 : ℕ → List ℕ
unfolding put_uint32
put_uint64 n = put_uint32 n ++ put_uint32 (n / 4294967296)

pub encode : Command → List ℕ
unfolding put_uint32 put_uint64
encode c =
    c.type ∷ put_uint32 (length c.key)
    ++ c.key
    ++ put_uint32 (length c.value)
    ++ c.value
    ++ put_uint64 c.version

abbrev pub Decoded : Type 0
Decoded = GoString × List ℕ × Bool

-- The value's bytes, unless the length that is written is 0 or runs past the data.
abbrev pub value_at : ℕ → ℕ → List ℕ → List ℕ
value_at offset len bs =
    if ltb 0 len && leb (offset + len) (length bs) then take len (drop offset bs) else []

pub decode_value : ℕ → ℕ → GoString → List ℕ → Option Decoded
unfolding uint32
decode_value type offset key bs =
    if ltb (length bs) (offset + 4)
    then some (key, [], type == 2)
    else do len ← uint32 (drop offset bs); some (key, value_at (offset + 4) len bs, type == 2)

pub decode_command : List ℕ → Option Decoded
unfolding uint32 decode_value
decode_command bs = if ltb (length bs) 5 then some ([], [], false) else do
  type ← get_elem? bs 0
  len ← uint32 (drop 1 bs)
  if ltb (length bs) (5 + len)
      then some ([], [], false)
      else decode_value type (5 + len) (take len (drop 5 bs)) bs

-- The version is -1.
pub encode_command : GoString → List ℕ → Bool → List ℕ
encode_command key value deleted = encode (record {
  type = if deleted then code_of delete else code_of put;
  key = key;
  value = value;
  version = 18446744073709551615;
})

pub new_put_command : GoString → List ℕ → List ℕ
new_put_command key value = encode_command key value false

pub new_delete_command : GoString → List ℕ
new_delete_command key = encode_command key [] true

pub data Invalid : Type 0 where
  too_short unknown_type : Invalid

-- `none` is a panic; else the error, if any.
pub validate_command : List ℕ → Option (Option Invalid)
validate_command bs = if ltb (length bs) 5 then some (some too_short) else do
  type ← get_elem? bs 0
  some (if (type == 1) || (type == 2) || (type == 3) then none else some unknown_type)
