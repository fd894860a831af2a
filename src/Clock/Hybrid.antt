-- ===== src/Clock/Hybrid.antt =====
-- pkg/clock/hlc.go. Times are `int64`s, kept as their bit patterns; the logical counter is a
-- `uint16`. The reading of the wall clock, in milliseconds, is an argument.
pub mod Order
use hermes.Base.{
  ℕ, ◌+◌, ◌-◌, ◌*◌, ◌/◌, ◌%◌, ◌<◌, ◌≡◌, Bool, true, false, refl, arith, if◌then◌else◌, i64_lt, u64,
  ltb, leb, ◌==◌, ◌&&◌, GoString, List, [], ◌∷◌, Option, none, some, bias, u64_mod,
}

abbrev logical_max : ℕ
logical_max = 65535

-- `MaxClockSkew.Milliseconds()`
abbrev max_clock_skew_ms : ℕ
max_clock_skew_ms = 500

-- `physicalMs << 16 | logical`: the shift leaves the low 16 bits 0, so `|` is `+`.
unfoldable pub pack : ℕ → ℕ → ℕ
pack physical logical = u64 (physical * 65536) + logical

-- `>>` on an `int64` copies the sign bit.
pub unpack : ℕ → ℕ × ℕ
unpack ts = (
  if ltb ts 9223372036854775808 then ts / 65536 else ts / 65536 + 18446462598732840960,
  ts % 65536,
)

pub before : ℕ → ℕ → Bool
before a b = i64_lt a b

pub after : ℕ → ℕ → Bool
after a b = i64_lt b a

-- `binary.BigEndian.PutUint64`
unfoldable pub to_bytes : ℕ → List ℕ
to_bytes ts =
    ts / 72057594037927936
    ∷ ts / 281474976710656 % 256
    ∷ ts / 1099511627776 % 256
    ∷ ts / 4294967296 % 256
    ∷ ts / 16777216 % 256
    ∷ ts / 65536 % 256
    ∷ ts / 256 % 256
    ∷ ts % 256
    ∷ []

-- `binary.BigEndian.Uint64` reads eight bytes, and panics if there are fewer.
unfoldable pub hlc_timestamp_from_bytes : List ℕ → Option ℕ
hlc_timestamp_from_bytes (a ∷ b ∷ c ∷ d ∷ e ∷ f ∷ g ∷ h ∷ rest) = some (
    a * 72057594037927936
    + b * 281474976710656
    + c * 1099511627776
    + d * 4294967296
    + e * 16777216
    + f * 65536
    + g * 256
    + h)
hlc_timestamp_from_bytes _ = none

pub record Hlc : Type 0 where
  pub l : ℕ  -- int64
  pub c : ℕ  -- uint16
  pub max_skew_ms : ℕ

new_hlc : Hlc
new_hlc = record { l = 0; c = 0; max_skew_ms = max_clock_skew_ms }

abbrev pub later : ℕ → ℕ → ℕ
later a b = if i64_lt a b then b else a

unfoldable pub now : ℕ → Hlc → Hlc × ℕ
unfolding pack
now pt h =
    let l = later pt h.l in
    let c = (h.c + 1) % 65536 in
    let h' =
      if l == h.l
      then if ltb logical_max c
        then record h { l = u64 (l + 1); c = 0 }
        else record h { l = l; c = c }
      else record h { l = l; c = 0 } in
    (h', pack h'.l h'.c)

-- the counter of `Update`, case by case
pub next_logical : ℕ → ℕ → ℕ → ℕ → ℕ → ℕ
next_logical l own_l own_c msg_l msg_c =
    if (l == own_l) && (l == msg_l)
    then ((if ltb own_c msg_c then msg_c else own_c) + 1) % 65536
    else if l == own_l
    then (own_c + 1) % 65536
    else if l == msg_l
    then (msg_c + 1) % 65536
    else 0

-- `Update` for a message that unpacks to `(msg_l, msg_c)`; `none` is the error that it is too far in
-- the future.
pub update_from : ℕ → ℕ → ℕ → Hlc → Hlc × Option ℕ
update_from pt msg_l msg_c h =
    let l = later (later pt h.l) msg_l in
    let c = next_logical l h.l h.c msg_l msg_c in
    if i64_lt (u64 (pt + h.max_skew_ms)) msg_l
    then (h, none)
    else (record h { l = l; c = c }, some (pack l c))

pub update : ℕ → ℕ → Hlc → Hlc × Option ℕ
unfolding update_from
update pt msg h = let (msg_l, msg_c) = unpack msg in update_from pt msg_l msg_c h

-- `skew = -skew` on an `int64`
is_within_skew_bound : ℕ → ℕ → Hlc → Bool
unfolding unpack
is_within_skew_bound pt ts h =
    let skew = u64 ((unpack ts).0 + (u64_mod - pt)) in
    let size = if i64_lt skew 0 then u64 (u64_mod - skew) else skew in
    if i64_lt h.max_skew_ms size then false else true
