-- ===== src/Storage/SsTable/Blocks.antt =====
-- The entries of a block.
use hermes.Base.{
  ℕ, zero, suc, ◌<◌, ◌≤◌, ◌≡◌, refl, true, false, some, List, [], ◌∷◌, ◌++◌, ltb, length,
  length-append, take, drop, take-append, drop-append, arith,
}
use mathlib.Core.List.{append_assoc}
use hermes.Clock.Hybrid.{to_bytes}
use hermes.Clock.Hybrid.Order.{hlc_timestamp_from_bytes-to_bytes}
use hermes.Storage.Command.{put_uint32}
use hermes.Storage.Wal.Record.{uint32_le}
use hermes.Storage.Wal.Record.RoundTrip.{uint32_le-put}
use hermes.Storage.SkipList.{Entry}
use hermes.Storage.SsTable.{
  encode_entry, prefixed, decode_entry, decode_rounds, decode_block, flag, flag_at,
}

-- The lengths fit in 32 bits, and the timestamp in 64.
pub record Fits (e : Entry) : Type 0 where
  pub key : length e.key < 4294967296
  pub value : length e.value < 4294967296
  pub timestamp : e.timestamp < 18446744073709551616

abbrev pub AllFit : List Entry → Type 0
AllFit [] = Unit {0}
AllFit (e ∷ es) = Fits e × AllFit es

unfoldable pub encode_all : List Entry → List ℕ
encode_all [] = []
encode_all (e ∷ es) = encode_entry e ++ encode_all es

-- What a block keeps of an entry.
abbrev pub stored : Entry → Entry
stored e = record e { sequence = 0 }

abbrev pub all_stored : List Entry → List Entry
all_stored [] = []
all_stored (e ∷ es) = stored e ∷ all_stored es

pub drop-put_uint32 : (n : ℕ) (rest : List ℕ) → drop 4 (put_uint32 n ++ rest) ≡ rest
unfolding put_uint32
drop-put_uint32 n rest = refl

-- Bytes behind their length are read back.
pub prefixed-put :
    (xs rest : List ℕ)
    → length xs < 4294967296
    → prefixed (put_uint32 (length xs) ++ (xs ++ rest)) ≡ some (xs, rest)
unfolding prefixed
prefixed-put xs rest small =
    let n : uint32_le (put_uint32 (length xs) ++ (xs ++ rest)) ≡ length xs =
      omega (arith, small, uint32_le-put (length xs) (xs ++ rest)) in
    let long : ltb (length (put_uint32 (length xs) ++ (xs ++ rest))) 4 ≡ false =
      unfold put_uint32 in ground arith in
    let enough : ltb (length (xs ++ rest)) (length xs) ≡ false =
      ground (arith, length-append {0} xs rest) in
    rw
      (
        n,
        long,
        drop-put_uint32 (length xs) (xs ++ rest),
        enough,
        take-append {0} xs rest,
        drop-append {0} xs rest,
      )
      refl

tail_of : Entry → List ℕ → List ℕ
tail_of e rest = to_bytes e.timestamp ++ (flag e.deleted ∷ rest)

encode_entry-append :
    (e : Entry) (rest : List ℕ)
    → encode_entry e ++ rest
      ≡ put_uint32 (length e.key)
        ++ (e.key ++ (put_uint32 (length e.value) ++ (e.value ++ tail_of e rest)))
unfolding encode_entry tail_of
encode_entry-append e rest = simp (append_assoc) refl

tail_of-time : (e : Entry) (rest : List ℕ) → take 8 (tail_of e rest) ≡ to_bytes e.timestamp
unfolding tail_of to_bytes
tail_of-time e rest = refl

tail_of-flag : (e : Entry) (rest : List ℕ) → flag_at (drop 8 (tail_of e rest)) ≡ e.deleted
unfolding tail_of to_bytes
tail_of-flag e rest = elim e.deleted as (λ b. flag_at (flag b ∷ rest) ≡ b) [
  | true ↦ refl
  | false ↦ refl
]

tail_of-rest : (e : Entry) (rest : List ℕ) → drop 9 (tail_of e rest) ≡ rest
unfolding tail_of to_bytes
tail_of-rest e rest = refl

tail_of-long : (e : Entry) (rest : List ℕ) → ltb (length (tail_of e rest)) 8 ≡ false
unfolding tail_of to_bytes
tail_of-long e rest = ground arith

decode_entry-encode :
    (e : Entry) (rest : List ℕ)
    → Fits e
    → decode_entry (encode_entry e ++ rest) ≡ some (stored e, rest)
unfolding decode_entry
decode_entry-encode e rest fits =
    rw
      (
        encode_entry-append e rest,
        prefixed-put e.key (put_uint32 (length e.value) ++ (e.value ++ tail_of e rest)) fits.key,
        prefixed-put e.value (tail_of e rest) fits.value,
        tail_of-long e rest,
        tail_of-time e rest,
        hlc_timestamp_from_bytes-to_bytes e.timestamp fits.timestamp,
        tail_of-flag e rest,
        tail_of-rest e rest,
      )
      refl

decode_rounds-encode :
    (n : ℕ) (es : List Entry)
    → length es ≤ n
    → AllFit es
    → decode_rounds n (encode_all es) ≡ all_stored es
unfolding decode_rounds encode_all
decode_rounds-encode zero [] enough fits = refl
decode_rounds-encode zero (e ∷ es) enough fits = absurd (omega (arith, enough))
decode_rounds-encode (suc n) [] enough fits = unfold decode_entry prefixed in refl
decode_rounds-encode (suc n) (e ∷ es) enough (fit, fits) = ground (
  arith,
  decode_entry-encode e (encode_all es) fit,
  decode_rounds-encode n es (omega (arith, enough)) fits,
)

length-encode_all : (es : List Entry) → length es ≤ length (encode_all es)
unfolding encode_all
length-encode_all [] = omega arith
length-encode_all (e ∷ es) =
    omega (
      arith,
      length-append {0} (encode_entry e) (encode_all es),
      length-encode_all es,
      some_bytes e,
    )
  where
    some_bytes : (e : Entry) → 1 ≤ length (encode_entry e)
    some_bytes e = unfold encode_entry put_uint32 in omega arith

-- A block of entries whose lengths fit in 32 bits is read back in its order, all but the sequences,
-- which it does not keep.
pub decode_block-encode :
    (es : List Entry) → AllFit es → decode_block (encode_all es) ≡ all_stored es
unfolding decode_block
decode_block-encode es fits =
    decode_rounds-encode (length (encode_all es)) es (length-encode_all es) fits
