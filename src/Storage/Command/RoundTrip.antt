-- ===== src/Storage/Command/RoundTrip.antt =====
-- Encoding and decoding of commands, as one round trip.
use hermes.Base.{
  drop-append, take-append, ℕ, zero, suc, ◌+◌, ◌≤◌, ◌<◌, ◌≡◌, refl, ap, sym, ◌∙◌, Bool, true, false,
  none, some, List, [], ◌∷◌, ◌++◌, ltb, leb, ◌==◌, ◌&&◌, length, length-append, length-drop,
  Bool-cases, inl, inr, ◌||◌, get_elem?, take, drop, GoString, arith,
}
use mathlib.Core.List.{append_assoc}
use hermes.Base.Partial.{Returns, Returns-bind, Returns-if}
use hermes.Storage.Command.{
  Command, put_uint32, put_uint64, uint32, encode, decode_value, value_at, decode_command,
  encode_command, validate_command,
}

uint32-put_uint32 :
    (n : ℕ) (rest : List ℕ) → n < 4294967296 → uint32 (put_uint32 n ++ rest) ≡ some n
unfolding uint32 put_uint32
uint32-put_uint32 n rest small = ap some (omega (arith, small))

-- Four bytes are enough to read a length.
uint32-Returns : (bs : List ℕ) → 4 ≤ length bs → Returns (λ n. Unit) (uint32 bs)
unfolding uint32
uint32-Returns (a ∷ b ∷ c ∷ d ∷ rest) h = tt
uint32-Returns [] h = omega (arith, h)
uint32-Returns (a ∷ []) h = omega (arith, h)
uint32-Returns (a ∷ b ∷ []) h = omega (arith, h)
uint32-Returns (a ∷ b ∷ c ∷ []) h = omega (arith, h)

drop_nil : {A : Type 0} (n : ℕ) → ◌≡◌ {A = List A} (drop n []) []
drop_nil zero = refl
drop_nil (suc n) = refl

drop-add : {A : Type 0} (m n : ℕ) (xs : List A) → drop (m + n) xs ≡ drop n (drop m xs)
drop-add zero n xs = ap (λ k. drop k xs) (omega arith)
drop-add (suc m) n [] = drop_nil (suc m + n) ∙ sym (drop_nil n)
drop-add (suc m) n (x ∷ xs) =
    let shift : suc m + n ≡ suc (m + n) = omega arith in
    ap (λ k. drop k (x ∷ xs)) shift ∙ drop-add m n xs

value_at-read :
    (offset : ℕ) (value rest bs : List ℕ)
    → drop offset bs ≡ value ++ rest
    → offset + length value ≤ length bs
    → value_at offset (length value) bs ≡ value
value_at-read offset [] rest bs here fits = refl
value_at-read offset (v ∷ value) rest bs here fits =
    let room : (ltb 0 (length (v ∷ value)) && leb (offset + length (v ∷ value)) (length bs))
        ≡ true =
      ground (arith, fits) in
    rw (room, here) (take-append (v ∷ value) rest)

-- The value part of an encoded command, behind the offset.
decode_value-encoded :
    (type offset : ℕ) (key : GoString) (value rest bs : List ℕ)
    → length value < 4294967296
    → drop offset bs ≡ put_uint32 (length value) ++ (value ++ rest)
    → offset + 4 + length value ≤ length bs
    → decode_value type offset key bs ≡ some (key, value, type == 2)
unfolding decode_value put_uint32
decode_value-encoded type offset key value rest bs small here fits =
    let long : ltb (length bs) (offset + 4) ≡ false = ground (arith, fits) in
    let read : uint32 (drop offset bs) ≡ some (length value) =
      ap uint32 here ∙ uint32-put_uint32 (length value) (value ++ rest) small in
    let behind : drop (offset + 4) bs ≡ value ++ rest = drop-add offset 4 bs ∙ ap (drop 4) here in
    rw (long, read, value_at-read (offset + 4) value rest bs behind fits) refl

encode-nested :
    (c : Command)
    → encode c
      ≡ c.type
        ∷ (put_uint32 (length c.key)
            ++ (c.key ++ (put_uint32 (length c.value) ++ (c.value ++ put_uint64 c.version))))
unfolding encode put_uint32
encode-nested c =
    let head = c.type ∷ put_uint32 (length c.key) in
    let len = put_uint32 (length c.value) in
    let tail = put_uint64 c.version in
    append_assoc (head ++ c.key ++ len) c.value tail
    ∙ append_assoc (head ++ c.key) len (c.value ++ tail)
    ∙ append_assoc head c.key (len ++ (c.value ++ tail))

decode_command-read :
    (bs : List ℕ) (type len : ℕ) (key : GoString)
    → get_elem? bs 0 ≡ some type
    → uint32 (drop 1 bs) ≡ some len
    → take len (drop 5 bs) ≡ key
    → 5 + len ≤ length bs
    → decode_command bs ≡ decode_value type (5 + len) key bs
unfolding decode_command
decode_command-read bs type len key t n k fits =
    let long : ltb (length bs) 5 ≡ false = ground (arith, fits) in
    let longer : ltb (length bs) (5 + len) ≡ false = ground (arith, fits) in
    rw (long, t, n, longer, k) refl

decode_command-encode :
    (c : Command)
    → length c.key < 4294967296
    → length c.value < 4294967296
    → decode_command (encode c) ≡ some (c.key, c.value, c.type == 2)
unfolding put_uint32 put_uint64
decode_command-encode c k v =
    let tail = c.value ++ put_uint64 c.version in
    let rest = c.key ++ (put_uint32 (length c.value) ++ tail) in
    let bs : List ℕ = c.type ∷ (put_uint32 (length c.key) ++ rest) in
    let whole : length bs ≡ 17 + length c.key + length c.value = omega (
      arith,
      length-append c.key (put_uint32 (length c.value) ++ tail),
      length-append c.value (put_uint64 c.version),
    ) in
    let read : uint32 (drop 1 bs) ≡ some (length c.key) = uint32-put_uint32 (length c.key) rest k in
    let key_read : take (length c.key) (drop 5 bs) ≡ c.key =
      take-append c.key (put_uint32 (length c.value) ++ tail) in
    let behind : drop (5 + length c.key) bs ≡ put_uint32 (length c.value) ++ tail =
      drop-add 5 (length c.key) bs ∙ drop-append c.key (put_uint32 (length c.value) ++ tail) in
    ap decode_command (encode-nested c)
    ∙ decode_command-read bs c.type (length c.key) c.key refl read key_read (omega (arith, whole))
    ∙ decode_value-encoded c.type (5 + length c.key) c.key c.value (put_uint64 c.version) bs v
        behind (omega (arith, whole))

validate_command-encode :
    (c : Command)
    → ((c.type == 1) || (c.type == 2) || (c.type == 3)) ≡ true
    → validate_command (encode c) ≡ some none
unfolding validate_command put_uint32
validate_command-encode c known = ap validate_command (encode-nested c) ∙ ground (arith, known)

-- A command with a key and a value shorter than 4 GiB decodes to its key, its value and whether it
-- deletes, and it validates.
pub command_round_trip :
    (key : GoString) (value : List ℕ) (deleted : Bool)
    → length key < 4294967296
    → length value < 4294967296
    → (decode_command (encode_command key value deleted) ≡ some (key, value, deleted))
      × (validate_command (encode_command key value deleted) ≡ some none)
unfolding encode_command
command_round_trip key value true k v =
    let c : Command = record {
      type = 2;
      key = key;
      value = value;
      version = 18446744073709551615;
    } in
    (decode_command-encode c k v, validate_command-encode c refl)
command_round_trip key value false k v =
    let c : Command = record {
      type = 1;
      key = key;
      value = value;
      version = 18446744073709551615;
    } in
    (decode_command-encode c k v, validate_command-encode c refl)

decode_value_total :
    (type offset : ℕ) (key : GoString) (bs : List ℕ)
    → Returns (λ d. Unit) (decode_value type offset key bs)
unfolding decode_value
decode_value_total type offset key bs = elim (Bool-cases (ltb (length bs) (offset + 4))) [
  | inl short ↦ rw short tt
  | inr long ↦
      let enough : 4 ≤ length (drop offset bs) = ground (arith, length-drop offset bs) in
      rw long (
        Returns-bind (λ n. Unit) (λ d. Unit) (uint32 (drop offset bs)) _
          (uint32-Returns (drop offset bs) enough) (λ n u. tt))
]

-- Decoding never panics, whatever bytes it is given, and neither does validation.
pub decode_command_total :
    (bs : List ℕ)
    → Returns (λ d. Unit) (decode_command bs) × Returns (λ d. Unit) (validate_command bs)
unfolding decode_command validate_command
decode_command_total [] = (tt, tt)
decode_command_total (t ∷ bs) = elim (Bool-cases (ltb (length (t ∷ bs)) 5)) [
  | inl short ↦ (rw short tt, rw short tt)
  | inr long ↦
      let enough : 4 ≤ length bs = ground (arith, long) in
      (
        rw long (
            Returns-bind (λ n. Unit) (λ d. Unit) (uint32 bs) _ (uint32-Returns bs enough)
              (λ len u.
                Returns-if (λ d. Unit) (ltb (length (t ∷ bs)) (5 + len)) (some ([], [], false)) _ tt
                  (decode_value_total t (5 + len) (take len (drop 5 (t ∷ bs))) (t ∷ bs)))),
        rw long tt,
      )
]
