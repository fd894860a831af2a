-- ===== src/Storage/SsTable/Footer.antt =====
-- The footer of a file.
use hermes.Base.{
  ℕ, suc, ◌+◌, ◌-◌, ◌<◌, ◌≡◌, refl, sym, ap, ◌∙◌, false, some, List, [], ◌∷◌, ◌++◌, ltb, length,
  length-append, length-take, take, drop, take-append, drop-append, GoString, u64_mod, arith,
}
use hermes.Storage.Command.{put_uint32, put_uint64}
use hermes.Storage.Wal.Record.{uint64_le}
use hermes.Storage.Wal.Record.RoundTrip.{uint64_le-put}
use hermes.Storage.Bloom.{zeros}
use hermes.Storage.SsTable.{Writer, magic_number, footer_size}
use hermes.Storage.SsTable.Files.{key_field, write_footer, read_at}

length-key_field : (key : GoString) → length (key_field key) ≡ 12
length-key_field key = omega (
  arith,
  length-take {0} 12 (take 12 key ++ zeros 12),
  length-append {0} (take 12 key) (zeros 12),
)

drop-append_eq : (n : ℕ) (xs ys : List ℕ) → length xs ≡ n → drop n (xs ++ ys) ≡ ys
drop-append_eq n xs ys e = ap (λ k. drop k (xs ++ ys)) (sym e) ∙ drop-append {0} xs ys

drop-plus : (n : ℕ) (xs ys : List ℕ) → drop (length xs + n) (xs ++ ys) ≡ drop n ys
drop-plus n [] ys = let e : 0 + n ≡ n = omega arith in ap (λ k. drop k ys) e
drop-plus n (x ∷ xs) ys =
    let e : suc (length xs) + n ≡ suc (length xs + n) = omega arith in
    ap (λ k. drop k (x ∷ (xs ++ ys))) e ∙ drop-plus n xs ys

-- What stands behind a key's field, eight bytes further on.
drop-key_field : (key : GoString) (ys : List ℕ) → drop 20 (key_field key ++ ys) ≡ drop 8 ys
drop-key_field key ys =
    let e : 20 ≡ length (key_field key) + 8 = omega (arith, length-key_field key) in
    ap (λ k. drop k (key_field key ++ ys)) e ∙ drop-plus 8 (key_field key) ys

module _ (a b c d : ℕ) (w : Writer) where
  pub length-write_footer : length (write_footer a b c d w) ≡ footer_size
  unfolding write_footer put_uint64 put_uint32
  length-write_footer = omega (
    arith,
    length-key_field w.min_key,
    length-append {0} (key_field w.min_key)
        (put_uint32 (length (take 12 w.max_key)) ++ (zeros 4 ++ put_uint64 magic_number)),
  )

  pub first_field : a < u64_mod → uint64_le (write_footer a b c d w) ≡ a
  unfolding write_footer put_uint64 put_uint32
  first_field small = uint64_le-put a (drop 8 (write_footer a b c d w)) small

  pub second_field : b < u64_mod → uint64_le (drop 8 (write_footer a b c d w)) ≡ b
  unfolding write_footer put_uint64 put_uint32
  second_field small = uint64_le-put b (drop 16 (write_footer a b c d w)) small

  pub third_field : c < u64_mod → uint64_le (drop 16 (write_footer a b c d w)) ≡ c
  unfolding write_footer put_uint64 put_uint32
  third_field small = uint64_le-put c (drop 24 (write_footer a b c d w)) small

  pub fourth_field : d < u64_mod → uint64_le (drop 24 (write_footer a b c d w)) ≡ d
  unfolding write_footer put_uint64 put_uint32
  fourth_field small = uint64_le-put d (drop 32 (write_footer a b c d w)) small

  pub magic_field : uint64_le (drop 56 (write_footer a b c d w)) ≡ magic_number
  unfolding write_footer put_uint64 put_uint32
  magic_field =
      let rest = put_uint32 (length (take 12 w.max_key)) ++ (zeros 4 ++ put_uint64 magic_number) in
      ap uint64_le (drop-key_field w.min_key rest) ∙ uint64_le-put magic_number [] (omega arith)

pub take-all : (ys : List ℕ) → take (length ys) ys ≡ ys
take-all [] = refl
take-all (y ∷ ys) = ap (λ zs. y ∷ zs) (take-all ys)

-- The last bytes of a file.
pub read_at-last :
    (xs ys : List ℕ) → read_at (xs ++ ys) (length (xs ++ ys) - length ys) (length ys) ≡ some ys
unfolding read_at
read_at-last xs ys =
    let total = length-append {0} xs ys in
    let start : length (xs ++ ys) - length ys ≡ length xs = omega (arith, total) in
    let enough : ltb (length (xs ++ ys)) (length xs + length ys) ≡ false = ground (arith, total) in
    let whole : take (length ys) ys ≡ ys = take-all ys in
    rw (start, enough, drop-append {0} xs ys, whole) refl

-- Bytes in the middle of a file.
pub read_at-middle :
    (offset len : ℕ) (xs ys zs : List ℕ)
    → offset ≡ length xs
    → len ≡ length ys
    → read_at (xs ++ (ys ++ zs)) offset len ≡ some ys
unfolding read_at
read_at-middle offset len xs ys zs e f =
    let enough : ltb (length (xs ++ (ys ++ zs))) (offset + len) ≡ false =
      ground (arith, e, f, length-append {0} xs (ys ++ zs), length-append {0} ys zs) in
    let at : drop offset (xs ++ (ys ++ zs)) ≡ ys ++ zs =
      drop-append_eq offset xs (ys ++ zs) (sym e) in
    rw (enough, at) (ap some (ap (λ n. take n (ys ++ zs)) f ∙ take-append {0} ys zs))
