-- ===== src/Clock/Hybrid/Order.antt =====
-- Timestamps as pairs, their bytes, and how `Now` and `Update` move the clock.
use hermes.Base.{
  ℕ, ◌+◌, ◌<◌, ◌≤◌, ◌≡◌, ◌↔◌, ◌⊎◌, inl, inr, true, refl, arith, ltb, Option, none, some, max,
  Bool-cases, ltb→lt,
}
use hermes.Clock.Hybrid.{
  pack, unpack, before, Hlc, now, update, update_from, to_bytes, hlc_timestamp_from_bytes, later,
  next_logical,
}

-- A time in milliseconds that fits the 47 bits above the logical counter: past the year 6400.
abbrev pub max_physical : ℕ
max_physical = 140737488355328

-- Unpacking gives back what was packed, if the milliseconds fit in 47 bits and the counter in 16.
pub unpack-pack : (p c : ℕ) → p < max_physical → c < 65536 → unpack (pack p c) ≡ (p, c)
unfolding unpack pack
unpack-pack p c hp hc = ground arith

-- A timestamp of 64 bits, packed again from its parts, is the timestamp.
pub pack-unpack : (ts : ℕ) → ts < 18446744073709551616 → pack (unpack ts).0 (unpack ts).1 ≡ ts
unfolding unpack pack
pack-unpack ts h = ground arith

-- `Before` compares the milliseconds first, and then the logical counter, for milliseconds of 47
-- bits and counters of 16.
pub before-pack :
    (p c q d : ℕ)
    → p < max_physical
    → c < 65536
    → q < max_physical
    → d < 65536
    → (before (pack p c) (pack q d) ≡ true) ↔ ((p < q) ⊎ ((p ≡ q) × (c < d)))
unfolding before pack
before-pack p c q d hp hc hq hd = (λ h. grind arith, λ h. ground arith)

-- A timestamp of 64 bits, written as eight bytes, is read back.
pub hlc_timestamp_from_bytes-to_bytes :
    (ts : ℕ) → ts < 18446744073709551616 → hlc_timestamp_from_bytes (to_bytes ts) ≡ some ts
unfolding hlc_timestamp_from_bytes to_bytes
hlc_timestamp_from_bytes-to_bytes ts h = ground arith

-- The clock and its wall clock are in range.
pub record IsSmall (pt : ℕ) (h : Hlc) : Type 0 where
  pub wall : pt < max_physical
  pub physical : h.l < max_physical
  pub logical : h.c < 65536

-- With times of 47 bits, unless the logical counter is at its end and the wall clock is not past
-- the clock's time, `Now` returns a later timestamp than the clock's, at the later of the two
-- times, and packs the clock that it leaves.
pub now_increases :
    (pt : ℕ) (h : Hlc)
    → IsSmall pt h
    → (h.c < 65535) ⊎ (h.l < pt)
    → (before (pack h.l h.c) (now pt h).1 ≡ true)
      × ((now pt h).1 ≡ pack (now pt h).0.l (now pt h).0.c)
      × ((now pt h).0.l ≡ max pt h.l)
      × ((now pt h).0.c < 65536)
unfolding before pack now
now_increases pt h s room = ground arith

-- With times of 47 bits, the logical counter at its end and the wall clock not past the clock's
-- time, `Now` returns an earlier timestamp than the clock's: the 16-bit counter wraps before it is
-- tested.
pub now_wraps :
    (pt : ℕ) (h : Hlc)
    → IsSmall pt h
    → h.c ≡ 65535
    → pt ≤ h.l
    → (before (now pt h).1 (pack h.l h.c) ≡ true) × ((now pt h).1 ≡ pack h.l 0)
unfolding before pack now
now_wraps pt h s full behind = ground arith

module _ (pt msg_l msg_c : ℕ) (h : Hlc) (s : IsSmall pt h) (fits : msg_l < max_physical)
    (room : h.c < 65535) (msg_room : msg_c < 65535) where
  abbrev top : ℕ
  top = max (max pt h.l) msg_l

  abbrev bumped : ℕ
  bumped = next_logical top h.l h.c msg_l msg_c

  later-top : later (later pt h.l) msg_l ≡ top
  later-top = ground arith

  bumped_facts :
      (bumped < 65536)
      × ((h.l < top) ⊎ ((h.l ≡ top) × (h.c < bumped)))
      × ((msg_l < top) ⊎ ((msg_l ≡ top) × (msg_c < bumped)))
  unfolding next_logical
  bumped_facts = ground arith

  update_taken :
      msg_l ≤ pt + h.max_skew_ms
      → h.max_skew_ms < max_physical
      → update_from pt msg_l msg_c h ≡ (record h { l = top; c = bumped }, some (pack top bumped))
  unfolding update_from
  update_taken le skew = rw later-top (ground arith)

  update_refused : pt + h.max_skew_ms < msg_l → update_from pt msg_l msg_c h ≡ (h, none)
  unfolding update_from
  update_refused lt = ground arith

-- What `Update` did to the clock with a message of time `msg_l` and counter `msg_c`.
abbrev pub UpdateOutcome : ℕ → ℕ → ℕ → Hlc → Hlc × Option ℕ → Type 0
UpdateOutcome pt msg_l msg_c h (h', answer) =
    ((pt + h.max_skew_ms < msg_l) × (h' ≡ h) × (answer ≡ none))
    ⊎ ((msg_l ≤ pt + h.max_skew_ms)
        × (answer ≡ some (pack h'.l h'.c))
        × (h'.l ≡ max (max pt h.l) msg_l)
        × (before (pack h.l h.c) (pack h'.l h'.c) ≡ true)
        × (before (pack msg_l msg_c) (pack h'.l h'.c) ≡ true))

-- With times and a skew bound of 47 bits and with both counters below their end, `Update` refuses
-- a message whose time is more than the allowed skew past the wall clock, and then leaves the
-- clock as it was. It takes any other, and returns the clock's new timestamp, which is at the
-- latest of the three times, and later than the clock's old timestamp and the message's.
pub update_lem :
    (pt msg_l msg_c : ℕ) (h : Hlc)
    → IsSmall pt h
    → msg_l < max_physical
    → h.c < 65535
    → msg_c < 65535
    → h.max_skew_ms < max_physical
    → UpdateOutcome pt msg_l msg_c h (update pt (pack msg_l msg_c) h)
unfolding update
update_lem pt msg_l msg_c h s fits room msg_room skew =
    let u : unpack (pack msg_l msg_c) ≡ (msg_l, msg_c) =
      unpack-pack msg_l msg_c fits (omega arith) in
    let t : ℕ = top pt msg_l msg_c h s fits room msg_room in
    let b : ℕ = bumped pt msg_l msg_c h s fits room msg_room in
    let (small, own, msg) = bumped_facts pt msg_l msg_c h s fits room msg_room in
    rw u (elim (Bool-cases (ltb (pt + h.max_skew_ms) msg_l)) [
      | inl far ↦
          rw (update_refused pt msg_l msg_c h s fits room msg_room (ltb→lt _ _ far))
            (inl (ltb→lt _ _ far, refl, refl))
      | inr near ↦ rw (update_taken pt msg_l msg_c h s fits room msg_room (ground arith) skew) (
          inr (
            ground arith,
            refl,
            refl,
            (before-pack h.l h.c t b s.physical s.logical (omega arith) small).1 own,
            (before-pack msg_l msg_c t b fits (omega arith) (omega arith) small).1 msg,
          ))
    ])
