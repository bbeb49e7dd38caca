-- ===== src/Relocate/Leb/Value.antt =====
-- The numbers that the decoder of signed LEB128 numbers reads.
use fake_linker.Prelude.{
  ℕ, suc, ◌+◌, ◌-◌, ◌*◌, ◌%◌, ◌^◌, ◌≤◌, ◌<◌, bit_or, ◌≡◌, sym, ap, ◌∙◌, inl, inr, List, [], ◌∷◌,
  arith, leb, leb→le, Bool-cases, length, All, Bytes,
}
use native.Mathlib.Nat.{mod-eq_of_lt}
use fake_linker.Bits.Align.{word, two-pow-add}
use fake_linker.Bits.Low.{bit_or-low, bit_or-high, two-pow-le}
use fake_linker.Relocate.Leb.{
  popped, shifted, sign_extend, sleb128_loop, sleb128_pop_front, encode, unsigned, sign_of, signed,
}

power_step : (s : ℕ) → 2 ^ (s + 7) ≡ 128 * 2 ^ s
power_step s = omega (arith, two-pow-add s 7)

power-le : (s t : ℕ) → s ≤ t → 2 ^ s ≤ 2 ^ t
power-le s t h = let e : (t - s) + s ≡ t = omega arith in rw e at (two-pow-le (t - s) s)

-- A group that fits: no bit is lost.
read_group : (s v g : ℕ) → s ≤ 57 → v < 2 ^ s → bit_or v (shifted g s) ≡ v + g % 128 * 2 ^ s
read_group s v g hs hv =
    let top = power-le s 57 hs in
    let small : g % 128 * 2 ^ s < word = grind (arith, top) in
    ap (bit_or v) (mod-eq_of_lt small) ∙ bit_or-low s v (g % 128) hv

read_top_group : (v g : ℕ) → v < 2 ^ 63 → bit_or v (shifted g 63) ≡ v + g % 2 * 2 ^ 63
read_top_group v g hv =
    let bit : shifted g 63 ≡ g % 2 * 2 ^ 63 = omega arith in
    ap (bit_or v) bit ∙ bit_or-low 63 v (g % 2) hv

split_product : (v p g u : ℕ) → v + p * (g + 128 * u) ≡ v + g * p + 128 * p * u
split_product v p g u = grind arith

sign_of-word : (last s : ℕ) → 64 ≤ last → s ≤ 70 → sign_of last s + 2 ^ s ≡ 64 * word
sign_of-word last s neg hs = ground (arith, power-le s 70 hs, neg)

sign_extend-sign_of :
    (t last x : ℕ)
    → t ≤ 63
    → last < 128
    → x < 2 ^ t
    → sign_extend t last x ≡ (x + sign_of last t) % word
unfolding sign_extend
sign_extend-sign_of t last x ht hl hx =
    let top = power-le t 63 ht in
    elim (Bool-cases (leb 64 last)) [
      | inl neg ↦ ground (arith, neg, top, bit_or-high t x, sign_of-word last t)
      | inr other ↦ ground (arith, other, top)
    ]

-- The last byte, below the highest place.
read_last :
    (k v last : ℕ) (rest : Bytes)
    → last < 128
    → k ≤ 8
    → v < 2 ^ (7 * k)
    → sleb128_loop (last ∷ rest) (7 * k) v
      ≡ popped ((v + 2 ^ (7 * k) * last + sign_of last (7 * (k + 1))) % word) rest
unfolding sleb128_loop
read_last k v last rest hl hk hv =
    let s = 7 * k in
    let here = read_group s v last (omega (arith, hk)) hv in
    let step = power_step s in
    let below : v + last * 2 ^ s < 2 ^ (s + 7) = grind (arith, step, hl, hv) in
    let next : s + 7 ≡ 7 * (k + 1) = omega arith in
    let small : last % 128 ≡ last = omega (arith, hl) in
    let read : bit_or v (shifted last s) ≡ v + 2 ^ s * last = grind (arith, here, small) in
    let below' : v + 2 ^ s * last < 2 ^ (s + 7) = grind (arith, below) in
    let value = sign_extend-sign_of (s + 7) last (v + 2 ^ s * last) (omega (arith, hk)) hl below' in
    let value' = ap (λ (t : ℕ). (v + 2 ^ s * last + sign_of last t) % word) next in
    let whole = ap (sign_extend (s + 7) last) read ∙ value ∙ value' in ground (arith, whole, hl, hk)

-- The last byte at the highest place, where only its lowest bit counts.
read_top :
    (v last : ℕ) (rest : Bytes)
    → last < 128
    → v < 2 ^ 63
    → sleb128_loop (last ∷ rest) 63 v ≡ popped ((v + 2 ^ 63 * last + sign_of last 70) % word) rest
unfolding sleb128_loop sign_extend
read_top v last rest hl hv = ground (arith, read_top_group v last hv)

read_more :
    (k v group : ℕ) (current : Bytes)
    → group < 128
    → k ≤ 8
    → v < 2 ^ (7 * k)
    → (sleb128_loop ((group + 128) ∷ current) (7 * k) v
        ≡ sleb128_loop current (7 * (k + 1)) (v + group * 2 ^ (7 * k)))
      × (v + group * 2 ^ (7 * k) < 2 ^ (7 * (k + 1)))
unfolding sleb128_loop
read_more k v group current hg hk hv =
    let s = 7 * k in
    let here = read_group s v (group + 128) (omega (arith, hk)) hv in
    let small : (group + 128) % 128 ≡ group = omega (arith, hg) in
    let read : bit_or v (shifted (group + 128) s) ≡ v + group * 2 ^ s =
      grind (arith, here, small) in
    let next : s + 7 ≡ 7 * (k + 1) = omega arith in
    let step : 2 ^ (7 * (k + 1)) ≡ 128 * 2 ^ s = ap (λ (t : ℕ). 2 ^ t) (sym next) ∙ power_step s in
    let again =
      ap (λ (t : ℕ). sleb128_loop current t (bit_or v (shifted (group + 128) s))) next
      ∙ ap (sleb128_loop current (7 * (k + 1))) read in
    (ground (arith, again, hg, hk), grind (arith, step, hg, hv))

sleb128_loop-encode :
    (groups : List ℕ) (last k v : ℕ) (rest : Bytes)
    → All (λ g. g < 128) groups
    → last < 128
    → k + length groups ≤ 9
    → v < 2 ^ (7 * k)
    → sleb128_loop (encode groups last rest) (7 * k) v
      ≡ popped
          ((v + 2 ^ (7 * k) * unsigned groups last + sign_of last (7 * (k + length groups + 1)))
            % word)
          rest
sleb128_loop-encode [] last k v rest small hl hk hv = elim (Bool-cases (leb k 8)) [
  | inl low ↦
      let same : k + 0 ≡ k = omega arith in
      let e = read_last k v last rest hl (leb→le k 8 low) hv in
      ground (arith, e, ap (λ (t : ℕ). sign_of last (7 * (t + 1))) same)
  | inr top ↦
      let same : k ≡ 9 = ground (arith, top, hk) in
      rw same (read_top v last rest hl (rw same at hv))
]
sleb128_loop-encode (group ∷ groups) last k v rest small hl hk hv =
    let p = 2 ^ (7 * k) in
    let (here, below) =
      read_more k v group (encode groups last rest) small.0 (omega (arith, hk)) hv in
    let tail =
      sleb128_loop-encode groups last (k + 1) (v + group * p) rest small.1 hl (omega (arith, hk))
        below in
    let step : 2 ^ (7 * (k + 1)) ≡ 128 * p =
      ap (λ (t : ℕ). 2 ^ t) (omega arith) ∙ power_step (7 * k) in
    let split = split_product v p group (unsigned groups last) in
    let values = ap (λ (t : ℕ). v + group * p + t * unsigned groups last) step ∙ sym split in
    let places : k + 1 + length groups + 1 ≡ k + suc (length groups) + 1 = omega arith in
    let answer =
      ap (λ (t : ℕ). popped (t % word) rest)
        (ap
            (λ (t : ℕ).
              v + group * p + 2 ^ (7 * (k + 1)) * unsigned groups last + sign_of last (7 * t))
            places
          ∙ ap (λ (t : ℕ). t + sign_of last (7 * (k + suc (length groups) + 1))) values) in
    here ∙ tail ∙ answer

-- `sleb128_decoder` reads back what is encoded in at most ten groups of seven bits, whatever
-- follows: the number of the groups, less the power behind them if the last group has its sign
-- bit, modulo 2^64.
pub sleb128_pop_front-encode :
    (groups : List ℕ) (last : ℕ) (rest : Bytes)
    → All (λ g. g < 128) groups
    → last < 128
    → length groups ≤ 9
    → sleb128_pop_front (encode groups last rest) ≡ popped (signed groups last) rest
unfolding sleb128_pop_front
sleb128_pop_front-encode groups last rest small hl hk =
    let e = sleb128_loop-encode groups last 0 0 rest small hl (omega (arith, hk)) (omega arith) in
    ground (arith, e)

-- A number that was read takes at least one byte.
sleb128_loop-shrinks :
    (current : Bytes) (shift value v : ℕ) (rest : Bytes)
    → sleb128_loop current shift value ≡ popped v rest
    → length rest < length current
unfolding sleb128_loop
sleb128_loop-shrinks [] shift value v rest e = absurd (ground arith)
sleb128_loop-shrinks (byte ∷ current) shift value v rest e =
    let read = bit_or value (shifted byte shift) in
    let ih = sleb128_loop-shrinks current (shift + 7) read v rest in ground (arith, e, ih)

pub sleb128_pop_front-shrinks :
    (current : Bytes) (v : ℕ) (rest : Bytes)
    → sleb128_pop_front current ≡ popped v rest
    → length rest < length current
unfolding sleb128_pop_front
sleb128_pop_front-shrinks current v rest e = sleb128_loop-shrinks current 0 0 v rest e
