-- ===== src/Relocate/Leb.antt =====
-- The decoders of LEB128 numbers (library/src/main/cpp/linker/linker_sleb128.h), on 64-bit
-- machines, and the numbers that they read.
pub mod Value
use fake_linker.Prelude.{
  ℕ, zero, suc, ◌+◌, ◌-◌, ◌*◌, ◌/◌, ◌%◌, ◌^◌, ◌≤◌, ◌<◌, bit_and, bit_or, bit_xor, ◌≡◌, refl, sym,
  ap, ◌∙◌, ◌≢◌, ◌↔◌, ◌⊎◌, inl, inr, Bool, true, false, not, ◌&&◌, ◌||◌, Option, none, some, List,
  [], ◌∷◌, ◌++◌, map, arith, ltb, leb, ◌==◌, if◌then◌else◌, ltb→lt, leb→le, ==→eq, ==_self, tests,
  Bool-cases, Option-cases, all_below, all_below_at, if-cases, length, is_empty, is_some,
  length-append, All, select, any, Bytes, bytes, text_eq,
}
use native.Mathlib.Nat.{pow-suc, one-le-pow, mod-eq_of_lt}
use fake_linker.Bits.Align.{word, two-pow-add}
use fake_linker.Bits.Low.{bit_or-low, bit_or-high, two-pow-le}

-- The process ends at the end of the buffer; a shift by 64 or more has no meaning in C++.
pub data Popped : Type 0 where
  out_of_bounds : Popped
  undefined : Popped
  popped : ℕ → Bytes → Popped

-- `static_cast<size_t>(byte & 127) << shift`
abbrev pub shifted : ℕ → ℕ → ℕ
shifted byte shift = byte % 128 * 2 ^ shift % word

abbrev pub has_more : ℕ → Bool
has_more byte = byte / 128 % 2 == 1

-- The bits from `shift` on are set if the last byte has the sign bit 64.
unfoldable pub sign_extend : ℕ → ℕ → ℕ → ℕ
sign_extend shift byte value =
    if ltb shift 64 && (byte / 64 % 2 == 1) then bit_or value (word - 2 ^ shift) else value

unfoldable pub sleb128_loop : Bytes → ℕ → ℕ → Popped
sleb128_loop [] shift value = out_of_bounds
sleb128_loop (byte ∷ current) shift value =
    let read = bit_or value (shifted byte shift) in
    let rest = sleb128_loop current (shift + 7) read in
    if leb 64 shift
    then undefined
    else if has_more byte
    then rest
    else popped (sign_extend (shift + 7) byte read) current

-- `sleb128_decoder::pop_front`, on the bytes from `current_` to `end_`.
unfoldable pub sleb128_pop_front : Bytes → Popped
sleb128_pop_front current = sleb128_loop current 0 0

unfoldable pub uleb128_loop : Bytes → ℕ → ℕ → Popped
uleb128_loop [] shift value = out_of_bounds
uleb128_loop (byte ∷ current) shift value =
    let read = bit_or value (shifted byte shift) in
    let rest = uleb128_loop current (shift + 7) read in
    if leb 64 shift then undefined else if has_more byte then rest else popped read current

-- `uleb128_decoder::pop_front`
unfoldable pub uleb128_pop_front : Bytes → Popped
uleb128_pop_front current = uleb128_loop current 0 0

-- `uleb128_decoder::has_bytes`
unfoldable pub has_bytes : Bytes → Bool
has_bytes current = not (is_empty current)

-- The encoding of groups of seven bits, the lowest first and `last` the highest, before `rest`.
abbrev pub encode : List ℕ → ℕ → Bytes → Bytes
encode [] last rest = last ∷ rest
encode (group ∷ groups) last rest = (group + 128) ∷ encode groups last rest

-- The number with these groups.
abbrev pub unsigned : List ℕ → ℕ → ℕ
unsigned [] last = last
unsigned (group ∷ groups) last = group + 128 * unsigned groups last

-- What the sign adds: the number less `128 ^ n`, `n` the number of groups, modulo 2^64; at most
-- ten groups are read, and 2^70 is a multiple of 2^64.
abbrev pub sign_of : ℕ → ℕ → ℕ
sign_of last bits = if leb 64 last then 2 ^ 70 - 2 ^ bits else 0

abbrev pub signed : List ℕ → ℕ → ℕ
signed groups last = (unsigned groups last + sign_of last (7 * (length groups + 1))) % word
