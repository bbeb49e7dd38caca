-- ===== src/Relocate/Groups.antt =====
-- The packed relocations with addends: `for_all_packed_relocs`
-- (library/src/main/cpp/linker/linker_relocate.h).
pub mod Described
pub mod Ends
pub mod Read
pub mod Unpack
use fake_linker.Prelude.{
  ℕ, zero, suc, ◌+◌, ◌-◌, ◌*◌, ◌/◌, ◌%◌, ◌^◌, ◌≤◌, ◌<◌, bit_and, bit_or, bit_xor, ◌≡◌, refl, sym,
  ap, ◌∙◌, ◌≢◌, ◌↔◌, ◌⊎◌, inl, inr, Bool, true, false, not, ◌&&◌, ◌||◌, Option, none, some, List,
  [], ◌∷◌, ◌++◌, map, arith, ltb, leb, ◌==◌, if◌then◌else◌, ltb→lt, leb→le, ==→eq, ==_self, tests,
  Bool-cases, Option-cases, all_below, all_below_at, if-cases, length, is_empty, is_some,
  length-append, All, select, any, Bytes, bytes, text_eq,
}
use fake_linker.Bits.Align.{word}
use fake_linker.Relocate.Leb.{Popped, out_of_bounds, undefined, popped, sleb128_pop_front}

-- A relocation, with `r_info` as one word.
pub record PackedReloc : Type 0 where
  pub r_offset : ℕ
  pub r_info : ℕ
  pub r_addend : ℕ

abbrev pub reloc_of : ℕ → ℕ → ℕ → PackedReloc
reloc_of offset info addend = record { r_offset = offset; r_info = info; r_addend = addend }

-- The end of the process, an undefined shift, fuel that ran out, the answer false of the callback
-- with its state, or a result.
pub data Outcome (S A : Type 0) : Type 0 where
  fatal : Outcome S A
  no_meaning : Outcome S A
  out_of_fuel : Outcome S A
  refused : S → Outcome S A
  done : A → Outcome S A

infixl 5 ◌>>=◌
abbrev pub ◌>>=◌ : {S A B : Type 0} → Outcome S A → (A → Outcome S B) → Outcome S B
fatal >>= f = fatal
no_meaning >>= f = no_meaning
out_of_fuel >>= f = out_of_fuel
refused s >>= f = refused s
done a >>= f = f a

-- What was read, before the rest of the bytes.
pub record Cursor (A : Type 0) : Type 0 where
  pub value : A
  pub current : Bytes

abbrev pub at : {A : Type 0} → A → Bytes → Cursor A
at v c = record { value = v; current = c }

abbrev pub added : ℕ → ℕ → ℕ
added base v = (base + v) % word

-- What the code makes of a number that was popped.
abbrev pub from_popped : {S : Type 0} → (ℕ → ℕ) → Popped → Outcome S (Cursor ℕ)
from_popped f out_of_bounds = fatal
from_popped f undefined = no_meaning
from_popped f (popped v rest) = done (at (f v) rest)

abbrev pub pop : {S : Type 0} → Bytes → Outcome S (Cursor ℕ)
pop current = from_popped (λ v. v) (sleb128_pop_front current)

-- `base += decoder.pop_front()`
abbrev pub pop_onto : {S : Type 0} → ℕ → Bytes → Outcome S (Cursor ℕ)
pop_onto base current = from_popped (added base) (sleb128_pop_front current)

-- The addends of a group: set to 0, one for each relocation, or one for the group.
pub data AddendMode : Type 0 where
  no_addend : AddendMode
  each_addend : AddendMode
  group_addend : AddendMode

-- A group's flags 2, 1, and 8 with 4, its delta of the offsets and its size.
pub record Header : Type 0 where
  pub by_delta : Bool
  pub by_info : Bool
  pub mode : AddendMode
  pub delta : ℕ
  pub size : ℕ

abbrev pub header_of : Bool → Bool → AddendMode → ℕ → ℕ → Header
header_of by_delta by_info mode delta size = record {
  by_delta = by_delta;
  by_info = by_info;
  mode = mode;
  delta = delta;
  size = size;
}

unfoldable pub addend_mode : ℕ → AddendMode
addend_mode flags =
    if bit_and flags 12 == 8
    then each_addend
    else if bit_and flags 12 == 12
    then group_addend
    else no_addend

abbrev pub pop_if : {S : Type 0} → Bool → ℕ → Bytes → Outcome S (Cursor ℕ)
pop_if true v current = pop current
pop_if false v current = done (at v current)

unfoldable pub read_group_addend : {S : Type 0} → AddendMode → ℕ → Bytes → Outcome S (Cursor ℕ)
read_group_addend each_addend r_addend current = done (at r_addend current)
read_group_addend group_addend r_addend current = pop_onto r_addend current
read_group_addend no_addend r_addend current = done (at 0 current)

-- The head of a group, and the members of the relocation that it sets.
unfoldable pub read_header :
    {S : Type 0} → PackedReloc → Bytes → Outcome S (Cursor (Header × PackedReloc))
unfolding read_group_addend addend_mode
read_header reloc current = do
  size ← pop current
  flags ← pop size.current
  let by_delta = not (bit_and flags.value 2 == 0)
  let by_info = not (bit_and flags.value 1 == 0)
  let mode = addend_mode flags.value
  delta ← pop_if by_delta 0 flags.current
  info ← pop_if by_info reloc.r_info delta.current
  addend ← read_group_addend mode reloc.r_addend info.current
  let header : Header = header_of by_delta by_info mode delta.value size.value
  let next : PackedReloc = reloc_of reloc.r_offset info.value addend.value
  done (at (header, next) addend.current)

unfoldable pub read_offset : {S : Type 0} → Header → ℕ → Bytes → Outcome S (Cursor ℕ)
read_offset h r_offset current =
    if h.by_delta then done (at (added r_offset h.delta) current) else pop_onto r_offset current

unfoldable pub read_info : {S : Type 0} → Header → ℕ → Bytes → Outcome S (Cursor ℕ)
read_info h r_info current = if h.by_info then done (at r_info current) else pop current

abbrev pub read_addend_in : {S : Type 0} → AddendMode → ℕ → Bytes → Outcome S (Cursor ℕ)
read_addend_in each_addend r_addend current = pop_onto r_addend current
read_addend_in group_addend r_addend current = done (at r_addend current)
read_addend_in no_addend r_addend current = done (at r_addend current)

-- The next relocation of a group.
unfoldable pub read_reloc :
    {S : Type 0} → Header → PackedReloc → Bytes → Outcome S (Cursor PackedReloc)
unfolding read_offset read_info
read_reloc h reloc current = do
  offset ← read_offset h reloc.r_offset current
  info ← read_info h reloc.r_info offset.current
  addend ← read_addend_in h.mode reloc.r_addend info.current
  done (
      at (record { r_offset = offset.value; r_info = info.value; r_addend = addend.value })
        addend.current)

module _ {S : Type 0} (callback : PackedReloc → S → Outcome S S) where
  -- The loop over a group, with the number of relocations left.
  unfoldable pub group_loop :
      Header → ℕ → PackedReloc → Bytes → S → Outcome S (Cursor PackedReloc × S)
  group_loop h zero reloc current s = done (at reloc current, s)
  group_loop h (suc left) reloc current s = do
    next ← read_reloc h reloc current
    s' ← callback next.value s
    group_loop h left next.value next.current s'

  -- The loop over the groups.
  unfoldable pub groups_loop : ℕ → ℕ → ℕ → PackedReloc → Bytes → S → Outcome S S
  groups_loop zero num_relocs idx reloc current s = out_of_fuel
  groups_loop (suc fuel) num_relocs idx reloc current s =
      let round = read_header reloc current >>= λ head.
      group_loop head.value.0 head.value.0.size head.value.1 head.current s >>= λ body.
      groups_loop fuel num_relocs (added idx head.value.0.size) body.0.value body.0.current
        body.1 in
      if ltb idx num_relocs then round else done s

  -- `for_all_packed_relocs`
  unfoldable pub for_all_packed_relocs : ℕ → Bytes → S → Outcome S S
  for_all_packed_relocs fuel bytes s = do
    num_relocs ← pop bytes
    offset ← pop num_relocs.current
    groups_loop fuel num_relocs.value 0 (reloc_of offset.value 0 0) offset.current s
