-- ===== src/Notes/Ends.antt =====
-- The loops over notes and properties end.
use fake_linker.Prelude.{
  ℕ, zero, suc, ◌+◌, ◌-◌, ◌*◌, ◌/◌, ◌%◌, ◌^◌, ◌≤◌, ◌<◌, bit_and, ◌≡◌, refl, ◌≢◌, inl, inr, Bool,
  false, not, ◌||◌, none, arith, ltb, leb, ◌==◌, if◌then◌else◌, Bool-cases, Bytes,
}
use native.Mathlib.Nat.{mod-eq_of_lt}
use fake_linker.Bits.Align.{align_up, align_up-floor, le-align_up}
use fake_linker.Elf.{Phdr}
use fake_linker.Notes.{Memory, note_loop, get_elf_note, property_size, parse_loop, parse}

note_loop-ne-none :
    (m : Memory) (note_type : ℕ) (note_name : Bytes) (fuel p note_end : ℕ)
    → note_end < p + 12 * suc fuel
    → note_loop m note_type note_name (suc fuel) p note_end ≢ none
unfolding note_loop
note_loop-ne-none m note_type note_name zero p note_end enough = ground arith
note_loop-ne-none m note_type note_name (suc fuel) p note_end enough =
    let behind = p + 12 + align_up (m.word_at p) 4 + align_up (m.word_at (p + 4)) 4 in
    ground (arith, note_loop-ne-none m note_type note_name fuel behind note_end)

-- The search for a note in a segment ends: as many rounds as the segment has room for headers of
-- notes, and one more, are enough.
pub get_elf_note-ne-none :
    (m : Memory) (note_type : ℕ) (note_name : Bytes) (note_addr : ℕ) (phdr : Phdr) (fuel : ℕ)
    → phdr.p_memsz < 12 * suc fuel
    → get_elf_note m note_type note_name note_addr phdr (suc fuel) ≢ none
unfolding get_elf_note
get_elf_note-ne-none m note_type note_name note_addr phdr fuel enough = ground (
  arith,
  note_loop-ne-none m note_type note_name fuel note_addr (note_addr + phdr.p_memsz)
      (omega (arith, enough)),
)

property_size-bounds :
    (m : Memory) (property : ℕ)
    → m.word_at (property + 4) < 2 ^ 32 - 16
    → 8 ≤ property_size m property
unfolding property_size
property_size-bounds m property small =
    let v = 8 + m.word_at (property + 4) in
    let low : v ≤ align_up v 8 = le-align_up 3 v (omega arith) (omega (arith, small)) in
    let floor : align_up v 8 ≡ (v + 2 ^ 3 - 1) / 2 ^ 3 * 2 ^ 3 =
      align_up-floor 3 v (omega arith) (omega (arith, small)) in
    let same : align_up v 8 % 2 ^ 32 ≡ align_up v 8 = mod-eq_of_lt (omega (arith, floor, small)) in
    omega (arith, same, low)

-- The offsets of the properties that the walk through a description comes to.
pub data Reaches (m : Memory) (desc descsz : ℕ) : ℕ → Type 0 where
  start : Reaches m desc descsz 0
  next :
      (o : ℕ)
      → Reaches m desc descsz o
      → Reaches m desc descsz ((o + property_size m (desc + o)) % 2 ^ 32)

parse_loop-ne-none :
    (m : Memory) (desc descsz fuel offset : ℕ) (bti : Bool)
    → descsz < 2 ^ 32
    → ((o : ℕ) → Reaches m desc descsz o → o + 8 ≤ descsz → m.word_at (desc + o + 4) < 2 ^ 32 - 16)
    → Reaches m desc descsz offset
    → descsz ≤ offset + 8 * fuel
    → parse_loop m desc descsz (suc fuel) offset bti ≢ none
unfolding parse_loop
parse_loop-ne-none m desc descsz zero offset bti low small here enough = ground arith
parse_loop-ne-none m desc descsz (suc fuel) offset bti low small here enough =
    let size = property_size m (desc + offset) in
    elim (Bool-cases (leb descsz offset || ltb (descsz - offset) 8 || ltb (descsz - offset) size)) [
      | inl over ↦ ground (arith, over)
      | inr inside ↦
          let header : offset + 8 ≤ descsz = ground (arith, inside) in
          let grows = property_size-bounds m (desc + offset) (small offset here header) in
          let same : (offset + size) % 2 ^ 32 ≡ offset + size =
            mod-eq_of_lt (ground (arith, inside, low)) in
          let bti' =
            if m.word_at (desc + offset) == 0xc0000000
            then not (bit_and (m.word_at (desc + offset + 8)) 1 == 0)
            else bti in
          let room : descsz ≤ (offset + size) % 2 ^ 32 + 8 * fuel =
            omega (arith, same, grows, enough) in
          let rest =
            parse_loop-ne-none m desc descsz fuel ((offset + size) % 2 ^ 32) bti' low small
              (next offset here) room in
          ground (arith, inside, rest)
    ]

-- `GnuPropertySection::Parse` ends where every property that the walk comes to, and for whose
-- header the description has room, has less than 2^32 - 16 bytes of data: one round for each eight
-- bytes of the description, and one more, are enough. The size of the description is a 32-bit word.
pub parse-ne-none :
    (m : Memory) (note fuel : ℕ)
    → m.word_at (note + 4) < 2 ^ 32
    → ((o : ℕ)
        → Reaches m (note + 16) (m.word_at (note + 4)) o
        → o + 8 ≤ m.word_at (note + 4)
        → m.word_at (note + 16 + o + 4) < 2 ^ 32 - 16)
    → m.word_at (note + 4) ≤ 8 * fuel
    → parse m note (suc fuel) ≢ none
unfolding parse
parse-ne-none m note fuel low small enough =
    parse_loop-ne-none m (note + 16) (m.word_at (note + 4)) fuel 0 false low small start
      (omega (arith, enough))

-- A property of size 0 keeps the loop where it is.
pub parse_loop-none :
    (m : Memory) (desc descsz fuel : ℕ) (bti : Bool)
    → 8 ≤ descsz
    → property_size m desc ≡ 0
    → (m.word_at desc == 0xc0000000) ≡ false
    → parse_loop m desc descsz fuel 0 bti ≡ none
unfolding parse_loop
parse_loop-none m desc descsz zero bti room stuck plain = refl
parse_loop-none m desc descsz (suc fuel) bti room stuck plain =
    let at : desc + 0 ≡ desc = omega arith in
    ground (arith, at, stuck, plain, parse_loop-none m desc descsz fuel bti room stuck plain)
