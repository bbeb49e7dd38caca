-- ===== src/Relocate/Groups/Read.antt =====
-- The parts of a packed table are read back one by one.
use fake_linker.Prelude.{
  ℕ, ◌<◌, ◌≡◌, refl, ap, inl, inr, Bool, true, false, not, List, arith, if◌then◌else◌, Bool-cases,
  Bytes,
}
use fake_linker.Bits.Align.{word}
use fake_linker.Relocate.Groups.{
  PackedReloc, done, at, from_popped, added, AddendMode, no_addend, each_addend, group_addend,
  addend_mode, Header, pop_if, read_group_addend, read_header, read_offset, read_info,
  read_addend_in, read_reloc,
}
use fake_linker.Relocate.Groups.Described.{
  Reads, given, minus_word, is_each, is_group, Group, has_delta, has_info, head_addend, header,
  prepared, Follows, reloc_numbers, head_numbers,
}

pop_given :
    (S : Type 0) (b : Bool) (v default : ℕ) (current : Bytes) (vs : List ℕ) (rest : Bytes)
    → Reads current (given b v vs) rest
    → (next : Bytes) × (pop_if {S = S} b default current
        ≡ done (at (if b then v else default) next))
      × Reads next vs rest
pop_given S true v default current vs rest (next, e, r) = (next, ap (from_popped (λ x. x)) e, r)
pop_given S false v default current vs rest r = (current, refl, r)

group_addend_given :
    (S : Type 0) (mode : AddendMode) (addend change : ℕ) (current : Bytes) (vs : List ℕ)
    (rest : Bytes)
    → Reads current (given (is_group mode) change vs) rest
    → (next : Bytes) × (read_group_addend {S = S} mode addend current
        ≡ done (at (head_addend mode addend change) next))
      × Reads next vs rest
unfolding read_group_addend
group_addend_given S no_addend addend change current vs rest r = (current, refl, r)
group_addend_given S each_addend addend change current vs rest r = (current, refl, r)
group_addend_given S group_addend addend change current vs rest (next, e, r) =
    (next, ap (from_popped (added addend)) e, r)

-- The head of a group is read back.
pub read_header-head_numbers :
    (S : Type 0) (g : Group) (before : PackedReloc) (current : Bytes) (vs : List ℕ) (rest : Bytes)
    → Reads current (head_numbers g vs) rest
    → (next : Bytes) × (read_header {S = S} before current
        ≡ done (at (header g, prepared g before) next))
      × Reads next vs rest
unfolding read_header
read_header-head_numbers S g before current vs rest (c1, e1, (c2, e2, r)) =
    let (c3, e3, r3) = pop_given S (has_delta g) g.delta 0 c2 _ rest r in
    let (c4, e4, r4) = pop_given S (has_info g) g.info before.r_info c3 _ rest r3 in
    let (c5, e5, r5) =
      group_addend_given S (addend_mode g.flags) before.r_addend g.addend_change c4 vs rest r4 in
    (c5, rw (e1, e2, e3, e4, e5), r5)

added-minus_word : (a b : ℕ) → a < word → b < word → added b (minus_word a b) ≡ a
added-minus_word a b ha hb = omega arith

read_offset-given :
    (S : Type 0) (h : Header) (before r : PackedReloc) (current : Bytes) (vs : List ℕ)
    (rest : Bytes)
    → Follows h before r
    → Reads current (given (not h.by_delta) (minus_word r.r_offset before.r_offset) vs) rest
    → (next : Bytes) × (read_offset {S = S} h before.r_offset current ≡ done (at r.r_offset next))
      × Reads next vs rest
unfolding read_offset
read_offset-given S h before r current vs rest f reads = elim (Bool-cases h.by_delta) [
  | inl e ↦ (current, rw (e, f.0 e), rw e at reads)
  | inr e ↦
      let (next, e', r') = rw e at reads in
      let value = added-minus_word r.r_offset before.r_offset f.4 f.3 in
      (next, rw (e, e', value), r')
]

read_info-given :
    (S : Type 0) (h : Header) (before r : PackedReloc) (current : Bytes) (vs : List ℕ)
    (rest : Bytes)
    → Follows h before r
    → Reads current (given (not h.by_info) r.r_info vs) rest
    → (next : Bytes) × (read_info {S = S} h before.r_info current ≡ done (at r.r_info next))
      × Reads next vs rest
unfolding read_info
read_info-given S h before r current vs rest f reads = elim (Bool-cases h.by_info) [
  | inl e ↦ (current, rw (e, f.1 e), rw e at reads)
  | inr e ↦ let (next, e', r') = rw e at reads in (next, rw (e, e'), r')
]

read_addend_in-given :
    (S : Type 0) (mode : AddendMode) (old new : ℕ) (current : Bytes) (vs : List ℕ) (rest : Bytes)
    → (is_each mode ≡ false → old ≡ new)
    → old < word
    → new < word
    → Reads current (given (is_each mode) (minus_word new old) vs) rest
    → (next : Bytes) × (read_addend_in {S = S} mode old current ≡ done (at new next))
      × Reads next vs rest
read_addend_in-given S no_addend old new current vs rest same ho hn reads =
    (current, ap (λ (a : ℕ). done (at a current)) (same refl), reads)
read_addend_in-given S group_addend old new current vs rest same ho hn reads =
    (current, ap (λ (a : ℕ). done (at a current)) (same refl), reads)
read_addend_in-given S each_addend old new current vs rest same ho hn (next, e, r) =
    (next, rw (e, added-minus_word new old hn ho), r)

pub read_reloc-reloc_numbers :
    (S : Type 0) (h : Header) (before r : PackedReloc) (current : Bytes) (vs : List ℕ)
    (rest : Bytes)
    → Follows h before r
    → Reads current (reloc_numbers h before r vs) rest
    → (next : Bytes) × (read_reloc {S = S} h before current ≡ done (at r next)) × Reads next vs rest
unfolding read_reloc
read_reloc-reloc_numbers S h before r current vs rest f reads =
    let (c1, e1, r1) = read_offset-given S h before r current _ rest f reads in
    let (c2, e2, r2) = read_info-given S h before r c1 _ rest f r1 in
    let (c3, e3, r3) =
      read_addend_in-given S h.mode before.r_addend r.r_addend c2 vs rest f.2 f.5 f.6 r2 in
    (c3, rw (e1, e2, e3), r3)
