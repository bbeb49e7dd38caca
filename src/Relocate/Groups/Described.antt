-- ===== src/Relocate/Groups/Described.antt =====
-- The numbers that stand for a packed table of relocations, in groups.
use fake_linker.Prelude.{
  ℕ, ◌+◌, ◌-◌, ◌%◌, ◌<◌, bit_and, ◌≡◌, Bool, true, false, not, List, [], ◌∷◌, ◌++◌, ◌==◌,
  if◌then◌else◌, length, Bytes,
}
use fake_linker.Bits.Align.{word}
use fake_linker.Relocate.Leb.{popped, sleb128_pop_front}
use fake_linker.Relocate.Groups.{
  PackedReloc, Outcome, done, ◌>>=◌, added, AddendMode, no_addend, each_addend, group_addend,
  addend_mode, Header, header_of, reloc_of,
}

-- The decoder reads these numbers from the bytes, and then has the rest before it.
abbrev pub Reads : Bytes → List ℕ → Bytes → Type 0
Reads current [] rest = current ≡ rest
Reads current (v ∷ vs) rest =
    (next : Bytes) × (sleb128_pop_front current ≡ popped v next) × Reads next vs rest

-- A number that is there or not.
abbrev pub given : Bool → ℕ → List ℕ → List ℕ
given true v vs = v ∷ vs
given false v vs = vs

abbrev pub minus_word : ℕ → ℕ → ℕ
minus_word a b = (a + word - b) % word

abbrev pub is_each : AddendMode → Bool
is_each each_addend = true
is_each no_addend = false
is_each group_addend = false

abbrev pub is_group : AddendMode → Bool
is_group group_addend = true
is_group no_addend = false
is_group each_addend = false

-- A group of relocations, with its flags, and the numbers of its head that the flags ask for.
pub record Group : Type 0 where
  pub flags : ℕ
  pub delta : ℕ
  pub info : ℕ
  pub addend_change : ℕ
  pub relocs : List PackedReloc

abbrev pub has_delta : Group → Bool
has_delta g = not (bit_and g.flags 2 == 0)

abbrev pub has_info : Group → Bool
has_info g = not (bit_and g.flags 1 == 0)

abbrev pub head_addend : AddendMode → ℕ → ℕ → ℕ
head_addend no_addend addend change = 0
head_addend each_addend addend change = addend
head_addend group_addend addend change = added addend change

abbrev pub header : Group → Header
header g =
    header_of (has_delta g) (has_info g) (addend_mode g.flags) (if has_delta g then g.delta else 0)
      (length g.relocs)

-- The relocation before the first of the group, as the head of the group changes it.
abbrev pub prepared : Group → PackedReloc → PackedReloc
prepared g before =
    reloc_of before.r_offset (if has_info g then g.info else before.r_info)
      (head_addend (addend_mode g.flags) before.r_addend g.addend_change)

-- A relocation can follow another in a group, where it is a word apart as the head says.
abbrev pub Follows : Header → PackedReloc → PackedReloc → Type 0
Follows h before r =
    (h.by_delta ≡ true → added before.r_offset h.delta ≡ r.r_offset)
    × (h.by_info ≡ true → before.r_info ≡ r.r_info)
    × (is_each h.mode ≡ false → before.r_addend ≡ r.r_addend)
    × (before.r_offset < word)
    × (r.r_offset < word)
    × (before.r_addend < word)
    × (r.r_addend < word)

abbrev pub Chain : Header → PackedReloc → List PackedReloc → Type 0
Chain h before [] = Unit
Chain h before (r ∷ rs) = Follows h before r × Chain h r rs

abbrev pub last_of : PackedReloc → List PackedReloc → PackedReloc
last_of before [] = before
last_of before (r ∷ rs) = last_of r rs

-- The numbers that stand for the relocations of a group, and for its head.
abbrev pub reloc_numbers : Header → PackedReloc → PackedReloc → List ℕ → List ℕ
reloc_numbers h before r rest = given (not h.by_delta) (minus_word r.r_offset before.r_offset) (
    given (not h.by_info) r.r_info
      (given (is_each h.mode) (minus_word r.r_addend before.r_addend) rest))

abbrev pub body_numbers : Header → PackedReloc → List PackedReloc → List ℕ → List ℕ
body_numbers h before [] rest = rest
body_numbers h before (r ∷ rs) rest = reloc_numbers h before r (body_numbers h r rs rest)

abbrev pub head_numbers : Group → List ℕ → List ℕ
head_numbers g rest =
    length g.relocs
    ∷ g.flags
    ∷ given (has_delta g) g.delta
        (given (has_info g) g.info (given (is_group (addend_mode g.flags)) g.addend_change rest))

abbrev pub numbers : PackedReloc → List Group → List ℕ
numbers before [] = []
numbers before (g ∷ gs) = head_numbers g (
    body_numbers (header g) (prepared g before) g.relocs
      (numbers (last_of (prepared g before) g.relocs) gs))

-- No group is empty, and its relocations follow one another.
abbrev pub AreGroups : PackedReloc → List Group → Type 0
AreGroups before [] = Unit
AreGroups before (g ∷ gs) =
    (0 < length g.relocs)
    × Chain (header g) (prepared g before) g.relocs
    × AreGroups (last_of (prepared g before) g.relocs) gs

abbrev pub all_relocs : List Group → List PackedReloc
all_relocs [] = []
all_relocs (g ∷ gs) = g.relocs ++ all_relocs gs

-- The callback on each relocation of a list.
abbrev pub visit :
    {S : Type 0} → (PackedReloc → S → Outcome S S) → List PackedReloc → S → Outcome S S
visit callback [] s = done s
visit callback (r ∷ rs) s = callback r s >>= visit callback rs
