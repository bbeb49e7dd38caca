-- ===== src/Relocate/Packed.antt =====
-- The relative relocations of a SHT_RELR section: `relocate_relr`, and which words it moves.
use fake_linker.Prelude.{
  ℕ, zero, suc, ◌+◌, ◌*◌, ◌/◌, ◌%◌, ◌^◌, ◌<◌, ◌≡◌, refl, sym, ap, ◌∙◌, inl, inr, Bool, not, Option,
  none, some, List, [], ◌∷◌, ◌++◌, map, arith, ◌==◌, if◌then◌else◌, Bool-cases, All, select,
}
use native.Mathlib.Nat.{pow-suc, div-div-eq-div-mul, mod-add-mod, mod-lt}
use fake_linker.Bits.Align.{word}

abbrev pub Memory : Type 0
Memory = ℕ → ℕ

abbrev pub poke : ℕ → ℕ → Memory → Memory
poke target v memory a = if a == target then v else memory a

module _ (get_tagged_address : ℕ → ℕ) (has_memtag_globals : Bool) (load_bias : ℕ) where
  unfoldable pub apply_relr_reloc : ℕ → Memory → Memory
  apply_relr_reloc offset memory =
      let destination = (offset + load_bias) % word in
      let tagged_destination = get_tagged_address destination in
      if not has_memtag_globals
      then poke destination ((memory destination + load_bias) % word) memory
      else poke tagged_destination
          (get_tagged_address ((memory tagged_destination + load_bias) % word)) memory

  -- The loop over the bits of an odd entry.
  unfoldable pub relr_bits : ℕ → ℕ → ℕ → Memory → Option Memory
  relr_bits zero entry offset memory = none
  relr_bits (suc fuel) entry offset memory =
      let moved = if entry / 2 % 2 == 1 then apply_relr_reloc offset memory else memory in
      let rest = relr_bits fuel (entry / 2) ((offset + 8) % word) moved in
      if entry == 0 then some memory else rest

  -- The loop over the entries; a 64-bit entry takes at most 65 rounds of the loop over its bits.
  unfoldable pub relr_loop : List ℕ → ℕ → Memory → Option Memory
  unfolding relr_bits
  relr_loop [] base memory = some memory
  relr_loop (entry ∷ entries) base memory =
      if entry % 2 == 0
      then relr_loop entries ((entry + 8) % word) (apply_relr_reloc entry memory)
      else elim (relr_bits 65 entry base memory) [
        | none ↦ none
        | some moved ↦ relr_loop entries ((base + 63 * 8) % word) moved
      ]

  unfoldable pub relocate_relr : List ℕ → Memory → Option Memory
  unfolding relr_loop
  relocate_relr entries memory = relr_loop entries 0 memory

  abbrev pub apply_all : List ℕ → Memory → Memory
  apply_all [] memory = memory
  apply_all (offset ∷ offsets) memory = apply_all offsets (apply_relr_reloc offset memory)

-- `k`, `k + 1` and so on, `n` numbers.
abbrev pub count_from : ℕ → ℕ → List ℕ
count_from k zero = []
count_from k (suc n) = k ∷ count_from (suc k) n

-- Bit `i + 1` of a bitmap stands for the word `i` behind the base.
abbrev pub has_bit : ℕ → ℕ → Bool
has_bit entry i = entry / 2 ^ suc i % 2 == 1

abbrev pub offsets_of : ℕ → ℕ → List ℕ → List ℕ
offsets_of entry base is = map (λ i. (base + 8 * i) % word) (select (has_bit entry) is)

-- The words that the entries name, in order: an even entry one word, and an odd entry those of its
-- bitmap behind the last base.
abbrev pub relr_offsets : List ℕ → ℕ → List ℕ
relr_offsets [] base = []
relr_offsets (entry ∷ entries) base =
    if entry % 2 == 0
    then entry ∷ relr_offsets entries ((entry + 8) % word)
    else offsets_of entry base (count_from 0 63) ++ relr_offsets entries ((base + 63 * 8) % word)

half : (entry k : ℕ) → entry / 2 ^ k / 2 ≡ entry / 2 ^ suc k
half entry k = div-div-eq-div-mul entry (2 ^ k) 2 ∙ ap (λ d. entry / d) (omega (arith, pow-suc 2 k))

no_bits : (entry base n k : ℕ) → entry / 2 ^ k ≡ 0 → offsets_of entry base (count_from k n) ≡ []
no_bits entry base zero k e = refl
no_bits entry base (suc n) k e =
    let e' : entry / 2 ^ suc k ≡ 0 = sym (half entry k) ∙ omega (arith, e) in
    ground (arith, e', no_bits entry base n (suc k) e')

step_offset : (base k : ℕ) → ((base + 8 * k) % word + 8) % word ≡ (base + 8 * suc k) % word
step_offset base k = mod-add-mod (base + 8 * k) word 8 ∙ ap (λ (t : ℕ). t % word) (omega arith)

module _ (get_tagged_address : ℕ → ℕ) (has_memtag_globals : Bool) (load_bias : ℕ) where
  apply_all-append :
      (xs ys : List ℕ) (memory : Memory)
      → apply_all get_tagged_address has_memtag_globals load_bias (xs ++ ys) memory
        ≡ apply_all get_tagged_address has_memtag_globals load_bias ys
            (apply_all get_tagged_address has_memtag_globals load_bias xs memory)
  apply_all-append [] ys memory = refl
  apply_all-append (x ∷ xs) ys memory = apply_all-append xs ys _

  relr_bits-offsets :
      (entry base n k : ℕ) (memory : Memory)
      → entry / 2 ^ k < 2 ^ suc n
      → relr_bits get_tagged_address has_memtag_globals load_bias
          (suc (suc n))
          (entry / 2 ^ k)
          ((base + 8 * k) % word)
          memory
        ≡ some (
            apply_all get_tagged_address has_memtag_globals load_bias
              (offsets_of entry base (count_from k n))
              memory)
  unfolding relr_bits
  relr_bits-offsets entry base zero k memory few = ground (arith, few)
  relr_bits-offsets entry base (suc n) k memory few = elim (Bool-cases (entry / 2 ^ k == 0)) [
    | inl over ↦ ground (arith, over, no_bits entry base (suc n) k)
    | inr more ↦
        let few' : entry / 2 ^ suc k < 2 ^ suc n =
          ground (arith, half entry k, few, pow-suc 2 (suc n)) in
        let again = relr_bits-offsets entry base n (suc k) in
        let here = (base + 8 * k) % word in
        elim (Bool-cases (has_bit entry k)) [
          | inl set ↦
              let moved =
                apply_relr_reloc get_tagged_address has_memtag_globals load_bias here memory in
              ground (arith, more, half entry k, step_offset base k, set, again moved few')
          | inr clear ↦
              ground (arith, more, half entry k, step_offset base k, clear, again memory few')
        ]
  ]

  relr_loop-offsets :
      (entries : List ℕ) (base : ℕ) (memory : Memory)
      → base < word
      → All (λ (entry : ℕ). entry < word) entries
      → relr_loop get_tagged_address has_memtag_globals load_bias entries base memory
        ≡ some (
            apply_all get_tagged_address has_memtag_globals load_bias
              (relr_offsets entries base)
              memory)
  unfolding relr_loop
  relr_loop-offsets [] base memory low few = refl
  relr_loop-offsets (entry ∷ entries) base memory low few =
      let moved =
        apply_all get_tagged_address has_memtag_globals load_bias
          (offsets_of entry base (count_from 0 63)) memory in
      let one : entry / 2 ^ 0 ≡ entry = omega arith in
      let at : (base + 8 * 0) % word ≡ base = omega (arith, low) in
      let bits : relr_bits get_tagged_address has_memtag_globals load_bias 65 entry base memory
          ≡ some moved =
        rw (one, at) at (relr_bits-offsets entry base 63 0 memory (omega (arith, few.0))) in
      let joined =
        apply_all-append (offsets_of entry base (count_from 0 63))
          (relr_offsets entries ((base + 63 * 8) % word)) memory in
      elim (Bool-cases (entry % 2 == 0)) [
        | inl even ↦
            let rest =
              relr_loop-offsets entries ((entry + 8) % word)
                (apply_relr_reloc get_tagged_address has_memtag_globals load_bias entry memory)
                (mod-lt (entry + 8) (omega arith)) few.1 in
            rw (even, rest)
        | inr odd ↦
            let rest =
              relr_loop-offsets entries ((base + 63 * 8) % word) moved
                (mod-lt (base + 63 * 8) (omega arith)) few.1 in
            rw (odd, bits, rest, joined)
      ]

  -- `relocate_relr` ends, and has moved exactly the words that the entries name, each once for
  -- every time it is named and in that order: a word is named by an even entry, which is its
  -- offset, or by a bit of an odd entry, where bit `i + 1` stands for the word `i` behind the last
  -- even entry's, and 63 words further for every odd entry in between. The entries are 64-bit
  -- words.
  pub relocate_relr-offsets :
      (entries : List ℕ) (memory : Memory)
      → All (λ (entry : ℕ). entry < word) entries
      → relocate_relr get_tagged_address has_memtag_globals load_bias entries memory
        ≡ some (
            apply_all get_tagged_address has_memtag_globals load_bias
              (relr_offsets entries 0)
              memory)
  unfolding relocate_relr
  relocate_relr-offsets entries memory few = relr_loop-offsets entries 0 memory (omega arith) few
