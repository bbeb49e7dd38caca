-- ===== src/Elf/Extent.antt =====
-- The extent of the loadable segments.
use fake_linker.Prelude.{
  ℕ, ◌+◌, ◌-◌, ◌%◌, ◌^◌, ◌≤◌, ◌≡◌, ◌∙◌, ◌⊎◌, inl, inr, Bool, true, false, ◌||◌, List, [], ◌∷◌,
  arith, ltb, ◌==◌, if◌then◌else◌, if-cases, All, any,
}
use native.Mathlib.Nat.{mod-eq_of_lt, one-le-pow, pow-le-pow_right}
use fake_linker.Bits.Align.{word, align_down, align_up, align_down-le, le-align_up}
use fake_linker.Elf.{Phdr, pt_load, extent_loop, phdr_table_get_load_size}

-- The segment ends at least a page below 2^64, so that its end does not wrap when rounded up.
abbrev pub Fits : ℕ → Phdr → Type 0
Fits page p = p.p_vaddr + p.p_memsz + page ≤ word

-- A segment lies between two addresses, if it is loadable.
abbrev pub LiesIn : ℕ → ℕ → Phdr → Type 0
LiesIn low high p =
    ((p.p_type == pt_load) ≡ false) ⊎ (low ≤ p.p_vaddr) × (p.p_vaddr + p.p_memsz ≤ high)

extent_loop-outside :
    (page : ℕ) (phdrs : List Phdr) (found : Bool) (low high : ℕ)
    → 1 ≤ page
    → All (Fits page) phdrs
    → high + page ≤ word
    → ((extent_loop phdrs found low high).1 ≤ low)
      × (high ≤ (extent_loop phdrs found low high).2)
      × ((extent_loop phdrs found low high).2 + page ≤ word)
unfolding extent_loop
extent_loop-outside page [] found low high one fits h = (omega arith, omega arith, h)
extent_loop-outside page (p ∷ ps) found low high one fits h =
    let end = (p.p_vaddr + p.p_memsz) % word in
    let exact : end ≡ p.p_vaddr + p.p_memsz = mod-eq_of_lt (omega (arith, fits.0)) in
    ground (
      arith,
      fits.0,
      exact,
      extent_loop-outside page ps found low high one fits.1 h,
      extent_loop-outside page ps true (if ltb p.p_vaddr low then p.p_vaddr else low)
          (if ltb high end then end else high) one fits.1,
    )

extent_loop-LiesIn :
    (page : ℕ) (phdrs : List Phdr) (found : Bool) (low high : ℕ)
    → 1 ≤ page
    → All (Fits page) phdrs
    → high + page ≤ word
    → All (LiesIn (extent_loop phdrs found low high).1 (extent_loop phdrs found low high).2) phdrs
unfolding extent_loop
extent_loop-LiesIn page [] found low high one fits h = tt
extent_loop-LiesIn page (p ∷ ps) found low high one fits h =
    let end = (p.p_vaddr + p.p_memsz) % word in
    let exact : end ≡ p.p_vaddr + p.p_memsz = mod-eq_of_lt (omega (arith, fits.0)) in
    let low' = if ltb p.p_vaddr low then p.p_vaddr else low in
    let high' = if ltb high end then end else high in
    let h' : high' + page ≤ word = ground (arith, fits.0, exact, h) in
    let bounds = extent_loop-outside page ps true low' high' one fits.1 h' in
    let lower : low' ≤ p.p_vaddr = ground arith in
    let upper : end ≤ high' = ground arith in
    if-cases (λ (r : Bool × ℕ × ℕ). All (LiesIn r.1 r.2) (p ∷ ps)) (p.p_type == pt_load)
      (λ load. (
        inr (omega (arith, bounds.0, lower), omega (arith, bounds.1, upper, exact)),
        extent_loop-LiesIn page ps true low' high' one fits.1 h',
      ))
      (λ other. (inl other, extent_loop-LiesIn page ps found low high one fits.1 h))

extent_loop-found :
    (phdrs : List Phdr) (found : Bool) (low high : ℕ)
    → (extent_loop phdrs found low high).0 ≡ found || any (λ (p : Phdr). p.p_type == pt_load) phdrs
unfolding extent_loop
extent_loop-found [] found low high = ground arith
extent_loop-found (p ∷ ps) found low high = ground (
  arith,
  extent_loop-found ps found low high,
  extent_loop-found ps true (if ltb p.p_vaddr low then p.p_vaddr else low)
      (if ltb high ((p.p_vaddr + p.p_memsz) % word) then (p.p_vaddr + p.p_memsz) % word else high),
)

widened :
    (low high low' high' : ℕ) (ps : List Phdr)
    → low' ≤ low
    → high ≤ high'
    → All (LiesIn low high) ps
    → All (LiesIn low' high') ps
widened low high low' high' [] l h all = tt
widened low high low' high' (p ∷ ps) l h all = (
  elim all.0 [
    | inl other ↦ inl other
    | inr inside ↦ inr (omega (arith, inside.0), omega (arith, inside.1))
  ],
  widened low high low' high' ps l h all.1,
)

-- With pages of a power of two, program headers that all end at least a page below 2^64, and a
-- loadable segment among them, every loadable segment lies between the addresses that
-- `phdr_table_get_load_size` gives.
pub phdr_table_get_load_size-LiesIn :
    (k : ℕ) (phdrs : List Phdr)
    → k ≤ 63
    → All (Fits (2 ^ k)) phdrs
    → any (λ (p : Phdr). p.p_type == pt_load) phdrs ≡ true
    → All
        (LiesIn
          (phdr_table_get_load_size (2 ^ k) phdrs).1
          (phdr_table_get_load_size (2 ^ k) phdrs).2)
        phdrs
unfolding phdr_table_get_load_size
phdr_table_get_load_size-LiesIn k phdrs hk fits some_load =
    let one : 1 ≤ 2 ^ k = one-le-pow k 2 (omega arith) in
    let small : 2 ^ k ≤ word = pow-le-pow_right (omega arith) {j = 64} (omega arith) in
    let r = extent_loop phdrs false (word - 1) 0 in
    let bounds = extent_loop-outside (2 ^ k) phdrs false (word - 1) 0 one fits (omega arith) in
    let found : r.0 ≡ true = extent_loop-found phdrs false (word - 1) 0 ∙ some_load in
    let down : align_down r.1 (2 ^ k) ≤ r.1 = align_down-le k r.1 (omega arith) (omega arith) in
    let up : r.2 ≤ align_up r.2 (2 ^ k) =
      le-align_up k r.2 (omega arith) (omega (arith, bounds.2)) in
    let low : align_down (if r.0 then r.1 else 0) (2 ^ k) ≤ r.1 = rw found down in
    widened r.1 r.2 _ _ phdrs low up
      (extent_loop-LiesIn (2 ^ k) phdrs false (word - 1) 0 one fits (omega arith))
