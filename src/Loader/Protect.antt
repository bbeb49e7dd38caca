-- ===== src/Loader/Protect.antt =====
-- The protection of loaded segments and of GNU_RELRO.
use fake_linker.Prelude.{
  ℕ, ◌+◌, ◌-◌, ◌%◌, bit_and, bit_or, ◌≡◌, refl, sym, ap, ◌∙◌, inl, inr, Bool, true, false, not,
  ◌||◌, List, [], ◌∷◌, ◌++◌, map, arith, ◌==◌, if◌then◌else◌, ==→eq, Bool-cases, if-cases, any,
}
use fake_linker.Bits.Align.{word, align_down, align_up}
use fake_linker.Elf.{Phdr, pt_load}
use fake_linker.Loader.{
  SysCall, map_file, fill_zero, drop_pages, map_zero, read_file, protect, Trace, Reader,
  pflags_to_prot, load_prot, seg_start, extended, head_of, set_load_prot, relro_call, relro_loop,
  pt_gnu_relro, phdr_table_protect_gnu_relro, phdr_table_unprotect_gnu_relro,
}
use fake_linker.Bits.Laws.{bit_and_assoc}

-- The same range, to be read only.
abbrev pub read_only : SysCall → SysCall
read_only (protect start len prot) = protect start len 1
read_only (map_file start len prot offset) = map_file start len prot offset
read_only (read_file start len offset) = read_file start len offset
read_only (fill_zero start len) = fill_zero start len
read_only (drop_pages start len) = drop_pages start len
read_only (map_zero start len prot) = map_zero start len prot

abbrev pub relro_calls : Reader → List Phdr → ℕ → List Phdr → Trace
relro_calls r phdrs prot [] = []
relro_calls r phdrs prot (phdr ∷ left) =
    let rest = relro_calls r phdrs prot left in
    if phdr.p_type == pt_gnu_relro then relro_call r phdrs phdr prot ∷ rest else rest

append-shift : (xs : Trace) (x : SysCall) (ys : Trace) → (xs ++ x ∷ []) ++ ys ≡ xs ++ x ∷ ys
append-shift [] x ys = refl
append-shift (y ∷ xs) x ys = ap (λ (t : Trace). y ∷ t) (append-shift xs x ys)

append-nil : (xs : Trace) → xs ++ [] ≡ xs
append-nil [] = refl
append-nil (x ∷ xs) = ap (λ (t : Trace). x ∷ t) (append-nil xs)

module _ (r : Reader) (phdrs : List Phdr)
    (works : (trace : Trace) (call : SysCall) → r.works trace call ≡ true) where
  relro_loop-calls :
      (prot : ℕ) (left : List Phdr) (trace : Trace)
      → relro_loop r phdrs prot left trace ≡ (true, trace ++ relro_calls r phdrs prot left)
  unfolding relro_loop
  relro_loop-calls prot [] trace = ap (λ (t : Trace). (true, t)) (sym (append-nil trace))
  relro_loop-calls prot (phdr ∷ left) trace = elim (Bool-cases (phdr.p_type == pt_gnu_relro)) [
    | inl relro ↦
        let call = relro_call r phdrs phdr prot in
        ground (
          arith,
          relro,
          works trace call,
          relro_loop-calls prot left (trace ++ call ∷ []),
          append-shift trace call (relro_calls r phdrs prot left),
        )
    | inr other ↦ ground (arith, other, relro_loop-calls prot left trace)
  ]

  relro_calls-read_only :
      (left : List Phdr) → relro_calls r phdrs 1 left ≡ map read_only (relro_calls r phdrs 3 left)
  unfolding relro_call
  relro_calls-read_only [] = refl
  relro_calls-read_only (phdr ∷ left) = ground (arith, relro_calls-read_only left)

  -- Where every call works, protecting GNU_RELRO after it was unprotected answers success, and makes
  -- exactly the ranges read-only that were made writable, in the same order.
  pub protect_gnu_relro-unprotect :
      (phdr_table_unprotect_gnu_relro r phdrs [] ≡ (true, relro_calls r phdrs 3 phdrs))
      × (phdr_table_protect_gnu_relro r phdrs []
          ≡ (true, map read_only (phdr_table_unprotect_gnu_relro r phdrs []).1))
  unfolding phdr_table_unprotect_gnu_relro phdr_table_protect_gnu_relro
  protect_gnu_relro-unprotect =
      let up = relro_loop-calls 3 phdrs [] in
      (
        up,
        relro_loop-calls 1 phdrs []
            ∙ ap (λ (t : Trace). (true, t))
                (relro_calls-read_only phdrs
                  ∙ ap (λ (t : Trace). map read_only t) (sym (ap (λ (t : Bool × Trace). t.1) up))),
      )

abbrev pub is_write_exec : SysCall → Bool
is_write_exec (protect start len prot) = bit_and prot 6 == 6
is_write_exec (map_file start len prot offset) = false
is_write_exec (read_file start len offset) = false
is_write_exec (fill_zero start len) = false
is_write_exec (drop_pages start len) = false
is_write_exec (map_zero start len prot) = false

both_bits : (p : ℕ) → bit_and p 2 ≡ 0 → (bit_and p 6 == 6) ≡ false
both_bits p e = elim (Bool-cases (bit_and p 6 == 6)) [
  | inr clear ↦ clear
  | inl set ↦
      let two : bit_and p 2 ≡ 2 =
        sym (bit_and_assoc p 6 2) ∙ ap (λ (x : ℕ). bit_and x 2) (==→eq (bit_and p 6) 6 set) in
      absurd (omega (arith, two, e))
]

no_exec : (p : ℕ) → (bit_and (bit_and p 3) 6 == 6) ≡ false
no_exec p = elim (Bool-cases (bit_and (bit_and p 3) 6 == 6)) [
  | inr clear ↦ clear
  | inl set ↦
      let six : bit_and p 2 ≡ 6 =
        sym (bit_and_assoc p 3 6) ∙ ==→eq (bit_and (bit_and p 3) 6) 6 set in
      let two : bit_and p 2 ≡ 2 = sym (bit_and_assoc p 2 2) ∙ ap (λ (x : ℕ). bit_and x 2) six in
      absurd (omega (arith, six, two))
]

load_prot-one : (phdr : Phdr) (extra : ℕ) → (bit_and (load_prot phdr extra) 6 == 6) ≡ false
unfolding load_prot
load_prot-one phdr extra =
    let p = bit_or (pflags_to_prot phdr.p_flags) extra in
    if-cases (λ (x : ℕ). (bit_and x 6 == 6) ≡ false) (bit_and p 2 == 0)
      (λ read. both_bits p (==→eq (bit_and p 2) 0 read)) (λ _. no_exec p)

any-append :
    (trace : Trace) (call : SysCall)
    → any is_write_exec (trace ++ call ∷ []) ≡ any is_write_exec trace || is_write_exec call
any-append [] call = ground arith
any-append (c ∷ trace) call = ground (arith, any-append trace call)

-- `_phdr_table_set_load_prot` makes no range both writable and executable, whatever the flags of
-- the segments and the flags that are added, and whether the calls work or not.
pub set_load_prot-one :
    (r : Reader) (extra : ℕ) (phdrs : List Phdr) (trace : Trace)
    → any is_write_exec trace ≡ false
    → any is_write_exec (set_load_prot r extra phdrs trace).1 ≡ false
unfolding set_load_prot
set_load_prot-one r extra [] trace clear = clear
set_load_prot-one r extra (phdr ∷ phdrs) trace clear =
    let memsz = (extended r phdr (head_of phdrs)).0 in
    let start = align_down (seg_start r phdr) r.page in
    let end = align_up (((phdr.p_vaddr + memsz) % word + r.load_bias) % word) r.page in
    let call = protect start ((end + word - start) % word) (load_prot phdr extra) in
    let after : any is_write_exec (trace ++ call ∷ []) ≡ false =
      any-append trace call ∙ ground (arith, clear, load_prot-one phdr extra) in
    let Clear : Bool × Trace → Type 0 = λ t. any is_write_exec t.1 ≡ false in
    let skipped = set_load_prot-one r extra phdrs trace clear in
    let rest = set_load_prot-one r extra phdrs (trace ++ call ∷ []) after in
    if-cases Clear (not (phdr.p_type == pt_load) || not (bit_and phdr.p_flags 2 == 0))
      (λ _. skipped)
      (λ _.
        if-cases Clear (not (r.works trace call)) {x = (false, trace ++ call ∷ [])}
          {y = set_load_prot r extra phdrs (trace ++ call ∷ [])} (λ _. after) (λ _. rest))
