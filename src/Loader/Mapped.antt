-- ===== src/Loader/Mapped.antt =====
-- Which parts of the file `LoadSegments` maps.
use fake_linker.Prelude.{
  ℕ, ◌+◌, ◌-◌, ◌%◌, bit_and, ◌≡◌, refl, sym, ap, ◌∙◌, inl, inr, Bool, true, false, not, ◌&&◌, ◌||◌,
  Option, some, List, [], ◌∷◌, ◌++◌, arith, leb, ◌==◌, if◌then◌else◌, Bool-cases, Option-cases,
  select, any,
}
use fake_linker.Bits.Align.{word, align_up, align_down}
use fake_linker.Elf.{Phdr, pt_load}
use fake_linker.Loader.{
  SysCall, map_file, fill_zero, drop_pages, map_zero, read_file, protect, Trace, Reader,
  pflags_to_prot, file_call, map_segment, zero_fill_segment, drop_padding_pages, map_bss_section,
  is_refused, file_length, page_offset, seg_start, seg_align, extended, load_file, load_rest,
  load_segment, head_of, load_loop, load_segments, compat_page,
}

abbrev pub is_file_map : SysCall → Bool
is_file_map (map_file start len prot offset) = true
is_file_map (read_file start len offset) = false
is_file_map (fill_zero start len) = false
is_file_map (drop_pages start len) = false
is_file_map (map_zero start len prot) = false
is_file_map (protect start len prot) = false

-- The calls that map the file.
abbrev pub file_maps : Trace → Trace
file_maps trace = select is_file_map trace

-- PROT_WRITE and PROT_EXEC in one call that maps the file.
abbrev pub is_write_exec : SysCall → Bool
is_write_exec (map_file start len prot offset) = bit_and prot 6 == 6
is_write_exec (read_file start len offset) = false
is_write_exec (fill_zero start len) = false
is_write_exec (drop_pages start len) = false
is_write_exec (map_zero start len prot) = false
is_write_exec (protect start len prot) = false

-- What a segment's part of the file takes: from the page of the segment's first address on, up to
-- the end of the extended part, from the page of its offset in the file, with its protection.
abbrev pub part_length : Reader → Phdr → Option Phdr → ℕ
part_length r phdr next_phdr =
    ((phdr.p_offset + (extended r phdr next_phdr).1) % word
      + word
      - align_down phdr.p_offset r.page)
    % word

abbrev pub part_map : Reader → Phdr → ℕ → SysCall
part_map r phdr len =
    map_file (align_down ((phdr.p_vaddr + r.load_bias) % word) r.page) len
      (pflags_to_prot phdr.p_flags) ((r.file_offset + align_down phdr.p_offset r.page) % word)

-- One call for each loadable segment that has a part of the file, in the order of the headers.
abbrev pub segment_maps : Reader → List Phdr → Trace
segment_maps r [] = []
segment_maps r (phdr ∷ phdrs) =
    let rest = segment_maps r phdrs in
    let len = part_length r phdr (head_of phdrs) in
    if (phdr.p_type == pt_load) && not (len == 0) then part_map r phdr len ∷ rest else rest

file_length-part_length :
    (r : Reader) (phdr : Phdr) (next_phdr : Option Phdr)
    → r.should_use_16kib_app_compat ≡ false
    → file_length r phdr next_phdr ≡ part_length r phdr next_phdr
unfolding file_length
file_length-part_length r phdr next_phdr plain =
    ap
      (λ b.
        ((phdr.p_offset + (extended r phdr next_phdr).1) % word
          + word
          - align_down phdr.p_offset (if b then compat_page else r.page))
        % word)
      plain

-- The same calls by the code's own words.
abbrev code_maps : Reader → List Phdr → Trace
code_maps r [] = []
code_maps r (phdr ∷ phdrs) =
    let rest = code_maps r phdrs in
    let len = file_length r phdr (head_of phdrs) in
    if (phdr.p_type == pt_load) && not (len == 0) then file_call r phdr len ∷ rest else rest

code_maps-segment_maps :
    (r : Reader) (phdrs : List Phdr)
    → r.should_use_16kib_app_compat ≡ false
    → code_maps r phdrs ≡ segment_maps r phdrs
unfolding file_call
code_maps-segment_maps r [] plain = refl
code_maps-segment_maps r (phdr ∷ phdrs) plain =
    let chosen = λ (len : ℕ) (rest : Trace).
      if (phdr.p_type == pt_load) && not (len == 0) then part_map r phdr len ∷ rest else rest in
    ap (λ len. chosen len (code_maps r phdrs))
      (file_length-part_length r phdr (head_of phdrs) plain)
    ∙ ap (chosen (part_length r phdr (head_of phdrs))) (code_maps-segment_maps r phdrs plain)

select-append :
    (p : SysCall → Bool) (xs ys : Trace) → select p (xs ++ ys) ≡ select p xs ++ select p ys
select-append p [] ys = refl
select-append p (x ∷ xs) ys = ground (arith, select-append p xs ys)

append-nil : (xs : Trace) → xs ++ [] ≡ xs
append-nil [] = refl
append-nil (x ∷ xs) = ap (λ (t : Trace). x ∷ t) (append-nil xs)

-- A call of another kind.
other_call :
    (trace : Trace) (call : SysCall)
    → is_file_map call ≡ false
    → file_maps (trace ++ call ∷ []) ≡ file_maps trace
other_call trace call e =
    let alone : file_maps (call ∷ []) ≡ [] = ground (arith, e) in
    select-append is_file_map trace (call ∷ [])
    ∙ ap (λ (t : Trace). file_maps trace ++ t) alone
    ∙ append-nil (file_maps trace)

file_maps-zero_fill :
    (r : Reader) (phdr : Phdr) (trace : Trace)
    → file_maps (zero_fill_segment r phdr trace) ≡ file_maps trace
unfolding zero_fill_segment
file_maps-zero_fill r phdr trace =
    let end = (seg_start r phdr + phdr.p_filesz) % word in
    ground (arith, other_call trace (fill_zero end (r.page - page_offset r end)) refl)

file_maps-drop_padding :
    (r : Reader) (phdr : Phdr) (end : ℕ) (trace t : Trace)
    → drop_padding_pages r phdr end trace ≡ some t
    → file_maps t ≡ file_maps trace
unfolding drop_padding_pages
file_maps-drop_padding r phdr end trace t e =
    let pad_start = align_up ((seg_start r phdr + phdr.p_filesz) % word) r.page in
    let pad_end = align_up end r.page in
    ground (arith, e, other_call trace (drop_pages pad_start (pad_end - pad_start)) refl)

file_maps-bss :
    (r : Reader) (phdr : Phdr) (page_end file_end : ℕ) (trace : Trace)
    → file_maps (map_bss_section r phdr page_end file_end trace).1 ≡ file_maps trace
unfolding map_bss_section
file_maps-bss r phdr page_end file_end trace =
    let start = align_up file_end r.page in
    ground (
      arith,
      other_call trace (map_zero start (page_end - start) (pflags_to_prot phdr.p_flags)) refl,
    )

load_rest-same :
    (r : Reader) (phdr : Phdr) (next_phdr : Option Phdr) (trace : Trace) (ok : Bool) (t : Trace)
    → load_rest r phdr next_phdr trace ≡ some (ok, t)
    → file_maps t ≡ file_maps trace
unfolding load_rest
load_rest-same r phdr next_phdr trace ok t e =
    let (memsz, filesz) = extended r phdr next_phdr in
    let page_end = align_up ((seg_start r phdr + memsz) % word) (seg_align r) in
    let file_end = (seg_start r phdr + filesz) % word in
    let filled = zero_fill_segment r phdr trace in
    elim (Option-cases (drop_padding_pages r phdr file_end filled)) [
      | inl stopped ↦ absurd (ground (arith, e, stopped))
      | inr (dropped, done) ↦
          let last : t ≡ (map_bss_section r phdr page_end file_end dropped).1 =
            ground (arith, e, done) in
          ap file_maps last
          ∙ file_maps-bss r phdr page_end file_end dropped
          ∙ file_maps-drop_padding r phdr file_end filled dropped done
          ∙ file_maps-zero_fill r phdr trace
    ]

-- The calls that a segment's part of the file takes.
abbrev own_maps : Reader → Phdr → ℕ → Trace
own_maps r phdr len = if len == 0 then [] else file_call r phdr len ∷ []

load_file-own :
    (r : Reader) (phdr : Phdr) (len : ℕ) (trace t : Trace)
    → r.should_use_16kib_app_compat ≡ false
    → load_file r phdr len trace ≡ (true, t)
    → (file_maps t ≡ file_maps trace ++ own_maps r phdr len)
      × (((len == 0) || not (is_refused r phdr)) ≡ true)
unfolding load_file map_segment file_call
load_file-own r phdr len trace t plain e = (
  ground (
    arith,
    e,
    plain,
    append-nil (file_maps trace),
    select-append is_file_map trace (file_call r phdr len ∷ []),
  ),
  ground (arith, e),
)

abbrev one_segment : Reader → Phdr → Option Phdr → Trace
one_segment r phdr next_phdr =
    if phdr.p_type == pt_load then own_maps r phdr (file_length r phdr next_phdr) else []

abbrev is_allowed : Reader → Phdr → Option Phdr → Bool
is_allowed r phdr next_phdr =
    not (phdr.p_type == pt_load) || (file_length r phdr next_phdr == 0) || not (is_refused r phdr)

load_segment-one :
    (r : Reader) (phdr : Phdr) (next_phdr : Option Phdr) (trace t : Trace)
    → r.should_use_16kib_app_compat ≡ false
    → load_segment r phdr next_phdr trace ≡ some (true, t)
    → (file_maps t ≡ file_maps trace ++ one_segment r phdr next_phdr)
      × (is_allowed r phdr next_phdr ≡ true)
unfolding load_segment
load_segment-one r phdr next_phdr trace t plain e = elim (Bool-cases (phdr.p_type == pt_load)) [
  | inr other ↦
      let same : t ≡ trace = ground (arith, e, other) in
      let none_own : one_segment r phdr next_phdr ≡ [] = ground (arith, other) in
      (
        ap file_maps same
            ∙ sym (append-nil (file_maps trace))
            ∙ ap (λ (x : Trace). file_maps trace ++ x) (sym none_own),
        ground (arith, other),
      )
  | inl load ↦
      let len = file_length r phdr next_phdr in
      let loaded = load_file r phdr len trace in
      let ok : loaded.0 ≡ true = ground (arith, e, load) in
      let rest : load_rest r phdr next_phdr loaded.1 ≡ some (true, t) = ground (arith, e, load) in
      let own : one_segment r phdr next_phdr ≡ own_maps r phdr len = ground (arith, load) in
      let (maps, allowed) =
        load_file-own r phdr len trace loaded.1 plain (ap (λ b. (b, loaded.1)) ok) in
      (
        load_rest-same r phdr next_phdr loaded.1 true t rest
            ∙ maps
            ∙ ap (λ (x : Trace). file_maps trace ++ x) (sym own),
        ground (arith, allowed),
      )
]

abbrev all_allowed : Reader → List Phdr → Bool
all_allowed r [] = true
all_allowed r (phdr ∷ phdrs) = is_allowed r phdr (head_of phdrs) && all_allowed r phdrs

append-one :
    (r : Reader) (phdr : Phdr) (phdrs : List Phdr) (xs : Trace)
    → (xs ++ one_segment r phdr (head_of phdrs)) ++ code_maps r phdrs
      ≡ xs ++ code_maps r (phdr ∷ phdrs)
append-one r phdr phdrs [] = ground arith
append-one r phdr phdrs (x ∷ xs) = ap (λ (t : Trace). x ∷ t) (append-one r phdr phdrs xs)

load_loop-maps :
    (r : Reader) (phdrs : List Phdr) (trace t : Trace)
    → r.should_use_16kib_app_compat ≡ false
    → load_loop r phdrs trace ≡ some (true, t)
    → (file_maps t ≡ file_maps trace ++ code_maps r phdrs) × (all_allowed r phdrs ≡ true)
unfolding load_loop
load_loop-maps r [] trace t plain e =
    let same : t ≡ trace = ground (arith, e) in
    (ap file_maps same ∙ sym (append-nil (file_maps trace)), refl)
load_loop-maps r (phdr ∷ phdrs) trace t plain e =
    elim (Option-cases (load_segment r phdr (head_of phdrs) trace)) [
      | inl stopped ↦ absurd (ground (arith, e, stopped))
      | inr ((ok, after), done) ↦
          let goes_on : ok ≡ true = ground (arith, e, done) in
          let rest : load_loop r phdrs after ≡ some (true, t) = ground (arith, e, done) in
          let (maps, allowed) =
            load_segment-one r phdr (head_of phdrs) trace after plain
              (done ∙ ap (λ b. some (b, after)) goes_on) in
          let (maps', allowed') = load_loop-maps r phdrs after t plain rest in
          (
            maps'
                ∙ ap (λ (x : Trace). x ++ code_maps r phdrs) maps
                ∙ append-one r phdr phdrs (file_maps trace),
            ground (arith, allowed, allowed'),
          )
    ]

code_maps-allowed :
    (r : Reader) (phdrs : List Phdr)
    → leb 26 r.api ≡ true
    → all_allowed r phdrs ≡ true
    → any is_write_exec (code_maps r phdrs) ≡ false
unfolding file_call
code_maps-allowed r [] api allowed = refl
code_maps-allowed r (phdr ∷ phdrs) api allowed =
    ground (arith, api, allowed, code_maps-allowed r phdrs api)

-- Where `LoadSegments` answers true outside the 16 KiB mode, the calls that mapped the file are, in
-- the order of the headers, one for every loadable segment that has a part of the file and no
-- other, each at the segment's pages, in memory and in the file, and with its protection; from
-- Android O (26) on none of them is writable and executable.
pub load_segments-maps :
    (r : Reader) (phdrs : List Phdr) (t : Trace)
    → r.should_use_16kib_app_compat ≡ false
    → load_segments r phdrs ≡ some (true, t)
    → (file_maps t ≡ segment_maps r phdrs)
      × (leb 26 r.api && any is_write_exec (file_maps t) ≡ false)
unfolding load_segments
load_segments-maps r phdrs t plain e =
    let run : load_loop r phdrs [] ≡ some (true, t) = ground (arith, e) in
    let (maps, allowed) = load_loop-maps r phdrs [] t plain run in
    (
      maps ∙ code_maps-segment_maps r phdrs plain,
      elim (Bool-cases (leb 26 r.api)) [
        | inl new ↦
            ap (λ b. b && any is_write_exec (file_maps t)) new
            ∙ ap (any is_write_exec) maps
            ∙ code_maps-allowed r phdrs new allowed
        | inr old ↦ ap (λ b. b && any is_write_exec (file_maps t)) old
      ],
    )
