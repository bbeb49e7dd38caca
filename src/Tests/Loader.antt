-- ===== src/Tests/Loader.antt =====
-- The theorems on loading, on a code segment, a data segment and its RELRO part.
use fake_linker.Prelude.{
  ℕ, ◌+◌, ◌≡◌, refl, Bool, true, false, Option, none, some, List, [], ◌∷◌, any, leb, ◌&&◌,
}
use fake_linker.Bits.Align.{align_down, align_up}
use fake_linker.Elf.{
  Phdr, extend_load_segment_vma, phdr_table_get_minimum_alignment, minimum_loop, is_passed_over,
}
use fake_linker.Loader.{
  Trace, Reader, pflags_to_prot, file_call, map_segment, zero_fill_segment, drop_padding_pages,
  map_bss_section, file_length, load_file, load_rest, load_segment, load_loop, load_segments,
  set_load_prot,
}
use fake_linker.Loader.Mapped.{file_maps, segment_maps, is_write_exec, load_segments-maps}
use fake_linker.Loader.Protect as Protect
use fake_linker.Loader.Protect.{set_load_prot-one}

abbrev segment : ℕ → ℕ → ℕ → ℕ → ℕ → Phdr
segment type flags offset vaddr size = record {
  p_type = type;
  p_flags = flags;
  p_offset = offset;
  p_vaddr = vaddr;
  p_filesz = size;
  p_memsz = size + 0x10;
  p_align = 0x1000;
}

abbrev phdrs : List Phdr
phdrs =
    segment 1 5 0 0 0x1800
    ∷ segment 1 6 0x2000 0x3000 0x900
    ∷ segment 0x6474e552 4 0x2000 0x3000 0x100
    ∷ []

abbrev reader : Reader
reader = record {
  api = 30;
  page = 0x1000;
  file_offset = 0;
  file_size = 0x4000;
  load_bias = 0x70000;
  should_pad_segments = false;
  should_use_16kib_app_compat = false;
  page_size_migration_supported = false;
  works = λ trace call. true;
}

abbrev trace_of : Option (Bool × Trace) → Trace
trace_of none = []
trace_of (some (ok, trace)) = trace

abbrev loaded : Trace
loaded = trace_of (load_segments reader phdrs)

loads : load_segments reader phdrs ≡ some (true, loaded)
unfolding load_segments load_loop load_segment load_file load_rest map_segment file_call
    zero_fill_segment drop_padding_pages map_bss_section file_length pflags_to_prot
    extend_load_segment_vma phdr_table_get_minimum_alignment minimum_loop is_passed_over align_down
    align_up
loads = refl

load_segments-maps_example :
    (file_maps loaded ≡ segment_maps reader phdrs)
    × (leb 26 reader.api && any is_write_exec (file_maps loaded) ≡ false)
load_segments-maps_example = load_segments-maps reader phdrs loaded refl loads

set_load_prot-one_example : any Protect.is_write_exec (set_load_prot reader 2 phdrs []).1 ≡ false
set_load_prot-one_example = set_load_prot-one reader 2 phdrs [] refl
