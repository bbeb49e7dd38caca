-- ===== src/Tests/Jni.antt =====
-- The theorems on the hooks of JNI functions, on a table of 16 entries at 0x2000.
use fake_linker.Prelude.{
  ℕ, ◌≡◌, refl, inl, inr, false, Option, none, some, List, [], ◌∷◌, arith, leb, if◌then◌else◌,
  length, All,
}
use fake_linker.Maps.Line.{format_line, scan_line, format_protect}
use fake_linker.Maps.Window.{get_memory_protect, memory_loop, memory_round}
use fake_linker.Maps.Protect.{
  unlock_page_protect, recovery_page_protect, unlock_pages, recover_pages,
}
use fake_linker.Tests.Maps.{ready, before, four}
use fake_linker.Jni.Words.{Memory, load_bytes, store_bytes}
use fake_linker.Jni.{
  HookJniUnit, Table, is_skipped, hook_jni_native_interface, hook_jni_native_interfaces, hook_loop,
}
use fake_linker.Jni.One.{Decides, hook_jni_native_interface-cases}
use fake_linker.Jni.Many.{
  hook_jni_native_interfaces-AllHooked, hook_jni_native_interfaces-until_skipped, until_skipped,
  IsHooked, AreApart, AreFree,
}

abbrev table : Table
table = record { original_functions = 0x2000; last_offset = 120; table_size = 128; verbose = false }

-- Every byte of the table holds 1.
abbrev entries : Memory
entries a = if leb 0x2000 a then 1 else 0

abbrev unit : ℕ → ℕ → Option ℕ → HookJniUnit
unit offset hook backup = record { offset = offset; hook_method = hook; backup_method = backup }

abbrev two : List HookJniUnit
two = unit 8 7777 (some 0x900) ∷ unit 24 8888 none ∷ []

two-AreApart : AreApart table two
two-AreApart = (
  (inr (omega arith), tt),
  (
    (
      ((inl (omega arith), tt), ((inl (omega arith), tt), tt)),
      ((inr (omega arith), (inr (omega arith), tt)), tt),
    ),
    tt,
  ),
  (tt, tt, tt),
)

two-AreFree : AreFree table entries two
unfolding is_skipped load_bytes
two-AreFree = (refl, (refl, tt))

abbrev result : Option ℕ × (Memory × (ℕ → ℕ))
result = hook_jni_native_interfaces ready table 0 four (some two) (entries, before)

result-two : result.0 ≡ some 2
unfolding hook_jni_native_interfaces get_memory_protect memory_loop memory_round format_line
    format_protect scan_line unlock_page_protect unlock_pages recovery_page_protect recover_pages
    hook_loop is_skipped load_bytes store_bytes
result-two = refl

hook_jni_native_interfaces-AllHooked_example :
    (2 ≡ length two) × All (IsHooked table entries result.1.0) two
hook_jni_native_interfaces-AllHooked_example =
    hook_jni_native_interfaces-AllHooked table ready 0 four two entries before 2 two-AreApart
      two-AreFree (omega arith, (omega arith, tt)) result-two

hook_jni_native_interfaces-until_skipped_example :
    (result.1.0, 2) ≡ until_skipped table two entries 0
hook_jni_native_interfaces-until_skipped_example =
    hook_jni_native_interfaces-until_skipped table ready 0 four two entries before 2 result-two

hook_jni_native_interface-cases_example :
    Decides ready table 0 four
      (unit 8 7777 (some 0x900))
      entries
      before
      0x2010
      (hook_jni_native_interface ready table 0 four (unit 8 7777 (some 0x900)) (entries, before))
hook_jni_native_interface-cases_example =
    hook_jni_native_interface-cases ready table 0 four (unit 8 7777 (some 0x900)) entries before
      0x2010 (omega arith) (inr (omega arith), tt) (inr (omega arith)) (inr (omega arith), tt)
