-- ===== src/Jni.antt =====
-- Hooks of JNI functions: `HookJniNativeInterface` and `HookJniNativeInterfaces`
-- (library/src/main/cpp/linker/art/hook_jni_native_interface_impl.cpp), which overwrite entries of
-- the table `JNINativeInterface` in memory between `UnlockPageProtect` and `RecoveryPageProtect`.
pub mod Words
pub mod One
pub mod Many
use fake_linker.Prelude.{
  ℕ, zero, suc, ◌+◌, ◌-◌, ◌*◌, ◌/◌, ◌%◌, ◌^◌, ◌≤◌, ◌<◌, bit_and, bit_or, bit_xor, ◌≡◌, refl, sym,
  ap, ◌∙◌, ◌≢◌, ◌↔◌, ◌⊎◌, inl, inr, Bool, true, false, not, ◌&&◌, ◌||◌, Option, none, some, List,
  [], ◌∷◌, ◌++◌, map, arith, ltb, leb, ◌==◌, if◌then◌else◌, ltb→lt, leb→le, ==→eq, ==_self, tests,
  Bool-cases, Option-cases, all_below, all_below_at, if-cases, length, is_empty, is_some,
  length-append, All, select, any, Bytes, bytes, text_eq,
}
use fake_linker.Jni.Words.{Memory, load, store}
use fake_linker.Maps.Line.{MapsHelper, MapsFile, fresh, mp_read_write}
use fake_linker.Maps.Window.{get_memory_protect}
use fake_linker.Maps.Protect.{Kernel, unlock_page_protect, recovery_page_protect}

pub data FakeLinkerError : Type 0 where
  no_error : FakeLinkerError
  offset_error : FakeLinkerError
  method_null : FakeLinkerError
  repeat_operation : FakeLinkerError
  exec_error : FakeLinkerError

-- A null `backup_method` is `none`.
pub record HookJniUnit : Type 0 where
  pub offset : ℕ
  pub hook_method : ℕ
  pub backup_method : Option ℕ

-- What jni.h and the process fix: where `original_functions` points, the offset of
-- `GetObjectRefType` (that of `reserved0` is 0) and the size of the table. `verbose` says that the
-- build prints `LOGD` messages.
pub record Table : Type 0 where
  pub original_functions : ℕ
  pub last_offset : ℕ
  pub table_size : ℕ
  pub verbose : Bool

abbrev pub save : Option ℕ → ℕ → Memory → Memory
save none v m = m
save (some b) v m = store b v m

-- Saves the old entry and writes the new one.
abbrev pub replace_entry : ℕ → HookJniUnit → Memory → Memory
replace_entry target item m =
    store target item.hook_method (save item.backup_method (load m target) m)

module _ (t : Table) where
  -- The first two tests of a round skip the rest of the round, the step to the next item included.
  unfoldable pub is_skipped : HookJniUnit → Memory → Bool
  is_skipped item m =
      (ltb t.last_offset item.offset || item.hook_method == 0)
      || load m (t.original_functions + item.offset) == item.hook_method

  -- The loop: `len` rounds, the items from the current one on, and `num`.
  unfoldable pub hook_loop : ℕ → List HookJniUnit → Memory → ℕ → Memory × ℕ
  hook_loop zero items m num = (m, num)
  hook_loop (suc len) [] m num = (m, num)
  hook_loop (suc len) (item ∷ items) m num =
      let same = hook_loop len (item ∷ items) m num in
      let next =
        hook_loop len items (replace_entry (t.original_functions + item.offset) item m) (suc num) in
      if is_skipped item m then same else next

module _ (K : Kernel) (t : Table) (indeterminate : ℕ) (file : MapsFile) where
  abbrev pub World : Type 0
  World = Memory × K.State

  -- The part behind the checks of `HookJniNativeInterface`. The first component is `none` where
  -- the message of `LOGD` reads a null `backup_method`.
  unfoldable pub hook_target : ℕ → HookJniUnit → World → Option FakeLinkerError × World
  hook_target target item (m, k) =
      let (h, found) = get_memory_protect indeterminate file target 8 fresh in
      let (h', k', unlocked) = unlock_page_protect K (some mp_read_write) h k in
      let (h'', k'', recovered) = recovery_page_protect K h' k' in
      let code = if t.verbose && not (is_some item.backup_method) then none else some no_error in
      if not found
      then (some exec_error, (m, k))
      else if not unlocked
      then (some exec_error, (m, k'))
      else (code, (replace_entry target item m, k''))

  unfoldable pub hook_jni_native_interface : HookJniUnit → World → Option FakeLinkerError × World
  unfolding hook_target
  hook_jni_native_interface item (m, k) =
      let target = t.original_functions + item.offset in
      if ltb t.last_offset item.offset
      then (some offset_error, (m, k))
      else if not (item.offset % 8 == 0)
      then (some offset_error, (m, k))
      else if item.hook_method == 0
      then (some method_null, (m, k))
      else if load m target == item.hook_method
      then (some repeat_operation, (m, k))
      else hook_target target item (m, k)

  -- `items` is an array of `len` elements or null; a result of -1 is `none`.
  unfoldable pub hook_jni_native_interfaces : Option (List HookJniUnit) → World → Option ℕ × World
  unfolding hook_loop
  hook_jni_native_interfaces none (m, k) = (some 0, (m, k))
  hook_jni_native_interfaces (some items) (m, k) =
      let (h, found) =
        get_memory_protect indeterminate file t.original_functions t.table_size fresh in
      let (h', k', unlocked) = unlock_page_protect K (some mp_read_write) h k in
      let (m', num) = hook_loop t (length items) items m 0 in
      let (h'', k'', recovered) = recovery_page_protect K h' k' in
      if length items == 0
      then (some 0, (m, k))
      else if not found
      then (none, (m, k))
      else if not unlocked
      then (none, (m, k'))
      else (some num, (m', k''))
