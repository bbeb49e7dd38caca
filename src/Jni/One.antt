-- ===== src/Jni/One.antt =====
-- What `HookJniNativeInterface` does to the memory.
use fake_linker.Prelude.{
  ℕ, ◌+◌, ◌%◌, ◌≤◌, ◌<◌, ◌≡◌, ◌≢◌, ◌⊎◌, inl, inr, false, true, none, some, arith, All, if-cases,
  Option-cases, is_some, ==→eq, if◌then◌else◌, ◌&&◌, Bool-cases, not, ltb, ◌==◌, Option, refl,
}
use fake_linker.Bits.Align.{word}
use fake_linker.Maps.Line.{MapsFile, fresh, mp_read_write}
use fake_linker.Maps.Window.{get_memory_protect}
use fake_linker.Maps.Protect.{Kernel, unlock_page_protect}
use fake_linker.Jni.Words.{Memory, load, Apart, load-store}
use fake_linker.Jni.{
  HookJniUnit, FakeLinkerError, Table, no_error, offset_error, method_null, repeat_operation,
  exec_error, hook_jni_native_interface, hook_target,
}
use fake_linker.Jni.Many.{IsSaved, saved_at, store-IsSaved, store-Apart}

module _ (K : Kernel) (t : Table) (indeterminate : ℕ) (file : MapsFile) where
  -- The file lists the entry's page, and the page can be made writable.
  abbrev pub CanUnlock : HookJniUnit → K.State → Type 0
  CanUnlock item k =
      let (h, found) =
        get_memory_protect indeterminate file (t.original_functions + item.offset) 8 fresh in
      (found ≡ true) × ((unlock_page_protect K (some mp_read_write) h k).2 ≡ true)

  abbrev pub CannotUnlock : HookJniUnit → K.State → Type 0
  CannotUnlock item k =
      let (h, found) =
        get_memory_protect indeterminate file (t.original_functions + item.offset) 8 fresh in
      (found ≡ false) ⊎ ((unlock_page_protect K (some mp_read_write) h k).2 ≡ false)

  -- An entry of the table, a hook, and no hook of it before.
  abbrev pub IsFit : HookJniUnit → Memory → Type 0
  IsFit item m =
      (item.offset ≤ t.last_offset)
      × (item.offset % 8 ≡ 0)
      × (item.hook_method ≢ 0)
      × (load m (t.original_functions + item.offset) ≢ item.hook_method)

  -- The reasons for which an answer is an error.
  abbrev pub IsReason : HookJniUnit → Memory → K.State → FakeLinkerError → Type 0
  IsReason item m k no_error = ⊥
  IsReason item m k offset_error = (t.last_offset < item.offset) ⊎ (item.offset % 8 ≢ 0)
  IsReason item m k method_null = item.hook_method ≡ 0
  IsReason item m k repeat_operation =
      load m (t.original_functions + item.offset) ≡ item.hook_method
  IsReason item m k exec_error = IsFit item m × CannotUnlock item k

  -- Nothing is written, and the error has its reason.
  abbrev pub IsRefused : HookJniUnit → Memory → K.State → Option FakeLinkerError → Memory → Type 0
  IsRefused item m k none m' = ⊥
  IsRefused item m k (some e) m' = (m' ≡ m) × IsReason item m k e

  -- The entry holds the hook, the place for a backup the old entry, and a word apart from both what
  -- it held; without a place for it, the message of a build that prints ends the process.
  abbrev pub IsDone : HookJniUnit → Memory → K.State → ℕ → Option FakeLinkerError → Memory → Type 0
  IsDone item m k a code m' =
      ((code ≡ some no_error) ⊎ ((code ≡ none) × (t.verbose ≡ true) × (item.backup_method ≡ none)))
      × IsFit item m
      × CanUnlock item k
      × (load m' (t.original_functions + item.offset) ≡ item.hook_method)
      × IsSaved item.backup_method (load m (t.original_functions + item.offset)) m'
      × (load m' a ≡ load m a)

  abbrev pub Decides :
      HookJniUnit → Memory → K.State → ℕ → Option FakeLinkerError × (Memory × K.State) → Type 0
  Decides item m k a r = IsRefused item m k r.0 r.1.0 ⊎ IsDone item m k a r.0 r.1.0

  code-cases :
      (item : HookJniUnit)
      → let code = if t.verbose && not (is_some item.backup_method) then none else some no_error in
        (code ≡ some no_error) ⊎ ((code ≡ none) × (t.verbose ≡ true) × (item.backup_method ≡ none))
  code-cases item = elim (Option-cases item.backup_method) [
    | inr (b, e) ↦ inl (
        rw e (
          if-cases (λ c. c ≡ some no_error) (t.verbose && false) (λ h. absurd (ground arith))
            (λ _. refl)))
    | inl e ↦ elim (Bool-cases t.verbose) [
      | inl v ↦ inr (rw (e, v) refl, v, e)
      | inr q ↦ inl (rw q refl)
    ]
  ]

  hook_target-Decides :
      (item : HookJniUnit) (m : Memory) (k : K.State) (a : ℕ)
      → IsFit item m
      → item.hook_method < word
      → All (Apart (t.original_functions + item.offset)) (saved_at item.backup_method)
      → Apart a (t.original_functions + item.offset)
      → All (Apart a) (saved_at item.backup_method)
      → Decides item m k a
          (hook_target K t indeterminate file (t.original_functions + item.offset) item (m, k))
  unfolding hook_target
  hook_target-Decides item m k a fit small apart a_apart a_saved =
      let target = t.original_functions + item.offset in
      let (h, found) = get_memory_protect indeterminate file target 8 fresh in
      let unlocked = (unlock_page_protect K (some mp_read_write) h k).2 in
      if-cases (Decides item m k a) (not found) (λ lost. inl (refl, (fit, inl (ground arith))))
        (λ there.
          if-cases (Decides item m k a) (not unlocked)
            (λ locked. inl (refl, (fit, inr (ground arith))))
            (λ writable. inr (
              code-cases item,
              fit,
              (ground arith, ground arith),
              load-store target item.hook_method _ small,
              store-IsSaved item.backup_method target item.hook_method m apart,
              store-Apart item.backup_method target item.hook_method a m a_apart a_saved,
            )))

  -- `HookJniNativeInterface` with a method of 64 bits and a place for a backup apart from the entry
  -- either leaves the memory as it is and answers with an error that has its reason, the last of
  -- them that the page is not listed or cannot be unlocked; or the offset is one of an entry, the
  -- method is not null and not there yet, the page was unlocked, the entry holds the hook, the place
  -- for a backup the old entry and every word apart from the two what it held, and the answer is
  -- `kHJErrorNO`, or there is none, where the message of a build that prints reads a null
  -- `backup_method`.
  pub hook_jni_native_interface-cases :
      (item : HookJniUnit) (m : Memory) (k : K.State) (a : ℕ)
      → item.hook_method < word
      → All (Apart (t.original_functions + item.offset)) (saved_at item.backup_method)
      → Apart a (t.original_functions + item.offset)
      → All (Apart a) (saved_at item.backup_method)
      → Decides item m k a (hook_jni_native_interface K t indeterminate file item (m, k))
  unfolding hook_jni_native_interface
  hook_jni_native_interface-cases item m k a small apart a_apart a_saved =
      let P = Decides item m k a in
      let entry = load m (t.original_functions + item.offset) in
      if-cases P (ltb t.last_offset item.offset) (λ over. inl (refl, inl (ground (arith, over))))
        (λ inside.
          if-cases P (not (item.offset % 8 == 0)) (λ odd. inl (refl, inr (ground (arith, odd))))
            (λ aligned.
              if-cases P (item.hook_method == 0) (λ null. inl (refl, ==→eq item.hook_method 0 null))
                (λ hook.
                  if-cases P (entry == item.hook_method)
                    (λ again. inl (refl, ==→eq entry item.hook_method again))
                    (λ fresh_hook.
                      hook_target-Decides item m k a
                        (
                          ground (arith, inside),
                          ground (arith, aligned),
                          ground (arith, hook),
                          ground (arith, fresh_hook),
                        )
                        small apart a_apart a_saved))))
