-- ===== src/Jni/Many.antt =====
-- What the loop of `HookJniNativeInterfaces` leaves in memory.
use mathlib.Core.Path.{subst}
use fake_linker.Prelude.{
  ℕ, zero, suc, ◌+◌, ◌<◌, ◌≡◌, refl, sym, ap, ◌∙◌, true, false, ◌||◌, Option, none, some, List, [],
  ◌∷◌, arith, ltb, ◌==◌, if◌then◌else◌, if-cases, length, All,
}
use fake_linker.Bits.Align.{word}
use fake_linker.Jni.Words.{
  Memory, load, store, Apart, Apart-sym, load-store, load-below, load-store-Apart,
}
use fake_linker.Maps.Protect.{Kernel}
use fake_linker.Maps.Line.{MapsFile}
use fake_linker.Jni.{
  hook_jni_native_interfaces, HookJniUnit, Table, save, replace_entry, is_skipped, hook_loop,
}

-- Where the old entry goes.
abbrev pub saved_at : Option ℕ → List ℕ
saved_at none = []
saved_at (some b) = b ∷ []

pub store-Apart :
    (b : Option ℕ) (target hook a : ℕ) (m : Memory)
    → Apart a target
    → All (Apart a) (saved_at b)
    → load (store target hook (save b (load m target) m)) a ≡ load m a
store-Apart none target hook a m n s = load-store-Apart target hook a m n
store-Apart (some b) target hook a m n s =
    load-store-Apart target hook a (store b (load m target) m) n
    ∙ load-store-Apart b (load m target) a m s.0

map-All {ℓ κ ρ} :
    {A : Type ℓ} {P : A → Type κ} {Q : A → Type ρ} (xs : List A)
    → ((x : A) → P x → Q x)
    → All P xs
    → All Q xs
map-All [] f all = tt
map-All (x ∷ xs) f all = (f x all.0, map-All xs f all.1)

-- The old entry is where the item asks for it.
abbrev pub IsSaved : Option ℕ → ℕ → Memory → Type 0
IsSaved none v m = Unit
IsSaved (some b) v m = load m b ≡ v

pub store-IsSaved :
    (b : Option ℕ) (target hook : ℕ) (m : Memory)
    → All (Apart target) (saved_at b)
    → IsSaved b (load m target) (store target hook (save b (load m target) m))
store-IsSaved none target hook m s = tt
store-IsSaved (some b) target hook m s =
    load-store-Apart target hook b (store b (load m target) m) (Apart-sym target b s.0)
    ∙ load-store b (load m target) m (load-below m target)

IsSaved-same :
    (b : Option ℕ) (v : ℕ) (m m' : Memory)
    → All (λ c. load m' c ≡ load m c) (saved_at b)
    → IsSaved b v m
    → IsSaved b v m'
IsSaved-same none v m m' s e = tt
IsSaved-same (some b) v m m' s e = s.0 ∙ e

module _ (t : Table) where
  abbrev pub target_of : HookJniUnit → ℕ
  target_of item = t.original_functions + item.offset

  -- Hooks the items before the first one that is skipped.
  abbrev pub until_skipped : List HookJniUnit → Memory → ℕ → Memory × ℕ
  until_skipped [] m num = (m, num)
  until_skipped (item ∷ items) m num =
      let next = until_skipped items (replace_entry (target_of item) item m) (suc num) in
      if is_skipped t item m then (m, num) else next

  hook_loop-skipped :
      (len num : ℕ) (item : HookJniUnit) (items : List HookJniUnit) (m : Memory)
      → is_skipped t item m ≡ true
      → hook_loop t len (item ∷ items) m num ≡ (m, num)
  unfolding hook_loop
  hook_loop-skipped zero num item items m e = refl
  hook_loop-skipped (suc len) num item items m e =
      ground (arith, hook_loop-skipped len num item items m e)

  hook_loop-until_skipped :
      (items : List HookJniUnit) (m : Memory) (num : ℕ)
      → hook_loop t (length items) items m num ≡ until_skipped items m num
  unfolding hook_loop
  hook_loop-until_skipped [] m num = refl
  hook_loop-until_skipped (item ∷ items) m num = ground (
    arith,
    hook_loop-skipped (length items) num item items m,
    hook_loop-until_skipped items (replace_entry (target_of item) item m) (suc num),
  )

  -- If `HookJniNativeInterfaces` answers with a number, it has hooked as many items as stand before
  -- the first one that is out of range, without a method or hooked already: such an item stops
  -- the hooks of all items behind it.
  pub hook_jni_native_interfaces-until_skipped :
      (K : Kernel) (indeterminate : ℕ) (file : MapsFile) (items : List HookJniUnit) (m : Memory)
      (k : K.State) (num : ℕ)
      → (hook_jni_native_interfaces K t indeterminate file (some items) (m, k)).0 ≡ some num
      → ((hook_jni_native_interfaces K t indeterminate file (some items) (m, k)).1.0, num)
        ≡ until_skipped items m 0
  unfolding hook_jni_native_interfaces
  hook_jni_native_interfaces-until_skipped K indeterminate file [] m k num e = ground arith
  hook_jni_native_interfaces-until_skipped K indeterminate file (item ∷ items) m k num e =
      ground (arith, hook_loop-until_skipped (item ∷ items) m 0)

  -- The addresses that the hook of an item writes.
  abbrev pub written : HookJniUnit → List ℕ
  written item = target_of item ∷ saved_at item.backup_method

  abbrev pub IsOutside : ℕ → HookJniUnit → Type 0
  IsOutside a item = All (Apart a) (written item)

  abbrev pub IsApart : HookJniUnit → HookJniUnit → Type 0
  IsApart item other = All (λ a. IsOutside a other) (written item)

  replace_entry-IsOutside :
      (item : HookJniUnit) (m : Memory) (a : ℕ)
      → IsOutside a item
      → load (replace_entry (target_of item) item m) a ≡ load m a
  replace_entry-IsOutside item m a o =
      store-Apart item.backup_method (target_of item) item.hook_method a m o.0 o.1

  until_skipped-IsOutside :
      (items : List HookJniUnit) (m : Memory) (num a : ℕ)
      → All (IsOutside a) items
      → load (until_skipped items m num).0 a ≡ load m a
  until_skipped-IsOutside [] m num a o = refl
  until_skipped-IsOutside (item ∷ items) m num a o =
      if-cases (λ (r : Memory × ℕ). load r.0 a ≡ load m a) (is_skipped t item m) (λ _. refl)
        (λ _.
          until_skipped-IsOutside items (replace_entry (target_of item) item m) (suc num) a o.1
          ∙ replace_entry-IsOutside item m a o.0)

  -- No two items write words that share a byte, and no item saves the old entry over the new one.
  abbrev pub AreApart : List HookJniUnit → Type 0
  AreApart [] = Unit
  AreApart (item ∷ items) =
      All (Apart (target_of item)) (saved_at item.backup_method)
      × All (λ (other : HookJniUnit). IsApart item other × IsApart other item) items
      × AreApart items

  -- In a memory `m'` behind the hook of an item in `m`.
  abbrev pub IsHooked : Memory → Memory → HookJniUnit → Type 0
  IsHooked m m' item =
      (load m' (target_of item) ≡ item.hook_method)
      × IsSaved item.backup_method (load m (target_of item)) m'

  abbrev pub AreFree : Memory → List HookJniUnit → Type 0
  AreFree m items = All (λ (item : HookJniUnit). is_skipped t item m ≡ false) items

  AreFree-replace :
      (item : HookJniUnit) (items : List HookJniUnit) (m : Memory)
      → All (λ (other : HookJniUnit). IsApart item other × IsApart other item) items
      → AreFree m items
      → AreFree (replace_entry (target_of item) item m) items
  unfolding is_skipped
  AreFree-replace item [] m apart free = tt
  AreFree-replace item (other ∷ items) m apart free =
      let same = replace_entry-IsOutside item m (target_of other) apart.0.1.0 in
      (
        ap
              (λ v.
                (ltb t.last_offset other.offset || other.hook_method == 0)
                || v == other.hook_method)
              same
            ∙ free.0,
        AreFree-replace item items m apart.1 free.1,
      )

  written-IsOutside :
      (item : HookJniUnit) (cs : List ℕ) (items : List HookJniUnit)
      → All (λ (other : HookJniUnit). All (λ c. IsOutside c other) cs × IsApart other item) items
      → All (λ c. All (IsOutside c) items) cs
  written-IsOutside item [] items apart = tt
  written-IsOutside item (c ∷ cs) items apart = (
    map-All items (λ _ q. q.0.0) apart,
    written-IsOutside item cs items (map-All items (λ _ q. (q.0.1, q.1)) apart),
  )

  -- The items behind the first leave its two addresses as they are.
  until_skipped-IsHooked :
      (item : HookJniUnit) (items : List HookJniUnit) (m : Memory) (num : ℕ)
      → AreApart (item ∷ items)
      → item.hook_method < word
      → IsHooked m (until_skipped items (replace_entry (target_of item) item m) num).0 item
  until_skipped-IsHooked item items m num apart small =
      let m' = replace_entry (target_of item) item m in
      let outside = written-IsOutside item (written item) items apart.1 in
      let kept =
        λ (c : ℕ) (o : All (IsOutside c) items). until_skipped-IsOutside items m' num c o in
      let new : load m' (target_of item) ≡ item.hook_method =
        load-store (target_of item) item.hook_method _ small in
      (
        kept (target_of item) outside.0 ∙ new,
        IsSaved-same item.backup_method (load m (target_of item)) m' (until_skipped items m' num).0
            (map-All (saved_at item.backup_method) kept outside.1)
            (store-IsSaved item.backup_method (target_of item) item.hook_method m apart.0),
      )

  replace_entry-IsHooked :
      (item : HookJniUnit) (items : List HookJniUnit) (m m'' : Memory)
      → All (λ (other : HookJniUnit). IsApart item other × IsApart other item) items
      → All (IsHooked (replace_entry (target_of item) item m) m'') items
      → All (IsHooked m m'') items
  replace_entry-IsHooked item [] m m'' apart all = tt
  replace_entry-IsHooked item (other ∷ items) m m'' apart all =
      let same = replace_entry-IsOutside item m (target_of other) apart.0.1.0 in
      ((all.0.0, rw same at all.0.1), replace_entry-IsHooked item items m m'' apart.1 all.1)

  abbrev AllHooked : List HookJniUnit → Memory → ℕ → Memory × ℕ → Type 0
  AllHooked items m num r = (r.1 ≡ num + length items) × All (IsHooked m r.0) items

  until_skipped-AreApart :
      (items : List HookJniUnit) (m : Memory) (num : ℕ)
      → AreApart items
      → AreFree m items
      → All (λ (item : HookJniUnit). item.hook_method < word) items
      → AllHooked items m num (until_skipped items m num)
  until_skipped-AreApart [] m num apart free small = (omega arith, tt)
  until_skipped-AreApart (item ∷ items) m num apart free small =
      let m' = replace_entry (target_of item) item m in
      let ih =
        until_skipped-AreApart items m' (suc num) apart.2
          (AreFree-replace item items m apart.1 free.1) small.1 in
      if-cases (AllHooked (item ∷ items) m num) (is_skipped t item m)
        (λ skipped. absurd (ground (arith, free.0)))
        (λ _.
          let all : All (IsHooked m (until_skipped items m' (suc num)).0) (item ∷ items) = (
            until_skipped-IsHooked item items m (suc num) apart small.0,
            replace_entry-IsHooked item items m (until_skipped items m' (suc num)).0 apart.1 ih.1,
          ) in
          (ih.0 ∙ omega arith, all))

  -- If `HookJniNativeInterfaces` answers with a number, and the items are all in range, with a
  -- method of 64 bits, not hooked already and write words without a byte in common, then the number
  -- is that of the items, each entry holds its hook and each place for a backup the old entry.
  pub hook_jni_native_interfaces-AllHooked :
      (K : Kernel) (indeterminate : ℕ) (file : MapsFile) (items : List HookJniUnit) (m : Memory)
      (k : K.State) (num : ℕ)
      → AreApart items
      → AreFree m items
      → All (λ (item : HookJniUnit). item.hook_method < word) items
      → (hook_jni_native_interfaces K t indeterminate file (some items) (m, k)).0 ≡ some num
      → (num ≡ length items)
        × All
            (IsHooked m (hook_jni_native_interfaces K t indeterminate file (some items) (m, k)).1.0)
            items
  hook_jni_native_interfaces-AllHooked K indeterminate file items m k num apart free small e =
      let r =
        subst (AllHooked items m 0)
          (sym (hook_jni_native_interfaces-until_skipped K indeterminate file items m k num e))
          (until_skipped-AreApart items m 0 apart free small) in
      (omega (arith, r.0), r.1)
