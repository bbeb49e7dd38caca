-- ===== src/Links.antt =====
-- The linked lists of the linker (library/src/main/cpp/linker/linked_list.h, `LinkedList`): entries
-- at addresses, with a head and a tail pointer. The entries come from an allocator, which is an
-- interface here; Blocks fills it. A load or a store at an address that holds no entry is a fault,
-- and a fault or a loop that runs out of fuel is `none`.
pub mod Cells
pub mod Pushes
pub mod Queries
pub mod Refines
pub mod Memory
pub mod Removal
pub mod Takes
use fake_linker.Prelude.{
  ℕ, zero, suc, ◌+◌, ◌-◌, ◌*◌, ◌/◌, ◌%◌, ◌^◌, ◌≤◌, ◌<◌, bit_and, bit_or, bit_xor, ◌≡◌, refl, sym,
  ap, ◌∙◌, ◌≢◌, ◌↔◌, ◌⊎◌, inl, inr, Bool, true, false, not, ◌&&◌, ◌||◌, Option, none, some, List,
  [], ◌∷◌, ◌++◌, map, arith, ltb, leb, ◌==◌, if◌then◌else◌, ltb→lt, leb→le, ==→eq, ==_self, tests,
  Bool-cases, Option-cases, all_below, all_below_at, if-cases, length, is_empty, is_some,
  length-append, All, select, any, Bytes, bytes, text_eq,
}

-- `nullptr`
abbrev pub null : ℕ
null = 0

-- `LinkedListEntry`
pub record Entry : Type 0 where
  pub next : ℕ
  pub element : ℕ

-- The template parameter `Allocator`: `alloc` and `free` on the state of a pool, and what a list
-- relies on.
pub record Allocator : Type 1 where
  pub Pool : Type 0
  pub IsValid : Pool → Type 0
  pub used : ℕ → Pool → Bool
  pub alloc : Pool → ℕ × Pool
  pub free : ℕ → Pool → Option Pool
  pub alloc-ne-null : (p : Pool) → IsValid p → (alloc p).0 ≢ null
  pub alloc-unused : (p : Pool) → IsValid p → used (alloc p).0 p ≡ false
  pub alloc-used :
      (p : Pool) (b : ℕ) → IsValid p → used b (alloc p).1 ≡ used b p || (b == (alloc p).0)
  pub alloc-IsValid : (p : Pool) → IsValid p → IsValid (alloc p).1
  pub free-used :
      (p : Pool) (a : ℕ)
      → IsValid p
      → used a p ≡ true
      → (q : Pool) × (free a p ≡ some q)
        × IsValid q
        × ((b : ℕ) → used b q ≡ used b p && not (b == a))

module _ {ℓ κ} {A : Type ℓ} {B : Type κ} where
  infixl 5 ◌>>=◌
  -- A fault ends the call.
  abbrev pub ◌>>=◌ : Option A → (A → Option B) → Option B
  none >>= k = none
  some a >>= k = k a

abbrev pub Cells : Type 0
Cells = ℕ → Option Entry

abbrev pub write : Cells → ℕ → Option Entry → Cells
write cells a c b = if b == a then c else cells b

module _ (A : Allocator) where
  -- The entries in memory, and the allocator's state.
  pub record Store : Type 0 where
    pub cells : Cells
    pub pool : A.Pool

  pub record LinkedList : Type 0 where
    pub store : Store
    pub head : ℕ
    pub tail : ℕ

  abbrev pub load : ℕ → Store → Option Entry
  load p s = if p == null then none else s.cells p

  -- `Allocator::alloc()`, and the two fields of the new entry
  unfoldable pub new_entry : Entry → Store → ℕ × Store
  new_entry e s =
      let (a, pool) = A.alloc s.pool in
      (a, record { cells = write s.cells a (some e); pool = pool })

  -- `p->next = q`
  unfoldable pub set_next : ℕ → ℕ → Store → Option Store
  set_next p q s = do
    e ← load p s
    some (record s { cells = write s.cells p (some (record e { next = q })) })

  -- `Allocator::free(p)`
  unfoldable pub free_entry : ℕ → Store → Option Store
  free_entry p s = do
    pool ← A.free p s.pool
    some (record { cells = write s.cells p none; pool = pool })

  -- `find`, the address of the entry or the end
  unfoldable pub find : ℕ → Store → ℕ → ℕ → Option ℕ
  find zero s e value = none
  find (suc fuel) s e value = if e == null then some null else do
    entry ← load e s
    if entry.element == value then some e else find fuel s entry.next value

  unfoldable pub push_front : ℕ → LinkedList → LinkedList
  push_front element l =
      let (a, store) = new_entry (record { next = l.head; element = element }) l.store in
      record { store = store; head = a; tail = if l.tail == null then a else l.tail }

  -- The new entry behind the tail.
  unfoldable pub append_entry : ℕ → LinkedList → Option LinkedList
  append_entry element l =
      let (a, store) = new_entry (record { next = null; element = element }) l.store in
      if l.tail == null then some (record { store = store; head = a; tail = a }) else do
        linked ← set_next l.tail a store
        some (record { store = linked; head = l.head; tail = a })

  unfoldable pub push_back : ℕ → ℕ → LinkedList → Option LinkedList
  push_back fuel element l = do
    found ← find fuel l.store l.head element
    if found == null then append_entry element l else some l

  unfoldable pub pop_front : LinkedList → Option (Option ℕ × LinkedList)
  pop_front l = if l.head == null then some (none, l) else do
    entry ← load l.head l.store
    store ← free_entry l.head l.store
    some (
      some entry.element,
      record {
        store = store;
        head = entry.next;
        tail = if entry.next == null then null else l.tail;
      },
    )

  unfoldable pub clear_loop : ℕ → ℕ → Store → Option Store
  clear_loop zero p s = none
  clear_loop (suc fuel) p s =
      if p == null
      then some s
      else do entry ← load p s; freed ← free_entry p s; clear_loop fuel entry.next freed

  unfoldable pub clear : ℕ → LinkedList → Option LinkedList
  clear fuel l = do
    store ← clear_loop fuel l.head l.store
    some (record { store = store; head = null; tail = null })

  -- The entry `e` is taken out behind `p`, or from the front.
  unfoldable pub remove_entry : ℕ → ℕ → Entry → LinkedList → Option LinkedList
  remove_entry e p entry l = do
    linked ← if p == null then some l.store else set_next p entry.next l.store
    store ← free_entry e linked
    some (record {
      store = store;
      head = if p == null then entry.next else l.head;
      tail = if l.tail == e then p else l.tail;
    })

  -- The rounds of `remove_if` from the entry `e`, with the entry `p` before it.
  unfoldable pub remove_loop : (ℕ → Bool) → ℕ → ℕ → ℕ → LinkedList → Option LinkedList
  remove_loop predicate zero e p l = none
  remove_loop predicate (suc fuel) e p l = if e == null then some l else do
    entry ← load e l.store
    if predicate entry.element
        then remove_entry e p entry l >>= remove_loop predicate fuel entry.next p
        else remove_loop predicate fuel entry.next e l

  unfoldable pub remove_if : (ℕ → Bool) → ℕ → LinkedList → Option LinkedList
  remove_if predicate fuel l = remove_loop predicate fuel l.head null l

  unfoldable pub remove : ℕ → ℕ → LinkedList → Option LinkedList
  remove element fuel l = remove_if (λ e. e == element) fuel l

  unfoldable pub front : LinkedList → Option (Option ℕ)
  front l =
      if l.head == null
      then some none
      else do entry ← load l.head l.store; some (some entry.element)

  unfoldable pub back_loop : ℕ → Store → ℕ → Option ℕ → Option (Option ℕ)
  back_loop zero s e element = none
  back_loop (suc fuel) s e element =
      if e == null
      then some element
      else do entry ← load e s; back_loop fuel s entry.next (some entry.element)

  unfoldable pub back : ℕ → LinkedList → Option (Option ℕ)
  back fuel l = back_loop fuel l.store l.head none

  unfoldable pub visit : (ℕ → Bool) → ℕ → Store → ℕ → Option Bool
  visit action zero s e = none
  visit action (suc fuel) s e = if e == null then some true else do
    entry ← load e s
    if action entry.element then visit action fuel s entry.next else some false

  unfoldable pub find_if : (ℕ → Bool) → ℕ → Store → ℕ → Option (Option ℕ)
  find_if predicate zero s e = none
  find_if predicate (suc fuel) s e = if e == null then some none else do
    entry ← load e s
    if predicate entry.element
        then some (some entry.element)
        else find_if predicate fuel s entry.next

  -- What `copy_to_array` writes, in order.
  unfoldable pub copy_to_array : ℕ → Store → ℕ → ℕ → Option (List ℕ)
  copy_to_array zero s e room = none
  copy_to_array (suc fuel) s e room = if room == 0 || e == null then some [] else do
    entry ← load e s
    rest ← copy_to_array fuel s entry.next (room - 1)
    some (entry.element ∷ rest)

  unfoldable pub contains : ℕ → Store → ℕ → ℕ → Option Bool
  contains zero s e element = none
  contains (suc fuel) s e element = if e == null then some false else do
    entry ← load e s
    if entry.element == element then some true else contains fuel s entry.next element

  unfoldable pub size_loop : ℕ → Store → ℕ → ℕ → Option ℕ
  size_loop zero s e result = none
  size_loop (suc fuel) s e result =
      if e == null
      then some result
      else do entry ← load e s; size_loop fuel s entry.next (result + 1)

  unfoldable pub size : ℕ → LinkedList → Option ℕ
  size fuel l = size_loop fuel l.store l.head 0

  -- `make_list`, on the memory `store`
  unfoldable pub make_list : ℕ → ℕ → Store → Option LinkedList
  make_list fuel element store =
      push_back fuel element (record { store = store; head = null; tail = null })
