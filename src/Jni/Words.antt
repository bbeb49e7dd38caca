-- ===== src/Jni/Words.antt =====
-- Words of 64 bits in a memory of bytes, the lowest byte first.
use fake_linker.Prelude.{
  ℕ, zero, suc, ◌+◌, ◌*◌, ◌/◌, ◌%◌, ◌≤◌, ◌<◌, ◌≡◌, refl, ap, ◌∙◌, ◌⊎◌, inl, inr, arith, ◌==◌,
  if◌then◌else◌, ==_self,
}
use fake_linker.Bits.Align.{word}

-- The bytes of the memory by their addresses.
abbrev pub Memory : Type 0
Memory = ℕ → ℕ

unfoldable pub load_bytes : ℕ → Memory → ℕ → ℕ
load_bytes zero m a = 0
load_bytes (suc n) m a = m a % 256 + 256 * load_bytes n m (suc a)

unfoldable pub store_bytes : ℕ → ℕ → ℕ → Memory → Memory
store_bytes zero a v m x = m x
store_bytes (suc n) a v m x =
    let rest = store_bytes n (suc a) (v / 256) m x in if x == a then v % 256 else rest

-- Reading and writing through a pointer to a word, aligned or not.
abbrev pub load : Memory → ℕ → ℕ
load m a = load_bytes 8 m a

abbrev pub store : ℕ → ℕ → Memory → Memory
store a v m = store_bytes 8 a v m

-- The words at two addresses have no byte in common.
abbrev pub Apart : ℕ → ℕ → Type 0
Apart a b = (a + 8 ≤ b) ⊎ (b + 8 ≤ a)

pub Apart-sym : (a b : ℕ) → Apart a b → Apart b a
Apart-sym a b (inl h) = inr h
Apart-sym a b (inr h) = inl h

abbrev limit : ℕ → ℕ
limit zero = 1
limit (suc n) = 256 * limit n

store_bytes-outside :
    (n a v : ℕ) (m : Memory) (x : ℕ) → (x < a) ⊎ (a + n ≤ x) → store_bytes n a v m x ≡ m x
unfolding store_bytes
store_bytes-outside zero a v m x out = refl
store_bytes-outside (suc n) a v m x out =
    ground (arith, out, store_bytes-outside n (suc a) (v / 256) m x)

load_bytes-same :
    (n : ℕ) (m m' : Memory) (b : ℕ)
    → ((x : ℕ) → b ≤ x → x < b + n → m' x ≡ m x)
    → load_bytes n m' b ≡ load_bytes n m b
unfolding load_bytes
load_bytes-same zero m m' b same = refl
load_bytes-same (suc n) m m' b same =
    let first : m' b ≡ m b = same b (omega arith) (omega arith) in
    let rest = load_bytes-same n m m' (suc b) (λ x low high. same x (omega arith) (omega arith)) in
    ap (λ v. v % 256 + 256 * load_bytes n m' (suc b)) first ∙ ap (λ w. m b % 256 + 256 * w) rest

load_bytes-store_bytes :
    (n a v : ℕ) (m : Memory) → v < limit n → load_bytes n (store_bytes n a v m) a ≡ v
unfolding load_bytes store_bytes
load_bytes-store_bytes zero a v m small = omega arith
load_bytes-store_bytes (suc n) a v m small =
    let inner = store_bytes n (suc a) (v / 256) m in
    let here : store_bytes (suc n) a v m a ≡ v % 256 = ground (arith, ==_self a) in
    let rest : load_bytes n (store_bytes (suc n) a v m) (suc a) ≡ load_bytes n inner (suc a) =
      load_bytes-same n inner (store_bytes (suc n) a v m) (suc a)
        (λ x low high. ground (arith, low)) in
    let below : v / 256 < limit n = omega (arith, small) in
    ap (λ w. w % 256 + 256 * load_bytes n (store_bytes (suc n) a v m) (suc a)) here
    ∙ ap (λ w. v % 256 % 256 + 256 * w) (rest ∙ load_bytes-store_bytes n (suc a) (v / 256) m below)
    ∙ omega arith

load_bytes-below : (n : ℕ) (m : Memory) (a : ℕ) → load_bytes n m a < limit n
unfolding load_bytes
load_bytes-below zero m a = omega arith
load_bytes-below (suc n) m a = omega (arith, load_bytes-below n m (suc a))

pub load-below : (m : Memory) (a : ℕ) → load m a < word
load-below m a = load_bytes-below 8 m a

pub load-store : (a v : ℕ) (m : Memory) → v < word → load (store a v m) a ≡ v
load-store a v m small = load_bytes-store_bytes 8 a v m small

pub load-store-Apart : (a v b : ℕ) (m : Memory) → Apart b a → load (store a v m) b ≡ load m b
load-store-Apart a v b m apart = load_bytes-same 8 m (store a v m) b (λ x low high.
    store_bytes-outside 8 a v m x
      (elim apart [ inl below ↦ inl (omega arith) | inr above ↦ inr (omega arith) ]))
