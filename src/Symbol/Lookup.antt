-- ===== src/Symbol/Lookup.antt =====
-- What the two lookups find.
use fake_linker.Prelude.{
  ℕ, zero, suc, ◌+◌, ◌-◌, ◌%◌, ◌≤◌, ◌<◌, bit_and, ◌≡◌, ap, ◌∙◌, ◌≢◌, inl, inr, Bool, true, Option,
  none, some, false, refl, ◌⊎◌, ◌==◌, not, if◌then◌else◌, arith, Bytes,
}
use fake_linker.Symbol.{
  Tables, VersionInfo, find_verdef_version_index, may_hold, gnu_matches, chain_loop, link_loop,
  elf_matches, elf_lookup, Answer, round, with_version, gnu_search, calculate_gnu_hash,
  calculate_elf_hash,
}

-- A lookup's answer is an index that matches, at most `i`.
abbrev pub Finds : (ℕ → Option Bool) → Answer → ℕ → Type 0
Finds matches o i = (j : ℕ) × (o ≡ some (some j)) × (j ≤ i) × (matches j ≡ some true)

pub test-cases : (o : Option Bool) → (o ≡ none) ⊎ ((o ≡ some true) ⊎ (o ≡ some false))
test-cases none = inl refl
test-cases (some true) = inr (inl refl)
test-cases (some false) = inr (inr refl)

chain_loop-here :
    (matches : ℕ → Option Bool) (chain : ℕ → ℕ) (fuel n : ℕ)
    → matches n ≡ some true
    → chain_loop matches chain (suc fuel) n ≡ some (some n)
unfolding chain_loop
chain_loop-here matches chain fuel n m =
    ap
      (λ o.
        round o n
          (if bit_and (chain n) 1 == 0 then chain_loop matches chain fuel (suc n) else some none))
      m

chain_loop-next :
    (matches : ℕ → Option Bool) (chain : ℕ → ℕ) (fuel n : ℕ)
    → matches n ≡ some false
    → bit_and (chain n) 1 ≡ 0
    → chain_loop matches chain (suc fuel) n ≡ chain_loop matches chain fuel (suc n)
unfolding chain_loop
chain_loop-next matches chain fuel n m even =
    ap
      (λ o.
        round o n
          (if bit_and (chain n) 1 == 0 then chain_loop matches chain fuel (suc n) else some none))
      m
    ∙ ap (λ b. if b == 0 then chain_loop matches chain fuel (suc n) else some none) even

chain_loop-Finds :
    (matches : ℕ → Option Bool) (chain : ℕ → ℕ) (d fuel n : ℕ)
    → matches (n + d) ≡ some true
    → ((j : ℕ) → n ≤ j → j < n + d → (bit_and (chain j) 1 ≡ 0) × (matches j ≢ none))
    → d < fuel
    → Finds matches (chain_loop matches chain fuel n) (n + d)
chain_loop-Finds matches chain d zero n m c f = absurd (omega arith)
chain_loop-Finds matches chain zero (suc fuel) n m c f =
    let same : n ≡ n + 0 = omega arith in
    let here : matches n ≡ some true = ap matches same ∙ m in
    (n, chain_loop-here matches chain fuel n here, omega arith, here)
chain_loop-Finds matches chain (suc d) (suc fuel) n m c f = elim (test-cases (matches n)) [
  | inl aborted ↦ absurd ((c n (omega arith) (omega arith)).1 aborted)
  | inr (inl here) ↦ (n, chain_loop-here matches chain fuel n here, omega arith, here)
  | inr (inr missed) ↦
      let same : suc n + d ≡ n + suc d = omega arith in
      let (j, found, le, good) =
        chain_loop-Finds matches chain d fuel (suc n) (ap matches same ∙ m)
          (λ j low high. c j (omega arith) (omega arith)) (omega arith) in
      (
        j,
        chain_loop-next matches chain fuel n missed (c n (omega arith) (omega arith)).0 ∙ found,
        omega arith,
        good,
      )
]

-- The table lists the symbol `i` under its name: in the chain of the name's hash, no entry before
-- it is marked as the last, and the Bloom filter admits the hash.
pub record IsListed (t : Tables) (name : Bytes) (i : ℕ) : Type 0 where
  pub admitted : may_hold t (calculate_gnu_hash name) ≡ true
  pub nonempty : t.gnu_bucket (calculate_gnu_hash name % t.gnu_nbucket) ≢ 0
  pub behind : t.gnu_bucket (calculate_gnu_hash name % t.gnu_nbucket) ≤ i
  pub unmarked :
      (j : ℕ)
      → t.gnu_bucket (calculate_gnu_hash name % t.gnu_nbucket) ≤ j
      → j < i
      → bit_and (t.gnu_chain j) 1 ≡ 0

-- If the GNU table lists a symbol that has the name, its hash and the version asked for, the version
-- is found, and no symbol before it in the chain ends the process, then `gnu_lookup` finds a symbol
-- with these, at its index or a lower one, on fuel above the index.
pub gnu_search-Finds :
    (t : Tables) (fuel : ℕ) (name : Bytes) (vi : Option VersionInfo) (verneed i : ℕ)
    → IsListed t name i
    → find_verdef_version_index t vi ≡ some verneed
    → gnu_matches t (calculate_gnu_hash name) verneed name i ≡ some true
    → ((j : ℕ)
        → t.gnu_bucket (calculate_gnu_hash name % t.gnu_nbucket) ≤ j
        → j < i
        → gnu_matches t (calculate_gnu_hash name) verneed name j ≢ none)
    → i < fuel
    → Finds (gnu_matches t (calculate_gnu_hash name) verneed name) (gnu_search t fuel name vi) i
unfolding gnu_search
gnu_search-Finds t fuel name vi verneed i listed v m goes f =
    let hash = calculate_gnu_hash name in
    let n = t.gnu_bucket (hash % t.gnu_nbucket) in
    let matches = gnu_matches t hash verneed name in
    let behind : n ≤ i = listed.behind in
    let same : n + (i - n) ≡ i = omega arith in
    let (j, found, le, good) =
      chain_loop-Finds matches t.gnu_chain (i - n) fuel n (ap matches same ∙ m)
        (λ j low high. (listed.unmarked j low (omega arith), goes j low (omega arith)))
        (omega arith) in
    let search = λ (o : Option ℕ).
      with_version o λ w. chain_loop (gnu_matches t hash w name) t.gnu_chain fuel n in
    let nonempty : (n == 0) ≡ false = ground (arith, listed.nonempty) in
    let admitted : gnu_search t fuel name vi
        ≡ (if n == 0 then some none else search (find_verdef_version_index t vi)) =
      ap
        (λ b.
          if not b
          then some none
          else if n == 0
          then some none
          else search (find_verdef_version_index t vi))
        listed.admitted in
    let goes_on : gnu_search t fuel name vi ≡ chain_loop matches t.gnu_chain fuel n =
      admitted
      ∙ ap (λ b. if b then some none else search (find_verdef_version_index t vi)) nonempty
      ∙ ap search v in
    (j, goes_on ∙ found, omega arith, good)

-- The entry `k` links behind another one.
abbrev pub link : (ℕ → ℕ) → ℕ → ℕ → ℕ
link chain n zero = n
link chain n (suc k) = link chain (chain n) k

abbrev pub FindsLink : (ℕ → Option Bool) → (ℕ → ℕ) → Answer → ℕ → ℕ → Type 0
FindsLink matches chain o n k =
    (j : ℕ) × (o ≡ some (some (link chain n j))) × (j ≤ k) × (matches (link chain n j) ≡ some true)

link_loop-step :
    (matches : ℕ → Option Bool) (chain : ℕ → ℕ) (fuel n : ℕ) (o : Option Bool)
    → n ≢ 0
    → matches n ≡ o
    → link_loop matches chain (suc fuel) n ≡ round o n (link_loop matches chain fuel (chain n))
unfolding link_loop
link_loop-step matches chain fuel n o alive m =
    let past : (n == 0) ≡ false = ground (arith, alive) in
    let rest = link_loop matches chain fuel (chain n) in
    ap (λ b. if b then some none else round (matches n) n rest) past ∙ ap (λ x. round x n rest) m

link_loop-FindsLink :
    (matches : ℕ → Option Bool) (chain : ℕ → ℕ) (k fuel n : ℕ)
    → matches (link chain n k) ≡ some true
    → ((j : ℕ) → j ≤ k → link chain n j ≢ 0)
    → ((j : ℕ) → j < k → matches (link chain n j) ≢ none)
    → k < fuel
    → FindsLink matches chain (link_loop matches chain fuel n) n k
link_loop-FindsLink matches chain k zero n m c g f = absurd (omega arith)
link_loop-FindsLink matches chain zero (suc fuel) n m c g f =
    (0, link_loop-step matches chain fuel n (some true) (c 0 (omega arith)) m, omega arith, m)
link_loop-FindsLink matches chain (suc k) (suc fuel) n m c g f =
    let alive = c 0 (omega arith) in
    elim (test-cases (matches n)) [
      | inl aborted ↦ absurd (g 0 (omega arith) aborted)
      | inr (inl here) ↦
          (0, link_loop-step matches chain fuel n (some true) alive here, omega arith, here)
      | inr (inr missed) ↦
          let (j, found, le, good) =
            link_loop-FindsLink matches chain k fuel (chain n) m (λ j low. c (suc j) (omega arith))
              (λ j low. g (suc j) (omega arith)) (omega arith) in
          (
            suc j,
            link_loop-step matches chain fuel n (some false) alive missed ∙ found,
            omega arith,
            good,
          )
    ]

-- If a symbol with the name and the version asked for, global and defined, stands `k` links
-- behind the head of the chain of the name's hash, the version is found, and no symbol before it in
-- the chain ends the process, then `elf_lookup` finds such a symbol, at the `k`-th link or an
-- earlier one, on fuel above `k`.
pub elf_lookup-FindsLink :
    (t : Tables) (fuel : ℕ) (name : Bytes) (vi : Option VersionInfo) (verneed k : ℕ)
    → find_verdef_version_index t vi ≡ some verneed
    → elf_matches t verneed name (link t.chain (t.bucket (calculate_elf_hash name % t.nbucket)) k)
      ≡ some true
    → ((j : ℕ) → j ≤ k → link t.chain (t.bucket (calculate_elf_hash name % t.nbucket)) j ≢ 0)
    → ((j : ℕ)
        → j < k
        → elf_matches t verneed name
            (link t.chain (t.bucket (calculate_elf_hash name % t.nbucket)) j)
          ≢ none)
    → k < fuel
    → FindsLink
        (elf_matches t verneed name)
        t.chain
        (elf_lookup t fuel name vi)
        (t.bucket (calculate_elf_hash name % t.nbucket))
        k
unfolding elf_lookup
elf_lookup-FindsLink t fuel name vi verneed k v m c g f =
    let head = t.bucket (calculate_elf_hash name % t.nbucket) in
    let (j, found, le, good) =
      link_loop-FindsLink (elf_matches t verneed name) t.chain k fuel head m c g f in
    (
      j,
      ap (λ o. with_version o λ w. link_loop (elf_matches t w name) t.chain fuel head) v ∙ found,
      le,
      good,
    )
