-- ===== src/Links/Cells.antt =====
-- Which entries a list has in memory, and what a change of one entry leaves alone.
use fake_linker.Prelude.{
  ℕ, ◌≡◌, refl, sym, ap, ◌∙◌, ◌≢◌, Bool, true, false, ◌||◌, Option, none, some, List, [], ◌∷◌, ◌++◌,
  arith, ◌==◌, length,
}
use fake_linker.Links.{null, Entry, Cells, write}

-- A list as the addresses and the elements of its entries.
abbrev pub Row : Type 0
Row = List (ℕ × ℕ)

abbrev pub start : ℕ → Row → ℕ
start stop [] = stop
start stop ((a, v) ∷ xs) = a

-- The address of the last entry.
abbrev pub end_of : ℕ → Row → ℕ
end_of p [] = p
end_of p ((a, v) ∷ xs) = end_of a xs

abbrev pub has : ℕ → Row → Bool
has b [] = false
has b ((a, v) ∷ xs) = (a == b) || has b xs

abbrev pub elements : Row → List ℕ
elements [] = []
elements ((a, v) ∷ xs) = v ∷ elements xs

-- The entries of `xs` stand in memory, each at its own address and linked to the one behind it; the
-- last is linked to `stop`.
abbrev pub IsChain : Cells → ℕ → Row → Type 0
IsChain cells stop [] = Unit
IsChain cells stop ((a, v) ∷ xs) =
    (a ≢ null)
    × (cells a ≡ some (record { next = start stop xs; element = v }))
    × (has a xs ≡ false)
    × IsChain cells stop xs

pub start-append : (stop : ℕ) (xs ys : Row) → start stop (xs ++ ys) ≡ start (start stop ys) xs
start-append stop [] ys = refl
start-append stop (x ∷ xs) ys = refl

pub end_of-append : (p : ℕ) (xs ys : Row) → end_of p (xs ++ ys) ≡ end_of (end_of p xs) ys
end_of-append p [] ys = refl
end_of-append p (x ∷ xs) ys = end_of-append x.0 xs ys

pub has-append : (b : ℕ) (xs ys : Row) → has b (xs ++ ys) ≡ has b xs || has b ys
has-append b [] ys = refl
has-append b (x ∷ xs) ys = ground (arith, has-append b xs ys)

pub elements-append : (xs ys : Row) → elements (xs ++ ys) ≡ elements xs ++ elements ys
elements-append [] ys = refl
elements-append (x ∷ xs) ys = ap (λ (e : List ℕ). x.1 ∷ e) (elements-append xs ys)

pub length-elements : (xs : Row) → length (elements xs) ≡ length xs
length-elements [] = refl
length-elements (x ∷ xs) = omega (arith, length-elements xs)

pub has-end_of : (p : ℕ) (x : ℕ × ℕ) (xs : Row) → has (end_of p (x ∷ xs)) (x ∷ xs) ≡ true
has-end_of p x [] = ground arith
has-end_of p x (y ∷ xs) = ground (arith, has-end_of x.0 y xs)

pub not_has_unused :
    (cells : Cells) (stop b : ℕ) (xs : Row)
    → IsChain cells stop xs
    → cells b ≡ none
    → has b xs ≡ false
not_has_unused cells stop b [] chain unused = refl
not_has_unused cells stop b (x ∷ xs) chain unused =
    ground (arith, chain.1, not_has_unused cells stop b xs chain.3 unused)

pub not_has-null :
    (cells : Cells) (stop : ℕ) (xs : Row) → IsChain cells stop xs → has null xs ≡ false
not_has-null cells stop [] chain = refl
not_has-null cells stop (x ∷ xs) chain = ground (arith, chain.0, not_has-null cells stop xs chain.3)

-- A write at another address.
pub IsChain-write :
    (cells : Cells) (stop b : ℕ) (c : Option Entry) (xs : Row)
    → has b xs ≡ false
    → IsChain cells stop xs
    → IsChain (write cells b c) stop xs
IsChain-write cells stop b c [] out chain = tt
IsChain-write cells stop b c (x ∷ xs) out chain = (
  chain.0,
  ground (arith, chain.1),
  chain.2,
  IsChain-write cells stop b c xs (ground arith) chain.3,
)

-- The entry in front of `rest`.
pub entry_at :
    (cells : Cells) (stop a v : ℕ) (ys rest : Row)
    → IsChain cells stop (ys ++ (a, v) ∷ rest)
    → (a ≢ null)
      × (cells a ≡ some (record { next = start stop rest; element = v }))
      × (has a rest ≡ false)
entry_at cells stop a v [] rest chain = (chain.0, chain.1, chain.2)
entry_at cells stop a v (y ∷ ys) rest chain = entry_at cells stop a v ys rest chain.3

pub IsChain-one :
    (cells : Cells) (a v : ℕ)
    → a ≢ null
    → cells a ≡ some (record { next = null; element = v })
    → IsChain cells null ((a, v) ∷ [])
IsChain-one cells a v ne e = (ne, e, refl, tt)

-- A new entry behind the last one.
pub IsChain-snoc :
    (cells : Cells) (a v p w : ℕ) (ys : Row)
    → IsChain cells null (ys ++ (p, w) ∷ [])
    → cells a ≡ none
    → a ≢ null
    → IsChain
        (write
          (write cells a (some (record { next = null; element = v })))
          p
          (some (record { next = a; element = w })))
        null
        (ys ++ (p, w) ∷ (a, v) ∷ [])
IsChain-snoc cells a v p w [] chain unused ne =
    let cells' =
      write (write cells a (some (record { next = null; element = v }))) p
        (some (record { next = a; element = w })) in
    (
      chain.0,
      ground arith,
      ground (arith, chain.1),
      IsChain-one cells' a v ne (ground (arith, chain.1)),
    )
IsChain-snoc cells a v p w (y ∷ ys) chain unused ne =
    let links : start null (ys ++ (p, w) ∷ (a, v) ∷ []) ≡ start null (ys ++ (p, w) ∷ []) =
      start-append null ys _ ∙ sym (start-append null ys _) in
    (
      chain.0,
      ground (arith, links, chain.1, chain.2, has-append y.0 ys ((p, w) ∷ [])),
      ground (
        arith,
        chain.1,
        chain.2,
        has-append y.0 ys ((p, w) ∷ (a, v) ∷ []),
        has-append y.0 ys ((p, w) ∷ []),
      ),
      IsChain-snoc cells a v p w ys chain.3 unused ne,
    )

-- The entry `e` is unlinked behind `p` and given back.
pub IsChain-unlink :
    (cells : Cells) (p w e v : ℕ) (ys rest : Row)
    → IsChain cells null (ys ++ (p, w) ∷ (e, v) ∷ rest)
    → IsChain
        (write (write cells p (some (record { next = start null rest; element = w }))) e none)
        null
        (ys ++ (p, w) ∷ rest)
IsChain-unlink cells p w e v [] rest chain = (
  chain.0,
  ground (arith, chain.2),
  ground (arith, chain.2),
  IsChain-write _ null e none rest chain.3.2
      (IsChain-write cells null p _ rest (ground (arith, chain.2)) chain.3.3),
)
IsChain-unlink cells p w e v (y ∷ ys) rest chain =
    let links : start null (ys ++ (p, w) ∷ (e, v) ∷ rest) ≡ start null (ys ++ (p, w) ∷ rest) =
      start-append null ys _ ∙ sym (start-append null ys _) in
    (
      chain.0,
      ground (arith, links, chain.1, chain.2, has-append y.0 ys ((p, w) ∷ (e, v) ∷ rest)),
      ground (
        arith,
        chain.2,
        has-append y.0 ys ((p, w) ∷ (e, v) ∷ rest),
        has-append y.0 ys ((p, w) ∷ rest),
      ),
      IsChain-unlink cells p w e v ys rest chain.3,
    )

pub append-shift : (ys : Row) (x : ℕ × ℕ) (rest : Row) → (ys ++ x ∷ []) ++ rest ≡ ys ++ x ∷ rest
append-shift [] x rest = refl
append-shift (y ∷ ys) x rest = ap (λ (t : Row). y ∷ t) (append-shift ys x rest)
