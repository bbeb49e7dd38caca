-- ===== src/Links/Queries.antt =====
-- The reads of a list: each answers what its sequence answers.
use fake_linker.Prelude.{
  ℕ, zero, suc, ◌+◌, ◌<◌, ◌≡◌, refl, sym, ap, ◌∙◌, Bool, Option, none, some, List, [], ◌∷◌, arith,
  ◌==◌, if◌then◌else◌, length, any,
}
use mathlib.Core.Path.{subst}
use fake_linker.Namespace as Namespace
use fake_linker.Links.{
  null, Allocator, Store, LinkedList, front, back_loop, back, visit, find_if, copy_to_array,
  contains, size_loop, size,
}
use fake_linker.Links.Cells.{Row, start, elements, IsChain, length-elements}
use fake_linker.Links.Memory.{IsList, IsSequence}

abbrev pub last_of : Option ℕ → List ℕ → Option ℕ
last_of o [] = o
last_of o (v ∷ vs) = last_of (some v) vs

abbrev pub head_of : List ℕ → Option ℕ
head_of [] = none
head_of (v ∷ vs) = some v

-- The first element that passes a test.
abbrev pub first_that : (ℕ → Bool) → List ℕ → Option ℕ
first_that test [] = none
first_that test (v ∷ vs) = if test v then some v else first_that test vs

abbrev pub take : ℕ → List ℕ → List ℕ
take zero vs = []
take (suc n) [] = []
take (suc n) (v ∷ vs) = v ∷ take n vs

module _ (A : Allocator) where
  back_loop_lem :
      (fuel : ℕ) (s : Store A) (o : Option ℕ) (xs : Row)
      → IsChain s.cells null xs
      → length xs < fuel
      → back_loop A fuel s (start null xs) o ≡ some (last_of o (elements xs))
  unfolding back_loop
  back_loop_lem zero s o xs chain enough = absurd (omega arith)
  back_loop_lem (suc fuel) s o [] chain enough = refl
  back_loop_lem (suc fuel) s o ((a, v) ∷ xs) chain enough =
      ground (arith, chain.0, chain.1, back_loop_lem fuel s (some v) xs chain.3 (omega arith))

  visit_lem :
      (action : ℕ → Bool) (fuel : ℕ) (s : Store A) (xs : Row)
      → IsChain s.cells null xs
      → length xs < fuel
      → visit A action fuel s (start null xs) ≡ some (Namespace.visit action (elements xs))
  unfolding visit
  visit_lem action zero s xs chain enough = absurd (omega arith)
  visit_lem action (suc fuel) s [] chain enough = refl
  visit_lem action (suc fuel) s ((a, v) ∷ xs) chain enough =
      ground (arith, chain.0, chain.1, visit_lem action fuel s xs chain.3 (omega arith))

  find_if_lem :
      (test : ℕ → Bool) (fuel : ℕ) (s : Store A) (xs : Row)
      → IsChain s.cells null xs
      → length xs < fuel
      → find_if A test fuel s (start null xs) ≡ some (first_that test (elements xs))
  unfolding find_if
  find_if_lem test zero s xs chain enough = absurd (omega arith)
  find_if_lem test (suc fuel) s [] chain enough = refl
  find_if_lem test (suc fuel) s ((a, v) ∷ xs) chain enough =
      ground (arith, chain.0, chain.1, find_if_lem test fuel s xs chain.3 (omega arith))

  contains_lem :
      (fuel : ℕ) (s : Store A) (v : ℕ) (xs : Row)
      → IsChain s.cells null xs
      → length xs < fuel
      → contains A fuel s (start null xs) v ≡ some (any (λ e. e == v) (elements xs))
  unfolding contains
  contains_lem zero s v xs chain enough = absurd (omega arith)
  contains_lem (suc fuel) s v [] chain enough = refl
  contains_lem (suc fuel) s v ((a, w) ∷ xs) chain enough =
      ground (arith, chain.0, chain.1, contains_lem fuel s v xs chain.3 (omega arith))

  size_loop_lem :
      (fuel : ℕ) (s : Store A) (n : ℕ) (xs : Row)
      → IsChain s.cells null xs
      → length xs < fuel
      → size_loop A fuel s (start null xs) n ≡ some (n + length (elements xs))
  unfolding size_loop
  size_loop_lem zero s n xs chain enough = absurd (omega arith)
  size_loop_lem (suc fuel) s n [] chain enough = ground arith
  size_loop_lem (suc fuel) s n ((a, w) ∷ xs) chain enough =
      ground (arith, chain.0, chain.1, size_loop_lem fuel s (n + 1) xs chain.3 (omega arith))

  copy_to_array_lem :
      (fuel : ℕ) (s : Store A) (room : ℕ) (xs : Row)
      → IsChain s.cells null xs
      → length xs < fuel
      → copy_to_array A fuel s (start null xs) room ≡ some (take room (elements xs))
  unfolding copy_to_array
  copy_to_array_lem zero s room xs chain enough = absurd (omega arith)
  copy_to_array_lem (suc fuel) s zero xs chain enough = ground arith
  copy_to_array_lem (suc fuel) s (suc room) [] chain enough = ground arith
  copy_to_array_lem (suc fuel) s (suc room) ((a, w) ∷ xs) chain enough =
      ground (arith, chain.0, chain.1, copy_to_array_lem fuel s room xs chain.3 (omega arith))

  front_lem :
      (l : LinkedList A) (xs : Row)
      → IsChain l.store.cells null xs
      → l.head ≡ start null xs
      → front A l ≡ some (head_of (elements xs))
  unfolding front
  front_lem l [] chain head = ground (arith, head)
  front_lem l ((a, w) ∷ xs) chain head = ground (arith, chain.0, chain.1, head)

  -- What each read of a list answers, as one of its sequence.
  abbrev pub Answers : ℕ → LinkedList A → List ℕ → Type 0
  Answers fuel l vs =
      (front A l ≡ some (head_of vs))
      × (back A fuel l ≡ some (last_of none vs))
      × (size A fuel l ≡ some (length vs))
      × ((action : ℕ → Bool)
          → visit A action fuel l.store l.head ≡ some (Namespace.visit action vs))
      × ((test : ℕ → Bool) → find_if A test fuel l.store l.head ≡ some (first_that test vs))
      × ((v : ℕ) → contains A fuel l.store l.head v ≡ some (any (λ e. e == v) vs))
      × ((room : ℕ) → copy_to_array A fuel l.store l.head room ≡ some (take room vs))

  row-Answers :
      (fuel : ℕ) (l : LinkedList A) (xs : Row)
      → IsList A l xs
      → length xs < fuel
      → Answers fuel l (elements xs)
  unfolding back size
  row-Answers fuel l xs (ok, chain, head, tail) enough = (
    front_lem l xs chain head,
    ap (λ a. back_loop A fuel l.store a none) head
        ∙ back_loop_lem fuel l.store none xs chain enough,
    ap (λ a. size_loop A fuel l.store a 0) head
        ∙ size_loop_lem fuel l.store 0 xs chain enough
        ∙ ap (λ (n : ℕ). some n) (omega arith),
    λ action.
        ap (λ a. visit A action fuel l.store a) head
        ∙ visit_lem action fuel l.store xs chain enough,
    λ test.
        ap (λ a. find_if A test fuel l.store a) head
        ∙ find_if_lem test fuel l.store xs chain enough,
    λ v. ap (λ a. contains A fuel l.store a v) head ∙ contains_lem fuel l.store v xs chain enough,
    λ room.
        ap (λ a. copy_to_array A fuel l.store a room) head
        ∙ copy_to_array_lem fuel l.store room xs chain enough,
  )

  -- Every read of a list in memory ends without a fault, and answers what the list's sequence
  -- answers: its first and its last element, its length, the outcome of a visit, the first element
  -- that passes a test, whether an element is in it, and its first elements, as many as an array
  -- has room for. The fuel is above the length.
  pub queries-Answers :
      (fuel : ℕ) (l : LinkedList A) (vs : List ℕ)
      → IsSequence A l vs
      → length vs < fuel
      → Answers fuel l vs
  queries-Answers fuel l vs (xs, list, es) enough =
      let few : length xs < fuel =
        subst (λ n. n < fuel) (ap (λ (t : List ℕ). length t) (sym es) ∙ length-elements xs)
          enough in
      subst (Answers fuel l) es (row-Answers fuel l xs list few)
