-- ===== src/Links/Refines.antt =====
-- A list in memory behaves like a sequence.
use fake_linker.Prelude.{
  ℕ, suc, ◌+◌, ◌≤◌, ◌<◌, ◌≡◌, refl, Bool, Option, none, some, List, [], ◌∷◌, arith, ◌==◌, length,
  length-append,
}
use fake_linker.Namespace as Namespace
use fake_linker.Links.{Allocator, LinkedList, ◌>>=◌}
use fake_linker.Links as Links
use fake_linker.Links.Memory.{IsSequence}
use fake_linker.Links.Pushes.{push_front-IsSequence, push_back-IsSequence}
use fake_linker.Links.Takes.{first_of, pop_front-IsSequence, clear-IsSequence}
use fake_linker.Links.Removal.{remove_if-IsSequence}

-- The calls that change a list.
pub data Call : Type 0 where
  push_front : ℕ → Call
  push_back : ℕ → Call
  pop_front : Call
  remove : ℕ → Call
  clear : Call

-- What a call does to a sequence, and what it answers.
abbrev pub spec : Call → List ℕ → Option ℕ × List ℕ
spec (Call.push_front v) vs = (none, v ∷ vs)
spec (Call.push_back v) vs = (none, Namespace.push_back 0 v vs)
spec Call.pop_front vs = first_of vs
spec (Call.remove v) vs = (none, Namespace.remove_if (λ e. e == v) vs)
spec Call.clear vs = (none, [])

abbrev pub spec_all : List Call → List ℕ → List (Option ℕ) × List ℕ
spec_all [] vs = ([], vs)
spec_all (c ∷ cs) vs =
    let (o, vs') = spec c vs in let (os, last) = spec_all cs vs' in (o ∷ os, last)

module _ (A : Allocator) where
  abbrev pub silent : Option (LinkedList A) → Option (Option ℕ × LinkedList A)
  silent none = none
  silent (some l) = some (none, l)

  abbrev pub call : ℕ → Call → LinkedList A → Option (Option ℕ × LinkedList A)
  call fuel (Call.push_front v) l = some (none, Links.push_front A v l)
  call fuel (Call.push_back v) l = silent (Links.push_back A fuel v l)
  call fuel Call.pop_front l = Links.pop_front A l
  call fuel (Call.remove v) l = silent (Links.remove A v fuel l)
  call fuel Call.clear l = silent (Links.clear A fuel l)

  abbrev pub call_all : ℕ → List Call → LinkedList A → Option (List (Option ℕ) × LinkedList A)
  call_all fuel [] l = some ([], l)
  call_all fuel (c ∷ cs) l = call fuel c l >>= λ r.
      call_all fuel cs r.1 >>= λ (rest : List (Option ℕ) × LinkedList A).
      some (r.0 ∷ rest.0, rest.1)

  abbrev Simulates : ℕ → Call → LinkedList A → List ℕ → Type 0
  Simulates fuel c l vs =
      (l' : LinkedList A) × (call fuel c l ≡ some ((spec c vs).0, l'))
      × IsSequence A l' (spec c vs).1

  call_lem :
      (fuel : ℕ) (c : Call) (l : LinkedList A) (vs : List ℕ)
      → IsSequence A l vs
      → length vs < fuel
      → Simulates fuel c l vs
  unfolding Links.remove
  call_lem fuel (Call.push_front v) l vs is enough =
      (Links.push_front A v l, refl, push_front-IsSequence A v l vs is)
  call_lem fuel (Call.push_back v) l vs is enough =
      let (l', done, is') = push_back-IsSequence A fuel v l vs is enough in (l', rw done, is')
  call_lem fuel Call.pop_front l vs is enough = pop_front-IsSequence A l vs is
  call_lem fuel (Call.remove v) l vs is enough =
      let (l', done, is') = remove_if-IsSequence A (λ e. e == v) fuel l vs is enough in
      (l', rw done, is')
  call_lem fuel Call.clear l vs is enough =
      let (l', done, is') = clear-IsSequence A fuel l vs is enough in (l', rw done, is')

length-push_back : (v : ℕ) (vs : List ℕ) → length (Namespace.push_back 0 v vs) ≤ suc (length vs)
unfolding Namespace.push_back
length-push_back v vs = ground (arith, length-append vs (v ∷ []))

length-remove_if : (p : ℕ → Bool) (vs : List ℕ) → length (Namespace.remove_if p vs) ≤ length vs
unfolding Namespace.remove_if
length-remove_if p [] = omega arith
length-remove_if p (v ∷ vs) = ground (arith, length-remove_if p vs)

length-first_of : (vs : List ℕ) → length (first_of vs).1 ≤ length vs
length-first_of [] = omega arith
length-first_of (v ∷ vs) = omega arith

length-spec : (c : Call) (vs : List ℕ) → length (spec c vs).1 ≤ suc (length vs)
length-spec (Call.push_front v) vs = omega arith
length-spec (Call.push_back v) vs = length-push_back v vs
length-spec Call.pop_front vs = omega (arith, length-first_of vs)
length-spec (Call.remove v) vs = omega (arith, length-remove_if (λ e. e == v) vs)
length-spec Call.clear vs = omega arith

module _ (A : Allocator) where
  -- Any series of calls on a list in memory ends without a fault, answers what the same calls on a
  -- sequence answer, and leaves a list that stands for the sequence they leave: `push_front` puts
  -- an element in front, `push_back` behind unless it is there already, `pop_front` takes the
  -- first, `remove` all that are equal and `clear` every element. The fuel is above the list's
  -- length plus the number of calls.
  pub call_all-IsSequence :
      (fuel : ℕ) (cs : List Call) (l : LinkedList A) (vs : List ℕ)
      → IsSequence A l vs
      → length vs + length cs < fuel
      → (l' : LinkedList A) × (call_all A fuel cs l ≡ some ((spec_all cs vs).0, l'))
        × IsSequence A l' (spec_all cs vs).1
  call_all-IsSequence fuel [] l vs is enough = (l, refl, is)
  call_all-IsSequence fuel (c ∷ cs) l vs is enough =
      let (l1, done, is1) = call_lem A fuel c l vs is (omega arith) in
      let (l2, rest, is2) =
        call_all-IsSequence fuel cs l1 (spec c vs).1 is1 (omega (arith, length-spec c vs)) in
      (l2, rw (done, rest), is2)
