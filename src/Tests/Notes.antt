-- ===== src/Tests/Notes.antt =====
-- The theorem on properties, on a note with one property of four bytes.
use fake_linker.Prelude.{ℕ, ◌+◌, ◌≤◌, ◌≡◌, ◌≢◌, false, none, [], arith, ◌==◌, if◌then◌else◌}
use fake_linker.Notes.{Memory, parse}
use fake_linker.Notes.Ends.{parse-ne-none}

-- The header of the note at 0 with a description of 16 bytes, and at 16 a property of four bytes.
abbrev words : ℕ → ℕ
words a = if a == 4 then 16 else if a == 16 then 0xc0000000 else if a == 20 then 4 else 1

words-le : (a : ℕ) → (a == 4) ≡ false → (a == 16) ≡ false → words a ≤ 4
words-le a x y = ground (arith, x, y)

abbrev note : Memory
note = record { word_at = words; bytes_at = λ a n. [] }

parse-ne-none_example : parse note 0 3 ≢ none
parse-ne-none_example =
    parse-ne-none note 0 2 (omega arith)
      (λ o reached room.
        let few : words (0 + 16 + o + 4) ≤ 4 =
          words-le (0 + 16 + o + 4) (ground arith) (ground arith) in
        omega (arith, few))
      (omega arith)
