-- ===== src/Sql/Session/Words.antt =====
-- The fuel of the loop over a statement's words never decides.
use frostlake_pdo.Libc.{isspace}
use frostlake_pdo.Prelude.{
  Bool, Bool-cases, Bytes, [], ap, ap₂, arith, if◌then◌else◌, inl, inr, length, refl, suc, tail,
  true, zero, ℕ, ◌&&◌, ◌==◌, ◌||◌, ◌∷◌, ◌≡◌, ◌≤◌,
}
use frostlake_pdo.Sql.Numeric.{span}
use frostlake_pdo.Sql.Scan.{through_newline, through_pair}
use frostlake_pdo.Sql.Session.{
  follows, is_word_byte, leading_words, session_words, word, words_loop,
}

through_newline-le : (s : Bytes) → length (through_newline s).1 ≤ length s
unfolding through_newline
through_newline-le [] = omega arith
through_newline-le (c ∷ s) = ground (arith, through_newline-le s)

through_pair-le : (a b : ℕ) (s : Bytes) → length (through_pair a b s).1 ≤ length s
unfolding through_pair
through_pair-le a b [] = omega arith
through_pair-le a b (c ∷ []) = omega arith
through_pair-le a b (c ∷ d ∷ s) = ground (arith, through_pair-le a b (d ∷ s))

span-le : (test : ℕ → Bool) (s : Bytes) → length (span test s).1 ≤ length s
unfolding span
span-le test [] = omega arith
span-le test (c ∷ s) = ground (arith, span-le test s)

span-lt :
    (test : ℕ → Bool) (c : ℕ) (s : Bytes) → test c ≡ true → length (span test (c ∷ s)).1 ≤ length s
unfolding span
span-lt test c s e = rw e (span-le test s)

length-tail-le : (s : Bytes) → length (tail s) ≤ length s
length-tail-le [] = omega arith
length-tail-le (c ∷ s) = omega arith

words_loop-agrees :
    (f g room : ℕ) (s : Bytes)
    → length s ≤ f
    → length s ≤ g
    → words_loop f room s ≡ words_loop g room s
unfolding words_loop
words_loop-agrees zero zero room s hf hg = refl
words_loop-agrees zero (suc g) room (c ∷ s) hf hg = absurd (omega arith)
words_loop-agrees zero (suc g) zero [] hf hg = refl
words_loop-agrees zero (suc g) (suc room) [] hf hg = refl
words_loop-agrees (suc f) zero room (c ∷ s) hf hg = absurd (omega arith)
words_loop-agrees (suc f) zero zero [] hf hg = refl
words_loop-agrees (suc f) zero (suc room) [] hf hg = refl
words_loop-agrees (suc f) (suc g) zero s hf hg = refl
words_loop-agrees (suc f) (suc g) (suc room) [] hf hg = refl
words_loop-agrees (suc f) (suc g) (suc room) (c ∷ s) hf hg =
    let line = (through_newline (tail s)).1 in
    let comment = (through_pair b'*' b'/' (tail s)).1 in
    let shorter = length-tail-le s in
    let line_le = through_newline-le (tail s) in
    let comment_le = through_pair-le b'*' b'/' (tail s) in
    ap₂ (λ x y. if isspace c then x else y)
      (words_loop-agrees f g (suc room) s (omega arith) (omega arith))
      (ap₂ (λ x y. if (c == b'-' && follows b'-' s) || (c == b'/' && follows b'/' s) then x else y)
        (words_loop-agrees f g (suc room) line (omega (arith, shorter, line_le))
          (omega (arith, shorter, line_le)))
        (ap₂ (λ x y. if c == b'/' && follows b'*' s then x else y)
          (words_loop-agrees f g (suc room) comment (omega (arith, shorter, comment_le))
            (omega (arith, shorter, comment_le)))
          (elim (Bool-cases (is_word_byte c)) [
            | inr e ↦ rw e
            | inl e ↦
                let rest_le = span-lt is_word_byte c s e in
                rw e (
                  ap (◌∷◌ (word (span is_word_byte (c ∷ s)).0)) (
                    words_loop-agrees f g room (span is_word_byte (c ∷ s)).1
                      (omega (arith, rest_le)) (omega (arith, rest_le))))
          ])))

-- With any fuel from the length of the statement on, the loop gives the leading words.
pub words_loop-leading_words :
    (fuel : ℕ) (s : Bytes) → length s ≤ fuel → words_loop fuel session_words s ≡ leading_words s
unfolding leading_words
words_loop-leading_words fuel s h =
    words_loop-agrees fuel (length s) session_words s h (omega arith)
