-- ===== src/Http/Client/Head.antt =====
-- The buffer that `http_request` prints the head of a request to.
use frostlake_pdo.Http.Client.{head_capacity, head_of, head_text}
use frostlake_pdo.Libc.{decimal, decimal_digits, decimal_nat}
use frostlake_pdo.Prelude.{
  Bool-cases, Bytes, [], ap, arith, inl, inr, length, lengths, ltb, pos, refl, suc, take, zero, ℕ,
  ◌%◌, ◌*◌, ◌+◌, ◌/◌, ◌<◌, ◌^◌, ◌∷◌, ◌≡◌, ◌≤◌,
}

abbrev ten_to : ℕ → ℕ
ten_to zero = 1
ten_to (suc k) = 10 * ten_to k

tenth : (n p : ℕ) → n < 10 * p → n / 10 < p
tenth n p h = ground arith

length-decimal_digits :
    (f k n : ℕ) (out : Bytes)
    → n < ten_to (suc k)
    → length (decimal_digits f n out) ≤ suc k + length out
unfolding decimal_digits
length-decimal_digits zero k n out h = omega arith
length-decimal_digits (suc f) zero n out h = elim (Bool-cases (ltb n 10)) [
  | inl small ↦ rw small (omega arith)
  | inr large ↦ absurd (ground arith)
]
length-decimal_digits (suc f) (suc k) n out h = elim (Bool-cases (ltb n 10)) [
  | inl small ↦ rw small (omega arith)
  | inr large ↦ rw large (
      omega (
        arith,
        length-decimal_digits f k (n / 10) ((b'0' + n % 10) ∷ out) (tenth n (ten_to (suc k)) h),
      ))
]

length-decimal : (k n : ℕ) → n < ten_to (suc k) → length (decimal (pos n)) ≤ suc k
unfolding decimal decimal_nat
length-decimal k n h = omega (arith, length-decimal_digits (suc n) k n [] h)

take-all : (n : ℕ) (s : Bytes) → length s ≤ n → take n s ≡ s
take-all zero [] h = refl
take-all zero (c ∷ s) h = absurd (omega arith)
take-all (suc n) [] h = refl
take-all (suc n) (c ∷ s) h = ap (λ t. c ∷ t) (take-all n s (omega arith))

length-head_text :
    (method path host : Bytes) (port body_length : ℕ)
    → port ≤ 65535
    → body_length < 2 ^ 64
    → length (head_text method path host port body_length) + 1 ≤ head_capacity method path host
length-head_text method path host port body_length hp hb =
    omega
      (lengths, length-decimal 4 port (omega arith), length-decimal 19 body_length (omega arith))

-- The buffer holds the whole head of a request, whatever its method, path and host, for a port of
-- 16 bits and a body that an address space holds: nothing of it is cut off.
pub head_of-head_text :
    (method path host : Bytes) (port body_length : ℕ)
    → port ≤ 65535
    → body_length < 2 ^ 64
    → head_of method path host port body_length ≡ head_text method path host port body_length
unfolding head_of
head_of-head_text method path host port body_length hp hb =
    take-all _ _ (omega (arith, length-head_text method path host port body_length hp hb))
