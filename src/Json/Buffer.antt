-- ===== src/Json/Buffer.antt =====
-- The growable buffer of json.c. The other modules take a buffer for the list of its bytes.
pub mod Spelled
use frostlake_pdo.Prelude.{
  Bool, Bool-cases, Bytes, Option, [], ap, arith, false, if◌then◌else◌, inl, inr, leb, length,
  length-append_bytes, ltb, max, none, refl, some, suc, true, zero, ℕ, ◌%◌, ◌*◌, ◌++◌, ◌+◌, ◌<◌,
  ◌==◌, ◌^◌, ◌∙◌, ◌≡◌, ◌≤◌, ◌⊎◌,
}

-- fl_strbuf: the bytes before its NUL, and its capacity.
pub record Buffer : Type 0 where
  pub contents : Bytes
  pub capacity : ℕ

-- `fl_strbuf_init`
unfoldable pub strbuf_init : Buffer
strbuf_init = record { contents = []; capacity = 0 }

-- `fl_strbuf_free`
unfoldable pub strbuf_free : Buffer → Buffer
unfolding strbuf_init
strbuf_free b = strbuf_init

-- The loop of `strbuf_reserve`, on a size_t of 64 bits. 64 rounds double 1 beyond every size.
unfoldable pub grow : ℕ → ℕ → ℕ → Option ℕ
grow zero need wanted = if ltb wanted need then none else some wanted
grow (suc rounds) need wanted =
    let more = grow rounds need (wanted * 2 % 2 ^ 64) in
    if ltb wanted need then more else some wanted

abbrev pub first_capacity : ℕ → ℕ
first_capacity capacity = if capacity == 0 then 256 else capacity

-- `realloc`, which gives the memory or does not.
abbrev pub realloc_to : (ℕ → Bool) → Buffer → Option ℕ → Bool × Buffer
realloc_to grants b none = (false, b)
realloc_to grants b (some wanted) =
    if grants wanted then (true, record b { capacity = wanted }) else (false, b)

-- `strbuf_reserve`
unfoldable pub strbuf_reserve : (ℕ → Bool) → ℕ → Buffer → Bool × Buffer
unfolding grow
strbuf_reserve grants extra b =
    let need = (length b.contents + extra + 1) % 2 ^ 64 in
    if leb need b.capacity
    then (true, b)
    else realloc_to grants b (grow 64 need (first_capacity b.capacity))

abbrev pub append_reserved : Bytes → Bool × Buffer → Bool × Buffer
append_reserved added (true, b) = (true, record b { contents = b.contents ++ added })
append_reserved added (false, b) = (false, b)

-- `fl_strbuf_append_len`, and `fl_strbuf_append` of a C string.
unfoldable pub strbuf_append : (ℕ → Bool) → Bytes → Buffer → Bool × Buffer
unfolding strbuf_reserve
strbuf_append grants added b = append_reserved added (strbuf_reserve grants (length added) b)

-- What an appending call leaves: the bytes with those added behind them and room for the NUL, in a
-- capacity of no more than 256 or the old one, or of less than twice what is needed; or the buffer as
-- it was, where an allocation was refused.
abbrev pub Extended : (ℕ → Bool) → Bytes → Buffer → Bool × Buffer → Type 0
Extended grants added before (true, b) =
    (b.contents ≡ before.contents ++ added)
    × (length b.contents < b.capacity)
    × ((b.capacity ≤ max 256 before.capacity) ⊎ (b.capacity < 2 * (length b.contents + 1)))
Extended grants added before (false, b) = (b ≡ before) × (n : ℕ) × (grants n ≡ false)

-- What so many rounds of doubling give.
abbrev pub doubled_times : ℕ → ℕ → ℕ
doubled_times zero w = w
doubled_times (suc rounds) w = doubled_times rounds (w * 2)

pub doubled_times-le : (rounds v w : ℕ) → v ≤ w → doubled_times rounds v ≤ doubled_times rounds w
doubled_times-le zero v w h = h
doubled_times-le (suc rounds) v w h = doubled_times-le rounds (v * 2) (w * 2) (omega arith)

abbrev pub Grown : ℕ → ℕ → Option ℕ → Type 0
Grown need wanted none = ⊥
Grown need wanted (some w) = (need ≤ w) × ((w ≤ wanted) ⊎ (w < 2 * need))

same_size : (w : ℕ) → w < 2 ^ 63 → w * 2 % 2 ^ 64 ≡ w * 2
same_size w h = ground arith

Grown-later :
    (need wanted : ℕ) (r : Option ℕ)
    → wanted < need
    → Grown need (wanted * 2) r
    → Grown need wanted r
Grown-later need wanted none h g = g
Grown-later need wanted (some w) h g = (g.0, inr (ground (arith, g.1)))

pub grow-Grown :
    (rounds need wanted : ℕ)
    → need ≤ 2 ^ 63
    → need ≤ doubled_times rounds wanted
    → Grown need wanted (grow rounds need wanted)
unfolding grow
grow-Grown zero need wanted small h = elim (Bool-cases (ltb wanted need)) [
  | inl less ↦ absurd (ground arith)
  | inr enough ↦ rw enough (ground arith, inl (omega arith))
]
grow-Grown (suc rounds) need wanted small h = elim (Bool-cases (ltb wanted need)) [
  | inl less ↦
      rw (less, same_size wanted (ground arith))
        (Grown-later need wanted _ (ground arith) (grow-Grown rounds need (wanted * 2) small h))
  | inr enough ↦ rw enough (ground arith, inl (omega arith))
]

abbrev Reserved : (ℕ → Bool) → ℕ → Buffer → Bool × Buffer → Type 0
Reserved grants need before (true, b) =
    (b.contents ≡ before.contents)
    × (need ≤ b.capacity)
    × ((b.capacity ≤ max 256 before.capacity) ⊎ (b.capacity < 2 * need))
Reserved grants need before (false, b) = (b ≡ before) × (n : ℕ) × (grants n ≡ false)

pub first_capacity-le : (c : ℕ) → (1 ≤ first_capacity c) × (first_capacity c ≤ max 256 c)
first_capacity-le c = ground arith

within_first :
    (c w need : ℕ) → ((w ≤ first_capacity c) ⊎ (w < 2 * need)) → ((w ≤ max 256 c) ⊎ (w < 2 * need))
within_first c w need (inl h) = inl (omega (arith, h, (first_capacity-le c).1))
within_first c w need (inr h) = inr h

module _ (grants : ℕ → Bool) where
  realloc_to-Reserved :
      (need : ℕ) (b : Buffer) (r : Option ℕ)
      → Grown need (first_capacity b.capacity) r
      → Reserved grants need b (realloc_to grants b r)
  realloc_to-Reserved need b none g = absurd g
  realloc_to-Reserved need b (some w) g = elim (Bool-cases (grants w)) [
    | inl granted ↦ rw granted (refl, g.0, within_first b.capacity w need g.1)
    | inr denied ↦ rw denied (refl, w, denied)
  ]

  reserve_need :
      (need : ℕ) (b : Buffer)
      → need ≤ 2 ^ 63
      → Reserved grants need b (
          if leb need b.capacity
          then (true, b)
          else realloc_to grants b (grow 64 need (first_capacity b.capacity)))
  reserve_need need b small = elim (Bool-cases (leb need b.capacity)) [
    | inl room ↦ rw room (refl, ground arith, inl (ground arith))
    | inr full ↦ rw full (
        realloc_to-Reserved need b _ (
          grow-Grown 64 need (first_capacity b.capacity) small (
            omega (
              arith,
              small,
              doubled_times-le 64 1 (first_capacity b.capacity) (first_capacity-le b.capacity).0,
            ))))
  ]

  small_need : (n : ℕ) → n ≤ 2 ^ 63 → n % 2 ^ 64 ≡ n
  small_need n h = ground arith

  strbuf_reserve-Reserved :
      (extra : ℕ) (b : Buffer)
      → length b.contents + extra + 1 ≤ 2 ^ 63
      → Reserved grants (length b.contents + extra + 1) b (strbuf_reserve grants extra b)
  unfolding strbuf_reserve
  strbuf_reserve-Reserved extra b small =
      rw (small_need (length b.contents + extra + 1) small)
        (reserve_need (length b.contents + extra + 1) b small)

  append_reserved-Extended :
      (added : Bytes) (before : Buffer) (r : Bool × Buffer)
      → Reserved grants (length before.contents + length added + 1) before r
      → Extended grants added before (append_reserved added r)
  append_reserved-Extended added before (true, b) h =
      let whole : length (b.contents ++ added) ≡ length before.contents + length added =
        length-append_bytes b.contents added ∙ ap (λ s. length s + length added) h.0 in
      (
        ap (λ s. s ++ added) h.0,
        omega (arith, h.1, whole),
        elim h.2 [ inl le ↦ inl le | inr lt ↦ inr (omega (arith, lt, whole)) ],
      )
  append_reserved-Extended added before (false, b) h = h

  -- Appending puts the bytes behind those that are there and leaves room for the NUL, in a capacity of
  -- no more than 256 or the old one, or of less than twice what is needed, and the loop that doubles
  -- it ends; or, only where an allocation was refused, it leaves the buffer as it was. What is needed
  -- is at most 2^63 bytes.
  pub strbuf_append-Extended :
      (added : Bytes) (b : Buffer)
      → length b.contents + length added + 1 ≤ 2 ^ 63
      → Extended grants added b (strbuf_append grants added b)
  unfolding strbuf_append
  strbuf_append-Extended added b small =
      append_reserved-Extended added b _ (strbuf_reserve-Reserved (length added) b small)
