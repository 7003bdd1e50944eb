-- ===== src/Json/Memory/Holds.antt =====
-- What it means that a call of the reader with its memory does as the reader without, and keeps the
-- accounts of its blocks, and how calls that do are put together.
-- It returns what the plain call returns and the blocks of it are live besides those before; or NULL,
-- with the blocks of before, where the plain call refuses or a request was refused.
use frostlake_pdo.Json.Memory.{
  Memory, Run, allocate, answer_request, any_at, moved, on_run, one_at, reallocate,
}
use frostlake_pdo.Json.Memory.Free.{Gives, Owns, Owns-same, plus, release_any-Gives}
use frostlake_pdo.Prelude.{
  Bool, Bool-cases, Option, Parsed, arith, false, if◌then◌else◌, inl, inr, none, out_of_fuel,
  parsed, refl, refused, some, subst, sym, true, ℕ, ◌>>=◌, ◌∙◌, ◌≡◌, ◌⊎◌,
}

pub data Reads {A B : Type 0} (own : ℕ → ℕ) (held : A → ℕ → ℕ) (seen : A → B) (p : Parsed B)
    : Run A → Type 0 where
  accounted :
      {a : A} {m : Memory}
      → Owns (plus (held a) own) m
      → p ≡ parsed (seen a)
      → Reads own held seen p (parsed a, m)
  given_up :
      {m : Memory}
      → Owns own m
      → (p ≡ refused) ⊎ (m.denied ≡ true)
      → Reads own held seen p (refused, m)
  ran_out : {m : Memory} → p ≡ out_of_fuel → Reads own held seen p (out_of_fuel, m)

still_refused :
    {B D : Type 0} {p : Parsed B} (f : B → Parsed D) (m m' : Memory)
    → m'.denied ≡ m.denied
    → (p ≡ refused) ⊎ (m.denied ≡ true)
    → ((p >>= f) ≡ refused) ⊎ (m'.denied ≡ true)
still_refused f m m' same (inl e) = inl (rw e)
still_refused f m m' same (inr d) = inr (same ∙ d)

pub on_run-Reads :
    {A B C D : Type 0} {K L : ℕ → ℕ} {held : A → ℕ → ℕ} {seen : A → B} {held' : C → ℕ → ℕ}
    {seen' : C → D} {go_on : A → Memory → Run C} {clean_up : Memory → Memory} {p : Parsed B}
    {r : Run A} (f : B → Parsed D)
    → Reads K held seen p r
    → ((a : A) (m : Memory)
        → Owns (plus (held a) K) m
        → Reads L held' seen' (f (seen a)) (go_on a m))
    → ((m : Memory) → Owns K m → Gives L m (clean_up m))
    → Reads L held' seen' (p >>= f) (on_run go_on clean_up r)
on_run-Reads {L} {held'} {seen'} {go_on} f (accounted {a} {m} h e) k c =
    subst (λ q. Reads L held' seen' (q >>= f) (go_on a m)) (sym e) (k a m h)
on_run-Reads {clean_up} f (given_up {m} h why) k c =
    given_up (c m h).owned (still_refused f m (clean_up m) (c m h).same_denied why)
on_run-Reads f (ran_out e) k c = ran_out (rw e)

pub nothing_freed : {L : ℕ → ℕ} (m : Memory) → Owns L m → Gives L m m
nothing_freed m h = record { owned = h; same_denied = refl }

-- An allocation is a block more, of a size that was granted; or a request more that was refused.
pub data Allocated (grants : ℕ → ℕ → Bool) (size : ℕ) (after own : ℕ → ℕ)
    : Option ℕ × Memory → Type 0 where
  obtained :
      {a : ℕ} {m : Memory} (k : ℕ)
      → Owns (plus (one_at a) after) m
      → grants k size ≡ true
      → Allocated grants size after own (some a, m)
  unobtained :
      {m : Memory} → Owns own m → m.denied ≡ true → Allocated grants size after own (none, m)

module _ (grants : ℕ → ℕ → Bool) where
  answer_request-Allocated :
      (size : ℕ) {L : ℕ → ℕ} {m : Memory}
      → Owns L m
      → Allocated grants size L L (answer_request (grants m.asked size) m)
  answer_request-Allocated size {m} h = elim (Bool-cases (grants m.asked size)) [
    | inl granted ↦ rw granted (
        obtained m.asked (record { counts = λ n. omega (arith, h.counts n); sound = h.sound })
          granted)
    | inr denied ↦ rw denied (unobtained (record { counts = h.counts; sound = h.sound }) refl)
  ]

  pub allocate-Allocated :
      (size : ℕ) {L : ℕ → ℕ} {m : Memory}
      → Owns L m
      → Allocated grants size L L (allocate grants size m)
  unfolding allocate
  allocate-Allocated size h = answer_request-Allocated size h

  moved-Allocated :
      (old : Option ℕ) (size : ℕ) {L : ℕ → ℕ} {r : Option ℕ × Memory}
      → Allocated grants size (plus (any_at old) L) (plus (any_at old) L) r
      → Allocated grants size L (plus (any_at old) L) (moved old r)
  moved-Allocated old size (unobtained h d) = unobtained h d
  moved-Allocated old size {L} (obtained {a} k h granted) =
      obtained k
        (release_any-Gives old {L = plus (one_at a) L} (Owns-same h λ n. omega arith)).owned granted

  -- A block that moves.
  pub reallocate-Allocated :
      (old : Option ℕ) (size : ℕ) {L : ℕ → ℕ} {m : Memory}
      → Owns (plus (any_at old) L) m
      → Allocated grants size L (plus (any_at old) L) (reallocate grants old size m)
  unfolding reallocate
  reallocate-Allocated old size h = moved-Allocated old size (allocate-Allocated size h)

pub Reads-as :
    {A B : Type 0} {L : ℕ → ℕ} {held : A → ℕ → ℕ} {seen : A → B} {p q : Parsed B} {r : Run A}
    → p ≡ q
    → Reads L held seen q r
    → Reads L held seen p r
Reads-as e (accounted h k) = accounted h (e ∙ k)
Reads-as e (given_up h (inl k)) = given_up h (inl (e ∙ k))
Reads-as e (given_up h (inr d)) = given_up h (inr d)
Reads-as e (ran_out k) = ran_out (e ∙ k)

pub Reads-if :
    {A B : Type 0} {L : ℕ → ℕ} {held : A → ℕ → ℕ} {seen : A → B} {p q : Parsed B} {r t : Run A}
    (b : Bool)
    → Reads L held seen p r
    → Reads L held seen q t
    → Reads L held seen (if b then p else q) (if b then r else t)
Reads-if true h k = h
Reads-if false h k = k

pub bind-bind :
    {A B C : Type 0} (f : A → Parsed B) (g : B → Parsed C) (r : Parsed A)
    → ((r >>= f) >>= g) ≡ (r >>= λ x. f x >>= g)
bind-bind f g (parsed x) = refl
bind-bind f g refused = refl
bind-bind f g out_of_fuel = refl
