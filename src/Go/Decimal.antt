-- ===== src/Go/Decimal.antt =====
-- `fmt`'s `%v` of an unsigned integer, and `strconv.ParseUint(_, 10, _)` by the largest number of the
-- size.
use proxyreverse.Prelude.{
  ℕ, zero, suc, ◌+◌, ◌-◌, ◌*◌, ◌/◌, ◌%◌, ◌<◌, ◌≤◌, ◌≡◌, refl, Option, none, some, [], ◌∷◌, ◌++◌,
  arith, Text, ltb, leb, ◌&&◌, if◌then◌else◌, Bool-cases, inl, inr, Bool, ◌⊎◌, All, All-append,
  All-imp, ◌∙◌, ◌≢◌,
}
use proxyreverse.Go.Split.{Lacks}
use proxyreverse.Go.HostPort.{IsPlain}
use mathlib.Core.List.{append_assoc, append-nil}

pub data NumError : Type 0 where
  syntax range : NumError

abbrev pub max_uint16 : ℕ
max_uint16 = 65535

is_digit : ℕ → Bool
is_digit c = leb 48 c && leb c 57

-- The value comes back beside the error: 0 for a syntax error, the largest number for one of range.
parse_digits : ℕ → ℕ → Text → ℕ × Option NumError
parse_digits max n [] = (n, none)
parse_digits max n (c ∷ s) =
    let n' = n * 10 + (c - 48) in
    let rest = parse_digits max n' s in
    if is_digit c then (if ltb max n' then (max, some range) else rest) else (0, some syntax)

unfoldable pub parse_uint : ℕ → Text → ℕ × Option NumError
unfolding is_digit parse_digits
parse_uint max [] = (0, some syntax)
parse_uint max (c ∷ s) = parse_digits max 0 (c ∷ s)

unfoldable pub parse_uint16 : Text → ℕ × Option NumError
unfolding parse_uint
parse_uint16 s = parse_uint max_uint16 s

-- Digits of `n`, with fuel above `n`.
decimal_from : ℕ → ℕ → Text
decimal_from zero n = []
decimal_from (suc f) n =
    let higher = decimal_from f (n / 10) in
    if ltb n 10 then (48 + n) ∷ [] else higher ++ ((48 + n % 10) ∷ [])

unfoldable pub decimal : ℕ → Text
unfolding decimal_from
decimal n = decimal_from (suc n) n

parse_digits-step :
    (max n d m : ℕ) (s : Text)
    → d < 10
    → m ≡ n * 10 + d
    → m ≤ max
    → parse_digits max n ((48 + d) ∷ s) ≡ parse_digits max m s
unfolding parse_digits is_digit
parse_digits-step max n d m s h e k =
    let e' : n * 10 + (48 + d - 48) ≡ m = omega arith in rw e' (ground arith)

parse_digits-decimal_from :
    (max f n : ℕ) (s : Text)
    → n < f
    → n ≤ max
    → parse_digits max 0 (decimal_from f n ++ s) ≡ parse_digits max n s
unfolding decimal_from
parse_digits-decimal_from max zero n s h k = elim h [ ]
parse_digits-decimal_from max (suc f) n s h k = elim (Bool-cases (ltb n 10)) [
  | inl small ↦ rw small (parse_digits-step max 0 n n s (ground arith) (omega arith) k)
  | inr large ↦ rw large (
      rw append_assoc (
        parse_digits-decimal_from max f (n / 10) ((48 + n % 10) ∷ s) (ground arith) (omega arith)
        ∙ parse_digits-step max (n / 10) (n % 10) n s (omega arith) (omega arith) k))
]

-- Every byte of a decimal number is a digit.
All-decimal_from : (f n : ℕ) → All (λ c. (48 ≤ c) × (c ≤ 57)) (decimal_from f n)
unfolding decimal_from
All-decimal_from zero n = tt
All-decimal_from (suc f) n = elim (Bool-cases (ltb n 10)) [
  | inl small ↦ rw small (ground arith)
  | inr large ↦ rw large (
      All-append (λ c. (48 ≤ c) × (c ≤ 57)) (decimal_from f (n / 10)) ((48 + n % 10) ∷ [])
        (All-decimal_from f (n / 10)) (omega arith))
]

pub decimal-Lacks : (b n : ℕ) → (b < 48) ⊎ (57 < b) → Lacks b (decimal n)
unfolding decimal
decimal-Lacks b n h =
    All-imp (λ c. (48 ≤ c) × (c ≤ 57)) (λ c. c ≢ b) (λ c k. omega arith) (decimal_from (suc n) n)
      (All-decimal_from (suc n) n)

decimal_from-ne-nil : (f n : ℕ) → n < f → decimal_from f n ≢ []
unfolding decimal_from
decimal_from-ne-nil zero n h = elim h [ ]
decimal_from-ne-nil (suc f) n h =
    elim (decimal_from f (n / 10))
      as (λ (l : Text). (if ltb n 10 then (48 + n) ∷ [] else l ++ ((48 + n % 10) ∷ [])) ≢ []) [
        | [] ↦ ground arith
        | c ∷ s ↦ ground arith
      ]

pub decimal-ne-nil : (n : ℕ) → decimal n ≢ []
unfolding decimal
decimal-ne-nil n = decimal_from-ne-nil (suc n) n (omega arith)

parse_uint-eq : (max : ℕ) (s : Text) → s ≢ [] → parse_uint max s ≡ parse_digits max 0 s
unfolding parse_uint
parse_uint-eq max [] h = absurd (h refl)
parse_uint-eq max (c ∷ s) h = refl

-- Reading back a printed number of the size gives the number and no error.
pub parse_uint-decimal : (max n : ℕ) → n ≤ max → parse_uint max (decimal n) ≡ (n, none)
unfolding decimal
parse_uint-decimal max n h =
    parse_uint-eq max (decimal_from (suc n) n) (decimal_from-ne-nil (suc n) n (omega arith))
    ∙ rw (← append-nil (decimal_from (suc n) n))
        (unfold parse_digits in parse_digits-decimal_from max (suc n) n [] (omega arith) h)

pub parse_uint16-decimal : (n : ℕ) → n ≤ max_uint16 → parse_uint16 (decimal n) ≡ (n, none)
unfolding parse_uint16
parse_uint16-decimal n h = parse_uint-decimal max_uint16 n h

parse_digits-le : (max n : ℕ) (s : Text) → n ≤ max → (parse_digits max n s).0 ≤ max
unfolding parse_digits
parse_digits-le max n [] h = h
parse_digits-le max n (c ∷ s) h = ground (arith, parse_digits-le max (n * 10 + (c - 48)) s)

-- Whatever is read, with an error or not, the value is of the size.
parse_uint-le : (max : ℕ) (s : Text) → (parse_uint max s).0 ≤ max
unfolding parse_uint
parse_uint-le max [] = omega arith
parse_uint-le max (c ∷ s) = unfold parse_digits in parse_digits-le max 0 (c ∷ s) (omega arith)

pub parse_uint16-le : (s : Text) → (parse_uint16 s).0 ≤ max_uint16
unfolding parse_uint16
parse_uint16-le s = parse_uint-le max_uint16 s

pub decimal-IsPlain : (n : ℕ) → IsPlain (decimal n)
decimal-IsPlain n = (
  decimal-Lacks b':' n (inr (omega arith)),
  decimal-Lacks b'[' n (inr (omega arith)),
  decimal-Lacks b']' n (inr (omega arith)),
)
