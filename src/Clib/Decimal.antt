-- ===== src/Clib/Decimal.antt =====
-- `atoi` and the conversion `%d`, on integers without a bound: where `atoi` meets a number that is no
-- `int`, its result is undefined.
use zmqtests.Base.{
  ℕ, zero, suc, ◌+◌, ◌-◌, ◌*◌, ◌/◌, ◌%◌, ◌^◌, ◌<◌, ◌≤◌, ◌≡◌, refl, Bool, true, ◌&&◌, ◌||◌, [], ◌∷◌,
  ◌==◌, ltb, leb, length, if◌then◌else◌, Bool-cases, inl, inr, arith,
}
use native.Mathlib.Numerals.{unary_clauses}
use zmqtests.Base.Int.{ℤ, pos, negsuc, pos_part, neg_part}
use zmqtests.Base.Text.{Bytes}

abbrev pub is_digit : ℕ → Bool
is_digit c = leb b'0' c && leb c b'9'

-- `isspace` of the C locale.
abbrev pub is_space : ℕ → Bool
is_space c = c == 32 || (leb 9 c && leb c 13)

-- The digits, read behind `n`.
unfoldable pub scan : ℕ → Bytes → ℕ
scan n [] = n
scan n (c ∷ s) = if is_digit c then scan (n * 10 + (c - b'0')) s else n

abbrev pub negate : ℕ → ℤ
negate zero = pos 0
negate (suc n) = negsuc n

unfoldable pub signed : Bytes → ℤ
unfolding scan
signed [] = pos 0
signed (c ∷ s) =
    if c == b'-'
    then negate (scan 0 s)
    else if c == b'+'
    then pos (scan 0 s)
    else pos (scan 0 (c ∷ s))

unfoldable pub atoi : Bytes → ℤ
unfolding signed
atoi [] = pos 0
atoi (c ∷ s) = if is_space c then atoi s else signed (c ∷ s)

-- The digits of `n` before `out`; fuel above `n` is enough, since each round divides by ten.
unfoldable pub digits : ℕ → ℕ → Bytes → Bytes
digits zero n out = out
digits (suc fuel) n out =
    let rest = digits fuel (n / 10) ((b'0' + n % 10) ∷ out) in
    if ltb n 10 then (b'0' + n) ∷ out else rest

abbrev pub magnitude : ℕ → Bytes
magnitude n = digits (suc n) n []

-- `%d`
unfoldable pub decimal : ℤ → Bytes
unfolding digits
decimal (pos n) = magnitude n
decimal (negsuc n) = b'-' ∷ magnitude (suc n)

scan_digit : (n d : ℕ) (out : Bytes) → d < 10 → scan n ((b'0' + d) ∷ out) ≡ scan (n * 10 + d) out
unfolding scan
scan_digit n d out h = ground arith

pub scan-digits : (fuel n : ℕ) (out : Bytes) → n < fuel → scan 0 (digits fuel n out) ≡ scan n out
unfolding digits
scan-digits zero n out h = absurd (omega arith)
scan-digits (suc fuel) n out h = ground (
  arith,
  scan_digit 0 n out,
  scan_digit (n / 10) (n % 10) out,
  scan-digits fuel (n / 10) ((b'0' + n % 10) ∷ out),
)

-- A printed number begins with a digit.
pub record IsNumeral (s : Bytes) : Type 0 where
  pub first : ℕ
  pub others : Bytes
  pub spelled : s ≡ first ∷ others
  pub digit : is_digit first ≡ true

digits-IsNumeral : (fuel n : ℕ) (out : Bytes) → n < fuel → IsNumeral (digits fuel n out)
unfolding digits
digits-IsNumeral zero n out h = absurd (omega arith)
digits-IsNumeral (suc fuel) n out h = elim (Bool-cases (ltb n 10)) [
  | inl small ↦
      rw small (record { first = b'0' + n; others = out; spelled = refl; digit = ground arith })
  | inr large ↦ rw large (digits-IsNumeral fuel (n / 10) ((b'0' + n % 10) ∷ out) (ground arith))
]

pub signed_IsNumeral : (s : Bytes) → IsNumeral s → atoi s ≡ pos (scan 0 s)
unfolding atoi
signed_IsNumeral s d = rw (d.spelled) (ground (arith, d.digit))

pub magnitude-IsNumeral : (n : ℕ) → IsNumeral (magnitude n)
magnitude-IsNumeral n = digits-IsNumeral (suc n) n [] (omega arith)

-- Every integer is read back from its print.
pub atoi-decimal : (z : ℤ) → atoi (decimal z) ≡ z
unfolding decimal scan
atoi-decimal (pos n) =
    ground (arith, signed_IsNumeral (magnitude n) (magnitude-IsNumeral n), scan-digits (suc n) n [])
atoi-decimal (negsuc n) = unfold atoi in ground (arith, scan-digits (suc (suc n)) (suc n) [])

pow_step : (k : ℕ) → 10 ^ suc k ≡ 10 * 10 ^ k
pow_step k = simp unary_clauses (omega arith)

-- A number below 10 ^ k prints in k digits.
pub length-digits :
    (k fuel n : ℕ) (out : Bytes) → n < 10 ^ suc k → length (digits fuel n out) ≤ suc k + length out
unfolding digits
length-digits k zero n out h = omega arith
length-digits zero (suc fuel) n out h = ground arith
length-digits (suc k) (suc fuel) n out h =
    let smaller : n / 10 < 10 ^ suc k = omega (arith, pow_step (suc k)) in
    ground (arith, length-digits k fuel (n / 10) ((b'0' + n % 10) ∷ out))

-- An `int` prints in at most 11 bytes.
pub length-decimal : (z : ℤ) → pos_part z < 2 ^ 31 → neg_part z ≤ 2 ^ 31 → length (decimal z) ≤ 11
unfolding decimal
length-decimal (pos n) small big = omega (arith, length-digits 9 (suc n) n [] (omega arith))
length-decimal (negsuc n) small big =
    omega (arith, length-digits 9 (suc (suc n)) (suc n) [] (omega arith))
