-- ===== src/Clib/Padded.antt =====
-- The conversion `%0nd`: a number behind zeros.
use zmqtests.Base.{
  ℕ, zero, suc, ◌-◌, ◌^◌, ◌<◌, ◌≤◌, ◌≡◌, refl, ap, ◌∙◌, [], ◌∷◌, ◌++◌, length, length-append, arith,
}
use zmqtests.Base.Int.{ℤ, pos, negsuc, pos_part, neg_part}
use zmqtests.Base.Text.{Bytes}
use zmqtests.Clib.Decimal.{
  magnitude, scan, atoi, length-digits, magnitude-IsNumeral, IsNumeral, signed_IsNumeral,
  scan-digits,
}

unfoldable pub zeros : ℕ → Bytes
zeros zero = []
zeros (suc n) = b'0' ∷ zeros n

-- `%0wd`: at least `w` bytes, the sign among them.
unfoldable pub padded : ℕ → ℤ → Bytes
unfolding zeros
padded w (pos n) = zeros (w - length (magnitude n)) ++ magnitude n
padded w (negsuc n) = b'-' ∷ zeros (w - 1 - length (magnitude (suc n))) ++ magnitude (suc n)

length-zeros : (n : ℕ) → length (zeros n) ≡ n
unfolding zeros
length-zeros zero = refl
length-zeros (suc n) = ground (arith, length-zeros n)

-- Two bytes or more are enough for a number of `suc k` digits and its sign.
pub length-padded :
    (w k : ℕ) (z : ℤ)
    → w ≤ suc (suc k)
    → pos_part z < 10 ^ suc k
    → neg_part z < 10 ^ suc k
    → length (padded w z) ≤ suc (suc k)
unfolding padded
length-padded w k (pos m) h p n = omega (
  arith,
  length-append (zeros (w - length (magnitude m))) (magnitude m),
  length-zeros (w - length (magnitude m)),
  length-digits k (suc m) m [] p,
)
length-padded w k (negsuc m) h p n = omega (
  arith,
  length-append (zeros (w - 1 - length (magnitude (suc m)))) (magnitude (suc m)),
  length-zeros (w - 1 - length (magnitude (suc m))),
  length-digits k (suc (suc m)) (suc m) [] n,
)

-- A number of at most `w` digits fills exactly `w` bytes.
pub length-padded_exact : (w n : ℕ) → n < 10 ^ suc w → length (padded (suc w) (pos n)) ≡ suc w
unfolding padded
length-padded_exact w n h = omega (
  arith,
  length-append (zeros (suc w - length (magnitude n))) (magnitude n),
  length-zeros (suc w - length (magnitude n)),
  length-digits w (suc n) n [] h,
)

zeros-IsNumeral : (k : ℕ) (s : Bytes) → IsNumeral s → IsNumeral (zeros k ++ s)
unfolding zeros
zeros-IsNumeral zero s d = d
zeros-IsNumeral (suc k) s d = record {
  first = b'0';
  others = zeros k ++ s;
  spelled = refl;
  digit = ground arith;
}

scan-zeros : (k : ℕ) (s : Bytes) → scan 0 (zeros k ++ s) ≡ scan 0 s
unfolding zeros scan
scan-zeros zero s = refl
scan-zeros (suc k) s = ground (arith, scan-zeros k s)

-- The zeros do not change what is read back.
pub atoi-padded : (w n : ℕ) → atoi (padded w (pos n)) ≡ pos n
unfolding padded scan
atoi-padded w n =
    let k = w - length (magnitude n) in
    signed_IsNumeral (zeros k ++ magnitude n)
      (zeros-IsNumeral k (magnitude n) (magnitude-IsNumeral n))
    ∙ ap pos (scan-zeros k (magnitude n) ∙ scan-digits (suc n) n [] (omega arith))
