-- ===== src/Params/Names.antt =====
-- How a chain of tests reads an option in full: the tests before it and behind it do not match.
use zmqtests.Base.{
  ap, ◌∙◌, suc, ◌≡◌, refl, Bool, true, false, not, ◌&&◌, List, [], ◌∷◌, ◌++◌, ◌==◌, leb, arith,
}
use mathlib.Core.Path.{subst}
use zmqtests.Base.Int.{is_int, ℤ, pos, negsuc}
use zmqtests.Base.Text.{Bytes}
use zmqtests.Clib.Compare.{strncasecmp, to_lower}
use zmqtests.Clib.Decimal.{atoi, decimal, atoi-decimal, magnitude, IsNumeral, magnitude-IsNumeral}
use zmqtests.Params.{Rule, flag, number, text, parsed, is_match, take_number, try, try_all}
use zmqtests.Params.Line.{Item, bare, valued, Reads, Fails, AllTried, then_either}

-- A dash and a letter.
abbrev pub is_option : Bytes → Bool
is_option [] = false
is_option (a ∷ []) = false
is_option (a ∷ b ∷ name) = a == b'-' && leb b'a' b

-- No option is taken for a printed number.
numeral_misses :
    (name : Bytes) (s : Bytes) → is_option name ≡ true → IsNumeral s → is_match name s ≡ false
unfolding strncasecmp to_lower
numeral_misses [] s o d = ground arith
numeral_misses (a ∷ []) s o d = ground arith
numeral_misses (a ∷ b ∷ name) s o d = rw (d.spelled) (ground (arith, d.digit))

minus_misses :
    (name : Bytes) (s : Bytes)
    → is_option name ≡ true
    → IsNumeral s
    → is_match name (b'-' ∷ s) ≡ false
unfolding strncasecmp to_lower
minus_misses [] s o d = ground arith
minus_misses (a ∷ []) s o d = ground arith
minus_misses (a ∷ b ∷ name) s o d = rw (d.spelled) (ground (arith, d.digit))

module _ {O : Type 0} where
  abbrev pub name_of : Rule O → Bytes
  name_of (flag name set) = name
  name_of (number name set) = name
  name_of (text name set) = name

  -- No test matches the argument.
  unfoldable pub misses : List (Rule O) → Bytes → Bool
  unfolding strncasecmp
  misses [] a = true
  misses (rule ∷ rules) a = not (is_match (name_of rule) a) && misses rules a

  unfoldable pub are_options : List (Rule O) → Bool
  are_options [] = true
  are_options (rule ∷ rules) = is_option (name_of rule) && are_options rules

  try_all-misses :
      (rules : List (Rule O)) (o : O) (a : Bytes) (rest : List Bytes)
      → misses rules a ≡ true
      → try_all rules o (a ∷ rest) ≡ parsed (o, a ∷ rest)
  unfolding try_all try misses
  try_all-misses [] o a rest m = refl
  try_all-misses (rule ∷ rules) o a rest m = ground (arith, try_all-misses rules o a rest)

  try_all-skip :
      (before after : List (Rule O)) (o : O) (a : Bytes) (rest : List Bytes)
      → misses before a ≡ true
      → try_all (before ++ after) o (a ∷ rest) ≡ try_all after o (a ∷ rest)
  unfolding try_all try misses
  try_all-skip [] after o a rest m = refl
  try_all-skip (rule ∷ before) after o a rest m = ground (arith, try_all-skip before after o a rest)

  pub flag-Reads :
      (before after : List (Rule O)) (name : Bytes) (set : O → O)
      → misses before name ≡ true
      → is_match name name ≡ true
      → misses after name ≡ true
      → Reads (before ++ flag name set ∷ after) (bare name set)
  unfolding try_all try
  flag-Reads before after name set b m a o rest = ground (
    arith,
    try_all-skip before (flag name set ∷ after) o name rest,
    try_all-misses after (set o) name rest,
  )

  pub number-Reads :
      (before after : List (Rule O)) (name v : Bytes) (set : ℤ → O → O)
      → misses before name ≡ true
      → is_match name name ≡ true
      → misses after v ≡ true
      → is_int (atoi v) ≡ true
      → Reads (before ++ number name set ∷ after) (valued name v (set (atoi v)))
  unfolding try_all try take_number
  number-Reads before after name v set b m a int o rest = ground (
    arith,
    try_all-skip before (number name set ∷ after) o name (v ∷ rest),
    try_all-misses after (set (atoi v) o) v rest,
  )

  number-Fails :
      (before after : List (Rule O)) (name v : Bytes) (set : ℤ → O → O) (to : O → O)
      → misses before name ≡ true
      → is_match name name ≡ true
      → is_int (atoi v) ≡ false
      → Fails (before ++ number name set ∷ after) (valued name v to)
  unfolding try_all try take_number
  number-Fails before after name v set to b m large o rest =
      try_all-skip before (number name set ∷ after) o name (v ∷ rest) b ∙ ground (arith, m, large)

  pub text-Reads :
      (before after : List (Rule O)) (name v : Bytes) (set : Bytes → O → O)
      → misses before name ≡ true
      → is_match name name ≡ true
      → misses after v ≡ true
      → Reads (before ++ text name set ∷ after) (valued name v (set v))
  unfolding try_all try
  text-Reads before after name v set b m a o rest = ground (
    arith,
    try_all-skip before (text name set ∷ after) o name (v ∷ rest),
    try_all-misses after (set v o) v rest,
  )

  pub misses-decimal :
      (rules : List (Rule O)) (z : ℤ) → are_options rules ≡ true → misses rules (decimal z) ≡ true
  unfolding misses are_options decimal
  misses-decimal [] z h = refl
  misses-decimal (rule ∷ rules) (pos n) h = ground (
    arith,
    numeral_misses (name_of rule) (magnitude n) _ (magnitude-IsNumeral n),
    misses-decimal rules (pos n),
  )
  misses-decimal (rule ∷ rules) (negsuc n) h = ground (
    arith,
    minus_misses (name_of rule) (magnitude (suc n)) _ (magnitude-IsNumeral (suc n)),
    misses-decimal rules (negsuc n),
  )

  -- An option with a printed number of type `int` sets that number.
  pub decimal-Reads :
      (before after : List (Rule O)) (name : Bytes) (set : ℤ → O → O) (z : ℤ)
      → misses before name ≡ true
      → is_match name name ≡ true
      → are_options after ≡ true
      → is_int z ≡ true
      → Reads (before ++ number name set ∷ after) (valued name (decimal z) (set z))
  decimal-Reads before after name set z b m a int =
      subst (λ k. Reads (before ++ number name set ∷ after) (valued name (decimal z) (set k)))
        (atoi-decimal z)
        (number-Reads before after name (decimal z) set b m (misses-decimal after z a)
          (ap is_int (atoi-decimal z) ∙ int))

  pub decimal-AllTried :
      (before after : List (Rule O)) (name : Bytes) (set : ℤ → O → O) (z : ℤ) (ok : Bool)
      (items : List (Item O))
      → misses before name ≡ true
      → is_match name name ≡ true
      → are_options after ≡ true
      → AllTried (before ++ number name set ∷ after) ok items
      → AllTried
          (before ++ number name set ∷ after)
          (is_int z && ok)
          (valued name (decimal z) (set z) ∷ items)
  decimal-AllTried before after name set z ok items b m a tried =
      then_either (is_int z) (decimal-Reads before after name set z b m a)
        (λ large.
          number-Fails before after name (decimal z) set (set z) b m
            (ap is_int (atoi-decimal z) ∙ large))
        tried
