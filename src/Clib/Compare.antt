-- ===== src/Clib/Compare.antt =====
-- `strcasecmp` and `strncasecmp` on ASCII texts, as tests for 0.
use zmqtests.Base.{
  ℕ, zero, suc, ◌+◌, ◌≡◌, refl, ◌↔◌, Bool, true, false, ◌&&◌, [], ◌∷◌, ◌++◌, ◌==◌, leb, map, length,
  if◌then◌else◌, arith,
}
use zmqtests.Base.Text.{Bytes}

unfoldable pub to_lower : ℕ → ℕ
to_lower c = if leb b'A' c && leb c b'Z' then c + 32 else c

-- `strcasecmp (s, t) == 0`
unfoldable pub strcasecmp : Bytes → Bytes → Bool
unfolding to_lower
strcasecmp [] [] = true
strcasecmp [] (c ∷ t) = false
strcasecmp (c ∷ s) [] = false
strcasecmp (a ∷ s) (b ∷ t) = to_lower a == to_lower b && strcasecmp s t

-- `strncasecmp (s, t, n) == 0`
unfoldable pub strncasecmp : Bytes → Bytes → ℕ → Bool
unfolding to_lower
strncasecmp s t zero = true
strncasecmp [] [] (suc n) = true
strncasecmp [] (c ∷ t) (suc n) = false
strncasecmp (c ∷ s) [] (suc n) = false
strncasecmp (a ∷ s) (b ∷ t) (suc n) = to_lower a == to_lower b && strncasecmp s t n

-- `p` is a beginning of `s`.
abbrev pub IsPrefix : Bytes → Bytes → Type 0
IsPrefix p s = (r : Bytes) × (s ≡ p ++ r)

-- With the length of the second text as the bound, the test asks whether the second text is, without
-- case, a beginning of the first.
pub strncasecmp_iff :
    (s t : Bytes) → (strncasecmp s t (length t) ≡ true) ↔ IsPrefix (map to_lower t) (map to_lower s)
unfolding strncasecmp
strncasecmp_iff s [] = (λ e. (map to_lower s, refl), λ p. refl)
strncasecmp_iff [] (b ∷ t) = (λ e. absurd (ground arith), λ (r, e). ground arith)
strncasecmp_iff (a ∷ s) (b ∷ t) =
    let ih = strncasecmp_iff s t in
    (
      λ e. let (r, q) = ih.0 (ground arith) in (r, ground arith),
      λ (r, e). ground (arith, ih.1 (r, ground arith)),
    )
