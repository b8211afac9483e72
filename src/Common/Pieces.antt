-- ===== src/Common/Pieces.antt =====
-- Texts that are made of pieces with single bytes between them, and the pieces read back from them.
use zmqtests.Base.{ℕ, zero, suc, ◌+◌, ◌≡◌, refl, ap, ◌∙◌, [], ◌∷◌, ◌++◌, length, take, drop, arith}
use zmqtests.Base.Text.{Bytes}

take-append : (xs ys : Bytes) (n : ℕ) → length xs ≡ n → take n (xs ++ ys) ≡ xs
take-append [] ys zero h = refl
take-append [] ys (suc n) h = absurd (omega arith)
take-append (x ∷ xs) ys zero h = absurd (omega arith)
take-append (x ∷ xs) ys (suc n) h = ap (λ zs. x ∷ zs) (take-append xs ys n (omega arith))

drop-append : (xs ys : Bytes) (k m : ℕ) → m ≡ length xs + k → drop m (xs ++ ys) ≡ drop k ys
drop-append [] ys k m h = ap (λ n. drop n ys) (omega arith)
drop-append (x ∷ xs) ys k zero h = absurd (omega arith)
drop-append (x ∷ xs) ys k (suc m) h = drop-append xs ys k m (omega arith)

-- A text with single bytes between its pieces.
abbrev pub pieces : Bytes → Bytes → Bytes → Bytes → Bytes → ℕ → ℕ → ℕ → ℕ → Bytes
pieces hour min sec usec rest x y z t =
    hour ++ (x ∷ (min ++ (y ∷ (sec ++ (z ∷ (usec ++ (t ∷ rest)))))))

module _ (hour min sec usec rest : Bytes) (x y z t : ℕ) (h : length hour ≡ 2) (m : length min ≡ 2)
    (s : length sec ≡ 2) (u : length usec ≡ 6) where
  abbrev whole : Bytes
  whole = pieces hour min sec usec rest x y z t

  drop_hour :
      (k : ℕ) → drop (2 + k) whole ≡ drop k (x ∷ (min ++ (y ∷ (sec ++ (z ∷ (usec ++ (t ∷ rest)))))))
  drop_hour k = drop-append hour _ k (2 + k) (omega (arith, h))

  pub pieces-read :
      (take 2 whole ≡ hour)
      × (take 2 (drop 3 whole) ≡ min)
      × (take 2 (drop 6 whole) ≡ sec)
      × (take 6 (drop 9 whole) ≡ usec)
      × (drop 16 whole ≡ rest)
  pieces-read =
      let after_sec = z ∷ (usec ++ (t ∷ rest)) in
      let after_min = y ∷ (sec ++ after_sec) in
      let from_sec : drop 6 whole ≡ sec ++ after_sec =
        drop_hour 4 ∙ drop-append min after_min 1 3 (omega (arith, m)) in
      let from_usec : drop 9 whole ≡ usec ++ (t ∷ rest) =
        drop_hour 7
        ∙ drop-append min after_min 4 6 (omega (arith, m))
        ∙ drop-append sec after_sec 1 3 (omega (arith, s)) in
      (
        take-append hour _ 2 h,
        ap (take 2) (drop_hour 1) ∙ take-append min after_min 2 m,
        ap (take 2) from_sec ∙ take-append sec after_sec 2 s,
        ap (take 6) from_usec ∙ take-append usec (t ∷ rest) 6 u,
        drop_hour 14
            ∙ drop-append min after_min 11 13 (omega (arith, m))
            ∙ drop-append sec after_sec 8 10 (omega (arith, s))
            ∙ drop-append usec (t ∷ rest) 1 7 (omega (arith, u)),
      )
