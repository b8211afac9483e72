-- ===== src/Common/Lines.antt =====
-- The lines of `log_msg`: that they fit the arrays, and what can be read back from them.
use zmqtests.Base.{
  ℕ, zero, suc, ◌+◌, ◌^◌, ◌<◌, ◌≤◌, ◌≡◌, refl, ap, ◌∙◌, Option, none, some, [], ◌∷◌, ◌++◌, length,
  length-append, take, drop, arith,
}
use mathlib.Core.List.{append_assoc}
use zmqtests.Base.Int.{IsInt, ℤ, pos, pos_part, neg_part}
use zmqtests.Base.Text.{Bytes}
use zmqtests.Zmq.{done}
use zmqtests.Clib.Decimal.{atoi}
use zmqtests.Clib.Padded.{padded, length-padded, length-padded_exact, atoi-padded}
use zmqtests.Common.Pieces.{pieces, pieces-read}
use zmqtests.Common.{Clock, Printer, time_text, get_timestamp, formatted, log_msg}

-- A value of the type `int`, and of the type `long`.
abbrev pub IsLong : ℤ → Type 0
IsLong z = (pos_part z < 2 ^ 63) × (neg_part z ≤ 2 ^ 63)

length-two : (z : ℤ) → IsInt z → length (padded 2 z) ≤ 11
length-two z (p, n) = length-padded 2 9 z (omega arith) (omega arith) (omega arith)

length-six : (z : ℤ) → IsLong z → length (padded 6 z) ≤ 20
length-six z (p, n) = length-padded 6 18 z (omega arith) (omega arith) (omega arith)

length-time_text :
    (t : Clock)
    → length (time_text t)
      ≡ length (padded 2 t.tm_hour)
        + length (padded 2 t.tm_min)
        + length (padded 2 t.tm_sec)
        + length (padded 6 t.tv_usec)
        + 3
unfolding time_text
length-time_text t =
    let last = b'.' ∷ padded 6 t.tv_usec in
    let seconds = padded 2 t.tm_sec ++ last in
    let minutes = padded 2 t.tm_min ++ (b':' ∷ seconds) in
    let whole : length (time_text t) ≡ length (padded 2 t.tm_hour ++ (b':' ∷ minutes)) = refl in
    omega (
      arith,
      whole,
      length-append (padded 2 t.tm_hour) (b':' ∷ minutes),
      length-append (padded 2 t.tm_min) (b':' ∷ seconds),
      length-append (padded 2 t.tm_sec) last,
    )

module _ (t : Clock) (hour : IsInt t.tm_hour) (min : IsInt t.tm_min) (sec : IsInt t.tm_sec)
    (usec : IsLong t.tv_usec) where
  time_text-short : length (time_text t) ≤ 56
  time_text-short = omega (
    arith,
    length-time_text t,
    length-two t.tm_hour hour,
    length-two t.tm_min min,
    length-two t.tm_sec sec,
    length-six t.tv_usec usec,
  )

  get_timestamp-fits : get_timestamp t ≡ done (time_text t)
  unfolding get_timestamp
  get_timestamp-fits = ground (arith, time_text-short)

take-all : (n : ℕ) (xs : Bytes) → length xs ≤ n → take n xs ≡ xs
take-all zero [] h = refl
take-all zero (x ∷ xs) h = absurd (omega arith)
take-all (suc n) [] h = refl
take-all (suc n) (x ∷ xs) h = ap (λ ys. x ∷ ys) (take-all n xs (omega arith))

formatted-keeps :
    (print : Printer)
    → length (print 1024).text < 1024
    → formatted (some print) ≡ done (print 1024).text
unfolding formatted
formatted-keeps print kept =
    ground (arith, kept, take-all 1024 (print 1024).text (omega (arith, kept)))

log_msg-done :
    (format : Option Printer) (t : Clock) (temp stamp : Bytes)
    → formatted format ≡ done temp
    → get_timestamp t ≡ done stamp
    → log_msg format t ≡ done (stamp ++ (b'\t' ∷ (temp ++ b'\n' ∷ [])))
unfolding log_msg
log_msg-done format t temp stamp f g = ground (arith, f, g)

-- Whatever `int` and `long` values the time has, and whatever is printed, if only `vsnprintf` keeps
-- to the size that it is given, with the closing zero: the text of the time and the message fit
-- their arrays. The line is the time, a tab, what `vsnprintf` has left for 1024 bytes, and a line
-- feed, and has at most 1081 bytes; without a format the message is empty.
pub log_msg-fits :
    (print : Printer) (t : Clock)
    → IsInt t.tm_hour
    → IsInt t.tm_min
    → IsInt t.tm_sec
    → IsLong t.tv_usec
    → length (print 1024).text < 1024
    → (log_msg (some print) t ≡ done (time_text t ++ (b'\t' ∷ ((print 1024).text ++ b'\n' ∷ []))))
      × (log_msg none t ≡ done (time_text t ++ (b'\t' ∷ b'\n' ∷ [])))
      × (length (time_text t ++ (b'\t' ∷ ((print 1024).text ++ b'\n' ∷ []))) ≤ 1081)
unfolding formatted
log_msg-fits print t hour min sec usec kept =
    let stamp = get_timestamp-fits t hour min sec usec in
    let text = (print 1024).text in
    (
      log_msg-done (some print) t text (time_text t) (formatted-keeps print kept) stamp,
      log_msg-done none t [] (time_text t) refl stamp,
      omega (
        arith,
        kept,
        time_text-short t hour min sec usec,
        length-append (time_text t) (b'\t' ∷ (text ++ b'\n' ∷ [])),
        length-append text (b'\n' ∷ []),
      ),
    )

abbrev pub clock : ℕ → ℕ → ℕ → ℕ → Clock
clock h m s us = record { tm_hour = pos h; tm_min = pos m; tm_sec = pos s; tv_usec = pos us }

time_text-pieces :
    (h m s us : ℕ) (rest : Bytes)
    → time_text (clock h m s us) ++ (b'\t' ∷ rest)
      ≡ pieces
          (padded 2 (pos h))
          (padded 2 (pos m))
          (padded 2 (pos s))
          (padded 6 (pos us))
          rest
          b':'
          b':'
          b'.'
          b'\t'
unfolding time_text
time_text-pieces h m s us rest =
    let usec = padded 6 (pos us) in
    let sec = padded 2 (pos s) in
    let min = padded 2 (pos m) in
    append_assoc (padded 2 (pos h)) (b':' ∷ (min ++ (b':' ∷ (sec ++ (b'.' ∷ usec))))) (b'\t' ∷ rest)
    ∙ ap (λ l. padded 2 (pos h) ++ (b':' ∷ l))
        (append_assoc min (b':' ∷ (sec ++ (b'.' ∷ usec))) (b'\t' ∷ rest)
          ∙ ap (λ l. min ++ (b':' ∷ l)) (append_assoc sec (b'.' ∷ usec) (b'\t' ∷ rest)))

-- For a time of day, with up to 60 seconds and less than a million microseconds, and a message of
-- less than 1024 bytes, which `vsnprintf` writes whole: a line is written, and from this line hour,
-- minute, second, microseconds and message can be read back, each at its fixed place.
pub log_msg-reads :
    (print : Printer) (h m s us : ℕ) (text : Bytes)
    → h < 24
    → m < 60
    → s ≤ 60
    → us < 1000000
    → length text < 1024
    → (print 1024).text ≡ text
    → (line : Bytes) × (log_msg (some print) (clock h m s us) ≡ done line)
      × (atoi (take 2 line) ≡ pos h)
      × (atoi (take 2 (drop 3 line)) ≡ pos m)
      × (atoi (take 2 (drop 6 line)) ≡ pos s)
      × (atoi (take 6 (drop 9 line)) ≡ pos us)
      × (drop 16 line ≡ text ++ b'\n' ∷ [])
log_msg-reads print h m s us text hh hm hs hu short kept =
    let t = clock h m s us in
    let (a, b, c, d, e) =
      pieces-read (padded 2 (pos h)) (padded 2 (pos m)) (padded 2 (pos s)) (padded 6 (pos us))
        (text ++ b'\n' ∷ []) b':' b':' b'.' b'\t' (length-padded_exact 1 h (omega arith))
        (length-padded_exact 1 m (omega arith)) (length-padded_exact 1 s (omega arith))
        (length-padded_exact 5 us (omega arith)) in
    let line = time_text t ++ (b'\t' ∷ (text ++ b'\n' ∷ [])) in
    let same = time_text-pieces h m s us (text ++ b'\n' ∷ []) in
    let stamp =
      get_timestamp-fits t (omega arith, omega arith) (omega arith, omega arith)
        (omega arith, omega arith) (omega arith, omega arith) in
    (
      line,
      log_msg-done (some print) t text (time_text t)
          (formatted-keeps print (rw kept short) ∙ ap done kept) stamp,
      ap atoi (ap (take 2) same ∙ a) ∙ atoi-padded 2 h,
      ap atoi (ap (λ l. take 2 (drop 3 l)) same ∙ b) ∙ atoi-padded 2 m,
      ap atoi (ap (λ l. take 2 (drop 6 l)) same ∙ c) ∙ atoi-padded 2 s,
      ap atoi (ap (λ l. take 6 (drop 9 l)) same ∙ d) ∙ atoi-padded 6 us,
      ap (drop 16) same ∙ e,
    )
