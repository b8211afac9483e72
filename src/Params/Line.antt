-- ===== src/Params/Line.antt =====
-- The parsers on well-formed command lines, and that they never run for ever.
use zmqtests.Base.{
  inl, inr, Bool-cases, ◌&&◌, ℕ, zero, suc, ◌≤◌, ◌≡◌, ◌≢◌, refl, sym, ap, ◌∙◌, Bool, true, false,
  List, [], ◌∷◌, ◌++◌, length, if◌then◌else◌, arith,
}
use zmqtests.Base.Int.{ℤ, pos}
use zmqtests.Base.Text.{Bytes}
use zmqtests.Params.{Rule, Parsed, parsed, undefined, running, try, try_all, parse_loop, parse_args}

module _ {O : Type 0} where
  -- What a test leaves is not longer than what it was given.
  abbrev pub Shrinks : List Bytes → Parsed (O × List Bytes) → Type 0
  Shrinks args (parsed (o, rest)) = length rest ≤ length args
  Shrinks args undefined = Unit {0}
  Shrinks args running = ⊥

  try-Shrinks : (rule : Rule O) (o : O) (args : List Bytes) → Shrinks args (try rule o args)
  unfolding try
  try-Shrinks rule o args = ground arith

  try_all-Shrinks :
      (rules : List (Rule O)) (o : O) (args : List Bytes) → Shrinks args (try_all rules o args)
  unfolding try_all
  try_all-Shrinks [] o args = omega arith
  try_all-Shrinks (rule ∷ rules) o args =
      grind (arith, try-Shrinks rule o args, try_all-Shrinks rules)

  parse_loop-ends :
      (fuel : ℕ) (rules : List (Rule O)) (o : O) (args : List Bytes)
      → length args ≤ fuel
      → parse_loop fuel rules o args ≢ running
  unfolding parse_loop
  parse_loop-ends fuel rules o [] h = ground arith
  parse_loop-ends zero rules o (a ∷ args) h = absurd (omega arith)
  parse_loop-ends (suc fuel) rules o (a ∷ args) h =
      grind (arith, try_all-Shrinks rules o (a ∷ args), parse_loop-ends fuel rules)

  -- `parseParams` comes to its end, or reads through NULL or a number outside `int`: it makes at most
  -- one round for each argument.
  pub parse_args-ends :
      (rules : List (Rule O)) (o : O) (args : List Bytes) → parse_args rules o args ≢ running
  unfolding parse_args
  parse_args-ends rules o args = parse_loop-ends (length args) rules o args (omega arith)

-- An option as a user writes it in full: its name, for some its value, and what it is to set.
pub data Item (O : Type 0) : Type 0 where
  bare : Bytes → (O → O) → Item O
  valued : Bytes → Bytes → (O → O) → Item O

module _ {O : Type 0} where
  abbrev pub line : List (Item O) → List Bytes
  line [] = []
  line (bare name set ∷ items) = name ∷ line items
  line (valued name v set ∷ items) = name ∷ v ∷ line items

  abbrev pub effect : List (Item O) → O → O
  effect [] o = o
  effect (bare name set ∷ items) o = effect items (set o)
  effect (valued name v set ∷ items) o = effect items (set o)

  -- The body, at such an option, sets it and nothing else, and stops at its last word.
  abbrev pub Reads : List (Rule O) → Item O → Type 0
  Reads rules (bare name set) =
      (o : O) (rest : List Bytes) → try_all rules o (name ∷ rest) ≡ parsed (set o, name ∷ rest)
  Reads rules (valued name v set) =
      (o : O) (rest : List Bytes) → try_all rules o (name ∷ v ∷ rest) ≡ parsed (set o, v ∷ rest)

  pub data AllRead (rules : List (Rule O)) : List (Item O) → Type 0 where
    none_left : AllRead rules []
    and_next :
        {item : Item O} {items : List (Item O)}
        → Reads rules item
        → AllRead rules items
        → AllRead rules (item ∷ items)

  -- The body, at such an option, has no meaning.
  abbrev pub Fails : List (Rule O) → Item O → Type 0
  Fails rules (bare name set) =
      (o : O) (rest : List Bytes) → try_all rules o (name ∷ rest) ≡ undefined
  Fails rules (valued name v set) =
      (o : O) (rest : List Bytes) → try_all rules o (name ∷ v ∷ rest) ≡ undefined

  -- Each option is read, or has no meaning; whether all are read.
  pub data AllTried (rules : List (Rule O)) : Bool → List (Item O) → Type 0 where
    none_tried : AllTried rules true []
    then_reads :
        {item : Item O} {items : List (Item O)} {ok : Bool}
        → Reads rules item
        → AllTried rules ok items
        → AllTried rules ok (item ∷ items)
    then_either :
        {item : Item O} {items : List (Item O)} {ok : Bool} (b : Bool)
        → (b ≡ true → Reads rules item)
        → (b ≡ false → Fails rules item)
        → AllTried rules ok items
        → AllTried rules (b && ok) (item ∷ items)

  pub tried-AllRead :
      (rules : List (Rule O)) (items : List (Item O)) (ok : Bool)
      → AllTried rules ok items
      → ok ≡ true
      → AllRead rules items
  tried-AllRead rules _ _ none_tried q = none_left
  tried-AllRead rules _ ok (then_reads {items = items} r a) q =
      and_next r (tried-AllRead rules items ok a q)
  tried-AllRead rules _ _ (then_either {items = items} {ok = ok} b r f a) q =
      and_next (r (ground (arith, q))) (tried-AllRead rules items ok a (ground (arith, q)))

  parse_loop-tried :
      (rules : List (Rule O)) (fuel : ℕ) (items : List (Item O)) (ok : Bool) (o : O)
      (rest : List Bytes)
      → length (line items ++ rest) ≤ fuel
      → AllTried rules ok items
      → ok ≡ false
      → parse_loop fuel rules o (line items ++ rest) ≡ undefined
  unfolding parse_loop
  parse_loop-tried rules fuel _ _ o rest h none_tried q = ground (arith, q)
  parse_loop-tried rules zero (bare name set ∷ items) ok o rest h a q = absurd (omega arith)
  parse_loop-tried rules zero (valued name v set ∷ items) ok o rest h a q = absurd (omega arith)
  parse_loop-tried rules (suc fuel) (bare name set ∷ items) ok o rest h (then_reads r a) q =
      rw (r o (line items ++ rest))
        (parse_loop-tried rules fuel items ok (set o) rest (omega arith) a q)
  parse_loop-tried rules (suc fuel) (valued name v set ∷ items) ok o rest h (then_reads r a) q =
      rw (r o (line items ++ rest))
        (parse_loop-tried rules fuel items ok (set o) rest (omega arith) a q)
  parse_loop-tried rules (suc fuel) (bare name set ∷ items) _ o rest h
        (then_either {ok = ok} b r f a) q =
      elim (Bool-cases b) [
        | inl yes_read ↦ rw (r yes_read o (line items ++ rest)) (
            parse_loop-tried rules fuel items ok (set o) rest (omega arith) a
              (ground (arith, q, yes_read)))
        | inr fails ↦ rw (f fails o (line items ++ rest)) refl
      ]
  parse_loop-tried rules (suc fuel) (valued name v set ∷ items) _ o rest h
        (then_either {ok = ok} b r f a) q =
      elim (Bool-cases b) [
        | inl yes_read ↦ rw (r yes_read o (line items ++ rest)) (
            parse_loop-tried rules fuel items ok (set o) rest (omega arith) a
              (ground (arith, q, yes_read)))
        | inr fails ↦ rw (f fails o (line items ++ rest)) refl
      ]

  -- A command line that begins with options one of which has no meaning.
  pub parse_args-tried :
      (rules : List (Rule O)) (o : O) (items : List (Item O)) (ok : Bool) (rest : List Bytes)
      → AllTried rules ok items
      → ok ≡ false
      → parse_args rules o (line items ++ rest) ≡ undefined
  unfolding parse_args
  parse_args-tried rules o items ok rest a q =
      parse_loop-tried rules (length (line items ++ rest)) items ok o rest (omega arith) a q

  -- An option that sets a switch to 1, if it is asked for.
  abbrev pub switch : Bool → Bytes → (O → O) → List (Item O) → List (Item O)
  switch b name set items = if b then bare name set ∷ items else items

  pub switch-AllTried :
      (rules : List (Rule O)) (ok b : Bool) (name : Bytes) (set : O → O) (items : List (Item O))
      → Reads rules (bare name set)
      → AllTried rules ok items
      → AllTried rules ok (switch b name set items)
  switch-AllTried rules ok true name set items r a = then_reads r a
  switch-AllTried rules ok false name set items r a = a

  parse_loop-line :
      (fuel : ℕ) (rules : List (Rule O)) (o : O) (items : List (Item O))
      → length (line items) ≤ fuel
      → AllRead rules items
      → parse_loop fuel rules o (line items) ≡ parsed (effect items o)
  unfolding parse_loop
  parse_loop-line fuel rules o [] h a = refl
  parse_loop-line zero rules o (bare name set ∷ items) h a = absurd (omega arith)
  parse_loop-line zero rules o (valued name v set ∷ items) h a = absurd (omega arith)
  parse_loop-line (suc fuel) rules o (bare name set ∷ items) h (and_next r a) =
      rw (r o (line items)) (parse_loop-line fuel rules (set o) items (omega arith) a)
  parse_loop-line (suc fuel) rules o (valued name v set ∷ items) h (and_next r a) =
      rw (r o (line items)) (parse_loop-line fuel rules (set o) items (omega arith) a)

  pub parse_args-line :
      (rules : List (Rule O)) (o : O) (items : List (Item O))
      → AllRead rules items
      → parse_args rules o (line items) ≡ parsed (effect items o)
  unfolding parse_args
  parse_args-line rules o items a =
      parse_loop-line (length (line items)) rules o items (omega arith) a

  pub effect-switch :
      (b : Bool) (name : Bytes) (set : ℤ → O → O) (get : O → ℤ) (items : List (Item O)) (o : O)
      → ((p : O) → set (get p) p ≡ p)
      → effect (switch b name (set (pos 1)) items) o
        ≡ effect items (set (if b then pos 1 else get o) o)
  effect-switch true name set get items o same = refl
  effect-switch false name set get items o same = ap (effect items) (sym (same o))

  -- Where the code reads on behind such options it does what it does at the words behind them.
  parse_loop-append :
      (fuel : ℕ) (rules : List (Rule O)) (o : O) (items : List (Item O)) (rest : List Bytes)
      → length (line items ++ rest) ≤ fuel
      → AllRead rules items
      → (k : ℕ) × (length rest ≤ k)
        × (parse_loop fuel rules o (line items ++ rest) ≡ parse_loop k rules (effect items o) rest)
  unfolding parse_loop
  parse_loop-append fuel rules o [] rest h a = (fuel, h, refl)
  parse_loop-append zero rules o (bare name set ∷ items) rest h a = absurd (omega arith)
  parse_loop-append zero rules o (valued name v set ∷ items) rest h a = absurd (omega arith)
  parse_loop-append (suc fuel) rules o (bare name set ∷ items) rest h (and_next r a) =
      rw (r o (line items ++ rest))
        (parse_loop-append fuel rules (set o) items rest (omega arith) a)
  parse_loop-append (suc fuel) rules o (valued name v set ∷ items) rest h (and_next r a) =
      rw (r o (line items ++ rest))
        (parse_loop-append fuel rules (set o) items rest (omega arith) a)

  parse_loop-undefined :
      (k : ℕ) (rules : List (Rule O)) (o : O) (word : Bytes)
      → 1 ≤ k
      → try_all rules o (word ∷ []) ≡ undefined
      → parse_loop k rules o (word ∷ []) ≡ undefined
  unfolding parse_loop
  parse_loop-undefined zero rules o word h bad = absurd (omega arith)
  parse_loop-undefined (suc k) rules o word h bad = rw bad

  -- A word at which the body reads through NULL, at the end of a command line.
  pub parse_args-undefined :
      (rules : List (Rule O)) (o : O) (items : List (Item O)) (word : Bytes)
      → AllRead rules items
      → ((p : O) → try_all rules p (word ∷ []) ≡ undefined)
      → parse_args rules o (line items ++ word ∷ []) ≡ undefined
  unfolding parse_args parse_loop
  parse_args-undefined rules o items word a bad =
      let (k, enough, same) =
        parse_loop-append (length (line items ++ word ∷ [])) rules o items (word ∷ []) (omega arith)
          a in
      same ∙ parse_loop-undefined k rules (effect items o) word enough (bad (effect items o))
