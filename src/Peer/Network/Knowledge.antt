-- ===== src/Peer/Network/Knowledge.antt =====
-- Who knows of whom, or will when the messages on their way to it have arrived: the argument about
-- the discovery protocol of `3186/peer.cpp`, apart from its messages.
use zmqtests.Base.Table.{Key}
use zmqtests.Base.{◌≡◌, Bool, true, false, ◌&&◌, ◌||◌, arith}

-- `knows i j`: `j` stands in the table of `i`. `learns i j`: it does, or a connect message of `j`
-- is on its way to `i`.
pub record View (A : Type 0) : Type 0 where
  pub knows : A → A → Bool
  pub learns : A → A → Bool
  pub linked : A → Bool

-- A peer that has published its connect message is linked and has joined. If `j` knows `i` and has
-- published its own message, then `i` learns of `j`; and of two that have published theirs, one
-- learns of the other.
pub record IsFair {A : Type 0} (joined : A → Bool) (v : View A) : Type 0 where
  pub early : (i j : A) → v.knows i j ≡ true → v.learns i j ≡ true
  pub reached : (i j : A) → v.learns i j ≡ true → v.linked j ≡ true
  pub entered : (i : A) → v.linked i ≡ true → joined i ≡ true
  pub returned : (i j : A) → v.knows j i ≡ true → v.learns j j ≡ true → v.learns i j ≡ true
  pub met :
      (i j : A) → v.learns i i ≡ true → v.learns j j ≡ true → (v.learns i j || v.learns j i) ≡ true

-- A turn of the peer `p`: it hears of the peers `heard`, and `says` whether its own connect message
-- is forwarded to all that have joined.
pub record Turn {A : Type 0} ⦃key : Key A⦄ (joined : A → Bool) (p : A) (heard : A → Bool)
    (says : Bool) (v w : View A) : Type 0 where
  pub spread : (i j : A) → w.learns i j ≡ (v.learns i j || (says && joined i && (key.same j p)))
  pub gained : (i j : A) → w.knows i j ≡ (v.knows i j || ((key.same i p) && heard j))
  pub stays : (i : A) → v.linked i ≡ true → w.linked i ≡ true
  pub enters : (i : A) → w.linked i ≡ true → joined i ≡ true
  pub able : says ≡ true → w.linked p ≡ true
  pub waiting : (j : A) → heard j ≡ true → v.learns p j ≡ true
  pub replies :
      (j : A)
      → heard j ≡ true
      → (key.same j p) ≡ false
      → v.knows p j ≡ false
      → w.linked p ≡ true
      → says ≡ true

module _ {A : Type 0} ⦃key : Key A⦄ (joined : A → Bool) (p : A) (heard : A → Bool) (says : Bool)
    (v w : View A) (t : Turn joined p heard says v w) (f : IsFair joined v) where
  returned-turn : (i j : A) → w.knows j i ≡ true → w.learns j j ≡ true → w.learns i j ≡ true
  returned-turn i j k l = ground (
    arith,
    k,
    l,
    t.gained j i,
    t.spread j j,
    t.spread i j,
    f.returned i j,
    f.early j i,
    f.early i j,
    f.reached j i,
    f.reached j j,
    f.entered i,
    t.stays p,
    t.able,
    t.waiting i,
    t.replies i,
    key.same_iff j p,
    key.same_iff i p,
  )

  met-turn :
      (i j : A) → w.learns i i ≡ true → w.learns j j ≡ true → (w.learns i j || w.learns j i) ≡ true
  met-turn i j k l = ground (
    arith,
    k,
    l,
    t.spread i i,
    t.spread j j,
    t.spread i j,
    t.spread j i,
    f.met i j,
    f.reached i i,
    f.reached j j,
    f.entered i,
    f.entered j,
  )

  pub Turn-IsFair : IsFair joined w
  Turn-IsFair = record {
    early = λ i j k.
        ground (arith, t.gained i j, t.spread i j, f.early i j, t.waiting j, key.same_iff i p);
    reached =
        λ i j l. ground (arith, t.spread i j, f.reached i j, t.stays j, t.able, key.same_iff j p);
    entered = t.enters;
    returned = returned-turn;
    met = met-turn;
  }

-- The same among the peers that `keep` tells.
pub restrict-IsFair :
    {A : Type 0} (joined joined' keep : A → Bool) (v w : View A)
    → ((i j : A) → w.knows i j ≡ (keep i && keep j && v.knows i j))
    → ((i j : A) → w.learns i j ≡ (keep i && keep j && v.learns i j))
    → ((i : A) → w.linked i ≡ (keep i && v.linked i))
    → ((i : A) → joined' i ≡ (keep i && joined i))
    → IsFair joined v
    → IsFair joined' w
restrict-IsFair joined joined' keep v w k l n m f = record {
  early = λ i j h. ground (arith, h, k i j, l i j, f.early i j);
  reached = λ i j h. ground (arith, h, l i j, n j, f.reached i j);
  entered = λ i h. ground (arith, h, n i, m i, f.entered i);
  returned = λ i j h g. ground (arith, h, g, k j i, l j j, l i j, f.returned i j);
  met = λ i j h g. ground (arith, h, g, l i i, l j j, l i j, l j i, f.met i j);
}
