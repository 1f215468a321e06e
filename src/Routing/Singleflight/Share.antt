-- ===== src/Routing/Singleflight/Share.antt =====
-- Callers of one key share one lookup.
use trino_goway.Base.{
  ℕ, ◌<◌, ◌≤◌, ◌≡◌, refl, Option, none, some, List, [], ◌∷◌, arith, Text, text_eq_iff,
}
use trino_goway.Routing.Singleflight.{
  Phase, entering, waiting, leading, ending, returned, Group, enter, wake, leave, step_from, step,
  run, start,
}

-- the key and the call of a maker that has not deleted its entry
abbrev pub owned : Phase → Option (Text × ℕ)
owned (entering k) = none
owned (waiting k c) = none
owned (leading k c) = some (k, c)
owned (ending k c) = some (k, c)
owned (returned k c v) = none

-- the key and the call of a caller that has one
abbrev pub called : Phase → Option (Text × ℕ)
called (entering k) = none
called (waiting k c) = some (k, c)
called (leading k c) = some (k, c)
called (ending k c) = some (k, c)
called (returned k c v) = some (k, c)

-- Each maker's entry is in the map; no two makers have one call; a call was made, and for one key; its
-- record is empty until fn has returned, and holds what its callers return.
pub record Inv (g : Group) : Type 0 where
  pub entry : (i : ℕ) (k : Text) (c : ℕ) → owned (g.callers i) ≡ some (k, c) → g.inflight k ≡ some c
  pub maker :
      (i j : ℕ) (k l : Text) (c : ℕ)
      → owned (g.callers i) ≡ some (k, c)
      → owned (g.callers j) ≡ some (l, c)
      → i ≡ j
  pub made : (k : Text) (c : ℕ) → g.inflight k ≡ some c → c < g.made
  pub seen : (i : ℕ) (k : Text) (c : ℕ) → called (g.callers i) ≡ some (k, c) → c < g.made
  pub key :
      (i j : ℕ) (k l : Text) (c : ℕ)
      → called (g.callers i) ≡ some (k, c)
      → called (g.callers j) ≡ some (l, c)
      → k ≡ l
  pub entry_key :
      (i : ℕ) (k l : Text) (c : ℕ)
      → g.inflight k ≡ some c
      → called (g.callers i) ≡ some (l, c)
      → k ≡ l
  pub one_entry : (k l : Text) (c : ℕ) → g.inflight k ≡ some c → g.inflight l ≡ some c → k ≡ l
  pub empty : (c : ℕ) → g.made ≤ c → g.result c ≡ none
  pub unset : (i : ℕ) (k : Text) (c : ℕ) → g.callers i ≡ leading k c → g.result c ≡ none
  pub held :
      (i : ℕ) (k : Text) (c : ℕ) (v : Option Text)
      → g.callers i ≡ returned k c v
      → g.result c ≡ some v

enter-Inv :
    (i : ℕ) (k : Text) (o : Option ℕ) (g : Group)
    → g.callers i ≡ entering k
    → g.inflight k ≡ o
    → Inv g
    → Inv (enter i k o g)
enter-Inv i k (some c) g p e inv = record {
  entry = λ j l d h. ground (arith, inv.entry j l d);
  maker = λ j n l m d h q. ground (arith, inv.maker j n l m d);
  made = inv.made;
  seen = λ j l d h. ground (arith, inv.seen j l d, inv.made l d);
  key = λ j n l m d h q.
      ground (arith, inv.key j n l m d, inv.entry_key j m l d, inv.entry_key n l m d);
  entry_key = λ j l m d h q. ground (arith, inv.entry_key j l m d, inv.one_entry l k d);
  one_entry = inv.one_entry;
  empty = inv.empty;
  unset = λ j l d h. ground (arith, inv.unset j l d);
  held = λ j l d v h. ground (arith, inv.held j l d v);
}
enter-Inv i k none g p e inv = record {
  entry = λ j l d h. ground (arith, inv.entry j l d, text_eq_iff k l);
  maker = λ j n l m d h q.
      ground
        (arith, inv.maker j n l m d, inv.entry j l d, inv.entry n m d, inv.made l d, inv.made m d);
  made = λ l d h. ground (arith, inv.made l d, text_eq_iff k l);
  seen = λ j l d h. ground (arith, inv.seen j l d);
  key = λ j n l m d h q. ground (arith, inv.key j n l m d, inv.seen j l d, inv.seen n m d);
  entry_key = λ j l m d h q.
      ground (arith, inv.entry_key j l m d, text_eq_iff k l, inv.seen j m d, inv.made l d);
  one_entry = λ l m d h q.
      ground
        (arith, inv.one_entry l m d, inv.made l d, inv.made m d, text_eq_iff k l, text_eq_iff k m);
  empty = λ d h. ground (arith, inv.empty d);
  unset = λ j l d h. ground (arith, inv.unset j l d, inv.empty d);
  held = λ j l d v h. ground (arith, inv.held j l d v);
}

wake-Inv :
    (i : ℕ) (k : Text) (c : ℕ) (o : Option (Option Text)) (g : Group)
    → g.callers i ≡ waiting k c
    → g.result c ≡ o
    → Inv g
    → Inv (wake i k c o g)
wake-Inv i k c none g p e inv = inv
wake-Inv i k c (some v) g p e inv = record {
  entry = λ j l d h. ground (arith, inv.entry j l d);
  maker = λ j n l m d h q. ground (arith, inv.maker j n l m d);
  made = inv.made;
  seen = λ j l d h. ground (arith, inv.seen j l d);
  key = λ j n l m d h q. ground (arith, inv.key j n l m d);
  entry_key = λ j l m d h q. ground (arith, inv.entry_key j l m d);
  one_entry = inv.one_entry;
  empty = inv.empty;
  unset = λ j l d h. ground (arith, inv.unset j l d);
  held = λ j l d w h. ground (arith, inv.held j l d w);
}

leave-Inv :
    (i : ℕ) (k : Text) (c : ℕ) (o : Option (Option Text)) (g : Group)
    → g.callers i ≡ ending k c
    → g.result c ≡ o
    → Inv g
    → Inv (leave i k c o g)
leave-Inv i k c none g p e inv = inv
leave-Inv i k c (some v) g p e inv = record {
  entry = λ j l d h.
      ground (arith, inv.entry j l d, inv.entry i k c, inv.maker i j k l c, text_eq_iff k l);
  maker = λ j n l m d h q. ground (arith, inv.maker j n l m d);
  made = λ l d h. ground (arith, inv.made l d);
  seen = λ j l d h. ground (arith, inv.seen j l d);
  key = λ j n l m d h q. ground (arith, inv.key j n l m d);
  entry_key = λ j l m d h q. ground (arith, inv.entry_key j l m d);
  one_entry = λ l m d h q. ground (arith, inv.one_entry l m d);
  empty = inv.empty;
  unset = λ j l d h. ground (arith, inv.unset j l d);
  held = λ j l d w h. ground (arith, inv.held j l d w);
}

step_from-Inv :
    (i : ℕ) (v : Option Text) (p : Phase) (g : Group)
    → g.callers i ≡ p
    → Inv g
    → Inv (step_from i v p g)
step_from-Inv i v (entering k) g p inv = enter-Inv i k (g.inflight k) g p refl inv
step_from-Inv i v (waiting k c) g p inv = wake-Inv i k c (g.result c) g p refl inv
step_from-Inv i v (leading k c) g p inv = record {
  entry = λ j l d h. ground (arith, inv.entry j l d, inv.entry i l d);
  maker = λ j n l m d h q.
      ground (arith, inv.maker j n l m d, inv.maker i n l m d, inv.maker j i l m d);
  made = inv.made;
  seen = λ j l d h. ground (arith, inv.seen j l d);
  key = λ j n l m d h q. ground (arith, inv.key j n l m d);
  entry_key = λ j l m d h q. ground (arith, inv.entry_key j l m d);
  one_entry = inv.one_entry;
  empty = λ d h. ground (arith, inv.empty d, inv.seen i k c);
  unset = λ j l d h. ground (arith, inv.unset j l d, inv.maker i j k l c);
  held = λ j l d w h. ground (arith, inv.held j l d w, inv.unset i k c);
}
step_from-Inv i v (ending k c) g p inv = leave-Inv i k c (g.result c) g p refl inv
step_from-Inv i v (returned k c w) g p inv = inv

run-Inv : (s : List (ℕ × Option Text)) (g : Group) → Inv g → Inv (run s g)
unfolding run step
run-Inv [] g inv = inv
run-Inv ((i, v) ∷ s) g inv = run-Inv s (step i v g) (step_from-Inv i v (g.callers i) g refl inv)

start-Inv : (keys : ℕ → Text) → Inv (start keys)
start-Inv keys = record {
  entry = λ i k c h. ground arith;
  maker = λ i j k l c h q. ground arith;
  made = λ k c h. ground arith;
  seen = λ i k c h. ground arith;
  key = λ i j k l c h q. ground arith;
  entry_key = λ i k l c h q. ground arith;
  one_entry = λ k l c h q. ground arith;
  empty = λ c h. refl;
  unset = λ i k c h. refl;
  held = λ i k c v h. ground arith;
}

-- However the callers' steps interleave, no two of them are in the lookup of one key at a time.
pub one_lookup :
    (keys : ℕ → Text) (s : List (ℕ × Option Text)) (i j : ℕ) (k : Text) (c d : ℕ)
    → (run s (start keys)).callers i ≡ leading k c
    → (run s (start keys)).callers j ≡ leading k d
    → i ≡ j
one_lookup keys s i j k c d p q =
    let inv = run-Inv s (start keys) (start-Inv keys) in
    ground (arith, inv.entry i k c, inv.entry j k d, inv.maker i j k k c)

-- However the callers' steps interleave, those that return from one call asked for one key and return
-- one result.
pub shared_result :
    (keys : ℕ → Text) (s : List (ℕ × Option Text)) (i j : ℕ) (k l : Text) (c : ℕ)
    (v w : Option Text)
    → (run s (start keys)).callers i ≡ returned k c v
    → (run s (start keys)).callers j ≡ returned l c w
    → (k ≡ l) × (v ≡ w)
shared_result keys s i j k l c v w p q =
    let inv = run-Inv s (start keys) (start-Inv keys) in
    ground (arith, inv.held i k c v, inv.held j l c w, inv.key i j k l c)
