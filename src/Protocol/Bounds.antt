-- ===== src/Protocol/Bounds.antt =====
-- The sizes of the tables of pi4/lib/hioc/availability_protocol.py.
use hioc.Base.{
  ℕ, ◌+◌, ◌≤◌, ◌≡◌, refl, String, text_key, some, List, [], ◌∷◌, ◌++◌, arith, nat_key, length,
  Result, ok, err, leb, if_intro, not,
}
use hioc.Protocol.Gate.{
  Nonce, Attempt, Gate, Request, is_status, is_mutation, is_current, is_used, not_before, live,
  drop_old, count, quota, meter, pass, admit,
}

length-live : (now : ℕ) (ns : List Nonce) → length (live now ns) ≤ length ns
unfolding live
length-live now [] = omega arith
length-live now (n ∷ ns) = ground (arith, length-live now ns)

length-drop_old : (now : ℕ) (rows : List Attempt) → length (drop_old now rows) ≤ length rows
unfolding drop_old
length-drop_old now [] = omega arith
length-drop_old now (a ∷ rows) = ground (arith, length-drop_old now rows)

count-drop_old :
    (i : ℕ) (a : String) (now : ℕ) (rows : List Attempt)
    → count i a (drop_old now rows) ≤ count i a rows
unfolding drop_old count
count-drop_old i a now [] = omega arith
count-drop_old i a now (x ∷ rows) = ground (arith, count-drop_old i a now rows)

length-append : (x : Attempt) (rows : List Attempt) → length (rows ++ x ∷ []) ≡ length rows + 1
length-append x [] = refl
length-append x (y ∷ rows) = omega (arith, length-append x rows)

count-append :
    (i : ℕ) (a : String) (x : Attempt) (rows : List Attempt)
    → count i a (rows ++ x ∷ []) ≡ count i a rows + count i a (x ∷ [])
unfolding count
count-append i a x [] = omega arith
count-append i a x (y ∷ rows) = ground (arith, count-append i a x rows)

-- At most `own` attempts of any actor, and `total` of all.
pub record IsMetered (own total : ℕ) (rows : List Attempt) : Type 0 where
  pub all_attempts : length rows ≤ total
  pub own_attempts : (issuer : ℕ) (actor : String) → count issuer actor rows ≤ own

quota-IsMetered :
    (own total now : ℕ) (r : Request) (rows : List Attempt)
    → IsMetered own total rows
    → IsMetered own total (quota own total now r rows).1
unfolding quota count
quota-IsMetered own total now r rows h = record {
  all_attempts = ground (
    arith,
    h.all_attempts,
    length-drop_old now rows,
    length-append (record { at = now; issuer = r.issuer; actor = r.actor }) (drop_old now rows),
  );
  own_attempts = λ i a. ground (
    arith,
    h.own_attempts i a,
    count-drop_old i a now rows,
    text_key.same_iff r.actor a,
    count-append i a (record { at = now; issuer = r.issuer; actor = r.actor }) (drop_old now rows),
  );
}

-- The bounds of the tables: the nonces, and ten or thirty attempts of an actor.
pub record IsBounded (capacity : ℕ) (g : Gate) : Type 0 where
  pub nonces : length g.nonces ≤ capacity
  pub mutations : IsMetered 10 100 g.attempts
  pub reads : IsMetered 30 300 g.read_attempts

meter-IsBounded :
    (capacity now : ℕ) (r : Request) (g : Gate)
    → IsBounded capacity g
    → IsBounded capacity (meter now r g).1
unfolding meter
meter-IsBounded capacity now r g h =
    if_intro (λ (x : Result (Unit {0}) × Gate). IsBounded capacity x.1) (is_status r.operation) _ _
      (λ _. record {
        nonces = h.nonces;
        mutations = h.mutations;
        reads = quota-IsMetered 30 300 now r g.read_attempts h.reads;
      })
      (λ _.
        if_intro (λ (x : Result (Unit {0}) × Gate). IsBounded capacity x.1)
          (is_mutation r.operation) _ _
          (λ _. record {
            nonces = h.nonces;
            mutations = quota-IsMetered 10 100 now r g.attempts h.mutations;
            reads = h.reads;
          })
          (λ _. h))

-- The table with other nonces and another clock.
pass-IsBounded :
    (capacity now : ℕ) (r : Request) (g : Gate)
    → IsBounded capacity g
    → IsBounded capacity (pass capacity now r g).1
unfolding pass
pass-IsBounded capacity now r g h =
    let fewer = length-live now g.nonces in
    if_intro P (not (not_before g.last_clock now)) _ _ (λ _. h)
      (λ _.
        if_intro P (is_used r.issuer r.request (live now g.nonces)) _ _ (λ _. moved fewer)
          (λ _.
            if_intro P (leb capacity (length (live now g.nonces))) _ _ (λ _. moved fewer)
              (λ room. meter-IsBounded capacity now r _ (record {
                nonces = ground (arith, room);
                mutations = h.mutations;
                reads = h.reads;
              }))))
  where
    P : Result (Unit {0}) × Gate → Type 0
    P x = IsBounded capacity x.1

    moved :
        length (live now g.nonces) ≤ length g.nonces
        → IsBounded capacity (record g { last_clock = some now; nonces = live now g.nonces })
    moved fewer = record {
      nonces = omega (arith, h.nonces, fewer);
      mutations = h.mutations;
      reads = h.reads;
    }

-- However many requests arrive, no more nonces are kept than the capacity, and the tables hold at
-- most ten mutations and thirty reads of an actor, a hundred and three hundred in all.
pub admit-IsBounded :
    (capacity now : ℕ) (trusted : Result (Unit {0})) (r : Request) (g : Gate)
    → IsBounded capacity g
    → IsBounded capacity (admit capacity now trusted r g).1
unfolding admit
admit-IsBounded capacity now trusted r g h =
    if_intro (λ (x : Result (Unit {0}) × Gate). IsBounded capacity x.1) (not (is_current r now)) _ _
      (λ _. h) (λ _. passed trusted)
  where
    passed :
        (t : Result (Unit {0}))
        → IsBounded capacity
            (elim t as (λ _. Result (Unit {0}) × Gate) [
              | err e ↦ (err e, g)
              | ok _ ↦ pass capacity now r g
            ]).1
    passed (err e) = h
    passed (ok u) = pass-IsBounded capacity now r g h
