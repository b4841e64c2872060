-- ===== src/Bus/Subscriptions.antt =====
-- The loops of BusImpl.start: which endpoints the bus subscribes to.
use saga_bus.Bus.{
  subscriptions, concurrency_of, subscribe_types, Saga, WorkerConfig, Bus, subscribe_sagas,
}
use saga_bus.Dsl.{includes}
use saga_bus.Prelude.{
  ℕ, suc, ◌+◌, String, ◌≡◌, ap, Bool, ◌||◌, List, [], ◌∷◌, ◌++◌, arith, eq_iff, ◌==◌, if◌then◌else◌,
  any,
}

-- How often an endpoint is subscribed
abbrev pub times : String → List (String × ℕ) → ℕ
times t [] = 0
times t ((e, c) ∷ rest) = if e == t then suc (times t rest) else times t rest

abbrev once : Bool → ℕ
once b = if b then 1 else 0

times-append :
    (t : String) (xs ys : List (String × ℕ)) → times t (xs ++ ys) ≡ times t xs + times t ys
times-append t [] ys = omega arith
times-append t ((e, c) ∷ xs) ys = ground (arith, times-append t xs ys)

-- What is subscribed already, and what a loop adds to it
abbrev Adds : String → Bool → List String → List (String × ℕ) × List String → Type 0
Adds t handled seen r =
    (includes r.1 t ≡ (includes seen t || handled))
    × (times t r.0 + once (includes seen t) ≡ once (includes seen t || handled))

includes-same : (x t : String) (xs : List String) → x ≡ t → includes xs x ≡ includes xs t
includes-same x t xs h = ap (includes xs) h

subscribe_types-Adds :
    (c : ℕ) (ts seen : List String) (t : String)
    → Adds t (includes ts t) seen (subscribe_types c ts seen)
unfolding subscribe_types includes
subscribe_types-Adds c [] seen t = (ground arith, ground arith)
subscribe_types-Adds c (x ∷ ts) seen t =
    let skipped = subscribe_types-Adds c ts seen t in
    let taken = subscribe_types-Adds c ts (x ∷ seen) t in
    let same = includes-same x t seen in
    (
      ground (arith, skipped, taken, same, eq_iff x t),
      ground (arith, skipped, taken, same, eq_iff x t),
    )

subscribe_sagas-Adds :
    {B S T : Type 0} (worker : WorkerConfig B T) (sagas : List (Saga B S T)) (seen : List String)
    (t : String)
    → Adds t
        (any (λ saga. includes saga.handled_message_types t) sagas)
        seen
        (subscribe_sagas worker sagas seen)
unfolding subscribe_sagas
subscribe_sagas-Adds worker [] seen t = (ground arith, ground arith)
subscribe_sagas-Adds worker (saga ∷ sagas) seen t =
    let c : ℕ = concurrency_of worker saga.name in
    let types : List String = saga.handled_message_types in
    let here : List (String × ℕ) × List String = subscribe_types c types seen in
    let rest : List (String × ℕ) × List String = subscribe_sagas worker sagas here.1 in
    let own = subscribe_types-Adds c types seen t in
    let others = subscribe_sagas-Adds worker sagas here.1 t in
    let joined = times-append t here.0 rest.0 in
    (ground (arith, own, others), ground (arith, own, others, joined))

-- Every endpoint that is a message type which some saga handles is subscribed exactly once, and no
-- other is subscribed.
pub times-subscriptions :
    {B S T : Type 0} (bus : Bus B S T) (t : String)
    → times t (subscriptions bus)
      ≡ (if any (λ saga. includes saga.handled_message_types t) bus.sagas then 1 else 0)
unfolding subscriptions includes
times-subscriptions bus t = ground (arith, (subscribe_sagas-Adds bus.worker bus.sagas [] t).1)
