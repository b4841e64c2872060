-- ===== src/Transport/Memory.antt =====
-- packages/transport-inmemory/src/InMemoryTransport.ts: subscriptions, the deliveries that wait for
-- the event loop, and those that wait for a timer. A handler is known by a value of type `H`. What a
-- delivery returns are its calls of `semaphore.withPermit`, in their order: the handler itself is
-- called once the semaphore of its subscription (Transport/Semaphore.antt) grants a permit, which may
-- be later than the handlers of later requests, and after stop.
pub mod Order
use saga_bus.Messages.{Message, Envelope, PublishOptions, Number, is_positive}
use saga_bus.Transport.{envelope_of}
use saga_bus.Transport.Semaphore.{Semaphore, new_semaphore}
use saga_bus.Prelude.{
  ℕ, zero, suc, String, Bool, true, false, Option, none, some, List, [], ◌∷◌, ◌++◌, if◌then◌else◌,
  ◌<?>◌, length,
}
use saga_bus.Prelude.Dict.{Dict}
use saga_bus.Prelude.Dict

pub record Subscription (H : Type 0) : Type 0 where
  pub endpoint : String
  pub handler : H
  pub semaphore : Semaphore

pub record Delivery (B : Type 0) : Type 0 where
  pub endpoint : String
  pub envelope : Envelope B

pub record MemoryTransport (B H : Type 0) : Type 0 where
  pub subscriptions : Dict (List (Subscription H))
  pub pending_timeouts : List (Number × Delivery B)
  pub immediates : List (Delivery B)
  pub default_concurrency : ℕ
  pub started : Bool

-- `sub.semaphore.withPermit(...)` for the handler of a subscription and an envelope
pub record Request (B H : Type 0) : Type 0 where
  pub subscription : Subscription H
  pub envelope : Envelope B

-- map, as the deliveries of one message are started
unfoldable pub permit_requests :
    {B H : Type 0} → Envelope B → List (Subscription H) → List (Request B H)
permit_requests envelope [] = []
permit_requests envelope (s ∷ ss) =
    record { subscription = s; envelope = envelope } ∷ permit_requests envelope ss

-- The n-th timer, and the others
unfoldable pub take_timer : {A : Type 0} → ℕ → List A → Option A × List A
take_timer n [] = (none, [])
take_timer zero (x ∷ xs) = (some x, xs)
take_timer (suc n) (x ∷ xs) = let (found, rest) = take_timer n xs in (found, x ∷ rest)

unfoldable pub new_transport : (B H : Type 0) → Option ℕ → MemoryTransport B H
new_transport B H default_concurrency = record {
  subscriptions = [];
  pending_timeouts = [];
  immediates = [];
  default_concurrency = default_concurrency <?> 1;
  started = false;
}

module _ {B H : Type 0} where
  unfoldable pub start : MemoryTransport B H → MemoryTransport B H
  start t = record t { started = true }

  -- The timers are cleared; a delivery that waits for the event loop stays.
  unfoldable pub stop : MemoryTransport B H → MemoryTransport B H
  stop t = record t { started = false; pending_timeouts = [] }

  unfoldable pub subscribe : String → Option ℕ → H → MemoryTransport B H → MemoryTransport B H
  unfolding new_semaphore
  subscribe endpoint concurrency handler t =
      let subscription : Subscription H = record {
        endpoint = endpoint;
        handler = handler;
        semaphore = new_semaphore (concurrency <?> t.default_concurrency);
      } in
      record t {
        subscriptions =
            Dict.set endpoint (Dict.get endpoint t.subscriptions <?> [] ++ subscription ∷ [])
              t.subscriptions;
      }

  -- setTimeout for a positive delay, else setImmediate
  unfoldable pub enqueue : Option Number → Delivery B → MemoryTransport B H → MemoryTransport B H
  enqueue none d t = record t { immediates = t.immediates ++ d ∷ [] }
  enqueue (some ms) d t =
      if is_positive ms
      then record t { pending_timeouts = t.pending_timeouts ++ (ms, d) ∷ [] }
      else record t { immediates = t.immediates ++ d ∷ [] }

  -- The id and the time are those of the platform.
  unfoldable pub publish :
      String → ℕ → Message B → PublishOptions → MemoryTransport B H → MemoryTransport B H
  unfolding envelope_of enqueue
  publish id timestamp m options =
      enqueue options.delay_ms
        (record { endpoint = options.endpoint; envelope = envelope_of id timestamp m options })

  -- A stopped transport asks for no permit.
  unfoldable pub deliver_to_subscribers : Delivery B → MemoryTransport B H → List (Request B H)
  unfolding permit_requests
  deliver_to_subscribers d t =
      if t.started
      then permit_requests d.envelope (Dict.get d.endpoint t.subscriptions <?> [])
      else []

  unfoldable pub run_next :
      List (Delivery B) → MemoryTransport B H → List (Request B H) × MemoryTransport B H
  unfolding deliver_to_subscribers
  run_next [] t = ([], t)
  run_next (d ∷ rest) t = (deliver_to_subscribers d t, record t { immediates = rest })

  -- The event loop runs the first waiting delivery.
  unfoldable pub tick : MemoryTransport B H → List (Request B H) × MemoryTransport B H
  unfolding run_next
  tick t = run_next t.immediates t

  unfoldable pub run_timer : Option (Number × Delivery B) → MemoryTransport B H → List (Request B H)
  unfolding deliver_to_subscribers
  run_timer none t = []
  run_timer (some (ms, d)) t = deliver_to_subscribers d t

  -- A timer runs off.
  unfoldable pub expire : ℕ → MemoryTransport B H → List (Request B H) × MemoryTransport B H
  unfolding take_timer run_timer
  expire n t =
      let (found, rest) = take_timer n t.pending_timeouts in
      (run_timer found t, record t { pending_timeouts = rest })

  unfoldable pub get_subscription_count : String → MemoryTransport B H → ℕ
  get_subscription_count endpoint t = length (Dict.get endpoint t.subscriptions <?> [])

  abbrev pub is_started : MemoryTransport B H → Bool
  is_started t = t.started

  unfoldable pub clear_subscriptions : MemoryTransport B H → MemoryTransport B H
  clear_subscriptions t = record t { subscriptions = [] }

-- What happens to a transport
pub data Event (B H : Type 0) : Type 0 where
  starts stops cleared ticks : Event B H
  subscribed : String → Option ℕ → H → Event B H
  published : String → ℕ → Message B → PublishOptions → Event B H
  expires : ℕ → Event B H

unfoldable pub step :
    {B H : Type 0} → Event B H → MemoryTransport B H → List (Request B H) × MemoryTransport B H
unfolding start stop clear_subscriptions tick subscribe publish expire
step starts t = ([], start t)
step stops t = ([], stop t)
step cleared t = ([], clear_subscriptions t)
step ticks t = tick t
step (subscribed endpoint concurrency handler) t = ([], subscribe endpoint concurrency handler t)
step (published id timestamp m options) t = ([], publish id timestamp m options t)
step (expires n) t = expire n t

-- The requests of all events in turn
unfoldable pub run :
    {B H : Type 0}
    → List (Event B H)
    → MemoryTransport B H
    → List (Request B H) × MemoryTransport B H
unfolding step
run [] t = ([], t)
run (e ∷ es) t =
    let (requests, t') = step e t in let (later, t'') = run es t' in (requests ++ later, t'')
