-- ===== src/Transport/Memory/Order.antt =====
-- The permits that InMemoryTransport asks for, and in which order.
use saga_bus.Messages.{Number, is_positive}
use saga_bus.Transport.Memory.{
  take_timer, enqueue, run_next, run_timer, deliver_to_subscribers, step, subscribe, publish,
  Delivery, Event, MemoryTransport, Request, deliver_to_subscribers, publish, run, step, stop, tick,
  expire, take_timer, starts, stops, cleared, ticks, subscribed, published, expires, subscribe,
  clear_subscriptions,
}
use saga_bus.Prelude.{
  ℕ, zero, suc, ◌≡◌, refl, ap, ◌∙◌, inl, inr, Bool, true, false, Option, none, some, List, [], ◌∷◌,
  ◌++◌, arith, Bool-cases, All,
}
use saga_bus.Prelude.Dict.{Dict}
use saga_bus.Prelude.Dict

module _ {B H : Type 0} where
  abbrev is_restart : Event B H → Bool
  is_restart starts = true
  is_restart e = false

  deliver-stopped :
      (d : Delivery B) (t : MemoryTransport B H)
      → t.started ≡ false
      → deliver_to_subscribers d t ≡ []
  unfolding deliver_to_subscribers
  deliver-stopped d t stopped = rw stopped refl

  run_next-stopped :
      (ds : List (Delivery B)) (t : MemoryTransport B H)
      → t.started ≡ false
      → ((run_next ds t).0 ≡ []) × ((run_next ds t).1.started ≡ false)
  unfolding run_next
  run_next-stopped [] t stopped = (refl, stopped)
  run_next-stopped (d ∷ rest) t stopped = (deliver-stopped d t stopped, stopped)

  run_timer-stopped :
      (found : Option (Number × Delivery B)) (t : MemoryTransport B H)
      → t.started ≡ false
      → run_timer found t ≡ []
  unfolding run_timer
  run_timer-stopped none t stopped = refl
  run_timer-stopped (some (ms, d)) t stopped = deliver-stopped d t stopped

  enqueue-started :
      (delay : Option Number) (d : Delivery B) (t : MemoryTransport B H)
      → (enqueue delay d t).started ≡ t.started
  unfolding enqueue
  enqueue-started none d t = refl
  enqueue-started (some ms) d t = elim (Bool-cases (is_positive ms)) [
    | inl positive ↦ rw positive refl
    | inr other ↦ rw other refl
  ]

  -- A stopped transport asks for no permit and stays stopped, whatever happens but a start.
  step-stopped :
      (e : Event B H) (t : MemoryTransport B H)
      → is_restart e ≡ false
      → t.started ≡ false
      → ((step e t).0 ≡ []) × ((step e t).1.started ≡ false)
  unfolding step stop subscribe clear_subscriptions publish tick expire
  step-stopped starts t h stopped = ground (arith, h)
  step-stopped stops t h stopped = (refl, refl)
  step-stopped cleared t h stopped = (refl, stopped)
  step-stopped ticks t h stopped = run_next-stopped t.immediates t stopped
  step-stopped (subscribed endpoint concurrency handler) t h stopped = (refl, stopped)
  step-stopped (published id timestamp m o) t h stopped =
      (refl, enqueue-started o.delay_ms _ t ∙ stopped)
  step-stopped (expires n) t h stopped =
      (run_timer-stopped (take_timer n t.pending_timeouts).0 t stopped, stopped)

  run-stopped :
      (es : List (Event B H)) (t : MemoryTransport B H)
      → All (λ e. is_restart e ≡ false) es
      → t.started ≡ false
      → (run es t).0 ≡ []
  unfolding run
  run-stopped [] t quiet stopped = refl
  run-stopped (e ∷ es) t (here, others) stopped =
      let (none_now, still) = step-stopped e t here stopped in
      ap (λ requests. requests ++ (run es (step e t).1).0) none_now
      ∙ run-stopped es (step e t).1 others still

  -- Once stopped, the transport asks no semaphore for a permit to call a handler, whatever happens to
  -- it, until it is started again. Requests that were made before are not taken back.
  pub run-stop :
      (es : List (Event B H)) (t : MemoryTransport B H)
      → All (λ e. is_restart e ≡ false) es
      → (run es (stop t)).0 ≡ []
  unfolding stop
  run-stop es t quiet = run-stopped es (stop t) quiet refl

  -- So many turns of the event loop
  abbrev pub turns : ℕ → List (Event B H)
  turns zero = []
  turns (suc n) = ticks ∷ turns n

  abbrev pub delivered : List (Delivery B) → MemoryTransport B H → List (Request B H)
  delivered [] t = []
  delivered (d ∷ ds) t = deliver_to_subscribers d t ++ delivered ds t
