-- ===== src/Context/Publishing.antt =====
-- publish and schedule of SagaContextImpl.ts: which endpoint and delay the transport is given.
use saga_bus.Context.{send, publish, schedule, Context, schedule}
use saga_bus.Interfaces.{TransportOps, Env}
use saga_bus.Messages.{Message, PartialOptions, Number}
use saga_bus.Prelude.{◌≡◌, refl, ap, Option, none, some, ◌<?>◌, ◌<|>◌}

module _ {B V T : Type 0} (ops : TransportOps B T) (ctx : Context B V) (env : Env T) where
  -- schedule is publish with a delay, unless the options bring one: then it is publish with those
  -- options, and the delay that schedule was given is not used.
  pub schedule-publish :
      (m : Message B) (delay : Number) (options : PartialOptions)
      → schedule {V = V} ops m delay options (ctx, env)
        ≡ publish ops m (record options { delay_ms = some (options.delay_ms <?> delay) }) (ctx, env)
  unfolding schedule publish
  schedule-publish m delay options =
      ap (λ d. send ops m options d (ctx, env)) (joined options.delay_ms)
    where
      joined : (o : Option Number) → (o <|> some delay) ≡ some (o <?> delay)
      joined none = refl
      joined (some d) = refl
