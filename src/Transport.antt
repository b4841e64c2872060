-- ===== src/Transport.antt =====
-- The envelope that a transport builds around a published message, as
-- packages/transport-inmemory/src/InMemoryTransport.ts does.
pub mod Memory
pub mod Semaphore
use saga_bus.Messages.{Message, Envelope, PublishOptions, type_of}
use saga_bus.Prelude.{ℕ, String, [], ◌<?>◌}

-- The envelope under a fresh id and time: the type mirrors the message, the headers are copied.
unfoldable pub envelope_of : {B : Type 0} → String → ℕ → Message B → PublishOptions → Envelope B
envelope_of id timestamp m options = record {
  id = id;
  type = type_of m;
  payload = m;
  headers = options.headers <?> [];
  timestamp = timestamp;
  partition_key = options.key;
}
