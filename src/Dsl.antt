-- ===== src/Dsl.antt =====
-- packages/core/src/dsl/: the builder of saga definitions and the definition that it builds.
-- Correlation functions and guards are pure functions that do not throw; handlers and initial
-- state factories act on the context and the transport, and may throw.
pub mod Build
pub mod Dispatch
pub mod Types
use saga_bus.Messages.{Message, type_of}
use saga_bus.Errors.{Error, plain}
use saga_bus.State.{SagaState, HandlerResult}
use saga_bus.Context.{Session}
use saga_bus.Prelude.{
  String, Bool, true, false, not, ◌&&◌, ◌||◌, Option, none, some, List, [], ◌∷◌, ◌++◌, ◌==◌, truthy,
  if◌then◌else◌, ◌<?>◌, is_some, any, first,
}
use saga_bus.Prelude.Dict.{Dict}
use saga_bus.Prelude.Exec.{Result, ok, err, Exec, pure, throw}
use saga_bus.Prelude.Texts.{◌<>◌}
use saga_bus.Prelude.Dict

-- CorrelationConfig, and SagaCorrelation
pub record Correlation (B : Type 0) : Type 0 where
  pub can_start : Bool
  pub get_correlation_id : Message B → Option String

-- SagaHandler and InitialStateFactory
abbrev pub Handler : Type 0 → Type 0 → Type 0 → Type 0 → Type 0
Handler B D V T = Message B → SagaState D → Exec Error (Session B V T) (HandlerResult D)

abbrev pub Factory : Type 0 → Type 0 → Type 0 → Type 0 → Type 0
Factory B D V T = Message B → Exec Error (Session B V T) (SagaState D)

-- StateGuard
abbrev pub Guard : Type 0 → Type 0
Guard D = SagaState D → Bool

-- HandlerRegistration
pub record Registration (B D V T : Type 0) : Type 0 where
  pub message_type : String
  pub guard : Option (Guard D)
  pub handler : Handler B D V T

-- SagaMachineBuilder
pub record Builder (B D V T : Type 0) : Type 0 where
  pub saga_name : Option String
  pub correlations : Dict (Correlation B)
  pub wildcard_correlation : Option (Correlation B)
  pub handlers : Dict (List (Registration B D V T))
  pub initial_factory : Option (Factory B D V T)

-- SagaDefinitionImpl
pub record Definition (B D V T : Type 0) : Type 0 where
  pub name : String
  pub handled_message_types : List String
  pub correlations : Dict (Correlation B)
  pub wildcard_correlation : Option (Correlation B)
  pub handlers : Dict (List (Registration B D V T))
  pub initial_factory : Option (Factory B D V T)

-- HandlerBuilder: the guard that the calls of `when` have joined, and the message type
pub record HandlerBuilder (D : Type 0) : Type 0 where
  pub message_type : String
  pub guard : Option (Guard D)

-- Set.add, on the texts in insertion order
unfoldable pub includes : List String → String → Bool
includes [] t = false
includes (x ∷ xs) t = x == t || includes xs t

unfoldable pub add : String → List String → List String
unfolding includes
add t xs = if includes xs t then xs else xs ++ t ∷ []

unfoldable pub add_all : List String → List String → List String
unfolding add
add_all [] xs = xs
add_all (t ∷ ts) xs = add_all ts (add t xs)

-- builder.on(type); `handle_with` is .handle(handler).
unfoldable pub on : {D : Type 0} → String → HandlerBuilder D
on message_type = record { message_type = message_type; guard = none }

-- No guard, or a guard that passes.
unfoldable pub passes : {D : Type 0} → Option (Guard D) → SagaState D → Bool
passes none state = true
passes (some guard) state = guard state

-- A further guard is joined to the one that is there.
unfoldable pub when : {D : Type 0} → Guard D → HandlerBuilder D → HandlerBuilder D
when guard h = elim h.guard [
  | none ↦ record h { guard = some guard }
  | some existing ↦ record h { guard = some (λ state. existing state && guard state) }
]

module _ {B D V T : Type 0} where
  -- createSagaMachine()
  unfoldable pub create_saga_machine : Builder B D V T
  create_saga_machine = record {
    saga_name = none;
    correlations = [];
    wildcard_correlation = none;
    handlers = [];
    initial_factory = none;
  }

  unfoldable pub named : String → Builder B D V T → Builder B D V T
  named saga_name b = record b { saga_name = some saga_name }

  unfoldable pub correlate :
      String → (Message B → Option String) → Option Bool → Builder B D V T → Builder B D V T
  correlate message_type get_correlation_id can_start b =
      let config : Correlation B = record {
        can_start = can_start <?> false;
        get_correlation_id = get_correlation_id;
      } in
      if message_type == "*"
      then record b { wildcard_correlation = some config }
      else record b { correlations = Dict.set message_type config b.correlations }

  unfoldable pub initial : Factory B D V T → Builder B D V T → Builder B D V T
  initial factory b = record b { initial_factory = some factory }

  -- _registerHandler
  unfoldable pub register_handler : Registration B D V T → Builder B D V T → Builder B D V T
  register_handler r b = record b {
    handlers =
        Dict.set r.message_type ((Dict.get r.message_type b.handlers <?> []) ++ r ∷ []) b.handlers;
  }

  unfoldable pub handle_with :
      HandlerBuilder D → Handler B D V T → Builder B D V T → Builder B D V T
  unfolding register_handler
  handle_with h handler b =
      register_handler
        (record { message_type = h.message_type; guard = h.guard; handler = handler }) b

  -- Some correlation by type or the wildcard can start a saga.
  unfoldable pub has_starting : Builder B D V T → Bool
  has_starting b =
      any (λ c. c.can_start) (Dict.values b.correlations)
      || (elim b.wildcard_correlation [ none ↦ false | some c ↦ c.can_start ])

  -- new SagaDefinitionImpl({...})
  unfoldable pub definition_of : String → Builder B D V T → Definition B D V T
  unfolding add_all
  definition_of name b = record {
    name = name;
    handled_message_types = add_all (Dict.keys b.handlers) (add_all (Dict.keys b.correlations) []);
    correlations = b.correlations;
    wildcard_correlation = b.wildcard_correlation;
    handlers = b.handlers;
    initial_factory = b.initial_factory;
  }

  unfoldable pub build_named : String → Builder B D V T → Result Error (Definition B D V T)
  unfolding has_starting definition_of ◌<>◌
  build_named saga_name b =
      if not (truthy saga_name)
      then err (plain "Saga name is required. Call .name() before .build()")
      else if not (has_starting b)
      then err (plain ("Saga \"" <> saga_name <> "\" has no correlation with canStart: true"))
      else if not (is_some b.initial_factory)
      then err (
          plain (
            "Saga \"" <> saga_name
            <> "\" requires an initial state factory. Call .initial() before .build()"))
      else ok (definition_of saga_name b)

  unfoldable pub build : Builder B D V T → Result Error (Definition B D V T)
  unfolding build_named
  build b = build_named (b.saga_name <?> "") b

  -- A correlation for the type comes first, then the wildcard.
  unfoldable pub get_correlation : Definition B D V T → Message B → Correlation B
  get_correlation d m =
      Dict.get (type_of m) d.correlations
      <?> d.wildcard_correlation
      <?> (record { can_start = false; get_correlation_id = λ _. none })

  unfoldable pub run_factory : String → Option (Factory B D V T) → Factory B D V T
  unfolding ◌<>◌
  run_factory name none m =
      throw (plain ("No initial state factory defined for saga \"" <> name <> "\""))
  run_factory name (some factory) m = factory m

  unfoldable pub create_initial_state : Definition B D V T → Factory B D V T
  unfolding run_factory
  create_initial_state d m = run_factory d.name d.initial_factory m

  unfoldable pub admits : SagaState D → Registration B D V T → Bool
  unfolding passes
  admits state r = passes r.guard state

  -- The first registration that admits the state handles; with none the state stays.
  unfoldable pub run_first : Option (Registration B D V T) → Handler B D V T
  run_first none m state = pure (record { new_state = state; is_completed = none })
  run_first (some r) m state = r.handler m state

  unfoldable pub handle : Definition B D V T → Handler B D V T
  unfolding run_first admits
  handle d m state =
      run_first (first (admits state) (Dict.get (type_of m) d.handlers <?> [])) m state
