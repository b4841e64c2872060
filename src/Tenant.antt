-- ===== src/Tenant.antt =====
-- packages/middleware-tenant/src/: TenantMiddleware.ts, TenantContext.ts and the errors of types.ts.
-- The value that AsyncLocalStorage holds for the running code is a part of the state; the envelope
-- that the errors carry is left out.
pub mod Isolation
pub mod Prefix
use Prim.Native.Char.{code}
use saga_bus.Dsl.{includes}
use saga_bus.Errors.{Error, other, plain}
use saga_bus.Messages.{Envelope}
use saga_bus.Pipeline.{Action, Done, Middleware, call_next, stop}
use saga_bus.Prelude.{
  String, Bool, true, false, not, ◌&&◌, Option, none, some, List, truthy, is_some, nat_eq,
  if◌then◌else◌, ◌<?>◌,
}
use saga_bus.Prelude.Dict.{Dict}
use saga_bus.Prelude.Exec.{Result, Slot, err, ok}
use saga_bus.Prelude.Texts.{◌<>◌}
use saga_bus.Prelude.Dict

pub data Strategy : Type 0 where
  by_header by_correlation_prefix custom : Strategy

-- TenantInfo
pub record TenantInfo : Type 0 where
  pub tenant_id : String
  pub original_saga_id : Option String

-- TenantMiddlewareOptions
pub record TenantOptions (B : Type 0) : Type 0 where
  pub strategy : Option Strategy
  pub resolver : Option (Envelope B → Option String)
  pub header_name : Option String
  pub correlation_separator : Option String
  pub required : Option Bool
  pub default_tenant_id : Option String
  pub allowed_tenants : Option (List String)
  pub prefix_saga_id : Option Bool

-- What the middleware sees of the state: the envelope, the saga id of the pipeline context, and the
-- tenant of the running code.
pub record TenantView (B W : Type 0) : Type 0 where
  pub envelope_in : W → Envelope B
  pub saga_id_in : W → Option String
  pub with_saga_id : String → W → W
  pub tenant_info : Slot W (Option TenantInfo)

unfoldable pub strategy_name : Strategy → String
strategy_name by_header = "header"
strategy_name by_correlation_prefix = "correlation-prefix"
strategy_name custom = "custom"

-- What is left of a text behind a prefix
unfoldable pub behind : String → String → Option String
behind String.[] s = some s
behind (String.◌∷◌ c p) String.[] = none
behind (String.◌∷◌ c p) (String.◌∷◌ d s) =
    let rest = behind p s in if nat_eq (code c) (code d) then rest else none

-- `s.slice(0, s.indexOf(separator))`, or `none` where indexOf gives -1
unfoldable pub before_separator : String → String → Option String
unfolding behind
before_separator separator String.[] = if is_some (behind separator "") then some "" else none
before_separator separator (String.◌∷◌ c s) =
    let later = before_separator separator s in
    if is_some (behind separator (String.◌∷◌ c s))
    then some ""
    else elim later [ none ↦ none | some t ↦ some (String.◌∷◌ c t) ]

unfoldable pub from_prefix : String → Option String → Option String
unfolding before_separator
from_prefix separator none = none
from_prefix separator (some key) = if truthy key then before_separator separator key else none

module _ {B : Type 0} where
  -- createResolver
  unfoldable pub create_resolver :
      Strategy → String → String → Result Error (Envelope B → Option String)
  unfolding from_prefix
  create_resolver by_header header_name separator =
      ok (λ envelope. Dict.get header_name envelope.headers)
  create_resolver by_correlation_prefix header_name separator =
      ok (λ envelope. from_prefix separator envelope.partition_key)
  create_resolver custom header_name separator =
      err (plain "Custom strategy requires a resolver function")

  -- createTenantPublisher
  unfoldable pub create_tenant_publisher : Option String → Envelope B → String → Envelope B
  create_tenant_publisher header_name envelope tenant_id = record envelope {
    headers = Dict.set (header_name <?> "x-tenant-id") tenant_id envelope.headers;
  }

module _ {B W : Type 0} (options : TenantOptions B) (view : TenantView B W) where
  abbrev pub strategy : Strategy
  strategy = options.strategy <?> by_header

  abbrev pub unresolved : Error
  unfolding ◌<>◌ strategy_name
  unresolved = other "TenantResolutionError" (
      "Could not resolve tenant ID from message using strategy \""
      <> strategy_name strategy
      <> "\"")

  abbrev pub not_allowed : String → Error
  unfolding ◌<>◌
  not_allowed tenant_id =
      other "TenantNotAllowedError" ("Tenant \"" <> tenant_id <> "\" is not allowed")

  -- A tenant on the list, where there is a list
  abbrev pub is_allowed : String → Bool
  is_allowed tenant_id = elim options.allowed_tenants [
    | none ↦ true
    | some allowed ↦ includes allowed tenant_id
  ]

  -- The tenant of a message, the empty text if there is none
  unfoldable pub resolve_tenant : Option String → Result Error String
  resolve_tenant found =
      if truthy (found <?> "")
      then ok (found <?> "")
      else if options.required <?> true
      then err unresolved
      else ok (options.default_tenant_id <?> "")

  -- Modify the saga id, if there is one to be modified.
  unfoldable pub prefixed : String → W → Option String × W
  unfolding ◌<>◌
  prefixed tenant_id w =
      let saga_id = view.saga_id_in w <?> "" in
      if (options.prefix_saga_id <?> true) && truthy saga_id
      then (some saga_id, view.with_saga_id (tenant_id <> ":" <> saga_id) w)
      else (none, w)

  -- runWithTenant: the tenant is there for the code inside, and what was there before comes back.
  unfoldable pub run_with_tenant : TenantInfo → W → Action W
  run_with_tenant info w =
      call_next (view.tenant_info.put (some info) w)
        (λ r w'. stop r (view.tenant_info.put (view.tenant_info.look w) w'))

  unfoldable pub enter_tenant : String → W → Action W
  unfolding prefixed run_with_tenant includes
  enter_tenant tenant_id w =
      let (original_saga_id, w') = prefixed tenant_id w in
      if is_allowed tenant_id
      then run_with_tenant (record { tenant_id = tenant_id; original_saga_id = original_saga_id })
          w'
      else stop (err (not_allowed tenant_id)) w

  unfoldable pub for_tenant : Result Error String → W → Action W
  unfolding enter_tenant
  for_tenant (err e) w = stop (err e) w
  for_tenant (ok tenant_id) w =
      if truthy tenant_id then enter_tenant tenant_id w else call_next w stop

  unfoldable pub tenant_middleware : (Envelope B → Option String) → Middleware W
  unfolding resolve_tenant for_tenant
  tenant_middleware resolver w = for_tenant (resolve_tenant (resolver (view.envelope_in w))) w

  unfoldable pub with_resolver :
      Result Error (Envelope B → Option String) → Result Error (Middleware W)
  unfolding tenant_middleware
  with_resolver (ok resolver) = ok (tenant_middleware resolver)
  with_resolver (err e) = err e

  -- createTenantMiddleware; a resolver of the user comes before the strategy.
  unfoldable pub create_tenant_middleware : Result Error (Middleware W)
  unfolding with_resolver create_resolver
  create_tenant_middleware = elim options.resolver [
    | some resolver ↦ with_resolver (ok resolver)
    | none ↦ with_resolver (
        create_resolver strategy (options.header_name <?> "x-tenant-id")
          (options.correlation_separator <?> ":"))
  ]

  -- getTenantId and requireTenantId
  unfoldable pub get_tenant_id : W → Option String
  get_tenant_id w = elim (view.tenant_info.look w) [ none ↦ none | some info ↦ some info.tenant_id ]

  unfoldable pub require_tenant_id : W → Result Error String
  unfolding get_tenant_id
  require_tenant_id w =
      let tenant_id = get_tenant_id w <?> "" in
      if truthy tenant_id then ok tenant_id else err (plain "No tenant context available")
