-- ===== src/Client.antt =====
-- runtime/client/ulk_client.c and include/ulk/ulk_client.h: a client and the transport that it calls.
pub mod Examples
pub mod Forwarding
use universal_launcher.Prelude.{
  ℕ, zero, suc, ◌+◌, ◌-◌, ◌*◌, ◌/◌, ◌%◌, ◌^◌, ◌≤◌, ◌<◌, ◌≡◌, refl, sym, ap, ◌∙◌, ◌≢◌, ◌↔◌, ◌⊎◌, inl,
  inr, Bool, true, false, not, ◌&&◌, ◌||◌, Option, none, some, List, [], ◌∷◌, ◌++◌, append_assoc,
  append-nil, arith, ltb, leb, ◌==◌, if◌then◌else◌, ltb→lt, lt→ltb, ltb-false, leb→le, ==_iff,
  tests, Bool-cases, Option-cases, and_true, ◌>>=◌, ◌>>◌, guard, >>=-eq-some, length, all, is_nil,
  take, drop, length-append, All, All-append, All-mono, Any, All-Any, Bytes, codes, bytes_eq,
  bytes_eq_iff, bytes_eq_refl, c_string, IsTextByte, IsText, c_string-IsText, Lacks, between, ℤ,
  pos, negsuc, ◌==ℤ◌, ==ℤ_iff, ltb_ℤ,
}
use mathlib.Core.Path.{subst}
use universal_launcher.View.{
  StringView, null, at, size, view_is_valid, Status, ok, invalid_argument, is_ok, status_code,
}
use universal_launcher.Command.{
  CommandRequest, CommandResponse, sizeof_request_v1, sizeof_response_v1,
}

-- The enumerators, and any other value of the field.
pub data TransportKind : Type 0 where
  direct process daemon : TransportKind
  other_kind : ℤ → TransportKind

-- ulk_transport_adapter_v1: the function is a number, a null pointer is `none`.
pub record TransportAdapter : Type 0 where
  pub struct_size : ℕ
  pub kind : TransportKind
  pub revision : StringView
  pub execute : Option ℕ
  pub user_data : ℕ

pub record Client : Type 0 where
  pub struct_size : ℕ
  pub transport : TransportAdapter

abbrev pub sizeof_transport : ℕ
sizeof_transport = 48

abbrev pub sizeof_client : ℕ
sizeof_client = 56

unfoldable pub transport_kind_is_valid : TransportKind → Bool
transport_kind_is_valid (other_kind n) = false
transport_kind_is_valid _ = true

abbrev pub is_absent : Option ℕ → Bool
is_absent none = true
is_absent (some n) = false

abbrev pub transport_refused : TransportAdapter → Bool
transport_refused t =
    ltb t.struct_size sizeof_transport
    || not (transport_kind_is_valid t.kind)
    || not (view_is_valid t.revision)
    || (size t.revision == 0)
    || is_absent t.execute

-- The status, and the client as it is left.
unfoldable pub client_initialize : Option Client → Option TransportAdapter → Status × Option Client
unfolding transport_kind_is_valid view_is_valid
client_initialize none transport = (invalid_argument, none)
client_initialize (some client) none = (invalid_argument, some client)
client_initialize (some client) (some transport) =
    if ltb client.struct_size sizeof_client || transport_refused transport
    then (invalid_argument, some client)
    else (ok, some (record client { transport = transport }))

abbrev pub request_refused : CommandRequest → Bool
request_refused request =
    ltb request.struct_size sizeof_request_v1
    || not (view_is_valid request.command_name)
    || (size request.command_name == 0)
    || not (view_is_valid request.json_payload)

-- The int, the response and the world behind the transport, as they are left.
pub record Reply (World : Type 0) : Type 0 where
  pub code : ℤ
  pub response : Option CommandResponse
  pub world : World

-- `call execute user_data request response world` is the call of a transport's function.
module _ {World : Type 0}
    (call : ℕ → ℕ → CommandRequest → CommandResponse → World → Reply World) where
  abbrev pub refusal : Option CommandResponse → World → Reply World
  refusal response world = record {
    code = status_code invalid_argument;
    response = response;
    world = world;
  }

  unfoldable pub forward :
      TransportAdapter → Option ℕ → CommandRequest → CommandResponse → World → Reply World
  forward transport none request response world = refusal (some response) world
  forward transport (some execute) request response world =
      call execute transport.user_data request response world

  unfoldable pub client_execute :
      Option Client → Option CommandRequest → Option CommandResponse → World → Reply World
  unfolding transport_kind_is_valid view_is_valid forward status_code
  client_execute none request response world = refusal response world
  client_execute (some client) none response world = refusal response world
  client_execute (some client) (some request) none world = refusal none world
  client_execute (some client) (some request) (some response) world =
      let forwarded = forward client.transport client.transport.execute request response world in
      if ltb client.struct_size sizeof_client
        || ltb client.transport.struct_size sizeof_transport
        || not (transport_kind_is_valid client.transport.kind)
        || request_refused request
        || ltb response.struct_size sizeof_response_v1
      then refusal (some response) world
      else forwarded

unfoldable pub transport_kind_name : TransportKind → StringView
transport_kind_name direct = at (codes "direct")
transport_kind_name process = at (codes "process")
transport_kind_name daemon = at (codes "daemon")
transport_kind_name (other_kind n) = at (codes "unknown")
