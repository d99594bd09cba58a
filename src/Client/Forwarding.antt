-- ===== src/Client/Forwarding.antt =====
-- What a client that was initialized does with a call.
use universal_launcher.Prelude.{
  ℕ, ◌≤◌, ◌<◌, ◌≡◌, ◌≢◌, refl, sym, ap, ◌∙◌, ◌⊎◌, inl, inr, Bool, true, false, not, ◌||◌, Option,
  none, some, arith, ltb, ◌==◌, if◌then◌else◌, Bool-cases, length, Bytes,
}
use mathlib.Core.Path.{subst}
use universal_launcher.View.{
  StringView, null, at, size, view_is_valid, ok, invalid_argument, status_code,
}
use universal_launcher.Command.{CommandRequest, CommandResponse, sizeof_response_v1}
use universal_launcher.Client.{
  TransportAdapter, Client, sizeof_client, sizeof_transport, transport_kind_is_valid, is_absent,
  transport_refused, client_initialize, request_refused, Reply, refusal, forward, client_execute,
}

-- A view that covers bytes, or the empty view of a null pointer.
abbrev pub IsReadable : StringView → Type 0
IsReadable v = ((s : Bytes) × (v ≡ at s)) ⊎ (v ≡ null 0)

-- A request of full size with a name that is not empty and a payload that can be read.
pub record IsRequest (q : CommandRequest) : Type 0 where
  pub whole : 48 ≤ q.struct_size
  pub named : (s : Bytes) × (q.command_name ≡ at s) × (0 < length s)
  pub payload : IsReadable q.json_payload

-- The call has such a request and a response of full size.
pub record IsServed (request : Option CommandRequest) (response : Option CommandResponse)
    (q : CommandRequest) (p : CommandResponse) : Type 0 where
  pub requested : request ≡ some q
  pub responds : response ≡ some p
  pub valid : IsRequest q
  pub whole : 80 ≤ p.struct_size

readable_lem : (v : StringView) → view_is_valid v ≡ true → IsReadable v
unfolding view_is_valid
readable_lem (null n) h = inr (ap null (ground (arith, h)))
readable_lem (at s) h = inl (s, refl)

IsReadable-valid : (v : StringView) → IsReadable v → view_is_valid v ≡ true
unfolding view_is_valid
IsReadable-valid v (inl (s, e)) = rw (e) (ground arith)
IsReadable-valid v (inr e) = rw (e) refl

named_lem :
    (v : StringView)
    → view_is_valid v ≡ true
    → (size v == 0) ≡ false
    → (s : Bytes) × (v ≡ at s) × (0 < length s)
unfolding view_is_valid
named_lem (null n) h e = absurd (ground (arith, h, e))
named_lem (at s) h e = (s, refl, ground (arith, e))

IsRequest-sound : (q : CommandRequest) → request_refused q ≡ false → IsRequest q
IsRequest-sound q h = record {
  whole = ground (arith, h);
  named = named_lem q.command_name (ground (arith, h)) (ground (arith, h));
  payload = readable_lem q.json_payload (ground (arith, h));
}

IsRequest-complete : (q : CommandRequest) → IsRequest q → request_refused q ≡ false
IsRequest-complete q r =
    let (s, e, l) = r.named in
    let named : view_is_valid q.command_name ≡ true =
      IsReadable-valid q.command_name (inl (s, e)) in
    let nonempty : (size q.command_name == 0) ≡ false = rw (e) (ground (arith, l)) in
    ground (arith, r.whole, named, nonempty, IsReadable-valid q.json_payload r.payload)

three :
    (a b c d f g : Bool)
    → (a || (b || not c || not d || f || g)) ≡ false
    → (a ≡ false) × ((b ≡ false) × (c ≡ true))
three a b c d f g h = (ground (arith, h), (ground (arith, h), ground (arith, h)))

none_lem : {A : Type 0} (a : A) → none ≢ some a
none_lem a e = ground (arith, e)

some_lem : {A : Type 0} {a b : A} → some a ≡ some b → a ≡ b
some_lem e = cc

module _ {World : Type 0}
    (call : ℕ → ℕ → CommandRequest → CommandResponse → World → Reply World) where
  accepted :
      (client : Client) (transport : TransportAdapter) (execute : ℕ) (request : CommandRequest)
      (response : CommandResponse) (world : World)
      → (ltb client.struct_size sizeof_client || transport_refused transport) ≡ false
      → transport.execute ≡ some execute
      → client_execute call
          (some (record client { transport = transport }))
          (some request)
          (some response)
          world
        ≡ (if request_refused request || ltb response.struct_size sizeof_response_v1
            then refusal call (some response) world
            else call execute transport.user_data request response world)
  unfolding client_execute forward
  accepted client transport execute request response world r e =
      let (a, (b, c)) =
        three (ltb client.struct_size sizeof_client) (ltb transport.struct_size sizeof_transport)
          (transport_kind_is_valid transport.kind) (view_is_valid transport.revision)
          (size transport.revision == 0) (is_absent transport.execute) r in
      rw (a, client_execute) (rw (b) (rw (c) (rw (e, forward) refl)))

  -- What an execution does with the call: it forwards it or refuses it.
  abbrev pub Forwards :
      Client
      → TransportAdapter
      → ℕ
      → Option CommandRequest
      → Option CommandResponse
      → World
      → Type 0
  Forwards client transport execute request response world =
      ((q : CommandRequest) × (p : CommandResponse) × IsServed request response q p
        × (client_execute call (some client) request response world
            ≡ call execute transport.user_data q p world))
      ⊎ (((q : CommandRequest) (p : CommandResponse) → ¬ IsServed request response q p)
          × (client_execute call (some client) request response world
              ≡ record { code = status_code invalid_argument; response = response; world = world }))

  given_lem :
      (client : Client) (transport : TransportAdapter) (execute : ℕ) (request : CommandRequest)
      (response : CommandResponse) (world : World)
      → (ltb client.struct_size sizeof_client || transport_refused transport) ≡ false
      → transport.execute ≡ some execute
      → Forwards
          (record client { transport = transport })
          transport
          execute
          (some request)
          (some response)
          world
  given_lem client transport execute request response world r e =
      let done = accepted client transport execute request response world r e in
      elim (Bool-cases (request_refused request || ltb response.struct_size sizeof_response_v1)) [
        | inl refused ↦ inr (
          λ q p served.
              let valid =
                IsRequest-complete request
                  (subst IsRequest (sym (some_lem served.requested)) served.valid) in
              let whole =
                subst (λ (x : CommandResponse). 80 ≤ x.struct_size) (sym (some_lem served.responds))
                  served.whole in
              ground (arith, refused, valid, whole),
          done ∙ rw (refused) refl,
        )
        | inr passed ↦ inl (
          request,
          response,
          record {
            requested = refl;
            responds = refl;
            valid = IsRequest-sound request (ground (arith, passed));
            whole = ground (arith, passed);
          },
          done ∙ rw (passed) refl,
        )
      ]

  any_lem :
      (client : Client) (transport : TransportAdapter) (execute : ℕ)
      (request : Option CommandRequest) (response : Option CommandResponse) (world : World)
      → (ltb client.struct_size sizeof_client || transport_refused transport) ≡ false
      → transport.execute ≡ some execute
      → Forwards (record client { transport = transport }) transport execute request response world
  unfolding client_execute
  any_lem client transport execute none response world r e =
      inr (λ q p served. none_lem q served.requested, refl)
  any_lem client transport execute (some request) none world r e =
      inr (λ q p served. none_lem p served.responds, refl)
  any_lem client transport execute (some request) (some response) world r e =
      given_lem client transport execute request response world r e

  -- After a client was initialized with a transport, an execution either has a request of at
  -- least 48 bytes with a name that is not empty and a payload that can be read or is absent,
  -- and a response of at least 80 bytes, and then returns what the function of that transport
  -- returns with its user data, the request and the response; or it has no such request or no
  -- such response, null pointers included, and is refused with the response and the world as
  -- they were.
  pub client_execute-client_initialize :
      (client initialized : Client) (transport : TransportAdapter) (execute : ℕ)
      (request : Option CommandRequest) (response : Option CommandResponse) (world : World)
      → client_initialize (some client) (some transport) ≡ (ok, some initialized)
      → transport.execute ≡ some execute
      → Forwards initialized transport execute request response world
  unfolding client_initialize
  client_execute-client_initialize client initialized transport execute request response world h e =
      elim (Bool-cases (ltb client.struct_size sizeof_client || transport_refused transport)) [
        | inl r ↦ ground (arith, h, r)
        | inr r ↦
            let made : Client = record client { transport = transport } in
            let same : made ≡ initialized = ground (arith, h, r) in
            subst (λ (c : Client). Forwards c transport execute request response world) same
              (any_lem client transport execute request response world r e)
      ]
