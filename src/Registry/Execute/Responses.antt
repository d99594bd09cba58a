-- ===== src/Registry/Execute/Responses.antt =====
-- The responses that the kernel writes itself pass the check that clients copy them by.
use universal_launcher.Prelude.{
  ℕ, ◌≡◌, refl, inl, inr, Bool, true, false, ◌||◌, Option, none, some, List, ltb, ◌==◌, Bool-cases,
  Option-cases, length, Bytes, c_string, ◌==ℤ◌,
}
use universal_launcher.View.{
  null, at, Status, ok, error, invalid_argument, status_code, unsupported_version, view_is_valid,
}
use universal_launcher.Memory.{Heap, alloc}
use universal_launcher.Registry.Model.{Context}
use universal_launcher.Registry.Store.{find_registered, invalidate_graph}
use universal_launcher.Command.{
  response_validate, status_is_valid, CommandRequest, sizeof_request_v1, CommandResponse,
  sizeof_response_v1,
}
use universal_launcher.Registry.Metadata.{Metadata, graph_rows}
use universal_launcher.Registry.Graph.{
  write_graph, capacity_add_rows, set_response, graph_error, graph_error_payload,
  graph_error_message, write_block, build_with_capacity, build_rows, build_command_graph,
}
use universal_launcher.Registry.Metadata.{find_builtin}
use universal_launcher.Registry.Payloads.{invalid_payload, invalid_message}
use universal_launcher.Registry.Execute.{
  is_graph, kind_of, dispatch_builtin, is_bare, Outcome, answer, execute_builtin, execute_valid,
  command_execute,
}

abbrev IsValid : CommandResponse → Type 0
IsValid response = response_validate (some response) ≡ ok

text_is_valid : (s : Bytes) → view_is_valid (at s) ≡ true
unfolding view_is_valid
text_is_valid s = elim (Bool-cases (length s == 0)) [
  | inl e ↦ rw (e, view_is_valid) refl
  | inr e ↦ rw (e, view_is_valid) refl
]

nothing_is_valid : view_is_valid (null 0) ≡ true
unfolding view_is_valid
nothing_is_valid = refl

code_is_valid : (s : Status) → status_is_valid (status_code s) ≡ true
unfolding status_is_valid status_code ◌==ℤ◌
code_is_valid ok = refl
code_is_valid error = refl
code_is_valid invalid_argument = refl
code_is_valid unsupported_version = refl

set_response-IsValid :
    (status : Status) (payload : Bytes) (message : Option Bytes)
    → IsValid (set_response status (some payload) message)
unfolding set_response response_validate
set_response-IsValid status payload none =
    rw (code_is_valid status, set_response, response_validate)
      (rw (text_is_valid payload) (rw (nothing_is_valid) refl))
set_response-IsValid status payload (some m) =
    rw (code_is_valid status, set_response, response_validate)
      (rw (text_is_valid payload) (rw (text_is_valid m) (rw (nothing_is_valid) refl)))

graph_error-IsValid :
    IsValid (set_response error (some graph_error_payload) (some graph_error_message))
graph_error-IsValid = set_response-IsValid error graph_error_payload (some graph_error_message)

write_block-IsValid :
    (context : Context) (rows : List Metadata) (block capacity : ℕ) (heap : Heap)
    → IsValid (write_block context rows block capacity heap).response
unfolding write_block graph_error
write_block-IsValid context rows block capacity heap =
    elim (Option-cases (write_graph capacity rows)) [
      | inl n ↦ rw (n, write_block) graph_error-IsValid
      | inr (text, n) ↦ rw (n, write_block) (set_response-IsValid ok (c_string text) none)
    ]

module _ (grants : ℕ → ℕ → Bool)
    (invoke : ℕ → ℕ → CommandRequest → CommandResponse → Context → Heap → Outcome) where
  build_rows-IsValid :
      (context : Context) (rows : List Metadata) (heap : Heap)
      → IsValid (build_rows grants context rows heap).response
  unfolding build_rows build_with_capacity graph_error
  build_rows-IsValid context rows heap = elim (Option-cases (capacity_add_rows rows 512)) [
    | inl n ↦ rw (n, build_rows) graph_error-IsValid
    | inr (capacity, n) ↦ elim (Option-cases (alloc grants capacity heap).0) [
      | inl e ↦ rw (n, build_rows) (rw (e, build_with_capacity) graph_error-IsValid)
      | inr (block, e) ↦
          rw (n, build_rows)
            (rw (e, build_with_capacity)
              (write_block-IsValid context rows block capacity (alloc grants capacity heap).1))
    ]
  ]

  execute_builtin-IsValid :
      (context : Context) (request : CommandRequest) (heap : Heap)
      → IsValid (execute_builtin grants invoke context request heap).response
  unfolding execute_builtin answer build_command_graph
  execute_builtin-IsValid context request heap =
      elim (Bool-cases (is_graph (kind_of (find_builtin request.command_name)))) [
        | inl e ↦
            rw (e, execute_builtin)
              (build_rows-IsValid (invalidate_graph context heap).0 (graph_rows context.entries)
                (invalidate_graph context heap).1)
        | inr e ↦
            rw (e, execute_builtin)
              (let d = dispatch_builtin (kind_of (find_builtin request.command_name)) request in
                set_response-IsValid d.status d.payload d.error_message)
      ]

  -- When no registered command has the name of the request and the response has the size of its
  -- structure, the response that the execution leaves passes the check that owned copies make on
  -- their source.
  pub response_validate-command_execute :
      (context : Context) (request : CommandRequest) (response : CommandResponse) (heap : Heap)
      → ltb response.struct_size sizeof_response_v1 ≡ false
      → find_registered context.entries request.command_name ≡ none
      → response_validate
          (some (command_execute grants invoke context (some request) response heap).response)
        ≡ ok
  unfolding command_execute answer execute_valid
  response_validate-command_execute context request response heap e n =
      elim (Bool-cases
        (ltb request.struct_size sizeof_request_v1 || is_bare request.command_name)) [
          | inl k ↦
              rw (e, command_execute)
                (rw (k)
                  (set_response-IsValid invalid_argument invalid_payload (some invalid_message)))
          | inr k ↦
              rw (e, command_execute)
                (rw (k) (rw (n, execute_valid) (execute_builtin-IsValid context request heap)))
        ]
