-- ===== src/Client/Examples.antt =====
-- The theorem on clients, applied to a client of a process transport that counts its calls.
use universal_launcher.Prelude.{ℕ, ◌+◌, refl, none, some, codes, pos}
use universal_launcher.View.{at, null, sizeof_error}
use universal_launcher.Command.{
  CommandRequest, CommandResponse, sizeof_request_v1, sizeof_response_v1,
}
use universal_launcher.Client.Forwarding.{Forwards, client_execute-client_initialize}
use universal_launcher.Client.{
  process, TransportAdapter, Client, sizeof_transport, sizeof_client, client_initialize, Reply,
}

abbrev counting : ℕ → ℕ → CommandRequest → CommandResponse → ℕ → Reply ℕ
counting execute user request response world = record {
  code = pos 0;
  response = some response;
  world = world + 1;
}

abbrev pipe : TransportAdapter
pipe = record {
  struct_size = sizeof_transport;
  kind = process;
  revision = at (codes "1");
  execute = some 5;
  user_data = 9;
}

abbrev old_client : Client
old_client = record { struct_size = sizeof_client; transport = record pipe { execute = none } }

abbrev ready_client : Client
ready_client = record { struct_size = sizeof_client; transport = pipe }

abbrev list_request : CommandRequest
list_request = record {
  struct_size = sizeof_request_v1;
  command_name = at (codes "instance.list");
  json_payload = null 0;
  dry_run = pos 1;
}

abbrev empty_response : CommandResponse
empty_response = record {
  struct_size = sizeof_response_v1;
  status = pos 0;
  json_payload = null 0;
  error = record { struct_size = sizeof_error; code = pos 0; message = null 0; detail = null 0 };
}

client_execute-client_initialize_example :
    Forwards counting ready_client pipe 5 (some list_request) (some empty_response) 41
unfolding client_initialize
client_execute-client_initialize_example =
    client_execute-client_initialize counting old_client ready_client pipe 5 (some list_request)
      (some empty_response) 41 refl refl
