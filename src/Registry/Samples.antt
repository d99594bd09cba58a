-- ===== src/Registry/Samples.antt =====
-- A registry, descriptors and a request to try the registry on.
use universal_launcher.Prelude.{
  ℕ, refl, Bool, Option, Bytes, true, false, none, some, List, [], ◌∷◌, arith, codes, pos,
}
use universal_launcher.View.{StringView, null, at}
use universal_launcher.Memory.{Heap}
use universal_launcher.Registry.Model.{
  Fields, Text, Context, DescriptorV1, DescriptorV2, sizeof_descriptor_v1, sizeof_descriptor_v2,
}
use universal_launcher.Registry.Lifetime.{effective}
use universal_launcher.Memory.Ownership.{Owns, count}
use universal_launcher.Command.{
  CommandRequest, CommandResponse, sizeof_request_v1, sizeof_response_v1,
}
use universal_launcher.View.{sizeof_error}
use universal_launcher.Registry.Runs.{Call, register_legacy, register, remove}

abbrev pub always : ℕ → ℕ → Bool
always n bytes = true

abbrev pub empty_heap : Heap
empty_heap = record { next = 0; live = []; faulty = false }

pub empty_heap-Owns : Owns [] [] empty_heap
unfolding count
empty_heap-Owns = record { sound = refl; balanced = λ b. omega arith }

abbrev pub new_context : Context
new_context = record {
  block = 0;
  allocator = effective none;
  entries = [];
  capacity = 0;
  table = none;
  graph = none;
}

abbrev pub play_fields : Fields StringView
play_fields = record {
  command_name = at (codes "game.play");
  effects_json = at (codes "[\"process_start\", \"disk-io\"]");
  request_schema = at (codes "game.request.v1");
  response_schema = at (codes "game.response.v1");
  result_schema = at (codes "game.result.v1");
  refusal_schema = at (codes "game.refusal.v1");
  dry_run_behavior = at (codes "preview");
  availability = at (codes "available");
  owner = at (codes "game \"main\"");
  binding = at (codes "game.v2");
}

abbrev pub play_descriptor : DescriptorV2
play_descriptor = record {
  struct_size = sizeof_descriptor_v2;
  fields = play_fields;
  user = 7;
  handler = some 3;
}

abbrev pub list_descriptor : DescriptorV1
list_descriptor = record {
  struct_size = sizeof_descriptor_v1;
  command_name = at (codes "instance.list");
  effects_json = null 0;
  user = 8;
  handler = some 4;
}

abbrev pub session_calls : List Call
session_calls =
    register (some play_descriptor)
    ∷ register_legacy (some list_descriptor)
    ∷ register (some play_descriptor)
    ∷ remove (at (codes "game.play"))
    ∷ remove (at (codes "game.play"))
    ∷ []

-- The texts of an entry, each in a block of its own.
abbrev pub texts : Bytes → Fields (Option Text)
texts name = record {
  command_name = some (record { block = 2; text = name });
  effects_json = some (record { block = 3; text = codes "[\"none\"]" });
  request_schema = some (record { block = 4; text = codes "q" });
  response_schema = some (record { block = 5; text = codes "r" });
  result_schema = some (record { block = 6; text = codes "s" });
  refusal_schema = some (record { block = 7; text = codes "t" });
  dry_run_behavior = some (record { block = 8; text = codes "u" });
  availability = some (record { block = 9; text = codes "v" });
  owner = some (record { block = 10; text = codes "w" });
  binding = some (record { block = 11; text = codes "x" });
}

-- A context with a command in the place of a built-in one and a command of its own.
abbrev pub full_context : Context
full_context = record new_context {
  capacity = 8;
  table = some 1;
  entries =
      record {
        fields = texts (codes "instance.list");
        command_name_size = 13;
        handler = 4;
        user = 8;
      }
      ∷ record { fields = texts (codes "game.play"); command_name_size = 9; handler = 3; user = 7 }
      ∷ [];
}

abbrev pub inspect_request : CommandRequest
inspect_request = record {
  struct_size = sizeof_request_v1;
  command_name = at (codes "product.inspect");
  json_payload = null 0;
  dry_run = pos 0;
}

abbrev pub blank_response : CommandResponse
blank_response = record {
  struct_size = sizeof_response_v1;
  status = pos 0;
  json_payload = null 0;
  error = record { struct_size = sizeof_error; code = pos 0; message = null 0; detail = null 0 };
}
