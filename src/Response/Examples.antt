-- ===== src/Response/Examples.antt =====
-- The theorems on owned responses, applied to a response with a payload and a message.
use universal_launcher.Prelude.{
  ℕ, ◌≤◌, ◌≡◌, refl, Bool, true, false, none, some, [], arith, codes, pos, ◌==ℤ◌,
}
use universal_launcher.View.{null, at, sizeof_error, ok, view_is_valid}
use universal_launcher.Memory.{Heap, default_allocator}
use universal_launcher.Memory.Ownership.{Owns, count}
use universal_launcher.Command.{
  CommandResponse, sizeof_response_v1, response_validate, status_is_valid,
}
use universal_launcher.Response.{
  reset, allocator_select, copy_with_limit, release, destination_is_available,
}
use universal_launcher.Response.Copies.{IsCopyOf, copy_with_limit-IsCopyOf}
use universal_launcher.Response.Release.{release-copy_with_limit, copy_with_limit_total}

abbrev granted : ℕ → ℕ → Bool
granted n bytes = true

abbrev refusal : CommandResponse
refusal = record {
  struct_size = sizeof_response_v1;
  status = pos 1;
  json_payload = at (codes "{\"status\":\"refused\"}");
  error = record {
    struct_size = sizeof_error;
    code = pos 1;
    message = at (codes "refused");
    detail = null 0;
  };
}

abbrev clean_heap : Heap
clean_heap = record { next = 0; live = []; faulty = false }

clean_heap-Owns : Owns [] [] clean_heap
unfolding count
clean_heap-Owns = record { sound = refl; balanced = λ b. omega arith }

copy_with_limit_total_example :
    (copy_with_limit granted (some refusal) none 100 reset clean_heap).status ≡ ok
unfolding response_validate status_is_valid view_is_valid allocator_select destination_is_available
    ◌==ℤ◌
copy_with_limit_total_example =
    copy_with_limit_total granted refusal none default_allocator 100 reset clean_heap refl refl refl
      (omega arith) (omega arith) refl

copy_with_limit-IsCopyOf_example :
    IsCopyOf refusal (copy_with_limit granted (some refusal) none 100 reset clean_heap).destination
    × ((copy_with_limit granted (some refusal) none 100 reset clean_heap).destination.storage_size
        ≤ 100)
copy_with_limit-IsCopyOf_example =
    copy_with_limit-IsCopyOf granted refusal none 100 reset clean_heap copy_with_limit_total_example

release-copy_with_limit_example :
    Owns [] []
      (release
        (copy_with_limit granted (some refusal) none 100 reset clean_heap).destination
        (copy_with_limit granted (some refusal) none 100 reset clean_heap).heap).1
unfolding destination_is_available
release-copy_with_limit_example =
    release-copy_with_limit granted (some refusal) none 100 reset clean_heap [] refl clean_heap-Owns
