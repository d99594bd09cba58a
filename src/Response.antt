-- ===== src/Response.antt =====
-- include/ulk/ulk_owned_response.h and runtime/client/ulk_owned_response.c: a copy of a response in one
-- block of its own.
pub mod Copies
pub mod Release
pub mod Examples
use universal_launcher.Prelude.{
  ℕ, zero, suc, ◌+◌, ◌-◌, ◌*◌, ◌/◌, ◌%◌, ◌^◌, ◌≤◌, ◌<◌, ◌≡◌, refl, sym, ap, ◌∙◌, ◌≢◌, ◌↔◌, ◌⊎◌, inl,
  inr, Bool, true, false, not, ◌&&◌, ◌||◌, Option, none, some, List, [], ◌∷◌, ◌++◌, append_assoc,
  append-nil, arith, ltb, leb, ◌==◌, if◌then◌else◌, ltb→lt, lt→ltb, ltb-false, leb→le, ==_iff,
  tests, Bool-cases, Option-cases, and_true, ◌>>=◌, ◌>>◌, guard, >>=-eq-some, length, all, is_nil,
  take, drop, length-append, All, All-append, All-mono, Any, All-Any, Bytes, codes, bytes_eq,
  bytes_eq_iff, bytes_eq_refl, c_string, IsTextByte, IsText, c_string-IsText, Lacks, between, ℤ,
  pos, negsuc, ◌==ℤ◌, ==ℤ_iff, ltb_ℤ,
}
use universal_launcher.View.{
  StringView, size, contents, sizeof_error, Status, ok, error, invalid_argument, is_ok,
}
use universal_launcher.Memory.{Heap, alloc, free, Allocator, sizeof_allocator, default_allocator}
use universal_launcher.Command.{CommandResponse, response_validate, sizeof_response_v1}

-- A view into the storage block: null, or where it starts and how long it is.
pub data Slice : Type 0 where
  no_slice : Slice
  slice : ℕ → ℕ → Slice

pub record SlicedResponse : Type 0 where
  pub struct_size : ℕ
  pub status : ℤ
  pub json_payload : Slice
  pub error_struct_size : ℕ
  pub error_code : ℤ
  pub message : Slice
  pub detail : Slice

-- A block of the heap and the bytes written to it.
pub record Storage : Type 0 where
  pub block : ℕ
  pub bytes : Bytes

pub record OwnedResponse : Type 0 where
  pub struct_size : ℕ
  pub response : SlicedResponse
  pub allocator : Allocator
  pub storage : Option Storage
  pub storage_size : ℕ

pub record Options : Type 0 where
  pub struct_size : ℕ
  pub allocator : Option Allocator
  pub maximum_total_bytes : ℕ

abbrev pub sizeof_owned_response : ℕ
sizeof_owned_response = 136

abbrev pub sizeof_options : ℕ
sizeof_options = 24

abbrev pub default_maximum : ℕ
default_maximum = 1024 * 1024

abbrev pub ulk_size_max : ℕ
ulk_size_max = 2 ^ 64 - 1

-- The effective allocator, or `none` for 0.
unfoldable pub allocator_select : Option Allocator → Option Allocator
allocator_select none = some default_allocator
allocator_select (some requested) =
    if ltb requested.struct_size sizeof_allocator
      || (requested.has_alloc && not requested.has_free)
      || (not requested.has_alloc && requested.has_free)
    then none
    else if requested.has_alloc
    then some requested
    else some default_allocator

unfoldable pub size_add : ℕ → ℕ → Option ℕ
size_add left right = if ltb (ulk_size_max - right) left then none else some (left + right)

-- memset, and the sizes of the three structures.
abbrev pub reset : OwnedResponse
reset = record {
  struct_size = sizeof_owned_response;
  response = record {
    struct_size = sizeof_response_v1;
    status = pos 0;
    json_payload = no_slice;
    error_struct_size = sizeof_error;
    error_code = pos 0;
    message = no_slice;
    detail = no_slice;
  };
  allocator = record { struct_size = 0; user = 0; has_alloc = false; has_free = false };
  storage = none;
  storage_size = 0;
}

abbrev pub is_none : {A : Type 0} → Option A → Bool
is_none none = true
is_none (some a) = false

unfoldable pub destination_is_available : OwnedResponse → Bool
destination_is_available destination =
    leb sizeof_owned_response destination.struct_size && is_none destination.storage

unfoldable pub total_size : CommandResponse → Option ℕ
unfolding size_add
total_size source = do
  both ← size_add (size source.json_payload) (size source.error.message)
  size_add both (size source.error.detail)

-- Where a view of the destination points: `start` is the cursor.
abbrev pub slice_at : ℕ → StringView → Slice
slice_at start source = if size source == 0 then no_slice else slice start (size source)

-- The bytes that the three memcpy write, one behind the other.
abbrev pub copied_bytes : CommandResponse → Bytes
copied_bytes source =
    contents source.json_payload ++ (contents source.error.message ++ contents source.error.detail)

-- The destination of a copy that succeeds.
unfoldable pub filled : CommandResponse → Allocator → Option Storage → ℕ → OwnedResponse
filled source allocator storage storage_size = record {
  struct_size = sizeof_owned_response;
  response = record {
    struct_size = sizeof_response_v1;
    status = source.status;
    json_payload = slice_at 0 source.json_payload;
    error_struct_size = sizeof_error;
    error_code = source.error.code;
    message = slice_at (size source.json_payload) source.error.message;
    detail = slice_at (size source.json_payload + size source.error.message) source.error.detail;
  };
  allocator = allocator;
  storage = storage;
  storage_size = storage_size;
}

-- What a call returns, and the destination and the heap that it leaves.
pub record Copied : Type 0 where
  pub status : Status
  pub destination : OwnedResponse
  pub heap : Heap

module _ (grants : ℕ → ℕ → Bool) where
  -- From the allocation on.
  unfoldable pub copy_into : CommandResponse → Allocator → ℕ → Heap → Copied
  unfolding filled
  copy_into source allocator zero heap = record {
    status = ok;
    destination = filled source allocator none 0;
    heap = heap;
  }
  copy_into source allocator (suc n) heap = elim ((alloc grants (suc n) heap).0) [
    | none ↦ record { status = error; destination = reset; heap = (alloc grants (suc n) heap).1 }
    | some block ↦ record {
      status = ok;
      destination =
          filled source allocator (some (record { block = block; bytes = copied_bytes source }))
            (suc n);
      heap = (alloc grants (suc n) heap).1;
    }
  ]

  -- The allocator is selected, the sizes are added and compared with the limit.
  unfoldable pub copy_checked : CommandResponse → Option Allocator → ℕ → Heap → Copied
  unfolding copy_into total_size
  copy_checked source requested maximum heap = elim (allocator_select requested) [
    | none ↦ record { status = invalid_argument; destination = reset; heap = heap }
    | some allocator ↦ elim (total_size source) [
      | none ↦ record { status = invalid_argument; destination = reset; heap = heap }
      | some total ↦ elim (ltb maximum total || ltb ulk_size_max total) [
        | true ↦ record { status = invalid_argument; destination = reset; heap = heap }
        | false ↦ copy_into source allocator total heap
      ]
    ]
  ]

  unfoldable pub copy_with_limit :
      Option CommandResponse → Option Allocator → ℕ → OwnedResponse → Heap → Copied
  unfolding copy_checked destination_is_available
  copy_with_limit none requested maximum destination heap =
      if not (destination_is_available destination)
      then record { status = invalid_argument; destination = destination; heap = heap }
      else record { status = invalid_argument; destination = reset; heap = heap }
  copy_with_limit (some source) requested maximum destination heap =
      if not (destination_is_available destination)
      then record { status = invalid_argument; destination = destination; heap = heap }
      else if not (is_ok (response_validate (some source)))
      then record { status = invalid_argument; destination = reset; heap = heap }
      else copy_checked source requested maximum heap

  unfoldable pub copy_owned :
      Option CommandResponse → Option Allocator → OwnedResponse → Heap → Copied
  unfolding copy_with_limit
  copy_owned source requested destination heap =
      copy_with_limit source requested default_maximum destination heap

  unfoldable pub copy_owned_with_options :
      Option CommandResponse → Option Options → OwnedResponse → Heap → Copied
  unfolding copy_with_limit
  copy_owned_with_options source none destination heap =
      if not (destination_is_available destination)
      then record { status = invalid_argument; destination = destination; heap = heap }
      else copy_with_limit source none default_maximum destination heap
  copy_owned_with_options source (some options) destination heap =
      let maximum =
        if options.maximum_total_bytes == 0 then default_maximum else options.maximum_total_bytes in
      if not (destination_is_available destination)
      then record { status = invalid_argument; destination = destination; heap = heap }
      else if ltb options.struct_size sizeof_options
          || (not (options.maximum_total_bytes == 0)
              && ltb ulk_size_max options.maximum_total_bytes)
      then record { status = invalid_argument; destination = reset; heap = heap }
      else copy_with_limit source options.allocator maximum destination heap

-- The free of `release`.
unfoldable pub free_storage : Option Storage → Bool → Heap → Heap
free_storage none has_free heap = heap
free_storage (some storage) false heap = heap
free_storage (some storage) true heap = free storage.block heap

unfoldable pub release : OwnedResponse → Heap → OwnedResponse × Heap
unfolding free_storage
release response heap =
    if ltb response.struct_size sizeof_owned_response
    then (response, heap)
    else (reset, free_storage response.storage response.allocator.has_free heap)
