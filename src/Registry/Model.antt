-- ===== src/Registry/Model.antt =====
-- runtime/launcher/kernel/ulk_api.c and include/ulk/ulk_registry.h: the context, its entries and the
-- descriptors of commands.
use universal_launcher.Prelude.{
  ℕ, ◌-◌, ◌/◌, ◌^◌, Bool, true, false, Option, none, some, List, [], ◌∷◌, Bytes,
}
use universal_launcher.View.{StringView, Status}
use universal_launcher.Memory.{Heap, Allocator}

-- The ten texts of a descriptor, an entry or a metadata row, in the order of `ulk_clear_registered`.
pub record Fields {ℓ} (A : Type ℓ) : Type ℓ where
  pub command_name : A
  pub effects_json : A
  pub request_schema : A
  pub response_schema : A
  pub result_schema : A
  pub refusal_schema : A
  pub dry_run_behavior : A
  pub availability : A
  pub owner : A
  pub binding : A

abbrev pub field_list : {A : Type 0} → Fields A → List A
field_list f =
    f.command_name ∷ f.effects_json ∷ f.request_schema ∷ f.response_schema ∷ f.result_schema
    ∷ f.refusal_schema ∷ f.dry_run_behavior ∷ f.availability ∷ f.owner ∷ f.binding ∷ []

-- A text in a block of its own, which ends in a zero byte.
pub record Text : Type 0 where
  pub block : ℕ
  pub text : Bytes

abbrev pub block_of : Option Text → Option ℕ
block_of none = none
block_of (some t) = some t.block

abbrev pub text_of : Option Text → Bytes
text_of none = []
text_of (some t) = t.text

-- ulk_registered_command; the handler is the number of a function.
pub record Entry : Type 0 where
  pub fields : Fields (Option Text)
  pub command_name_size : ℕ
  pub handler : ℕ
  pub user : ℕ

-- struct ulk_context in its block: `entries` are the first `registered_count` ones of the table.
pub record Context : Type 0 where
  pub block : ℕ
  pub allocator : Allocator
  pub entries : List Entry
  pub capacity : ℕ
  pub table : Option ℕ
  pub graph : Option Text

pub record DescriptorV1 : Type 0 where
  pub struct_size : ℕ
  pub command_name : StringView
  pub effects_json : StringView
  pub user : ℕ
  pub handler : Option ℕ

pub record DescriptorV2 : Type 0 where
  pub struct_size : ℕ
  pub fields : Fields StringView
  pub user : ℕ
  pub handler : Option ℕ

abbrev pub sizeof_context : ℕ
sizeof_context = 72

abbrev pub sizeof_entry : ℕ
sizeof_entry = 104

abbrev pub sizeof_descriptor_v1 : ℕ
sizeof_descriptor_v1 = 56

abbrev pub sizeof_descriptor_v2 : ℕ
sizeof_descriptor_v2 = 184

abbrev pub size_max : ℕ
size_max = 2 ^ 64 - 1

abbrev pub capacity_limit : ℕ
capacity_limit = 65536 / sizeof_entry

-- What a call returns, and the context and the heap that it leaves.
pub record Called : Type 0 where
  pub status : Status
  pub context : Context
  pub heap : Heap

abbrev pub is_missing : {A : Type 0} → Option A → Bool
is_missing none = true
is_missing (some a) = false
