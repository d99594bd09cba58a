-- ===== src/Composition.antt =====
-- runtime/launcher/kernel/ulk_product_composition.c and include/ulk/ulk_product_composition.h.
pub mod Paths
pub mod Examples
use universal_launcher.Prelude.{
  ℕ, zero, suc, ◌+◌, ◌-◌, ◌*◌, ◌/◌, ◌%◌, ◌^◌, ◌≤◌, ◌<◌, ◌≡◌, refl, sym, ap, ◌∙◌, ◌≢◌, ◌↔◌, ◌⊎◌, inl,
  inr, Bool, true, false, not, ◌&&◌, ◌||◌, Option, none, some, List, [], ◌∷◌, ◌++◌, append_assoc,
  append-nil, arith, ltb, leb, ◌==◌, if◌then◌else◌, ltb→lt, lt→ltb, ltb-false, leb→le, ==_iff,
  tests, Bool-cases, Option-cases, and_true, ◌>>=◌, ◌>>◌, guard, >>=-eq-some, length, all, is_nil,
  take, drop, length-append, All, All-append, All-mono, Any, All-Any, Bytes, codes, bytes_eq,
  bytes_eq_iff, bytes_eq_refl, c_string, IsTextByte, IsText, c_string-IsText, Lacks, between, ℤ,
  pos, negsuc, ◌==ℤ◌, ==ℤ_iff, ltb_ℤ,
}
use universal_launcher.View.{StringView, null, at, size, contents}
use universal_launcher.Reference.Validate.{is_identifier_byte}

-- The enumerators as the ints that they are in C.
abbrev pub single_process : ℤ
single_process = pos 1

abbrev pub server : ℤ
server = pos 8

pub record ContractSetIdentity : Type 0 where
  pub struct_size : ℕ
  pub contract_set_id : StringView
  pub version : StringView
  pub sha256 : StringView

pub record LaunchCapability : Type 0 where
  pub struct_size : ℕ
  pub kind : ℤ
  pub required : ℤ

-- A pointer to an array with a count is the array, or null with the count that is claimed.
pub data Array {ℓ} (A : Type ℓ) : Type ℓ where
  no_array : ℕ → Array A
  array : List A → Array A

pub record EntrypointDescriptor : Type 0 where
  pub struct_size : ℕ
  pub entrypoint_id : StringView
  pub relative_path : StringView
  pub artifact_set_id : StringView
  pub capabilities : Array LaunchCapability

pub record ProductDescriptor : Type 0 where
  pub struct_size : ℕ
  pub product_id : StringView
  pub exact_version : StringView
  pub publisher_id : StringView
  pub composition_revision : StringView

pub record ProductComposition : Type 0 where
  pub struct_size : ℕ
  pub product : Option ProductDescriptor
  pub entrypoints : Array EntrypointDescriptor
  pub contract_set : Option ContractSetIdentity

-- The sizes of the structures on a platform with 64-bit pointers.
abbrev pub sizeof_identity : ℕ
sizeof_identity = 56

abbrev pub sizeof_capability : ℕ
sizeof_capability = 16

abbrev pub sizeof_entrypoint : ℕ
sizeof_entrypoint = 72

abbrev pub sizeof_descriptor : ℕ
sizeof_descriptor = 72

abbrev pub sizeof_composition : ℕ
sizeof_composition = 40

unfoldable pub composition_view_valid : StringView → Bool → Bool
composition_view_valid (null n) allow_empty = if n == 0 then allow_empty else false
composition_view_valid (at bytes) allow_empty =
    if length bytes == 0 then allow_empty else all (λ c. not (c == 0)) bytes

unfoldable pub composition_identifier_valid : StringView → Bool → Bool
composition_identifier_valid (null n) allow_empty = if n == 0 then allow_empty else false
composition_identifier_valid (at bytes) allow_empty =
    if length bytes == 0
    then allow_empty
    else if ltb 128 (length bytes)
    then false
    else all is_identifier_byte bytes

unfoldable pub sha256_valid : StringView → Bool
sha256_valid (null n) = false
sha256_valid (at bytes) =
    if not (length bytes == 64)
    then false
    else all (λ c. between b'0' b'9' c || between b'a' b'f' c) bytes

-- The bytes behind a `.` at the index: a second one that ends the value or stands before a `/`.
unfoldable pub closes_dots : Bytes → Bool
closes_dots [] = false
closes_dots (d ∷ []) = d == b'.'
closes_dots (d ∷ e ∷ rest) = (d == b'.') && (e == b'/')

-- The loop; `opens` says that the index is 0 or stands behind a `/`.
unfoldable pub scan_path : Bool → Bytes → Bool
unfolding closes_dots
scan_path opens [] = true
scan_path opens (c ∷ rest) =
    let further = scan_path (c == b'/') rest in
    if c == 92 then false else if c == b'.' && closes_dots rest && opens then false else further

unfoldable pub starts_with_slash : Bytes → Bool
starts_with_slash [] = false
starts_with_slash (c ∷ rest) = c == b'/' || c == 92

unfoldable pub relative_path_valid : StringView → Bool
unfolding composition_view_valid starts_with_slash scan_path
relative_path_valid value =
    if not (composition_view_valid value false) || starts_with_slash (contents value)
    then false
    else scan_path true (contents value)

-- The validators; `true` is ULK_STATUS_OK.
unfoldable pub contract_set_identity_valid : Option ContractSetIdentity → Bool
unfolding composition_identifier_valid composition_view_valid sha256_valid
contract_set_identity_valid none = false
contract_set_identity_valid (some identity) =
    leb sizeof_identity identity.struct_size
    && composition_identifier_valid identity.contract_set_id false
    && composition_view_valid identity.version false
    && sha256_valid identity.sha256

unfoldable pub launch_capability_valid : LaunchCapability → Bool
launch_capability_valid c =
    leb sizeof_capability c.struct_size
    && not (ltb_ℤ c.kind single_process)
    && not (ltb_ℤ server c.kind)
    && ((c.required ==ℤ pos 0) || (c.required ==ℤ pos 1))

unfoldable pub entrypoint_descriptor_valid : EntrypointDescriptor → Bool
unfolding composition_identifier_valid relative_path_valid launch_capability_valid
entrypoint_descriptor_valid e =
    leb sizeof_entrypoint e.struct_size
    && composition_identifier_valid e.entrypoint_id false
    && relative_path_valid e.relative_path
    && composition_identifier_valid e.artifact_set_id true
    && elim e.capabilities [
      | no_array n ↦ false
      | array cs ↦ not (is_nil cs) && all launch_capability_valid cs
    ]

unfoldable pub product_descriptor_valid : ProductDescriptor → Bool
unfolding composition_identifier_valid composition_view_valid
product_descriptor_valid p =
    leb sizeof_descriptor p.struct_size
    && composition_identifier_valid p.product_id false
    && composition_view_valid p.exact_version false
    && composition_identifier_valid p.publisher_id false
    && composition_view_valid p.composition_revision false

unfoldable pub product_composition_valid : Option ProductComposition → Bool
unfolding product_descriptor_valid contract_set_identity_valid entrypoint_descriptor_valid
product_composition_valid none = false
product_composition_valid (some c) =
    leb sizeof_composition c.struct_size
    && elim c.product [ none ↦ false | some p ↦ product_descriptor_valid p ]
    && contract_set_identity_valid c.contract_set
    && elim c.entrypoints [
      | no_array n ↦ false
      | array es ↦ not (is_nil es) && all entrypoint_descriptor_valid es
    ]
