-- ===== src/Response/Copies.antt =====
-- What an owned copy holds, when a copy succeeds, and who owns its block.
use universal_launcher.Prelude.{
  ℕ, zero, suc, ◌+◌, ◌≤◌, ◌≡◌, refl, ap, ◌∙◌, inl, inr, Bool, true, false, ◌&&◌, Option, none, some,
  [], ◌∷◌, ◌++◌, append_assoc, append-nil, arith, ◌==◌, Bool-cases, Option-cases, and_true, length,
  take, drop, length-append, Bytes,
}
use universal_launcher.View.{StringView, null, at, size, contents, is_ok, view_is_valid, ok}
use universal_launcher.Memory.{Heap, alloc, Allocator}
use universal_launcher.Command.{CommandResponse, response_validate}
use universal_launcher.Response.{
  Slice, no_slice, slice, Storage, OwnedResponse, allocator_select, size_add, total_size,
  destination_is_available, slice_at, copied_bytes, filled, copy_into, copy_checked,
  copy_with_limit,
}

-- What a view of the destination covers.
pub read : Option Storage → Slice → Bytes
read storage no_slice = []
read none (slice start n) = []
read (some storage) (slice start n) = take n (drop start storage.bytes)

-- The destination holds the source's texts, status and code.
pub record IsCopyOf (source : CommandResponse) (d : OwnedResponse) : Type 0 where
  pub json_payload : read d.storage d.response.json_payload ≡ contents source.json_payload
  pub message : read d.storage d.response.message ≡ contents source.error.message
  pub detail : read d.storage d.response.detail ≡ contents source.error.detail
  pub status : d.response.status ≡ source.status
  pub code : d.response.error_code ≡ source.error.code
  pub total :
      d.storage_size
      ≡ size source.json_payload + size source.error.message + size source.error.detail

valid_size : (v : StringView) → view_is_valid v ≡ true → size v ≡ length (contents v)
unfolding view_is_valid
valid_size (null n) h = ground arith
valid_size (at s) h = refl

empty_contents : (v : StringView) → size v ≡ 0 → contents v ≡ []
empty_contents (null n) h = refl
empty_contents (at []) h = refl
empty_contents (at (x ∷ s)) h = absurd (omega arith)

take_prefix : (s t : Bytes) → take (length s) (s ++ t) ≡ s
take_prefix [] [] = refl
take_prefix [] (y ∷ t) = refl
take_prefix (x ∷ s) t = ap (λ (z : Bytes). x ∷ z) (take_prefix s t)

drop_prefix : (s t : Bytes) → drop (length s) (s ++ t) ≡ t
drop_prefix [] t = refl
drop_prefix (x ∷ s) t = drop_prefix s t

never_zero : (n : ℕ) → (suc n == 0) ≡ false
never_zero n = ground arith

-- A slice behind a prefix reads the text that was written there.
read_slice :
    (block : ℕ) (before after : Bytes) (v : StringView)
    → size v ≡ length (contents v)
    → read
        (some (record { block = block; bytes = before ++ (contents v ++ after) }))
        (slice_at (length before) v)
      ≡ contents v
unfolding read
read_slice block before after (null n) e = rw (e) refl
read_slice block before after (at []) e = refl
read_slice block before after (at (x ∷ s)) e =
    rw (never_zero (length s)) (
      ap (take (length (x ∷ s))) (drop_prefix before ((x ∷ s) ++ after))
      ∙ take_prefix (x ∷ s) after)

read_at :
    (block start : ℕ) (bytes before after : Bytes) (v : StringView)
    → view_is_valid v ≡ true
    → start ≡ length before
    → bytes ≡ before ++ (contents v ++ after)
    → read (some (record { block = block; bytes = bytes })) (slice_at start v) ≡ contents v
read_at block start bytes before after v h e k =
    rw (e) (rw (k) (read_slice block before after v (valid_size v h)))

reads_nothing :
    (start : ℕ) (v : StringView) → size v ≡ 0 → read none (slice_at start v) ≡ contents v
unfolding read
reads_nothing start (null n) e = rw (e) refl
reads_nothing start (at []) e = refl
reads_nothing start (at (x ∷ s)) e = absurd (omega arith)

admitted_source :
    (source : CommandResponse)
    → is_ok (response_validate (some source)) ≡ true
    → (view_is_valid source.json_payload ≡ true)
      × (view_is_valid source.error.message ≡ true)
      × (view_is_valid source.error.detail ≡ true)
unfolding response_validate
admitted_source source h = ground arith

total_size_lem :
    (source : CommandResponse) (total : ℕ)
    → total_size source ≡ some total
    → total ≡ size source.json_payload + size source.error.message + size source.error.detail
unfolding total_size size_add
total_size_lem source total h = ground arith

module _ (grants : ℕ → ℕ → Bool) (source : CommandResponse) where
  checked_ok :
      (requested : Option Allocator) (maximum : ℕ) (heap : Heap)
      → (copy_checked grants source requested maximum heap).status ≡ ok
      → (a : Allocator) × (total : ℕ) × (total_size source ≡ some total)
        × (total ≤ maximum)
        × (copy_checked grants source requested maximum heap ≡ copy_into grants source a total heap)
  unfolding copy_checked
  checked_ok requested maximum heap h = elim (Option-cases (allocator_select requested)) [
    | inl no_allocator ↦ ground (arith, no_allocator)
    | inr (a, chosen) ↦ elim (Option-cases (total_size source)) [
      | inl no_total ↦ ground (arith, chosen, no_total)
      | inr (total, e) ↦ (a, total, e, ground (arith, chosen, e), ground (arith, chosen, e))
    ]
  ]

  IsCopyOf-into :
      (a : Allocator) (total : ℕ) (heap : Heap)
      → view_is_valid source.json_payload ≡ true
      → view_is_valid source.error.message ≡ true
      → view_is_valid source.error.detail ≡ true
      → total ≡ size source.json_payload + size source.error.message + size source.error.detail
      → (copy_into grants source a total heap).status ≡ ok
      → IsCopyOf source (copy_into grants source a total heap).destination
  unfolding copy_into filled read
  IsCopyOf-into a zero heap p m d e h = record {
    json_payload = reads_nothing 0 source.json_payload (omega arith);
    message = reads_nothing (size source.json_payload) source.error.message (omega arith);
    detail =
        reads_nothing (size source.json_payload + size source.error.message) source.error.detail
          (omega arith);
    status = refl;
    code = refl;
    total = e;
  }
  IsCopyOf-into a (suc n) heap p m d e h = elim (Option-cases (alloc grants (suc n) heap).0) [
    | inl none_given ↦ ground (arith, none_given)
    | inr (block, given) ↦
        rw (given, copy_into)
          (record {
            json_payload =
                read_at block 0 (copied_bytes source) [] (t_message ++ t_detail) source.json_payload
                  p refl refl;
            message =
                read_at block (size source.json_payload) (copied_bytes source) t_payload t_detail
                  source.error.message m (valid_size source.json_payload p) refl;
            detail =
                read_at block (size source.json_payload + size source.error.message)
                  (copied_bytes source) (t_payload ++ t_message) [] source.error.detail d
                  (omega (
                    arith,
                    valid_size source.json_payload p,
                    valid_size source.error.message m,
                    length-append t_payload t_message,
                  ))
                  (simp (append_assoc, append-nil));
            status = refl;
            code = refl;
            total = e;
          })
  ]
    where
      t_payload : Bytes
      t_payload = contents source.json_payload

      t_message : Bytes
      t_message = contents source.error.message

      t_detail : Bytes
      t_detail = contents source.error.detail

  -- When a copy of a response succeeds, the views of the copy cover the texts of the source, its
  -- status and code are those of the source, and the block is as large as the three texts
  -- together and at most the limit.
  pub copy_with_limit-IsCopyOf :
      (requested : Option Allocator) (maximum : ℕ) (destination : OwnedResponse) (heap : Heap)
      → (copy_with_limit grants (some source) requested maximum destination heap).status ≡ ok
      → IsCopyOf source
          (copy_with_limit grants (some source) requested maximum destination heap).destination
        × ((copy_with_limit grants
              (some source)
              requested
              maximum
              destination
              heap).destination.storage_size
            ≤ maximum)
  unfolding copy_with_limit
  copy_with_limit-IsCopyOf requested maximum destination heap h =
      elim (Bool-cases
        (destination_is_available destination && is_ok (response_validate (some source)))) [
          | inl e ↦
              let (p, m, d) = admitted_source source (and_true e).1 in
              let (a, total, t, le, same) = checked_ok requested maximum heap (ground (arith, e)) in
              let whole : copy_with_limit grants (some source) requested maximum destination heap
                  ≡ copy_into grants source a total heap =
                ground (arith, e, same) in
              let c =
                IsCopyOf-into a total heap p m d (total_size_lem source total t)
                  (ground (arith, h, whole)) in
              rw (whole) (c, omega (arith, c.total, total_size_lem source total t))
          | inr e ↦ ground (arith, e)
        ]
