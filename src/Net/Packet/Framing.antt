-- ===== src/Net/Packet/Framing.antt =====
-- When `Send` stays inside its buffer, and what then goes to the wire.
use mundus_vivens_game_serve.Common.{
  ℕ, zero, suc, ◌+◌, ◌%◌, ◌≤◌, ◌<◌, ◌≡◌, refl, ap, ◌∙◌, ◌⊎◌, inl, inr, not, none, some, List, [],
  ◌∷◌, ◌++◌, length, set, take, leb, arith, length-set, length-replicate, append-nil, append_assoc,
  Bool-cases,
}
use mundus_vivens_game_serve.Net.Packet.{
  PacketBuffer, copy_to, fresh_memory, build_packet, wire, write_u16_be, header_size,
  inline_capacity, ◌>>=◌,
}

-- The memory once `bs` lies at `offset`.
abbrev splice : List ℕ → ℕ → List ℕ → List ℕ
splice memory offset [] = memory
splice memory offset (b ∷ bs) = splice (set memory offset b) (offset + 1) bs

copy_to-fits :
    (memory : List ℕ) (offset : ℕ) (bs : List ℕ)
    → offset + length bs ≤ length memory
    → copy_to memory offset bs ≡ some (splice memory offset bs)
unfolding copy_to
copy_to-fits memory offset [] h = refl
copy_to-fits memory offset (b ∷ bs) h =
    ground (arith, copy_to-fits (set memory offset b) (offset + 1) bs, length-set memory offset b)

copy_to-overruns :
    (memory : List ℕ) (offset : ℕ) (bs : List ℕ)
    → length memory < offset + length bs
    → offset ≤ length memory
    → copy_to memory offset bs ≡ none
unfolding copy_to
copy_to-overruns memory offset [] h k = absurd (omega arith)
copy_to-overruns memory offset (b ∷ bs) h k =
    ground
      (arith, copy_to-overruns (set memory offset b) (offset + 1) bs, length-set memory offset b)

length-splice :
    (memory : List ℕ) (offset : ℕ) (bs : List ℕ) → length (splice memory offset bs) ≡ length memory
length-splice memory offset [] = refl
length-splice memory offset (b ∷ bs) =
    length-splice (set memory offset b) (offset + 1) bs ∙ length-set memory offset b

take-set :
    (memory : List ℕ) (n : ℕ) (b : ℕ)
    → n < length memory
    → take (suc n) (set memory n b) ≡ take n memory ++ b ∷ []
take-set [] n b h = elim h [ ]
take-set (x ∷ xs) zero b h = refl
take-set (x ∷ xs) (suc n) b h = ap (◌∷◌ x) (take-set xs n b (omega arith))

-- Bytes copied to the end of a prefix follow it.
take-splice :
    (memory : List ℕ) (offset : ℕ) (bs : List ℕ)
    → offset + length bs ≤ length memory
    → take (offset + length bs) (splice memory offset bs) ≡ take offset memory ++ bs
take-splice memory offset [] h =
    let e : offset + 0 ≡ offset = omega arith in rw (e, append-nil (take offset memory))
take-splice memory offset (b ∷ bs) h =
    let e : offset + suc (length bs) ≡ offset + 1 + length bs = omega arith in
    let next : offset + 1 ≡ suc offset = omega arith in
    let fits : offset + 1 + length bs ≤ length (set memory offset b) =
      omega (arith, length-set memory offset b) in
    rw e (
      take-splice (set memory offset b) (offset + 1) bs fits
      ∙ rw (next, take-set memory offset b (omega arith))
          (append_assoc (take offset memory) (b ∷ []) bs))

-- The bytes of a packet: length, identifier, payload.
abbrev pub packet_bytes : ℕ → List ℕ → List ℕ
packet_bytes packet_id payload =
    write_u16_be (header_size + length payload) ++ write_u16_be packet_id ++ payload

fresh_memory_room :
    (total : ℕ) → (256 ≤ length (fresh_memory total)) × (total ≤ length (fresh_memory total))
unfolding fresh_memory
fresh_memory_room total = elim (Bool-cases (leb total inline_capacity)) [
  | inl e ↦ rw (e, length-replicate {A = ℕ} inline_capacity 0) (ground arith)
  | inr e ↦ rw (e, length-replicate {A = ℕ} total 0) (ground arith)
]

fresh_memory_limit :
    (total : ℕ) → (length (fresh_memory total) ≤ 256) ⊎ (length (fresh_memory total) ≤ total)
unfolding fresh_memory
fresh_memory_limit total = elim (Bool-cases (leb total inline_capacity)) [
  | inl e ↦ inl (rw (e, length-replicate {A = ℕ} inline_capacity 0) (omega arith))
  | inr e ↦ inr (rw (e, length-replicate {A = ℕ} total 0) (omega arith))
]

-- The memory with the header written, as `Send` leaves it before the payload.
with_header : ℕ → ℕ → List ℕ
with_header total packet_id =
    splice (splice (fresh_memory total) 0 (write_u16_be total)) 2 (write_u16_be packet_id)

length-with_header :
    (total packet_id : ℕ) → length (with_header total packet_id) ≡ length (fresh_memory total)
unfolding with_header
length-with_header total packet_id =
    length-splice (splice (fresh_memory total) 0 (write_u16_be total)) 2 (write_u16_be packet_id)
    ∙ length-splice (fresh_memory total) 0 (write_u16_be total)

take-with_header :
    (total packet_id : ℕ)
    → take 4 (with_header total packet_id) ≡ write_u16_be total ++ write_u16_be packet_id
unfolding with_header
take-with_header total packet_id =
    let room = fresh_memory_room total in
    let m = fresh_memory total in
    let first = take-splice m 0 (write_u16_be total) (omega arith) in
    let kept = length-splice m 0 (write_u16_be total) in
    take-splice (splice m 0 (write_u16_be total)) 2 (write_u16_be packet_id) (omega arith)
    ∙ ap (λ p. p ++ write_u16_be packet_id) first

-- Once the header is in place, only the copy of the payload can fail.
build_packet-copies :
    (packet_id : ℕ) (payload : List ℕ)
    → let total = (header_size + length payload) % 65536 in
      build_packet packet_id payload ≡ (
        copy_to (with_header total packet_id) header_size payload >>= λ m.
        some (record { size = total; is_heap = not (leb total inline_capacity); memory = m }))
unfolding build_packet with_header
build_packet-copies packet_id payload =
    let total = (header_size + length payload) % 65536 in
    let room = fresh_memory_room total in
    let m = fresh_memory total in
    let kept = length-splice m 0 (write_u16_be total) in
    rw (
      copy_to-fits m 0 (write_u16_be total) (omega arith),
      copy_to-fits (splice m 0 (write_u16_be total)) 2 (write_u16_be packet_id) (omega arith),
    )

build_packet_fits :
    (packet_id : ℕ) (payload : List ℕ)
    → length payload ≤ 65531
    → (buf : PacketBuffer) × (build_packet packet_id payload ≡ some buf)
      × (wire buf ≡ packet_bytes packet_id payload)
build_packet_fits packet_id payload h =
    let total = (header_size + length payload) % 65536 in
    let exact : total ≡ header_size + length payload = omega arith in
    let room = fresh_memory_room total in
    let m = with_header total packet_id in
    let fits : header_size + length payload ≤ length m =
      omega (arith, length-with_header total packet_id) in
    (
      record {
        size = total;
        is_heap = not (leb total inline_capacity);
        memory = splice m header_size payload;
      },
      build_packet-copies packet_id payload ∙ rw (copy_to-fits m header_size payload fits),
      ap (λ n. take n (splice m header_size payload)) exact
          ∙ take-splice m header_size payload fits
          ∙ ap (λ p. p ++ payload)
              (take-with_header total packet_id
                ∙ ap (λ n. write_u16_be n ++ write_u16_be packet_id) exact),
    )

build_packet_overruns :
    (packet_id : ℕ) (payload : List ℕ)
    → 65531 < length payload
    → build_packet packet_id payload ≡ none
build_packet_overruns packet_id payload h =
    let total = (header_size + length payload) % 65536 in
    let size = length-with_header total packet_id in
    let limit = fresh_memory_limit total in
    let room = fresh_memory_room total in
    build_packet-copies packet_id payload
    ∙ rw (
        copy_to-overruns (with_header total packet_id) header_size payload (omega arith)
          (omega arith))

-- `Send` stays inside its buffer exactly when the payload has at most 65531 bytes, and then the
-- wire carries the length, the identifier and the payload. A longer payload overruns the buffer:
-- the length is cast to 16 bits before the memory is chosen, but every byte is copied.
pub build_packet_cases :
    (packet_id : ℕ) (payload : List ℕ)
    → (length payload ≤ 65531
        → (buf : PacketBuffer) × (build_packet packet_id payload ≡ some buf)
          × (wire buf ≡ packet_bytes packet_id payload))
      × (65531 < length payload → build_packet packet_id payload ≡ none)
build_packet_cases packet_id payload =
    (build_packet_fits packet_id payload, build_packet_overruns packet_id payload)
