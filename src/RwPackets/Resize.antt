-- ===== src/RwPackets/Resize.antt =====
-- `Write_packet`: the sizes of a packet as built, cloned and resized.
use soupbintcp.Common.{
  ℕ, suc, ◌+◌, ◌%◌, ◌≤◌, ◌<◌, ◌≡◌, ◌⊎◌, inl, inr, Bool-cases, refl, some, ◌∷◌, ◌++◌, Bytes, length,
  replicate, length-replicate, arith, ltb, false, ℕ,
}
use soupbintcp.Constants.{packet_type_length, packet_header_length, u16_mod}
use soupbintcp.Packing.Integral.{pack_u16, unpack_u16}
use soupbintcp.RwPackets.{
  WritePacket, WriteResizeResult, no_capacity, resize_write_payload, write_payload_size,
  payload_capacity, write_packet_type, sized_write_packet,
}

-- A packet that was built with a capacity of at most 65534 bytes: the header with its size, its type and
-- the capacity's worth of bytes.
pub record IsBuilt (p : WritePacket) (packet_type payload_size : ℕ) (body : Bytes) : Type 0 where
  pub bytes :
      p.packet.bytes ≡ some (pack_u16 (packet_type_length + payload_size) ++ packet_type ∷ body)
  pub sized : p.packet.size ≡ packet_header_length + length body
  pub fits : payload_size ≤ length body
  pub bounded : length body + packet_type_length < u16_mod

-- What the observers say of such a packet.
pub observe :
    (p : WritePacket) {packet_type payload_size : ℕ} {body : Bytes}
    → IsBuilt p packet_type payload_size body
    → (write_payload_size p ≡ payload_size)
      × (payload_capacity p ≡ length body)
      × (write_packet_type p ≡ packet_type)
unfolding write_payload_size payload_capacity write_packet_type pack_u16 unpack_u16
observe p b = (rw b.bytes (omega (arith, b)), omega (arith, b), rw b.bytes refl)

-- A new packet announces the payload it has room for.
pub new-IsBuilt :
    (packet_type payload_size : ℕ)
    → payload_size + packet_type_length < u16_mod
    → IsBuilt
        (sized_write_packet packet_type payload_size)
        packet_type
        payload_size
        (replicate payload_size 0)
unfolding sized_write_packet pack_u16
new-IsBuilt packet_type payload_size h =
    let len : length (replicate {A = ℕ} payload_size 0) ≡ payload_size =
      length-replicate {A = ℕ} payload_size 0 in
    let room : packet_header_length + payload_size ≡ suc (suc (suc payload_size)) = omega arith in
    let small : (packet_type_length + payload_size) % u16_mod ≡ packet_type_length + payload_size =
      omega arith in
    record {
      bytes = rw (small, room);
      sized = omega (arith, len);
      fits = omega (arith, len);
      bounded = omega (arith, len);
    }

-- The two cases.
resize_cases :
    (p : WritePacket) (payload_size : ℕ) {packet_type old : ℕ} {body : Bytes}
    → IsBuilt p packet_type old body
    → (payload_size ≤ length body
        → ((resize_write_payload p payload_size).1 ≡ WriteResizeResult.resized)
          × IsBuilt (resize_write_payload p payload_size).0 packet_type payload_size body)
      × (length body < payload_size → resize_write_payload p payload_size ≡ (p, no_capacity))
unfolding resize_write_payload
resize_cases p payload_size {packet_type} {body} b = (granted, λ h. ground arith)
  where
    granted :
        payload_size ≤ length body
        → ((resize_write_payload p payload_size).1 ≡ WriteResizeResult.resized)
          × IsBuilt (resize_write_payload p payload_size).0 packet_type payload_size body
    granted h =
        let roomy : ltb (payload_capacity p) payload_size ≡ false = ground arith in
        let small : (packet_type_length + payload_size) % u16_mod
            ≡ packet_type_length + payload_size =
          omega arith in
        rw roomy (
          refl,
          record {
            bytes = rw (b.bytes, small) (unfold pack_u16 in refl);
            sized = b.sized;
            fits = h;
            bounded = b.bounded;
          },
        )

-- A resize of a built packet with a capacity of at most 65534 bytes, within that capacity, is
-- granted, sets the size of the payload and changes neither the type, the capacity nor the
-- payload's bytes; a larger one is refused and changes nothing.
pub resize-IsBuilt :
    (p : WritePacket) (payload_size : ℕ) {packet_type old : ℕ} {body : Bytes}
    → IsBuilt p packet_type old body
    → (payload_size ≤ length body)
        × ((resize_write_payload p payload_size).1 ≡ WriteResizeResult.resized)
        × IsBuilt (resize_write_payload p payload_size).0 packet_type payload_size body
      ⊎ (length body < payload_size) × (resize_write_payload p payload_size ≡ (p, no_capacity))
resize-IsBuilt p payload_size {body} b =
    let (granted, refused) = resize_cases p payload_size b in
    elim (Bool-cases (ltb (length body) payload_size)) [
      | inl e ↦ let h : length body < payload_size = ground arith in inr (h, refused h)
      | inr e ↦
          let h : payload_size ≤ length body = ground arith in inl (h, (granted h).0, (granted h).1)
    ]
