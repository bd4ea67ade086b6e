-- ===== src/Wire/Runs.antt =====
-- Runs of the codec on concrete frames, with a stand-in for AES-GCM whose tag is sixteen zeros.
use goster_io_t.Common.{if-true, if-false, some-injective}
use goster_io_t.Common.{
  ℕ, ◌+◌, ◌-◌, ◌≡◌, refl, ap, ◌∙◌, arith, true, false, Option, none, some, leb,
}
use goster_io_t.Common.{
  [], ◌∷◌, ◌++◌, length, take, replicate, length-append, take-append_len, if◌then◌else◌,
}
use goster_io_t.Common.{Bool-cases, inl, inr, sym, length-take, le→leb}
use goster_io_t.Common.Result.{ok}
use goster_io_t.Common.Word.{Bytes, put_le, get_le}
use goster_io_t.Wire.Checksum.{crc16_modbus, crc32_ieee}
use goster_io_t.Wire.Types.{Packet, cmd_heartbeat, cmd_action_exec}
use goster_io_t.Wire.Codec.{
  seal_body, header_of, header_front, pack_flags, read_full, unpack_header, le_at, unpack_body,
  read_body, check_body, packet_of, Gcm, IsAead, pack, unpack, key_in_use, nonce_direction,
}
use goster_io_t.Wire.Codec.Frame.{IsWire, sent_packet}
use goster_io_t.Wire.Codec.Plain.{unpack-pack_plain}
use goster_io_t.Wire.Codec.Sealed.{unpack-pack_sealed}
use goster_io_t.Wire.Codec.Sound.{Accepted, BreaksOff, unpack-Accepted}
use goster_io_t.Wire.Codec.Prefix.{unpack_truncated}
use goster_io_t.Wire.Codec.Nonce.{nonce, nonce-injective}

abbrev stand_in : Gcm
stand_in = record {
  accepts = λ k. true;
  seal = λ k n p a. p ++ replicate 16 0;
  unseal = λ k n c a. if leb 16 (length c) then some (take (length c - 16) c) else none;
}

cut_size :
    (c p : Bytes)
    → ◌≡◌ {A = Option Bytes}
        (if leb 16 (length c) then some (take (length c - 16) c) else none)
        (some p)
    → length c ≡ length p + 16
cut_size c p h = elim (Bool-cases (leb 16 (length c))) [
  | inl long ↦
      let opened : ◌≡◌ {A = Option Bytes} (some (take (length c - 16) c)) (some p) =
        sym (if-true none _ long) ∙ h in
      let text_len : length (take (length c - 16) c) ≡ length p =
        ap length (some-injective opened) in
      let taken = length-take (length c - 16) c in ground arith
  | inr short ↦
      let refused : ◌≡◌ {A = Option Bytes} none (some p) = sym (if-false _ _ short) ∙ h in
      absurd (cc)
]

cut_tag :
    (p : Bytes)
    → ◌≡◌ {A = Option Bytes}
        (let c = p ++ replicate 16 0 in
          if leb 16 (length c) then some (take (length c - 16) c) else none)
        (some p)
cut_tag p =
    let size : length (p ++ replicate 16 0) ≡ length p + 16 = length-append p (replicate 16 0) in
    let cut : length (p ++ replicate 16 0) - 16 ≡ length p = omega (arith, size) in
    if-true none _ (le→leb 16 (length (p ++ replicate 16 0)) (omega (arith, size)))
    ∙ ap some (rw cut (take-append_len (length p) p (replicate 16 0) refl))

stand_in-IsAead : IsAead stand_in
stand_in-IsAead = record {
  opened_size = λ k n c a p h. cut_size c p h;
  tag_size = λ k n p a. length-append p (replicate 16 0);
  opens = λ k n p a. cut_tag p;
}

abbrev payload : Bytes
payload = 72 ∷ 105 ∷ []

abbrev key : Bytes
key = replicate 16 7

heartbeat_range : IsWire cmd_heartbeat 1 41
heartbeat_range = record {
  cmd_range = omega arith;
  key_id_range = omega arith;
  seq_range = omega arith;
}

unpack-pack_plain_example :
    (frame : Bytes) × (pack stand_in payload cmd_heartbeat 1 none 41 false ≡ ok frame)
    × (unpack stand_in (frame ++ (9 ∷ [])) (some key)
        ≡ ok (sent_packet cmd_heartbeat 1 41 false false payload, 9 ∷ []))
unfolding key_in_use
unpack-pack_plain_example =
    unpack-pack_plain stand_in payload cmd_heartbeat 1 41 false none (some key) (9 ∷ [])
      (omega arith) heartbeat_range refl

unpack-pack_sealed_example :
    (frame : Bytes) × (pack stand_in payload cmd_heartbeat 1 (some key) 41 false ≡ ok frame)
    × (length frame ≡ 50)
    × (unpack stand_in (frame ++ (9 ∷ [])) (some key)
        ≡ ok (sent_packet cmd_heartbeat 1 41 false true payload, 9 ∷ []))
unpack-pack_sealed_example =
    unpack-pack_sealed stand_in payload cmd_heartbeat 1 41 false key (9 ∷ []) stand_in-IsAead refl
      (ground arith) (omega arith) heartbeat_range

-- The frame that `pack` makes of the payload, and its reading.
abbrev frame_front : Bytes
frame_front = 89 ∷ 87 ∷ 1 ∷ 0 ∷ 0 ∷ 0 ∷ 4 ∷ 1 ∷ 0 ∷ 0 ∷ 0 ∷ 0 ∷ 2 ∷ 0 ∷ 0 ∷ 0 ∷ 1 ∷ 0 ∷ 0 ∷ 0 ∷ []

abbrev frame_back : Bytes
frame_back =
    0 ∷ 0 ∷ 0 ∷ 0 ∷ 0 ∷ 0 ∷ 0 ∷ 192 ∷ 251 ∷ 0 ∷ 0 ∷ 72 ∷ 105 ∷ 140 ∷ 79 ∷ 85 ∷ 184 ∷ replicate 12 0

packs : pack stand_in payload cmd_heartbeat 0 none 41 false ≡ ok (frame_front ++ (41 ∷ frame_back))
unfolding pack seal_body key_in_use header_of header_front put_le pack_flags nonce_direction
    crc16_modbus crc32_ieee
packs = refl

abbrev sent : Packet
sent = sent_packet cmd_heartbeat 0 41 false false payload

reads : unpack stand_in (frame_front ++ (41 ∷ frame_back)) none ≡ ok (sent, [])
unfolding unpack read_full unpack_header le_at get_le crc16_modbus unpack_body read_body check_body
    crc32_ieee packet_of
reads = refl

unpack-Accepted_example : Accepted (frame_front ++ (41 ∷ frame_back)) none sent []
unpack-Accepted_example =
    unpack-Accepted stand_in (frame_front ++ (41 ∷ frame_back)) none sent [] stand_in-IsAead reads

unpack_truncated_example : BreaksOff (unpack stand_in frame_front none)
unpack_truncated_example =
    unpack_truncated stand_in frame_front 41 frame_back none sent stand_in-IsAead reads

same_nonce : nonce 3 cmd_heartbeat 1 0 true 7 ≡ nonce 2 cmd_action_exec 1 64 false 7
unfolding header_of header_front put_le nonce_direction crc16_modbus
same_nonce = refl

nonce-injective_example :
    (nonce_direction cmd_heartbeat true ≡ nonce_direction cmd_action_exec false) × ◌≡◌ {A = ℕ} 7 7
nonce-injective_example =
    nonce-injective 3 cmd_heartbeat 1 0 7 2 cmd_action_exec 1 64 7 true false (omega arith)
      (omega arith) same_nonce
