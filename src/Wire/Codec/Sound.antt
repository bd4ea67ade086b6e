-- ===== src/Wire/Codec/Sound.antt =====
-- What an accepted frame looks like, on any input, and what a connection that breaks off gives.
use goster_io_t.Common.{ℕ, ◌+◌, ◌≤◌, ◌<◌, ◌≡◌, refl, ◌≢◌, ◌⊎◌, inl, inr}
use goster_io_t.Common.{arith, true, Option, none, some, [], ◌∷◌, ◌++◌, Bool-cases}
use goster_io_t.Common.{
  ap, length, take, drop, length-append, length-take, take-append-drop, le→leb,
}
use mathlib.Core.Path.{subst}
use goster_io_t.Common.Result.{Result, ok, err, >>=-succeeds, ok-injective}
use goster_io_t.Common.Word.{Bytes, slice}
use goster_io_t.Wire.Types.{Packet, magic_number, max_payload_size}
use goster_io_t.Wire.Checksum.{crc16_modbus}
use goster_io_t.Wire.Codec.{
  Gcm, IsAead, UnpackError, eof, unexpected_eof, read_full, le_at, check_body, encrypted, packet_of,
  open_body, read_body, unpack_body, unpack_header, unpack,
}

read_full-eq-ok :
    (n : ℕ) (input xs ys : Bytes)
    → read_full n input ≡ ok (xs, ys)
    → (input ≡ xs ++ ys) × (length xs ≡ n)
unfolding read_full
read_full-eq-ok n [] xs ys h = cc
read_full-eq-ok n (b ∷ input) xs ys h =
    ground (arith, take-append-drop n (b ∷ input), length-take n (b ∷ input))

pub read_full_fits :
    (n : ℕ) (xs : Bytes) → 0 < n → n ≤ length xs → read_full n xs ≡ ok (take n xs, drop n xs)
unfolding read_full
read_full_fits n [] p h = absurd (omega arith)
read_full_fits n (x ∷ xs) p h = rw (le→leb _ _ h)

abbrev pub BreaksOff {ℓ} : {A : Type ℓ} → Result UnpackError A → Type ℓ
BreaksOff r = (r ≡ err eof) ⊎ (r ≡ err unexpected_eof)

pub read_full_short : (n : ℕ) (xs : Bytes) → length xs < n → BreaksOff (read_full n xs)
unfolding read_full
read_full_short n [] h = inl refl
read_full_short n (x ∷ xs) h = inr (ground arith)

open_body-eq-ok :
    (gcm : Gcm) (key : Option Bytes) (header body payload : Bytes)
    → IsAead gcm
    → open_body gcm key header body ≡ ok payload
    → (length body ≡ length payload + 16) × (key ≢ none)
unfolding open_body
open_body-eq-ok gcm none header body payload aead h = cc
open_body-eq-ok gcm (some key) header body payload aead h = (
  ground (arith, aead.opened_size key (slice 16 12 header) body (take 28 header) payload),
  λ e. cc,
)

-- The bytes behind an accepted header: the payload that it announces and 16 bytes, then the rest.
pub record HasBody (key : Option Bytes) (header reader : Bytes) (p : Packet) (rest : Bytes)
    : Type 0 where
  pub body : Bytes
  pub taken : reader ≡ body ++ rest
  pub body_len : length body ≡ le_at 12 4 header + 16
  pub fields : p ≡ packet_of header p.payload
  pub payload_len : length p.payload ≡ le_at 12 4 header
  pub key_given : p.is_encrypted ≡ true → key ≢ none

-- What `unpack` found: the bytes that it took, in two parts, with the checks that they passed.
pub record Accepted (input : Bytes) (key : Option Bytes) (p : Packet) (rest : Bytes) : Type 0 where
  pub header : Bytes
  pub reader : Bytes
  pub taken : input ≡ header ++ reader
  pub header_len : length header ≡ 32
  pub magic : le_at 0 2 header ≡ magic_number
  pub checksum : le_at 28 2 header ≡ crc16_modbus (take 28 header)
  pub announced : le_at 12 4 header ≤ max_payload_size
  pub behind : HasBody key header reader p rest

pub check_body-eq-ok :
    (header body payload : Bytes)
    → le_at 12 4 header ≤ length body
    → check_body header body ≡ ok payload
    → length payload ≡ le_at 12 4 header
unfolding check_body
check_body-eq-ok header body payload fits h = ground (arith, length-take (le_at 12 4 header) body)

read_body-eq-ok :
    (gcm : Gcm) (key : Option Bytes) (header body payload : Bytes)
    → IsAead gcm
    → length body ≡ le_at 12 4 header + 16
    → read_body gcm key header body ≡ ok payload
    → (length payload ≡ le_at 12 4 header) × (encrypted header ≡ true → key ≢ none)
read_body-eq-ok gcm key header body payload aead size h = elim (Bool-cases (encrypted header)) [
  | inl e ↦
      let r = open_body-eq-ok gcm key header body payload aead (unfold read_body in rw e at h) in
      (omega (arith, r.0), λ _. r.1)
  | inr e ↦
      (check_body-eq-ok header body payload (omega arith) (unfold read_body in rw e at h), λ e'. cc)
]

module _ (gcm : Gcm) (key : Option Bytes) (aead : IsAead gcm) where
  has_body :
      (header reader body payload rest : Bytes)
      → read_full (le_at 12 4 header + 16) reader ≡ ok (body, rest)
      → read_body gcm key header body ≡ ok payload
      → HasBody key header reader (packet_of header payload) rest
  unfolding packet_of
  has_body header reader body payload rest r b =
      let (taken, size) = read_full-eq-ok (le_at 12 4 header + 16) reader body rest r in
      let (len, keyed) = read_body-eq-ok gcm key header body payload aead size b in
      record {
        body = body;
        taken = taken;
        body_len = size;
        fields = refl;
        payload_len = len;
        key_given = keyed;
      }

  unpack_body-eq-ok :
      (header reader : Bytes) (p : Packet) (rest : Bytes)
      → unpack_body gcm key header reader ≡ ok (p, rest)
      → HasBody key header reader p rest
  unfolding unpack_body
  unpack_body-eq-ok header reader p rest h =
      let (r, e, h') = >>=-succeeds (read_full (le_at 12 4 header + 16) reader) _ h in
      let (payload, b, h'') = >>=-succeeds (read_body gcm key header r.0) _ h' in
      subst (λ (q : Packet × Bytes). HasBody key header reader q.0 q.1) (ok-injective h'')
        (has_body header reader r.0 payload r.1 e b)

  unpack_header-eq-ok :
      (header reader : Bytes) (p : Packet) (rest : Bytes)
      → unpack_header gcm key header reader ≡ ok (p, rest)
      → (le_at 0 2 header ≡ magic_number)
        × (le_at 28 2 header ≡ crc16_modbus (take 28 header))
        × (le_at 12 4 header ≤ max_payload_size)
        × (unpack_body gcm key header reader ≡ ok (p, rest))
  unfolding unpack_header
  unpack_header-eq-ok header reader p rest h = ground arith

  accepted :
      (input header reader : Bytes) (p : Packet) (rest : Bytes)
      → read_full 32 input ≡ ok (header, reader)
      → unpack_header gcm key header reader ≡ ok (p, rest)
      → Accepted input key p rest
  accepted input header reader p rest r h =
      let (taken, size) = read_full-eq-ok 32 input header reader r in
      let (magic, checksum, announced, h') = unpack_header-eq-ok header reader p rest h in
      record {
        header = header;
        reader = reader;
        taken = taken;
        header_len = size;
        magic = magic;
        checksum = checksum;
        announced = announced;
        behind = unpack_body-eq-ok header reader p rest h';
      }

-- Whatever the input, a packet that `unpack` returns was cut from its front: a header of 32 bytes
-- with the magic number and its own CRC, which announces at most 64 KiB, then a payload of the
-- announced size and 16 bytes; an encrypted frame is accepted only by a reader with a key.
pub unpack-Accepted :
    (gcm : Gcm) (input : Bytes) (key : Option Bytes) (p : Packet) (rest : Bytes)
    → IsAead gcm
    → unpack gcm input key ≡ ok (p, rest)
    → Accepted input key p rest
unfolding unpack
unpack-Accepted gcm input key p rest aead h =
    let (r, e, h') = >>=-succeeds (read_full 32 input) _ h in
    accepted gcm key aead input r.0 r.1 p rest e h'

unpack_header-shortens :
    (gcm : Gcm) (key : Option Bytes) (header reader : Bytes) (p : Packet) (rest : Bytes)
    → unpack_header gcm key header reader ≡ ok (p, rest)
    → length rest + 16 ≤ length reader
unfolding unpack_header unpack_body
unpack_header-shortens gcm key header reader p rest h =
    let body_read : unpack_body gcm key header reader ≡ ok (p, rest) = ground arith in
    let (r, e, h') = >>=-succeeds (read_full (le_at 12 4 header + 16) reader) _ body_read in
    let (payload, b, h'') = >>=-succeeds (read_body gcm key header r.0) _ h' in
    let left : r.1 ≡ rest = ap (λ (q : Packet × Bytes). q.1) (ok-injective h'') in
    let (taken, size) = read_full-eq-ok (le_at 12 4 header + 16) reader r.0 r.1 e in
    omega (arith, ap length taken, ap length left, length-append r.0 r.1)

-- A packet takes at least its header and its footer from the input.
pub unpack-shortens :
    (gcm : Gcm) (input : Bytes) (key : Option Bytes) (p : Packet) (rest : Bytes)
    → unpack gcm input key ≡ ok (p, rest)
    → length rest + 48 ≤ length input
unfolding unpack
unpack-shortens gcm input key p rest h =
    let (r, e, h') = >>=-succeeds (read_full 32 input) _ h in
    let (taken, size) = read_full-eq-ok 32 input r.0 r.1 e in
    omega (
      arith,
      ap length taken,
      length-append r.0 r.1,
      unpack_header-shortens gcm key r.0 r.1 p rest h',
    )
