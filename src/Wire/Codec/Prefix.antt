-- ===== src/Wire/Codec/Prefix.antt =====
-- A connection that breaks off inside a frame.
use goster_io_t.Common.{ℕ, suc, ◌+◌, ◌≤◌, ◌≡◌, sym, ap, ◌∙◌, inl, inr, arith}
use goster_io_t.Common.{Option, [], ◌∷◌, ◌++◌, length, length-append, take, drop, length-drop}
use goster_io_t.Common.{take-append_len, take-append_le, eq→==, le→leb}
use goster_io_t.Common.Result.{Result, ok, ◌>>=◌}
use goster_io_t.Common.Word.{Bytes}
use goster_io_t.Wire.Types.{Packet}
use goster_io_t.Wire.Codec.{
  Gcm, IsAead, UnpackError, read_full, le_at, unpack_body, unpack_header, unpack,
}
use goster_io_t.Wire.Codec.Sound.{
  Accepted, BreaksOff, read_full_fits, read_full_short, unpack-Accepted,
}
use native.Mathlib.Decide.{dec_lt}

BreaksOff-bind {ℓ κ} :
    {A : Type ℓ} {B : Type κ} (m : Result UnpackError A) (f : A → Result UnpackError B)
    → BreaksOff m
    → BreaksOff (m >>= f)
BreaksOff-bind m f (inl e) = inl (rw e)
BreaksOff-bind m f (inr e) = inr (rw e)

module _ (gcm : Gcm) (front : Bytes) (x : ℕ) (back : Bytes) (key : Option Bytes) (p : Packet)
    (a : Accepted (front ++ (x ∷ back)) key p []) where
  total : length front + suc (length back) ≡ 32 + (le_at 12 4 a.header + 16)
  total = omega (
    arith,
    ap length a.taken,
    ap length a.behind.taken,
    length-append front (x ∷ back),
    length-append a.header a.reader,
    length-append a.behind.body [],
    a.header_len,
    a.behind.body_len,
  )

  same_header : 32 ≤ length front → take 32 front ≡ a.header
  same_header h =
      sym (take-append_le 32 front (x ∷ back) h)
      ∙ ap (take 32) a.taken
      ∙ take-append_len 32 a.header a.reader a.header_len

  cut_body : 32 ≤ length front → BreaksOff (unpack_header gcm key a.header (drop 32 front))
  unfolding unpack_header unpack_body
  cut_body h =
      let short =
        read_full_short (le_at 12 4 a.header + 16) (drop 32 front)
          (omega (arith, total, length-drop 32 front)) in
      rw (eq→== _ _ a.magic, eq→== _ _ a.checksum, le→leb _ _ a.announced)
        (BreaksOff-bind (read_full (le_at 12 4 a.header + 16) (drop 32 front)) _ short)

  cut_frame : BreaksOff (unpack gcm front key)
  unfolding unpack
  cut_frame = elim (dec_lt (length front) 32) [
    | yes h ↦ BreaksOff-bind (read_full 32 front) _ (read_full_short 32 front h)
    | no h ↦
        let whole : 32 ≤ length front = omega arith in
        rw (read_full_fits 32 front (omega arith) whole, same_header whole) (cut_body whole)
  ]

-- On every proper prefix of the bytes of one frame the reader finds the end of the connection: it
-- accepts no packet and reports no other error.
pub unpack_truncated :
    (gcm : Gcm) (front : Bytes) (x : ℕ) (back : Bytes) (key : Option Bytes) (p : Packet)
    → IsAead gcm
    → unpack gcm (front ++ (x ∷ back)) key ≡ ok (p, [])
    → BreaksOff (unpack gcm front key)
unpack_truncated gcm front x back key p aead h =
    cut_frame gcm front x back key p (unpack-Accepted gcm (front ++ (x ∷ back)) key p [] aead h)
