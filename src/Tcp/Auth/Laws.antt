-- ===== src/Tcp/Auth/Laws.antt =====
-- Which payloads of AuthVerify are accepted.
use goster_io_t.Common.{
  ℕ, ◌+◌, ◌-◌, ◌<◌, ◌≡◌, ◌≢◌, ◌↔◌, refl, sym, ap, ◌∙◌, arith, Bool, true, false, ◌||◌, some, [],
  ◌∷◌, ◌++◌, is_empty, length, take, drop, length-append, leb, ◌==◌, length-take, take-append-drop,
  take-append_len, drop-append_len, if-true, if-false, if◌then◌else◌, lt→leb, neq→==,
}
use goster_io_t.Common.Result.{Result, ok, err, ok-injective}
use goster_io_t.Common.Word.{Bytes, put_le}
use goster_io_t.Common.Text.{str_eq_iff}
use goster_io_t.Tcp.Types.{
  IsMac, Library, Session, SessionError, no_session_key, no_handshake, no_mac, wrong_mac,
}
use goster_io_t.Tcp.Auth.{auth_token_from_payload, auth_verify_mac, auth_verify_payload}

-- The payload proves the token: there is a key and a recorded handshake, the token is not empty, and
-- the payload is the token with the digest over the two public keys, the time in eight bytes and the
-- token.
pub record Proves (lib : Library) (s : Session) (key : Bytes) (payload token : Bytes) : Type 0 where
  pub keyed : key ≢ []
  pub met : s.server_pub_key ≢ []
  pub timed : s.handshake_ts ≢ 0
  pub named : token ≢ []
  pub made :
      payload
      ≡ token
        ++ lib.hmac key
            (s.client_pub_key ++ (s.server_pub_key ++ (put_le 8 s.handshake_ts ++ token)))

not_empty : (xs : Bytes) → xs ≢ [] → is_empty xs ≡ false
not_empty [] h = absurd (h refl)
not_empty (x ∷ xs) h = refl

was_not_empty : (xs : Bytes) → is_empty xs ≡ false → xs ≢ []
was_not_empty [] h = absurd (cc)
was_not_empty (x ∷ xs) h = λ e. cc

some_length : (xs : Bytes) → xs ≢ [] → 0 < length xs
some_length [] h = absurd (h refl)
some_length (x ∷ xs) h = omega arith

long_cut : (xs : Bytes) (n : ℕ) → n < length xs → take (length xs - n) xs ≢ []
long_cut xs n h = λ e. absurd (omega (arith, ap length e, length-take (length xs - n) xs))

length-auth_verify_mac :
    (lib : Library) (key : Bytes) (s : Session) (token : Bytes)
    → IsMac lib
    → length (auth_verify_mac lib key s.client_pub_key s.server_pub_key s.handshake_ts token) ≡ 32
unfolding auth_verify_mac
length-auth_verify_mac lib key s token is_mac = is_mac key _

unless_err :
    {A : Type 0} (b : Bool) (e : SessionError) (y : Result SessionError A) (a : A)
    → (if b then err e else y) ≡ ok a
    → (b ≡ false) × (y ≡ ok a)
unless_err true e y a h = absurd (cc)
unless_err false e y a h = (refl, h)

when_ok :
    {A : Type 0} (b : Bool) (e : SessionError) (x a : A)
    → (if b then ok x else err e) ≡ ok a
    → (b ≡ true) × (x ≡ a)
when_ok true e x a h = (refl, ok-injective h)
when_ok false e x a h = absurd (cc)

both_false : (a b : Bool) → (a || b) ≡ false → (a ≡ false) × (b ≡ false)
both_false true b h = absurd (cc)
both_false false b h = (refl, h)

module _ (lib : Library) (s : Session) (key : Bytes) where
  accepts-proof :
      (payload token : Bytes)
      → IsMac lib
      → Proves lib s key payload token
      → auth_token_from_payload lib s payload (some key) ≡ ok token
  unfolding auth_token_from_payload auth_verify_mac
  accepts-proof payload token is_mac p =
      let mac = auth_verify_mac lib key s.client_pub_key s.server_pub_key s.handshake_ts token in
      let mac_len : length mac ≡ 32 = length-auth_verify_mac lib key s token is_mac in
      let size : length payload ≡ length token + 32 =
        ap length p.made ∙ length-append token mac ∙ ap (λ n. length token + n) mac_len in
      let cut : length payload - 32 ≡ length token = omega (arith, size) in
      let front : take (length payload - 32) payload ≡ token =
        ap (λ n. take n payload) cut
        ∙ ap (take (length token)) p.made
        ∙ take-append_len (length token) token mac refl in
      let back : drop (length payload - 32) payload ≡ mac =
        ap (λ n. drop n payload) cut
        ∙ ap (drop (length token)) p.made
        ∙ drop-append_len (length token) token mac refl in
      let unmet : (is_empty s.server_pub_key || s.handshake_ts == 0) ≡ false =
        rw (not_empty s.server_pub_key p.met) (neq→== s.handshake_ts 0 p.timed) in
      let long = lt→leb (length payload) 32 (omega (arith, size, some_length token p.named)) in
      let same = (str_eq_iff _ _).1 (
        back
        ∙ ap (auth_verify_mac lib key s.client_pub_key s.server_pub_key s.handshake_ts)
            (sym front)) in
      if-false _ _ (not_empty key p.keyed)
      ∙ if-false _ _ unmet
      ∙ if-false _ _ long
      ∙ if-true _ _ same
      ∙ ap ok front

  proof-accepted :
      (payload token : Bytes)
      → auth_token_from_payload lib s payload (some key) ≡ ok token
      → Proves lib s key payload token
  unfolding auth_token_from_payload auth_verify_mac
  proof-accepted payload token h =
      let cut = length payload - 32 in
      let (keyed, h1) = unless_err (is_empty key) no_session_key _ token h in
      let (met, h2) =
        unless_err (is_empty s.server_pub_key || s.handshake_ts == 0) no_handshake _ token h1 in
      let (long, h3) = unless_err (leb (length payload) 32) no_mac _ token h2 in
      let (same, front) = when_ok _ wrong_mac (take cut payload) token h3 in
      let back =
        (str_eq_iff _ _).0 same
        ∙ ap (auth_verify_mac lib key s.client_pub_key s.server_pub_key s.handshake_ts) front in
      let (server, timed) = both_false _ _ met in
      record {
        keyed = was_not_empty key keyed;
        met = was_not_empty s.server_pub_key server;
        timed = λ zero_ts. absurd (ground (arith, zero_ts, timed));
        named = λ e. long_cut payload 32 (ground (arith, long)) (front ∙ e);
        made =
            sym (take-append-drop cut payload)
            ∙ ap (λ t. t ++ drop cut payload) front
            ∙ ap (λ m. token ++ m) back;
      }

  -- With a session key that may be empty, AuthVerify takes a token from a payload exactly when the
  -- payload is that token followed by the HMAC under the session key of the device's public key, the
  -- server's, the time of the handshake in eight bytes and the token, and none of the key, the
  -- server's public key, the time and the token is empty or 0. A digest has 32 bytes.
  pub auth_token_from_payload-Proves :
      (payload token : Bytes)
      → IsMac lib
      → (auth_token_from_payload lib s payload (some key) ≡ ok token)
        ↔ Proves lib s key payload token
  auth_token_from_payload-Proves payload token is_mac =
      (proof-accepted payload token, accepts-proof payload token is_mac)

  -- What authVerifyPayload makes of the session's handshake is accepted.
  auth_verify_payload-Proves :
      (token : Bytes)
      → key ≢ []
      → s.server_pub_key ≢ []
      → s.handshake_ts ≢ 0
      → token ≢ []
      → Proves lib s key
          (auth_verify_payload lib key s.client_pub_key s.server_pub_key s.handshake_ts token)
          token
  unfolding auth_verify_payload auth_verify_mac
  auth_verify_payload-Proves token keyed met timed named = record {
    keyed = keyed;
    met = met;
    timed = timed;
    named = named;
    made = refl;
  }
