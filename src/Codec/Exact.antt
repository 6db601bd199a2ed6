-- ===== src/Codec/Exact.antt =====
-- codec.py: the decoders against the encoders, on every input.
use vaulttls.Codec.Reader.{Parser}
use vaulttls.Codec.Decode.{
  read_client_finish, read_client_hello, read_app_data, read_server_hello, run, decode_alert,
  decode_app_data, decode_client_finish, decode_server_hello, decode_client_hello,
}
use vaulttls.Prelude.{
  [], append-nil, sym, refl, ap, ◌∙◌, ◌<◌, ◌∷◌, All, ◌++◌, ◌↔◌, ◌≡◌, ℕ, IsBytes, Bytes,
}
use vaulttls.Codec.Messages.{
  ParsedClientFinish, ParsedClientHello, ParsedAppData, ParsedServerHello,
}
use vaulttls.Codec.Encode.{encode_client_finish, encode_app_data, encode_alert}
use vaulttls.Codec.Format.{run-Reads, run_truncated, run_iff, Format}
use vaulttls.Errors.{err, Exc, ok, Result}
use vaulttls.Codec.Wire.{
  encode_alert-eq_ok, encode_client_finish_iff, encode_client_hello_iff, encode_app_data_iff,
  encode_server_hello_iff, encoded_client_hello, encoded_server_hello,
}
use vaulttls.Python.Text.{Text}
use vaulttls.Codec.RoundTrip.{
  Reads-alert, client_finish-Format, client_hello-Format, app_data-Format, server_hello-Format,
}
use vaulttls.Python.Text.RoundTrip.{decode_replace-encode}

module _ {A : Type 0} (m : Parser A) {Fits : A → Type 0} {wire : A → Bytes} (F : Format m Fits wire)
    (encoded : A → Result Bytes)
    (encoded_iff : (a : A) (w : Bytes) → (encoded a ≡ ok w) ↔ Fits a × (w ≡ wire a)) where
  decoded_iff :
      (bytes : Bytes) (a : A)
      → IsBytes bytes
      → (run m bytes ≡ ok a) ↔ ((w : Bytes) × (t : Bytes) × (encoded a ≡ ok w) × (bytes ≡ w ++ t))
  decoded_iff bytes a h = (there, back)
    where
      there : run m bytes ≡ ok a → (w : Bytes) × (t : Bytes) × (encoded a ≡ ok w) × (bytes ≡ w ++ t)
      there e =
          let (f, (t, s)) = (run_iff m F bytes a h).0 e in
          (wire a, t, (encoded_iff a (wire a)).1 (f, refl), s)

      back : (w : Bytes) × (t : Bytes) × (encoded a ≡ ok w) × (bytes ≡ w ++ t) → run m bytes ≡ ok a
      back (w, t, e, s) =
          let (f, q) = (encoded_iff a w).0 e in
          (run_iff m F bytes a h).1 (f, (t, s ∙ ap (λ v. v ++ t) q))

  cut_short :
      (a : A) {w : Bytes} (front : Bytes) (x : ℕ) (back : Bytes)
      → encoded a ≡ ok w
      → IsBytes front
      → w ≡ front ++ (x ∷ back)
      → (e : Exc) × (run m front ≡ err e)
  cut_short a {w} front x back e h s =
      let (f, q) = (encoded_iff a w).0 e in run_truncated m F a front x back f h (sym q ∙ s)

  read_back : (a : A) {w : Bytes} (t : Bytes) → encoded a ≡ ok w → run m (w ++ t) ≡ ok a
  read_back a {w} t e = let (f, q) = (encoded_iff a w).0 e in rw q (run-Reads t (F.complete a f))

-- A message that was encoded is decoded, with nothing behind it.
pub decode-encode_client_hello :
    (m : ParsedClientHello) {w : Bytes}
    → encoded_client_hello m ≡ ok w
    → decode_client_hello w ≡ ok m
unfolding decode_client_hello
decode-encode_client_hello m {w} e =
    ap (run read_client_hello) (sym (append-nil w))
    ∙ read_back read_client_hello client_hello-Format encoded_client_hello encode_client_hello_iff m
        [] e

pub decode-encode_server_hello :
    (m : ParsedServerHello) {w : Bytes}
    → encoded_server_hello m ≡ ok w
    → decode_server_hello w ≡ ok m
unfolding decode_server_hello
decode-encode_server_hello m {w} e =
    ap (run read_server_hello) (sym (append-nil w))
    ∙ read_back read_server_hello server_hello-Format encoded_server_hello encode_server_hello_iff m
        [] e

pub decode-encode_client_finish :
    (m : ParsedClientFinish) {w : Bytes}
    → encode_client_finish m.opaque_ke3 ≡ ok w
    → decode_client_finish w ≡ ok m
unfolding decode_client_finish
decode-encode_client_finish m {w} e =
    ap (run read_client_finish) (sym (append-nil w))
    ∙ read_back read_client_finish client_finish-Format (λ m. encode_client_finish m.opaque_ke3)
        (λ m. encode_client_finish_iff m.opaque_ke3) m [] e

pub decode-encode_app_data :
    (m : ParsedAppData) {w : Bytes}
    → encode_app_data m.seq m.ciphertext ≡ ok w
    → decode_app_data w ≡ ok m
unfolding decode_app_data
decode-encode_app_data m {w} e =
    ap (run read_app_data) (sym (append-nil w))
    ∙ read_back read_app_data app_data-Format (λ m. encode_app_data m.seq m.ciphertext)
        (λ m. encode_app_data_iff m.seq m.ciphertext) m [] e

-- On any bytes, the ClientHello decoder returns a message exactly when the bytes are what the
-- encoder writes for that message, with anything behind it.
pub decode_client_hello_iff :
    (bytes : Bytes) (m : ParsedClientHello)
    → IsBytes bytes
    → (decode_client_hello bytes ≡ ok m)
      ↔ ((w : Bytes) × (t : Bytes) × (encoded_client_hello m ≡ ok w) × (bytes ≡ w ++ t))
unfolding decode_client_hello
decode_client_hello_iff =
    decoded_iff read_client_hello client_hello-Format encoded_client_hello encode_client_hello_iff

-- On any bytes, the ServerHello decoder returns a message exactly when the bytes are what
-- `encode_server_hello_core` and `encode_server_hello` write for it, with anything behind it.
pub decode_server_hello_iff :
    (bytes : Bytes) (m : ParsedServerHello)
    → IsBytes bytes
    → (decode_server_hello bytes ≡ ok m)
      ↔ ((w : Bytes) × (t : Bytes) × (encoded_server_hello m ≡ ok w) × (bytes ≡ w ++ t))
unfolding decode_server_hello
decode_server_hello_iff =
    decoded_iff read_server_hello server_hello-Format encoded_server_hello encode_server_hello_iff

-- On any bytes, the ClientFinish decoder returns a message exactly when the bytes are what the
-- encoder writes for that message, with anything behind it.
pub decode_client_finish_iff :
    (bytes : Bytes) (m : ParsedClientFinish)
    → IsBytes bytes
    → (decode_client_finish bytes ≡ ok m)
      ↔ ((w : Bytes) × (t : Bytes) × (encode_client_finish m.opaque_ke3 ≡ ok w) × (bytes ≡ w ++ t))
unfolding decode_client_finish
decode_client_finish_iff =
    decoded_iff read_client_finish client_finish-Format (λ m. encode_client_finish m.opaque_ke3)
      (λ m. encode_client_finish_iff m.opaque_ke3)

-- On any bytes, the AppData decoder returns a record exactly when the bytes are what the encoder
-- writes for that record, with anything behind it.
pub decode_app_data_iff :
    (bytes : Bytes) (m : ParsedAppData)
    → IsBytes bytes
    → (decode_app_data bytes ≡ ok m)
      ↔ ((w : Bytes) × (t : Bytes) × (encode_app_data m.seq m.ciphertext ≡ ok w) × (bytes ≡ w ++ t))
unfolding decode_app_data
decode_app_data_iff =
    decoded_iff read_app_data app_data-Format (λ m. encode_app_data m.seq m.ciphertext)
      (λ m. encode_app_data_iff m.seq m.ciphertext)

-- A ServerHello that lost any bytes at its end is refused by its decoder.
pub decode_server_hello_truncated :
    (m : ParsedServerHello) {w : Bytes} (front : Bytes) (x : ℕ) (back : Bytes)
    → encoded_server_hello m ≡ ok w
    → IsBytes front
    → w ≡ front ++ (x ∷ back)
    → (e : Exc) × (decode_server_hello front ≡ err e)
unfolding decode_server_hello
decode_server_hello_truncated =
    cut_short read_server_hello server_hello-Format encoded_server_hello encode_server_hello_iff

-- An AppData record that lost any bytes at its end is refused by its decoder.
decode_app_data_truncated :
    (m : ParsedAppData) {w : Bytes} (front : Bytes) (x : ℕ) (back : Bytes)
    → encode_app_data m.seq m.ciphertext ≡ ok w
    → IsBytes front
    → w ≡ front ++ (x ∷ back)
    → (e : Exc) × (decode_app_data front ≡ err e)
unfolding decode_app_data
decode_app_data_truncated =
    cut_short read_app_data app_data-Format (λ m. encode_app_data m.seq m.ciphertext)
      (λ m. encode_app_data_iff m.seq m.ciphertext)

-- An alert of Unicode text that was encoded, with anything behind it, decodes to its level and its text.
pub decode_alert-encode_alert :
    (level : ℕ) (message : Text) {w : Bytes} (t : Bytes)
    → All (λ c. c < 0x110000) message
    → encode_alert level message ≡ ok w
    → decode_alert (w ++ t) ≡ ok (record { level = level; message = message })
unfolding decode_alert
decode_alert-encode_alert level message {w} t h e =
    let (text, p, q, r) = encode_alert-eq_ok level message w e in
    rw r (run-Reads t (Reads-alert level text q) ∙ rw (decode_replace-encode message h p))
