-- ===== src/Codec/RoundTrip.antt =====
-- codec.py: each decoder reads exactly the layout of its message.
use vaulttls.Prelude.{
  ℕ, append_assoc, ◌≡◌, ◌^◌, ◌++◌, ◌<◌, length, ◌∷◌, arith, append-nil, subst, Bytes, refl,
}
use vaulttls.Codec.Reader.{u32, u64, v24, ◌>>=◌, v16, check, u8, pure, read, Parser}
use vaulttls.Codec.Decode.{
  read_alert, read_app_data, read_client_finish, read_server_hello, read_client_hello,
}
use vaulttls.Codec.Format.{Format}
use vaulttls.Codec.Wire.{
  app_data, client_finish, server_hello, FitsServerHello, vector, client_hello, FitsClientHello,
}
use vaulttls.Codec.Fields.{
  Reads-u32, Reads-u64, Reads-v24, Reads-pure, Reads-v16, Reads-read, Reads-check, Reads-u8,
  Reads-bind, Reads,
}
use vaulttls.Codec.Accepts.{
  Accepts-u32, Accepts-u64, Accepts-v24, Accepts-pure, Accepts-v16, Accepts-read, Accepts-check,
  Accepts-u8, Accepts-bind, Accepts-weaken,
}
use vaulttls.Codec.Messages.{ParsedServerHello}
use vaulttls.Python.Text.{decode_replace}

-- The last read of a decoder, and the object built from it.
Reads-last :
    {A B : Type 0} (m : Parser A) (g : A → B) {w : Bytes} {a : A}
    → Reads m w a
    → Reads (do a ← m; pure (g a)) w (g a)
Reads-last m g {w} {a} h =
    subst (λ v. Reads (do a ← m; pure (g a)) v (g a)) (append-nil w)
      (Reads-bind m _ h (Reads-pure (g a)))

pub client_hello-Format : Format read_client_hello FitsClientHello client_hello
unfolding read_client_hello
client_hello-Format = record {
  complete = λ a f. Reads-bind u8 _ (Reads-u8 1) (
      Reads-bind (check _ _) _ (Reads-check _ _ refl) (
        Reads-bind u8 _ (Reads-u8 a.version) (
          Reads-bind (read 64) _ (Reads-read a.credential_id 64 f.id_length) (
            Reads-bind (read 32) _ (Reads-read a.client_nonce 32 f.nonce_length)
              (Reads-last v16 _ (Reads-v16 a.opaque_ke1 f.ke1_fits))))));
  sound =
      Accepts-weaken read_client_hello (λ a w h. ground (arith, append-nil (vector 2 a.opaque_ke1)))
        (Accepts-bind u8 _ Accepts-u8 (λ tag. Accepts-bind (check _ _) _ (Accepts-check _ _) (λ _.
          Accepts-bind u8 _ Accepts-u8 (λ version.
            Accepts-bind (read 64) _ (Accepts-read 64) (λ credential_id.
              Accepts-bind (read 32) _ (Accepts-read 32) (λ client_nonce.
                Accepts-bind v16 _ Accepts-v16 (λ opaque_ke1. Accepts-pure _)))))));
}

-- The signed core of a ServerHello in one run with the signatures behind it.
regroup :
    (m : ParsedServerHello)
    → 0x02 ∷ m.version ∷ m.server_nonce
        ++ (vector 2 m.opaque_ke2
            ++ (vector 3 m.certificate_chain
                ++ (vector 2 m.server_config
                    ++ (vector 2 m.server_config_sig ++ vector 2 m.cert_verify_sig))))
      ≡ server_hello m
regroup m = simp append_assoc

pub server_hello-Format : Format read_server_hello FitsServerHello server_hello
unfolding read_server_hello
server_hello-Format = record {
  complete = λ a f.
      subst (λ w. Reads read_server_hello w a) (regroup a)
        (Reads-bind u8 _ (Reads-u8 2) (
          Reads-bind (check _ _) _ (Reads-check _ _ refl) (
            Reads-bind u8 _ (Reads-u8 a.version) (
              Reads-bind (read 32) _ (Reads-read a.server_nonce 32 f.nonce_length) (
                Reads-bind v16 _ (Reads-v16 a.opaque_ke2 f.ke2_fits) (
                  Reads-bind v24 _ (Reads-v24 a.certificate_chain f.chain_fits) (
                    Reads-bind v16 _ (Reads-v16 a.server_config f.config_fits) (
                      Reads-bind v16 _ (Reads-v16 a.server_config_sig f.config_sig_fits)
                        (Reads-last v16 _ (Reads-v16 a.cert_verify_sig f.verify_sig_fits))))))))));
  sound =
      Accepts-weaken read_server_hello
        (λ a w h. ground (arith, append-nil (vector 2 a.cert_verify_sig), regroup a))
        (Accepts-bind u8 _ Accepts-u8 (λ tag. Accepts-bind (check _ _) _ (Accepts-check _ _) (λ _.
          Accepts-bind u8 _ Accepts-u8 (λ version.
            Accepts-bind (read 32) _ (Accepts-read 32) (λ srv_nonce.
              Accepts-bind v16 _ Accepts-v16 (λ ke2. Accepts-bind v24 _ Accepts-v24 (λ cert.
                Accepts-bind v16 _ Accepts-v16 (λ cfg.
                  Accepts-bind v16 _ Accepts-v16
                    (λ csig. Accepts-bind v16 _ Accepts-v16 (λ cvsig. Accepts-pure _))))))))));
}

pub client_finish-Format :
    Format read_client_finish (λ m. length m.opaque_ke3 < 256 ^ 2) (λ m. client_finish m.opaque_ke3)
unfolding read_client_finish
client_finish-Format = record {
  complete = λ a f. Reads-bind u8 _ (Reads-u8 3) (
      Reads-bind (check _ _) _ (Reads-check _ _ refl)
        (Reads-last v16 _ (Reads-v16 a.opaque_ke3 f)));
  sound =
      Accepts-weaken read_client_finish
        (λ a w h. ground (arith, append-nil (vector 2 a.opaque_ke3)))
        (Accepts-bind u8 _ Accepts-u8 (λ tag.
          Accepts-bind (check _ _) _ (Accepts-check _ _)
            (λ _. Accepts-bind v16 _ Accepts-v16 (λ ke3. Accepts-pure _))));
}

pub app_data-Format :
    Format read_app_data
      (λ m. (m.seq < 256 ^ 8) × (length m.ciphertext < 256 ^ 4))
      (λ m. app_data m.seq m.ciphertext)
unfolding read_app_data
app_data-Format = record {
  complete = λ a f. Reads-bind u8 _ (Reads-u8 4) (
      Reads-bind (check _ _) _ (Reads-check _ _ refl) (
        Reads-bind u64 _ (Reads-u64 a.seq f.0) (
          Reads-bind u32 _ (Reads-u32 (length a.ciphertext) f.1)
            (Reads-last (read (length a.ciphertext)) _ (Reads-read a.ciphertext _ refl)))));
  sound =
      Accepts-weaken read_app_data (λ a w h. ground (arith, append-nil a.ciphertext))
        (Accepts-bind u8 _ Accepts-u8 (λ tag. Accepts-bind (check _ _) _ (Accepts-check _ _) (λ _.
          Accepts-bind u64 _ Accepts-u64 (λ seq.
            Accepts-bind u32 _ Accepts-u32
              (λ n. Accepts-bind (read n) _ (Accepts-read n) (λ ct. Accepts-pure _))))));
}

pub Reads-alert :
    (level : ℕ) (text : Bytes)
    → length text < 256 ^ 2
    → Reads read_alert
        (0x05 ∷ level ∷ vector 2 text)
        (record { level = level; message = decode_replace text })
unfolding read_alert
Reads-alert level text h = Reads-bind u8 _ (Reads-u8 5) (
    Reads-bind (check _ _) _ (Reads-check _ _ refl)
      (Reads-bind u8 _ (Reads-u8 level) (Reads-last v16 _ (Reads-v16 text h))))
