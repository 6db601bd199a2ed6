-- ===== src/Login/Authentic.antt =====
-- client.py: whom a client that finished its login has authenticated.
use vaulttls.Prelude.{◌≡◌, refl, subst, none, ◌++◌, Bytes}
use vaulttls.Errors.{
  ok_inj, cert_verify_invalid, config_signature_invalid, >>=-eq-ok, Exc, Result, ok, err, ◌>>◌,
}
use vaulttls.Opaque.Crypto.{Crypto}
use vaulttls.Pki.{
  build_cv_message, sc_prefix, verify_certificate_verify_signature, verify_certificate_chain,
  verify_server_config_signature, reraise, X509,
}
use vaulttls.Login.{authenticate, Machine}
use vaulttls.Codec.Messages.{ParsedServerHello}
use vaulttls.Python.Text.{codes}
use vaulttls.ServerConfig.{server_config_max_age_s, server_id, validate_server_config, ServerConfig}
use vaulttls.Kdf.{digest, empty_transcript, add, Transcript}
use vaulttls.Codec.Encode.{encode_server_hello_core}

module _ {P Cert : Type 0} (C : Crypto P) (X : X509 Cert) where
  -- A ServerHello whose checks all passed, for a certificate.
  pub record Authentic (machine : Machine Cert) (client_hello : Bytes) (parsed : ParsedServerHello)
      (cert : Cert) : Type 0 where
    pub chain_trusted :
        verify_certificate_chain X parsed.certificate_chain
          (codes "localhost")
          none
          machine.ca_file
          machine.now
        ≡ ok cert
    pub config_signed :
        X.verify_ecdsa cert parsed.server_config_sig (sc_prefix ++ parsed.server_config) ≡ ok tt
    pub config : ServerConfig
    pub config_valid :
        validate_server_config parsed.server_config server_id server_config_max_age_s
          machine.seconds
        ≡ ok config
    pub transcript : Transcript
    pub transcript_is : add (codes "client_hello") client_hello empty_transcript ≡ ok transcript
    pub core : Bytes
    pub core_is :
        encode_server_hello_core parsed.version parsed.server_nonce parsed.certificate_chain
          parsed.server_config parsed.opaque_ke2
        ≡ ok core
    pub hello_signed :
        X.verify_ecdsa cert parsed.cert_verify_sig
          (build_cv_message C.hash (digest C.hash transcript) core)
        ≡ ok tt

  passed :
      (w : Exc → Exc) (r : Result (Unit {0})) {A : Type 0} (k : Result A) {a : A}
      → (reraise w r >> k) ≡ ok a
      → (r ≡ ok tt) × (k ≡ ok a)
  passed w (ok tt) k h = (refl, h)
  passed w (err e) k h = cc

  -- The checks return the certificate that they passed for.
  pub authenticate-Authentic :
      (machine : Machine Cert) (client_hello : Bytes) (parsed : ParsedServerHello) {cert : Cert}
      → authenticate C X machine client_hello parsed ≡ ok cert
      → Authentic machine client_hello parsed cert
  unfolding authenticate verify_server_config_signature verify_certificate_verify_signature
  authenticate-Authentic machine client_hello parsed {cert} e =
      let (c, p1, e1) =
        >>=-eq-ok
          (verify_certificate_chain X parsed.certificate_chain (codes "localhost") none
            machine.ca_file machine.now)
          _ e in
      let (p2, e2) =
        passed config_signature_invalid
          (X.verify_ecdsa c parsed.server_config_sig (sc_prefix ++ parsed.server_config)) _ e1 in
      let (config, p3, e3) =
        >>=-eq-ok
          (validate_server_config parsed.server_config server_id server_config_max_age_s
            machine.seconds)
          _ e2 in
      let (t, p4, e4) = >>=-eq-ok (add (codes "client_hello") client_hello empty_transcript) _ e3 in
      let (core, p5, e5) =
        >>=-eq-ok
          (encode_server_hello_core parsed.version parsed.server_nonce parsed.certificate_chain
            parsed.server_config parsed.opaque_ke2)
          _ e4 in
      let (p6, e6) =
        passed cert_verify_invalid
          (X.verify_ecdsa c parsed.cert_verify_sig (build_cv_message C.hash (digest C.hash t) core))
          _ e5 in
      subst (Authentic machine client_hello parsed) (ok_inj e6) (record {
        chain_trusted = p1;
        config_signed = p2;
        config = config;
        config_valid = p3;
        transcript = t;
        transcript_is = p4;
        core = core;
        core_is = p5;
        hello_signed = p6;
      })
