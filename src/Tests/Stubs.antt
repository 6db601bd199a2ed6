-- ===== src/Tests/Stubs.antt =====
-- Stand-ins for the cryptographic packages, for the tests of the handshakes.
use vaulttls.Prelude.{from_big_endian, big_endian, length-big_endian, ℕ, refl, none, ◌++◌, take}
use vaulttls.Errors.{Result, ok, err}
use vaulttls.Opaque.Crypto.{Crypto}
use vaulttls.Opaque.Runs.{CryptoLaws}
use vaulttls.Opaque.Server.{OpaqueServer, Draw}
use vaulttls.Kdf.{zeros}

-- Keys are their own points, written out as 65 bytes; every output is zeros.
abbrev pub stub : Crypto ℕ
stub = record {
  hash = record {
    sha512 = λ m. zeros 64;
    hmac_sha512 = λ k m. zeros 64;
    hkdf_expand = λ len info secret. ok (zeros len);
  };
  aead = record { encrypt = λ k n p a. ok (p ++ zeros 16); decrypt = λ k n c a. ok (take 97 c) };
  aes_gcm = record { encrypt = λ k n p a. ok (p ++ zeros 16); decrypt = λ k n c a. ok (take 97 c) };
  hkdf = λ len salt info ikm. ok (zeros len);
  argon2 = none;
  derive_private_key = λ n. ok n;
  public_key = λ n. n;
  public_bytes = λ p. big_endian 65 p;
  from_encoded_point = λ b. ok (from_big_endian b);
  exchange = λ k p. ok (zeros 32);
}

pub stub-CryptoLaws : CryptoLaws stub
stub-CryptoLaws = record { mac_length = λ k m. refl; point_length = λ p. length-big_endian 65 p }

abbrev pub draws : Draw
draws = record {
  s_eph = 5;
  nonce_s = zeros;
  fake_oprf = 1;
  fake_c = 3;
  fake_salt = zeros;
  fake_nonce = zeros;
  fake_ct = zeros;
}

abbrev pub adapter : OpaqueServer
adapter = record { s_priv = 7; pending_oprf_keys = none }

abbrev pub value_or : {A : Type 0} → Result A → A → A
value_or (ok a) b = a
value_or (err e) b = b
