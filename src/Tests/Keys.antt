-- ===== src/Tests/Keys.antt =====
-- The key schedule and the record layer with small stand-ins for the cryptographic package:
-- tls13_kdf.py, record.py.
use vaulttls.Prelude.{
  big_endian, take-append, length-append, ℕ, zero, suc, ◌+◌, ◌-◌, ◌≡◌, refl, ap, subst, inl, inr,
  List, [], ◌∷◌, ◌++◌, arith, Bytes, length, take,
}
use vaulttls.Errors.{ok_inj, Result, ok}
use vaulttls.Kdf.{
  empty_transcript, add, Transcript, hkdf_label, derive_traffic_secrets, TrafficSecrets, zeros,
  HashSuite,
}
use vaulttls.Kdf.Schedule.{derive_traffic_secrets_total, HashLaws}
use vaulttls.Kdf.Labels.{hkdf_label-injective}
use vaulttls.Python.Text.{codes, encode, Text}
use vaulttls.Kdf.Binding.{digest-injective, add_all}
use vaulttls.Record.{xor_bytes, aad, decrypt, encrypt, nonce, DirectionState, Aead}
use vaulttls.Record.Channel.{
  decrypt_all_prefix, decrypt_all-encrypt_all, decrypt_all, encrypt_all, AeadLaws,
}
use vaulttls.Record.Nonce.{nonce-injective}
use vaulttls.Python.{one_byte, to_bytes, struct_pack}

-- A suite that meets the laws of lengths.
abbrev plain : HashSuite
plain = record {
  sha512 = λ m. zeros 64;
  hmac_sha512 = λ k m. zeros 64;
  hkdf_expand = λ len info secret. ok (zeros len);
}

pub length-zeros : (n : ℕ) → length (zeros n) ≡ n
length-zeros zero = refl
length-zeros (suc n) = ap suc (length-zeros n)

plain-HashLaws : HashLaws plain
plain-HashLaws = record {
  hash_length = λ m. refl;
  expands = λ len info secret h. (zeros len, refl, length-zeros len);
}

-- A suite that shows its info.
abbrev echo : HashSuite
echo = record { sha512 = λ m. m; hmac_sha512 = λ k m. m; hkdf_expand = λ len info secret. ok info }

derive_traffic_secrets_total_example :
    (s : TrafficSecrets) × (derive_traffic_secrets plain (5 ∷ []) (zeros 64) ≡ ok s)
    × (length s.client_hs ≡ 64)
    × (length s.server_hs ≡ 64)
    × (length s.client_app ≡ 64)
    × (length s.server_app ≡ 64)
    × (length s.exporter ≡ 64)
derive_traffic_secrets_total_example =
    derive_traffic_secrets_total plain plain-HashLaws (5 ∷ []) (zeros 64) (omega arith)

abbrev key_label : Bytes
key_label = 0 ∷ 32 ∷ 7 ∷ 116 ∷ 108 ∷ 115 ∷ 49 ∷ 51 ∷ 32 ∷ 107 ∷ 0 ∷ []

key_label_made : hkdf_label (107 ∷ []) [] 32 ≡ ok key_label
unfolding hkdf_label struct_pack one_byte codes big_endian
key_label_made = refl

hkdf_label-injective_example :
    ◌≡◌ {A = Bytes} (107 ∷ []) (107 ∷ []) × ◌≡◌ {A = Bytes} [] [] × ◌≡◌ {A = ℕ} 32 32
hkdf_label-injective_example =
    hkdf_label-injective (107 ∷ []) (107 ∷ []) [] [] 32 32 key_label_made key_label_made

abbrev messages : List (Text × Bytes)
messages = (97 ∷ [], 1 ∷ 2 ∷ []) ∷ (98 ∷ [], []) ∷ []

abbrev transcript : Transcript
transcript = record {
  parts =
      (0 ∷ 1 ∷ 97 ∷ [])
      ∷ (0 ∷ 0 ∷ 0 ∷ 2 ∷ 1 ∷ 2 ∷ [])
      ∷ (0 ∷ 1 ∷ 98 ∷ [])
      ∷ (0 ∷ 0 ∷ 0 ∷ 0 ∷ [])
      ∷ [];
}

transcript_made : add_all messages empty_transcript ≡ ok transcript
unfolding add_all add encode struct_pack big_endian
transcript_made = refl

digest-injective_example : ◌≡◌ {A = List (Text × Bytes)} messages messages
digest-injective_example =
    digest-injective echo messages messages (λ p. p) (omega arith) (omega arith) transcript_made
      transcript_made refl

-- An AEAD that appends 16 zeros, and takes 16 bytes off.
abbrev pub padded : Aead
padded = record {
  encrypt = λ key nonce plaintext aad. ok (plaintext ++ zeros 16);
  decrypt = λ key nonce ciphertext aad. ok (take (length ciphertext - 16) ciphertext);
}

unpad : (m : Bytes) → take (length (m ++ zeros 16) - 16) (m ++ zeros 16) ≡ m
unpad m =
    let e : length (m ++ zeros 16) - 16 ≡ length m = omega (arith, length-append m (zeros 16)) in
    rw e (take-append m (zeros 16))

pub padded-AeadLaws : AeadLaws padded
padded-AeadLaws = record {
  opens = λ key nonce plaintext aad ciphertext e.
      subst
        (λ c.
          (◌≡◌ {A = Result Bytes} (ok (take (length c - 16) c)) (ok plaintext))
          × (length c ≡ length plaintext + 16))
        (ok_inj e) (ap ok (unpad plaintext), length-append plaintext (zeros 16));
}

abbrev pub direction : DirectionState
direction = record { key = zeros 32; iv = zeros 12; seq = 0 }

abbrev sent : List (ℕ × Bytes)
sent = (0, 5 ∷ zeros 16) ∷ (1, 6 ∷ 7 ∷ zeros 16) ∷ []

records_made : encrypt_all padded 23 ((5 ∷ []) ∷ (6 ∷ 7 ∷ []) ∷ []) direction ≡ ok sent
unfolding encrypt_all encrypt aad nonce one_byte to_bytes
records_made = refl

decrypt_all-encrypt_all_example :
    decrypt_all padded 23 sent direction ≡ (5 ∷ []) ∷ (6 ∷ 7 ∷ []) ∷ []
decrypt_all-encrypt_all_example =
    decrypt_all-encrypt_all padded padded-AeadLaws 23 ((5 ∷ []) ∷ (6 ∷ 7 ∷ []) ∷ []) direction
      records_made

-- The second record first, then the first one twice.
abbrev disordered : List (ℕ × Bytes)
disordered = (1, 6 ∷ 7 ∷ zeros 16) ∷ (0, 5 ∷ zeros 16) ∷ (0, 5 ∷ zeros 16) ∷ []

only_first : decrypt_all padded 23 disordered direction ≡ (5 ∷ []) ∷ []
unfolding decrypt_all decrypt aad nonce one_byte to_bytes
only_first = refl

decrypt_all_prefix_example :
    (lost : List Bytes) × ((5 ∷ []) ∷ (6 ∷ 7 ∷ []) ∷ []
      ≡ decrypt_all padded 23 disordered direction ++ lost)
decrypt_all_prefix_example =
    decrypt_all_prefix padded padded-AeadLaws 23 disordered ((5 ∷ []) ∷ (6 ∷ 7 ∷ []) ∷ []) direction
      records_made (inr (inr (inl refl)), (inr (inl refl), (inr (inl refl), tt)))

nonce_made : nonce direction 258 ≡ ok (0 ∷ 0 ∷ 0 ∷ 0 ∷ 0 ∷ 0 ∷ 0 ∷ 0 ∷ 0 ∷ 0 ∷ 1 ∷ 2 ∷ [])
unfolding nonce to_bytes xor_bytes big_endian
nonce_made = refl

nonce-injective_example : ◌≡◌ {A = ℕ} 258 258
nonce-injective_example = nonce-injective direction 258 258 (omega arith) refl nonce_made nonce_made
