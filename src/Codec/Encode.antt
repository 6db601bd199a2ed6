-- ===== src/Codec/Encode.antt =====
-- codec.py: the packing helpers and the encoders of the six messages.
use vaulttls.Prelude.{ℕ, [], ◌∷◌, ◌++◌, length, Bytes, ◌==◌}
use vaulttls.Errors.{Result, ok, assertion, guard, ◌>>=◌, ◌>>◌}
use vaulttls.Python.{one_byte, struct_pack, to_bytes}
use vaulttls.Python.Text.{Text, encode}
use vaulttls.Codec.Messages.{
  tag_client_hello, tag_server_hello, tag_client_finish, tag_app_data, tag_alert, tag_close,
  hash_len, nonce_len,
}

-- `_p16` and `_p24`
unfoldable pub p16 : Bytes → Result Bytes
p16 d = do n ← struct_pack 2 (length d); ok (n ++ d)

unfoldable pub p24 : Bytes → Result Bytes
p24 d = do n ← to_bytes 3 (length d); ok (n ++ d)

unfoldable pub encode_client_hello : ℕ → Bytes → Bytes → Bytes → Result Bytes
encode_client_hello version credential_id client_nonce opaque_ke1 = do
  guard (length credential_id == hash_len) (assertion "credential_id must be 64B")
  guard (length client_nonce == nonce_len) (assertion "client_nonce must be 32B")
  v ← one_byte version
  ke1 ← p16 opaque_ke1
  ok (tag_client_hello ∷ v ++ (credential_id ++ (client_nonce ++ ke1)))

unfoldable pub encode_server_hello_core : ℕ → Bytes → Bytes → Bytes → Bytes → Result Bytes
encode_server_hello_core version server_nonce certificate server_config opaque_ke2 = do
  guard (length server_nonce == nonce_len) (assertion "")
  v ← one_byte version
  ke2 ← p16 opaque_ke2
  cert ← p24 certificate
  cfg ← p16 server_config
  ok (v ++ (server_nonce ++ (ke2 ++ (cert ++ cfg))))

unfoldable pub encode_server_hello : Bytes → Bytes → Bytes → Result Bytes
encode_server_hello core server_config_sig cert_verify_sig = do
  csig ← p16 server_config_sig
  cvsig ← p16 cert_verify_sig
  ok (tag_server_hello ∷ core ++ (csig ++ cvsig))

unfoldable pub encode_client_finish : Bytes → Result Bytes
encode_client_finish opaque_ke3 = do ke3 ← p16 opaque_ke3; ok (tag_client_finish ∷ ke3)

unfoldable pub encode_app_data : ℕ → Bytes → Result Bytes
encode_app_data seq ciphertext = do
  s ← struct_pack 8 seq
  n ← struct_pack 4 (length ciphertext)
  ok (tag_app_data ∷ s ++ (n ++ ciphertext))

unfoldable pub encode_alert : ℕ → Text → Result Bytes
encode_alert level message = do
  l ← one_byte level
  m ← encode message
  text ← p16 m
  ok (tag_alert ∷ l ++ text)

abbrev pub encode_close : Bytes
encode_close = tag_close ∷ []
