-- ===== src/Session/Entries.antt =====
-- server.py: a registration stores the hex form of a record of byte strings, under its own key.
use vaulttls.Prelude.{
  All-drop, All-take, big_endian-IsBytes, bytes_eq_refl, IsByte, big_endian, All-append_left, All,
  ℕ, ◌≡◌, refl, sym, ap, ◌∙◌, subst, some, [], ◌∷◌, ◌++◌, Bytes, IsBytes, length, take, drop,
}
use vaulttls.Errors.{ok_inj, >>=-eq-ok, ok}
use vaulttls.Opaque.Server
use vaulttls.Dict
use vaulttls.Codec.Messages.{ParsedClientFinish, ParsedClientHello}
use vaulttls.Opaque.Crypto.{Crypto}
use vaulttls.Codec.Decode.{decode_client_finish, decode_client_hello}
use vaulttls.Session.Hello.{opaque_of, ServerSession}
use vaulttls.Codec.Exact.{decode_client_finish_iff, decode_client_hello_iff}
use vaulttls.Opaque.Server.{OpaqueServer}
use vaulttls.Storage.{OpaqueRecord, UsersDb, store_opaque_record}
use vaulttls.Codec.Wire.{
  client_finish, client_hello, encode_client_finish_iff, encode_client_hello_iff,
}
use vaulttls.Python.Hex.{hex}
use vaulttls.Session.Sound.{IsEntry}
use vaulttls.Opaque.Oprf.{oprf_evaluate}
use vaulttls.Python.{to_bytes-eq_ok, to_bytes}
use vaulttls.Dict.Every.{All-put}
use vaulttls.Dict.{text_eq}
use vaulttls.Storage.Laws.{hexed}

All-append_right : (xs ys : Bytes) → IsBytes (xs ++ ys) → IsBytes ys
All-append_right [] ys h = h
All-append_right (x ∷ xs) ys (p, h) = All-append_right xs ys h

-- The fields that a registration takes from the two messages of the client.
pub credential_id-IsBytes :
    (raw : Bytes) (ch : ParsedClientHello)
    → IsBytes raw
    → decode_client_hello raw ≡ ok ch
    → IsBytes ch.credential_id
credential_id-IsBytes raw ch h e =
    let (w, t, written, s) = (decode_client_hello_iff raw ch h).0 e in
    let (f, q) = (encode_client_hello_iff ch w).0 written in
    let whole : IsBytes (client_hello ch) =
      All-append_left IsByte (client_hello ch) t (subst IsBytes (s ∙ ap (λ v. v ++ t) q) h) in
    All-append_left IsByte ch.credential_id _ whole.1.1

pub opaque_ke3-IsBytes :
    (raw : Bytes) (cf : ParsedClientFinish)
    → IsBytes raw
    → decode_client_finish raw ≡ ok cf
    → IsBytes cf.opaque_ke3
opaque_ke3-IsBytes raw cf h e =
    let (w, t, written, s) = (decode_client_finish_iff raw cf h).0 e in
    let (f, q) = (encode_client_finish_iff cf.opaque_ke3 w).0 written in
    let whole : IsBytes (client_finish cf.opaque_ke3) =
      All-append_left IsByte (client_finish cf.opaque_ke3) t
        (subst IsBytes (s ∙ ap (λ v. v ++ t) q) h) in
    All-append_right (big_endian 2 (length cf.opaque_ke3)) cf.opaque_ke3 whole.1

module _ {P Cert : Type 0} (C : Crypto P) (self : ServerSession Cert) where
  -- The key that the session has for the credential when it stores the record.
  registration_respond_pending :
      (k : ℕ) (credential_id ke1 : Bytes) {response : Bytes × OpaqueServer}
      → Server.registration_respond C k (opaque_of self) credential_id ke1 ≡ ok response
      → response.1.pending_oprf_keys ≡ some ((hex credential_id, big_endian 32 k) ∷ [])
  unfolding Server.registration_respond Dict.put
  registration_respond_pending k credential_id ke1 {response} e =
      let (z, p, f) = >>=-eq-ok (oprf_evaluate C k ke1) _ e in
      let (key, q, g) = >>=-eq-ok (to_bytes 32 k) _ f in
      ap (λ (r : Bytes × OpaqueServer). r.1.pending_oprf_keys) (sym (ok_inj g))
      ∙ ap (λ b. some ((hex credential_id, b) ∷ [])) (to_bytes-eq_ok 32 k q).1

  pub registration_store-IsEntry :
      (k : ℕ) (credential_id ke1 upload : Bytes) {response : Bytes × OpaqueServer} (users : UsersDb)
      {users' : UsersDb}
      → Server.registration_respond C k (opaque_of self) credential_id ke1 ≡ ok response
      → Server.registration_store response.1 credential_id upload users ≡ ok users'
      → IsBytes credential_id
      → IsBytes upload
      → All IsEntry users
      → All IsEntry users'
  unfolding Server.registration_store store_opaque_record vaulttls.Storage.set Dict.get
  registration_store-IsEntry k credential_id ke1 upload {response} users e s h u good =
      let user : OpaqueRecord = record {
        oprf_key = big_endian 32 k;
        client_pub = take 65 upload;
        envelope = drop 65 upload;
        credential_id = credential_id;
      } in
      let pending = registration_respond_pending k credential_id ke1 e in
      subst (All IsEntry)
        (ok_inj (
          rw (bytes_eq_refl (hex credential_id), Server.registration_store, Dict.get) at
            (rw pending at s)))
        (All-put text_eq IsEntry (hex credential_id) (hexed user) users
          (record {
            user = user;
            is_record = record {
              oprf_key_bytes = big_endian-IsBytes 32 k;
              client_pub_bytes = All-take IsByte 65 upload u;
              envelope_bytes = All-drop IsByte 65 upload u;
              credential_id_bytes = h;
            };
            key_is = refl;
            raw_is = refl;
          })
          good)
