-- ===== src/Tests/Handshake.antt =====
-- A whole login, client against server, with stand-ins for the packages: client.py, server.py.
use vaulttls.Opaque.Client
use vaulttls.Opaque.Server
use vaulttls.Framing
use vaulttls.Prelude.{
  from_big_endian, big_endian, ℕ, zero, suc, ◌+◌, ◌-◌, ◌*◌, ◌/◌, ◌%◌, ◌^◌, ◌≤◌, ◌<◌, ◌≡◌, refl, sym,
  ap, ◌∙◌, subst, ◌≢◌, ◌↔◌, ◌⊎◌, inl, inr, Bool, true, false, ◌&&◌, ◌||◌, Option, none, some, List,
  [], ◌∷◌, ◌++◌, arith, ltb, leb, ◌==◌, if◌then◌else◌, Bytes, IsBytes, length, take, drop,
}
use vaulttls.Errors.{Result, ok}
use vaulttls.Pki.{X509}
use vaulttls.Session.Hello.{opaque_of, ServerSession}
use vaulttls.Login.{client_login, Handshake, ClientDraw, Machine}
use vaulttls.Session.State.{World, Outside}
use vaulttls.Python.Text.{encode, codes, Text}
use vaulttls.Storage.{record_exists, OpaqueRecord}
use vaulttls.Opaque.Client.{LoginState}
use vaulttls.Codec.Messages.{ParsedServerHello, ParsedClientHello}
use vaulttls.Framing.{chunk, Segment}
use vaulttls.Session.Handshake.{login_handshake}
use vaulttls.Kdf.{add, zeros}
use vaulttls.RateLimit.{allow, limiter}
use vaulttls.Storage.Laws.{stored}
use vaulttls.Tests.Stubs.{stub-CryptoLaws, stub, value_or, draws}
use vaulttls.Codec.Encode.{p16, encode_client_hello}
use vaulttls.Codec.Decode.{decode_server_hello, decode_client_finish, decode_client_hello}
use vaulttls.Python.{one_byte, first, to_bytes, struct_pack}
use vaulttls.Opaque.Curve.{p256_scalar_mult}
use vaulttls.Record.{direction_state, DirectionState}
use vaulttls.Framing.Exact.{IsOpen, total}
use vaulttls.Agreement.{LoginCollides, secure_channel}
use vaulttls.Opaque.Server.{ServerState}
use vaulttls.Opaque.Keys.{client_mac_of}
use vaulttls.Session.Safety.{login_handshake_safe}
use vaulttls.Login.Authentic.{Authentic}
use vaulttls.Login.Runs.{client_login-Authentic}

-- A certificate is its bytes: issued by one name, valid from 0 to 10, and named "localhost".
abbrev pub local_certs : X509 Bytes
local_certs = record {
  load_der = λ b. ok b;
  der = λ c. c;
  verify_signature = λ issuer cert. ok tt;
  issuer = λ c. [];
  subject = λ c. [];
  not_before = λ c. 0;
  not_after = λ c. 10;
  basic_constraints = λ c. ok (some false);
  dns_names = λ c. ok none;
  common_names = λ c. codes "localhost" ∷ [];
  public_key_bytes = λ c. big_endian 65 7;
  verify_ecdsa = λ c s m. ok tt;
}

abbrev pub session : ServerSession Bytes
session = record {
  ip = codes "::1";
  s_priv = 7;
  sign = λ m. ok (1 ∷ []);
  server_cert = 2 ∷ [];
  ca_cert = 1 ∷ [];
}

abbrev pub machine : Machine Bytes
machine = record { ca_file = ok (1 ∷ []); now = 5; seconds = 1000 }

abbrev pub drawn : ClientDraw
drawn = record { r = 1; c_eph = 9; nonce_c = zeros 32 }

abbrev pub outside : Outside
outside = record {
  server_nonce = zeros 32;
  oprf_key = 1;
  draw = draws;
  monotonic = 3;
  seconds = 1001;
}

abbrev carol : Text
carol = codes "carol"

abbrev registered : OpaqueRecord
registered = record {
  oprf_key = 1 ∷ [];
  client_pub = zeros 65;
  envelope = 1 ∷ zeros 141;
  credential_id = zeros 64;
}

start : Bytes × LoginState
start =
    value_or (Client.login_start stub 1 9 (zeros 32) carol) (
      [],
      record { blind = 0; password = []; c_eph_priv = []; c_eph_pub = []; nonce_c = []; m = [] },
    )

raw_hello : Bytes
raw_hello = value_or (encode_client_hello 1 (zeros 64) (zeros 32) start.0) []

first_frame : Bytes
first_frame = value_or (Framing.send_frame raw_hello) []

parsed_hello : ParsedClientHello
parsed_hello =
    value_or (decode_client_hello raw_hello)
      (record { version = 0; credential_id = []; client_nonce = []; opaque_ke1 = [] })

world : List Segment → World
world incoming = record {
  incoming = incoming;
  sent = [];
  fault = λ before frame. none;
  closed = false;
  limiter = limiter 60 10;
  users = stored registered [];
}

-- What the server sends while it waits for the client.
server_hello_sent : Bytes
server_hello_sent =
    (login_handshake stub local_certs (λ e. []) session outside parsed_hello raw_hello
      (world [])).1.sent

abbrev to_client : List Segment
to_client = chunk server_hello_sent ∷ []

no_handshake : Handshake
no_handshake = record {
  sent = [];
  export_key = [];
  later = [];
  secrets = record {
    client_hs = [];
    server_hs = [];
    client_app = [];
    server_app = [];
    exporter = [];
  };
}

logged_in : Handshake
logged_in =
    value_or (client_login stub local_certs machine drawn carol carol to_client) no_handshake

logged_in_lem : client_login stub local_certs machine drawn carol carol to_client ≡ ok logged_in
unfolding client_login encode struct_pack to_bytes from_big_endian p256_scalar_mult first big_endian
    encode_client_hello one_byte p16 add Framing.send_frame Framing.recv_frame Framing.recv_exactly
    server_hello_sent login_handshake logged_in no_handshake start raw_hello first_frame
    parsed_hello world vaulttls.RateLimit.allow vaulttls.Dict.get Server.login_start
    vaulttls.Storage.store_opaque_record vaulttls.Dict.put vaulttls.Prelude.bytes_eq
    vaulttls.Python.Hex.hex decode_client_hello vaulttls.Codec.Decode.run
    vaulttls.Codec.Decode.read_client_hello vaulttls.Codec.Reader.u8 vaulttls.Codec.Reader.read
    vaulttls.Codec.Reader.lift vaulttls.Codec.Reader.check vaulttls.Codec.Reader.v16
    vaulttls.Codec.Reader.u16 vaulttls.Codec.Reader.pure vaulttls.Storage.decode_record
    vaulttls.Python.Hex.fromhex vaulttls.Session.Hello.build_signed_server_hello
    vaulttls.ServerConfig.encode_server_config vaulttls.Pki.sign_server_config
    vaulttls.Pki.encode_cert_chain vaulttls.Codec.Encode.encode_server_hello_core
    vaulttls.Codec.Encode.p24 vaulttls.Pki.sign_cert_verify
    vaulttls.Codec.Encode.encode_server_hello vaulttls.Codec.Decode.decode_server_hello
    vaulttls.Codec.Decode.read_server_hello vaulttls.Codec.Reader.v24 vaulttls.Codec.Reader.u24
    vaulttls.Pki.verify_certificate_chain vaulttls.Pki.verify_server_config_signature
    vaulttls.ServerConfig.validate_server_config vaulttls.ServerConfig.decode_server_config
    vaulttls.Python.item vaulttls.Python.unpack_from
    vaulttls.Pki.verify_certificate_verify_signature vaulttls.Codec.Encode.encode_client_finish
    vaulttls.Kdf.derive_traffic_secrets vaulttls.Kdf.derive_secret vaulttls.Kdf.hkdf_expand_label
    vaulttls.Kdf.hkdf_label
logged_in_lem = refl

to_server : List Segment
to_server = chunk (drop (length first_frame) logged_in.sent) ∷ []

no_direction : DirectionState
no_direction = record { key = []; iv = []; seq = 0 }

served : Result (Option (DirectionState × DirectionState)) × World
served =
    login_handshake stub local_certs (λ e. []) session outside parsed_hello raw_hello
      (world to_server)

directions : DirectionState × DirectionState
directions = elim (value_or served.0 none) [
  | some both ↦ both
  | none ↦ (no_direction, no_direction)
]

first_frame_lem : Framing.send_frame raw_hello ≡ ok first_frame
unfolding client_login encode struct_pack to_bytes from_big_endian p256_scalar_mult first big_endian
    encode_client_hello one_byte p16 add Framing.send_frame Framing.recv_frame Framing.recv_exactly
    server_hello_sent login_handshake logged_in no_handshake start raw_hello first_frame
    parsed_hello world vaulttls.RateLimit.allow vaulttls.Dict.get Server.login_start
    vaulttls.Storage.store_opaque_record vaulttls.Dict.put vaulttls.Prelude.bytes_eq
    vaulttls.Python.Hex.hex decode_client_hello vaulttls.Codec.Decode.run
    vaulttls.Codec.Decode.read_client_hello vaulttls.Codec.Reader.u8 vaulttls.Codec.Reader.read
    vaulttls.Codec.Reader.lift vaulttls.Codec.Reader.check vaulttls.Codec.Reader.v16
    vaulttls.Codec.Reader.u16 vaulttls.Codec.Reader.pure vaulttls.Storage.decode_record
    vaulttls.Python.Hex.fromhex vaulttls.Session.Hello.build_signed_server_hello
    vaulttls.ServerConfig.encode_server_config vaulttls.Pki.sign_server_config
    vaulttls.Pki.encode_cert_chain vaulttls.Codec.Encode.encode_server_hello_core
    vaulttls.Codec.Encode.p24 vaulttls.Pki.sign_cert_verify
    vaulttls.Codec.Encode.encode_server_hello vaulttls.Codec.Decode.decode_server_hello
    vaulttls.Codec.Decode.read_server_hello vaulttls.Codec.Reader.v24 vaulttls.Codec.Reader.u24
    vaulttls.Pki.verify_certificate_chain vaulttls.Pki.verify_server_config_signature
    vaulttls.ServerConfig.validate_server_config vaulttls.ServerConfig.decode_server_config
    vaulttls.Python.item vaulttls.Python.unpack_from
    vaulttls.Pki.verify_certificate_verify_signature vaulttls.Codec.Encode.encode_client_finish
    vaulttls.Kdf.derive_traffic_secrets vaulttls.Kdf.derive_secret vaulttls.Kdf.hkdf_expand_label
    vaulttls.Kdf.hkdf_label
first_frame_lem = refl

decoded_lem : decode_client_hello raw_hello ≡ ok parsed_hello
unfolding client_login encode struct_pack to_bytes from_big_endian p256_scalar_mult first big_endian
    encode_client_hello one_byte p16 add Framing.send_frame Framing.recv_frame Framing.recv_exactly
    server_hello_sent login_handshake logged_in no_handshake start raw_hello first_frame
    parsed_hello world vaulttls.RateLimit.allow vaulttls.Dict.get Server.login_start
    vaulttls.Storage.store_opaque_record vaulttls.Dict.put vaulttls.Prelude.bytes_eq
    vaulttls.Python.Hex.hex decode_client_hello vaulttls.Codec.Decode.run
    vaulttls.Codec.Decode.read_client_hello vaulttls.Codec.Reader.u8 vaulttls.Codec.Reader.read
    vaulttls.Codec.Reader.lift vaulttls.Codec.Reader.check vaulttls.Codec.Reader.v16
    vaulttls.Codec.Reader.u16 vaulttls.Codec.Reader.pure vaulttls.Storage.decode_record
    vaulttls.Python.Hex.fromhex vaulttls.Session.Hello.build_signed_server_hello
    vaulttls.ServerConfig.encode_server_config vaulttls.Pki.sign_server_config
    vaulttls.Pki.encode_cert_chain vaulttls.Codec.Encode.encode_server_hello_core
    vaulttls.Codec.Encode.p24 vaulttls.Pki.sign_cert_verify
    vaulttls.Codec.Encode.encode_server_hello vaulttls.Codec.Decode.decode_server_hello
    vaulttls.Codec.Decode.read_server_hello vaulttls.Codec.Reader.v24 vaulttls.Codec.Reader.u24
    vaulttls.Pki.verify_certificate_chain vaulttls.Pki.verify_server_config_signature
    vaulttls.ServerConfig.validate_server_config vaulttls.ServerConfig.decode_server_config
    vaulttls.Python.item vaulttls.Python.unpack_from
    vaulttls.Pki.verify_certificate_verify_signature vaulttls.Codec.Encode.encode_client_finish
    vaulttls.Kdf.derive_traffic_secrets vaulttls.Kdf.derive_secret vaulttls.Kdf.hkdf_expand_label
    vaulttls.Kdf.hkdf_label
decoded_lem = refl

served_lem :
    login_handshake stub local_certs
      (λ e. [])
      session
      outside
      parsed_hello
      raw_hello
      (world to_server)
    ≡ (ok (some (directions.0, directions.1)), served.1)
unfolding served directions no_direction to_server client_login encode struct_pack to_bytes
    from_big_endian p256_scalar_mult first big_endian encode_client_hello one_byte p16 add
    Framing.send_frame Framing.recv_frame Framing.recv_exactly server_hello_sent login_handshake
    logged_in no_handshake start raw_hello first_frame parsed_hello world vaulttls.RateLimit.allow
    vaulttls.Dict.get Server.login_start vaulttls.Storage.store_opaque_record vaulttls.Dict.put
    vaulttls.Prelude.bytes_eq vaulttls.Python.Hex.hex decode_client_hello vaulttls.Codec.Decode.run
    vaulttls.Codec.Decode.read_client_hello vaulttls.Codec.Reader.u8 vaulttls.Codec.Reader.read
    vaulttls.Codec.Reader.lift vaulttls.Codec.Reader.check vaulttls.Codec.Reader.v16
    vaulttls.Codec.Reader.u16 vaulttls.Codec.Reader.pure vaulttls.Storage.decode_record
    vaulttls.Python.Hex.fromhex vaulttls.Session.Hello.build_signed_server_hello
    vaulttls.ServerConfig.encode_server_config vaulttls.Pki.sign_server_config
    vaulttls.Pki.encode_cert_chain vaulttls.Codec.Encode.encode_server_hello_core
    vaulttls.Codec.Encode.p24 vaulttls.Pki.sign_cert_verify
    vaulttls.Codec.Encode.encode_server_hello vaulttls.Codec.Decode.decode_server_hello
    vaulttls.Codec.Decode.read_server_hello vaulttls.Codec.Reader.v24 vaulttls.Codec.Reader.u24
    vaulttls.Pki.verify_certificate_chain vaulttls.Pki.verify_server_config_signature
    vaulttls.ServerConfig.validate_server_config vaulttls.ServerConfig.decode_server_config
    vaulttls.Python.item vaulttls.Python.unpack_from
    vaulttls.Pki.verify_certificate_verify_signature vaulttls.Codec.Encode.encode_client_finish
    vaulttls.Kdf.derive_traffic_secrets vaulttls.Kdf.derive_secret vaulttls.Kdf.hkdf_expand_label
    vaulttls.Kdf.hkdf_label decode_client_finish vaulttls.Codec.Decode.read_client_finish
    Server.login_finish direction_state
served_lem = refl

server_got : logged_in.sent ≡ first_frame ++ total (world to_server).incoming
unfolding to_server client_login encode struct_pack to_bytes from_big_endian p256_scalar_mult first
    big_endian encode_client_hello one_byte p16 add Framing.send_frame Framing.recv_frame
    Framing.recv_exactly server_hello_sent login_handshake logged_in no_handshake start raw_hello
    first_frame parsed_hello world vaulttls.RateLimit.allow vaulttls.Dict.get Server.login_start
    vaulttls.Storage.store_opaque_record vaulttls.Dict.put vaulttls.Prelude.bytes_eq
    vaulttls.Python.Hex.hex decode_client_hello vaulttls.Codec.Decode.run
    vaulttls.Codec.Decode.read_client_hello vaulttls.Codec.Reader.u8 vaulttls.Codec.Reader.read
    vaulttls.Codec.Reader.lift vaulttls.Codec.Reader.check vaulttls.Codec.Reader.v16
    vaulttls.Codec.Reader.u16 vaulttls.Codec.Reader.pure vaulttls.Storage.decode_record
    vaulttls.Python.Hex.fromhex vaulttls.Session.Hello.build_signed_server_hello
    vaulttls.ServerConfig.encode_server_config vaulttls.Pki.sign_server_config
    vaulttls.Pki.encode_cert_chain vaulttls.Codec.Encode.encode_server_hello_core
    vaulttls.Codec.Encode.p24 vaulttls.Pki.sign_cert_verify
    vaulttls.Codec.Encode.encode_server_hello vaulttls.Codec.Decode.decode_server_hello
    vaulttls.Codec.Decode.read_server_hello vaulttls.Codec.Reader.v24 vaulttls.Codec.Reader.u24
    vaulttls.Pki.verify_certificate_chain vaulttls.Pki.verify_server_config_signature
    vaulttls.ServerConfig.validate_server_config vaulttls.ServerConfig.decode_server_config
    vaulttls.Python.item vaulttls.Python.unpack_from
    vaulttls.Pki.verify_certificate_verify_signature vaulttls.Codec.Encode.encode_client_finish
    vaulttls.Kdf.derive_traffic_secrets vaulttls.Kdf.derive_secret vaulttls.Kdf.hkdf_expand_label
    vaulttls.Kdf.hkdf_label
server_got = refl

client_got : served.1.sent ≡ (world to_server).sent ++ total to_client
unfolding served to_server client_login encode struct_pack to_bytes from_big_endian p256_scalar_mult
    first big_endian encode_client_hello one_byte p16 add Framing.send_frame Framing.recv_frame
    Framing.recv_exactly server_hello_sent login_handshake logged_in no_handshake start raw_hello
    first_frame parsed_hello world vaulttls.RateLimit.allow vaulttls.Dict.get Server.login_start
    vaulttls.Storage.store_opaque_record vaulttls.Dict.put vaulttls.Prelude.bytes_eq
    vaulttls.Python.Hex.hex decode_client_hello vaulttls.Codec.Decode.run
    vaulttls.Codec.Decode.read_client_hello vaulttls.Codec.Reader.u8 vaulttls.Codec.Reader.read
    vaulttls.Codec.Reader.lift vaulttls.Codec.Reader.check vaulttls.Codec.Reader.v16
    vaulttls.Codec.Reader.u16 vaulttls.Codec.Reader.pure vaulttls.Storage.decode_record
    vaulttls.Python.Hex.fromhex vaulttls.Session.Hello.build_signed_server_hello
    vaulttls.ServerConfig.encode_server_config vaulttls.Pki.sign_server_config
    vaulttls.Pki.encode_cert_chain vaulttls.Codec.Encode.encode_server_hello_core
    vaulttls.Codec.Encode.p24 vaulttls.Pki.sign_cert_verify
    vaulttls.Codec.Encode.encode_server_hello vaulttls.Codec.Decode.decode_server_hello
    vaulttls.Codec.Decode.read_server_hello vaulttls.Codec.Reader.v24 vaulttls.Codec.Reader.u24
    vaulttls.Pki.verify_certificate_chain vaulttls.Pki.verify_server_config_signature
    vaulttls.ServerConfig.validate_server_config vaulttls.ServerConfig.decode_server_config
    vaulttls.Python.item vaulttls.Python.unpack_from
    vaulttls.Pki.verify_certificate_verify_signature vaulttls.Codec.Encode.encode_client_finish
    vaulttls.Kdf.derive_traffic_secrets vaulttls.Kdf.derive_secret vaulttls.Kdf.hkdf_expand_label
    vaulttls.Kdf.hkdf_label decode_client_finish vaulttls.Codec.Decode.read_client_finish
    Server.login_finish direction_state
client_got = refl

client-IsOpen : IsOpen to_client
unfolding client_login encode struct_pack to_bytes from_big_endian p256_scalar_mult first big_endian
    encode_client_hello one_byte p16 add Framing.send_frame Framing.recv_frame Framing.recv_exactly
    server_hello_sent login_handshake logged_in no_handshake start raw_hello first_frame
    parsed_hello world vaulttls.RateLimit.allow vaulttls.Dict.get Server.login_start
    vaulttls.Storage.store_opaque_record vaulttls.Dict.put vaulttls.Prelude.bytes_eq
    vaulttls.Python.Hex.hex decode_client_hello vaulttls.Codec.Decode.run
    vaulttls.Codec.Decode.read_client_hello vaulttls.Codec.Reader.u8 vaulttls.Codec.Reader.read
    vaulttls.Codec.Reader.lift vaulttls.Codec.Reader.check vaulttls.Codec.Reader.v16
    vaulttls.Codec.Reader.u16 vaulttls.Codec.Reader.pure vaulttls.Storage.decode_record
    vaulttls.Python.Hex.fromhex vaulttls.Session.Hello.build_signed_server_hello
    vaulttls.ServerConfig.encode_server_config vaulttls.Pki.sign_server_config
    vaulttls.Pki.encode_cert_chain vaulttls.Codec.Encode.encode_server_hello_core
    vaulttls.Codec.Encode.p24 vaulttls.Pki.sign_cert_verify
    vaulttls.Codec.Encode.encode_server_hello vaulttls.Codec.Decode.decode_server_hello
    vaulttls.Codec.Decode.read_server_hello vaulttls.Codec.Reader.v24 vaulttls.Codec.Reader.u24
    vaulttls.Pki.verify_certificate_chain vaulttls.Pki.verify_server_config_signature
    vaulttls.ServerConfig.validate_server_config vaulttls.ServerConfig.decode_server_config
    vaulttls.Python.item vaulttls.Python.unpack_from
    vaulttls.Pki.verify_certificate_verify_signature vaulttls.Codec.Encode.encode_client_finish
    vaulttls.Kdf.derive_traffic_secrets vaulttls.Kdf.derive_secret vaulttls.Kdf.hkdf_expand_label
    vaulttls.Kdf.hkdf_label
client-IsOpen = tt

server-IsOpen : IsOpen (world to_server).incoming
unfolding to_server client_login encode struct_pack to_bytes from_big_endian p256_scalar_mult first
    big_endian encode_client_hello one_byte p16 add Framing.send_frame Framing.recv_frame
    Framing.recv_exactly server_hello_sent login_handshake logged_in no_handshake start raw_hello
    first_frame parsed_hello world vaulttls.RateLimit.allow vaulttls.Dict.get Server.login_start
    vaulttls.Storage.store_opaque_record vaulttls.Dict.put vaulttls.Prelude.bytes_eq
    vaulttls.Python.Hex.hex decode_client_hello vaulttls.Codec.Decode.run
    vaulttls.Codec.Decode.read_client_hello vaulttls.Codec.Reader.u8 vaulttls.Codec.Reader.read
    vaulttls.Codec.Reader.lift vaulttls.Codec.Reader.check vaulttls.Codec.Reader.v16
    vaulttls.Codec.Reader.u16 vaulttls.Codec.Reader.pure vaulttls.Storage.decode_record
    vaulttls.Python.Hex.fromhex vaulttls.Session.Hello.build_signed_server_hello
    vaulttls.ServerConfig.encode_server_config vaulttls.Pki.sign_server_config
    vaulttls.Pki.encode_cert_chain vaulttls.Codec.Encode.encode_server_hello_core
    vaulttls.Codec.Encode.p24 vaulttls.Pki.sign_cert_verify
    vaulttls.Codec.Encode.encode_server_hello vaulttls.Codec.Decode.decode_server_hello
    vaulttls.Codec.Decode.read_server_hello vaulttls.Codec.Reader.v24 vaulttls.Codec.Reader.u24
    vaulttls.Pki.verify_certificate_chain vaulttls.Pki.verify_server_config_signature
    vaulttls.ServerConfig.validate_server_config vaulttls.ServerConfig.decode_server_config
    vaulttls.Python.item vaulttls.Python.unpack_from
    vaulttls.Pki.verify_certificate_verify_signature vaulttls.Codec.Encode.encode_client_finish
    vaulttls.Kdf.derive_traffic_secrets vaulttls.Kdf.derive_secret vaulttls.Kdf.hkdf_expand_label
    vaulttls.Kdf.hkdf_label
server-IsOpen = tt

secure_channel_example :
    ((direction_state stub.hash logged_in.secrets.server_app ≡ ok directions.0)
      × (direction_state stub.hash logged_in.secrets.client_app ≡ ok directions.1))
    ⊎ LoginCollides stub local_certs
        (λ e. [])
        session
        drawn
        outside
        parsed_hello
        (world to_server)
        carol
secure_channel_example =
    secure_channel stub local_certs (λ e. []) session stub-CryptoLaws machine drawn carol carol
      to_client outside parsed_hello raw_hello (world to_server) refl client-IsOpen server-IsOpen
      logged_in_lem first_frame_lem decoded_lem served_lem server_got client_got

login_handshake_safe_example :
    ((allow session.ip parsed_hello.credential_id outside.monotonic (world to_server).limiter).0
      ≡ true)
    × (record_exists parsed_hello.credential_id (world to_server).users ≡ true)
    × (served.1.users ≡ (world to_server).users)
    × ((ke2 : Bytes) × (state : ServerState) × (cf_raw : Bytes) × (ke3 : Bytes) × (later : List
          Segment)
        × (Server.login_start stub outside.draw
              (opaque_of session)
              parsed_hello.credential_id
              parsed_hello.opaque_ke1
              (world to_server).users
            ≡ ok (ke2, state))
        × (Framing.recv_frame (world to_server).incoming ≡ ok (cf_raw, later))
        × (decode_client_finish cf_raw ≡ ok (record { opaque_ke3 = ke3 }))
        × (ke3 ≡ client_mac_of stub state.keys state.transcript state.server_mac))
login_handshake_safe_example =
    login_handshake_safe stub local_certs (λ e. []) session outside parsed_hello raw_hello
      (world to_server) served_lem

client_login-Authentic_example :
    (client_hello : Bytes) × (frame : Bytes) × (more : Bytes) × (hello : Bytes) × (later : List
      Segment)
    × (parsed : ParsedServerHello) × (cert : Bytes) × (Framing.send_frame client_hello ≡ ok frame)
    × (logged_in.sent ≡ frame ++ more)
    × (Framing.recv_frame to_client ≡ ok (hello, later))
    × (decode_server_hello hello ≡ ok parsed)
    × Authentic stub local_certs machine client_hello parsed cert
client_login-Authentic_example =
    client_login-Authentic stub local_certs machine drawn carol carol to_client logged_in_lem
