-- ===== src/Pki/Files.antt =====
-- pki.py: the files that hold the server's key and the certificates, and how they come about.
use vaulttls.Prelude.{
  not, ℕ, Bool, true, false, ◌&&◌, ◌||◌, Option, none, some, if◌then◌else◌, Bytes,
}
use vaulttls.Errors.{Class, external, Result, ok, err}
use vaulttls.Act.{Act, lift, gets, modify, pure, ◌>>=◌, ◌>>◌}
use vaulttls.Pki.{encode_cert_chain, verify_certificate_chain, X509}
use vaulttls.Pki.Issue.{generate_server_cert, generate_ca, Authority}
use vaulttls.Python.Text.{codes}

-- The three files of certs/; `none` where there is no file.
pub record Files : Type 0 where
  pub ca_cert_path : Option Bytes
  pub server_cert_path : Option Bytes
  pub server_cert_key_path : Option Bytes

-- What is drawn and read from the clock while the certificates are made.
pub record Ceremony (CaKey Key : Type 0) : Type 0 where
  pub ca_key : CaKey
  pub ca_serial : ℕ
  pub ca_now : ℕ
  pub server_key : Key
  pub server_serial : ℕ
  pub server_now : ℕ
  -- The time of the check of the chain.
  pub check_now : ℕ

-- A path that does not exist.
abbrev pub lacks : Option Bytes → Bool
lacks none = true
lacks (some content) = false

-- `missing` of `bootstrap_pki`
unfoldable pub missing : Files → Bool
missing f = lacks f.ca_cert_path || (lacks f.server_cert_path || lacks f.server_cert_key_path)

module _ {Cert CaKey Key : Type 0} (A : Authority Cert CaKey Key) where
  -- `load_certificate` and `load_private_key` of a file.
  unfoldable pub load_certificate : Option Bytes → Result Cert
  load_certificate none = err (external Class.other_class (codes "No such file or directory"))
  load_certificate (some content) = A.load_pem content

  unfoldable pub load_private_key : Option Bytes → Result Key
  load_private_key none = err (external Class.other_class (codes "No such file or directory"))
  load_private_key (some content) = A.load_key_pem content

module _ {Cert CaKey Key : Type 0} (X : X509 Cert) (A : Authority Cert CaKey Key) where
  -- The rest of `bootstrap_pki`, where it does not return at once.
  unfoldable pub make_pki : Ceremony CaKey Key → Act Files (Unit {0})
  unfolding generate_ca generate_server_cert verify_certificate_chain load_certificate
  make_pki c = do
    ca_cert ← lift (generate_ca A c.ca_key c.ca_serial c.ca_now)
    srv_cert ←
        lift (generate_server_cert X A c.ca_key ca_cert c.server_key c.server_serial c.server_now)
    modify (λ f. record f { ca_cert_path = some (A.pem ca_cert) })
    modify (λ f. record f { server_cert_key_path = some (A.key_pem c.server_key) })
    modify (λ f. record f { server_cert_path = some (A.pem srv_cert) })
    chain ← lift (encode_cert_chain X ca_cert srv_cert)
    on_disk ← gets (λ f. load_certificate A f.ca_cert_path)
    checked ←
        lift
          (verify_certificate_chain X chain (codes "localhost") (some ca_cert) on_disk c.check_now)
    pure tt

  -- `bootstrap_pki(force)`
  unfoldable pub bootstrap_pki : Bool → Ceremony CaKey Key → Act Files (Unit {0})
  unfolding make_pki missing
  bootstrap_pki force c f = if not force && not (missing f) then (ok tt, f) else make_pki c f
