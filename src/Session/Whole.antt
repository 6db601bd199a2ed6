-- ===== src/Session/Whole.antt =====
-- server.py: a whole session, on bytes that are cut up in two ways.
use vaulttls.Prelude.{suc, ◌≡◌, ap, true, List, [], ◌∷◌, ◌++◌, ◌==◌, Bytes, length}
use vaulttls.Errors.{Exc, ok, Result}
use vaulttls.Act.{gets, pure}
use vaulttls.Framing.{Segment}
use vaulttls.Framing.Exact
use vaulttls.Framing.Exact.{IsOpen}
use vaulttls.Session
use vaulttls.Session.State.{World, receive, Outside}
use vaulttls.Opaque.Crypto.{Crypto}
use vaulttls.Pki.{X509}
use vaulttls.Python.Text.{codes, Text}
use vaulttls.Session.Hello.{reg_version, ServerSession}
use vaulttls.Session.{handle, handle_login}
use vaulttls.Codec.Messages.{tag_client_hello, ParsedClientHello}
use vaulttls.Session.Near.{
  Uncut-alert, Uncut-if, Uncut-pure, Uncut-option, calling, Uncut-receive, Uncut-bind, Uncut,
}
use vaulttls.Session.Handshake.{login_handshake}
use vaulttls.Session.Uncut.{handle_registration-Uncut, app_loop-Uncut, login_handshake-Uncut}
use vaulttls.Python.{first}
use vaulttls.Codec.Decode.{decode_client_hello}
use vaulttls.Python.Hex.{hex}
use vaulttls.Session.Echo.{app_loop}

module _ {P Cert : Type 0} (C : Crypto P) (X : X509 Cert) (render : Exc → Text)
    (self : ServerSession Cert) where
  handle_login-Uncut :
      (o : Outside) (ch : ParsedClientHello) (raw : Bytes)
      → Uncut (handle_login C X render self o ch raw)
  unfolding handle_login
  handle_login-Uncut o ch raw =
      Uncut-bind (login_handshake C X render self o ch raw) _
        (login_handshake-Uncut C X render self o ch raw)
        (λ both.
          Uncut-bind (gets (λ w. suc (length (Exact.total w.incoming)))) _
            (record {
              at = λ w s o o' t. record {
                later = s;
                is = ap (λ b. (ok (suc (length b)), record w { incoming = s })) t;
                is_open = o;
                is_open' = o';
                same = t;
              };
            })
            (λ fuel. Uncut-option both (pure tt) _ (Uncut-pure tt) (λ directions.
              Uncut-bind (app_loop C render fuel directions) _
                (app_loop-Uncut C render fuel directions) (λ exit. Uncut-pure tt))))

  handle-Uncut : (o : Outside) → Uncut (handle C X render self o)
  unfolding handle
  handle-Uncut o = Uncut-bind receive _ Uncut-receive (λ raw. calling (first raw) _ (λ tag.
      Uncut-if (tag == tag_client_hello) _ _
        (calling (decode_client_hello raw) _ (λ ch.
          Uncut-if (ch.version == reg_version) _ _
            (handle_registration-Uncut C X render self o ch raw) (handle_login-Uncut o ch raw)))
        (Uncut-alert (codes "Expected ClientHello, got tag 0x" ++ hex (tag ∷ [])))))

  -- However the network cuts up the bytes that a client sends before it closes, with no read that
  -- times out: the whole session sends the same bytes, closes alike, and leaves the same limiter and
  -- the same users.
  pub run-Uncut :
      (o : Outside) (w : World) (s : List Segment)
      → IsOpen w.incoming
      → IsOpen s
      → Exact.total s ≡ Exact.total w.incoming
      → (later : List Segment) × (Session.run C X render self o (record w { incoming = s })
          ≡ record (Session.run C X render self o w) { incoming = later })
        × (Exact.total later ≡ Exact.total (Session.run C X render self o w).incoming)
  unfolding Session.run
  run-Uncut o w s p p' t =
      let n = (handle-Uncut o).at w s p p' t in
      (n.later, ap (λ (x : Result (Unit {0}) × World). record x.1 { closed = true }) n.is, n.same)
