-- ===== src/Registration/Delivery/Requests.antt =====
-- Each request, delivered to its handler.
use dpwire.Prelude.{◌≡◌, refl, codes, bytes_eq, none, some, ok}
use dpwire.Registration.Messages.{WireMessage, Primitives}
use dpwire.Registration.Emulator.{
  Emulator, message, no_content, no_transcript, serve, serve_pin, serve_hash, serve_ca,
  serve_registration,
}
use dpwire.Registration.Delivery.{deliver, deliver_only}

module _ (p : Primitives) (e : Emulator) where
  pub delivered_cleanup :
      deliver_only p (codes "PUT /register/cleanup") none e
      ≡ (ok tt, record e { transcript = no_transcript })
  unfolding deliver_only serve bytes_eq
  delivered_cleanup = refl

module _ (p : Primitives) (e : Emulator) (m : WireMessage) (later : Emulator) where
  pub delivered_pin :
      serve_pin p e ≡ (message m, later)
      → deliver p (codes "POST /register/pin") none e ≡ (ok m, later)
  unfolding deliver serve bytes_eq
  delivered_pin h = rw (deliver, serve, h) refl

  pub delivered_hash :
      (m2 : WireMessage)
      → serve_hash p (some m2) e ≡ (message m, later)
      → deliver p (codes "POST /register/hash") (some m2) e ≡ (ok m, later)
  unfolding deliver serve bytes_eq
  delivered_hash m2 h = rw (deliver, serve, h) refl

  pub delivered_ca :
      (m4 : WireMessage)
      → serve_ca p (some m4) e ≡ (message m, later)
      → deliver p (codes "POST /register/ca") (some m4) e ≡ (ok m, later)
  unfolding deliver serve bytes_eq
  delivered_ca m4 h = rw (deliver, serve, h) refl

module _ (p : Primitives) (e later : Emulator) where
  pub delivered_registration :
      (m6 : WireMessage)
      → serve_registration p (some m6) e ≡ (no_content, later)
      → deliver_only p (codes "POST /register") (some m6) e ≡ (ok tt, later)
  unfolding deliver_only serve bytes_eq
  delivered_registration m6 h = rw (deliver_only, serve, h) refl
