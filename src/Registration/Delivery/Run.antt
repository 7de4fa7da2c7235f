-- ===== src/Registration/Delivery/Run.antt =====
-- The values of one registration, from what the two sides read and the secret that they derive.
use dpwire.Prelude.{[], ◌∷◌, ◌++◌, Bytes, none}
use dpwire.Device.State.{PublicKey}
use dpwire.Registration.Exchange.{public_bytes}
use dpwire.Registration.Keys.{derive_keys}
use dpwire.Registration.Wrapping.{hash_mac}
use dpwire.Registration.Messages.{WireMessage, empty_message, Primitives}
use dpwire.Registration.Session.{
  Session, Challenge, PinProof, Certified, Identity, m2hmac, want_m3, pin_hash, m4hmac_of, want_m5,
  make_m6,
}
use dpwire.Registration.Emulator.{Emulator}
use dpwire.Registration.Emulator.Accepted.{greeting, greeted}
use dpwire.Registration.Delivery.Reads.{DeviceReads, ClientReads}

-- One registration: the two sides, their reads, the secret, the wrapped values and what is registered.
pub record Run : Type 0 where
  pub p : Primitives
  pub e : Emulator
  pub random : Bytes
  pub d : DeviceReads p e.random
  pub c : ClientReads p random
  pub secret : Bytes
  pub wrapped_rs : Bytes
  pub wrapped_certificate : Bytes
  pub wrapped_identity : Bytes
  pub client_id : Bytes
  pub key : PublicKey

module _ (r : Run) where
  abbrev pub keys : Bytes × Bytes
  keys = derive_keys r.p.hmac r.secret (r.d.nonce1 ++ (r.d.mac ++ r.c.nonce2))

  abbrev pub session : Session
  session = record {
    nonce1 = r.d.nonce1;
    mac = r.d.mac;
    other_raw = public_bytes r.p.prime r.d.private_key;
    public_key = public_bytes r.p.prime r.c.private_key;
    nonce2 = r.c.nonce2;
    auth_key = keys.0;
    wrap_key = keys.1;
  }

  abbrev pub psk : Bytes
  psk = hash_mac r.p.hmac keys.0 (r.e.pin ∷ [])

  abbrev pub e_hash : Bytes
  e_hash = pin_hash r.p session r.d.es psk

  abbrev pub challenge : Challenge
  challenge = record { e_hash = e_hash; m3hmac = want_m3 r.p session e_hash }

  abbrev pub m1 : WireMessage
  m1 = greeting r.p r.e r.d.nonce1 r.d.mac r.d.private_key

  abbrev pub m3 : WireMessage
  m3 = record empty_message {
    a = r.p.encode r.c.nonce2;
    b = r.p.encode e_hash;
    e = r.p.encode (want_m3 r.p session e_hash);
  }

  abbrev pub e1 : Emulator
  e1 = greeted r.p r.e r.d.nonce1 r.d.mac r.d.es r.d.private_key r.d.d4

  abbrev pub e2 : Emulator
  e2 = record e1 {
    transcript = record e1.transcript {
      nonce2 = r.c.nonce2;
      client_public = public_bytes r.p.prime r.c.private_key;
      auth_key = keys.0;
      wrap_key = keys.1;
      m2hmac = m2hmac r.p session;
      e_hash = e_hash;
      m3hmac = want_m3 r.p session e_hash;
    };
  }

  abbrev pub proof : PinProof
  proof = record {
    psk = psk;
    r_hash = pin_hash r.p session r.c.rs psk;
    wrapped_rs = r.wrapped_rs;
    m4hmac = m4hmac_of r.p session challenge (pin_hash r.p session r.c.rs psk) r.wrapped_rs;
  }

  abbrev pub m5 : WireMessage
  m5 = record empty_message {
    a = r.p.encode r.c.nonce2;
    d = r.p.encode r.wrapped_certificate;
    e = r.p.encode (want_m5 r.p session proof r.wrapped_certificate);
  }

  abbrev pub e3 : Emulator
  e3 = record e2 {
    random = r.d.d5;
    transcript = record e2.transcript {
      wrapped_certificate = r.wrapped_certificate;
      m5hmac = want_m5 r.p session proof r.wrapped_certificate;
    };
  }

  abbrev pub certified : Certified
  certified = record {
    certificate = r.e.certificate;
    wrapped_certificate = r.wrapped_certificate;
    m5hmac = want_m5 r.p session proof r.wrapped_certificate;
  }

  abbrev pub identity : Identity
  identity = record {
    client_id = r.client_id;
    private_key_pem = r.c.generated.private_pem;
    device_ca_pem = r.e.certificate;
  }

  abbrev pub e4 : Emulator
  e4 = record e3 {
    transcript = record e3.transcript { dh = none };
    registered = (r.client_id, r.key) ∷ r.e.registered;
  }

  abbrev pub m6 : WireMessage
  m6 = make_m6 r.p session certified r.wrapped_identity
