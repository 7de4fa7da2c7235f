-- ===== src/Tests/Registrations.antt =====
-- Runs of the registration protocol with small cryptography: the group of order 22, a constant MAC and a
-- cipher that changes nothing.
pub mod Runs
use dpwire.Prelude.{
  ℕ, zero, suc, ◌+◌, ◌≡◌, ◌<◌, ◌≤◌, refl, Bool, true, false, List, [], ◌∷◌, ◌++◌, Bytes, codes,
  bytes_eq, length, take, drop, replicate, Option, none, some, Result, ok, err, if◌then◌else◌, ltb,
  ◌==◌, ap, ok-injective, arith, length-replicate, contains_any, not,
}
use mathlib.Core.Path.{ap₂}
use mathlib.Core.Option
use dpwire.Device.State.{PublicKey}
use dpwire.Crypto.Words.{AreBytes, set_bytes, word_from}
use dpwire.Crypto.Powers.{exp_mod}
use dpwire.Registration.Exchange.{
  group14_prime, read_full, new_dh, attempt_private, public_bytes, shared_bytes,
}
use dpwire.Registration.Exchange.Group14.{group14-IsGroup}
use dpwire.Registration.Exchange.Agreement.{IsGroup, IsPrivate, shared_bytes_agree}
use dpwire.Registration.Keys.{pbkdf2, derive_keys, length-pbkdf2, length-derive_keys}
use dpwire.Registration.Messages.Uuid.{random_uuid_version}
use dpwire.Registration.Messages.{
  random_uuid, hex_digit, WireMessage, empty_message, Primitives, PemBlock, GeneratedKey,
  validate_certificate_pem, certificates, is_bad_pin, decode_field, max_response_size,
}
use dpwire.Registration.Laws.{Laws, IsRead}
use dpwire.Registration.Client.{HttpReply, Json, do_json, read_reply, register}
use dpwire.Registration.Client.Limits.{do_json_accepts}
use dpwire.Registration.Wrapping.{hash_mac}
use dpwire.Registration.Session.Trust.{check_m5-IsBound}
use dpwire.Registration.Session.{make_m2, make_m4, want_m5, open_certificate, pin_hash}
use dpwire.Registration.Emulator.{
  Emulator, Reply, message, no_content, failed, no_transcript, serve, serve_ca, new_emulator,
  is_bad_emulator_pin,
}
use dpwire.Registration.Emulator.Phases.{
  Event, sent_greeting, agreed_keys, proved_pin, registered, Step, phase_of, event_at, event_of,
}
use dpwire.Registration.Emulator.Phases.Refinement.{serve-Step}
use dpwire.Registration.Emulator.Phases.Proofs.{
  Reached, built, served, registration-PinWasProved, serve_ca-knows_pin,
}
use dpwire.Registration.Delivery.{answer, outcome, deliver, deliver_only}
use dpwire.Registration.Delivery.Run.{
  Run, e1, e2, e3, e4, m1, m3, m5, m6, session, proof, challenge, certified,
}
use dpwire.Registration.Delivery.Steps.{step1, step3, step6, step7, step9}
use dpwire.Registration.Delivery.Reads.{DeviceReads, ClientReads, IsCertificate, IsPublicPem}
use dpwire.Registration.Delivery.Complete.{IsRun, made-IsRun, register_completes}

abbrev pub toy_mac : Bytes → Bytes → Bytes
toy_mac k m = replicate 32 7

abbrev pub toy_key : PublicKey
toy_key = record { modulus = 3; exponent = 65537 }

abbrev pub toy_block : Bytes → PemBlock
toy_block [] = record { block_type = []; contents = [] }
toy_block (c ∷ cs) = record {
  block_type = if c == 1 then codes "CERTIFICATE" else codes "PUBLIC KEY";
  contents = [];
}

abbrev pub toy : Primitives
toy = record {
  prime = 23;
  hmac = toy_mac;
  cbc_encrypt = λ k iv b. b;
  cbc_decrypt = λ k iv b. b;
  encode = λ b. b;
  decode = λ b. some b;
  pem_decode = λ text. some (toy_block text, []);
  is_blank = λ b. bytes_eq b [];
  parse_certificate = λ b. true;
  parse_public_key = λ b. some toy_key;
  bit_length = λ n. 2048;
  generate_key = λ random. some (record { private_pem = 9 ∷ []; public_pem = 5 ∷ [] }, random);
}

pub replicate-AreBytes : (n c : ℕ) → c < 256 → AreBytes (replicate n c)
replicate-AreBytes zero c h = tt
replicate-AreBytes (suc n) c h = (h, replicate-AreBytes n c h)

pub toy-IsGroup : IsGroup 23
unfolding exp_mod
toy-IsGroup = record { large = omega arith; fits = omega arith; odd_half = refl; order = refl }

pub toy-Laws : Laws toy
toy-Laws = record {
  decode-encode = λ b h. refl;
  length-hmac = λ k m. refl;
  hmac-AreBytes = λ k m. replicate-AreBytes 32 7 (omega arith);
  length-encrypt = λ k iv b h. refl;
  encrypt-AreBytes = λ k iv b h1 h2. h2;
  decrypt-encrypt = λ k iv b h1 h2 h3. refl;
  group = toy-IsGroup;
}

pub three-IsPrivate : IsPrivate 23 3
unfolding exp_mod
three-IsPrivate = record { not_one = λ e. ground arith }

pub four-IsPrivate : IsPrivate 23 4
unfolding exp_mod
four-IsPrivate = record { not_one = λ e. ground arith }

shared_bytes_agree_example :
    (secret : Bytes) × ((length secret ≡ 256)
      × ((shared_bytes group14_prime 3 (public_bytes group14_prime 4) ≡ ok secret)
          × (shared_bytes group14_prime 4 (public_bytes group14_prime 3) ≡ ok secret)))
unfolding exp_mod
shared_bytes_agree_example =
    shared_bytes_agree group14_prime 3 4 group14-IsGroup (record { not_one = λ e. ground arith })
      (record { not_one = λ e. ground arith })

length-pbkdf2_example : length (pbkdf2 toy_mac (codes "secret") (codes "salt") 10000 48) ≡ 48
length-pbkdf2_example =
    length-pbkdf2 toy_mac (λ k m. omega arith) (codes "secret") (codes "salt") 10000 48

length-derive_keys_example :
    (length (derive_keys toy_mac (codes "secret") (codes "salt")).0 ≡ 32)
    × (length (derive_keys toy_mac (codes "secret") (codes "salt")).1 ≡ 16)
length-derive_keys_example =
    length-derive_keys toy_mac (λ k m. omega arith) (codes "secret") (codes "salt")

-- Readers with enough bytes; the private keys are 3 and 4.
abbrev key_bytes : ℕ → Bytes
key_bytes k = replicate 31 0 ++ (k ∷ [])

abbrev pub device_random : Bytes
device_random =
    replicate 16 1 ++ (replicate 6 2 ++ (replicate 16 3 ++ (key_bytes 3 ++ replicate 16 4)))

abbrev pub client_random : Bytes
client_random =
    key_bytes 4
    ++ (replicate 16 5
        ++ (replicate 16 6 ++ (replicate 16 7 ++ (replicate 16 8 ++ replicate 16 9))))

abbrev pub toy_device : Emulator
toy_device = record {
  pin = codes "1234";
  certificate = 1 ∷ [];
  random = device_random;
  transcript = no_transcript;
  registered = [];
}

pub toy_device-DeviceReads : DeviceReads toy device_random
unfolding new_dh attempt_private read_full set_bytes word_from
toy_device-DeviceReads = record {
  nonce1 = replicate 16 1;
  mac = replicate 6 2;
  es = replicate 16 3;
  iv = replicate 16 4;
  private_key = 3;
  d1 = drop 16 device_random;
  d2 = drop 22 device_random;
  d3 = drop 38 device_random;
  d4 = replicate 16 4;
  d5 = [];
  nonce1_read = record { read = refl; bytes = replicate-AreBytes 16 1 (omega arith); size = refl };
  mac_read = record { read = refl; bytes = replicate-AreBytes 6 2 (omega arith); size = refl };
  es_read = record { read = refl; bytes = replicate-AreBytes 16 3 (omega arith); size = refl };
  key_drawn = refl;
  key_IsPrivate = three-IsPrivate;
  iv_read = record { read = refl; bytes = replicate-AreBytes 16 4 (omega arith); size = refl };
}

abbrev toy_generated : GeneratedKey
toy_generated = record { private_pem = 9 ∷ []; public_pem = 5 ∷ [] }

unfoldable pub toy_client-ClientReads : ClientReads toy client_random
unfolding new_dh attempt_private read_full set_bytes word_from
toy_client-ClientReads = record {
  private_key = 4;
  nonce2 = replicate 16 5;
  rs = replicate 16 6;
  iv = replicate 16 7;
  generated = toy_generated;
  uuid = replicate 16 8;
  last_iv = replicate 16 9;
  c1 = drop 32 client_random;
  c2 = drop 48 client_random;
  c3 = drop 64 client_random;
  c4 = drop 80 client_random;
  c5 = drop 80 client_random;
  c6 = drop 96 client_random;
  c7 = [];
  key_drawn = refl;
  key_IsPrivate = four-IsPrivate;
  nonce2_read = record { read = refl; bytes = replicate-AreBytes 16 5 (omega arith); size = refl };
  rs_read = record { read = refl; bytes = replicate-AreBytes 16 6 (omega arith); size = refl };
  iv_read = record { read = refl; bytes = replicate-AreBytes 16 7 (omega arith); size = refl };
  key_generated = refl;
  uuid_read = record { read = refl; bytes = replicate-AreBytes 16 8 (omega arith); size = refl };
  last_iv_read = record { read = refl; bytes = replicate-AreBytes 16 9 (omega arith); size = refl };
}

pub toy-IsCertificate : IsCertificate toy (1 ∷ [])
unfolding validate_certificate_pem certificates bytes_eq
toy-IsCertificate = record {
  bytes = (omega arith, tt);
  some_bytes = omega arith;
  fits = omega arith;
  accepted = refl;
}

pub toy-IsPublicPem : IsPublicPem toy (5 ∷ []) toy_key
unfolding bytes_eq
toy-IsPublicPem = record {
  bytes = (omega arith, tt);
  some_bytes = omega arith;
  fits = omega arith;
  block = (toy_block (5 ∷ []), []);
  decoded = refl;
  typed = refl;
  nothing_else = refl;
  parsed = refl;
  size = refl;
  exponent = refl;
}

good_toy_pin : is_bad_pin (codes "1234") ≡ false
unfolding is_bad_pin bytes_eq
good_toy_pin = refl

register_completes_example :
    (client_id : Bytes) × ((last : Emulator) × ((length client_id ≡ 36)
        × ((register toy
                (deliver toy)
                (deliver_only toy)
                (some (λ w. (ok (codes "1234"), w)))
                client_random
                toy_device
              ≡ (
                ok (record {
                  client_id = client_id;
                  private_key_pem = 9 ∷ [];
                  device_ca_pem = 1 ∷ [];
                }),
                last,
              ))
            × ((last.registered ≡ (client_id, toy_key) ∷ []) × (last.transcript ≡ no_transcript)))))
unfolding toy_client-ClientReads
register_completes_example =
    register_completes toy toy_device client_random toy_key toy-Laws toy_device-DeviceReads
      toy_client-ClientReads toy-IsCertificate toy-IsPublicPem good_toy_pin

random_uuid_version_example :
    (id : Bytes) × ((variant : ℕ) × ((random_uuid (replicate 16 255 ++ (7 ∷ [])) ≡ ok (id, 7 ∷ []))
        × ((length id ≡ 36)
            × ((take 1 (drop 8 id) ≡ 45 ∷ [])
                × ((take 1 (drop 13 id) ≡ 45 ∷ [])
                    × ((take 1 (drop 18 id) ≡ 45 ∷ [])
                        × ((take 1 (drop 23 id) ≡ 45 ∷ [])
                            × ((take 1 (drop 14 id) ≡ 52 ∷ [])
                                × ((variant ≤ 3)
                                    × (take 1 (drop 19 id) ≡ hex_digit (8 + variant) ∷ []))))))))))
random_uuid_version_example =
    random_uuid_version 255 255 255 255 255 255 255 255 255 255 255 255 255 255 255 255 (7 ∷ [])
