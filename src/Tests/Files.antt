-- ===== src/Tests/Files.antt =====
-- Runs of the reference file, and of the cryptography with a toy cipher.
use dpwire.Prelude.{
  ℕ, zero, suc, ◌-◌, ◌%◌, ◌<◌, ◌≡◌, refl, ap, ◌∙◌, false, Option, none, some, List, [], ◌∷◌, map,
  Bytes, codes, bytes_eq, length, replicate, ok, ◌>>=◌, arith, length-replicate,
}
use mathlib.Core.Path.{ap₂}
use dpwire.Decimal.{pos}
use dpwire.EntryType.{entry_document, is_known}
use dpwire.Unicode.{valid_string, contains_control}
use dpwire.References.File.{ReferenceFile, empty_file, validate, check_record, valid_device_id}
use dpwire.References.File.Validation.{validate-IsConsistent}
use dpwire.References.Ledger.{IsConsistent}
use dpwire.References.Assign.{Object}
use dpwire.References.Store.{FileInfo, Store, assign, load, load_cached}
use dpwire.References.Store.Numbering.{Outcome, assign-Outcome}
use dpwire.Crypto.Words.{AreBytes}
use dpwire.Crypto.Aeskw.{wrap, unwrap}
use dpwire.Crypto.Aeskw.Blocks.{BlockCipher}
use dpwire.Crypto.Aeskw.RoundTrip.{unwrap-wrap}
use dpwire.Registration.Padding.{
  pkcs7_pad, pkcs7_unpad, pkcs7_unpad-pkcs7_pad, pkcs7_pad-pkcs7_unpad,
}
use dpwire.Registration.Wrapping.{CbcCipher, Mac, unwrap-wrap_registration}
use dpwire.Registration.Wrapping

-- A cipher that takes every byte from 255.
abbrev complement : ℕ → ℕ
complement c = 255 - c

length-complement : (b : Bytes) → length (map complement b) ≡ length b
length-complement [] = refl
length-complement (c ∷ cs) = ap suc (length-complement cs)

complement-AreBytes : (b : Bytes) → AreBytes (map complement b)
complement-AreBytes [] = tt
complement-AreBytes (c ∷ cs) = (omega arith, complement-AreBytes cs)

complement_twice : (b : Bytes) → AreBytes b → map complement (map complement b) ≡ b
complement_twice [] h = refl
complement_twice (c ∷ cs) h = ap₂ (λ x xs. x ∷ xs) (omega (arith, h.0)) (complement_twice cs h.1)

abbrev toy_cipher : BlockCipher
toy_cipher = record {
  encrypt = λ k b. map complement b;
  decrypt = λ k b. map complement b;
  encrypt-IsBlock = λ k b h. (length-complement b ∙ h.0, complement-AreBytes b);
  decrypt-encrypt = λ k b h. complement_twice b h.1;
}

abbrev toy_cbc : CbcCipher
toy_cbc = record {
  encrypt = λ k iv b. map complement b;
  decrypt = λ k iv b. map complement b;
  length-encrypt = λ k iv b h. length-complement b;
  decrypt-encrypt = λ k iv b h g bytes. complement_twice b bytes;
}

replicate-AreBytes : (n c : ℕ) → c < 256 → AreBytes (replicate n c)
replicate-AreBytes zero c h = tt
replicate-AreBytes (suc n) c h = (h, replicate-AreBytes n c h)

abbrev toy_mac : Mac
toy_mac = record {
  hmac = λ k m. replicate 32 (length m % 256);
  hmac-long = λ k m. omega (arith, length-replicate 32 (length m % 256));
  hmac-AreBytes = λ k m. replicate-AreBytes 32 (length m % 256) (omega arith);
}

abbrev zeros : Bytes
zeros = replicate 16 0

unwrap-wrap_example :
    (wrap toy_cipher.encrypt zeros zeros >>= λ wrapped. unwrap toy_cipher.decrypt zeros wrapped)
    ≡ ok zeros
unwrap-wrap_example =
    unwrap-wrap toy_cipher zeros zeros (replicate-AreBytes 16 0 (omega arith)) (omega arith) refl
      refl

unwrap-wrap_registration_example :
    (Wrapping.wrap toy_mac.hmac toy_cbc.encrypt (7 ∷ []) zeros zeros (some zeros) >>= λ wrapped.
    Wrapping.unwrap toy_mac.hmac toy_cbc.decrypt wrapped zeros zeros)
    ≡ ok (7 ∷ [])
unwrap-wrap_registration_example =
    unwrap-wrap_registration toy_mac toy_cbc (7 ∷ []) zeros zeros zeros refl (omega arith, tt) refl

pkcs7_unpad-pkcs7_pad_example : pkcs7_unpad (pkcs7_pad (7 ∷ []) 16) 16 ≡ ok (7 ∷ [])
pkcs7_unpad-pkcs7_pad_example = pkcs7_unpad-pkcs7_pad (7 ∷ [])

pkcs7_pad-pkcs7_unpad_example : pkcs7_pad (7 ∷ []) 16 ≡ pkcs7_pad (7 ∷ []) 16
pkcs7_pad-pkcs7_unpad_example =
    pkcs7_pad-pkcs7_unpad (pkcs7_pad (7 ∷ []) 16) (7 ∷ []) (pkcs7_unpad-pkcs7_pad (7 ∷ []))

abbrev one_reference : ReferenceFile
one_reference = record {
  schema_version = pos 1;
  next = 1;
  objects = record { number = 0; device_id = codes "e1"; type = entry_document } ∷ [];
}

accepted : validate one_reference ≡ ok tt
unfolding validate check_record valid_device_id valid_string contains_control is_known bytes_eq
accepted = refl

validate-IsConsistent_example :
    (one_reference.schema_version ≡ pos 1) × IsConsistent one_reference.next one_reference.objects
validate-IsConsistent_example = validate-IsConsistent one_reference accepted

-- A file with one reference, not read yet.
abbrev one_file : Store
one_file = record {
  disk = some (record { info = record { file = 1; size = 60; mod_time = 4 }; raw = codes "1" });
  cache_valid = false;
  cache_info = none;
  cache_state = empty_file;
}

abbrev digest : Bytes → Bytes
digest b = b

abbrev decode : Bytes → Option ReferenceFile
decode b = some one_reference

abbrev encode : ReferenceFile → Bytes
encode file = map (λ r. r.number) file.objects

loaded : load_cached digest decode encode one_file ≡ ok one_reference
unfolding load_cached load
loaded = rw accepted refl

abbrev listed : List Object
listed = record { id = codes "e2"; type = entry_document } ∷ []

abbrev new_file : Option FileInfo
new_file = some (record { file = 1; size = 60; mod_time = 5 })

assign-Outcome_example :
    Outcome digest decode encode listed one_reference one_file
      (assign digest decode encode listed new_file one_file)
assign-Outcome_example =
    assign-Outcome digest decode encode listed new_file one_file one_reference loaded
      (validate-IsConsistent one_reference accepted).1
