-- ===== src/Lib.antt =====
-- dpwire is a Go library and command line for Sony Digital Paper devices. A client speaks the REST API of
-- the device over HTTPS; a simulator of the device (dptest) stands in for it in tests; local files keep
-- profiles and the numbers that name the device's objects on the command line.
--
-- The files, and the code that each is about:
--
--   Prelude, Decimal, Unicode, Segments: Go strings as lists of bytes, dictionaries, errors, and what the
--     code uses of strings, strconv, unicode/utf8 and encoding/binary.
--   Device: dptest/state.go. `State` is the record of the Go struct, its maps association lists. Each method
--     is a function on it: create_document, create_folder, upload_document, update_entry, copy_document,
--     delete_document, delete_folder, the nonces, sessions and faults. The mutex makes a method one step.
--     Device.Reach is the relation of the states that the methods reach.
--   Emulator: dptest/emulator.go. Listing has writeEntryList and queryInteger, Auth has serveNonce,
--     serveAuth, authenticated and writeStateError, Requests decodeRequest and readMultipartPDF, and Server
--     serveHTTP with its routes over the handlers of Handlers.
--   RemotePath, EntryType, Entries: remote_path.go, the decoding half of entries.go, and validateEntryName
--     of write.go.
--   Client: the calls of the client. Calls has Get, Resolve and the shape of a call, Listing the pagination
--     loop of entries.go, Deletion delete.go, Writes and Uploads write.go, Errors errors.go.
--   References: profiles/object_references.go. File has the file and its validation, Assign the loop that
--     numbers objects, Digests the shortened references, Store loading, caching, saving and Candidates.
--   Crypto: internal/crypto/aeskw/aeskw.go, and what the registration uses of math/big.
--   Registration: internal/wire/registration. Padding, Wrapping, Exchange and Keys are crypto.go; Messages,
--     Session and Client are registration.go, Session the checks message by message and Client the sequence
--     of requests and doJSON; Transcript and Emulator are emulator.go, the state and the handlers. Delivery
--     joins the two sides, and Emulator.Phases is an abstract machine of four phases beside the handlers.
--   Command: cmd/dp/main.go, the device paths that are typed on the command line.
--   Tests: runs on concrete inputs.
--
-- How code becomes definitions. A call that returns an error returns a `Result`. A client call is a function
-- from the state of everything outside the client to its result and the state after; what the device answers
-- is a parameter (`Wire`, `get_page`). Parameters also stand for NFC normalization, path escaping, JSON,
-- base64, SHA-256, RSA, AES, CBC, HMAC, the clock and the random source. A uint64 wraps at 2 ^ 64, and the
-- fixed numbers of an int64 are written out. Texts of errors are left out where no code reads them.
--
-- Fuel: the pagination loop of the client runs on fuel, because the device decides how many pages there are;
-- one round more than the device has entries is enough. PBKDF2 has one round for each byte that it returns,
-- and a chain of certificates one for each byte of its text, since no block is empty. All other loops are
-- structural.
--
-- The registration's cryptography is the record `Primitives`; the record `Laws` says what a proof uses of it:
-- base64 decodes what it encodes, CBC decrypts what it encrypts, a MAC has 32 bytes, and the prime is a group as
-- the exchange needs it, which is proved of the prime of the code in Exchange.Group14. Messages travel between the two sides as values; doJSON and its limits stand apart.
--
-- Not modelled: the transport and its certificates, JSON, the addresses of the registration client, the
-- profile manager, credentials, atomic files, the rest of the
-- command line, and the development tools. An error of the
-- operating system is modelled only where it is named.
pub mod Prelude
pub mod Decimal
pub mod Device
pub mod Unicode
pub mod EntryType
pub mod References
pub mod Command
pub mod Crypto
pub mod Registration
pub mod Segments
pub mod RemotePath
pub mod Entries
pub mod Emulator
pub mod Client
pub mod Tests
