-- ===== src/Tests/Servers.antt =====
-- A request to the simulator's handler.
use dpwire.Prelude.{◌≡◌, refl, true, false, none, some, [], ◌∷◌, bytes_eq, codes}
use dpwire.Device.State.{State, new_state}
use dpwire.Device.Sessions.{require_authentication, has_session}
use dpwire.Prelude.Dict.{lookup}
use dpwire.Device.Creation.{create_document}
use dpwire.Emulator.Auth.{authenticated, is_session_item, cut_equals, cookie_items}
use dpwire.Emulator.Requests.{Request}
use dpwire.Emulator.Handlers.{Host}
use dpwire.Emulator.Server.{serve_http}
use dpwire.Emulator.Server.ReadOnly.{serve_http_get-IsUnchanged}
use dpwire.Emulator.Server.Gate.{IsUnchanged, serve_http-IsUnchanged}

abbrev plain_host : Host
plain_host = record {
  encode_url = λ b. b;
  encode_standard = λ b. b;
  decode_base64 = λ b. some b;
  sha256 = λ b. b;
  hex = λ b. b;
  verify = λ key digest signature. false;
  path_match = λ pattern' name. false;
  equal_fold = λ a b. true;
  contains = λ a b. true;
  trim_space = λ b. b;
  encode_entries = λ es. [];
}

abbrev new_folder : Request
new_folder = record {
  method = codes "POST";
  path = codes "/folders2";
  query = λ key. none;
  cookies = codes "theme=dark;Credentials=old" ∷ [];
  accept = [];
  json = λ names. some (λ name. codes "root");
  auth_json = none;
  parts = none;
  now = codes "2026-01-02T03:04:05Z";
  random = none;
}

abbrev fresh_device : State
fresh_device = new_state (codes "DPT-RP1") (codes "1.6")

abbrev locked_device : State
locked_device = require_authentication true fresh_device

-- A request that reads the content of a document.
abbrev read_file : Request
read_file = record new_folder { method = codes "GET"; path = codes "/documents/doc-000001/file" }

abbrev one_document : State
one_document =
    (create_document (codes "root") (codes "a.pdf") (codes "2026-01-02T03:04:05Z") fresh_device).1

serve_http_get-IsUnchanged_example :
    IsUnchanged one_document (serve_http plain_host read_file one_document).1
serve_http_get-IsUnchanged_example =
    serve_http_get-IsUnchanged plain_host read_file one_document refl

is_locked : locked_device.require_auth ≡ true
unfolding require_authentication
is_locked = refl

no_session : authenticated plain_host.trim_space new_folder.cookies locked_device ≡ false
unfolding authenticated is_session_item cut_equals cookie_items has_session lookup bytes_eq
    require_authentication new_state
no_session = refl

serve_http-IsUnchanged_example :
    IsUnchanged locked_device (serve_http plain_host new_folder locked_device).1
serve_http-IsUnchanged_example =
    serve_http-IsUnchanged plain_host new_folder locked_device is_locked no_session
