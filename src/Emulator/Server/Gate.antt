-- ===== src/Emulator/Server/Gate.antt =====
-- A request without a session changes nothing that the device stores.
use dpwire.Prelude.{
  Option-cases, ◌≡◌, refl, ◌∙◌, Bool, true, false, not, ◌&&◌, List, [], ◌∷◌, ◌++◌, Bytes, codes,
  any, ◌||◌, Option, none, some, Bool-cases, inl, inr,
}
use mathlib.Core.Path.{ap₂}
use dpwire.Prelude.Dict.{Dict, erase}
use dpwire.Device.State.{State, PublicKey, Fault}
use dpwire.Device.Sessions.{
  take_fault, use_fault, set_nonce, take_nonce, add_session, client_key, has_session,
}
use dpwire.Emulator.Auth.{
  AuthRequest, serve_nonce, serve_auth, finish_auth, authenticated, is_session_item, cut_equals,
  cookie_items,
}
use dpwire.Emulator.Requests.{Request, Answer}
use dpwire.Emulator.Handlers.{Host}
use dpwire.Emulator.Server.{serve_request, serve_http, faulted, switch}

-- The same entries and the same content, under the same numbers.
pub record IsUnchanged (s t : State) : Type 0 where
  pub documents : t.documents ≡ s.documents
  pub folders : t.folders ≡ s.folders
  pub contents : t.contents ≡ s.contents
  pub next_id : t.next_id ≡ s.next_id

pub unchanged : (s : State) → IsUnchanged s s
unchanged s = record { documents = refl; folders = refl; contents = refl; next_id = refl }

module _ (host : Host) (r : Request) (s : State) where
  pub nonce-IsUnchanged :
      (encode : Bytes → Bytes) (id : Bytes) → IsUnchanged s (serve_nonce encode r.random id s).1
  unfolding serve_nonce set_nonce
  nonce-IsUnchanged encode id = elim (Option-cases (client_key id s)) [
    | inl e ↦ rw (serve_nonce, e) (unchanged s)
    | inr (key, e) ↦ elim (Option-cases r.random) [
      | inl e' ↦ rw (serve_nonce, e, e') (unchanged s)
      | inr (value, e') ↦
          rw (serve_nonce, e, e')
            (record { documents = refl; folders = refl; contents = refl; next_id = refl })
    ]
  ]

  finish-IsUnchanged :
      (key : Option PublicKey) (challenge signature : Option Bytes) (random : Option Bytes)
      (t : State)
      → IsUnchanged s t
      → IsUnchanged s
          (finish_auth host.encode_standard host.decode_base64 host.sha256 host.verify key challenge
            signature random t).1
  unfolding finish_auth add_session
  finish-IsUnchanged none challenge signature random t ht = ht
  finish-IsUnchanged (some key) none signature random t ht = ht
  finish-IsUnchanged (some key) (some challenge) none random t ht = ht
  finish-IsUnchanged (some key) (some challenge) (some signature) random t ht =
      elim (Bool-cases (host.verify key (host.sha256 challenge) signature)) [
        | inr e ↦ rw (finish_auth, e) ht
        | inl e ↦ elim (Option-cases random) [
          | inl e' ↦ rw (finish_auth, e, e') ht
          | inr (token, e') ↦
              rw (finish_auth, e, e')
                (record {
                  documents = ht.documents;
                  folders = ht.folders;
                  contents = ht.contents;
                  next_id = ht.next_id;
                })
        ]
      ]

  auth-IsUnchanged :
      (request : Option AuthRequest)
      → IsUnchanged s
          (serve_auth host.encode_standard host.decode_base64 host.sha256 host.verify request
            r.random s).1
  unfolding serve_auth take_nonce
  auth-IsUnchanged none = unchanged s
  auth-IsUnchanged (some request) =
      finish-IsUnchanged (client_key request.client_id s) _ _ r.random _
        (record { documents = refl; folders = refl; contents = refl; next_id = refl })

  -- The switch, up to the case of a missing session.
  gate_closed :
      (b1 b2 b3 : Bool) (x y z w : Answer × State) (default' : Answer × State)
      → IsUnchanged s x.1
      → IsUnchanged s y.1
      → IsUnchanged s z.1
      → IsUnchanged s w.1
      → IsUnchanged s (switch ((b1, x) ∷ (b2, y) ∷ (b3, z) ∷ (true, w) ∷ []) default').1
  unfolding switch
  gate_closed true b2 b3 x y z w default' hx hy hz hw = hx
  gate_closed false true b3 x y z w default' hx hy hz hw = hy
  gate_closed false false true x y z w default' hx hy hz hw = hz
  gate_closed false false false x y z w default' hx hy hz hw = hw

  request-IsUnchanged :
      s.require_auth && not (authenticated host.trim_space r.cookies s) ≡ true
      → IsUnchanged s (serve_request host r s).1
  unfolding serve_request
  request-IsUnchanged closed =
      rw (serve_request, closed)
        (gate_closed _ _ _ _ _ _ _ _ (nonce-IsUnchanged host.encode_url _)
          (auth-IsUnchanged r.auth_json) (unchanged s) (unchanged s))

faulted-IsUnchanged :
    (host : Host) (r : Request) (s : State) (taken : Option Fault × State)
    → IsUnchanged s taken.1
    → taken.1.require_auth && not (authenticated host.trim_space r.cookies taken.1) ≡ true
    → IsUnchanged s (faulted host r taken).1
faulted-IsUnchanged host r s (some fault, t) same closed = same
faulted-IsUnchanged host r s (none, t) same closed =
    let later = request-IsUnchanged host r t closed in
    record {
      documents = later.documents ∙ same.documents;
      folders = later.folders ∙ same.folders;
      contents = later.contents ∙ same.contents;
      next_id = later.next_id ∙ same.next_id;
    }

-- A session is looked up without the faults.
is_session_item-faults :
    (faults : Dict Fault) (s : State) (item : Option (Bytes × Bytes))
    → is_session_item item (record s { faults = faults }) ≡ is_session_item item s
unfolding is_session_item has_session
is_session_item-faults faults s none = refl
is_session_item-faults faults s (some (name, value)) = refl

any-pointwise :
    {A : Type 0} (f g : A → Bool) (xs : List A) → ((x : A) → f x ≡ g x) → any f xs ≡ any g xs
any-pointwise f g [] same = refl
any-pointwise f g (x ∷ xs) same = ap₂ (λ a b. a || b) (same x) (any-pointwise f g xs same)

authenticated-faults :
    (trim_space : Bytes → Bytes) (headers : List Bytes) (s : State) (faults : Dict Fault)
    → authenticated trim_space headers (record s { faults = faults })
      ≡ authenticated trim_space headers s
unfolding authenticated
authenticated-faults trim_space headers s faults = any-pointwise _ _ headers (λ header.
    any-pointwise _ _ (cookie_items header)
      (λ item. is_session_item-faults faults s (cut_equals (trim_space item))))

refused_without : (a b : Bool) → a ≡ true → b ≡ false → a && not b ≡ true
refused_without a b ha hb = rw (ha, hb) refl

used-IsClosed :
    (trim_space : Bytes → Bytes) (items : List Bytes) (s : State) (taken : Option (Bytes × Fault))
    → s.require_auth ≡ true
    → authenticated trim_space items s ≡ false
    → IsUnchanged s (use_fault taken s).1
      × ((use_fault taken s).1.require_auth
            && not (authenticated trim_space items (use_fault taken s).1)
          ≡ true)
unfolding use_fault
used-IsClosed trim_space items s none needed denied =
    (unchanged s, refused_without _ _ needed denied)
used-IsClosed trim_space items s (some (matched, fault)) needed denied =
    elim (Bool-cases fault.once) [
      | inl e ↦ rw e (
        record { documents = refl; folders = refl; contents = refl; next_id = refl },
        refused_without _ _ needed
            (authenticated-faults trim_space items s (erase matched s.faults) ∙ denied),
      )
      | inr e ↦ rw e (unchanged s, refused_without _ _ needed denied)
    ]

-- On a device that requires authentication, a request without the cookie of a session changes no entry and no
-- content, and hands out no number: whatever its method, its path and its body, and whatever fault is due.
pub serve_http-IsUnchanged :
    (host : Host) (r : Request) (s : State)
    → s.require_auth ≡ true
    → authenticated host.trim_space r.cookies s ≡ false
    → IsUnchanged s (serve_http host r s).1
unfolding serve_http take_fault
serve_http-IsUnchanged host r s needed denied =
    let used = used-IsClosed host.trim_space r.cookies s _ needed denied in
    faulted-IsUnchanged host r s (take_fault host.path_match (r.method ++ (codes " " ++ r.path)) s)
      used.0 used.1
