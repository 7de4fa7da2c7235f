-- ===== src/Emulator/Server/ReadOnly.antt =====
-- A GET request reads: none of the cases that write is taken.
use dpwire.Prelude.{
  Option-cases, Bool-cases, inl, inr, ◌≡◌, refl, ap, ◌∙◌, Bool, true, false, not, ◌&&◌, List, [],
  ◌∷◌, ◌++◌, Bytes, codes, bytes_eq, if◌then◌else◌, Option, none, some, All, arith,
}
use dpwire.Device.State.{State, Fault, document}
use dpwire.Device.Sessions.{take_fault, use_fault}
use dpwire.Emulator.Requests.{Request, Answer}
use dpwire.Emulator.Handlers.{Host, folder_by_id, get_file}
use dpwire.Emulator.Server.{route_documents, route, serve_request, serve_http, faulted, switch}
use dpwire.Emulator.Server.Gate.{IsUnchanged, unchanged, nonce-IsUnchanged}

module _ (s : State) where
  -- A case that changes no entry, if it is taken.
  abbrev Quiet : Bool × (Answer × State) → Type 0
  Quiet (b, answer) = b ≡ true → IsUnchanged s answer.1

  switch-IsUnchanged :
      (cases : List (Bool × (Answer × State))) (default' : Answer × State)
      → All Quiet cases
      → IsUnchanged s default'.1
      → IsUnchanged s (switch cases default').1
  unfolding switch
  switch-IsUnchanged [] default' hs h = h
  switch-IsUnchanged ((true, answer) ∷ cases) default' hs h = hs.0 refl
  switch-IsUnchanged ((false, answer) ∷ cases) default' hs h =
      switch-IsUnchanged cases default' hs.1 h

  either-IsUnchanged :
      (b : Bool) (x y : Answer × State)
      → IsUnchanged s x.1
      → IsUnchanged s y.1
      → IsUnchanged s (if b then x else y).1
  either-IsUnchanged true x y hx hy = hx
  either-IsUnchanged false x y hx hy = hy

  module _ (host : Host) (r : Request) (get : r.method ≡ codes "GET") where
    -- The case of another method is not taken.
    other_method :
        {A : Type 0} (name : Bytes) (here : Bool)
        → bytes_eq (codes "GET") name ≡ false
        → bytes_eq r.method name && here ≡ true
        → A
    other_method name here other taken =
        let differs : bytes_eq r.method name ≡ false = ap (λ m. bytes_eq m name) get ∙ other in
        ground (arith, differs, taken)

    get_file-IsUnchanged : (id : Bytes) → IsUnchanged s (get_file host r s id).1
    unfolding get_file
    get_file-IsUnchanged id =
        either-IsUnchanged
          (not (bytes_eq r.accept [])
            && (not (host.contains r.accept (codes "application/pdf"))
                && not (host.contains r.accept (codes "*/*"))))
          _ _ (unchanged s)
          (elim (Option-cases (document id s).0) [
            | inl e ↦ rw e (unchanged s)
            | inr (d, e) ↦ rw e (unchanged s)
          ])

    folder_by_id-IsUnchanged : (id : Bytes) → IsUnchanged s (folder_by_id host r s id).1
    unfolding folder_by_id bytes_eq
    folder_by_id-IsUnchanged id =
        let is_get : bytes_eq r.method (codes "GET") ≡ true =
          ap (λ m. bytes_eq m (codes "GET")) get in
        rw (folder_by_id, is_get) (unchanged s)

    route_documents-IsUnchanged : IsUnchanged s (route_documents host r s).1
    unfolding route_documents bytes_eq
    route_documents-IsUnchanged =
        switch-IsUnchanged _ _
          (
            (λ taken. unchanged s),
            (
              (λ taken. unchanged s),
              (
                other_method (codes "DELETE") _ refl,
                (
                  other_method (codes "DELETE") _ refl,
                  (
                    other_method (codes "PUT") _ refl,
                    (
                      (λ taken. unchanged s),
                      (
                        (λ taken. get_file-IsUnchanged _),
                        (
                          other_method (codes "PUT") _ refl,
                          (
                            other_method (codes "POST") _ refl,
                            (other_method (codes "PUT") _ refl, tt),
                          ),
                        ),
                      ),
                    ),
                  ),
                ),
              ),
            ),
          )
          (unchanged s)

    route-IsUnchanged : IsUnchanged s (route host r s).1
    unfolding route bytes_eq
    route-IsUnchanged =
        switch-IsUnchanged _ _
          (
            (λ taken. unchanged s),
            (
              (λ taken. unchanged s),
              (
                (λ taken. unchanged s),
                (
                  (λ taken. unchanged s),
                  (
                    (λ taken. unchanged s),
                    (
                      (λ taken. unchanged s),
                      (
                        other_method (codes "POST") _ refl,
                        (
                          (λ taken. folder_by_id-IsUnchanged _),
                          (other_method (codes "POST") _ refl, tt),
                        ),
                      ),
                    ),
                  ),
                ),
              ),
            ),
          )
          route_documents-IsUnchanged

    serve_request-IsUnchanged : IsUnchanged s (serve_request host r s).1
    unfolding serve_request bytes_eq
    serve_request-IsUnchanged =
        switch-IsUnchanged _ _
          (
            (λ taken. nonce-IsUnchanged host r s host.encode_url _),
            (
              other_method (codes "PUT") _ refl,
              ((λ taken. unchanged s), ((λ taken. unchanged s), tt)),
            ),
          )
          route-IsUnchanged

used-IsUnchanged :
    (taken : Option (Bytes × Fault)) (s : State) → IsUnchanged s (use_fault taken s).1
unfolding use_fault
used-IsUnchanged none s = unchanged s
used-IsUnchanged (some (matched, fault)) s = elim (Bool-cases fault.once) [
  | inl e ↦ rw e (record { documents = refl; folders = refl; contents = refl; next_id = refl })
  | inr e ↦ rw e (unchanged s)
]

faulted_get-IsUnchanged :
    (host : Host) (r : Request) (s : State) (taken : Option Fault × State)
    → r.method ≡ codes "GET"
    → IsUnchanged s taken.1
    → IsUnchanged s (faulted host r taken).1
faulted_get-IsUnchanged host r s (some fault, t) get same = same
faulted_get-IsUnchanged host r s (none, t) get same =
    let later = serve_request-IsUnchanged t host r get in
    record {
      documents = later.documents ∙ same.documents;
      folders = later.folders ∙ same.folders;
      contents = later.contents ∙ same.contents;
      next_id = later.next_id ∙ same.next_id;
    }

-- A GET request changes no entry and no content, and hands out no number: whatever its path, its parameters and
-- its cookies, and whatever fault is due.
pub serve_http_get-IsUnchanged :
    (host : Host) (r : Request) (s : State)
    → r.method ≡ codes "GET"
    → IsUnchanged s (serve_http host r s).1
unfolding serve_http take_fault
serve_http_get-IsUnchanged host r s get =
    faulted_get-IsUnchanged host r s
      (take_fault host.path_match (r.method ++ (codes " " ++ r.path)) s) get (used-IsUnchanged _ s)
