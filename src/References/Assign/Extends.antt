-- ===== src/References/Assign/Extends.antt =====
-- What Assign does to the ledger of numbers: numbers are kept, new ones were never used before, and
-- every entry has one in the end.
use dpwire.Prelude.{
  ℕ, zero, suc, ◌≤◌, ◌≡◌, inl, inr, sym, ap, ◌∙◌, true, not, ◌||◌, none, some, List, [], ◌∷◌, Bytes,
  bytes_eq, bytes_eq_iff, bytes_eq_refl, ◌==◌, All, Result, ok, err, arith, Bool-cases,
  Option-cases, Result-cases,
}
use dpwire.Prelude.Dict.{lookup}
use dpwire.Decimal.{max_uint64}
use dpwire.EntryType.{is_known}
use dpwire.References.File.{ReferenceRecord, ReferenceFile, ReferenceError, valid_device_id}
use dpwire.References.Assign.{
  Object, Work, start, record_at, set_type, retype, append_object, assign_one, assign_all,
  type_differs,
}
use dpwire.References.Ledger.{number_of, IsConsistent, number_of-concat}
use dpwire.References.Assign.Numbers.{
  Agrees, number_of-set_type, set_type-IsConsistent, concat-IsConsistent, append-Agrees,
  set_type-Agrees, start-Agrees,
}

pub record IsReady (w : Work) : Type 0 where
  pub consistent : IsConsistent w.state.next w.state.objects
  pub indexed : Agrees w.by_id w.state.objects

pub record Extends (a b : ReferenceFile) : Type 0 where
  pub keeps :
      (id : Bytes) (n : ℕ) → number_of id a.objects ≡ some n → number_of id b.objects ≡ some n
  pub fresh :
      (id : Bytes) (n : ℕ)
      → number_of id a.objects ≡ none
      → number_of id b.objects ≡ some n
      → a.next ≤ n
  pub grows : a.next ≤ b.next

abbrev pub Numbered : Bytes → ReferenceFile → Type 0
Numbered id file = (n : ℕ) × (number_of id file.objects ≡ some n)

pub Extends-refl : (a : ReferenceFile) → Extends a a
Extends-refl a = record { keeps = λ id n e. e; fresh = λ id n e f. cc (e, f); grows = omega arith }

pub Extends-trans : (a b c : ReferenceFile) → Extends a b → Extends b c → Extends a c
Extends-trans a b c h k = record {
  keeps = λ id n e. k.keeps id n (h.keeps id n e);
  fresh = λ id n e f. elim (Option-cases (number_of id b.objects)) [
    | inl absent ↦ omega (arith, k.fresh id n absent f, h.grows)
    | inr (m, there) ↦ ground (arith, h.fresh id m e there, k.keeps id m there, f)
  ];
  grows = omega (arith, h.grows, k.grows);
}

-- One round: the work stays ready, extends what was there, and numbers its entry.
abbrev Good : Object → Work → Result ReferenceError Work → Type 0
Good o w (err e) = Unit
Good o w (ok w') = IsReady w' × Extends w.state w'.state × Numbered o.id w'.state

append-Good :
    (o : Object) (w : Work)
    → valid_device_id o.id ≡ true
    → is_known o.type ≡ true
    → number_of o.id w.state.objects ≡ none
    → IsReady w
    → Good o w (ok (append_object o w))
unfolding append_object
append-Good o w v k absent h =
    let r : ReferenceRecord = record { number = w.state.next; device_id = o.id; type = o.type } in
    let reads = λ (id : Bytes). number_of-concat r id w.state.objects absent in
    (
      record {
        consistent =
            concat-IsConsistent w.state.next w.state.objects o.id o.type v k absent h.consistent;
        indexed = append-Agrees w.by_id w.state.objects r h.indexed;
      },
      record {
        keeps = λ id n e. ground (arith, reads id, bytes_eq_iff o.id id);
        fresh = λ id n e f. ground (arith, reads id, bytes_eq_iff o.id id);
        grows = omega arith;
      },
      (w.state.next, rw (number_of-concat r o.id w.state.objects absent, bytes_eq_refl o.id)),
    )

-- A record that is found has a number.
number_at :
    (rs : List ReferenceRecord) (i : ℕ) (r : ReferenceRecord)
    → record_at rs i ≡ some r
    → (n : ℕ) × (number_of r.device_id rs ≡ some n)
number_at [] i r e = cc
number_at (x ∷ rs) zero r e =
    (x.number, ground (arith, bytes_eq_iff x.device_id r.device_id, bytes_eq_refl x.device_id))
number_at (x ∷ rs) (suc i) r e =
    let (n, at) = number_at rs i r e in
    elim (Bool-cases (bytes_eq x.device_id r.device_id)) [
      | inl same ↦ (x.number, rw same)
      | inr other ↦ (n, rw other at)
    ]

set_type-Good :
    (o : Object) (w : Work) (i : ℕ)
    → is_known o.type ≡ true
    → Numbered o.id w.state
    → IsReady w
    → Good o w (
        ok (record w {
          state = record w.state { objects = set_type w.state.objects i o.type };
          changed = true;
        }))
set_type-Good o w i k numbered h =
    let same = λ (id : Bytes). number_of-set_type id w.state.objects i o.type in
    (
      record {
        consistent = set_type-IsConsistent w.state.next w.state.objects i o.type k h.consistent;
        indexed = set_type-Agrees w.by_id w.state.objects i o.type h.indexed;
      },
      record {
        keeps = λ id n e. same id ∙ e;
        fresh = λ id n e f. cc (same id, e, f);
        grows = omega arith;
      },
      (numbered.0, same o.id ∙ numbered.1),
    )

retype-Good :
    (o : Object) (w : Work) (i : ℕ)
    → is_known o.type ≡ true
    → Numbered o.id w.state
    → IsReady w
    → Good o w (ok (retype i o w))
unfolding retype
retype-Good o w i k numbered h =
    elim (Bool-cases (type_differs (record_at w.state.objects i) o.type)) [
      | inl differs ↦ rw (differs, retype) (set_type-Good o w i k numbered h)
      | inr same ↦ rw (same, retype) (h, Extends-refl w.state, numbered)
    ]

assign_one-Good : (o : Object) (w : Work) → IsReady w → Good o w (assign_one o w)
unfolding assign_one
assign_one-Good o w h = elim (Bool-cases (not (valid_device_id o.id) || not (is_known o.type))) [
  | inl bad ↦ rw (bad, assign_one) tt
  | inr good ↦ elim (Option-cases (lookup o.id w.by_id)) [
    | inr (i, e) ↦
        let (r, at, same) = rw e at (h.indexed o.id) in
        let (n, numbered) = number_at w.state.objects i r at in
        rw (good, e, assign_one)
          (retype-Good o w i (ground arith)
            (n, ap (λ id. number_of id w.state.objects) (sym same) ∙ numbered) h)
    | inl e ↦ elim (Bool-cases (w.state.next == max_uint64)) [
      | inl full ↦ rw (good, e, full, assign_one) tt
      | inr spare ↦
          rw (good, e, spare, assign_one)
            (append-Good o w (ground arith) (ground arith) (rw e at (h.indexed o.id)) h)
    ]
  ]
]

abbrev pub GoodAll : List Object → Work → Result ReferenceError Work → Type 0
GoodAll os w (err e) = Unit
GoodAll os w (ok w') = IsReady w' × Extends w.state w'.state × All (λ o. Numbered o.id w'.state) os

then_all :
    (o : Object) (os : List Object) (w w' : Work) (out : Result ReferenceError Work)
    → Good o w (ok w')
    → GoodAll os w' out
    → GoodAll (o ∷ os) w out
then_all o os w w' (err e) g h = tt
then_all o os w w' (ok w'') g h = (
  h.0,
  Extends-trans w.state w'.state w''.state g.1 h.1,
  ((g.2.0, h.1.keeps o.id g.2.0 g.2.1), h.2),
)

-- The loop of Assign on a consistent file, if it ends without an error: the file is consistent
-- again, an ID that had a number keeps it, an ID that had none gets a number that was never given
-- out, and every entry has a number.
pub assign_all-GoodAll : (os : List Object) (w : Work) → IsReady w → GoodAll os w (assign_all os w)
unfolding assign_all
assign_all-GoodAll [] w h = (h, Extends-refl w.state, tt)
assign_all-GoodAll (o ∷ os) w h = elim (Result-cases (assign_one o w)) [
  | inl (w', e) ↦
      let good = rw e at (assign_one-Good o w h) in
      rw (e, assign_all)
        (then_all o os w w' (assign_all os w') good (assign_all-GoodAll os w' good.0))
  | inr (x, e) ↦ rw (e, assign_all) tt
]

pub start-IsReady :
    (file : ReferenceFile) → IsConsistent file.next file.objects → IsReady (start file)
unfolding start
start-IsReady file h = record { consistent = h; indexed = start-Agrees file }
