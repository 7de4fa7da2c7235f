-- ===== src/References/Assign/Untouched.antt =====
-- What the loop of Assign has left alone when it records no change.
use dpwire.Prelude.{
  ℕ, ◌≡◌, refl, ◌∙◌, inl, inr, false, not, ◌||◌, List, [], ◌∷◌, ◌==◌, Result, ok, err, arith,
  Bool-cases, Option-cases, Result-cases,
}
use dpwire.Prelude.Dict.{lookup}
use dpwire.Decimal.{max_uint64}
use dpwire.EntryType.{is_known}
use dpwire.References.File.{ReferenceError, valid_device_id}
use dpwire.References.Assign.{
  Object, Work, record_at, type_differs, retype, append_object, assign_one, assign_all,
}

-- Where the flag is not set in the end, it was not set before, and the file is the same.
abbrev pub Untouched : Work → Result ReferenceError Work → Type 0
Untouched w (err e) = Unit
Untouched w (ok w') = w'.changed ≡ false → (w.changed ≡ false) × (w'.state ≡ w.state)

retype-Untouched : (o : Object) (w : Work) (i : ℕ) → Untouched w (ok (retype i o w))
unfolding retype
retype-Untouched o w i = elim (Bool-cases (type_differs (record_at w.state.objects i) o.type)) [
  | inl differs ↦ rw (differs, retype) (λ h. ground arith)
  | inr same ↦ rw (same, retype) (λ h. (h, refl))
]

append-Untouched : (o : Object) (w : Work) → Untouched w (ok (append_object o w))
unfolding append_object
append-Untouched o w h = ground arith

assign_one-Untouched : (o : Object) (w : Work) → Untouched w (assign_one o w)
unfolding assign_one
assign_one-Untouched o w = elim (Bool-cases (not (valid_device_id o.id) || not (is_known o.type))) [
  | inl bad ↦ rw (bad, assign_one) tt
  | inr good ↦ elim (Option-cases (lookup o.id w.by_id)) [
    | inr (i, e) ↦ rw (good, e, assign_one) (retype-Untouched o w i)
    | inl e ↦ elim (Bool-cases (w.state.next == max_uint64)) [
      | inl full ↦ rw (good, e, full, assign_one) tt
      | inr spare ↦ rw (good, e, spare, assign_one) (append-Untouched o w)
    ]
  ]
]

then-Untouched :
    (w w' : Work) (out : Result ReferenceError Work)
    → Untouched w (ok w')
    → Untouched w' out
    → Untouched w out
then-Untouched w w' (err e) g h = tt
then-Untouched w w' (ok w'') g h =
    λ idle. let late = h idle in let early = g late.0 in (early.0, late.1 ∙ early.1)

pub assign_all-Untouched : (os : List Object) (w : Work) → Untouched w (assign_all os w)
unfolding assign_all
assign_all-Untouched [] w = λ h. (h, refl)
assign_all-Untouched (o ∷ os) w = elim (Result-cases (assign_one o w)) [
  | inl (w', e) ↦
      let one = rw e at (assign_one-Untouched o w) in
      rw (e, assign_all) (then-Untouched w w' (assign_all os w') one (assign_all-Untouched os w'))
  | inr (x, e) ↦ rw (e, assign_all) tt
]
