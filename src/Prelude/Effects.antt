-- ===== src/Prelude/Effects.antt =====
-- Calls on a state `W` that may fail: state passing for everything outside a component.
use mathlib.Core.Path.{◌≡◌, refl, ap}
use native.Mathlib.Omega.{arith}
use dpwire.Prelude.Fallible.{Result, ok, err}

abbrev pub Effect : Type 0 → Type 0 → Type 0 → Type 0
Effect E W A = W → Result E A × W

abbrev pub after : {E W A B : Type 0} → Result E A × W → (A → Effect E W B) → Result E B × W
after (ok a, later) f = f a later
after (err e, later) f = (err e, later)

-- `v, err := m(); if err != nil { return err }; …`
infixl 5 ◌>>>=◌
abbrev pub ◌>>>=◌ : {E W A B : Type 0} → Effect E W A → (A → Effect E W B) → Effect E W B
(m >>>= f) w = after (m w) f

-- A call that has returned a value: so has each of its two halves.
after_ok :
    {E W A B : Type 0} (r : Result E A × W) (f : A → Effect E W B) (b : B) (end : W)
    → after r f ≡ (ok b, end)
    → (a : A) × ((later : W) × ((r ≡ (ok a, later)) × (f a later ≡ (ok b, end))))
after_ok (ok a, later) f b end h = (a, (later, (refl, h)))
after_ok {E = E} {B = B} (err e, later) f b end h =
    let bad : ◌≡◌ {A = Result E B} (err e) (ok b) = ap (λ r. r.0) h in ground arith

pub effect_ok :
    {E W A B : Type 0} (m : Effect E W A) (f : A → Effect E W B) (w : W) (b : B) (end : W)
    → (m >>>= f) w ≡ (ok b, end)
    → (a : A) × ((later : W) × ((m w ≡ (ok a, later)) × (f a later ≡ (ok b, end))))
effect_ok m f w b end h = after_ok (m w) f b end h
