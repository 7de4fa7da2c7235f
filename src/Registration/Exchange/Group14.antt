-- ===== src/Registration/Exchange/Group14.antt =====
-- The group of internal/wire/registration/crypto.go.
use dpwire.Prelude.{◌-◌, ◌/◌, refl, sym, ◌∙◌, arith}
use dpwire.Crypto.Squares.{by_squares, by_squares-exp_mod}
use dpwire.Registration.Exchange.{group14_prime}
use dpwire.Registration.Exchange.Agreement.{IsGroup}

-- The prime of the code fits 256 bytes, its half is odd, and 2 to the power of its half is 1.
pub group14-IsGroup : IsGroup group14_prime
unfolding by_squares
group14-IsGroup = record {
  large = omega arith;
  fits = omega arith;
  odd_half = refl;
  order =
      sym (
        by_squares-exp_mod 2047 2 ((group14_prime - 1) / 2) group14_prime (omega arith)
          (omega arith))
      ∙ refl;
}
