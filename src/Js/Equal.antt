-- ===== src/Js/Equal.antt =====
-- `===` as an equation.
use bimo.Base.{true, false, String, ◌≡◌, ap, eq_iff, ==_iff, ℕ, refl}
use bimo.Js.Values.{
  Value, undefined, null, bool, nat, neg, real, str, strict_equal, is_text, is_nat,
}

pub strict_equal-eq : (v w : Value) → strict_equal v w ≡ true → v ≡ w
unfolding strict_equal
strict_equal-eq undefined undefined h = refl
strict_equal-eq null null h = refl
strict_equal-eq (bool true) (bool true) h = refl
strict_equal-eq (bool false) (bool false) h = refl
strict_equal-eq (nat m) (nat n) h = ap nat ((==_iff m n).0 h)
strict_equal-eq (neg m) (neg n) h = ap neg ((==_iff m n).0 h)
strict_equal-eq (real s) (real t) h = ap real ((eq_iff s t).0 h)
strict_equal-eq (str s) (str t) h = ap str ((eq_iff s t).0 h)
strict_equal-eq _ _ h = cc

pub is_text-eq : (v : Value) (t : String) → is_text v t ≡ true → v ≡ str t
is_text-eq (str s) t h = ap str ((eq_iff s t).0 h)
is_text-eq _ t h = cc

pub is_nat-eq : (v : Value) (n : ℕ) → is_nat v n ≡ true → v ≡ nat n
is_nat-eq (nat m) n h = ap nat ((==_iff m n).0 h)
is_nat-eq _ n h = cc
