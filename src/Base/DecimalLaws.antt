-- ===== src/Base/DecimalLaws.antt =====
-- Decimal texts can be read back, and hold digits only.
use mathlib.Core.WellFounded.{Acc}
use sub2api_account_schedule.Base.{
  ℕ, ◌+◌, ◌-◌, ◌*◌, ◌/◌, ◌%◌, ◌<◌, ◌≡◌, sym, ap, ◌∙◌, [], ◌∷◌, arith, Text, ◌==◌, if◌then◌else◌,
  All, Bool, true, false,
}
use sub2api_account_schedule.Base.Decimal.{lt_wf, push_digits, format_nat}

abbrev pub IsDigit : ℕ → Type 0
IsDigit c = c < 58

-- The value of a text of digits behind a number.
value_from : ℕ → Text → ℕ
value_from n [] = n
value_from n (c ∷ s) = value_from (n * 10 + (c - 48)) s

value_from_step :
    (n : ℕ) (out : Text) → value_from (n / 10) ((48 + n % 10) ∷ out) ≡ value_from n out
unfolding value_from
value_from_step n out = ap (λ k. value_from k out) (omega arith)

value_from-push_digits :
    (n : ℕ) (w : Acc ◌<◌ n) (out : Text) → value_from 0 (push_digits n w out) ≡ value_from n out
unfolding push_digits
value_from-push_digits n (Acc.intro _ smaller) out = grind (
  arith,
  value_from_step n out,
  λ (p : n / 10 < n). value_from-push_digits (n / 10) (smaller (n / 10) p) ((48 + n % 10) ∷ out),
)

push_digits-IsDigit :
    (n : ℕ) (w : Acc ◌<◌ n) (out : Text) → All IsDigit out → All IsDigit (push_digits n w out)
unfolding push_digits
push_digits-IsDigit n (Acc.intro _ smaller) out h = grind (
  arith,
  λ (p : n / 10 < n).
      push_digits-IsDigit (n / 10) (smaller (n / 10) p) ((48 + n % 10) ∷ out) (omega arith, h),
)

pub format_nat-IsDigit : (n : ℕ) → All IsDigit (format_nat n)
unfolding format_nat
format_nat-IsDigit n = go (n == 0)
  where
    go : (t : Bool) → All IsDigit (if t then b'0' ∷ [] else push_digits n (lt_wf.apply n) [])
    go true = (omega arith, tt)
    go false = push_digits-IsDigit n (lt_wf.apply n) [] tt

value_from-format_nat : (n : ℕ) → value_from 0 (format_nat n) ≡ n
unfolding format_nat value_from
value_from-format_nat n = ground (arith, value_from-push_digits n (lt_wf.apply n) [])

pub format_nat-injective : (n m : ℕ) → format_nat n ≡ format_nat m → n ≡ m
format_nat-injective n m e =
    sym (value_from-format_nat n) ∙ ap (value_from 0) e ∙ value_from-format_nat m
