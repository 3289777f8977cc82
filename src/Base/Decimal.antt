-- ===== src/Base/Decimal.antt =====
-- strconv.Itoa and strconv.FormatInt in base ten.
use mathlib.Core.Logic.{dite}
use mathlib.Core.WellFounded.{Acc, WellFounded}
use sub2api_account_schedule.Base.{
  ℕ, zero, suc, ◌+◌, ◌/◌, ◌%◌, ◌<◌, ◌≡◌, refl, [], ◌∷◌, arith, Text, codes, ◌==◌, if◌then◌else◌,
  dec_lt,
}
use sub2api_account_schedule.Base.Int.{ℤ, pos, negsuc}

Acc-below : (k n : ℕ) → n < k → Acc ◌<◌ n
Acc-below zero n h = absurd (omega arith)
Acc-below (suc k) n h = Acc.intro n (λ m hm. Acc-below k m (omega arith))

unfoldable pub lt_wf : WellFounded ◌<◌
unfolding Acc-below
lt_wf = record { apply = λ n. Acc-below (suc n) n (omega arith) }

tenth-lt : {n : ℕ} → 0 < n → n / 10 < n
tenth-lt h = omega arith

-- The digits of a number in front of a text; no digit for 0.
unfoldable pub push_digits : (n : ℕ) → Acc ◌<◌ n → Text → Text
unfolding tenth-lt dec_lt
push_digits n (Acc.intro _ smaller) out =
    dite (dec_lt 0 n)
      (λ h. push_digits (n / 10) (smaller (n / 10) (tenth-lt h)) ((b'0' + n % 10) ∷ out)) (λ _. out)

unfoldable pub format_nat : ℕ → Text
unfolding push_digits lt_wf
format_nat n = if n == 0 then b'0' ∷ [] else push_digits n (lt_wf.apply n) []

unfoldable pub format_int : ℤ → Text
unfolding format_nat
format_int (pos n) = format_nat n
format_int (negsuc n) = b'-' ∷ format_nat (suc n)

format_int_run : format_int (negsuc 1204) ≡ codes "-1205"
unfolding format_int
format_int_run = refl
