-- ===== src/Base/TextLaws.antt =====
-- Equality and order of texts, and trimming.
use sub2api_account_schedule.Base.{◌≡◌, refl, true, false, [], ◌∷◌, arith, Text, text_eq, text_lt}

pub text_eq→eq : (s t : Text) → text_eq s t ≡ true → s ≡ t
unfolding text_eq
text_eq→eq [] [] h = refl
text_eq→eq [] (d ∷ t) h = cc
text_eq→eq (c ∷ s) [] h = cc
text_eq→eq (c ∷ s) (d ∷ t) h = ground (arith, text_eq→eq s t)

pub text_eq_self : (s : Text) → text_eq s s ≡ true
unfolding text_eq
text_eq_self [] = refl
text_eq_self (c ∷ s) = ground (arith, text_eq_self s)

pub text_lt_irrefl : (s : Text) → text_lt s s ≡ false
unfolding text_lt
text_lt_irrefl [] = refl
text_lt_irrefl (c ∷ s) = ground (arith, text_lt_irrefl s)

pub text_lt-asymm : (s t : Text) → text_lt s t ≡ true → text_lt t s ≡ false
unfolding text_lt
text_lt-asymm [] [] h = refl
text_lt-asymm [] (d ∷ t) h = refl
text_lt-asymm (c ∷ s) [] h = cc
text_lt-asymm (c ∷ s) (d ∷ t) h = ground (arith, text_lt-asymm s t)

pub text_lt_trans : (s t u : Text) → text_lt s t ≡ true → text_lt t u ≡ true → text_lt s u ≡ true
unfolding text_lt
text_lt_trans [] [] u h k = cc
text_lt_trans [] (d ∷ t) [] h k = cc
text_lt_trans [] (d ∷ t) (e ∷ u) h k = refl
text_lt_trans (c ∷ s) [] u h k = cc
text_lt_trans (c ∷ s) (d ∷ t) [] h k = cc
text_lt_trans (c ∷ s) (d ∷ t) (e ∷ u) h k = ground (arith, text_lt_trans s t u)

-- Two texts of which neither is before the other are equal.
pub text_lt-total : (s t : Text) → text_lt s t ≡ false → text_lt t s ≡ false → s ≡ t
unfolding text_lt
text_lt-total [] [] h k = refl
text_lt-total [] (d ∷ t) h k = cc
text_lt-total (c ∷ s) [] h k = cc
text_lt-total (c ∷ s) (d ∷ t) h k = ground (arith, text_lt-total s t)

-- Not being before is transitive.
pub text_lt-negtrans :
    (s t u : Text) → text_lt s t ≡ false → text_lt t u ≡ false → text_lt s u ≡ false
unfolding text_lt
text_lt-negtrans [] [] u h k = k
text_lt-negtrans [] (d ∷ t) u h k = cc
text_lt-negtrans (c ∷ s) [] [] h k = refl
text_lt-negtrans (c ∷ s) [] (e ∷ u) h k = cc
text_lt-negtrans (c ∷ s) (d ∷ t) [] h k = refl
text_lt-negtrans (c ∷ s) (d ∷ t) (e ∷ u) h k = ground (arith, text_lt-negtrans s t u)
