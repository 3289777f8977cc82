-- ===== src/Health/Floats.antt =====
-- Go's float64, with the operations that internal/health uses: an interface, since its values are
-- rounded by the machine.
use sub2api_account_schedule.Base.{ℕ, Bool}
use sub2api_account_schedule.Base.Int.{ℤ, pos}

pub record Floats : Type 1 where
  pub Float : Type 0
  pub of_int : ℤ → Float
  pub add : Float → Float → Float
  pub subtract : Float → Float → Float
  pub multiply : Float → Float → Float
  pub divide : Float → Float → Float
  pub at_most : Float → Float → Bool
  pub below : Float → Float → Bool
  pub max : Float → Float → Float
  pub min : Float → Float → Float

module _ (f : Floats) where
  abbrev pub lit : ℕ → f.Float
  lit n = f.of_int (pos n)

  -- `float64(part) / float64(whole) * 100`
  abbrev pub percent : ℕ → ℕ → f.Float
  percent part whole = f.multiply (f.divide (lit part) (lit whole)) (lit 100)
