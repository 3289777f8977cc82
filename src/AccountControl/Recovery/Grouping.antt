-- ===== src/AccountControl/Recovery/Grouping.antt =====
-- internal/accountcontrol/recovery.go: what a worker of the recovery is given.
use mathlib.Core.List.{append_assoc, append-nil}
use sub2api_account_schedule.Base.{
  ℕ, suc, ◌≡◌, ◌≤◌, sym, ap, ◌∙◌, Bool, true, false, List, [], ◌∷◌, ◌++◌, keep, if◌then◌else◌,
  arith,
}
use sub2api_account_schedule.Base.Int.{ℤ, eq_ℤ, eq_ℤ→eq}
use sub2api_account_schedule.AccountControl.Records.{Mutation}
use sub2api_account_schedule.AccountControl.Recovery.{
  Batch, add_to_batch, group_from, group_recovery_items,
}

-- The mutations of the first batch of an account, and how many batches it has.
abbrev pub batch_of : ℤ → List Batch → List Mutation
batch_of a [] = []
batch_of a ((b, l) ∷ batches) = let rest = batch_of a batches in if eq_ℤ b a then l else rest

abbrev pub batch_count : ℤ → List Batch → ℕ
batch_count a [] = 0
batch_count a ((b, l) ∷ batches) =
    let rest = batch_count a batches in if eq_ℤ b a then suc rest else rest

abbrev pub is_of : ℤ → Mutation → Bool
is_of a m = eq_ℤ m.account_id a

module _ (a : ℤ) where
  batch_of-add_to_batch :
      (m : Mutation) (l : List Batch)
      → batch_of a (add_to_batch m l)
        ≡ (if is_of a m then batch_of a l ++ (m ∷ []) else batch_of a l)
  unfolding add_to_batch
  batch_of-add_to_batch m [] = ground arith
  batch_of-add_to_batch m ((b, k) ∷ l) = ground (
    arith,
    batch_of-add_to_batch m l,
    eq_ℤ→eq b m.account_id,
    eq_ℤ→eq b a,
    eq_ℤ→eq m.account_id a,
  )

  batch_count_grows :
      (m : Mutation) (l : List Batch)
      → batch_count a (add_to_batch m l)
        ≤ (if is_of a m then suc (batch_count a l) else batch_count a l)
  unfolding add_to_batch
  batch_count_grows m [] = ground arith
  batch_count_grows m ((b, k) ∷ l) =
      ground
        (arith, batch_count_grows m l, eq_ℤ→eq b m.account_id, eq_ℤ→eq b a, eq_ℤ→eq m.account_id a)

  batch_count_once :
      (m : Mutation) (l : List Batch) → batch_count a l ≤ 1 → batch_count a (add_to_batch m l) ≤ 1
  unfolding add_to_batch
  batch_count_once m [] h = ground arith
  batch_count_once m ((b, k) ∷ l) h = ground (
    arith,
    batch_count_once m l,
    batch_count_grows m l,
    eq_ℤ→eq b m.account_id,
    eq_ℤ→eq b a,
    eq_ℤ→eq m.account_id a,
    h,
  )

  step_order :
      (m : Mutation) (l : List Mutation) (before after : List Mutation)
      → after ≡ (if is_of a m then before ++ (m ∷ []) else before)
      → after ++ keep (is_of a) l ≡ before ++ keep (is_of a) (m ∷ l)
  step_order m l before after h = by (eq_ℤ m.account_id a) h
    where
      by :
          (b : Bool)
          → after ≡ (if b then before ++ (m ∷ []) else before)
          → after ++ keep (is_of a) l
            ≡ before ++ (elim b [ true ↦ m ∷ keep (is_of a) l | false ↦ keep (is_of a) l ])
      by true e =
          ap (λ x. x ++ keep (is_of a) l) e ∙ append_assoc before (m ∷ []) (keep (is_of a) l)
      by false e = ap (λ x. x ++ keep (is_of a) l) e

  group_from_keeps :
      (l : List Mutation) (batches : List Batch)
      → batch_count a batches ≤ 1
      → (batch_of a (group_from l batches) ≡ batch_of a batches ++ keep (is_of a) l)
        × (batch_count a (group_from l batches) ≤ 1)
  unfolding group_from
  group_from_keeps [] batches h = (sym (append-nil (batch_of a batches)), h)
  group_from_keeps (m ∷ l) batches h =
      let rest = group_from_keeps l (add_to_batch m batches) (batch_count_once m batches h) in
      (
        rest.0
            ∙ step_order m l (batch_of a batches) (batch_of a (add_to_batch m batches))
                (batch_of-add_to_batch m batches),
        rest.1,
      )

  -- Each account has at most one batch, and it holds exactly the account's mutations in the order
  -- in which they were given.
  pub group_keeps_order :
      (items : List Mutation)
      → (batch_of a (group_recovery_items items) ≡ keep (is_of a) items)
        × (batch_count a (group_recovery_items items) ≤ 1)
  unfolding group_recovery_items
  group_keeps_order items = group_from_keeps items [] (ground arith)
