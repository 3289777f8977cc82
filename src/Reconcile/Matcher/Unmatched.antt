-- ===== src/Reconcile/Matcher/Unmatched.antt =====
-- internal/reconcile/matcher.go: which monitors are left over.
use sub2api_account_schedule.Base.{
  ◌≡◌, refl, sym, ap, ◌∙◌, Bool, true, false, not, ◌&&◌, Option, List, [], ◌∷◌, any, keep, arith,
  ◌||◌, ◌++◌, ap₂, Text, none, some, is_blank, trim, if◌then◌else◌,
}
use sub2api_account_schedule.Base.SortLaws.{any-sort}
use sub2api_account_schedule.Base.Int.{ℤ, eq_ℤ, ltb_ℤ, eq_ℤ→eq}
use sub2api_account_schedule.Reconcile.Matcher.{
  UrlLibrary, Monitor, Account, Policy, ResolvedBinding, Resolution, Turn, policy_of, monitor_by_id,
  normalize_endpoint, provider_compatible, candidates, resolve_manual, resolve_auto, resolve_choice,
  resolve_keyed, resolve_account, resolve_all, resolve_bindings,
}

abbrev pub has_id : ℤ → Monitor → Bool
has_id id m = eq_ℤ m.id id

one_more :
    (p : ℤ → Bool) (id : ℤ) (m : Monitor) (l : List Monitor) (b : Bool)
    → eq_ℤ m.id id ≡ b
    → (c : Bool) → p m.id ≡ c
    → any (has_id id) (keep (λ n. p n.id) l) ≡ (any (has_id id) l && p id)
    → any (has_id id) (keep (λ n. p n.id) (m ∷ l)) ≡ (any (has_id id) (m ∷ l) && p id)
one_more p id m l true e c f h = ground (arith, e, f, ap p (eq_ℤ→eq m.id id e), h)
one_more p id m l false e c f h = ground (arith, e, f, h)

-- What a test on the ID keeps.
any-keep :
    (p : ℤ → Bool) (id : ℤ) (l : List Monitor)
    → any (has_id id) (keep (λ m. p m.id) l) ≡ (any (has_id id) l && p id)
any-keep p id [] = refl
any-keep p id (m ∷ l) = one_more p id m l (eq_ℤ m.id id) refl (p m.id) refl (any-keep p id l)

-- A binding has a monitor with this ID.
abbrev pub is_bound_to : ℤ → ResolvedBinding → Bool
is_bound_to id b = elim b.monitor [ none ↦ false | some m ↦ eq_ℤ id m.id ]

any-append {ℓ} :
    {A : Type ℓ} (p : A → Bool) (xs ys : List A) → any p (xs ++ ys) ≡ (any p xs || any p ys)
any-append p [] ys = refl
any-append p (x ∷ xs) ys = ground (arith, any-append p xs ys)

module _ (go : UrlLibrary) (monitors : List Monitor) (policies : ℤ → Option Policy) (id : ℤ) where
  -- The ID is marked exactly if the binding of this turn has it.
  abbrev Marks : Turn → Type 0
  Marks t = any (eq_ℤ id) t.1 ≡ is_bound_to id t.0

  if-Marks : (b : Bool) (r s : Turn) → Marks r → Marks s → Marks (if b then r else s)
  if-Marks true r s h k = h
  if-Marks false r s h k = k

  manual-Marks :
      (a : Account) (p : Policy) (key : Text) (o : Option Monitor)
      → Marks (resolve_manual go a p key o)
  manual-Marks a p key none = refl
  manual-Marks a p key (some m) =
      if-Marks (provider_compatible go m.provider a.platform) _ _ (ground arith) refl

  auto-Marks :
      (a : Account) (p : Policy) (key : Text) (l : List Monitor) → Marks (resolve_auto go a p key l)
  auto-Marks a p key [] = refl
  auto-Marks a p key (m ∷ []) = ground arith
  auto-Marks a p key (m ∷ n ∷ l) = refl

  choice-Marks :
      (a : Account) (p : Policy) (key : Text) (o : Option ℤ)
      → Marks (resolve_choice go monitors a p key o)
  choice-Marks a p key (some i) = manual-Marks a p key (monitor_by_id i monitors)
  choice-Marks a p key none = auto-Marks a p key (candidates go monitors a.platform key)

  keyed-Marks :
      (a : Account) (p : Policy) (o : Option Text) → Marks (resolve_keyed go monitors a p o)
  keyed-Marks a p none = refl
  keyed-Marks a p (some key) =
      if-Marks (p.excluded || not p.enabled) _ _ refl (choice-Marks a p key p.monitor_id)

  account-Marks : (a : Account) → Marks (resolve_account go monitors policies a)
  unfolding resolve_account
  account-Marks a =
      keyed-Marks a (policy_of policies a.id) (normalize_endpoint go (trim a.base_url))

  -- Over all accounts, the marked IDs are those of the bindings.
  marked :
      (l : List Account)
      → let r = resolve_all go monitors policies l in any (eq_ℤ id) r.1 ≡ any (is_bound_to id) r.0
  unfolding resolve_all
  marked [] = refl
  marked (a ∷ l) =
      let rest = resolve_all go monitors policies l in
      let r = resolve_account go monitors policies a in
      by (is_blank a.base_url) rest r (account-Marks a) (marked l)
    where
      by :
          (b : Bool) (rest : Resolution) (r : Turn)
          → Marks r
          → any (eq_ℤ id) rest.1 ≡ any (is_bound_to id) rest.0
          → let t : Resolution = if b then rest else (r.0 ∷ rest.0, r.1 ++ rest.1, r.2 ++ rest.2) in
            any (eq_ℤ id) t.1 ≡ any (is_bound_to id) t.0
      by true rest r h k = k
      by false rest r h k = any-append (eq_ℤ id) r.1 rest.1 ∙ ap₂ (λ b c. b || c) h k

module _ (go : UrlLibrary) (monitors : List Monitor) (policies : ℤ → Option Policy) where
  -- A monitor's ID is among the unmatched monitors exactly if it is among the monitors and no
  -- binding, neither one that a policy names nor one that an endpoint finds, has a monitor with this
  -- ID.
  pub unmatched_are_unused :
      (accounts : List Account) (id : ℤ)
      → let r = resolve_bindings go monitors accounts policies in
        any (has_id id) r.1.0 ≡ (any (has_id id) monitors && not (any (is_bound_to id) r.0))
  unfolding resolve_bindings
  unmatched_are_unused accounts id =
      let all = resolve_all go monitors policies accounts in
      any-sort (λ m n. ltb_ℤ m.id n.id) (has_id id)
        (keep (λ m. not (any (eq_ℤ m.id) all.1)) monitors)
      ∙ any-keep (λ i. not (any (eq_ℤ i) all.1)) id monitors
      ∙ ap (λ b. any (has_id id) monitors && not b)
          (marked go monitors policies id accounts
            ∙ sym (any-sort (λ b c. ltb_ℤ b.account.id c.account.id) (is_bound_to id) all.0))
