-- ===== src/Reconcile/Matcher/Sound.antt =====
-- internal/reconcile/matcher.go: why an account is bound to a monitor.
use sub2api_account_schedule.Base.{
  ◌≡◌, refl, ap, ◌∙◌, ◌⊎◌, inl, inr, ◌++◌, codes, text_eq, Bool, true, false, not, ◌||◌, Option,
  none, some, List, [], ◌∷◌, Text, All, trim, is_blank, if◌then◌else◌,
}
use sub2api_account_schedule.Base.SortLaws.{sort-All}
use sub2api_account_schedule.Base.Int.{ℤ, ltb_ℤ}
use sub2api_account_schedule.Base.TextLaws.{text_eq→eq, text_eq_self}
use sub2api_account_schedule.Reconcile.Matcher.{
  BindingState, bound, UrlLibrary, Monitor, Account, Policy, bound, ResolvedBinding, Resolution,
  Turn, default_policy, has_key, policy_of, monitor_by_id, normalize_endpoint, provider_compatible,
  candidates, resolve_manual, resolve_auto, resolve_choice, resolve_keyed, resolve_account,
  resolve_all, resolve_bindings,
}
use sub2api_account_schedule.Reconcile.Matcher.Unique.{
  IsOnly, IsLast, Decides, keep-IsOnly, HasId, monitor_by_id-IsLast,
}

abbrev pub is_bound : BindingState → Bool
is_bound bound = true
is_bound _ = false

-- The policy of a binding is the one that is given for its account, or the default without one.
abbrev pub HasPolicy : (ℤ → Option Policy) → ResolvedBinding → Type 0
HasPolicy policies b =
    (policies b.account.id ≡ some b.policy)
    ⊎ ((policies b.account.id ≡ none) × (b.policy ≡ default_policy))

if-Turn :
    (P : ResolvedBinding → Type 0) (b : Bool) (r s : Turn)
    → (b ≡ true → P r.0)
    → (b ≡ false → P s.0)
    → P (if b then r else s).0
if-Turn P true r s h k = h refl
if-Turn P false r s h k = k refl

module _ (go : UrlLibrary) (monitors : List Monitor) where
  -- A monitor's provider and normalised endpoint make up the account's key.
  abbrev pub HasKey : Text → Text → Monitor → Type 0
  HasKey platform key m =
      (e : Text) × (normalize_endpoint go m.endpoint ≡ some e)
      × (m.provider ++ (codes "|" ++ e) ≡ platform ++ (codes "|" ++ key))

  has_key-Decides :
      (platform key : Text)
      → Decides (has_key go (platform ++ (codes "|" ++ key))) (HasKey platform key)
  has_key-Decides platform key m = (
    to (normalize_endpoint go m.endpoint),
    λ h. from (normalize_endpoint go m.endpoint) h.0 h.1 h.2,
  )
    where
      same_text : (t e : Text) → some t ≡ some e → t ≡ e
      same_text t e h = cc

      from :
          (o : Option Text) (e : Text)
          → o ≡ some e
          → m.provider ++ (codes "|" ++ e) ≡ platform ++ (codes "|" ++ key)
          → (elim o [
            | none ↦ false
            | some t ↦ text_eq (m.provider ++ (codes "|" ++ t)) (platform ++ (codes "|" ++ key))
          ])
            ≡ true
      from none e h k = cc
      from (some t) e h k =
          ap (λ u. text_eq (m.provider ++ (codes "|" ++ u)) (platform ++ (codes "|" ++ key)))
            (same_text t e h)
          ∙ ap (λ u. text_eq u (platform ++ (codes "|" ++ key))) k
          ∙ text_eq_self (platform ++ (codes "|" ++ key))

      to :
          (o : Option Text)
          → (elim o [
            | none ↦ false
            | some e ↦ text_eq (m.provider ++ (codes "|" ++ e)) (platform ++ (codes "|" ++ key))
          ])
            ≡ true
          → (e : Text) × (o ≡ some e)
            × (m.provider ++ (codes "|" ++ e) ≡ platform ++ (codes "|" ++ key))
      to none h = cc
      to (some e) h = (e, refl, text_eq→eq _ _ h)

  candidates-IsOnly :
      (platform key : Text) (m : Monitor)
      → candidates go monitors platform key ≡ m ∷ []
      → IsOnly (HasKey platform key) m monitors
  unfolding candidates
  candidates-IsOnly platform key m e =
      keep-IsOnly (has_key go (platform ++ (codes "|" ++ key))) (HasKey platform key)
        (has_key-Decides platform key) monitors m e

  -- Why a binding is as it is: it has no monitor, or the one that its policy names, or the only one
  -- with its platform and its endpoint.
  pub data Sound (b : ResolvedBinding) : Type 0 where
    without : b.monitor ≡ none → is_bound b.state ≡ false → Sound b
    by_policy :
        (m : Monitor) (id : ℤ)
        → b.monitor ≡ some m
        → b.state ≡ bound
        → (b.policy.excluded || not b.policy.enabled) ≡ false
        → b.policy.monitor_id ≡ some id
        → IsLast (HasId id) m monitors
        → provider_compatible go m.provider b.account.platform ≡ true
        → Sound b
    by_endpoint :
        (m : Monitor)
        → b.monitor ≡ some m
        → b.state ≡ bound
        → (b.policy.excluded || not b.policy.enabled) ≡ false
        → b.policy.monitor_id ≡ none
        → normalize_endpoint go (trim b.account.base_url) ≡ some b.normalized_endpoint
        → IsOnly (HasKey b.account.platform b.normalized_endpoint) m monitors
        → Sound b

  module _ (a : Account) (p : Policy) (key : Text) (active : (p.excluded || not p.enabled) ≡ false)
      (endpoint : normalize_endpoint go (trim a.base_url) ≡ some key) where
    manual-Sound :
        (id : ℤ) (o : Option Monitor)
        → p.monitor_id ≡ some id
        → monitor_by_id id monitors ≡ o
        → Sound (resolve_manual go a p key o).0
    manual-Sound id none h e = without refl refl
    manual-Sound id (some m) h e =
        if-Turn Sound (provider_compatible go m.provider a.platform) _ _
          (λ c. by_policy m id refl refl active h (monitor_by_id-IsLast id monitors m e) c)
          (λ c. without refl refl)

    auto-Sound :
        (l : List Monitor)
        → p.monitor_id ≡ none
        → candidates go monitors a.platform key ≡ l
        → Sound (resolve_auto go a p key l).0
    auto-Sound [] h e = without refl refl
    auto-Sound (m ∷ []) h e =
        by_endpoint m refl refl active h endpoint (candidates-IsOnly a.platform key m e)
    auto-Sound (m ∷ n ∷ l) h e = without refl refl

    choice-Sound :
        (o : Option ℤ) → p.monitor_id ≡ o → Sound (resolve_choice go monitors a p key o).0
    choice-Sound (some id) h = manual-Sound id (monitor_by_id id monitors) h refl
    choice-Sound none h = auto-Sound (candidates go monitors a.platform key) h refl

  keyed-Sound :
      (a : Account) (p : Policy) (o : Option Text)
      → normalize_endpoint go (trim a.base_url) ≡ o
      → Sound (resolve_keyed go monitors a p o).0
  keyed-Sound a p none e = without refl refl
  keyed-Sound a p (some key) e =
      if-Turn Sound (p.excluded || not p.enabled) _ _ (λ c. without refl refl)
        (λ c. choice-Sound a p key c e p.monitor_id refl)

  module _ (policies : ℤ → Option Policy) where
    policy_of-HasPolicy :
        (a : Account) (o : Option Policy)
        → policies a.id ≡ o
        → let p : Policy = elim o [ some q ↦ q | none ↦ default_policy ] in
          (policies a.id ≡ some p) ⊎ ((policies a.id ≡ none) × (p ≡ default_policy))
    policy_of-HasPolicy a (some q) e = inl e
    policy_of-HasPolicy a none e = inr (e, refl)

    manual-HasPolicy :
        (a : Account) (p : Policy) (key : Text) (o : Option Monitor)
        → (policies a.id ≡ some p) ⊎ ((policies a.id ≡ none) × (p ≡ default_policy))
        → HasPolicy policies (resolve_manual go a p key o).0
    manual-HasPolicy a p key none h = h
    manual-HasPolicy a p key (some m) h =
        if-Turn (HasPolicy policies) (provider_compatible go m.provider a.platform) _ _ (λ c. h)
          (λ c. h)

    auto-HasPolicy :
        (a : Account) (p : Policy) (key : Text) (l : List Monitor)
        → (policies a.id ≡ some p) ⊎ ((policies a.id ≡ none) × (p ≡ default_policy))
        → HasPolicy policies (resolve_auto go a p key l).0
    auto-HasPolicy a p key [] h = h
    auto-HasPolicy a p key (m ∷ []) h = h
    auto-HasPolicy a p key (m ∷ n ∷ l) h = h

    keyed-HasPolicy :
        (a : Account) (p : Policy) (o : Option Text)
        → (policies a.id ≡ some p) ⊎ ((policies a.id ≡ none) × (p ≡ default_policy))
        → HasPolicy policies (resolve_keyed go monitors a p o).0
    keyed-HasPolicy a p none h = h
    keyed-HasPolicy a p (some key) h =
        if-Turn (HasPolicy policies) (p.excluded || not p.enabled) _ _ (λ c. h)
          (λ c. choice p.monitor_id)
      where
        choice : (o : Option ℤ) → HasPolicy policies (resolve_choice go monitors a p key o).0
        choice (some id) = manual-HasPolicy a p key (monitor_by_id id monitors) h
        choice none = auto-HasPolicy a p key (candidates go monitors a.platform key) h

    abbrev IsExplained : ResolvedBinding → Type 0
    IsExplained b = HasPolicy policies b × Sound b

    account-IsExplained : (a : Account) → IsExplained (resolve_account go monitors policies a).0
    unfolding resolve_account
    account-IsExplained a = (
      keyed-HasPolicy a (policy_of policies a.id) (normalize_endpoint go (trim a.base_url))
          (policy_of-HasPolicy a (policies a.id) refl),
      keyed-Sound a (policy_of policies a.id) (normalize_endpoint go (trim a.base_url)) refl,
    )

    if-All :
        (b : Bool) (r s : Resolution)
        → All IsExplained r.0
        → All IsExplained s.0
        → All IsExplained (if b then r else s).0
    if-All true r s h k = h
    if-All false r s h k = k

    All-IsExplained : (l : List Account) → All IsExplained (resolve_all go monitors policies l).0
    unfolding resolve_all
    All-IsExplained [] = tt
    All-IsExplained (a ∷ l) =
        if-All (is_blank a.base_url) _ _ (All-IsExplained l)
          (account-IsExplained a, All-IsExplained l)

    -- Every binding of ResolveBindings has the policy that is given for its account, or the default
    -- policy where none is given, and it is without a monitor and not bound, or is bound for a policy
    -- that neither excludes nor disables the account: to the last of the monitors with the ID that
    -- the policy names, which is of a compatible provider, or, where the policy names none, to the
    -- only monitor whose provider and normalised endpoint make up the same key as the platform and
    -- the normalised endpoint of the account.
    pub resolve_bindings-Sound :
        (accounts : List Account)
        → All
            (λ b. HasPolicy policies b × Sound b)
            (resolve_bindings go monitors accounts policies).0
    unfolding resolve_bindings
    resolve_bindings-Sound accounts =
        sort-All (λ b c. ltb_ℤ b.account.id c.account.id) IsExplained
          (resolve_all go monitors policies accounts).0 (All-IsExplained accounts)
