-- ===== src/Reconcile/Matcher.antt =====
-- internal/reconcile/matcher.go: which monitor watches which account.
pub mod Sound
pub mod Unique
pub mod Unmatched
mod Examples
use sub2api_account_schedule.Base.{
  Bool, true, false, not, ◌&&◌, ◌||◌, Option, none, some, List, [], ◌∷◌, ◌++◌, Text, codes, text_eq,
  trim, is_empty, is_blank, any, keep, length, sort, if◌then◌else◌,
}
use sub2api_account_schedule.Base.Int.{ℤ, pos, eq_ℤ, ltb_ℤ}
use sub2api_account_schedule.Base.Decimal.{format_int}

-- What a parsed URL gives: `Scheme`, `Hostname()` and `Port()`.
pub record Url : Type 0 where
  pub scheme : Text
  pub hostname : Text
  pub port : Text

-- The functions of Go's library that the matcher calls.
pub record UrlLibrary : Type 0 where
  pub parse : Text → Option Url
  pub join_host_port : Text → Text → Text
  pub lower : Text → Text
  pub equal_fold : Text → Text → Bool

-- The fields that the matcher reads. The base URL is that of the credentials, or empty.
pub record Monitor : Type 0 where
  pub id : ℤ
  pub provider : Text
  pub endpoint : Text

pub record Account : Type 0 where
  pub id : ℤ
  pub platform : Text
  pub base_url : Text

pub record Policy : Type 0 where
  pub monitor_id : Option ℤ
  pub excluded : Bool
  pub enabled : Bool

pub data BindingState : Type 0 where
  unmatched excluded frozen conflict bound : BindingState

pub record ResolvedBinding : Type 0 where
  pub monitor : Option Monitor
  pub account : Account
  pub policy : Policy
  pub is_manual : Bool
  pub state : BindingState
  pub reason : Text
  pub normalized_endpoint : Text

-- The bindings, the IDs that are marked in `usedMonitors`, and the descriptions of the conflicts.
abbrev pub Resolution : Type 0
Resolution = List ResolvedBinding × List ℤ × List Text

-- The same of one account.
abbrev pub Turn : Type 0
Turn = ResolvedBinding × List ℤ × List Text

abbrev pub default_policy : Policy
default_policy = record { monitor_id = none; excluded = false; enabled = true }

-- `policies[account.ID]`, or the policy of an account that has none.
abbrev pub policy_of : (ℤ → Option Policy) → ℤ → Policy
policy_of policies id = elim (policies id) [ some p ↦ p | none ↦ default_policy ]

-- `monitorByID[id]`: the last of the monitors with the ID.
unfoldable pub monitor_by_id : ℤ → List Monitor → Option Monitor
monitor_by_id id [] = none
monitor_by_id id (m ∷ l) =
    let rest = monitor_by_id id l in
    elim rest [ some n ↦ some n | none ↦ if eq_ℤ m.id id then some m else none ]

abbrev pub conflict_text : ℤ → Text → Text
conflict_text id why = codes "账号 " ++ (format_int id ++ why)

module _ (go : UrlLibrary) where
  abbrev pub shown_port : Text → Text → Text
  shown_port scheme port =
      if (text_eq scheme (codes "https") && text_eq port (codes "443"))
        || (text_eq scheme (codes "http") && text_eq port (codes "80"))
      then []
      else port

  abbrev pub endpoint_of : Option Url → Option Text
  endpoint_of none = none
  endpoint_of (some u) =
      let scheme = go.lower u.scheme in
      let host = go.lower u.hostname in
      let port = shown_port scheme u.port in
      if is_empty u.scheme || is_empty u.hostname
      then none
      else some
          (scheme ++ (codes "://" ++ (if is_empty port then host else go.join_host_port host port)))

  -- `NormalizeEndpoint`; none for an error.
  unfoldable pub normalize_endpoint : Text → Option Text
  normalize_endpoint raw = endpoint_of (go.parse (trim raw))

  -- `providerCompatible`
  abbrev pub provider_compatible : Text → Text → Bool
  provider_compatible provider platform = go.equal_fold (trim provider) (trim platform)

  -- A monitor's entry in `monitorsByKey`.
  abbrev pub has_key : Text → Monitor → Bool
  has_key key m = elim (normalize_endpoint m.endpoint) [
    | none ↦ false
    | some e ↦ text_eq (m.provider ++ (codes "|" ++ e)) key
  ]

  unfoldable pub candidates : List Monitor → Text → Text → List Monitor
  unfolding normalize_endpoint
  candidates monitors platform key = keep (has_key (platform ++ (codes "|" ++ key))) monitors

  abbrev pub unbound : Account → Policy → Bool → BindingState → Text → Text → ResolvedBinding
  unbound a p is_manual state reason key = record {
    monitor = none;
    account = a;
    policy = p;
    is_manual = is_manual;
    state = state;
    reason = reason;
    normalized_endpoint = key;
  }

  abbrev pub bind : Account → Policy → Bool → Monitor → Text → ResolvedBinding
  bind a p is_manual m key = record {
    monitor = some m;
    account = a;
    policy = p;
    is_manual = is_manual;
    state = bound;
    reason = [];
    normalized_endpoint = key;
  }

  abbrev pub resolve_manual : Account → Policy → Text → Option Monitor → Turn
  resolve_manual a p key none = (unbound a p true frozen (codes "指定监控不存在") key, [], [])
  resolve_manual a p key (some m) =
      if provider_compatible m.provider a.platform then (bind a p true m key, m.id ∷ [], []) else (
        unbound a p true conflict (codes "指定监控与账号平台不兼容") key,
        [],
        conflict_text a.id (codes " 的指定监控平台不兼容") ∷ [],
      )

  abbrev pub resolve_auto : Account → Policy → Text → List Monitor → Turn
  resolve_auto a p key [] = (unbound a p false unmatched (codes "没有相同上游地址的监控") key, [], [])
  resolve_auto a p key (m ∷ []) = (bind a p false m key, m.id ∷ [], [])
  resolve_auto a p key (m ∷ n ∷ l) = (
    unbound a p false conflict (codes "同一上游地址存在多个监控") key,
    [],
    conflict_text a.id (codes " 匹配到 " ++ (format_int (pos (length (m ∷ n ∷ l))) ++ codes " 个监控"))
        ∷ [],
  )

  abbrev pub resolve_choice : List Monitor → Account → Policy → Text → Option ℤ → Turn
  resolve_choice monitors a p key (some id) = resolve_manual a p key (monitor_by_id id monitors)
  resolve_choice monitors a p key none = resolve_auto a p key (candidates monitors a.platform key)

  abbrev pub resolve_keyed : List Monitor → Account → Policy → Option Text → Turn
  resolve_keyed monitors a p none = (unbound a p false unmatched (codes "账号上游地址无效") [], [], [])
  resolve_keyed monitors a p (some key) =
      if p.excluded || not p.enabled
      then (unbound a p false excluded (codes "已排除自动调度") key, [], [])
      else resolve_choice monitors a p key p.monitor_id

  -- One turn of the loop over the accounts with a base URL.
  unfoldable pub resolve_account : List Monitor → (ℤ → Option Policy) → Account → Turn
  unfolding normalize_endpoint candidates monitor_by_id
  resolve_account monitors policies a =
      resolve_keyed monitors a (policy_of policies a.id) (normalize_endpoint (trim a.base_url))

  unfoldable pub resolve_all : List Monitor → (ℤ → Option Policy) → List Account → Resolution
  unfolding resolve_account
  resolve_all monitors policies [] = ([], [], [])
  resolve_all monitors policies (a ∷ l) =
      let rest = resolve_all monitors policies l in
      let r = resolve_account monitors policies a in
      if is_blank a.base_url then rest else (r.0 ∷ rest.0, r.1 ++ rest.1, r.2 ++ rest.2)

  -- `ResolveBindings`
  unfoldable pub resolve_bindings :
      List Monitor
      → List Account
      → (ℤ → Option Policy)
      → List ResolvedBinding × (List Monitor × List Text)
  unfolding resolve_all sort
  resolve_bindings monitors accounts policies =
      let r = resolve_all monitors policies accounts in
      let unused = keep (λ m. not (any (eq_ℤ m.id) r.1)) monitors in
      (
        sort (λ b c. ltb_ℤ b.account.id c.account.id) r.0,
        (sort (λ m n. ltb_ℤ m.id n.id) unused, r.2),
      )
