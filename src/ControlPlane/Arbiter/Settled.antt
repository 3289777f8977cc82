-- ===== src/ControlPlane/Arbiter/Settled.antt =====
-- internal/controlplane/arbiter.go: which intents become candidates, and why the others are ignored.
use mathlib.Core.Bool.{false≢true}
use mathlib.Core.List.{Memᴰ}
use sub2api_account_schedule.Base.{
  ℕ, ◌≡◌, refl, sym, ap, Bool, true, false, Option, none, some, List, [], ◌∷◌, ◌++◌, Text, text_eq,
  All, All-append, sort, is_some, ◌∙◌,
}
use sub2api_account_schedule.Base.SortLaws.{sort-All, sort-IsHeadFirst, IsHeadFirst}
use sub2api_account_schedule.Base.TextLaws.{text_eq→eq, text_eq_self}
use sub2api_account_schedule.ControlPlane.Canonical.{semantic_signature}
use sub2api_account_schedule.ControlPlane.Arbiter.Groups.{
  All-Memᴰ, All-Memᴰ_self, Memᴰ-sort, screened-Holds,
}
use sub2api_account_schedule.ControlPlane.Types.{ConflictKey, Invalid, same_key}
use sub2api_account_schedule.ControlPlane.Intent.{Intent, validate, conflict_key, expired}
use sub2api_account_schedule.ControlPlane.Arbiter.{
  ReasonCode, expired_reason, invalid, duplicate, idempotency_conflict, Detail, fixed, validation,
  outcome, Bucket, empty_bucket, update_bucket, Groups, append_active, screen_with, screen, ignore,
  ignore_all, settle_sorted, settle, settle_groups, same_idempotent_semantics, id_lt, key_lt,
  group_lt, screened, settled, add_ignored, add_candidate,
}
use sub2api_account_schedule.ControlPlane.Arbiter.Keys.{same_key→eq}
use sub2api_account_schedule.ControlPlane.Arbiter.Reasons.{
  IsGiven, Reasoned, IsAgreed, IsChosen, IsIgnored, id_lt-IsStrict, all-All, all-witness,
  All-forall,
}

module _ (p : ℕ → Bool) (input : List Intent) (now : ℕ) where
  abbrev pub IsSound : Bucket → Type 0
  IsSound b =
      All (IsChosen p input now b.key) b.candidates × All (IsIgnored p input now b.key) b.ignored

  update_bucket-IsSound :
      (k : ConflictKey) (f : Bucket → Bucket) (l : List Bucket)
      → ((b : Bucket) → b.key ≡ k → IsSound b → IsSound (f b))
      → All (IsSound) l
      → All (IsSound) (update_bucket k f l)
  unfolding update_bucket
  update_bucket-IsSound k f [] keeps h = (keeps (empty_bucket k) refl (tt, tt), tt)
  update_bucket-IsSound k f (b ∷ l) keeps h =
      go (same_key b.key k) refl (update_bucket-IsSound k f l keeps h.1)
    where
      go :
          (t : Bool)
          → same_key b.key k ≡ t
          → All (IsSound) (update_bucket k f l)
          → All (IsSound) (elim t [ true ↦ f b ∷ l | false ↦ b ∷ update_bucket k f l ])
      go true e rest = (keeps b (same_key→eq b.key k e) h.0, h.1)
      go false e rest = (h.0, rest)

  ignore-IsSound :
      (i : Intent) (r : ReasonCode) (d : Detail) (l : List Bucket)
      → Reasoned p input r now i
      → All (IsSound) l
      → All (IsSound) (ignore i r d l)
  ignore-IsSound i r d l why =
      update_bucket-IsSound (conflict_key i) (add_ignored (outcome i r d)) l
        λ b e h. (h.0, All-append (IsIgnored p input now b.key) b.ignored _ h.1 ((why, sym e), tt))

  -- The intents of a group are given and have its idempotency key.
  abbrev IsMember : Text → Intent → Type 0
  IsMember k i = IsGiven input now i × (i.idempotency_key ≡ k)

  abbrev GroupsLive : Groups → Type 0
  GroupsLive gs = All (λ g. All (IsMember g.0) g.1) gs

  append_active-GroupsLive :
      (i : Intent) (gs : Groups)
      → IsGiven input now i
      → GroupsLive gs
      → GroupsLive (append_active i.idempotency_key i gs)
  unfolding append_active
  append_active-GroupsLive i [] live h = (((live, refl), tt), tt)
  append_active-GroupsLive i ((k, l) ∷ gs) live h =
      go (text_eq k i.idempotency_key) refl (append_active-GroupsLive i gs live h.1)
    where
      go :
          (t : Bool)
          → text_eq k i.idempotency_key ≡ t
          → GroupsLive (append_active i.idempotency_key i gs)
          → GroupsLive (elim t [
            | true ↦ (k, l ++ (i ∷ [])) ∷ gs
            | false ↦ (k, l) ∷ append_active i.idempotency_key i gs
          ])
      go true e rest = (
        All-append (IsMember k) l (i ∷ []) h.0 ((live, sym (text_eq→eq k i.idempotency_key e)), tt),
        h.1,
      )
      go false e rest = (h.0, rest)

  abbrev ScreenedOk : List Bucket × Groups → Type 0
  ScreenedOk s = All (IsSound) s.0 × GroupsLive s.1

  screen_with-ScreenedOk :
      (e : Option Invalid) (late : Bool) (i : Intent) (s : List Bucket × Groups)
      → Memᴰ i input
      → validate i ≡ e
      → expired i now ≡ late
      → ScreenedOk s
      → ScreenedOk (screen_with e late i s)
  screen_with-ScreenedOk (some e) late i (bs, gs) m v x h =
      (ignore-IsSound i invalid (validation e) bs (ap is_some v) h.0, h.1)
  screen_with-ScreenedOk none true i (bs, gs) m v x h =
      (ignore-IsSound i expired_reason fixed bs (v, x) h.0, h.1)
  screen_with-ScreenedOk none false i (bs, gs) m v x h = (
    update_bucket-IsSound (conflict_key i) (λ b. b) bs (λ b e k. k) h.0,
    append_active-GroupsLive i gs ((v, x), m) h.1,
  )

  screen-ScreenedOk :
      (l : List Intent) (s : List Bucket × Groups)
      → All (λ i. Memᴰ i input) l
      → ScreenedOk s
      → ScreenedOk (screen now l s)
  unfolding screen
  screen-ScreenedOk [] s m h = h
  screen-ScreenedOk (i ∷ l) s m h =
      screen-ScreenedOk l (screen_with (validate i) (expired i now) i s) m.1
        (screen_with-ScreenedOk (validate i) (expired i now) i s m.0 refl refl h)

  ignore_all-IsSound :
      (r : ReasonCode) (l : List Intent) (bs : List Bucket)
      → All (λ i. Reasoned p input r now i) l
      → All IsSound bs
      → All IsSound (ignore_all r l bs)
  unfolding ignore_all
  ignore_all-IsSound r [] bs why h = h
  ignore_all-IsSound r (i ∷ l) bs why h =
      ignore_all-IsSound r l (ignore i r fixed bs) why.1 (ignore-IsSound i r fixed bs why.0 h)

  -- The later ones of a group whose intents mean the same.
  group_duplicates :
      (k : Text) (i : Intent) (l : List Intent)
      → IsMember k i
      → All (IsMember k) l
      → All (λ j. text_eq (semantic_signature p j) (semantic_signature p i) ≡ true) l
      → All (λ j. id_lt p j i ≡ false) l
      → All (λ j. Reasoned p input duplicate now j) l
  group_duplicates k i [] m ms same first = tt
  group_duplicates k i (j ∷ l) m ms same first = (
    (
      ms.0.0.0,
      i,
      m.0,
      m.1 ∙ sym ms.0.1,
      text_eq→eq (semantic_signature p j) (semantic_signature p i) same.0,
      first.0,
    ),
    group_duplicates k i l m ms.1 same.1 first.1,
  )

  group_conflicts :
      (k : Text) (v w : Intent) (l : List Intent)
      → IsMember k v
      → IsMember k w
      → All (IsMember k) l
      → text_eq (semantic_signature p v) (semantic_signature p w) ≡ false
      → All (λ j. Reasoned p input idempotency_conflict now j) l
  group_conflicts k v w [] m n ms other = tt
  group_conflicts k v w (j ∷ l) m n ms other = (
    (
      ms.0.0.0,
      v,
      w,
      m.0,
      n.0,
      m.1 ∙ sym ms.0.1,
      n.1 ∙ sym ms.0.1,
      λ e. false≢true (
          sym other
          ∙ ap (λ t. text_eq t (semantic_signature p w)) e
          ∙ text_eq_self (semantic_signature p w)),
    ),
    group_conflicts k v w l m n ms.1 other,
  )

  -- A group has every live intent with its idempotency key.
  abbrev IsComplete : Text × List Intent → Type 0
  IsComplete g =
      (given : (j : Intent) × Memᴰ j input × (validate j ≡ none) × (expired j now ≡ false))
      → text_eq g.0 given.0.idempotency_key ≡ true
      → Memᴰ given.0 g.1

  settle_sorted-IsSound :
      (k : Text) (l : List Intent) (bs : List Bucket) (same : Bool)
      → same_idempotent_semantics p l ≡ same
      → All (IsMember k) l
      → IsHeadFirst (id_lt p) l
      → IsComplete (k, l)
      → All IsSound bs
      → All IsSound (settle_sorted p same l bs)
  unfolding same_idempotent_semantics ignore_all
  settle_sorted-IsSound k [] bs true e ms first whole h = h
  settle_sorted-IsSound k [] bs false e ms first whole h = h
  settle_sorted-IsSound k (i ∷ l) bs true e ms first whole h =
      let same = all-All (λ j. text_eq (semantic_signature p j) (semantic_signature p i)) l e in
      ignore_all-IsSound duplicate l _ (group_duplicates k i l ms.0 ms.1 same first) (
        update_bucket-IsSound (conflict_key i) (add_candidate i) bs
          (λ b eb c. (
            All-append (IsChosen p input now b.key) b.candidates _ c.0
                (((ms.0.0.0, sym eb), agreed same), tt),
            c.1,
          ))
          h)
    where
      alike :
          (j : Intent)
          → All (λ x. text_eq (semantic_signature p x) (semantic_signature p i) ≡ true) l
          → Memᴰ j (i ∷ l)
          → semantic_signature p j ≡ semantic_signature p i
      alike j same (Memᴰ.head q) = ap (semantic_signature p) q
      alike j same (Memᴰ.tail m) = text_eq→eq (semantic_signature p j) (semantic_signature p i) (
          All-Memᴰ (λ x. text_eq (semantic_signature p x) (semantic_signature p i) ≡ true) l j same
            m)

      agreed :
          All (λ x. text_eq (semantic_signature p x) (semantic_signature p i) ≡ true) l
          → IsAgreed p input now i
      agreed same j m live q =
          alike j same (whole (j, m, live.0, live.1) (ap (text_eq k) (q ∙ ms.0.1) ∙ text_eq_self k))
  settle_sorted-IsSound k (i ∷ l) bs false e ms first whole h =
      let (v, m, f) =
        all-witness (λ j. text_eq (semantic_signature p j) (semantic_signature p i)) l e in
      ignore_all-IsSound idempotency_conflict (i ∷ l) bs
        (group_conflicts k v i (i ∷ l) (All-Memᴰ (IsMember k) l v ms.1 m) ms.0 ms f) h

  settle_groups-IsSound :
      (gs : Groups) (bs : List Bucket)
      → GroupsLive gs
      → All IsComplete gs
      → All IsSound bs
      → All IsSound (settle_groups p gs bs)
  unfolding settle_groups settle
  settle_groups-IsSound [] bs live whole h = h
  settle_groups-IsSound ((k, l) ∷ gs) bs live whole h =
      settle_groups-IsSound gs (settle p l bs) live.1 whole.1 (
        settle_sorted-IsSound k (sort (id_lt p) l) bs
          (same_idempotent_semantics p (sort (id_lt p) l)) refl
          (sort-All (id_lt p) (IsMember k) l live.0)
          (sort-IsHeadFirst (id_lt p) (id_lt-IsStrict p) l)
          (λ j q. Memᴰ-sort (id_lt p) j.0 l (whole.0 j q)) h)

  pub settled-IsSound : All IsSound (settled p now input)
  unfolding settled screened
  settled-IsSound =
      let ok =
        screen-ScreenedOk (sort (key_lt p) input) ([], [])
          (sort-All (key_lt p) (λ i. Memᴰ i input) input (All-Memᴰ_self input)) (tt, tt) in
      settle_groups-IsSound _ _ (sort-All (group_lt p) (λ g. All (IsMember g.0) g.1) _ ok.1)
        (sort-All (group_lt p) IsComplete _ (
          All-forall (λ j g. text_eq g.0 j.0.idempotency_key ≡ true → Memᴰ j.0 g.1)
            (screened p now input).1 (λ j. screened-Holds p now input j.0 j.1 j.2 j.3)))
        ok.0
