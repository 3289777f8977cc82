-- ===== src/ControlPlane/Arbiter/Keys.antt =====
-- internal/controlplane/types.go: the comparison of conflict keys decides equality.
use sub2api_account_schedule.Base.{◌≡◌, refl, true, arith, text_eq, &&-true}
use sub2api_account_schedule.Base.Int.{eq_ℤ, eq_ℤ→eq, eq_ℤ-self}
use sub2api_account_schedule.Base.TextLaws.{text_eq→eq, text_eq_self}
use sub2api_account_schedule.ControlPlane.Types.{
  ResourceKind, other_resource, Resource, Operation, unknown_operation, ConflictKey, same_kind,
  same_resource, same_operation, same_key,
}

same_kind→eq : (k j : ResourceKind) → same_kind k j ≡ true → k ≡ j
unfolding same_kind
same_kind→eq (other_resource s) (other_resource t) h = ground (arith, text_eq→eq s t)
same_kind→eq k j h = ground arith

same_operation→eq : (o p : Operation) → same_operation o p ≡ true → o ≡ p
unfolding same_operation
same_operation→eq (unknown_operation s) (unknown_operation t) h = ground (arith, text_eq→eq s t)
same_operation→eq o p h = ground arith

same_resource→eq : (r t : Resource) → same_resource r t ≡ true → r ≡ t
unfolding same_resource
same_resource→eq r t h =
    let c = &&-true _ (text_eq r.upstream_key_id t.upstream_key_id) h in
    let b = &&-true _ (eq_ℤ r.upstream_source_id t.upstream_source_id) c.0 in
    let a = &&-true (same_kind r.kind t.kind) (eq_ℤ r.account_id t.account_id) b.0 in
    λ i. record {
      kind = same_kind→eq r.kind t.kind a.0 i;
      account_id = eq_ℤ→eq r.account_id t.account_id a.1 i;
      upstream_source_id = eq_ℤ→eq r.upstream_source_id t.upstream_source_id b.1 i;
      upstream_key_id = text_eq→eq r.upstream_key_id t.upstream_key_id c.1 i;
    }

pub same_key→eq : (k j : ConflictKey) → same_key k j ≡ true → k ≡ j
unfolding same_key
same_key→eq k j h =
    let a = &&-true (same_resource k.resource j.resource) _ h in
    λ i. record {
      resource = same_resource→eq k.resource j.resource a.0 i;
      operation = same_operation→eq k.operation j.operation a.1 i;
    }

-- A key is the same as itself.
same_kind_self : (k : ResourceKind) → same_kind k k ≡ true
unfolding same_kind
same_kind_self (other_resource s) = text_eq_self s
same_kind_self _ = refl

same_operation_self : (o : Operation) → same_operation o o ≡ true
unfolding same_operation
same_operation_self (unknown_operation s) = text_eq_self s
same_operation_self _ = refl

same_resource_self : (r : Resource) → same_resource r r ≡ true
unfolding same_resource
same_resource_self r = ground (
  arith,
  same_kind_self r.kind,
  eq_ℤ-self r.account_id,
  eq_ℤ-self r.upstream_source_id,
  text_eq_self r.upstream_key_id,
)

pub same_key_self : (k : ConflictKey) → same_key k k ≡ true
unfolding same_key
same_key_self k = ground (arith, same_resource_self k.resource, same_operation_self k.operation)
