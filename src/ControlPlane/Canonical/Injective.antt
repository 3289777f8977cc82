-- ===== src/ControlPlane/Canonical/Injective.antt =====
-- internal/controlplane/arbiter.go: the canonical texts tell their parts apart.
use sub2api_account_schedule.Base.{
  ℕ, ◌<◌, ◌≡◌, refl, sym, ◌∙◌, ◌≢◌, Bool, ap, ap₂, List, [], ◌∷◌, ◌++◌, arith, Text, byte_len,
  rune_len, All,
}
use sub2api_account_schedule.Base.Decimal.{format_nat}
use sub2api_account_schedule.Base.DecimalLaws.{IsDigit, format_nat-IsDigit, format_nat-injective}
use sub2api_account_schedule.ControlPlane.Intent.{Intent}
use sub2api_account_schedule.ControlPlane.Canonical.{
  canonical_part, canonical_parts, signature_parts, semantic_signature, canonical_intent_key,
}

head_eq : {c d : ℕ} {s t : Text} → ◌≡◌ {A = Text} (c ∷ s) (d ∷ t) → c ≡ d
head_eq h = cc

tail_eq : {c d : ℕ} {s t : Text} → ◌≡◌ {A = Text} (c ∷ s) (d ∷ t) → s ≡ t
tail_eq h = cc

-- A text of digits ends at the first colon.
digits_end :
    (d e r s : Text)
    → All IsDigit d
    → All IsDigit e
    → d ++ (b':' ∷ r) ≡ e ++ (b':' ∷ s)
    → (d ≡ e) × (r ≡ s)
digits_end [] [] r s hd he h = (refl, tail_eq h)
digits_end [] (c ∷ e) r s hd he h = absurd (omega (arith, head_eq h, he.0))
digits_end (c ∷ d) [] r s hd he h = absurd (omega (arith, head_eq h, hd.0))
digits_end (c ∷ d) (b ∷ e) r s hd he h =
    let rest = digits_end d e r s hd.1 he.1 (tail_eq h) in (ap₂ ◌∷◌ (head_eq h) rest.0, rest.1)

rune_len_pos : (c : ℕ) → 0 < rune_len c
unfolding rune_len
rune_len_pos c = ground arith

-- Texts of as many bytes end at the same place.
bytes_end : (v w r s : Text) → byte_len v ≡ byte_len w → v ++ r ≡ w ++ s → (v ≡ w) × (r ≡ s)
unfolding byte_len
bytes_end [] [] r s n h = (refl, h)
bytes_end [] (d ∷ w) r s n h = absurd (omega (arith, rune_len_pos d))
bytes_end (c ∷ v) [] r s n h = absurd (omega (arith, rune_len_pos c))
bytes_end (c ∷ v) (d ∷ w) r s n h =
    let rest = bytes_end v w r s (omega (arith, ap rune_len (head_eq h))) (tail_eq h) in
    (ap₂ ◌∷◌ (head_eq h) rest.0, rest.1)

text_assoc : (a b c : Text) → (a ++ b) ++ c ≡ a ++ (b ++ c)
text_assoc [] b c = refl
text_assoc (x ∷ a) b c = ap (λ s. x ∷ s) (text_assoc a b c)

canonical_part-append :
    (v r : Text) → canonical_part v ++ r ≡ format_nat (byte_len v) ++ (b':' ∷ (v ++ (b'|' ∷ r)))
unfolding canonical_part
canonical_part-append v r =
    text_assoc (format_nat (byte_len v)) _ r
    ∙ ap (λ s. format_nat (byte_len v) ++ (b':' ∷ s)) (text_assoc v (b'|' ∷ []) r)

part_ends : (v w r s : Text) → canonical_part v ++ r ≡ canonical_part w ++ s → (v ≡ w) × (r ≡ s)
part_ends v w r s h =
    let framed = sym (canonical_part-append v r) ∙ h ∙ canonical_part-append w s in
    let cut =
      digits_end (format_nat (byte_len v)) (format_nat (byte_len w)) _ _ (format_nat-IsDigit _)
        (format_nat-IsDigit _) framed in
    let ends = bytes_end v w (b'|' ∷ r) (b'|' ∷ s) (format_nat-injective _ _ cut.0) cut.1 in
    (ends.0, tail_eq ends.1)

part_ne_nil : (v r : Text) → canonical_part v ++ r ≢ []
unfolding canonical_part
part_ne_nil v r h = go (format_nat (byte_len v)) (sym (canonical_part-append v r) ∙ h)
  where
    go : (d : Text) → d ++ (b':' ∷ (v ++ (b'|' ∷ r))) ≢ []
    go [] e = cc
    go (c ∷ d) e = cc

pub canonical_parts-injective : (l m : List Text) → canonical_parts l ≡ canonical_parts m → l ≡ m
unfolding canonical_parts
canonical_parts-injective [] [] h = refl
canonical_parts-injective [] (w ∷ m) h = absurd (part_ne_nil w (canonical_parts m) (sym h))
canonical_parts-injective (v ∷ l) [] h = absurd (part_ne_nil v (canonical_parts l) h)
canonical_parts-injective (v ∷ l) (w ∷ m) h =
    let cut = part_ends v w (canonical_parts l) (canonical_parts m) h in
    ap₂ ◌∷◌ cut.0 (canonical_parts-injective l m cut.1)

head_of : {v w : Text} {l m : List Text} → ◌≡◌ {A = List Text} (v ∷ l) (w ∷ m) → v ≡ w
head_of h = cc

tail_of : {v w : Text} {l m : List Text} → ◌≡◌ {A = List Text} (v ∷ l) (w ∷ m) → l ≡ m
tail_of h = cc

-- Two intents with the same canonical key have the same ID, the same idempotency key, and the same
-- signature parts, one by one: the length prefixes keep a part from running into the next.
pub canonical_intent_key-injective :
    (is_print : ℕ → Bool) (i j : Intent)
    → canonical_intent_key is_print i ≡ canonical_intent_key is_print j
    → (i.id ≡ j.id)
      × (i.idempotency_key ≡ j.idempotency_key)
      × (signature_parts is_print i ≡ signature_parts is_print j)
unfolding canonical_intent_key semantic_signature
canonical_intent_key-injective p i j h =
    let parts : ◌≡◌ {A = List Text}
        (i.id ∷ i.idempotency_key ∷ canonical_parts (signature_parts p i) ∷ [])
        (j.id ∷ j.idempotency_key ∷ canonical_parts (signature_parts p j) ∷ []) =
      canonical_parts-injective _ _ h in
    (
      head_of parts,
      head_of (tail_of parts),
      canonical_parts-injective _ _ (head_of (tail_of (tail_of parts))),
    )
