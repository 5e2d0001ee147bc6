-- ===== src/IdentityGate/Keys.antt =====
-- Two events whose identifiers are valid do not share an accepted object in
-- lambdas/schema_identity_gate/handler.py: the last segment of its key is the event's own.
use Prim.Native.Char.{code}
use text.Mathlib.TextLemmas.{append_cancel_right}
use ledgerflow_payment_recon.Prelude.{
  String, ◌≡◌, refl, sym, ap, ◌∙◌, true, false, nat_eq, arith, Bool-cases, inl, inr,
}
use ledgerflow_payment_recon.Prelude.Text.{
  ◌<>◌, codes, contains_code, append-eq-native, first_chars,
}
use ledgerflow_payment_recon.Contracts.{PaymentEvent}
use ledgerflow_payment_recon.Contracts.Validate.{is_identifier, identifier_codes, identifier_code}
use ledgerflow_payment_recon.ManifestLoader.Keys.{last_segment}
use ledgerflow_payment_recon.IdentityGate.{accepted_key_of}

identifier_codes-slash :
    (s : String) → identifier_codes (codes s) ≡ true → contains_code b'/' s ≡ false
unfolding identifier_codes identifier_code contains_code
identifier_codes-slash String.[] h = refl
identifier_codes-slash (String.◌∷◌ c s) h =
    let rest = identifier_codes-slash s (ground (arith, h)) in ground (arith, h, rest)

identifier-slash : (s : String) → is_identifier s ≡ true → contains_code b'/' s ≡ false
unfolding is_identifier
identifier-slash s h = identifier_codes-slash s (ground (arith, h))

contains_code-json :
    (s : String) → contains_code b'/' s ≡ false → contains_code b'/' (s <> ".json") ≡ false
unfolding contains_code
contains_code-json String.[] h = refl
contains_code-json (String.◌∷◌ c s) h = elim (Bool-cases (nat_eq (code c) b'/')) [
  | inl e ↦ let k = rw e at h in cc
  | inr e ↦ let k = rw e at h in rw e (contains_code-json s k)
]

contains_code-slash : (s t : String) → contains_code b'/' (s <> ("/" <> t)) ≡ true
unfolding contains_code
contains_code-slash String.[] t = refl
contains_code-slash (String.◌∷◌ c s) t = elim (Bool-cases (nat_eq (code c) b'/')) [
  | inl e ↦ rw e refl
  | inr e ↦ rw e (contains_code-slash s t)
]

last_segment-slash :
    (s t : String) → contains_code b'/' t ≡ false → last_segment (s <> ("/" <> t)) ≡ t
unfolding last_segment
last_segment-slash String.[] t h = rw h refl
last_segment-slash (String.◌∷◌ c s) t h = rw (contains_code-slash s t) (last_segment-slash s t h)

last_segment-accepted :
    (e : PaymentEvent)
    → is_identifier e.event_id ≡ true
    → last_segment (accepted_key_of e) ≡ e.event_id <> ".json"
unfolding accepted_key_of
last_segment-accepted e h =
    last_segment-slash ("accepted/event_date=" <> first_chars 10 e.event_time)
      (e.event_id <> ".json") (contains_code-json e.event_id (identifier-slash e.event_id h))

-- Equal keys are keys of one event id.
pub accepted_key_of-injective :
    (a b : PaymentEvent)
    → is_identifier a.event_id ≡ true
    → is_identifier b.event_id ≡ true
    → accepted_key_of a ≡ accepted_key_of b
    → a.event_id ≡ b.event_id
accepted_key_of-injective a b ha hb e =
    let same : a.event_id <> ".json" ≡ b.event_id <> ".json" =
      sym (last_segment-accepted a ha) ∙ ap last_segment e ∙ last_segment-accepted b hb in
    append_cancel_right a.event_id b.event_id ".json"
      (sym (append-eq-native a.event_id ".json") ∙ same ∙ append-eq-native b.event_id ".json")
