-- ===== src/Contracts/Privacy/Safe.antt =====
-- The privacy boundary of ledgerflow/contracts.py, at any depth of a value.
use ledgerflow_payment_recon.Prelude.{
  String, ◌≡◌, refl, Bool, true, false, List, [], ◌∷◌, ◌++◌, arith, ◌↔◌, if◌then◌else◌, eq_String,
}
use ledgerflow_payment_recon.Prelude.Result.{ok}
use ledgerflow_payment_recon.Prelude.Text.{is_member}
use ledgerflow_payment_recon.Json.{
  Value, null, boolean, int, float, text, array, object, Items, nil, cons, Fields, end, field,
}
use ledgerflow_payment_recon.Contracts.{Platform}
use ledgerflow_payment_recon.Contracts.Privacy.{
  prohibited_fields, sensitive_fields, redacted, prohibited_in, prohibited_in_items,
  prohibited_in_fields, raise_found, reject_prohibited_fields, redact, redact_items, redact_fields,
  redact_payload,
}

append-nil_parts : (xs ys : List String) → xs ++ ys ≡ [] → (xs ≡ []) × (ys ≡ [])
append-nil_parts [] ys h = (refl, h)
append-nil_parts (x ∷ xs) ys h = absurd (ground arith)

module _ (p : Platform) where
  unfoldable mutual
    -- Every sensitive key, in any letter case and at any depth, has the redacted value.
    pub Hides : Value → Type 0
    Hides (array vs) = ItemsHide vs
    Hides (object fs) = FieldsHide fs
    Hides v = Unit

    pub ItemsHide : Items → Type 0
    ItemsHide nil = Unit
    ItemsHide (cons v vs) = Hides v × ItemsHide vs

    pub FieldsHide : Fields → Type 0
    FieldsHide end = Unit
    FieldsHide (field k v fs) =
        ((is_member (p.casefold k) sensitive_fields ≡ true → v ≡ redacted) × Hides v)
        × FieldsHide fs

  unfoldable mutual
    -- No key, in any letter case and at any depth, is prohibited.
    pub IsFree : Value → Type 0
    IsFree (array vs) = ItemsFree vs
    IsFree (object fs) = FieldsFree fs
    IsFree v = Unit

    pub ItemsFree : Items → Type 0
    ItemsFree nil = Unit
    ItemsFree (cons v vs) = IsFree v × ItemsFree vs

    pub FieldsFree : Fields → Type 0
    FieldsFree end = Unit
    FieldsFree (field k v fs) =
        (is_member (p.casefold k) prohibited_fields ≡ false) × IsFree v × FieldsFree fs

  hidden_field :
      (k : String) (v w : Value) (b : Bool)
      → is_member (p.casefold k) sensitive_fields ≡ b
      → w ≡ (if b then redacted else v)
      → Hides v
      → (is_member (p.casefold k) sensitive_fields ≡ true → w ≡ redacted) × Hides w
  unfolding Hides
  hidden_field k v w true h e r = (λ _. e, rw e tt)
  hidden_field k v w false h e r = (λ s. absurd (ground arith), rw e r)

  mutual
    unfolding Hides redact

    redact-Hides : (v : Value) → Hides (redact p v)
    redact-Hides null = tt
    redact-Hides (boolean b) = tt
    redact-Hides (int n) = tt
    redact-Hides (float s) = tt
    redact-Hides (text s) = tt
    redact-Hides (array vs) = redact_items-Hide vs
    redact-Hides (object fs) = redact_fields-Hide fs

    redact_items-Hide : (vs : Items) → ItemsHide (redact_items p vs)
    redact_items-Hide nil = tt
    redact_items-Hide (cons v vs) = (redact-Hides v, redact_items-Hide vs)

    redact_fields-Hide : (fs : Fields) → FieldsHide (redact_fields p fs)
    redact_fields-Hide end = tt
    redact_fields-Hide (field k v fs) = (
      hidden_field k (redact p v) _ (is_member (p.casefold k) sensitive_fields) refl refl
          (redact-Hides v),
      redact_fields-Hide fs,
    )

  pub redact_payload-Hide : (raw : Fields) → FieldsHide (redact_payload p raw)
  unfolding redact_payload
  redact_payload-Hide raw = redact_fields-Hide raw

  mutual
    unfolding IsFree prohibited_in

    nothing-IsFree : (v : Value) → prohibited_in p v ≡ [] → IsFree v
    nothing-IsFree null h = tt
    nothing-IsFree (boolean b) h = tt
    nothing-IsFree (int n) h = tt
    nothing-IsFree (float s) h = tt
    nothing-IsFree (text s) h = tt
    nothing-IsFree (array vs) h = nothing-ItemsFree vs h
    nothing-IsFree (object fs) h = nothing-FieldsFree fs h

    nothing-ItemsFree : (vs : Items) → prohibited_in_items p vs ≡ [] → ItemsFree vs
    nothing-ItemsFree nil h = tt
    nothing-ItemsFree (cons v vs) h =
        let (here, later) = append-nil_parts (prohibited_in p v) (prohibited_in_items p vs) h in
        (nothing-IsFree v here, nothing-ItemsFree vs later)

    nothing-FieldsFree : (fs : Fields) → prohibited_in_fields p fs ≡ [] → FieldsFree fs
    nothing-FieldsFree end h = tt
    nothing-FieldsFree (field k v fs) h =
        let (key, rest) = append-nil_parts _ (prohibited_in p v ++ prohibited_in_fields p fs) h in
        let (here, later) = append-nil_parts (prohibited_in p v) (prohibited_in_fields p fs) rest in
        (ground arith, nothing-IsFree v here, nothing-FieldsFree fs later)

  mutual
    unfolding IsFree prohibited_in

    IsFree-nothing : (v : Value) → IsFree v → prohibited_in p v ≡ []
    IsFree-nothing null h = refl
    IsFree-nothing (boolean b) h = refl
    IsFree-nothing (int n) h = refl
    IsFree-nothing (float s) h = refl
    IsFree-nothing (text s) h = refl
    IsFree-nothing (array vs) h = ItemsFree-nothing vs h
    IsFree-nothing (object fs) h = FieldsFree-nothing fs h

    ItemsFree-nothing : (vs : Items) → ItemsFree vs → prohibited_in_items p vs ≡ []
    ItemsFree-nothing nil h = refl
    ItemsFree-nothing (cons v vs) (h, hs) = rw (IsFree-nothing v h) (ItemsFree-nothing vs hs)

    FieldsFree-nothing : (fs : Fields) → FieldsFree fs → prohibited_in_fields p fs ≡ []
    FieldsFree-nothing end h = refl
    FieldsFree-nothing (field k v fs) (key, here, later) =
        rw (key, IsFree-nothing v here) (FieldsFree-nothing fs later)

  -- Reject_prohibited_fields lets a payload through exactly where no key of it, in any letter
  -- case and at any depth, is prohibited.
  pub reject_prohibited_fields-FieldsFree :
      (raw : Fields) → (reject_prohibited_fields p raw ≡ ok tt) ↔ FieldsFree raw
  unfolding reject_prohibited_fields raise_found
  reject_prohibited_fields-FieldsFree raw = (
    λ passed. nothing-FieldsFree raw (found_nothing (prohibited_in_fields p raw) passed),
    λ safe. rw (FieldsFree-nothing raw safe) refl,
  )
    where
      found_nothing : (found : List String) → raise_found p found ≡ ok tt → found ≡ []
      found_nothing [] h = refl
      found_nothing (k ∷ found) h = absurd (ground arith)
