-- ===== src/Charge/Guards.antt =====
-- What the gateway's calls need to have any effect.
use biocodetechpay.Prelude.{
  ap, ◌∙◌, ℤ, pos, ◌≡◌, ◌≢◌, ◌≤ℤ◌, ◌↔◌, ◌⊎◌, inl, inr, refl, true, Text, [], ◌∷◌, arith, text_eq,
  text_eq→eq, text_eq_refl, Bool-cases,
}
use biocodetechpay.Store.{Db}
use biocodetechpay.Charge.Gate.{
  WebhookEvent, asaas_webhook, approved, asaas_withdrawal_validation, is_allowed_type,
  max_withdrawal,
}

-- An event that does not carry the configured token, or that arrives while none is configured,
-- changes nothing.
pub webhook_guarded :
    (m key configured incoming : Text) (event : WebhookEvent) (db : Db)
    → (configured ≡ []) ⊎ (incoming ≢ configured)
    → (asaas_webhook m key configured incoming event db).0 ≡ db
unfolding asaas_webhook
webhook_guarded m key [] incoming event db h = refl
webhook_guarded m key (c ∷ configured) incoming event db (inl h) = absurd (cc)
webhook_guarded m key (c ∷ configured) incoming event db (inr h) =
    elim (Bool-cases (text_eq incoming (c ∷ configured))) [
      | inl same ↦ absurd (h (text_eq→eq incoming (c ∷ configured) same))
      | inr other ↦ ground (arith, other)
    ]

-- A withdrawal is approved exactly if a token is configured and sent, its value is at least a cent
-- and at most R$50000.00, and its type is one of the four that are known or absent.
pub withdrawal_approved :
    (configured incoming withdrawal_type : Text) (value : ℤ)
    → (asaas_withdrawal_validation configured incoming value withdrawal_type ≡ approved) ↔ (
        (configured ≢ [])
        × (incoming ≡ configured)
        × (pos 1 ≤ℤ value)
        × (value ≤ℤ pos max_withdrawal)
        × ((withdrawal_type ≡ []) ⊎ (is_allowed_type withdrawal_type ≡ true)))
unfolding asaas_withdrawal_validation
withdrawal_approved [] incoming withdrawal_type value = (λ h. absurd (cc), λ h. absurd (h.0 refl))
withdrawal_approved (c ∷ configured) [] withdrawal_type value =
    (λ h. absurd (cc), λ h. absurd (cc (h.1)))
withdrawal_approved (c ∷ configured) (d ∷ incoming) withdrawal_type value =
    elim (Bool-cases (text_eq (d ∷ incoming) (c ∷ configured))) [
      | inr other ↦ (
        λ h. absurd (ground (arith, other)),
        λ h.
            let same = ap (λ s. text_eq s (c ∷ configured)) h.1 ∙ text_eq_refl (c ∷ configured) in
            absurd (cc),
      )
      | inl same ↦
          let token = text_eq→eq (d ∷ incoming) (c ∷ configured) same in
          (
            λ h. (λ e. absurd (cc), token, ground arith, ground arith, ground arith),
            λ h. ground arith,
          )
    ]
