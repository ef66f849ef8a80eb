-- ===== src/Fees/Bounds.antt =====
-- What the fee policy guarantees: the margin over the gateway's cost, monotonicity, and that the
-- break-down is consistent with the dispatcher that charges the fee.
use biocodetechpay.Prelude.{
  ◌+◌, ◌*◌, ◌≤◌, ◌<◌, ◌≡◌, refl, Bool, true, false, Text, pos, ◌+ℤ◌, ◌-ℤ◌, int_laws, arith,
}
use biocodetechpay.Money.{Cents, quantize}
use biocodetechpay.Fees.{
  is_pj, calculate_pix_outbound_fee, calculate_pix_fee, calculate_pix_service_fee,
  calculate_pix_receive_fee, fee_breakdown, asaas_pix_outbound_cost,
}

-- Every outbound fee covers the gateway's R$2.00 and leaves a margin of R$2.00 or more, which is
-- the R$1.00 surplus of the network fee and the R$1.00 maintenance fee.
pub outbound_margin :
    (doc : Text) (amount : Cents)
    → asaas_pix_outbound_cost + 200 ≤ calculate_pix_outbound_fee doc amount
unfolding calculate_pix_outbound_fee
outbound_margin doc amount = ground arith

pub sent_fee_pos : (doc : Text) (amount : Cents) → 0 < calculate_pix_fee doc amount true false
unfolding calculate_pix_fee
sent_fee_pos doc amount = omega (arith, outbound_margin doc amount)

-- A larger transfer never costs the same client less.
pub outbound_mono :
    (doc : Text) (a b : Cents)
    → a ≤ b
    → calculate_pix_outbound_fee doc a ≤ calculate_pix_outbound_fee doc b
unfolding calculate_pix_outbound_fee
outbound_mono doc a b h = ground arith

-- A company pays the minimum of R$4.00 up to an amount of R$500.00 (and the half cent that still
-- rounds down), and beyond that 0.80% of the amount to the nearest cent; a person pays R$4.00.
pub outbound_schedule :
    (doc : Text) (amount : Cents)
    → (is_pj doc ≡ false → calculate_pix_outbound_fee doc amount ≡ 400)
      × (is_pj doc ≡ true → amount ≤ 50000 → calculate_pix_outbound_fee doc amount ≡ 400)
      × (is_pj doc ≡ true
          → 50000 ≤ amount
          → calculate_pix_outbound_fee doc amount ≡ quantize (amount * 80))
unfolding calculate_pix_outbound_fee
outbound_schedule doc amount = ground arith

-- The break-down shows the fee that the dispatcher charges, and its parts add up: network fee and
-- service fee to the platform fee, gateway cost and margin to the platform fee.
pub breakdown_consistent :
    (doc : Text) (amount : Cents) (ext recv : Bool)
    → let b = fee_breakdown doc amount ext recv in
      (b.platform_fee ≡ calculate_pix_fee doc amount ext recv)
      × (pos b.network_fee +ℤ b.service_fee ≡ pos b.platform_fee)
      × (pos b.gateway_cost +ℤ b.net_margin ≡ pos b.platform_fee)
unfolding fee_breakdown calculate_pix_fee calculate_pix_receive_fee
breakdown_consistent doc amount true true = (refl, omega int_laws, omega int_laws)
breakdown_consistent doc amount true false = (refl, omega int_laws, omega int_laws)
breakdown_consistent doc amount false recv = (refl, omega int_laws, omega int_laws)

-- The service fee agrees with the break-down on transfers, sent or internal; on a deposit it is
-- minus R$2.00 for every client and amount, where the break-down says zero.
pub service_fee_deviation :
    (doc : Text) (amount : Cents)
    → (calculate_pix_service_fee doc amount true false
        ≡ (fee_breakdown doc amount true false).service_fee)
      × ((recv : Bool)
          → calculate_pix_service_fee doc amount false recv
            ≡ (fee_breakdown doc amount false recv).service_fee)
      × (calculate_pix_service_fee doc amount true true ≡ pos 0 -ℤ pos 200)
      × ((fee_breakdown doc amount true true).service_fee ≡ pos 0)
unfolding calculate_pix_service_fee fee_breakdown ◌-ℤ◌
service_fee_deviation doc amount = (refl, λ recv. refl, refl, refl)
