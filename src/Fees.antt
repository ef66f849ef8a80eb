-- ===== src/Fees.antt =====
-- The fee engine, app/core/fees.py: what a transfer, a deposit and a boleto cost the client, and the
-- break-down that the fee preview shows. Amounts are whole cents.
pub mod Bounds
mod Tests
use biocodetechpay.Prelude.{
  ℕ, ◌+◌, ◌*◌, max, ℤ, pos, ◌-ℤ◌, Bool, true, false, Text, codes, is_digit, keep_if, length, ◌==◌,
  if◌then◌else◌, ◌++◌,
}
use biocodetechpay.Money.{Cents, reais, quantize}
use biocodetechpay.Money.Format.{format_amount}

-- `ASAAS_PIX_OUTBOUND_COST`
abbrev pub asaas_pix_outbound_cost : Cents
asaas_pix_outbound_cost = reais 2 0

abbrev pub pix_network_fee : Cents
pix_network_fee = reais 3 0

abbrev pub pix_maintenance_fee : Cents
pix_maintenance_fee = reais 1 0

abbrev pub pix_inbound_network_fee : Cents
pix_inbound_network_fee = reais 2 0

-- `_PIX_SENT_PF`
abbrev pub pix_sent_pf : Cents
pix_sent_pf = pix_network_fee + pix_maintenance_fee

-- `_PIX_SENT_MIN_PJ`
abbrev pub pix_sent_min_pj : Cents
pix_sent_min_pj = pix_network_fee + pix_maintenance_fee

-- `_PIX_SENT_RATE_PJ`, in ten-thousandths: 0.0080
abbrev pub pix_sent_rate_pj : ℕ
pix_sent_rate_pj = 80

abbrev pub boleto_pf : Cents
boleto_pf = reais 2 49

abbrev pub boleto_pj : Cents
boleto_pj = reais 2 99

-- `re.sub(r"\D", "", cpf_cnpj)`, on ASCII text
unfoldable pub raw_digits : Text → Text
raw_digits cpf_cnpj = keep_if is_digit cpf_cnpj

unfoldable pub is_pj : Text → Bool
unfolding raw_digits
is_pj cpf_cnpj = length (raw_digits cpf_cnpj) == 14

-- The rate makes ten-thousandths of a cent, which `quantize` rounds after the minimum is taken.
unfoldable pub calculate_pix_outbound_fee : Text → Cents → Cents
unfolding quantize
calculate_pix_outbound_fee cpf_cnpj amount =
    if is_pj cpf_cnpj
    then quantize (max (amount * pix_sent_rate_pj) (pix_sent_min_pj * 10000))
    else pix_sent_pf

unfoldable pub calculate_pix_receive_fee : Text → Cents → Cents
calculate_pix_receive_fee cpf_cnpj amount = 0

unfoldable pub calculate_pix_fee : Text → Cents → (is_external is_received : Bool) → Cents
unfolding calculate_pix_receive_fee
calculate_pix_fee cpf_cnpj amount is_external is_received =
    if is_external
    then (if is_received
        then calculate_pix_receive_fee cpf_cnpj amount
        else calculate_pix_outbound_fee cpf_cnpj amount)
    else 0

unfoldable pub calculate_pix_network_fee : Text → Cents → (is_external is_received : Bool) → Cents
calculate_pix_network_fee cpf_cnpj amount is_external is_received =
    if is_external then (if is_received then pix_inbound_network_fee else pix_network_fee) else 0

-- A difference, so signed: the source does not bound it by zero.
unfoldable pub calculate_pix_service_fee : Text → Cents → (is_external is_received : Bool) → ℤ
unfolding calculate_pix_fee calculate_pix_network_fee
calculate_pix_service_fee cpf_cnpj amount is_external is_received =
    pos (calculate_pix_fee cpf_cnpj amount is_external is_received)
    -ℤ pos (calculate_pix_network_fee cpf_cnpj amount is_external is_received)

-- The labels of the break-down, one for each text of the source.
pub data FeeLabel : Type 0 where
  internal_free deposit_free outbound_pj outbound_pf : FeeLabel

pub record FeeBreakdown : Type 0 where
  pub gateway_cost : Cents
  pub platform_fee : Cents
  pub network_fee : Cents
  pub service_fee : ℤ
  pub net_margin : ℤ
  pub fee_label : FeeLabel
  pub fee_display : Text
  pub is_zero_cost : Bool

-- `fee_display`
unfoldable pub display : Cents → Text
unfolding format_amount
display fee = if fee == 0 then codes "Gratuito" else codes "R$ " ++ format_amount b',' fee

unfoldable pub fee_breakdown : Text → Cents → (is_external is_received : Bool) → FeeBreakdown
unfolding display
fee_breakdown cpf_cnpj amount false is_received = record {
  gateway_cost = 0;
  platform_fee = 0;
  network_fee = 0;
  service_fee = pos 0;
  net_margin = pos 0;
  fee_label = internal_free;
  fee_display = display 0;
  is_zero_cost = true;
}
fee_breakdown cpf_cnpj amount true true = record {
  gateway_cost = 0;
  platform_fee = 0;
  network_fee = 0;
  service_fee = pos 0;
  net_margin = pos 0 -ℤ pos 0;
  fee_label = deposit_free;
  fee_display = display 0;
  is_zero_cost = 0 == 0;
}
fee_breakdown cpf_cnpj amount true false =
    let p_fee = calculate_pix_outbound_fee cpf_cnpj amount in
    record {
      gateway_cost = asaas_pix_outbound_cost;
      platform_fee = p_fee;
      network_fee = pix_network_fee;
      service_fee = pos p_fee -ℤ pos pix_network_fee;
      net_margin = pos p_fee -ℤ pos asaas_pix_outbound_cost;
      fee_label = if is_pj cpf_cnpj then outbound_pj else outbound_pf;
      fee_display = display p_fee;
      is_zero_cost = asaas_pix_outbound_cost == 0;
    }

unfoldable pub calculate_boleto_fee : Text → Cents
calculate_boleto_fee cpf_cnpj = if is_pj cpf_cnpj then boleto_pj else boleto_pf
