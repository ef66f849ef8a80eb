-- ===== src/Documents/Tests.antt =====
-- Runs of the validators on documents whose check digits are known, and the theorems at inputs that
-- meet their hypotheses.
use biocodetechpay.Prelude.{◌≡◌, refl, codes, true, false}
use biocodetechpay.Documents.{validate_cpf, validate_cnpj, cpf_check, cnpj_check}

cpf_ok : validate_cpf (codes "529.982.247-25") ≡ true
unfolding validate_cpf cpf_check
cpf_ok = refl

cpf_plain : validate_cpf (codes "52998224725") ≡ true
unfolding validate_cpf cpf_check
cpf_plain = refl

cpf_bad : validate_cpf (codes "529.982.247-24") ≡ false
unfolding validate_cpf cpf_check
cpf_bad = refl

cnpj_ok : validate_cnpj (codes "11.222.333/0001-81") ≡ true
unfolding validate_cnpj cnpj_check
cnpj_ok = refl

cnpj_plain : validate_cnpj (codes "11222333000181") ≡ true
unfolding validate_cnpj cnpj_check
cnpj_plain = refl
