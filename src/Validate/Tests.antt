-- ===== src/Validate/Tests.antt =====
-- Runs of internal/platform/validate/validate.go, and the theorem at an input.
use market_place.Prelude.{◌≡◌, refl, none, some, [], arith}
use market_place.Bytes.{Bytes, codes, index_byte}
use market_place.Validate.Fields.{
  invalid_state, checksum, Clean, gstin, gstin_failure, gstin_checksum_ok, gstin_sum, is_digits,
  is_alpha, all_in, pan_shape, accept_or,
}
use market_place.Validate.Checksum.{Refused, gstin-OneOff}

abbrev number : Bytes
number = codes "27AAPFU0939F1ZV"

-- Two digits of the embedded account number are not the first's.
abbrev mistyped : Bytes
mistyped = codes "27AAPFU0989F1ZV"

passes : gstin_failure number ≡ none
unfolding gstin_failure gstin_checksum_ok gstin_sum is_digits is_alpha all_in pan_shape index_byte
passes = refl

wrong_check : gstin_failure mistyped ≡ some checksum
unfolding gstin_failure gstin_checksum_ok gstin_sum is_digits is_alpha all_in pan_shape index_byte
wrong_check = refl

no_state : gstin_failure (codes "45AAPFU0939F1ZV") ≡ some invalid_state
unfolding gstin_failure gstin_checksum_ok gstin_sum is_digits is_alpha all_in pan_shape index_byte
no_state = refl

-- Texts that are clean already.
abbrev as_is : Clean
as_is = record { trim = λ s. s; upper = λ s. s; lower = λ s. s }

accepted : (gstin as_is (codes "gstin") number []).1 ≡ []
unfolding gstin accept_or gstin_failure gstin_checksum_ok gstin_sum is_digits is_alpha all_in
    pan_shape index_byte
accepted = refl

gstin-OneOff_example : Refused (codes "gstin") [] (gstin as_is (codes "gstin") mistyped [])
gstin-OneOff_example =
    gstin-OneOff as_is (codes "gstin") number mistyped [] [] accepted (ground arith)
