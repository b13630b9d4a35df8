-- ===== src/Validators/Validator.antt =====
-- validators/types.go, ecdsa.go and bls.go: one validator.
-- An address is the number that its 20 bytes spell, so the zero address is 0.
use mainnet.Common.{
  ℕ, ◌≡◌, Bool, true, false, ◌&&◌, List, ◌==◌, bytes_equal, eq_of_bytes_equal, arith,
}

pub data ValidatorType : Type 0 where
  ecdsa bls : ValidatorType

abbrev pub same_type : ValidatorType → ValidatorType → Bool
same_type ecdsa ecdsa = true
same_type bls bls = true
same_type _ _ = false

pub data Validator : Type 0 where
  ecdsa_validator : ℕ → Validator
  bls_validator : ℕ → List ℕ → Validator

abbrev pub type_of : Validator → ValidatorType
type_of (ecdsa_validator a) = ecdsa
type_of (bls_validator a k) = bls

abbrev pub addr : Validator → ℕ
addr (ecdsa_validator a) = a
addr (bls_validator a k) = a

unfoldable pub equal : Validator → Validator → Bool
unfolding bytes_equal
equal (ecdsa_validator a) (ecdsa_validator b) = a == b
equal (bls_validator a k) (bls_validator b l) = a == b && bytes_equal k l
equal _ _ = false

pub eq_of_equal : (v w : Validator) → equal v w ≡ true → v ≡ w
unfolding equal
eq_of_equal (ecdsa_validator a) (ecdsa_validator b) h = ground arith
eq_of_equal (ecdsa_validator a) (bls_validator b l) h = ground arith
eq_of_equal (bls_validator a k) (ecdsa_validator b) h = ground arith
eq_of_equal (bls_validator a k) (bls_validator b l) h = ground (arith, eq_of_bytes_equal k l)
