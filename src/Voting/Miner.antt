-- ===== src/Voting/Miner.antt =====
-- validatorToMiner, minerToValidator and isAuthorize: a vote in the fields of a header, and back.
use mainnet.Common.{
  ℕ, zero, suc, ◌+◌, ◌-◌, ◌*◌, ◌/◌, ◌%◌, ◌^◌, ◌<◌, ◌≡◌, refl, ap, ◌∙◌, Bool, true, false, not, ◌&&◌,
  none, some, List, [], ◌∷◌, ◌++◌, arith, ◌==◌, if◌then◌else◌, Result, ok, err,
}
use native.Mathlib.Nat.{pow-suc}
use mainnet.Validators.Validator.{
  ValidatorType, ecdsa, bls, Validator, ecdsa_validator, bls_validator, type_of, addr,
}
use mainnet.Voting.Types.{Error, incorrect_nonce, invalid_nonce, undecodable_miner, Env, Header}

abbrev pub nonce_auth_vote : ℕ
nonce_auth_vote = 2 ^ 64 - 1

abbrev pub nonce_drop_vote : ℕ
nonce_drop_vote = 0

unfoldable pub is_authorize : ℕ → Result Error Bool
is_authorize nonce =
    if nonce == nonce_auth_vote
    then ok true
    else if nonce == nonce_drop_vote
    then ok false
    else err incorrect_nonce

-- The n low bytes of a number, the highest first: Address.Bytes at n = 20.
unfoldable pub low_bytes : ℕ → ℕ → List ℕ
low_bytes zero a = []
low_bytes (suc n) a = low_bytes n (a / 256) ++ a % 256 ∷ []

-- BytesToAddress keeps the last 20 bytes, and fills up with zeroes on the left.
unfoldable pub spelled : ℕ → List ℕ → ℕ
spelled acc [] = acc
spelled acc (b ∷ bs) = spelled (acc * 256 + b) bs

unfoldable pub bytes_to_address : List ℕ → ℕ
unfolding spelled
bytes_to_address bs = spelled 0 bs % 2 ^ 160

abbrev pub address_bytes : ℕ → List ℕ
address_bytes a = low_bytes 20 a

unfoldable pub validator_to_miner : Env → Validator → List ℕ
validator_to_miner env (ecdsa_validator a) = address_bytes a
validator_to_miner env (bls_validator a k) = env.encode_bls a k

unfoldable pub miner_to_validator : Env → ValidatorType → List ℕ → Result Error Validator
miner_to_validator env ecdsa miner = ok (ecdsa_validator (bytes_to_address miner))
miner_to_validator env bls miner = elim (env.decode_bls miner) [
  | none ↦ err undecodable_miner
  | some (a, k) ↦ ok (bls_validator a k)
]

-- VerifyHeader.
unfoldable pub verify_header : Header → Result Error (Unit {0})
verify_header h =
    if not (h.nonce == nonce_auth_vote) && not (h.nonce == nonce_drop_vote)
    then err invalid_nonce
    else ok tt

spelled-append : (bs : List ℕ) (acc b : ℕ) → spelled acc (bs ++ b ∷ []) ≡ spelled acc bs * 256 + b
unfolding spelled
spelled-append [] acc b = refl
spelled-append (c ∷ bs) acc b = spelled-append bs (acc * 256 + c) b

pub spelled-low_bytes : (n a : ℕ) → a < 256 ^ n → spelled 0 (low_bytes n a) ≡ a
unfolding spelled low_bytes
spelled-low_bytes zero a h = omega arith
spelled-low_bytes (suc n) a h =
    let h' : a < 256 ^ n * 256 = rw pow-suc at h in
    spelled-append (low_bytes n (a / 256)) 0 (a % 256)
    ∙ omega (arith, spelled-low_bytes n (a / 256) (omega arith))

-- Reading back the miner field of a header gives the validator that was written to it: for every
-- 20-byte address, and for every BLS validator that the RLP coding itself reads back.
pub miner_to_validator-validator_to_miner :
    (env : Env) (v : Validator)
    → addr v < 2 ^ 160
    → ((a : ℕ) (k : List ℕ) → env.decode_bls (env.encode_bls a k) ≡ some (a, k))
    → miner_to_validator env (type_of v) (validator_to_miner env v) ≡ ok v
unfolding miner_to_validator validator_to_miner bytes_to_address
miner_to_validator-validator_to_miner env (ecdsa_validator a) h rlp =
    rw (spelled-low_bytes 20 a h) (ap (λ (x : ℕ). ok (ecdsa_validator x)) (omega arith))
miner_to_validator-validator_to_miner env (bls_validator a k) h rlp = rw (rlp a k)
