-- ===== src/Chain/ProofOfWork.antt =====
-- `checkProofOfWork`, src/coinChain/Chain.cpp. `set_compact` and
-- `get_uint256` stand for OpenSSL's reading of the compact form and its writing of a number.
use Prim.Native.Nat.{bit_and}
use libcoin.Base.{
  ◌^◌, ℕ, zero, suc, ◌<◌, ◌≤◌, ◌≡◌, ◌↔◌, refl, Bool, true, false, ◌&&◌, ◌||◌, not, arith, ltb, leb,
  ◌==◌, if◌then◌else◌, Bool-cases, inl, inr,
}
use libcoin.Base.Int.{ℤ, pos, negsuc, ltb_ℤ}
use libcoin.Chain.Retarget.{all_ones}

-- `target <= 0`.
abbrev is_not_positive : ℤ → Bool
is_not_positive (pos zero) = true
is_not_positive (pos (suc n)) = false
is_not_positive (negsuc k) = true

abbrev pub block_version_auxpow : ℕ
block_version_auxpow = 2 ^ 8

module _ (set_compact : ℕ → ℤ) (get_uint256 : ℤ → ℕ) where
  -- `checkProofOfWork` for the limit of a chain, of the hash and the compact target of a block.
  unfoldable pub check_proof_of_work : ℕ → ℕ → ℕ → Bool
  check_proof_of_work limit hash bits =
      let target = set_compact bits in
      if not (limit == 0) && (is_not_positive target || ltb_ℤ (pos limit) target)
      then false
      else not (ltb (get_uint256 target) hash)

  -- `BitcoinChain`, `TestNet3Chain` and `TerracoinChain`, and `LitecoinChain` with its own hash.
  unfoldable pub bitcoin_check_work : ℕ → ℕ → Bool
  bitcoin_check_work = check_proof_of_work (all_ones 32)

  unfoldable pub litecoin_check_work : ℕ → ℕ → Bool
  litecoin_check_work = check_proof_of_work (all_ones 20)

  -- The same for a target.
  abbrev accepts : ℕ → ℕ → ℤ → Bool
  accepts limit hash target =
      if not (limit == 0) && (is_not_positive target || ltb_ℤ (pos limit) target)
      then false
      else not (ltb (get_uint256 target) hash)

  accepts_lem :
      (limit hash : ℕ) (z : ℤ)
      → ((n : ℕ) → n ≤ limit → get_uint256 (pos n) ≡ n)
      → 0 < limit
      → (accepts limit hash z ≡ true) ↔ ((n : ℕ) × (z ≡ pos n) × (0 < n) × (n ≤ limit) × (hash ≤ n))
  accepts_lem limit hash (negsuc k) exact some_limit =
      ((λ h. absurd (ground arith)), (λ (n, is, some_n, h, k). absurd (ground arith)))
  accepts_lem limit hash (pos zero) exact some_limit =
      ((λ h. absurd (ground arith)), (λ (n, is, some_n, h, k). absurd (ground arith)))
  accepts_lem limit hash (pos (suc n)) exact some_limit = elim (Bool-cases (leb (suc n) limit)) [
    | inl low ↦
        let value = exact (suc n) (ground arith) in
        (
          (λ h. (suc n, refl, omega arith, ground arith, ground (arith, value))),
          (λ (m, is, some_m, below, enough). ground (arith, value)),
        )
    | inr high ↦
        ((λ h. absurd (ground arith)), (λ (m, is, some_m, below, enough). absurd (ground arith)))
  ]

  -- Where the numbers up to a limit that is not 0 are written as they are, `checkProofOfWork` accepts a
  -- hash just if the compact target reads as a positive number that is at most the limit and at least
  -- the hash.
  pub check_proof_of_work_lem :
      (limit hash bits : ℕ)
      → ((n : ℕ) → n ≤ limit → get_uint256 (pos n) ≡ n)
      → 0 < limit
      → (check_proof_of_work limit hash bits ≡ true)
        ↔ ((n : ℕ) × (set_compact bits ≡ pos n) × (0 < n) × (n ≤ limit) × (hash ≤ n))
  unfolding check_proof_of_work
  check_proof_of_work_lem limit hash bits exact some_limit =
      accepts_lem limit hash (set_compact bits) exact some_limit

  -- `NamecoinChain::checkProofOfWork`, and `DogecoinChain` with its own hashes: `aux_valid` tells what
  -- `AuxPow::Check` says, and `parent` is the hash of the block that the work was done for.
  unfoldable pub merged_check_work : ℕ → ℕ → ℕ → Bool → ℕ → ℕ → Bool
  merged_check_work limit version hash aux_valid parent bits =
      let target = set_compact bits in
      if not (limit == 0) && (is_not_positive target || ltb_ℤ (pos limit) target)
      then false
      else if not (bit_and version block_version_auxpow == 0)
      then (if not aux_valid then false else not (ltb (get_uint256 target) parent))
      else not (ltb (get_uint256 target) hash)

  -- `NamecoinChain`, and `DogecoinChain` with the hashes of its proof of work.
  unfoldable pub namecoin_check_work : ℕ → ℕ → Bool → ℕ → ℕ → Bool
  namecoin_check_work = merged_check_work (all_ones 32)

  unfoldable pub dogecoin_check_work : ℕ → ℕ → Bool → ℕ → ℕ → Bool
  dogecoin_check_work = merged_check_work (all_ones 20)
