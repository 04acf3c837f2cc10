-- ===== src/Transaction/Verify/MultiSig.antt =====
-- The loop of OP_CHECKMULTISIG finds a match if there is one.
use libcoin.Base.{
  ◌≤◌, ◌≡◌, ◌↔◌, inl, inr, refl, Bool, true, false, List, [], ◌∷◌, Bytes, length, arith, Bool-cases,
}
use libcoin.Transaction.Verify.{match_signatures}

module _ (check : Bytes → Bytes → Bool) where
  -- Each signature is by a key of its own, the keys in the order of the signatures.
  pub data Matches : List Bytes → List Bytes → Type 0 where
    done : {keys : List Bytes} → Matches [] keys
    by :
        {s k : Bytes} {ss ks : List Bytes}
        → check s k ≡ true
        → Matches ss ks
        → Matches (s ∷ ss) (k ∷ ks)
    skip : {s k : Bytes} {ss ks : List Bytes} → Matches (s ∷ ss) ks → Matches (s ∷ ss) (k ∷ ks)

  Matches-length : (ss ks : List Bytes) → Matches ss ks → length ss ≤ length ks
  Matches-length _ _ (done {keys}) = omega arith
  Matches-length _ _ (by {s} {k} {ss} {ks} e m) = omega (arith, Matches-length ss ks m)
  Matches-length _ _ (skip {s} {k} {ss} {ks} m) = omega (arith, Matches-length (s ∷ ss) ks m)

  -- A signature fewer is matched by a key fewer.
  Matches-tail : (s : Bytes) (ss ks : List Bytes) → Matches (s ∷ ss) ks → Matches ss ks
  Matches-tail s [] ks m = done
  Matches-tail s (t ∷ ss) _ (by e m) = skip m
  Matches-tail s (t ∷ ss) _ (skip {ks = ks} m) = skip (Matches-tail s (t ∷ ss) ks m)

  Matches-first : (s k : Bytes) (ss ks : List Bytes) → Matches (s ∷ ss) (k ∷ ks) → Matches ss ks
  Matches-first s k ss ks (by e m) = m
  Matches-first s k ss ks (skip m) = Matches-tail s ss ks m

  Matches-skipped :
      (s k : Bytes) (ss ks : List Bytes)
      → check s k ≡ false
      → Matches (s ∷ ss) (k ∷ ks)
      → Matches (s ∷ ss) ks
  Matches-skipped s k ss ks bad (by e m) = cc
  Matches-skipped s k ss ks bad (skip m) = m

  match_signatures_complete :
      (ss ks : List Bytes) → Matches ss ks → match_signatures check ss ks ≡ true
  unfolding match_signatures
  match_signatures_complete [] ks m = refl
  match_signatures_complete (s ∷ ss) [] m = absurd (omega (arith, Matches-length (s ∷ ss) [] m))
  match_signatures_complete (s ∷ ss) (k ∷ ks) m = elim (Bool-cases (check s k)) [
    | inl good ↦
        let rest = Matches-first s k ss ks m in
        let fits = Matches-length ss ks rest in
        rw good (ground (arith, match_signatures_complete ss ks rest))
    | inr bad ↦
        let rest = Matches-skipped s k ss ks bad m in
        let fits = Matches-length (s ∷ ss) ks rest in
        rw bad (ground (arith, match_signatures_complete (s ∷ ss) ks rest))
  ]

  match_signatures_sound :
      (ss ks : List Bytes) → match_signatures check ss ks ≡ true → Matches ss ks
  unfolding match_signatures
  match_signatures_sound [] ks e = done
  match_signatures_sound (s ∷ ss) [] e = cc
  match_signatures_sound (s ∷ ss) (k ∷ ks) e = elim (Bool-cases (check s k)) [
    | inl good ↦ by good (match_signatures_sound ss ks (ground arith))
    | inr bad ↦ skip (match_signatures_sound (s ∷ ss) ks (ground arith))
  ]

  -- OP_CHECKMULTISIG takes the first key that fits each signature, and finds a match, with the keys
  -- in the order of the signatures, exactly if there is one.
  pub match_signatures-Matches :
      (ss ks : List Bytes) → (match_signatures check ss ks ≡ true) ↔ Matches ss ks
  match_signatures-Matches ss ks = (match_signatures_sound ss ks, match_signatures_complete ss ks)
