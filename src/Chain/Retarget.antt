-- ===== src/Chain/Retarget.antt =====
-- `nextWorkRequired` of src/coinChain/Chain.cpp: the compact target that a block must have after `blk`.
-- `set_compact` and `get_compact` stand for OpenSSL's reading and writing of the compact form.
pub mod Bounds
use libcoin.Base.{
  ℕ, zero, suc, ◌+◌, ◌-◌, ◌*◌, ◌/◌, ◌%◌, ◌^◌, ◌<◌, ◌≤◌, ◌≡◌, Bool, true, false, ◌&&◌, not, List, [],
  ◌∷◌, ltb, leb, ◌==◌, if◌then◌else◌, Result, ok, err, ◌>>=◌,
}
use libcoin.Base.Int.{ℤ, pos, negsuc, ◌+ℤ◌, ◌-ℤ◌, ◌*ℤ◌, ltb_ℤ}
use libcoin.BlockTree.Sparse.{BlockRef, SparseTree, TreeError, height, count, retreat}

-- Division of integers, towards 0.
unfoldable pub div_ℤ : ℤ → ℕ → ℤ
div_ℤ (pos a) n = pos (a / n)
div_ℤ (negsuc a) n = pos 0 -ℤ pos (suc a / n)

-- The actual time, held between two bounds.
unfoldable pub held : ℕ → ℕ → ℤ → ℤ
held low high actual =
    let raised = if ltb_ℤ actual (pos low) then pos low else actual in
    if ltb_ℤ (pos high) raised then pos high else raised

-- The value of `(h + 1) % nInterval != 0`, for a height that is negative on a branch.
unfoldable pub not_due : ℕ → ℤ → Bool
not_due interval (pos n) = not (suc n % interval == 0)
not_due interval (negsuc k) = not (k % interval == 0)

-- `~uint256(0) >> n`.
abbrev pub all_ones : ℕ → ℕ
all_ones n = 2 ^ (256 - n) - 1

-- The first block asks for the limit, and its height is 0.
abbrev pub is_genesis : ℤ → Bool
is_genesis (pos zero) = true
is_genesis (pos (suc n)) = false
is_genesis (negsuc k) = false

-- The bounds of the time for a block of Dogecoin, at the count `n`.
unfoldable pub dogecoin_held : ℕ → ℤ → ℤ
dogecoin_held n actual =
    if leb 145000 n
    then held 45 90 (pos 60 +ℤ div_ℤ (actual -ℤ pos 60) 8)
    else if ltb 10000 n
    then held 3600 57600 actual
    else if ltb 5000 n
    then held 1800 57600 actual
    else held 900 57600 actual

module _ (set_compact : ℕ → ℤ) (get_compact : ℤ → ℕ) where
  -- The new target: the old one times the time that was taken, over the time meant, below the limit.
  unfoldable pub new_target : ℕ → ℕ → ℕ → ℤ → ℤ
  new_target limit timespan bits actual =
      let target = div_ℤ (set_compact bits *ℤ actual) timespan in
      if ltb_ℤ (pos limit) target then pos limit else target

  -- What the chains have in common, with how far each goes back.
  unfoldable pub next_work : ℕ → ℕ → ℕ → (ℤ → ℕ) → ℕ → SparseTree → BlockRef → Result TreeError ℕ
  next_work limit interval timespan back first t blk = do
    h ← height t blk.hash
    let retarget = (do
      former ← retreat t blk (back h)
      ok (
          get_compact (
            new_target limit timespan blk.bits
              (held (timespan / 4) (timespan * 4) (pos blk.time -ℤ pos former.time)))))
    if is_genesis h then ok first else if not_due interval h then ok blk.bits else retarget

  -- `BitcoinChain::nextWorkRequired`.
  unfoldable pub bitcoin_work : SparseTree → BlockRef → Result TreeError ℕ
  bitcoin_work =
      let limit = all_ones 32 in next_work limit 2016 1209600 (λ h. 2015) (get_compact (pos limit))

  -- `NamecoinChain::nextWorkRequired`.
  unfoldable pub namecoin_work : SparseTree → BlockRef → Result TreeError ℕ
  namecoin_work =
      next_work (all_ones 32) 2016 1209600
        (λ h. if not (ltb_ℤ h (pos 19200)) && ltb_ℤ (pos 2016) (h +ℤ pos 1) then 2016 else 2015)
        0x1c00_7fff

  -- `LitecoinChain::nextWorkRequired`; `first` is the compact target of its first block.
  unfoldable pub litecoin_work : ℕ → SparseTree → BlockRef → Result TreeError ℕ
  litecoin_work first =
      next_work (all_ones 20) 2016 302400
        (λ h. elim h [ pos n ↦ if suc n == 2016 then 2015 else 2016 | negsuc k ↦ 2016 ]) first

  -- `TerracoinChain::nextWorkRequired`.
  unfoldable pub terracoin_work : SparseTree → BlockRef → Result TreeError ℕ
  terracoin_work =
      let limit = all_ones 32 in next_work limit 30 3600 (λ h. 29) (get_compact (pos limit))

  -- `DogecoinChain::nextWorkRequired`; `first` is the compact target of its first block.
  unfoldable pub dogecoin_work : ℕ → SparseTree → BlockRef → Result TreeError ℕ
  dogecoin_work first t blk = do
    n ← count t blk.hash
    h ← height t blk.hash
    let interval = if leb 145000 n then 1 else 240
    let timespan = if leb 145000 n then 60 else 14400
    let retarget = (do
      former ← retreat t blk (if n == interval then interval - 1 else interval)
      ok (
          get_compact (
            new_target (all_ones 20) timespan blk.bits
              (dogecoin_held n (pos blk.time -ℤ pos former.time)))))
    if is_genesis h then ok first else if not (n % interval == 0) then ok blk.bits else retarget
