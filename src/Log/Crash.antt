-- ===== src/Log/Crash.antt =====
-- A transaction of xv6/log.c is atomic: whenever the power fails, and however often recovery itself
-- is cut off, the disk comes back with all of it or none of it.
use operation_system.Base.{ℕ, ◌≤◌, ◌<◌, ◌≡◌, false, List, [], length, All}
use operation_system.Log.Disk.{Block}
use operation_system.Log.{decode, logsize, mem}
use operation_system.Log.Copy.{Logged, Outside}

module _ (start size : ℕ) where
  -- The disk has the contents `g` outside the log.
  abbrev pub Has : (ℕ → Block) → (ℕ → Block) → Type 0
  Has d g = (b : ℕ) → Outside start size b → d b ≡ g b

  pub record Clean (d g : ℕ → Block) : Type 0 where
    pub room : logsize < length (d start)
    pub head : decode (d start) ≡ []
    pub has : Has d g

  -- The transaction is committed: the header names its blocks and the log has their contents.
  pub record Pending (bs : List ℕ) (d g : ℕ → Block) : Type 0 where
    pub room : logsize < length (d start)
    pub head : decode (d start) ≡ bs
    pub logged : Logged start d g 0 bs
    pub others : (b : ℕ) → Outside start size b → mem b bs ≡ false → d b ≡ g b

  -- What the disk may be at any time: as before the transaction, committed, or as after it.
  pub data Recoverable (bs : List ℕ) (old new d : ℕ → Block) : Type 0 where
    before : Clean d old → Recoverable bs old new d
    committed : Pending bs d new → Recoverable bs old new d
    after : Clean d new → Recoverable bs old new d

  -- What a log must be for a transaction of the blocks `bs`.
  pub record Fits (bs : List ℕ) : Type 0 where
    pub outside : All (Outside start size) bs
    pub in_log : length bs < size
    pub in_head : length bs ≤ logsize
