-- ===== src/Log/Disk.antt =====
-- The disk and the buffer cache as xv6/log.c uses them. `bread(b)->data` is `view b`; the disk
-- stops taking writes when the power fails, after `power` more of them.
use operation_system.Base.{ℕ, ◌-◌, ◌<◌, ◌≡◌, refl, ◌≢◌, List, arith, ◌==◌, if◌then◌else◌}

abbrev pub Block : Type 0
Block = List ℕ

pub record Store : Type 0 where
  pub disk : ℕ → Block
  pub view : ℕ → Block
  pub power : ℕ

abbrev pub put : (ℕ → Block) → ℕ → Block → ℕ → Block
put f b v a = if b == a then v else f a

-- `bp->data` is set to `v`, then `bwrite(bp)`.
unfoldable pub bwrite : Store → ℕ → Block → Store
bwrite s b v = record {
  disk = if s.power == 0 then s.disk else put s.disk b v;
  view = put s.view b v;
  power = s.power - 1;
}

-- What a machine finds when it starts again: the disk, and no buffers.
unfoldable pub reboot : Store → ℕ → Store
reboot s k = record { disk = s.disk; view = s.disk; power = k }

pub power-bwrite : (s : Store) (b : ℕ) (v : Block) → (bwrite s b v).power ≡ s.power - 1
unfolding bwrite
power-bwrite s b v = refl

pub disk-bwrite_ne :
    (s : Store) (b : ℕ) (v : Block) (a : ℕ) → b ≢ a → (bwrite s b v).disk a ≡ s.disk a
unfolding bwrite
disk-bwrite_ne s b v a ne = ground arith

pub disk-bwrite_off : (s : Store) (b : ℕ) (v : Block) → s.power ≡ 0 → (bwrite s b v).disk ≡ s.disk
unfolding bwrite
disk-bwrite_off s b v off = rw off

pub view-bwrite_self : (s : Store) (b : ℕ) (v : Block) → (bwrite s b v).view b ≡ v
unfolding bwrite
view-bwrite_self s b v = ground arith

pub view-bwrite_ne :
    (s : Store) (b : ℕ) (v : Block) (a : ℕ) → b ≢ a → (bwrite s b v).view a ≡ s.view a
unfolding bwrite
view-bwrite_ne s b v a ne = ground arith

pub disk-bwrite_self : (s : Store) (b : ℕ) (v : Block) → 0 < s.power → (bwrite s b v).disk b ≡ v
unfolding bwrite
disk-bwrite_self s b v on = ground arith
