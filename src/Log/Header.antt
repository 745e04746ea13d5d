-- ===== src/Log/Header.antt =====
-- The header block of the log: what `write_head` writes is what `read_head` reads (xv6/log.c).
use operation_system.Base.{
  ℕ, ◌+◌, ◌≤◌, ◌<◌, ◌≡◌, refl, ap, ap₂, ◌∙◌, List, [], ◌∷◌, arith, length, get_or, set, length-set,
  get_or-set_self, get_or-set_ne,
}
use operation_system.Log.Disk.{Block}
use operation_system.Log.{put_blocks, get_blocks, encode, decode}

length-put_blocks : (hb : Block) (i : ℕ) (bs : List ℕ) → length (put_blocks hb i bs) ≡ length hb
unfolding put_blocks
length-put_blocks hb i [] = refl
length-put_blocks hb i (b ∷ bs) =
    length-put_blocks (set hb (i + 1) b) (i + 1) bs ∙ length-set hb (i + 1) b

pub length-encode : (hb : Block) (bs : List ℕ) → length (encode hb bs) ≡ length hb
unfolding encode
length-encode hb bs = length-put_blocks (set hb 0 (length bs)) 0 bs ∙ length-set hb 0 (length bs)

-- The words up to `i` are left alone.
get-put_blocks_before :
    (hb : Block) (i : ℕ) (bs : List ℕ) (j : ℕ)
    → j ≤ i
    → get_or (put_blocks hb i bs) j 0 ≡ get_or hb j 0
unfolding put_blocks
get-put_blocks_before hb i [] j h = refl
get-put_blocks_before hb i (b ∷ bs) j h =
    get-put_blocks_before (set hb (i + 1) b) (i + 1) bs j (omega arith)
    ∙ get_or-set_ne hb (i + 1) j b 0 (omega arith)

get_blocks-put_blocks :
    (hb : Block) (i : ℕ) (bs : List ℕ)
    → i + length bs < length hb
    → get_blocks (put_blocks hb i bs) i (length bs) ≡ bs
unfolding put_blocks get_blocks
get_blocks-put_blocks hb i [] h = refl
get_blocks-put_blocks hb i (b ∷ bs) h =
    ap₂ ◌∷◌
      (get-put_blocks_before (set hb (i + 1) b) (i + 1) bs (i + 1) (omega arith)
        ∙ get_or-set_self hb (i + 1) b 0 (omega arith))
      (get_blocks-put_blocks (set hb (i + 1) b) (i + 1) bs (omega (arith, length-set hb (i + 1) b)))

-- Reading the header block gives back the block numbers that were written to it, if they fit.
pub decode-encode : (hb : Block) (bs : List ℕ) → length bs < length hb → decode (encode hb bs) ≡ bs
unfolding decode encode
decode-encode hb bs h =
    ap (get_blocks (put_blocks (set hb 0 (length bs)) 0 bs) 0) (
      get-put_blocks_before (set hb 0 (length bs)) 0 bs 0 (omega arith)
      ∙ get_or-set_self hb 0 (length bs) 0 (omega arith))
    ∙ get_blocks-put_blocks (set hb 0 (length bs)) 0 bs (omega (arith, length-set hb 0 (length bs)))
