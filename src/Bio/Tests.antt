-- ===== src/Bio/Tests.antt =====
-- xv6/bio.c at concrete inputs, and its theorems there.
use operation_system.Bio.Ops.{write_view}
use operation_system.Bio.Change.{fill}
use operation_system.Base.{
  sym, ap, none, Option, ℕ, ◌≡◌, refl, inl, inr, true, some, List, [], ◌∷◌, arith, ◌==◌,
  if◌then◌else◌,
}
use operation_system.Bio.{
  unused, bwrite, brelse, reads, Buf, Cache, put_buf, find_next, find_prev, binit_order, bget,
  iderw, bread_locked,
}
use operation_system.Bio.Coherent.{In, lower, bump}
use operation_system.Bio.Latest.{
  release, write, change, lock, Reach, Use, get, here, next, empty_buf, start, Reach-Latest,
  Reach-stored,
}

abbrev disk : ℕ → List ℕ
disk b = if b == 7 then 1 ∷ 2 ∷ [] else []

-- A cache of two buffers; the one that is last in the list gets block 7.
abbrev got : Use
got = record {
  cache = put_buf (start 2 disk 10).cache 0 (record empty_buf { dev = 1; blockno = 7; refcnt = 1 });
  view = disk;
  pend = bump (λ i. 0) 0;
}

abbrev read_buf : Buf
read_buf = record empty_buf {
  dev = 1;
  blockno = 7;
  refcnt = 1;
  locked = true;
  valid = true;
  content = 1 ∷ 2 ∷ [];
}

got_7 : bget (start 2 disk 10).cache 1 7 ≡ some (got.cache, 0)
unfolding bget find_next find_prev binit_order
got_7 = refl

-- Its content is read from the disk once the lock is taken.
abbrev read_cache : Cache
read_cache = put_buf (put_buf got.cache 0 (record (got.cache.buf 0) { locked = true })) 0 read_buf

read_7 : bread_locked got.cache 0 ≡ reads read_cache
unfolding bread_locked iderw
read_7 = refl

Reach-Latest_example :
    ((read_cache.buf 0).content ≡ got.view (got.cache.buf 0).blockno)
    × ((read_cache.buf 0).blockno ≡ (got.cache.buf 0).blockno)
    × ((read_cache.buf 0).locked ≡ true)
unfolding binit_order
Reach-Latest_example =
    Reach-Latest 2 disk 10 got 0 read_cache (next here (get 7 0 got_7)) (inr (inl refl))
      (omega arith) read_7

-- A process reads block 7, changes it, writes it to the disk and releases the buffer.
abbrev cache_of : Cache → Option Cache → Cache
cache_of c none = c
cache_of c (some c') = c'

abbrev holds : Use
holds = record got { cache = read_cache; pend = lower got.pend 0 }

abbrev edited : Use
edited = record holds {
  cache = fill holds.cache 0 (5 ∷ []);
  view = write_view holds.view (holds.cache.buf 0).blockno (5 ∷ []);
}

abbrev saved : Use
saved = record edited { cache = cache_of edited.cache (bwrite edited.cache 0) }

abbrev left : Use
left = record saved { cache = cache_of saved.cache (brelse saved.cache 0) }

edit-Reach : Reach (start 2 disk 10) left
unfolding binit_order bwrite brelse iderw
edit-Reach =
    next
      (next
        (next (next (next here (get 7 0 got_7)) (lock 0 (inr (inl refl)) (omega arith) read_7))
          (change 0 (5 ∷ []) (inr (inl refl)) refl))
        (write 0 (inr (inl refl)) refl refl))
      (release 0 (inr (inl refl)) refl (inr refl) refl)

left-unused : (i : ℕ) → In i left.cache.order → unused (left.cache.buf i) ≡ true
unfolding binit_order bwrite brelse iderw
left-unused i m = elim m [
  | inl e ↦ ap (λ j. unused (left.cache.buf j)) (sym e)
  | inr (inl e) ↦ ap (λ j. unused (left.cache.buf j)) (sym e)
  | inr (inr x) ↦ absurd x
]

Reach-stored_example : left.cache.disk 7 ≡ left.view 7
Reach-stored_example = Reach-stored 2 disk 10 left 7 edit-Reach left-unused

on_the_disk : left.cache.disk 7 ≡ 5 ∷ []
unfolding bwrite brelse iderw
on_the_disk = refl
