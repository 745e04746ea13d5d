-- ===== src/Vm/Alloc/Page.antt =====
-- A page that `allocuvm` of xv6/vm.c takes and maps.
use operation_system.Vm.User.{zero_page}
use operation_system.Vm.Walk.{same_words, kalloc-Gives, Gives}
use operation_system.Vm.Space.{
  change-IsFreeList, same_dir-Spare, same_dir-IsSpace, Spare, lookup, Keeps, IsSpace,
}
use operation_system.Vm.Owned.{frame, left-lookup, left-pde, IsOwned-same, IsOwned}
use operation_system.Vm.Map.{entry}
use operation_system.Kalloc.FreeList.{IsPage}
use operation_system.Vm.{pte_p, pte_addr, pde_at, pte_u, p2v, pte_w}
use operation_system.Kalloc.{v2p, pgsize, Kmem}
use operation_system.Base.{
  ℕ, ◌/◌, ◌%◌, ◌<◌, bit_or, ◌≡◌, ap, ◌∙◌, ◌≢◌, List, ◌∷◌, arith, bit_or_step, bit_or-zero,
  bit_or-page,
}

abbrev pub user_perm : ℕ
user_perm = bit_or pte_w pte_u

-- The entry of a user page.
pub user-frame : (end x : ℕ) → IsPage end x → p2v (pte_addr (entry (v2p x) user_perm)) ≡ x
user-frame end x p =
    let a = bit_or-page (bit_or (v2p x) user_perm) pte_p (omega arith) in
    let b = bit_or-page (v2p x) user_perm (omega arith) in
    let al = p.aligned in let m = p.mapped in let l = p.below in omega (arith, a, b)

pub user-flags : (end x : ℕ) → IsPage end x → entry (v2p x) user_perm % 8 ≡ 7
user-flags end x p =
    let al = p.aligned in
    let m = p.mapped in
    let l = p.below in
    let v = v2p x in
    let a = bit_or_step (bit_or v 6) 1 in
    let b = bit_or-zero (bit_or v 6 / 2) in
    let c = bit_or_step v 6 in
    let d = bit_or_step (v / 2) 3 in
    let e = bit_or_step (v / 2 / 2) 1 in omega (arith, a, b, c, d, e)

module _ (end pgdir : ℕ) (k : Kmem) (x : ℕ) (free : List ℕ)
    (o : IsOwned end k (x ∷ free) pgdir) where
  unfoldable pub given : Gives end k x free pgdir
  given = kalloc-Gives end pgdir k x free o.space

  taken-Spare : Spare end given.left free pgdir x
  taken-Spare = record {
    page = given.page;
    used = given.fresh;
    no_dir = given.other;
    no_table = given.apart;
  }

  -- The memory with the page taken and filled with zeros.
  unfoldable pub blank : Kmem
  blank = zero_page x given.left

  blank-off : (a : ℕ) → a / pgsize ≢ x / pgsize → blank.word a ≡ given.left.word a
  unfolding blank
  blank-off a ne = let al = given.page.aligned in ground (arith, al, ne)

  pub blank-zero : (w : ℕ) → w / pgsize ≡ x / pgsize → blank.word w ≡ 0
  unfolding blank
  blank-zero w e = let al = given.page.aligned in ground (arith, al, e)

  blank-pde : (j : ℕ) → j < 1024 → pde_at blank pgdir j ≡ pde_at given.left pgdir j
  blank-pde j l = left-pde end given.left free pgdir x given.space taken-Spare blank blank-off j l

  pub blank-IsSpace : IsSpace end blank free pgdir
  unfolding blank
  blank-IsSpace =
      same_dir-IsSpace end given.left free pgdir given.space blank
        (change-IsFreeList end given.left free given.space.listed x blank.word given.page.aligned
          given.fresh blank-off)
        blank-pde

  pub blank-lookup : (va : ℕ) → lookup blank pgdir va ≡ lookup k pgdir va
  blank-lookup va =
      left-lookup end given.left free pgdir x given.space taken-Spare blank blank-off va
      ∙ same_words given.left k pgdir va given.word

  pub blank-Keeps : Keeps end pgdir k (x ∷ free) blank free
  blank-Keeps f sp =
      let (s1, ne) = given.spares f sp in
      let al = given.page.aligned in
      let fal = sp.page.aligned in
      (
        same_dir-Spare end given.left free pgdir given.space blank f blank-pde s1,
        λ a q.
            blank-off a (λ e. ne (omega (arith, al, fal, e, q)))
            ∙ ap (λ (w : ℕ → ℕ). w a) given.word,
      )

  pub blank-Spare : Spare end blank free pgdir x
  blank-Spare = same_dir-Spare end given.left free pgdir given.space blank x blank-pde taken-Spare

  pub blank-IsOwned : IsOwned end blank free pgdir
  blank-IsOwned =
      IsOwned-same end pgdir k blank (x ∷ free) free o blank-IsSpace (λ va l. blank-lookup va)
        (λ va m. (blank-Keeps (frame k pgdir va) (o.owns va m)).0)
