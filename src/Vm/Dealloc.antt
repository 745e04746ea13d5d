-- ===== src/Vm/Dealloc.antt =====
-- `deallocuvm` of xv6/vm.c: what it frees and what it leaves.
pub mod Join
pub mod Loop
pub mod Size
use operation_system.Base.{
  inr, subst, inl, ◌==◌, ◌≢◌, ◌∷◌, ℕ, ◌+◌, ◌*◌, ◌/◌, ◌%◌, ◌^◌, ◌≤◌, ◌<◌, ◌≡◌, refl, sym, ap, ◌∙◌,
  ◌⊎◌, true, false, Option, none, some, List, arith, NotMem,
}
use operation_system.Kalloc.{kfree, Kmem, pgsize, kernbase}
use operation_system.Vm.{set_word, pte_addr, p2v, pdx, ptx, is_present, table_at}
use operation_system.Vm.Space.{Spare, HasTable, lookup}
use operation_system.Vm.Written.{written-Keeps, written-IsSpace, written-lookup, written}
use operation_system.Vm.Map.{lookup-HasTable, lookup-page}
use operation_system.Vm.User.{free_entry}
use operation_system.Vm.Owned.{Gave, kfree-Gave, frame, IsMapped, IsOwned}

-- Afterwards no page from `a` up to `b` is mapped, all other addresses lead where they led, and each page
-- of memory that was mapped there is free.
pub record Frees (end pgdir a b : ℕ) (k : Kmem) (free : List ℕ) (k' : Kmem) : Type 0 where
  pub free' : List ℕ
  pub owned : IsOwned end k' free' pgdir
  pub unmapped : (va : ℕ) → a ≤ va → va < b → is_present (lookup k' pgdir va) ≡ false
  pub others : (va : ℕ) → va < 2 ^ 32 → (va < a) ⊎ (b ≤ va) → lookup k' pgdir va ≡ lookup k pgdir va
  pub returned :
      (va : ℕ) → a ≤ va → va < b → IsMapped k pgdir va → NotMem (frame k pgdir va) free' → ⊥
  pub still_free : (f : ℕ) → NotMem f free' → NotMem f free
  pub kept :
      (x : ℕ)
      → Spare end k free pgdir x
      → ((va : ℕ) → a ≤ va → va < b → IsMapped k pgdir va → frame k pgdir va ≢ x)
      → Spare end k' free' pgdir x × ((w : ℕ) → w / pgsize ≡ x / pgsize → k'.word w ≡ k.word w)

abbrev pub FreesOr : ℕ → ℕ → ℕ → ℕ → Kmem → List ℕ → Option Kmem → Type 0
FreesOr end pgdir a b k free none = ⊥
FreesOr end pgdir a b k free (some k') = Frees end pgdir a b k free k'

free_entry-present :
    (end pte e : ℕ) (k left : Kmem)
    → k.word pte ≡ e
    → is_present e ≡ true
    → (pte_addr e == 0) ≡ false
    → kfree end k (p2v (pte_addr e)) ≡ some left
    → free_entry end pte k ≡ some (set_word left pte 0)
free_entry-present end pte e k left r t nz g = rw (r, t, nz, g) refl

pub free_entry-absent :
    (end pte e : ℕ) (k : Kmem)
    → k.word pte ≡ e
    → is_present e ≡ false
    → free_entry end pte k ≡ some k
free_entry-absent end pte e k r t = rw (r, t) refl

module _ (end pgdir : ℕ) (above : kernbase < end) where
  -- The page of `a`, whose entry is the word `pte`.
  module _ (a : ℕ) (k : Kmem) (free : List ℕ) (o : IsOwned end k free pgdir) (al : a % pgsize ≡ 0)
      (lt : a < kernbase) (h : HasTable k pgdir (pdx a)) where
    unmapped_page :
        (k' : Kmem)
        → is_present (lookup k' pgdir a) ≡ false
        → (va : ℕ) → a ≤ va
        → va < a + pgsize
        → is_present (lookup k' pgdir va) ≡ false
    unmapped_page k' gone va lo hi =
        ap is_present (lookup-page k' pgdir va a (omega (arith, lo, hi, al))) ∙ gone

    pub not_there : is_present (lookup k pgdir a) ≡ false → Frees end pgdir a (a + pgsize) k free k
    not_there gone = record {
      free' = free;
      owned = o;
      unmapped = unmapped_page k gone;
      others = λ va l out. refl;
      returned = λ va lo hi m out.
          let y : true ≡ false = sym m.1 ∙ unmapped_page k gone va lo hi in absurd (cc);
      still_free = λ f out. out;
      kept = λ x sp ne. (sp, λ w e. refl);
    }

    unfoldable pub slot : ℕ
    slot = table_at k pgdir (pdx a) + 4 * ptx a

    pub reads : k.word slot ≡ lookup k pgdir a
    unfolding slot
    reads = sym (lookup-HasTable k pgdir a h)

    module _ (there : is_present (lookup k pgdir a) ≡ true) where
      gone : Gave end k free pgdir (frame k pgdir a) o.space (o.owns a (lt, there))
      gone = kfree-Gave end k free pgdir (frame k pgdir a) o.space (o.owns a (lt, there))

      gone-HasTable : HasTable gone.left pgdir (pdx a)
      gone-HasTable = (h.0, ap is_present (gone.pde (pdx a) h.0) ∙ h.1)

      pub cleared : Kmem
      cleared = written end gone.left (frame k pgdir a ∷ free) pgdir gone.space a 0

      pub is_cleared : free_entry end slot k ≡ some cleared
      unfolding cleared written slot
      is_cleared =
          let f = frame k pgdir a in
          let page = (o.owns a (lt, there)).page in
          let p = page.above in
          let nz : (pte_addr (lookup k pgdir a) == 0) ≡ false = ground (arith, p, above) in
          free_entry-present end slot (lookup k pgdir a) k gone.left reads there nz gone.gave
          ∙ ap (λ (i : ℕ). some (set_word gone.left (p2v (pte_addr i) + 4 * ptx a) 0))
              (sym (gone.pde (pdx a) h.0))

      now :
          (va : ℕ)
          → va < 2 ^ 32
          → a / pgsize ≢ va / pgsize
          → lookup cleared pgdir va ≡ lookup k pgdir va
      unfolding cleared
      now va l ne =
          let t : (a / pgsize == va / pgsize) ≡ false = ground (arith, ne) in
          written-lookup end gone.left (frame k pgdir a ∷ free) pgdir gone.space a 0 va
            gone-HasTable (omega (arith, lt)) l
          ∙ rw t (gone.same va)

      now_clear : is_present (lookup cleared pgdir a) ≡ false
      unfolding cleared
      now_clear =
          let t : (a / pgsize == a / pgsize) ≡ true = ground arith in
          let z : lookup cleared pgdir a ≡ 0 =
            written-lookup end gone.left (frame k pgdir a ∷ free) pgdir gone.space a 0 a
              gone-HasTable (omega (arith, lt)) (omega (arith, lt))
            ∙ rw t refl in
          ap is_present z

      elsewhere : (va : ℕ) → IsMapped cleared pgdir va → a / pgsize ≢ va / pgsize
      elsewhere va m e =
          let y : true ≡ false =
            sym m.1 ∙ ap is_present (lookup-page cleared pgdir va a (sym e)) ∙ now_clear in
          cc

      before : (va : ℕ) → IsMapped cleared pgdir va → IsMapped k pgdir va
      before va m = (m.0, ap is_present (sym (now va (omega (arith, m.0)) (elsewhere va m))) ∙ m.1)

      same_frame : (va : ℕ) → IsMapped cleared pgdir va → frame cleared pgdir va ≡ frame k pgdir va
      same_frame va m = ap (λ e. p2v (pte_addr e)) (now va (omega (arith, m.0)) (elsewhere va m))

      cleared-IsOwned : IsOwned end cleared (frame k pgdir a ∷ free) pgdir
      unfolding cleared
      cleared-IsOwned = record {
        space =
            written-IsSpace end gone.left (frame k pgdir a ∷ free) pgdir gone.space a 0
              gone-HasTable;
        owns = λ va m.
            let f = frame k pgdir va in
            let ne : frame k pgdir a ≢ f =
              λ e. elsewhere va m (o.alone a va (lt, there) (before va m) e) in
            subst (Spare end cleared (frame k pgdir a ∷ free) pgdir) (sym (same_frame va m))
              (written-Keeps end gone.left (frame k pgdir a ∷ free) pgdir gone.space a 0
                gone-HasTable f (gone.spares f ne (o.owns va (before va m)))).0;
        alone = λ b c m n e.
            o.alone b c (before b m) (before c n) (sym (same_frame b m) ∙ e ∙ same_frame c n);
      }

      pub freed : Frees end pgdir a (a + pgsize) k free cleared
      unfolding cleared
      freed = record {
        free' = frame k pgdir a ∷ free;
        owned = cleared-IsOwned;
        unmapped = unmapped_page cleared now_clear;
        others = λ va l out.
            now va l (elim out [ inl lo ↦ omega (arith, lo, al) | inr hi ↦ omega (arith, hi, al) ]);
        returned = λ va lo hi m out.
            out.0
              (ap (λ e. p2v (pte_addr e)) (lookup-page k pgdir a va (omega (arith, lo, hi, al))));
        still_free = λ f out. out.1;
        kept = λ x sp ne.
            let v = frame k pgdir a in
            let n = ne a (omega arith) (omega arith) (lt, there) in
            let (sp2, same) =
              written-Keeps end gone.left (v ∷ free) pgdir gone.space a 0 gone-HasTable x
                (gone.spares x n sp) in
            let al = (o.owns a (lt, there)).page.aligned in
            let xal = sp.page.aligned in
            (sp2, λ w e. same w e ∙ gone.word w (λ q. n (omega (arith, al, xal, e, q))));
      }
