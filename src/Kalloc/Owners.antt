-- ===== src/Kalloc/Owners.antt =====
-- Pages in the hands of the kernel's other parts (xv6/kalloc.c): whoever calls `kalloc` owns the
-- page until it calls `kfree`.
use operation_system.Base.{
  length-remove_at, All-get_elem?, All-remove_at, remove_at, remove_at-missing, refl, All-both,
  false, inr, inl, Option-cases, ℕ, zero, suc, ◌+◌, ◌≡◌, sym, ◌≢◌, Option, none, some, List, [],
  ◌∷◌, arith, ◌==◌, if◌then◌else◌, NotMem, Distinct, length, get_elem?, All, All-weaken,
}
use operation_system.Kalloc.{Kmem, kfree, kalloc}
use operation_system.Kalloc.FreeList.{
  kalloc-IsFreeList, kalloc-empty, kfree-IsFreeList, IsPage, IsFreeList,
}

-- A call of a client: `release i` frees its `i`-th page, if it has so many.
pub data Call : Type 0 where
  obtain : Call
  release : ℕ → Call

pub record Client : Type 0 where
  pub kmem : Kmem
  pub owned : List ℕ

-- The page that `kalloc` returned, unless it is 0.
abbrev pub take_page : List ℕ → ℕ × Kmem → Client
take_page owned (v, k) =
    if v == 0 then record { kmem = k; owned = owned } else record { kmem = k; owned = v ∷ owned }

abbrev pub give_page : ℕ → Client → Option ℕ → Option Client
give_page end c none = some c
give_page end c (some v) = elim (kfree end c.kmem v) [
  | none ↦ none
  | some k ↦ some (record { kmem = k; owned = c.owned })
]

-- One call; `none` is a panic.
pub call : ℕ → Client → Call → Option Client
call end c obtain = some (take_page c.owned (kalloc c.kmem))
call end c (release i) =
    give_page end (record c { owned = remove_at i c.owned }) (get_elem? c.owned i)

pub calls : ℕ → Client → List Call → Option Client
calls end c [] = some c
calls end c (e ∷ es) = elim (call end c e) [ none ↦ none | some c' ↦ calls end c' es ]

-- No page has two owners, and none is both owned and free: all `total` pages are accounted for.
pub record Sound (end total : ℕ) (c : Client) (free : List ℕ) : Type 0 where
  pub listed : IsFreeList end c.kmem free
  pub owned_pages : All (IsPage end) c.owned
  pub owned_once : Distinct c.owned
  pub apart : All (λ v. NotMem v free) c.owned
  pub balance : length c.owned + length free ≡ total

NotMem-sym : (x : ℕ) (ys : List ℕ) → NotMem x ys → All (λ y. x ≢ y) ys
NotMem-sym x ys h = All-weaken (λ y. y ≢ x) (λ y. x ≢ y) ys h (λ y ne e. ne (sym e))

Distinct-remove_at : (i : ℕ) (xs : List ℕ) → Distinct xs → Distinct (remove_at i xs)
Distinct-remove_at i [] h = tt
Distinct-remove_at zero (x ∷ xs) h = h.1
Distinct-remove_at (suc i) (x ∷ xs) h =
    (All-remove_at (λ y. y ≢ x) i xs h.0, Distinct-remove_at i xs h.1)

-- The removed page is not among the others.
NotMem-remove_at :
    (i : ℕ) (xs : List ℕ) {v : ℕ}
    → Distinct xs
    → get_elem? xs i ≡ some v
    → All (λ y. y ≢ v) (remove_at i xs)
NotMem-remove_at i [] d e = tt
NotMem-remove_at zero (x ∷ xs) {v} d e = let same : x ≡ v = cc in rw (← same) d.0
NotMem-remove_at (suc i) (x ∷ xs) d e =
    (All-get_elem? (λ y. x ≢ y) i xs (NotMem-sym x xs d.0) e, NotMem-remove_at i xs d.1 e)

module _ (end total : ℕ) where
  obtain-Sound :
      (c : Client) (free : List ℕ)
      → Sound end total c free
      → (free' : List ℕ) × Sound end total (take_page c.owned (kalloc c.kmem)) free'
  obtain-Sound c [] s = ([], rw (kalloc-empty end c.kmem s.listed) s)
  obtain-Sound c (x ∷ free) s =
      let (got_x, left, fresh, page) = kalloc-IsFreeList end c.kmem x free s.listed in
      let some_page : ((kalloc c.kmem).0 == 0) ≡ false = ground (arith, got_x, s.listed.chain) in
      (
        free,
        rw (some_page, got_x)
            (record {
              listed = left;
              owned_pages = (page, s.owned_pages);
              owned_once = (
                All-weaken (λ v. NotMem v (x ∷ free)) (λ v. v ≢ x) c.owned s.apart
                    (λ v h e. h.0 (sym e)),
                s.owned_once,
              );
              apart = (
                fresh,
                All-weaken (λ v. NotMem v (x ∷ free)) (λ v. NotMem v free) c.owned s.apart
                    (λ v h. h.1),
              );
              balance = omega (arith, s.balance);
            }),
      )

  release-Sound :
      (c : Client) (free : List ℕ) (i v : ℕ)
      → Sound end total c free
      → get_elem? c.owned i ≡ some v
      → (c' : Client) × (give_page end (record c { owned = remove_at i c.owned }) (some v)
          ≡ some c')
        × Sound end total c' (v ∷ free)
  release-Sound c free i v s e =
      let out : NotMem v free = All-get_elem? (λ v. NotMem v free) i c.owned s.apart e in
      let page : IsPage end v = All-get_elem? (IsPage end) i c.owned s.owned_pages e in
      let (k', freed, listed) = kfree-IsFreeList end c.kmem v free s.listed page out in
      (
        record { kmem = k'; owned = remove_at i c.owned },
        rw (freed, give_page),
        record {
          listed = listed;
          owned_pages = All-remove_at (IsPage end) i c.owned s.owned_pages;
          owned_once = Distinct-remove_at i c.owned s.owned_once;
          apart =
              All-both (λ w. v ≢ w) (λ w. NotMem w free) (remove_at i c.owned)
                (All-weaken (λ w. w ≢ v) (λ w. v ≢ w) (remove_at i c.owned)
                  (NotMem-remove_at i c.owned s.owned_once e) (λ w ne q. ne (sym q)))
                (All-remove_at (λ w. NotMem w free) i c.owned s.apart);
          balance = omega (arith, s.balance, length-remove_at i c.owned e);
        },
      )

  call-Sound :
      (c : Client) (free : List ℕ) (e : Call)
      → Sound end total c free
      → (c' : Client) × (free' : List ℕ) × (call end c e ≡ some c') × Sound end total c' free'
  unfolding call
  call-Sound c free obtain s =
      let (free', s') = obtain-Sound c free s in
      (take_page c.owned (kalloc c.kmem), free', refl, s')
  call-Sound c free (release i) s = elim (Option-cases (get_elem? c.owned i)) [
    | inl missing ↦ (c, free, rw (missing, remove_at-missing i c.owned missing), s)
    | inr (v, found) ↦
        let (c', done, s') = release-Sound c free i v s found in (c', v ∷ free, rw found done, s')
  ]

  -- Whatever sequence of calls of `kalloc` and `kfree` the owners of pages make, `kfree` never
  -- panics, no page is handed to two owners or is at once owned and free, and no page is lost.
  pub calls-Sound :
      (es : List Call) (c : Client) (free : List ℕ)
      → Sound end total c free
      → (c' : Client) × (free' : List ℕ) × (calls end c es ≡ some c') × Sound end total c' free'
  unfolding calls
  calls-Sound [] c free s = (c, free, refl, s)
  calls-Sound (e ∷ es) c free s =
      let (c', free', done, s') = call-Sound c free e s in
      let (c'', free'', rest, s'') = calls-Sound es c' free' s' in
      (c'', free'', rw (done, calls) rest, s'')
