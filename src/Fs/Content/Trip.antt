-- ===== src/Fs/Content/Trip.antt =====
-- Reading back what was written (`writei` and `readi` of xv6/fs.c).
use operation_system.Base.{
  ℕ, ◌+◌, ◌-◌, ◌*◌, ◌^◌, ◌≤◌, ◌<◌, min, ◌≡◌, refl, sym, ap, ◌∙◌, ◌≢◌, inl, inr, Bool, true, List,
  arith, ℕ_eq,
}
use operation_system.Fs.{Dinode, Fs, bsize}
use operation_system.Fs.Content.{done, slice, readi, writei}
use operation_system.Fs.Content.Owned.{byte_of, Owned}
use operation_system.Fs.Content.Round.{within}
use operation_system.Fs.Content.Read.{slice_cong}
use operation_system.Fs.Content.Calls.{WriteOk, writei-Ok, ReadOk, readi-Ok}

slice_all :
    (src : ℕ → ℕ) (f : ℕ → ℕ) (off n m : ℕ)
    → m ≡ n
    → ((k : ℕ) → k < n → f (off + k) ≡ src k)
    → slice f off m ≡ slice src 0 n
slice_all src f off n m e h =
    ap (slice f off) e ∙ slice_cong f src off 0 n (λ k lt. h k lt ∙ ap src (omega arith))

-- After `writei` of `n` bytes into a regular file, `readi` at the same place returns these bytes,
-- where the two calls do not fail or panic.
pub readi-writei :
    (handled : ℕ → Bool) (fs : Fs) (inum : ℕ) (ip : Dinode) (src : ℕ → ℕ) (off n : ℕ) (fs' : Fs)
    (ip' : Dinode) (out : List ℕ) (fs'' : Fs) (ip'' : Dinode) (bytes : List ℕ)
    → Owned fs ip
    → ip.type ≢ 3
    → ip.size ≤ 140 * bsize
    → off < 2 ^ 32
    → n < 2 ^ 32
    → writei handled fs inum ip src off n ≡ done fs' ip' out
    → readi handled fs' ip' off n ≡ done fs'' ip'' bytes
    → bytes ≡ slice src 0 n
readi-writei handled fs inum ip src off n fs' ip' out fs'' ip'' bytes o regular size lo ln ew er =
    let w0 = writei-Ok handled fs inum ip src off n o regular size lo ln in
    let w1 : WriteOk fs inum ip src off n (done fs' ip' out) = rw ew at w0 in
    let (le, fits, w) = w1 in
    let size' : (ip'.size ≤ 140 * bsize) × (n ≢ 0 → off + n ≤ ip'.size) =
      (ground (arith, w.size, size, fits), λ nz. ground (arith, w.size, nz)) in
    let r0 =
      readi-Ok handled fs' ip' off n w.owned (λ e. regular (sym w.same_type ∙ e)) (size'.0) lo ln in
    let r1 : ReadOk fs' ip' off n (done fs'' ip'' bytes) = rw er at r0 in
    let (le', fits', r) = r1 in
    let whole : min n (ip'.size - off) ≡ n = elim (ℕ_eq n 0) [
      | inl z ↦ omega (arith, z)
      | inr nz ↦ let x = size'.1 nz in omega (arith, x)
    ] in
    r.read
    ∙ slice_all src (byte_of fs' ip') off n (min n (ip'.size - off)) whole (λ k lt.
      w.bytes (off + k) (omega (arith, lt, fits))
      ∙ (let i : off + k - off ≡ k = omega arith in
          let inside : within off n (off + k) ≡ true = ground (arith, lt) in rw (inside, i) refl))
