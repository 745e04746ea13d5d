-- ===== src/Log/Atomic.antt =====
-- A transaction of xv6/log.c is atomic: whenever the power fails, and however often recovery itself
-- is cut off, the disk comes back with all of it or none of it.
use operation_system.Log.Header.{length-encode}
use operation_system.Log.Steps.{clear-Clean, finish, head-Headed, Outside-ne, Headed}
use operation_system.Base.{
  ==_iff, sym, ◌==◌, ◌⊎◌, ◌+◌, ◌*◌, refl, ◌∙◌, ap, arith, ℕ, ◌<◌, ◌≡◌, inl, inr, false, List, [],
  ◌∷◌, ltb, Bool-cases, length,
}
use operation_system.Log.Disk.{
  view-bwrite_ne, disk-bwrite_off, power-bwrite, view-bwrite_self, Store, reboot,
}
use operation_system.Log.{
  read_head, Block, decode, encode, write_log_from, install_from, bwrite, Log, install_trans,
  write_head, recover_from_log, write_log, commit, logsize, mem,
}
use operation_system.Log.Copy.{
  install_off, Logged-change, install-Installed, write_log-WroteLog, WroteLog, Logged, Installed,
  Outside,
}
use operation_system.Log.Crash.{committed, Pending, Clean, Recoverable, before, after, Fits}

-- Restarts of the machine, each with the number of disk writes before the power fails again, and
-- the recovery that the kernel then begins.
pub restarts : Log → Store → List ℕ → Store
restarts l s [] = s
restarts l s (k ∷ ks) = restarts l (recover_from_log l (reboot s k)).1 ks

-- A log and a store between two transactions, but for the blocks that this one has logged: all
-- other blocks are on the disk as the kernel sees them, and the log on the disk is empty.
pub record Ready (l : Log) (s : Store) : Type 0 where
  pub fits : Fits l.start l.size l.lh
  pub clean : Clean l.start l.size s.disk s.disk
  pub head_view : logsize < length (s.view l.start)
  pub synced : (b : ℕ) → Outside l.start l.size b → mem b l.lh ≡ false → s.view b ≡ s.disk b

module _ (start size : ℕ) (bs : List ℕ) (fits : Fits start size bs) (s : Store) where
  abbrev logged : Store
  logged = write_log_from start s 0 bs

  abbrev headed : Store
  headed = bwrite logged start (encode (logged.view start) bs)

  abbrev installed : Store
  installed = install_from start headed 0 bs

  abbrev cleared : Store
  cleared = bwrite installed start (encode (installed.view start) [])

  wrote : WroteLog start size s 0 bs logged
  wrote = write_log-WroteLog start size s 0 bs fits.outside (omega (arith, fits.in_log))

  logged_head : logged.view start ≡ s.view start
  logged_head = wrote.view start (omega arith)

  headed_logged : Logged start headed.view s.view 0 bs
  headed_logged =
      Logged-change start logged.view headed.view s.view s.view 0 bs
        (λ a lo hi.
          view-bwrite_ne logged start (encode (logged.view start) bs) a (omega (arith, lo)))
        (λ b m. refl) wrote.logged

  installs : Installed start size s.view headed bs installed
  installs =
      install-Installed start size s.view headed 0 bs fits.outside (omega (arith, fits.in_log))
        headed_logged

  -- The power failed in `write_log`.
  cut_early : logged.power ≡ 0 → cleared.disk ≡ logged.disk
  cut_early off =
      let p2 : headed.power ≡ 0 =
        omega (arith, off, power-bwrite logged start (encode (logged.view start) bs)) in
      disk-bwrite_off installed start (encode (installed.view start) [])
        (omega (arith, p2, installs.power))
      ∙ install_off start headed 0 bs p2
      ∙ disk-bwrite_off logged start (encode (logged.view start) bs) off

  early-Clean : Clean start size s.disk s.disk → Clean start size logged.disk s.disk
  early-Clean c =
      let same : logged.disk start ≡ s.disk start = wrote.disk start (omega arith) in
      record {
        room = rw same c.room;
        head = ap decode same ∙ c.head;
        has = λ b o. wrote.disk b (omega (arith, o, fits.in_log));
      }

  -- `write_head` committed the transaction.
  head-Pending :
      0 < logged.power
      → ((b : ℕ) → Outside start size b → mem b bs ≡ false → s.view b ≡ s.disk b)
      → Headed start size logged bs headed
      → Pending start size bs headed.disk s.view
  head-Pending on synced (inl (off, same)) = absurd (omega (arith, on, off))
  head-Pending on synced (inr (_, long, head, rest)) = record {
    room = long;
    head = head;
    logged =
        Logged-change start logged.disk headed.disk s.view s.view 0 bs
          (λ a lo hi. rest a (omega (arith, lo))) (λ b m. refl)
          (wrote.written (omega (arith, on, wrote.power)));
    others = λ b o m.
        rest b (Outside-ne start size (omega (arith, fits.in_log)) b o)
        ∙ wrote.disk b (omega (arith, o, fits.in_log))
        ∙ sym (synced b o m);
  }

  headed_room : logsize < length (s.view start) → logsize < length (installed.view start)
  headed_room h =
      let e = installs.log_view start (omega arith) (omega (arith, fits.in_log)) in
      let f = view-bwrite_self logged start (encode (logged.view start) bs) in
      rw (e, f)
        (omega (arith, h, length-encode (logged.view start) bs, ap (length {A = ℕ}) logged_head))

  cleared-Recoverable :
      Clean start size s.disk s.disk
      → logsize < length (s.view start)
      → ((b : ℕ) → Outside start size b → mem b bs ≡ false → s.view b ≡ s.disk b)
      → Recoverable start size bs s.disk s.view cleared.disk
        × (2 * length bs + 1 < s.power → Clean start size cleared.disk s.view)
  cleared-Recoverable clean room synced = elim (Bool-cases (logged.power == 0)) [
    | inl off ↦
        let e : logged.power ≡ 0 = (==_iff logged.power 0).0 off in
        (
          before (rw (cut_early e) (early-Clean clean)),
          λ on. absurd (omega (arith, on, e, wrote.power)),
        )
    | inr on ↦
        let p : 0 < logged.power = ground (arith, on) in
        let room1 : logsize < length (logged.view start) =
          omega (arith, room, ap (length {A = ℕ}) logged_head) in
        let h = head-Headed start size logged (logged.view start) bs room1 fits.in_head in
        let (end, full) =
          finish start size bs fits headed (installed.view start) s.view (headed_room room)
            (head-Pending p synced h) headed_logged in
        (
          elim end [ inl pending ↦ committed pending | inr c ↦ after c ],
          λ enough. full (
              omega (
                arith,
                enough,
                wrote.power,
                power-bwrite logged start (encode (logged.view start) bs),
              )),
        )
  ]

mem-empty : (bs : List ℕ) → ltb 0 (length bs) ≡ false → (b : ℕ) → mem b bs ≡ false
mem-empty [] e b = refl
mem-empty (x ∷ bs) e b = ground (arith, e)

-- The disk after `commit`, cut off or not, and after one that was not.
commit-Recoverable :
    (l : Log) (s : Store)
    → Ready l s
    → Recoverable l.start l.size l.lh s.disk s.view (commit l s).1.disk
      × (2 * length l.lh + 1 < s.power → Clean l.start l.size (commit l s).1.disk s.view)
unfolding commit write_log write_head install_trans
commit-Recoverable l s r = elim (Bool-cases (ltb 0 (length l.lh))) [
  | inl some_blocks ↦
      rw some_blocks (cleared-Recoverable l.start l.size l.lh r.fits s r.clean r.head_view r.synced)
  | inr no_blocks ↦ rw no_blocks (
    before r.clean,
    λ _. record {
      room = r.clean.room;
      head = r.clean.head;
      has = λ b o. sym (r.synced b o (mem-empty l.lh no_blocks b));
    },
  )
]

-- Recovery, cut off or not, keeps the disk recoverable; with enough power it ends clean.
recover-Recoverable :
    (l : Log) (bs : List ℕ) (old new : ℕ → Block) (s : Store) (k : ℕ)
    → Fits l.start l.size bs
    → Recoverable l.start l.size bs old new s.disk
    → let d = (recover_from_log l (reboot s k)).1.disk in
      Recoverable l.start l.size bs old new d
      × (logsize < k → Clean l.start l.size d old ⊎ Clean l.start l.size d new)
unfolding recover_from_log read_head install_trans write_head reboot install_from
recover-Recoverable l bs old new s k fits (before c) = rw c.head (
    let r =
      clear-Clean l.start l.size (reboot s k) (s.disk l.start) old c.room
        (omega (arith, fits.in_log)) c in
    (before r, λ _. inl r))
recover-Recoverable l bs old new s k fits (committed p) =
    let i =
      install-Installed l.start l.size new (reboot s k) 0 bs fits.outside
        (omega (arith, fits.in_log)) p.logged in
    let t = install_from l.start (reboot s k) 0 bs in
    let room : logsize < length (t.view l.start) =
      rw (i.log_view l.start (omega arith) (omega (arith, fits.in_log))) p.room in
    let (end, full) =
      finish l.start l.size bs fits (reboot s k) (t.view l.start) new room p p.logged in
    rw p.head (
      elim end [ inl pending ↦ committed pending | inr c ↦ after c ],
      λ on. inr (full (omega (arith, on, fits.in_head))),
    )
recover-Recoverable l bs old new s k fits (after c) = rw c.head (
    let r =
      clear-Clean l.start l.size (reboot s k) (s.disk l.start) new c.room
        (omega (arith, fits.in_log)) c in
    (after r, λ _. inr r))

restarts-Recoverable :
    (l : Log) (bs : List ℕ) (old new : ℕ → Block) (ks : List ℕ) (s : Store)
    → Fits l.start l.size bs
    → Recoverable l.start l.size bs old new s.disk
    → Recoverable l.start l.size bs old new (restarts l s ks).disk
unfolding restarts
restarts-Recoverable l bs old new [] s fits r = r
restarts-Recoverable l bs old new (k ∷ ks) s fits r =
    restarts-Recoverable l bs old new ks (recover_from_log l (reboot s k)).1 fits
      (recover-Recoverable l bs old new s k fits r).0

-- A commit is all or nothing. Let the power fail after any number of disk writes in `commit`, and
-- again after any number in each of several recoveries: once a recovery can make more than LOGSIZE
-- writes, the blocks outside the log are all as they were on the disk before the commit, or all as
-- the kernel saw them when it committed, and the log on the disk is empty.
pub commit-atomic :
    (l : Log) (s : Store) (ks : List ℕ) (k : ℕ)
    → Ready l s
    → logsize < k
    → let crashed = restarts l (commit l s).1 ks in
      let d = (recover_from_log l (reboot crashed k)).1.disk in
      Clean l.start l.size d s.disk ⊎ Clean l.start l.size d s.view
commit-atomic l s ks k r on =
    let crashed =
      restarts-Recoverable l l.lh s.disk s.view ks (commit l s).1 r.fits
        (commit-Recoverable l s r).0 in
    (recover-Recoverable l l.lh s.disk s.view (restarts l (commit l s).1 ks) k r.fits crashed).1 on

-- A commit that the power does not cut off, with two disk writes for each logged block and two for
-- the header, leaves on the disk what the kernel saw, and an empty log.
pub commit-durable :
    (l : Log) (s : Store)
    → Ready l s
    → 2 * length l.lh + 1 < s.power
    → Clean l.start l.size (commit l s).1.disk s.view × ((commit l s).0.lh ≡ [])
unfolding commit
commit-durable l s r on = ((commit-Recoverable l s r).1 on, ground arith)
