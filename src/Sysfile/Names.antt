-- ===== src/Sysfile/Names.antt =====
-- `sys_link`, `sys_unlink` and `create` of xv6/sysfile.c.
use operation_system.Base.{
  ℕ, ◌+◌, ◌-◌, ◌%◌, ◌^◌, Bool, true, false, not, ◌&&◌, ◌||◌, Option, none, some, List, [], ◌∷◌, leb,
  ◌==◌, if◌then◌else◌, set,
}
use operation_system.Fs.{Dinode, Fs}
use operation_system.Fs.Content.{Io, done, iupdate, writei}
use operation_system.Fs.Icache.{
  Kern, inode, Result, ok, panics, ◌>>=◌, ilock, iunlock, iput, iunlockput, ialloc,
}
use operation_system.Fs.Icache.Dir.{
  no_handler, entry_inum, same_name, find_entry, rounds, dirlookup, dirlink, namex,
}
use operation_system.Sysfile.{is_none}

-- `iupdate` of the cached inode `i` after a change of its fields.
abbrev pub change : ℕ → (Dinode → Dinode) → Kern → Kern
change i f k =
    let ip = inode k i in
    let d = f ip.d in
    record k { fs = iupdate k.fs ip.inum d; icache = set k.icache i (record ip { d = d }) }

-- `short` arithmetic wraps round.
abbrev pub one_more : Dinode → Dinode
one_more d = record d { nlink = (d.nlink + 1) % 2 ^ 16 }

abbrev pub one_less : Dinode → Dinode
one_less d = record d { nlink = (d.nlink + 2 ^ 16 - 1) % 2 ^ 16 }

-- `bad:` of `sys_link`.
pub unlink_again : ℕ → Kern → Result (Kern × Bool)
unlink_again i k = ilock i k >>= λ k1. iunlockput i (change i one_less k1) >>= λ k2. ok (k2, false)

-- From `nameiparent(new, name)` on; the inode `i` has one link more.
abbrev pub link_in : ℕ → Kern × Option (ℕ × List ℕ) → Result (Kern × Bool)
link_in i (k, none) = unlink_again i k
link_in i (k, some (dp, name)) = ilock dp k >>= λ k1.
    if not ((inode k1 dp).dev == (inode k1 i).dev)
    then (iunlockput dp k1 >>= unlink_again i)
    else dirlink dp name (inode k1 i).inum k1 >>= λ r.
        if r.1
        then (iunlockput dp r.0 >>= λ k2. iput i k2 >>= λ k3. ok (k3, true))
        else iunlockput dp r.0 >>= unlink_again i

abbrev pub link_to : ℕ → List ℕ → Kern × Option (ℕ × List ℕ) → Result (Kern × Bool)
link_to cwd path (k, none) = ok (k, false)
link_to cwd path (k, some (i, _)) = ilock i k >>= λ k1.
    if (inode k1 i).d.type == 1
    then (iunlockput i k1 >>= λ k2. ok (k2, false))
    else iunlock i (change i one_more k1) >>= λ k2. namex true cwd path k2 >>= link_in i

-- `sys_link`: whether it returned 0, and not -1.
pub sys_link : ℕ → List ℕ → List ℕ → Kern → Result (Kern × Bool)
sys_link cwd old path k = namex false cwd old k >>= link_to cwd path

-- The loop of `isdirempty` stops at an entry that is in use.
abbrev pub in_use : List ℕ → Bool
in_use de = not (entry_inum de == 0)

pub isdirempty : Fs → Dinode → Option (Fs × Dinode × Bool)
isdirempty fs d = elim (find_entry in_use fs d 32 (rounds d)) [
  | none ↦ none
  | some (fs1, d1, found) ↦ some (fs1, d1, is_none found)
]

abbrev pub bad : ℕ → Kern → Result (Kern × Bool)
bad dp k = iunlockput dp k >>= λ k'. ok (k', false)

-- The entry at `off` in the directory `dp` is cleared, and the inode `i` has one link less.
abbrev pub clear_entry : ℕ → ℕ → ℕ → Kern → Io → Result (Kern × Bool)
clear_entry dp i off k (done fs d out) =
    let k1 : Kern = record { fs = fs; icache = set k.icache dp (record (inode k dp) { d = d }) } in
    let k2 = if (inode k1 i).d.type == 1 then change dp one_less k1 else k1 in
    iunlockput dp k2 >>= λ k3. iunlockput i (change i one_less k3) >>= λ k4. ok (k4, true)
clear_entry dp i off k _ = panics

abbrev pub remove : ℕ → ℕ → ℕ → Kern → Result (Kern × Bool)
remove dp i off k =
    clear_entry dp i off k (writei no_handler k.fs (inode k dp).inum (inode k dp).d (λ j. 0) off 16)

abbrev pub remove_if_empty : ℕ → ℕ → ℕ → Kern → Option (Fs × Dinode × Bool) → Result (Kern × Bool)
remove_if_empty dp i off k none = panics
remove_if_empty dp i off k (some (fs, d, is_empty)) =
    let k1 : Kern = record { fs = fs; icache = set k.icache i (record (inode k i) { d = d }) } in
    if is_empty then remove dp i off k1 else iunlockput i k1 >>= bad dp

abbrev pub unlink_entry : ℕ → Kern × Option (ℕ × ℕ) → Result (Kern × Bool)
unlink_entry dp (k, none) = bad dp k
unlink_entry dp (k, some (i, off)) = ilock i k >>= λ k1.
    let d = (inode k1 i).d in
    -- a negative `short` is one from 2 ^ 15 on
    if (d.nlink == 0) || leb (2 ^ 15) d.nlink
    then panics
    else if d.type == 1
    then remove_if_empty dp i off k1 (isdirempty k1.fs d)
    else remove dp i off k1

abbrev pub dot : List ℕ
dot = b'.' ∷ []

abbrev pub dot_dot : List ℕ
dot_dot = b'.' ∷ b'.' ∷ []

abbrev pub unlink_in : Kern × Option (ℕ × List ℕ) → Result (Kern × Bool)
unlink_in (k, none) = ok (k, false)
unlink_in (k, some (dp, name)) = ilock dp k >>= λ k1.
    if same_name name dot || same_name name dot_dot
    then bad dp k1
    else dirlookup dp name k1 >>= unlink_entry dp

pub sys_unlink : ℕ → List ℕ → Kern → Result (Kern × Bool)
sys_unlink cwd path k = namex true cwd path k >>= unlink_in

-- `create` panics if `dirlink` fails.
abbrev pub must : Kern × Bool → Result Kern
must (k, true) = ok k
must (k, false) = panics

-- The entries . and .. of a new directory `i` in `dp`.
abbrev pub add_dots : ℕ → ℕ → Kern → Result Kern
add_dots dp i k =
    let k1 = change dp one_more k in
    (dirlink i dot (inode k1 i).inum k1 >>= must) >>= λ k2.
    dirlink i dot_dot (inode k2 dp).inum k2 >>= must

abbrev pub create_new : ℕ → ℕ → ℕ → ℕ → List ℕ → Kern → Result (Kern × Option ℕ)
create_new dp type major minor name k = ialloc (inode k dp).dev type k >>= λ r.
    ilock r.1 r.0 >>= λ k1.
    let k2 = change r.1 (λ d. record d { major = major; minor = minor; nlink = 1 }) k1 in
    (if type == 1 then add_dots dp r.1 k2 else ok k2) >>= λ k3.
    (dirlink dp name (inode k3 r.1).inum k3 >>= must) >>= λ k4.
    iunlockput dp k4 >>= λ k5. ok (k5, some r.1)

abbrev pub create_at : ℕ → ℕ → ℕ → ℕ → List ℕ → Kern × Option (ℕ × ℕ) → Result (Kern × Option ℕ)
create_at dp type major minor name (k, none) = create_new dp type major minor name k
create_at dp type major minor name (k, some (i, off)) = iunlockput dp k >>= λ k1.
    ilock i k1 >>= λ k2.
    if (type == 2) && ((inode k2 i).d.type == 2)
    then ok (k2, some i)
    else iunlockput i k2 >>= λ k3. ok (k3, none)

abbrev pub create_in : ℕ → ℕ → ℕ → Kern × Option (ℕ × List ℕ) → Result (Kern × Option ℕ)
create_in type major minor (k, none) = ok (k, none)
create_in type major minor (k, some (dp, name)) =
    ilock dp k >>= λ k1. dirlookup dp name k1 >>= create_at dp type major minor name

-- The inode is locked; `none` is the null pointer.
pub create : ℕ → List ℕ → ℕ → ℕ → ℕ → Kern → Result (Kern × Option ℕ)
create cwd path type major minor k = namex true cwd path k >>= create_in type major minor
