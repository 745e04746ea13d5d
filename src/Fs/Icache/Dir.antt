-- ===== src/Fs/Icache/Dir.antt =====
-- Directories and path names of xv6/fs.c: `dirlookup`, `dirlink`, `namex`. A directory is a file of
-- 16-byte entries: the inode number, then the name.
use operation_system.Base.{
  ℕ, zero, suc, ◌+◌, ◌*◌, ◌/◌, ◌%◌, ◌^◌, Bool, true, false, not, ◌&&◌, Option, none, some, List, [],
  ◌∷◌, ltb, ◌==◌, if◌then◌else◌, length, get_or, set, take, drop,
}
use operation_system.Fs.{Dinode, Fs}
use operation_system.Fs.Content.{Io, done, readi, writei}
use operation_system.Fs.Path.{slash, dirsiz, skipelem}
use operation_system.Fs.Icache.{
  Kern, inode, Result, ok, panics, ◌>>=◌, iget_in, idup, ilock, iunlock, iput, iunlockput,
}
use operation_system.Strings.{strncmp, strncpy}

abbrev pub no_handler : ℕ → Bool
no_handler m = false

abbrev pub entry_inum : List ℕ → ℕ
entry_inum de = get_or de 0 0 + get_or de 1 0 * 2 ^ 8

abbrev pub entry_name : List ℕ → List ℕ
entry_name de = take dirsiz (drop 2 de)

-- `namecmp(name, de.name) == 0`
abbrev pub same_name : List ℕ → List ℕ → Bool
same_name s t = strncmp s t dirsiz == 0

-- Whether the loop stops at an entry: one for the name, or an empty one.
abbrev pub names_it : List ℕ → List ℕ → Bool
names_it name de = not (entry_inum de == 0) && same_name name (entry_name de)

abbrev pub is_free : List ℕ → Bool
is_free de = entry_inum de == 0

-- What `readi` of an entry gives; all else is a panic of the caller.
abbrev pub entry_of : Io → Option (Fs × Dinode × List ℕ)
entry_of (done fs d de) = some (fs, d, de)
entry_of _ = none

-- The loops over the entries from `off` on, in at most `n` rounds: the offset and the entry where
-- `stop` holds, if there is one. The outer `none` is a panic.
pub find_entry : (List ℕ → Bool) → Fs → Dinode → ℕ → ℕ → Option (Fs × Dinode × Option (ℕ × List ℕ))
find_entry stop fs d off zero = none
find_entry stop fs d off (suc n) = elim (ltb off d.size) [
  | false ↦ some (fs, d, none)
  | true ↦ elim (entry_of (readi no_handler fs d off 16)) [
    | none ↦ none
    | some (fs1, d1, de) ↦ elim (length de == 16 && stop de) [
      | true ↦ some (fs1, d1, some (off, de))
      | false ↦ elim (length de == 16) [ false ↦ none | true ↦ find_entry stop fs1 d1 (off + 16) n ]
    ]
  ]
]

-- Enough rounds for every entry, and one to see the end.
abbrev pub rounds : Dinode → ℕ
rounds d = d.size / 16 + 2

-- `dirlookup` in the locked directory `i`: the entry's inode and offset, or nothing.
pub dirlookup : ℕ → List ℕ → Kern → Result (Kern × Option (ℕ × ℕ))
dirlookup i name k =
    let ip = inode k i in
    if not (ip.d.type == 1)
    then panics
    else elim (find_entry (names_it name) k.fs ip.d 0 (rounds ip.d)) [
      | none ↦ panics
      | some (fs, d, found) ↦
          let k1 : Kern = record { fs = fs; icache = set k.icache i (record ip { d = d }) } in
          elim found [
            | none ↦ ok (k1, none)
            | some (off, de) ↦ iget_in ip.dev (entry_inum de) k1 >>= λ r. ok (r.0, some (r.1, off))
          ]
    ]

-- The bytes of an entry.
abbrev pub dirent : List ℕ → ℕ → List ℕ
dirent name inum = (inum % 2 ^ 8) ∷ (inum / 2 ^ 8 % 2 ^ 8) ∷ strncpy name dirsiz

abbrev pub linked : ℕ → Kern → Io → Result (Kern × Bool)
linked i k (done fs d out) =
    ok (record { fs = fs; icache = set k.icache i (record (inode k i) { d = d }) }, true)
linked i k _ = panics

-- The end of the directory, where no entry is empty.
abbrev pub entry_off : Dinode → Option (ℕ × List ℕ) → ℕ
entry_off d none = (d.size + 15) / 16 * 16
entry_off d (some (off, de)) = off

abbrev pub add_entry : ℕ → List ℕ → ℕ → Kern → Result (Kern × Bool)
add_entry i name inum k = elim (find_entry is_free k.fs (inode k i).d 0 (rounds (inode k i).d)) [
  | none ↦ panics
  | some (fs, d, found) ↦ linked i k (
      writei no_handler fs (inode k i).inum d (λ j. get_or (dirent name inum) j 0)
        (entry_off d found) 16)
]

-- `dirlink`: whether it returned 0, and not -1.
pub dirlink : ℕ → List ℕ → ℕ → Kern → Result (Kern × Bool)
dirlink i name inum k = dirlookup i name k >>= λ r. elim r.1 [
  | some (j, off) ↦ iput j r.0 >>= λ k'. ok (k', false)
  | none ↦ add_entry i name inum r.0
]

-- The loop of `namex` at the inode `i`, in at most `n` rounds; the name is that of the last round. The
-- result is the inode with a reference to it, or the null pointer.
unfoldable pub walk : Bool → ℕ → ℕ → List ℕ → List ℕ → Kern → Result (Kern × Option (ℕ × List ℕ))
walk parent zero i path name k = panics
walk parent (suc n) i path name k = elim (skipelem path) [
  | none ↦ if parent then (iput i k >>= λ k'. ok (k', none)) else ok (k, some (i, name))
  | some (elem, rest) ↦ ilock i k >>= λ k1.
      if not ((inode k1 i).d.type == 1)
      then (iunlockput i k1 >>= λ k2. ok (k2, none))
      else if parent && (length rest == 0)
      then (iunlock i k1 >>= λ k2. ok (k2, some (i, elem)))
      else dirlookup i elem k1 >>= λ r. elim r.1 [
        | none ↦ iunlockput i r.0 >>= λ k3. ok (k3, none)
        | some (j, off) ↦ iunlockput i r.0 >>= λ k3. walk parent n j rest elem k3
      ]
]

-- `namex` for a process whose current directory is `cwd`; ROOTDEV and ROOTINO are 1.
unfoldable pub namex : Bool → ℕ → List ℕ → Kern → Result (Kern × Option (ℕ × List ℕ))
namex parent cwd path k =
    if get_or path 0 0 == slash
    then (iget_in 1 1 k >>= λ r. walk parent (length path + 1) r.1 path [] r.0)
    else walk parent (length path + 1) cwd path [] (idup cwd k)
