-- ===== src/Tar/Header.antt =====
-- The header block of an archive member, tek/utils/tar.c: the permissions and the checksum. Bytes are
-- numbers below 256; a `char` that is a permission or a mode is its 8-bit pattern.
use Prim.Native.Nat.{bit_and, bit_or}
use tek.Base.{
  ℕ, zero, suc, ◌+◌, ◌-◌, ◌*◌, ◌/◌, ◌%◌, ◌^◌, Bool, true, false, List, [], ◌∷◌, ◌++◌, ◌==◌, ltb,
  if◌then◌else◌, take, drop, length, replicate,
}
pub mod Modes
pub mod Sums

-- The permissions of sys/modes.h.
abbrev pub s_iread : ℕ
s_iread = 1

abbrev pub s_iwrite : ℕ
s_iwrite = 2

abbrev pub s_iexec : ℕ
s_iexec = 4

abbrev pub s_ioread : ℕ
s_ioread = 8

abbrev pub s_iowrite : ℕ
s_iowrite = 16

abbrev pub s_ioexec : ℕ
s_ioexec = 32

abbrev pub s_isuid : ℕ
s_isuid = 64

-- The permissions of an archive; the source writes them in octal.
abbrev pub suid : ℕ
suid = 2048

abbrev pub sgid : ℕ
sgid = 1024

abbrev pub stxt : ℕ
stxt = 512

abbrev pub rown : ℕ
rown = 256

abbrev pub wown : ℕ
wown = 128

abbrev pub xown : ℕ
xown = 64

abbrev pub rgrp : ℕ
rgrp = 32

abbrev pub wgrp : ℕ
wgrp = 16

abbrev pub xgrp : ℕ
xgrp = 8

abbrev pub roth : ℕ
roth = 4

abbrev pub woth : ℕ
woth = 2

abbrev pub xoth : ℕ
xoth = 1

-- `if (x & from) y |= to;` for each pair.
abbrev pub translate : List (ℕ × ℕ) → ℕ → ℕ → ℕ
translate [] x y = y
translate ((bits, to) ∷ pairs) x y =
    translate pairs x (if bit_and x bits == 0 then y else bit_or y to)

-- The permissions as tomodes and select make them, and as getdir does.
unfoldable pub tarperm_of : ℕ → ℕ
tarperm_of st_perm =
    translate
      ((s_iread, rown)
        ∷ (s_iwrite, wown)
        ∷ (s_iexec, xown)
        ∷ (s_ioread, roth)
        ∷ (s_iowrite, woth)
        ∷ (s_ioexec, xoth)
        ∷ (s_isuid, suid)
        ∷ [])
      st_perm 0

-- A `char` read as a number has its sign, here as a 32-bit pattern.
abbrev pub signed_char : ℕ → ℕ
signed_char b = if ltb b 128 then b else b + (2 ^ 32 - 256)

-- The number in the field `mode`: `(tarperm<<8) + sp->st_mode`.
unfoldable pub tomodes_mode : ℕ → ℕ → ℕ
unfolding tarperm_of
tomodes_mode st_mode st_perm = (tarperm_of st_perm * 2 ^ 8 + signed_char st_mode) % 2 ^ 32

-- The mode and the permissions that getdir takes out of that number.
unfoldable pub getdir_mode : ℕ → ℕ × ℕ
getdir_mode i = (
  i % 2 ^ 8,
  translate
      ((rown, s_iread)
        ∷ (wown, s_iwrite)
        ∷ (xown, s_iexec)
        ∷ (roth, s_ioread)
        ∷ (woth, s_iowrite)
        ∷ (xoth, s_ioexec)
        ∷ (suid, s_isuid)
        ∷ [])
      (i / 2 ^ 8) 0,
)

-- `select`: the letter of the first of the alternatives that is set, else the last.
abbrev pub select : List (ℕ × ℕ) → ℕ → ℕ → ℕ
select [] last tarperm = last
select ((bits, letter) ∷ pairs) last tarperm =
    if bit_and tarperm bits == 0 then select pairs last tarperm else letter

-- `pmode`: the nine letters, from the tables m1 to m9; 45 is a dash.
unfoldable pub pmode : ℕ → List ℕ
unfolding tarperm_of
pmode st_perm =
    let tarperm = tarperm_of st_perm in
    select ((rown, 114) ∷ []) 45 tarperm
    ∷ select ((wown, 119) ∷ []) 45 tarperm
    ∷ select ((suid, 115) ∷ (xown, 120) ∷ []) 45 tarperm
    ∷ select ((rgrp, 114) ∷ []) 45 tarperm
    ∷ select ((wgrp, 119) ∷ []) 45 tarperm
    ∷ select ((sgid, 115) ∷ (xgrp, 120) ∷ []) 45 tarperm
    ∷ select ((roth, 114) ∷ []) 45 tarperm
    ∷ select ((woth, 119) ∷ []) 45 tarperm
    ∷ select ((stxt, 116) ∷ (xoth, 120) ∷ []) 45 tarperm
    ∷ []

-- The field `chksum` of `dbuf`: 8 bytes behind the name and the fields mode, uid, gid, size, mtime.
abbrev pub chksum_at : ℕ
chksum_at = 148

abbrev pub chksum_size : ℕ
chksum_size = 8

abbrev pub add_all : List ℕ → ℕ → ℕ
add_all [] i = i
add_all (b ∷ bs) i = add_all bs ((i + signed_char b) % 2 ^ 32)

-- The field is filled with blanks, then all bytes are added; the block is changed by it.
unfoldable pub checksum : List ℕ → ℕ × List ℕ
checksum dblock =
    let dblock' =
      take chksum_at dblock
      ++ (replicate chksum_size 32 ++ drop (chksum_at + chksum_size) dblock) in
    (add_all dblock' 0, dblock')
