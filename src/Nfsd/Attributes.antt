-- ===== src/Nfsd/Attributes.antt =====
-- The attribute writers of tek/daemons/nfsd.c, add_fattr and add_fattr3 with what is put before
-- them, as built for the 4404 (TEK4404, NO_GROUPS and ONLY_MTIME defined, ONLY_TIME not). A
-- pointer that may be NULL is an `Option`.
use Prim.Native.Nat.{bit_and, bit_or}
use tek.Base.{
  ℕ, ◌+◌, ◌-◌, ◌*◌, ◌/◌, ◌%◌, ◌^◌, ◌≤◌, ◌≡◌, refl, ap, ◌∙◌, Bool, true, false, ◌||◌, Option, none,
  some, List, [], ◌∷◌, ◌++◌, ◌==◌, if◌then◌else◌, length, ◌>>=◌, Bool-cases, inl, inr,
}
use tek.Nfsd.Message.{Response, add_uint, add_uints, add_uint64, add_nfstime}
use tek.Nfsd.Modes.{
  host2nfsmode, host2nfstype, nfsmode2host, s_ifdir, s_ifchr, s_ifblk, nfdir, nfreg,
}
pub mod Writes
pub mod Layout

-- What is used of `struct stat`; `st_ctime` is another name of `st_spr` on the 4404.
pub record Stat : Type 0 where
  pub st_mode : ℕ
  pub st_perm : ℕ
  pub st_nlink : ℕ
  pub st_uid : ℕ
  pub st_size : ℕ
  pub st_ino : ℕ
  pub st_mtime : ℕ
  pub st_spr : ℕ

abbrev pub block_size : ℕ
block_size = 512

abbrev pub fdnpb : ℕ
fdnpb = 8

-- `(mode & format) == format`
abbrev pub is_format : ℕ → ℕ → Bool
is_format mode format = bit_and mode format == format

-- `(size + BLOCK_SIZE - 1) / BLOCK_SIZE` of an `unsigned int`
unfoldable pub blocks : ℕ → ℕ
blocks size = (size + block_size - 1) % 2 ^ 32 / block_size

-- `*devmajor` and `*devminor`
unfoldable pub get_majorminor : Stat → ℕ × ℕ
get_majorminor info =
    if is_format info.st_mode s_ifchr || is_format info.st_mode s_ifblk
    then (info.st_size / 2 ^ 8 % 256, info.st_size % 256)
    else (0, 0)

unfoldable pub add_fattr : Stat → ℕ → Response → Option Response
add_fattr info fsid reply = do
  r1 ← add_uint (host2nfstype info.st_mode) reply
  r2 ← add_uint (host2nfsmode info.st_mode info.st_perm) r1
  r3 ← add_uint info.st_nlink r2
  r4 ← add_uint info.st_uid r3
  r5 ← add_uint info.st_uid r4
  r6 ← add_uint info.st_size r5
  r7 ← add_uint block_size r6
  r8 ← add_uint (bit_or ((get_majorminor info).0 * 2 ^ 8) (get_majorminor info).1) r7
  r9 ←
      (if is_format info.st_mode s_ifdir
        then add_uint (block_size / fdnpb) r8
        else add_uint (blocks info.st_size) r8)
  r10 ← add_uint fsid r9
  r11 ← add_uint info.st_ino r10
  r12 ← add_nfstime info.st_mtime r11
  r13 ← add_nfstime info.st_mtime r12
  add_nfstime info.st_mtime r13

-- The first words of a fattr3, which both branches write.
unfoldable pub add_head3 : ℕ → Stat → Response → Option Response
add_head3 ftype info reply = do
  r1 ← add_uint ftype reply
  r2 ← add_uint (host2nfsmode info.st_mode info.st_perm) r1
  r3 ← add_uint info.st_nlink r2
  r4 ← add_uint info.st_uid r3
  add_uint info.st_uid r4

unfoldable pub add_fattr3 : Stat → ℕ → Response → Option Response
unfolding add_head3
add_fattr3 info fsid reply = do
  r1 ←
      (if is_format info.st_mode s_ifdir
        then (do
          a ← add_head3 nfdir info reply
          b ← add_uint64 block_size a
          add_uint64 (block_size / fdnpb) b)
        else (do
          a ← add_head3 nfreg info reply
          b ← add_uint64 info.st_size a
          add_uint64 (blocks info.st_size) b))
  r2 ← add_uint64 0 r1
  r3 ← add_uint64 fsid r2
  r4 ← add_uint64 info.st_ino r3
  r5 ← add_nfstime info.st_mtime r4
  r6 ← add_nfstime info.st_mtime r5
  add_nfstime info.st_mtime r6

unfoldable pub add_post_fattr3 : Option Stat → ℕ → Response → Option Response
add_post_fattr3 (some info) fsid reply = do r1 ← add_uint 1 reply; add_fattr3 info fsid r1
add_post_fattr3 none fsid reply = add_uint 0 reply

unfoldable pub add_post_wccattr3 : Stat → Response → Option Response
add_post_wccattr3 info reply = do
  r1 ← add_uint 1 reply
  r2 ← add_uint64 info.st_size r1
  r3 ← add_nfstime info.st_mtime r2
  add_nfstime info.st_spr r3

unfoldable pub add_wcc_data : Option Stat → Option Stat → ℕ → Response → Option Response
add_wcc_data preinfo postinfo fsid reply = do
  r1 ← elim preinfo [ some info ↦ add_post_wccattr3 info reply | none ↦ add_uint 0 reply ]
  elim postinfo [ some info ↦ add_post_fattr3 (some info) fsid r1 | none ↦ add_uint 0 r1 ]
