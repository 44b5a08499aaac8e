-- ===== src/Nfsd/Modes/Tables.antt =====
-- The mode translations against the tables of RFC 1094, for every mode.
use Prim.Native.Nat.{bit_and, bit_or}
use tek.Base.{ℕ, ◌+◌, ◌<◌, ◌≡◌, refl, ◌==◌, if◌then◌else◌, true, Bool}
use tek.Base.Exhaust.{agree_below, all_below, all_below-holds}
use tek.Nfsd.Modes.{
  nfsmode2host, host2nfsmode, host2nfstype, nfdir, nfreg, nfchr, nfblk, dir_nfs, reg, chr, blk,
  s_ifreg, s_ifdir, s_ifblk,
}

-- The permissions that the 4404 keeps of an NFS mode: those of the owner and of the others.
abbrev kept_permissions : ℕ → ℕ
kept_permissions mode = bit_and mode 455

-- A mode below 4096 that is put on a regular file is read back as the mode of a regular file with
-- the same permissions of owner and others; the set-user-id bit and those of the group are lost.
pub host2nfsmode-nfsmode2host :
    (mode : ℕ)
    → mode < 4096
    → host2nfsmode s_ifreg (nfsmode2host mode) ≡ reg + kept_permissions mode
unfolding host2nfsmode nfsmode2host
host2nfsmode-nfsmode2host mode h =
    agree_below 4096 (λ m. host2nfsmode s_ifreg (nfsmode2host m)) (λ m. reg + kept_permissions m)
      mode h refl

-- The permissions that a host shows of a regular file are put back as they were, except that the
-- owner's read permission, which has the bit of `S_IFREG`, is always set.
pub nfsmode2host-host2nfsmode :
    (hostperms : ℕ)
    → hostperms < 64
    → nfsmode2host (host2nfsmode s_ifreg hostperms) ≡ bit_or hostperms s_ifreg
unfolding host2nfsmode nfsmode2host
nfsmode2host-host2nfsmode hostperms h =
    agree_below 64 (λ p. nfsmode2host (host2nfsmode s_ifreg p)) (λ p. bit_or p s_ifreg) hostperms h
      refl

-- The format bits of an NFS mode for a file type.
abbrev format_of : ℕ → ℕ
format_of ftype =
    if ftype == nfreg
    then reg
    else if ftype == nfdir
    then dir_nfs
    else if ftype == nfblk
    then blk
    else if ftype == nfchr
    then chr
    else 0

-- For every mode and permission byte of an inode, the format bits of the NFS mode are those of the
-- file type that is answered beside it.
pub host2nfsmode_format :
    (hostmode hostperms : ℕ)
    → hostmode < 256
    → hostperms < 256
    → bit_and (host2nfsmode hostmode hostperms) 61440 ≡ format_of (host2nfstype hostmode)
unfolding host2nfsmode host2nfstype
host2nfsmode_format hostmode hostperms h k =
    let both : ℕ → Bool =
      λ m. all_below 256 (λ p. bit_and (host2nfsmode m p) 61440 == format_of (host2nfstype m)) in
    let row : both hostmode ≡ true = all_below-holds 256 both hostmode h refl in
    agree_below 256 (λ p. bit_and (host2nfsmode hostmode p) 61440)
      (λ p. format_of (host2nfstype hostmode)) hostperms k row

-- The mode of a directory, with any bits below 4096, is translated to the bits of `S_IFDIR` and
-- also to those of `S_IFBLK`, joined with the translation of the other bits.
pub nfsmode2host_directory :
    (mode : ℕ)
    → mode < 4096
    → nfsmode2host (dir_nfs + mode) ≡ bit_or (bit_or s_ifdir s_ifblk) (nfsmode2host mode)
unfolding nfsmode2host
nfsmode2host_directory mode h =
    agree_below 4096 (λ m. nfsmode2host (dir_nfs + m))
      (λ m. bit_or (bit_or s_ifdir s_ifblk) (nfsmode2host m)) mode h refl
