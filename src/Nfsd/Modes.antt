-- ===== src/Nfsd/Modes.antt =====
-- File modes between NFS and the host, tek/daemons/nfsd.c, as built for the 4404 (TEK4404 and
-- NO_GROUPS defined): the host constants are those of os2.0/lib/include/sys/modes.h, which keeps
-- the type of a file and its permissions in two bytes of the inode.
pub mod Tables
use Prim.Native.Nat.{bit_and, bit_or}
use tek.Base.{ℕ, ◌-◌, ◌^◌, Bool, not, ◌==◌, if◌then◌else◌}

-- `enum ftype`, `enum modes` and the masks of sys/modes.h
abbrev pub s_ifmt : ℕ
s_ifmt = 207

abbrev pub s_ifreg : ℕ
s_ifreg = 1

abbrev pub s_ifblk : ℕ
s_ifblk = 3

abbrev pub s_ifchr : ℕ
s_ifchr = 5

abbrev pub s_ifdir : ℕ
s_ifdir = 9

abbrev pub s_iread : ℕ
s_iread = 1

abbrev pub s_iwrite : ℕ
s_iwrite = 2

abbrev pub s_iexec : ℕ
s_iexec = 4

abbrev pub s_ioread : ℕ
s_ioread = 8

abbrev pub s_iowrite : ℕ
s_iowrite = 16

abbrev pub s_ioexec : ℕ
s_ioexec = 32

abbrev pub s_isuid : ℕ
s_isuid = 64

abbrev pub nfnon : ℕ
nfnon = 0

abbrev pub nfreg : ℕ
nfreg = 1

abbrev pub nfdir : ℕ
nfdir = 2

abbrev pub nfblk : ℕ
nfblk = 3

abbrev pub nfchr : ℕ
nfchr = 4

abbrev pub dir_nfs : ℕ
dir_nfs = 16384

abbrev pub chr : ℕ
chr = 8192

abbrev pub blk : ℕ
blk = 24576

abbrev pub reg : ℕ
reg = 32768

abbrev pub suid : ℕ
suid = 2048

abbrev pub rown : ℕ
rown = 256

abbrev pub wown : ℕ
wown = 128

abbrev pub xown : ℕ
xown = 64

abbrev pub roth : ℕ
roth = 4

abbrev pub woth : ℕ
woth = 2

abbrev pub xoth : ℕ
xoth = 1

-- `if (test) bits |= mask`, and the test `bits & mask`.
abbrev pub add_if : Bool → ℕ → ℕ → ℕ
add_if test mask bits = if test then bit_or bits mask else bits

abbrev pub has : ℕ → ℕ → Bool
has bits mask = not (bit_and bits mask == 0)

-- -1 as an `unsigned int`
abbrev pub minus_one : ℕ
minus_one = 2 ^ 32 - 1

unfoldable pub nfsmode2host : ℕ → ℕ
nfsmode2host nfsmode =
    if nfsmode == minus_one
    then minus_one
    else add_if (has nfsmode xoth) s_ioexec (
        add_if (has nfsmode woth) s_iowrite (
          add_if (has nfsmode roth) s_ioread (
            add_if (has nfsmode xown) s_iexec (
              add_if (has nfsmode wown) s_iwrite (
                add_if (has nfsmode rown) s_iread (
                  add_if (has nfsmode blk) s_ifblk (
                    add_if (has nfsmode chr) s_ifchr (
                      add_if (has nfsmode reg) s_ifreg (
                        add_if (has nfsmode dir_nfs) s_ifdir
                          (add_if (has nfsmode suid) s_isuid 0))))))))))

unfoldable pub host2nfsmode : ℕ → ℕ → ℕ
host2nfsmode hostmode hostperms = add_if (has hostperms s_ioexec) xoth (
    add_if (has hostperms s_iowrite) woth (
      add_if (has hostperms s_ioread) roth (
        add_if (has hostperms s_iexec) xown (
          add_if (has hostperms s_iwrite) wown (
            add_if (has hostperms s_iread) rown (
              add_if (bit_and hostmode s_ifmt == s_ifblk) blk (
                add_if (bit_and hostmode s_ifmt == s_ifchr) chr (
                  add_if (bit_and hostmode s_ifmt == s_ifreg) reg (
                    add_if (bit_and hostmode s_ifmt == s_ifdir) dir_nfs
                      (add_if (bit_and hostmode s_isuid == s_isuid) suid 0))))))))))

-- `if (test) ftype = kind`
abbrev pub assign_if : Bool → ℕ → ℕ → ℕ
assign_if test kind ftype = if test then kind else ftype

unfoldable pub host2nfstype : ℕ → ℕ
host2nfstype hostmode =
    let format = bit_and hostmode s_ifmt in
    assign_if (format == s_ifblk) nfblk (
      assign_if (format == s_ifchr) nfchr
        (assign_if (format == s_ifreg) nfreg (assign_if (format == s_ifdir) nfdir 0)))
