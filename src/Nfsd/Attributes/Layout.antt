-- ===== src/Nfsd/Attributes/Layout.antt =====
-- The layouts of RFC 1094 and RFC 1813 for the attributes of a file.
use tek.Base.{
  ℕ, ◌+◌, ◌*◌, ◌≤◌, ◌≡◌, refl, ◌∙◌, Bool, true, false, Option, List, [], ◌∷◌, ◌++◌, if◌then◌else◌,
  length, All, arith,
}
use mathlib.Core.Path.{subst}
use tek.Nfsd.Message.{Response, transfer_size, add_uint64, add_nfstime}
use tek.Nfsd.Message.Bytes.{IsWord}
use tek.Nfsd.Message.RoundTrip.{ReadsBack, get_uints, get_uints-add_uints}
use tek.Nfsd.Modes.{host2nfsmode, host2nfstype, s_ifdir, nfdir, nfreg}
use tek.Nfsd.Attributes.{Stat, is_format, blocks, add_fattr, add_head3, add_fattr3}
use tek.Nfsd.Attributes.Writes.{
  Writes, choice, fattr3_words, fattr_words, join, last, many, one, rdev,
}

add_fattr-Writes : (info : Stat) (fsid : ℕ) → Writes (add_fattr info fsid) (fattr_words info fsid)
unfolding add_fattr add_nfstime
add_fattr-Writes info fsid =
    let time : List ℕ = info.st_mtime ∷ 0 ∷ [] in
    one (host2nfstype info.st_mode) (
      one (host2nfsmode info.st_mode info.st_perm) (
        one info.st_nlink (
          one info.st_uid (
            one info.st_uid (
              one info.st_size (
                one 512 (
                  one (rdev info) (
                    join ((if is_format info.st_mode s_ifdir then 64 else blocks info.st_size) ∷ [])
                      (choice (is_format info.st_mode s_ifdir) 64 (blocks info.st_size))
                      (one fsid (
                        one info.st_ino
                          (many time (many time (record { law = λ r. refl })))))))))))))

add_head3-Writes :
    (ftype : ℕ) (info : Stat)
    → Writes (add_head3 ftype info) (
        ftype
        ∷ host2nfsmode info.st_mode info.st_perm
        ∷ info.st_nlink
        ∷ info.st_uid
        ∷ info.st_uid
        ∷ [])
unfolding add_head3
add_head3-Writes ftype info = one ftype (
    one (host2nfsmode info.st_mode info.st_perm)
      (one info.st_nlink (one info.st_uid (last info.st_uid))))

branch :
    (test : Bool) {xs ys : List ℕ} {a b : Response → Option Response}
    → Writes a xs
    → Writes b ys
    → Writes (λ r. if test then a r else b r) (if test then xs else ys)
branch true g h = g
branch false g h = h

-- The two branches differ in the type, the size and the space used.
branch_words :
    (test : Bool) (mode nlink uid size used : ℕ) (tail : List ℕ)
    → (if test
          then 2 ∷ mode ∷ nlink ∷ uid ∷ uid ∷ 0 ∷ 512 ∷ 0 ∷ 64 ∷ []
          else 1 ∷ mode ∷ nlink ∷ uid ∷ uid ∷ 0 ∷ size ∷ 0 ∷ used ∷ [])
        ++ tail
      ≡ (if test then 2 else 1)
        ∷ mode
        ∷ nlink
        ∷ uid
        ∷ uid
        ∷ 0
        ∷ (if test then 512 else size)
        ∷ 0
        ∷ (if test then 64 else used)
        ∷ tail
branch_words true mode nlink uid size used tail = refl
branch_words false mode nlink uid size used tail = refl

add_fattr3-Writes :
    (info : Stat) (fsid : ℕ) → Writes (add_fattr3 info fsid) (fattr3_words info fsid)
unfolding add_fattr3 add_nfstime add_uint64
add_fattr3-Writes info fsid =
    let mode : ℕ = host2nfsmode info.st_mode info.st_perm in
    let dir : Bool = is_format info.st_mode s_ifdir in
    let used : ℕ = blocks info.st_size in
    let head : ℕ → List ℕ =
      λ ftype. ftype ∷ mode ∷ info.st_nlink ∷ info.st_uid ∷ info.st_uid ∷ [] in
    let time : List ℕ = info.st_mtime ∷ 0 ∷ [] in
    let tail : List ℕ = 0 ∷ 0 ∷ 0 ∷ fsid ∷ 0 ∷ info.st_ino ∷ (time ++ (time ++ time)) in
    subst (Writes (add_fattr3 info fsid))
      (branch_words dir mode info.st_nlink info.st_uid info.st_size used tail)
      (join
        (if dir
          then head 2 ++ (0 ∷ 512 ∷ 0 ∷ 64 ∷ [])
          else head 1 ++ (0 ∷ info.st_size ∷ 0 ∷ used ∷ []))
        (branch dir
          (join (head 2) (add_head3-Writes nfdir info)
            (many (0 ∷ 512 ∷ []) (record { law = λ r. refl })))
          (join (head 1) (add_head3-Writes nfreg info)
            (many (0 ∷ info.st_size ∷ []) (record { law = λ r. refl }))))
        (many (0 ∷ 0 ∷ []) (
          many (0 ∷ fsid ∷ [])
            (many (0 ∷ info.st_ino ∷ []) (many time (many time (record { law = λ r. refl })))))))

reads_back :
    (vs : List ℕ) {write : Response → Option Response} (f : ℕ → ℕ) (k : ℕ)
    → Writes write vs
    → All IsWord vs
    → k + 4 * length vs ≤ transfer_size
    → ReadsBack write (get_uints (length vs)) vs f k
reads_back vs f k h ok fits =
    let (reply, written, read) = get_uints-add_uints vs f k ok fits in
    (reply, h.law (record { buffer = f; cwp = k }) ∙ written, read)

-- The attributes of a file that are 32-bit words are written, where 68 bytes are left, as the 17
-- words of a fattr of NFS version 2 in the order of RFC 1094, and read back as these words.
pub add_fattr_layout :
    (info : Stat) (fsid : ℕ) (f : ℕ → ℕ) (k : ℕ)
    → All IsWord (fattr_words info fsid)
    → k + 68 ≤ transfer_size
    → ReadsBack (add_fattr info fsid) (get_uints 17) (fattr_words info fsid) f k
add_fattr_layout info fsid f k ok fits =
    reads_back (fattr_words info fsid) f k (add_fattr-Writes info fsid) ok (omega arith)

-- The attributes of a file that are 32-bit words are written, where 84 bytes are left, as the 21
-- words of a fattr3 of NFS version 3 in the order of RFC 1813, with the count of blocks of 512
-- bytes as the space used, and read back as these words.
pub add_fattr3_layout :
    (info : Stat) (fsid : ℕ) (f : ℕ → ℕ) (k : ℕ)
    → All IsWord (fattr3_words info fsid)
    → k + 84 ≤ transfer_size
    → ReadsBack (add_fattr3 info fsid) (get_uints 21) (fattr3_words info fsid) f k
add_fattr3_layout info fsid f k ok fits =
    reads_back (fattr3_words info fsid) f k (add_fattr3-Writes info fsid) ok (omega arith)
