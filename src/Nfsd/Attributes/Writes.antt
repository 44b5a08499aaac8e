-- ===== src/Nfsd/Attributes/Writes.antt =====
-- Writers of attributes as lists of words, for add_fattr and add_fattr3 of tek/daemons/nfsd.c.
use tek.Base.{
  ℕ, ◌*◌, ◌≡◌, refl, ap, ◌∙◌, Bool, true, false, Option, none, some, List, [], ◌∷◌, ◌++◌,
  if◌then◌else◌, ◌>>=◌,
}
use Prim.Native.Nat.{bit_or}
use tek.Nfsd.Message.{Response, add_uint, add_uints}
use tek.Nfsd.Modes.{host2nfsmode, host2nfstype, s_ifdir}
use tek.Nfsd.Attributes.{Stat, is_format, blocks, get_majorminor}

-- The device number that a file has.
abbrev pub rdev : Stat → ℕ
rdev info = bit_or ((get_majorminor info).0 * 256) (get_majorminor info).1

-- type, mode, nlink, uid, gid, size, blocksize, rdev, blocks, fsid, fileid, atime, mtime, ctime.
abbrev pub fattr_words : Stat → ℕ → List ℕ
fattr_words info fsid =
    let used = if is_format info.st_mode s_ifdir then 64 else blocks info.st_size in
    host2nfstype info.st_mode
    ∷ host2nfsmode info.st_mode info.st_perm
    ∷ info.st_nlink
    ∷ info.st_uid
    ∷ info.st_uid
    ∷ info.st_size
    ∷ 512
    ∷ rdev info
    ∷ used
    ∷ fsid
    ∷ info.st_ino
    ∷ info.st_mtime
    ∷ 0
    ∷ info.st_mtime
    ∷ 0
    ∷ info.st_mtime
    ∷ 0
    ∷ []

-- type, mode, nlink, uid, gid, size, used, rdev, fsid, fileid, atime, mtime, ctime; those from size
-- to fileid have two words.
abbrev pub fattr3_words : Stat → ℕ → List ℕ
fattr3_words info fsid =
    let dir = is_format info.st_mode s_ifdir in
    (if dir then 2 else 1)
    ∷ host2nfsmode info.st_mode info.st_perm
    ∷ info.st_nlink
    ∷ info.st_uid
    ∷ info.st_uid
    ∷ 0
    ∷ (if dir then 512 else info.st_size)
    ∷ 0
    ∷ (if dir then 64 else blocks info.st_size)
    ∷ 0
    ∷ 0
    ∷ 0
    ∷ fsid
    ∷ 0
    ∷ info.st_ino
    ∷ info.st_mtime
    ∷ 0
    ∷ info.st_mtime
    ∷ 0
    ∷ info.st_mtime
    ∷ 0
    ∷ []

-- A writer that writes these words, or fails as their writing does.
pub record Writes (write : Response → Option Response) (vs : List ℕ) : Type 0 where
  pub law : (reply : Response) → write reply ≡ add_uints vs reply

bind_cong :
    {b c : Response → Option Response} (m : Option Response)
    → ((r : Response) → b r ≡ c r)
    → (m >>= b) ≡ (m >>= c)
bind_cong (some r) h = h r
bind_cong none h = refl

bind_assoc :
    (m : Option Response) (b c : Response → Option Response)
    → ((m >>= b) >>= c) ≡ (m >>= (λ r. b r >>= c))
bind_assoc (some r) b c = refl
bind_assoc none b c = refl

bind_some : (m : Option Response) → m ≡ (m >>= (λ r. some r))
bind_some (some r) = refl
bind_some none = refl

pub many :
    (xs : List ℕ) {ys : List ℕ} {b : Response → Option Response}
    → Writes b ys
    → Writes (λ r. add_uints xs r >>= b) (xs ++ ys)
unfolding add_uints
many [] h = record { law = λ reply. h.law reply }
many (x ∷ xs) {b = b} h = record {
  law = λ reply.
      bind_assoc (add_uint x reply) (add_uints xs) b ∙ bind_cong (add_uint x reply) (many xs h).law;
}

pub one :
    (v : ℕ) {ys : List ℕ} {b : Response → Option Response}
    → Writes b ys
    → Writes (λ r. add_uint v r >>= b) (v ∷ ys)
unfolding add_uints
one v h = record { law = λ reply. bind_cong (add_uint v reply) h.law }

pub last : (v : ℕ) → Writes (add_uint v) (v ∷ [])
unfolding add_uints
last v = record { law = λ reply. bind_some (add_uint v reply) }

pub join :
    (xs : List ℕ) {ys : List ℕ} {a b : Response → Option Response}
    → Writes a xs
    → Writes b ys
    → Writes (λ r. a r >>= b) (xs ++ ys)
join xs {b = b} g h = record {
  law = λ reply. ap (λ m. m >>= b) (g.law reply) ∙ (many xs h).law reply;
}

pub choice :
    (test : Bool) (v w : ℕ)
    → Writes (λ r. if test then add_uint v r else add_uint w r) ((if test then v else w) ∷ [])
choice true v w = last v
choice false v w = last w
