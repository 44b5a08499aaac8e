-- ===== src/Nfsd/Sattr.antt =====
-- The reader of attributes of tek/daemons/nfsd.c, get_sattr as built for the 4404 (TEK4404 and
-- NO_GROUPS defined). The mode is a `char` and the user a `short` of `struct stat`.
use tek.Base.{ℕ, ◌+◌, ◌%◌, ◌^◌, ◌≤◌, ◌≡◌, refl, Option, some, List, [], ◌∷◌, ◌>>=◌, All}
use tek.Nfsd.Message.{Conn, transfer_size, add_uints, get_uint}
use tek.Nfsd.Message.Bytes.{IsWord}
use tek.Nfsd.Message.RoundTrip.{
  ReadsBack, get_uints, get_uints-add_uints, get_uints-first, get_uints-none,
}
use tek.Nfsd.Modes.{nfsmode2host}
use tek.Nfsd.Attributes.{Stat}

unfoldable pub get_sattr : Stat → Conn → Option (Stat × Conn)
get_sattr info request = do
  (mode, request1) ← get_uint request
  (uid, request2) ← get_uint request1
  (gid, request3) ← get_uint request2
  (size, request4) ← get_uint request3
  (seconds, request5) ← get_uint request4
  (useconds, request6) ← get_uint request5
  (skipped, request7) ← get_uint request6
  (mtime, request8) ← get_uint request7
  some (
    record info {
      st_mode = nfsmode2host mode % 2 ^ 8;
      st_uid = uid % 2 ^ 16;
      st_size = size;
      st_mtime = mtime;
    },
    request8,
  )

get_sattr-get_uints :
    (mode uid gid size a b c mtime : ℕ) (info : Stat) (request end_of : Conn)
    → get_uints 8 request ≡ some (mode ∷ uid ∷ gid ∷ size ∷ a ∷ b ∷ c ∷ mtime ∷ [], end_of)
    → get_sattr info request
      ≡ some (
        record info {
          st_mode = nfsmode2host mode % 2 ^ 8;
          st_uid = uid % 2 ^ 16;
          st_size = size;
          st_mtime = mtime;
        },
        end_of,
      )
unfolding get_sattr
get_sattr-get_uints mode uid gid size a b c mtime info request end_of h =
    let (r1, e1, h1) = get_uints-first 7 request mode _ _ h in
    let (r2, e2, h2) = get_uints-first 6 r1 uid _ _ h1 in
    let (r3, e3, h3) = get_uints-first 5 r2 gid _ _ h2 in
    let (r4, e4, h4) = get_uints-first 4 r3 size _ _ h3 in
    let (r5, e5, h5) = get_uints-first 3 r4 a _ _ h4 in
    let (r6, e6, h6) = get_uints-first 2 r5 b _ _ h5 in
    let (r7, e7, h7) = get_uints-first 1 r6 c _ _ h6 in
    let (r8, e8, h8) = get_uints-first 0 r7 mtime [] _ h7 in
    rw (e1, e2, e3, e4, e5, e6, e7, e8, get_uints-none r8 end_of h8) refl

-- Attributes that a client writes as eight words, each time as seconds and microseconds, are read
-- with the mode translated and the size as written; the time of the last change that is read is the
-- number of microseconds, and the seconds are dropped. The reader ends where the writer ended.
pub get_sattr-add_uints :
    (mode uid gid size a b seconds useconds : ℕ) (info : Stat) (f : ℕ → ℕ) (k : ℕ)
    → All IsWord (mode ∷ uid ∷ gid ∷ size ∷ a ∷ b ∷ seconds ∷ useconds ∷ [])
    → k + 32 ≤ transfer_size
    → ReadsBack
        (add_uints (mode ∷ uid ∷ gid ∷ size ∷ a ∷ b ∷ seconds ∷ useconds ∷ []))
        (get_sattr info)
        (record info {
          st_mode = nfsmode2host mode % 2 ^ 8;
          st_uid = uid % 2 ^ 16;
          st_size = size;
          st_mtime = useconds;
        })
        f
        k
get_sattr-add_uints mode uid gid size a b seconds useconds info f k w fits =
    let vs : List ℕ = mode ∷ uid ∷ gid ∷ size ∷ a ∷ b ∷ seconds ∷ useconds ∷ [] in
    let back : ReadsBack (add_uints vs) (get_uints 8) vs f k = get_uints-add_uints vs f k w fits in
    (back.0, back.1, get_sattr-get_uints mode uid gid size a b seconds useconds info _ _ back.2)
