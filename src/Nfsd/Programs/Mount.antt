-- ===== src/Nfsd/Programs/Mount.antt =====
-- The mount of a path by mountprog of tek/daemons/nfsd.c.
use Prim.Native.Nat.{bit_and}
use tek.Base.{
  ℕ, suc, ◌+◌, ◌*◌, ◌%◌, ◌^◌, ◌≤◌, ◌<◌, ◌≡◌, ◌≢◌, ◌⊎◌, ◌||◌, refl, sym, ap, ◌∙◌, true, Option, some,
  List, [], ◌∷◌, ◌++◌, All, length, leb, le→leb, ◌==◌, if◌then◌else◌, Bool-cases, inl, inr, arith,
}
use mathlib.Core.Path.{subst}
use tek.Nfsd.Message.{
  Response, transfer_size, roundlen, store, network, add_uint, add_uints, add_bytes, add_filehandle,
}
use tek.Nfsd.Message.Bytes.{Holds, store-Holds, store-append, words}
use tek.Nfsd.Message.RoundTrip.{add_uints-some}
use tek.Nfsd.Modes.{s_ifdir, s_ifreg}
use tek.Nfsd.Mounts.{Filehandle, max_tokens, max_mounts}
use tek.Nfsd.Mounts.Table.{PathEnds, make_fsid_entered}
use tek.Nfsd.Pool.{Str, tokens, decodepath, working_size, short_end}
use tek.Nfsd.Pool.Paths.{opened, IsValid}
use tek.Nfsd.Pool.Decode.{encodepath-tokens, render}
use tek.Nfsd.Programs.{
  Info, Mountd, stored_over, handle_bytes, make_filehandle, mount_path, mount_info, add_mount,
}

-- The array has the tokens and then zeros.
stored_over-PathEnds :
    (encoded : List ℕ) (n : ℕ) (f : ℕ → ℕ)
    → All (λ i. i ≢ 0) encoded
    → ((j : ℕ) → f (n + j) ≡ stored_over encoded (λ i. 0) j)
    → PathEnds f n (length encoded)
stored_over-PathEnds [] n f h at = let here : n + 0 ≡ n = omega arith in ap f (sym here) ∙ at 0
stored_over-PathEnds (t ∷ ts) n f h at =
    let here : n + 0 ≡ n = omega arith in
    (
      (λ (e : f n ≡ 0). h.0 (sym (at 0) ∙ (ap f here ∙ e))),
      stored_over-PathEnds ts (n + 1) f h.1
          (λ j. let next : n + 1 + j ≡ n + suc j = omega arith in ap f next ∙ at (suc j)),
    )

length-handle_bytes : (handle : Filehandle) → length (handle_bytes handle) ≡ 32
unfolding handle_bytes
length-handle_bytes handle = refl

-- The end of a mount's reply: status 0, the handle, and for version 3 the one flavour of credentials.
mount_reply :
    (hb more : List ℕ) (f : ℕ → ℕ) (k : ℕ)
    → length hb ≡ 32
    → length more ≤ 3
    → k + 48 ≤ transfer_size
    → (r1 r2 r3 : Response) × (add_uint 0 (record { buffer = f; cwp = k }) ≡ some r1)
      × (add_filehandle hb r1 ≡ some r2)
      × (add_uints more r2 ≡ some r3)
      × Holds r3.buffer k (words (0 ∷ []) ++ (hb ++ words more))
unfolding add_uint add_filehandle add_bytes
mount_reply hb more f k len few fits =
    let first : leb (k + 4) transfer_size ≡ true =
      le→leb (k + 4) transfer_size (omega (arith, fits)) in
    let second : leb (k + 4 + length hb) transfer_size ≡ true =
      le→leb (k + 4 + length hb) transfer_size (omega (arith, fits, len)) in
    let g : ℕ → ℕ = store (store f k (network 0)) (k + 4) hb in
    let end : k + 4 + roundlen (length hb) ≡ k + 4 + length hb = omega (arith, len) in
    let whole : store f k (words (0 ∷ []) ++ (hb ++ words more))
        ≡ store g (k + 4 + length hb) (words more) =
      store-append (network 0) (hb ++ words more) f k
      ∙ store-append hb (words more) (store f k (network 0)) (k + 4) in
    (
      record { buffer = store f k (network 0); cwp = k + 4 },
      record { buffer = g; cwp = k + 4 + length hb },
      record {
        buffer = store g (k + 4 + length hb) (words more);
        cwp = k + 4 + length hb + 4 * length more;
      },
      rw first refl,
      rw (second, end) refl,
      add_uints-some more g (k + 4 + length hb) (omega (arith, fits, few, len)),
      subst (λ b. Holds b k (words (0 ∷ []) ++ (hb ++ words more))) whole
          (store-Holds (words (0 ∷ []) ++ (hb ++ words more)) f k),
    )

abbrev pub flavours : ℕ → List ℕ
flavours vers = if vers == 3 then 1 ∷ 1 ∷ 1 ∷ [] else []

length-flavours : (vers : ℕ) → length (flavours vers) ≤ 3
length-flavours vers = elim (Bool-cases (vers == 3)) [
  | inl e ↦ rw e (omega arith)
  | inr e ↦ rw e (omega arith)
]

-- The mount once `stat` has found the path.
mount_path-mounted :
    (stat : Str → Option Info) (left_over : ℕ → ℕ) (vers k : ℕ) (path : Str) (info : Info)
    (f : ℕ → ℕ) (s : Mountd)
    → IsValid s.cache
    → length path < working_size
    → length (tokens [] path) < max_tokens
    → length (opened s.cache) + length (tokens [] path) ≤ short_end
    → s.mounts.mount_count < max_mounts
    → k + 48 ≤ transfer_size
    → (handle : Filehandle) × (encoded : List ℕ) × (fsid : ℕ) × (r : Response) × (s' : Mountd)
      × (mount_path [] left_over stat vers path info (record { buffer = f; cwp = k }) s
          ≡ some (r, s'))
      × Holds r.buffer k (
          words (0 ∷ [])
          ++ (handle_bytes (record handle { fsid = fsid % 2 ^ 16 }) ++ words (flavours vers)))
      × (fsid % 16 ≡ length (tokens [] path))
      × (s'.mounts.mount_count ≡ s.mounts.mount_count + 1)
      × (s'.mounts.mount_array s.mounts.mount_count ≡ handle)
      × (handle.inode ≡ info.st_ino)
      × (handle.dev ≡ info.st_dev % 2 ^ 16)
      × (handle.pathtokens ≡ stored_over encoded (λ j. 0))
      × (decodepath (encoded ++ (0 ∷ [])) s'.cache ≡ some (render (tokens [] path)))
unfolding mount_path make_filehandle
mount_path-mounted stat left_over vers k path info f s v short deep few room fits =
    let (encoded, cache, made, grown, decoded, count, nonzero) =
      encodepath-tokens path max_tokens s.cache v short (omega (arith, deep)) few in
    let handle : Filehandle = record {
      len = 28;
      inode = info.st_ino;
      dev = info.st_dev % 2 ^ 16;
      fsid = 0;
      pathtokens = stored_over encoded (λ j. 0);
    } in
    let ends : PathEnds handle.pathtokens 0 (length encoded) =
      stored_over-PathEnds encoded 0 handle.pathtokens nonzero
        (λ j. ap handle.pathtokens (omega arith)) in
    let (fsid, after, entered, low, more, there) =
      make_fsid_entered handle s.mounts (length encoded) ends (omega (arith, count, deep)) room in
    let hb = handle_bytes (record handle { fsid = fsid % 2 ^ 16 }) in
    let (r1, r2, r3, e1, e2, e3, held) =
      mount_reply hb (flavours vers) f k
        (length-handle_bytes (record handle { fsid = fsid % 2 ^ 16 })) (length-flavours vers)
        fits in
    (
      handle,
      encoded,
      fsid,
      r3,
      record { mounts = after; cache = cache },
      rw (made, entered, e1, e2, e3) refl,
      held,
      low ∙ count,
      more,
      there,
      refl,
      refl,
      refl,
      decoded,
    )

-- A mount by procedure 1 of mountprog, behind the start of its reply: where `stat` finds the path
-- to be a directory or to have the bit of a regular file, the path has less than 1024 bytes and
-- less than 10 components, the table of mounts is not full, the pool of strings is valid and has
-- room, and a new block of strings, if one is made, begins with a NUL. The reply goes on with
-- status 0, the bytes of a handle and, for version 3, one flavour of credentials; the handle has
-- the inode and the device that `stat` found, and its tokens decode to the components of the path,
-- each behind one slash; it is entered in the table, but for its identifier, whose low four bits
-- are the count of the components.
pub add_mount-mounted :
    (stat : Str → Option Info) (left_over : ℕ → ℕ) (vers k : ℕ) (path : Str) (info : Info)
    (f : ℕ → ℕ) (s : Mountd)
    → stat path ≡ some info
    → (bit_and info.st_mode s_ifdir ≡ s_ifdir) ⊎ (bit_and info.st_mode s_ifreg ≡ s_ifreg)
    → IsValid s.cache
    → length path < working_size
    → length (tokens [] path) < max_tokens
    → length (opened s.cache) + length (tokens [] path) ≤ short_end
    → s.mounts.mount_count < max_mounts
    → k + 48 ≤ transfer_size
    → (handle : Filehandle) × (encoded : List ℕ) × (fsid : ℕ) × (r : Response) × (s' : Mountd)
      × (add_mount [] left_over stat vers path (record { buffer = f; cwp = k }) s ≡ some (r, s'))
      × Holds r.buffer k (
          words (0 ∷ [])
          ++ (handle_bytes (record handle { fsid = fsid % 2 ^ 16 }) ++ words (flavours vers)))
      × (fsid % 16 ≡ length (tokens [] path))
      × (s'.mounts.mount_count ≡ s.mounts.mount_count + 1)
      × (s'.mounts.mount_array s.mounts.mount_count ≡ handle)
      × (handle.inode ≡ info.st_ino)
      × (handle.dev ≡ info.st_dev % 2 ^ 16)
      × (handle.pathtokens ≡ stored_over encoded (λ j. 0))
      × (decodepath (encoded ++ (0 ∷ [])) s'.cache ≡ some (render (tokens [] path)))
unfolding add_mount mount_info
add_mount-mounted stat left_over vers k path info f s found kind v short deep few room fits =
    let (
      handle, encoded, fsid, r, s', made, held, low, more, there, inode, dev, tokens_there, decoded,
    ) =
      mount_path-mounted stat left_over vers k path info f s v short deep few room fits in
    let accepts : (bit_and info.st_mode s_ifdir == s_ifdir)
          || (bit_and info.st_mode s_ifreg == s_ifreg)
        ≡ true =
      elim kind [ inl e ↦ ground (arith, e) | inr e ↦ ground (arith, e) ] in
    (
      handle,
      encoded,
      fsid,
      r,
      s',
      ap (λ o. mount_info [] left_over stat vers path o (record { buffer = f; cwp = k }) s) found
          ∙ rw accepts made,
      held,
      low,
      more,
      there,
      inode,
      dev,
      tokens_there,
      decoded,
    )
