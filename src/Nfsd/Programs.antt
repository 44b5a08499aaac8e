-- ===== src/Nfsd/Programs.antt =====
-- The portmapper, lock and mount programs of tek/daemons/nfsd.c. The answer has the reply that
-- `sendto` is given; `stack` is what the buffer of a reply holds before.
use Prim.Native.Nat.{bit_and}
use tek.Base.{
  ℕ, zero, suc, ◌+◌, ◌-◌, ◌*◌, ◌/◌, ◌%◌, ◌^◌, Bool, true, false, ◌&&◌, ◌||◌, Option, none, some,
  List, [], ◌∷◌, ◌++◌, ltb, leb, ◌==◌, if◌then◌else◌, get_elem?, ◌>>=◌, guarded,
}
use tek.Nfsd.Message.{
  Response, Conn, transfer_size, store, network, add_uint, add_uints, add_filehandle, get_uint,
  get_verifier, get_string,
}
use tek.Nfsd.Validate.{RpcHeader, rpcheader}
use tek.Nfsd.Credentials.{get_credentials}
use tek.Nfsd.Modes.{s_ifdir, s_ifreg, has}
use tek.Nfsd.Mounts.{Filehandle, Mounts, max_tokens, release_filehandle, make_fsid}
use tek.Nfsd.Pool.{Str, Cache, encodepath}
pub mod Getport
pub mod Callit
pub mod Mount
mod Runs

abbrev pub nfsd : ℕ
nfsd = 100003

abbrev pub mountd : ℕ
mountd = 100005

abbrev pub lockd : ℕ
lockd = 100024

abbrev pub bootparamd : ℕ
bootparamd = 100026

abbrev pub udp : ℕ
udp = 17

abbrev pub mountd_port : ℕ
mountd_port = 6135

abbrev pub lockd_port : ℕ
lockd_port = 41045

-- The port of a program, 0 when it has none.
unfoldable pub registered_port : ℕ → ℕ → ℕ → ℕ
registered_port prog vers prot =
    if prot == udp
    then if prog == nfsd
      then 2049
      else if prog == mountd
      then mountd_port
      else if prog == bootparamd
      then 2050
      else if (prog == lockd) && (vers == 4)
      then lockd_port
      else 0
    else 0

-- The words of the answer: the port, or that the program is not available.
unfoldable pub port_words : ℕ → ℕ → List ℕ
port_words xid port = xid ∷ 1 ∷ 0 ∷ 0 ∷ 0 ∷ (if port == 0 then 1 ∷ [] else 0 ∷ port ∷ [])

-- `*lomark++ = *himark++` for `n` bytes; a read behind the buffer is `none`.
unfoldable pub roll_back : ℕ → ℕ → ℕ → (ℕ → ℕ) → Option (ℕ → ℕ)
roll_back zero lomark himark f = some f
roll_back (suc n) lomark himark f =
    let rest = roll_back n (lomark + 1) (himark + 1) (λ j. if j == lomark then f himark else f j) in
    if ltb himark transfer_size then rest else none

-- The functions that the portmapper can call with a request.
pub data Service : Type 0 where
  mount_service : Service
  lock_service : Service
  nfs_service : Service
  nfs3_service : Service

-- The function for a program and its version, if any: the build for the 4404 is without POLYD,
-- which adds bootparamprog.
unfoldable pub dispatch : ℕ → ℕ → Option Service
dispatch prog vers =
    if prog == mountd
    then some mount_service
    else if prog == lockd
    then some lock_service
    else if prog == nfsd
    then if vers == 2 then some nfs_service else if vers == 3 then some nfs3_service else none
    else none

-- A reply is sent, or the request, as it is left, goes to a function or, with `none`, to nobody.
pub data Handled : Type 0 where
  answered : Response → Handled
  called : Option Service → Conn → Handled

module _ (bp_machinename bp_addr : List ℕ) (stack : ℕ → ℕ) where
  abbrev pub empty_reply : Response
  empty_reply = record { buffer = stack; cwp = 0 }

  unfoldable pub getport : ℕ → Conn → Option Handled
  getport xid request = do
    (prog, r1) ← get_uint request
    (vers, r2) ← get_uint r1
    (prot, r3) ← get_uint r2
    (port, r4) ← get_uint r3
    reply ← add_uints (port_words xid (registered_port prog vers prot)) empty_reply
    some (answered reply)

  unfoldable pub callit : ℕ → Conn → Option Handled
  unfolding roll_back dispatch
  callit len request = do
    (prog, r1) ← get_uint request
    (vers, r2) ← get_uint r1
    (proc, r3) ← get_uint r2
    rolled ← roll_back (len - request.crp) request.crp r3.crp request.buffer
    some
        (called (dispatch prog vers) (record { buffer = store rolled 20 (network proc); crp = 24 }))

  -- `len` is the number of bytes received.
  unfoldable pub portmapperprog : ℕ → Conn → Option Handled
  unfolding getport callit
  portmapperprog len request = do
    (uid, r1) ← get_credentials bp_machinename bp_addr request
    r2 ← get_verifier r1
    let header = rpcheader request.buffer
    if header.proc == 3
        then getport header.xid r2
        else if header.proc == 5
        then callit len r2
        else (do
          reply ← add_uints (header.xid ∷ 1 ∷ 0 ∷ 0 ∷ 0 ∷ 0 ∷ []) empty_reply
          some (answered reply))

  -- The start of a reply, with the port where the portmapper has called.
  unfoldable pub accepted : ℕ → Bool → ℕ → Option Response
  accepted xid isinternal port =
      add_uints (xid ∷ 1 ∷ 0 ∷ 0 ∷ 0 ∷ 0 ∷ (if isinternal then port ∷ [] else [])) empty_reply

  unfoldable pub lockprog : Bool → Conn → Option Response
  unfolding accepted
  lockprog isinternal request = do
    (uid, r1) ← get_credentials bp_machinename bp_addr request
    r2 ← get_verifier r1
    let header = rpcheader request.buffer
    reply ← accepted header.xid isinternal lockd_port
    if header.proc == 1
        then add_uint 0 reply
        else if ltb 1 header.proc && leb header.proc 4
        then (do (path, r3) ← get_string r2; add_uint 0 reply)
        else some reply

-- What `stat` finds out of a file.
pub record Info : Type 0 where
  pub st_ino : ℕ
  pub st_dev : ℕ
  pub st_mode : ℕ

abbrev pub two_bytes : ℕ → List ℕ
two_bytes v = (v / 2 ^ 8 % 256) ∷ (v % 256) ∷ []

-- The tokens that encodepath stores, over what the array holds.
abbrev pub stored_over : List ℕ → (ℕ → ℕ) → ℕ → ℕ
stored_over [] f i = f i
stored_over (t ∷ ts) f zero = t
stored_over (t ∷ ts) f (suc i) = stored_over ts (λ j. f (suc j)) i

-- The ten tokens from the place `n` on, as bytes.
abbrev pub token_bytes : (ℕ → ℕ) → ℕ → ℕ → List ℕ
token_bytes f n zero = []
token_bytes f n (suc left) = two_bytes (f n) ++ token_bytes f (n + 1) left

-- A file handle in the memory of the 4404, whose first byte of a word is the highest.
unfoldable pub handle_bytes : Filehandle → List ℕ
handle_bytes handle =
    network handle.len
    ++ (network handle.inode
        ++ (two_bytes handle.dev
            ++ (two_bytes handle.fsid ++ token_bytes handle.pathtokens 0 max_tokens)))

-- `fresh` is what a new block of strings begins with.
unfoldable pub make_filehandle : Str → Str → Info → Cache → Option (Filehandle × Cache)
make_filehandle fresh path info cache = do
  (encoded, cache') ← encodepath fresh path max_tokens cache
  some (
    record {
      len = 28;
      inode = info.st_ino;
      dev = info.st_dev % 2 ^ 16;
      fsid = 0;
      pathtokens = stored_over encoded (λ j. 0);
    },
    cache',
  )

pub record Mountd : Type 0 where
  pub mounts : Mounts
  pub cache : Cache

-- `tokens` is what the array of release_filehandle holds, of which encodepath writes a part.
module _ (fresh : Str) (tokens : ℕ → ℕ) (stat : Str → Option Info) where
  -- The mount of a directory or of a regular file, which are treated alike.
  unfoldable pub mount_path : ℕ → Str → Info → Response → Mountd → Option (Response × Mountd)
  mount_path vers path info reply s = do
    (handle, cache) ← make_filehandle fresh path info s.cache
    (fsid, mounts) ← make_fsid handle s.mounts
    r1 ← add_uint 0 reply
    r2 ← add_filehandle (handle_bytes (record handle { fsid = fsid % 2 ^ 16 })) r1
    r3 ← add_uints (if vers == 3 then 1 ∷ 1 ∷ 1 ∷ [] else []) r2
    some (r3, record { mounts = mounts; cache = cache })

  -- The answer to what `stat` finds.
  unfoldable pub mount_info : ℕ → Str → Option Info → Response → Mountd → Option (Response × Mountd)
  unfolding mount_path
  mount_info vers path none reply s = do r ← add_uints (2 ∷ 0 ∷ []) reply; some (r, s)
  mount_info vers path (some info) reply s =
      let refused = (do r ← add_uints (20 ∷ 0 ∷ []) reply; some (r, s)) in
      let mounted = mount_path vers path info reply s in
      if (bit_and info.st_mode s_ifdir == s_ifdir) || (bit_and info.st_mode s_ifreg == s_ifreg)
      then mounted
      else refused

  unfoldable pub add_mount : ℕ → Str → Response → Mountd → Option (Response × Mountd)
  unfolding mount_info
  add_mount vers path reply s = mount_info vers path (stat path) reply s

  unfoldable pub remove_mount : Str → Response → Mountd → Option (Response × Mountd)
  remove_mount path reply s = do
    (encoded, cache) ← encodepath fresh path max_tokens s.cache
    r ← add_uint 0 reply
    some (
      r,
      record { mounts = release_filehandle (stored_over encoded tokens) s.mounts; cache = cache },
    )

  module _ (bp_machinename bp_addr : List ℕ) (stack : ℕ → ℕ) where
    -- Procedure 2 only prints the mounts.
    unfoldable pub mountprog : Bool → Conn → Mountd → Option (Response × Mountd)
    unfolding accepted add_mount remove_mount
    mountprog isinternal request s = do
      (uid, r1) ← get_credentials bp_machinename bp_addr request
      r2 ← get_verifier r1
      let header = rpcheader request.buffer
      reply ← accepted bp_machinename bp_addr stack header.xid isinternal mountd_port
      if header.proc == 1
          then (do (path, r3) ← get_string r2; add_mount header.vers path reply s)
          else if header.proc == 3
          then (do (path, r3) ← get_string r2; remove_mount path reply s)
          else if header.proc == 4
          then some (reply, record s { mounts = record s.mounts { mount_count = 0 } })
          else some (reply, s)
