-- ===== src/Nfsd/Message.antt =====
-- RPC messages of the file server, tek/daemons/nfsd.c: the writer `add_*` on `struct response` and
-- the reader `get_*` on `struct conn`. A buffer is a function of the position with
-- TRANSFER_SIZE bytes; `none` is an access behind it, which the source does not test for.
-- `htonl` and `ntohl` make the first of four bytes the highest, on hosts of both byte orders.
pub mod Bytes
pub mod RoundTrip
use tek.Base.{
  ℕ, zero, suc, ◌+◌, ◌-◌, ◌*◌, ◌/◌, ◌%◌, ◌^◌, Bool, true, false, Option, none, some, List, [], ◌∷◌,
  ◌++◌, ltb, leb, ◌==◌, if◌then◌else◌, length, ◌>>=◌, guarded,
}

abbrev pub transfer_size : ℕ
transfer_size = 8448

-- `struct response`, and `struct conn` with the fields that the reader uses.
pub record Response : Type 0 where
  pub buffer : ℕ → ℕ
  pub cwp : ℕ

pub record Conn : Type 0 where
  pub buffer : ℕ → ℕ
  pub crp : ℕ

-- Bytes stored one after the other from position `k` on.
abbrev pub store : (ℕ → ℕ) → ℕ → List ℕ → ℕ → ℕ
store f k [] = f
store f k (x ∷ xs) = store (λ j. if j == k then x else f j) (k + 1) xs

-- The `n` bytes from position `k` on.
abbrev pub load : (ℕ → ℕ) → ℕ → ℕ → List ℕ
load f k zero = []
load f k (suc n) = f k ∷ load f (k + 1) n

-- The four bytes of a word in network order, and the word of four bytes.
abbrev pub network : ℕ → List ℕ
network v = (v / 2 ^ 24 % 256) ∷ (v / 2 ^ 16 % 256) ∷ (v / 2 ^ 8 % 256) ∷ (v % 256) ∷ []

abbrev pub word_at : (ℕ → ℕ) → ℕ → ℕ
word_at f k = f k * 2 ^ 24 + f (k + 1) * 2 ^ 16 + f (k + 2) * 2 ^ 8 + f (k + 3)

-- `ROUNDLEN`
abbrev pub roundlen : ℕ → ℕ
roundlen a = (a + 3) / 4 * 4

unfoldable pub add_uint : ℕ → Response → Option Response
add_uint val reply =
    guarded (leb (reply.cwp + 4) transfer_size)
      (record { buffer = store reply.buffer reply.cwp (network val); cwp = reply.cwp + 4 })

-- `*ptr = htons(val)` through an `unsigned int *` stores four bytes, of which `cwp` counts two. On a
-- big-endian host, as the 4404 is, the value stands in the other two.
unfoldable pub add_uint16 : Bool → ℕ → Response → Option Response
add_uint16 big val reply =
    let two = (val / 2 ^ 8 % 256) ∷ (val % 256) ∷ [] in
    guarded (leb (reply.cwp + 4) transfer_size) (record {
      buffer = store reply.buffer reply.cwp (if big then 0 ∷ 0 ∷ two else two ++ (0 ∷ 0 ∷ []));
      cwp = reply.cwp + 2;
    })

unfoldable pub add_uints : List ℕ → Response → Option Response
add_uints [] reply = some reply
add_uints (v ∷ vs) reply = do reply' ← add_uint v reply; add_uints vs reply'

unfoldable pub add_uint64 : ℕ → Response → Option Response
unfolding add_uints
add_uint64 val = add_uints (0 ∷ val ∷ [])

unfoldable pub add_ipv4 : ℕ → Response → Option Response
unfolding add_uints
add_ipv4 ipv4 =
    add_uints
      (1 ∷ (ipv4 / 2 ^ 24 % 256) ∷ (ipv4 / 2 ^ 16 % 256) ∷ (ipv4 / 2 ^ 8 % 256) ∷ (ipv4 % 256) ∷ [])

unfoldable pub add_nfstime : ℕ → Response → Option Response
unfolding add_uints
add_nfstime seconds = add_uints (seconds ∷ 0 ∷ [])

unfoldable pub add_cookie3 : ℕ → Response → Option Response
unfolding add_uints
add_cookie3 cookie = add_uints (0 ∷ cookie ∷ [])

-- `memcpy` of `stored` bytes to the end of the message, of which `counted` are counted.
unfoldable pub add_bytes : List ℕ → ℕ → Response → Option Response
add_bytes stored counted reply =
    guarded (leb (reply.cwp + length stored) transfer_size)
      (record { buffer = store reply.buffer reply.cwp stored; cwp = reply.cwp + counted })

-- A file handle as its 32 bytes.
unfoldable pub add_filehandle : List ℕ → Response → Option Response
unfolding add_bytes
add_filehandle fh = add_bytes fh (roundlen (length fh))

unfoldable pub add_post_filehandle : List ℕ → Response → Option Response
unfolding add_filehandle
add_post_filehandle fh reply = do reply' ← add_uint 1 reply; add_filehandle fh reply'

-- `add_string` puts three NULs behind the text, and `add_data` none.
unfoldable pub add_string : List ℕ → Response → Option Response
unfolding add_bytes
add_string string reply = do
  reply' ← add_uint (length string) reply
  add_bytes (string ++ (0 ∷ 0 ∷ 0 ∷ [])) (roundlen (length string)) reply'

unfoldable pub add_data : List ℕ → Response → Option Response
unfolding add_bytes
add_data content reply = do
  reply' ← add_uint (length content) reply
  add_bytes content (roundlen (length content)) reply'

-- `add_length_marker` answers the place of the marker.
unfoldable pub add_length_marker : Response → Option (ℕ × Response)
add_length_marker reply = do reply' ← add_uint 0 reply; some (reply.cwp, reply')

unfoldable pub update_length : ℕ → Response → Option Response
update_length lomark reply = guarded (leb (lomark + 4) transfer_size) (record reply {
  buffer = store reply.buffer lomark (network ((reply.cwp + 2 ^ 32 - lomark - 4) % 2 ^ 32));
})

unfoldable pub get_uint : Conn → Option (ℕ × Conn)
get_uint request =
    guarded (leb (request.crp + 4) transfer_size)
      (word_at request.buffer request.crp, record request { crp = request.crp + 4 })

unfoldable pub get_uint16 : Conn → Option (ℕ × Conn)
get_uint16 request = guarded (leb (request.crp + 2) transfer_size) (
  request.buffer request.crp * 256 + request.buffer (request.crp + 1),
  record request { crp = request.crp + 2 },
)

unfoldable pub get_uint64 : Conn → Option (ℕ × Conn)
get_uint64 request = do (high, request') ← get_uint request; get_uint request'

-- One `ipv4 <<= 8; ipv4 |= get_uint(request) & 0xff;`; the low byte is free after the shift.
unfoldable pub get_octet : ℕ → Conn → Option (ℕ × Conn)
get_octet ipv4 request = do
  (v, request') ← get_uint request
  some ((ipv4 * 256 + v % 256) % 2 ^ 32, request')

unfoldable pub get_ipv4 : Conn → Option (ℕ × Conn)
unfolding get_octet
get_ipv4 request = do
  (atype, request') ← get_uint request
  (a, request1) ← get_octet 0 request'
  (b, request2) ← get_octet a request1
  (c, request3) ← get_octet b request2
  get_octet c request3

unfoldable pub get_verifier : Conn → Option Conn
get_verifier request = do
  (flavour, request1) ← get_uint request
  (len, request2) ← get_uint request1
  some (record request2 { crp = request2.crp + len })

-- `sizeof(name)` in `get_string`
abbrev pub name_size : ℕ
name_size = 1024

-- The copy into `name` is not held against its size.
unfoldable pub copy_name : ℕ → Conn → Option (List ℕ × Conn)
copy_name len request =
    guarded (if ltb len name_size then leb (request.crp + len) transfer_size else false)
      (load request.buffer request.crp len, record request { crp = request.crp + roundlen len })

unfoldable pub get_string : Conn → Option (List ℕ × Conn)
unfolding copy_name
get_string request = do (len, request') ← get_uint request; copy_name len request'
