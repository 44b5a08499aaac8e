-- ===== src/Nfsd/Message/RoundTrip.antt =====
-- What the writer of RPC messages puts in, the reader takes out.
use tek.Base.{
  ℕ, zero, suc, ◌+◌, ◌*◌, ◌/◌, ◌%◌, ◌^◌, ◌≤◌, ◌<◌, ◌≡◌, refl, sym, ap, ◌∙◌, true, Option, some,
  List, [], ◌∷◌, ◌++◌, leb, length, length-append, ◌>>=◌, >>=-eq-some, All, arith, le→leb,
  append-nil, lt→ltb,
}
use mathlib.Core.Path.{subst}
use tek.Nfsd.Message.{
  Response, Conn, transfer_size, store, network, roundlen, add_uint, add_uints, add_uint64,
  add_ipv4, add_bytes, add_string, get_uint, get_uint64, get_octet, get_ipv4, copy_name, get_string,
  name_size,
}
use tek.Nfsd.Message.Bytes.{
  Holds, Holds-right, IsWord, load-Holds, store-Holds, store-append, word-Holds, words,
}

placed_eq :
    {f g : ℕ → ℕ} {a b : ℕ}
    → f ≡ g
    → a ≡ b
    → Path Response (record { buffer = f; cwp = a }) (record { buffer = g; cwp = b })
placed_eq p q = λ i. record { buffer = p i; cwp = q i }

pub add_uints-some :
    (vs : List ℕ) (f : ℕ → ℕ) (k : ℕ)
    → k + 4 * length vs ≤ transfer_size
    → add_uints vs (record { buffer = f; cwp = k })
      ≡ some (record { buffer = store f k (words vs); cwp = k + 4 * length vs })
unfolding add_uints add_uint
add_uints-some [] f k h = ap some (placed_eq refl (omega arith))
add_uints-some (v ∷ vs) f k h =
    let fits : leb (k + 4) transfer_size ≡ true = le→leb (k + 4) transfer_size (omega arith) in
    rw (fits, add_uints-some vs (store f k (network v)) (k + 4) (omega arith))
      (ap some (placed_eq (sym (store-append (network v) (words vs) f k)) (omega arith)))

-- The reading of `n` words, one after the other.
unfoldable pub get_uints : ℕ → Conn → Option (List ℕ × Conn)
get_uints zero request = some ([], request)
get_uints (suc n) request = do
  (v, request') ← get_uint request
  (vs, request'') ← get_uints n request'
  some (v ∷ vs, request'')

pub get_uint-Holds :
    (v : ℕ) (ys : List ℕ) (f : ℕ → ℕ) (k : ℕ)
    → IsWord v
    → Holds f k (network v ++ ys)
    → k + 4 ≤ transfer_size
    → get_uint (record { buffer = f; crp = k }) ≡ some (v, record { buffer = f; crp = k + 4 })
unfolding get_uint
get_uint-Holds v ys f k w h fits =
    rw (le→leb (k + 4) transfer_size fits, word-Holds v ys f k w h) refl

get_uints-Holds :
    (vs ys : List ℕ) (f : ℕ → ℕ) (k : ℕ)
    → All IsWord vs
    → Holds f k (words vs ++ ys)
    → k + 4 * length vs ≤ transfer_size
    → get_uints (length vs) (record { buffer = f; crp = k })
      ≡ some (vs, record { buffer = f; crp = k + 4 * length vs })
unfolding get_uints
get_uints-Holds [] ys f k w h fits =
    ap (λ t. some ([], record { buffer = f; crp = t })) (omega arith)
get_uints-Holds (v ∷ vs) ys f k w h fits =
    let h' : Holds f k (network v ++ (words vs ++ ys)) = h in
    let rest : Holds f (k + 4) (words vs ++ ys) = Holds-right (network v) (words vs ++ ys) f k h' in
    rw
      (
        get_uint-Holds v (words vs ++ ys) f k w.0 h' (omega arith),
        get_uints-Holds vs ys f (k + 4) w.1 rest (omega arith),
      )
      (ap (λ t. some (v ∷ vs, record { buffer = f; crp = t })) (omega arith))

-- Written from position `k` of a buffer, and read back from there: the value that was written, with
-- the reader where the writer ended.
abbrev pub ReadsBack {ℓ} :
    {A : Type ℓ}
    → (Response → Option Response)
    → (Conn → Option (A × Conn))
    → A
    → (ℕ → ℕ)
    → ℕ
    → Type ℓ
ReadsBack write read a f k =
    (reply : Response) × (write (record { buffer = f; cwp = k }) ≡ some reply)
    × (read (record { buffer = reply.buffer; crp = k })
        ≡ some (a, record { buffer = reply.buffer; crp = reply.cwp }))

stored_whole : (xs : List ℕ) (f : ℕ → ℕ) (k : ℕ) → Holds (store f k xs) k (xs ++ [])
stored_whole xs f k = rw (append-nil xs) (store-Holds xs f k)

-- A list of 32-bit words that fits the buffer is written, and as many `get_uint`s read the same
-- words back and end where the writer ended.
pub get_uints-add_uints :
    (vs : List ℕ) (f : ℕ → ℕ) (k : ℕ)
    → All IsWord vs
    → k + 4 * length vs ≤ transfer_size
    → ReadsBack (add_uints vs) (get_uints (length vs)) vs f k
get_uints-add_uints vs f k w fits = (
  record { buffer = store f k (words vs); cwp = k + 4 * length vs },
  add_uints-some vs f k fits,
  get_uints-Holds vs [] (store f k (words vs)) k w (stored_whole (words vs) f k) fits,
)

-- A text of less than 1024 bytes that fits the buffer with its length and its three NULs is
-- written, and `get_string` reads the same text back and ends where the writer ended.
pub get_string-add_string :
    (string : List ℕ) (f : ℕ → ℕ) (k : ℕ)
    → length string < name_size
    → k + 4 + length string + 3 ≤ transfer_size
    → ReadsBack (add_string string) get_string string f k
unfolding get_string copy_name add_string add_bytes add_uint
get_string-add_string string f k short fits =
    let nuls : List ℕ = 0 ∷ 0 ∷ 0 ∷ [] in
    let n : ℕ = length string in
    let g : ℕ → ℕ = store (store f k (network n)) (k + 4) (string ++ nuls) in
    let whole : List ℕ = network n ++ (string ++ nuls) in
    let same : store f k whole ≡ g = store-append (network n) (string ++ nuls) f k in
    let all : Holds g k whole = subst (λ t. Holds t k whole) same (store-Holds whole f k) in
    let text : Holds g (k + 4) (string ++ nuls) =
      Holds-right (network n) (string ++ nuls) g k all in
    let more : length (string ++ nuls) ≡ n + 3 = length-append string nuls in
    let first : leb (k + 4) transfer_size ≡ true = le→leb (k + 4) transfer_size (omega arith) in
    let second : leb (k + 4 + length (string ++ nuls)) transfer_size ≡ true =
      le→leb (k + 4 + length (string ++ nuls)) transfer_size (omega (arith, more)) in
    let third : leb (k + 4 + n) transfer_size ≡ true =
      le→leb (k + 4 + n) transfer_size (omega arith) in
    (
      record { buffer = g; cwp = k + 4 + roundlen n },
      (rw (first, second) refl),
      (rw
          (
            get_uint-Holds n (string ++ nuls) g k (omega arith) all (omega arith),
            lt→ltb n name_size short,
            third,
            load-Holds string nuls g (k + 4) text,
          )
          refl),
    )

abbrev shift_in : ℕ → ℕ → ℕ
shift_in ipv4 v = (ipv4 * 256 + v % 256) % 2 ^ 32

-- The address that `get_ipv4` makes of the words behind the address type.
abbrev address : List ℕ → ℕ
address (t ∷ a ∷ b ∷ c ∷ d ∷ []) = shift_in (shift_in (shift_in (shift_in 0 a) b) c) d
address _ = 0

-- A reading of words begins with the reading of the first.
pub get_uints-first :
    (n : ℕ) (request : Conn) (v : ℕ) (vs : List ℕ) (end_of : Conn)
    → get_uints (suc n) request ≡ some (v ∷ vs, end_of)
    → (next : Conn) × (get_uint request ≡ some (v, next)) × (get_uints n next ≡ some (vs, end_of))
unfolding get_uints
get_uints-first n request v vs end_of h =
    let (x, first, rest) = >>=-eq-some (get_uint request) _ h in
    let (y, second, made) = >>=-eq-some (get_uints n x.1) _ rest in (x.1, cc, cc)

pub get_uints-none :
    (request end_of : Conn) → get_uints 0 request ≡ some ([], end_of) → request ≡ end_of
unfolding get_uints
get_uints-none request end_of h = cc

get_ipv4-get_uints :
    (t a b c d : ℕ) (request end_of : Conn)
    → get_uints 5 request ≡ some (t ∷ a ∷ b ∷ c ∷ d ∷ [], end_of)
    → get_ipv4 request ≡ some (address (t ∷ a ∷ b ∷ c ∷ d ∷ []), end_of)
unfolding get_ipv4 get_octet
get_ipv4-get_uints t a b c d request end_of h =
    let (r1, e1, h1) = get_uints-first 4 request t _ _ h in
    let (r2, e2, h2) = get_uints-first 3 r1 a _ _ h1 in
    let (r3, e3, h3) = get_uints-first 2 r2 b _ _ h2 in
    let (r4, e4, h4) = get_uints-first 1 r3 c _ _ h3 in
    let (r5, e5, h5) = get_uints-first 0 r4 d [] _ h4 in
    rw (e1, e2, e3, e4, e5, get_uints-none r5 end_of h5) refl

address-octets :
    (ipv4 : ℕ)
    → IsWord ipv4
    → address (
        1
        ∷ (ipv4 / 2 ^ 24 % 256)
        ∷ (ipv4 / 2 ^ 16 % 256)
        ∷ (ipv4 / 2 ^ 8 % 256)
        ∷ (ipv4 % 256)
        ∷ [])
      ≡ ipv4
address-octets ipv4 h = omega arith

-- An IPv4 address that fits the buffer is written as five words, and `get_ipv4` reads the same
-- address back and ends where the writer ended.
pub get_ipv4-add_ipv4 :
    (ipv4 : ℕ) (f : ℕ → ℕ) (k : ℕ)
    → IsWord ipv4
    → k + 20 ≤ transfer_size
    → ReadsBack (add_ipv4 ipv4) get_ipv4 ipv4 f k
unfolding add_ipv4
get_ipv4-add_ipv4 ipv4 f k w fits =
    let vs : List ℕ =
      1
      ∷ (ipv4 / 2 ^ 24 % 256)
      ∷ (ipv4 / 2 ^ 16 % 256)
      ∷ (ipv4 / 2 ^ 8 % 256)
      ∷ (ipv4 % 256)
      ∷ [] in
    let back : ReadsBack (add_uints vs) (get_uints 5) vs f k =
      get_uints-add_uints vs f k
        (omega arith, (omega arith, (omega arith, (omega arith, (omega arith, tt)))))
        (omega arith) in
    (
      back.0,
      back.1,
      get_ipv4-get_uints _ _ _ _ _ _ _ back.2
          ∙ ap (λ t. some (t, record { buffer = back.0.buffer; crp = back.0.cwp }))
              (address-octets ipv4 w),
    )

-- A 64-bit value is written as its low word with a zero word before it, and `get_uint64` reads the
-- same low word back and ends where the writer ended.
pub get_uint64-add_uint64 :
    (val : ℕ) (f : ℕ → ℕ) (k : ℕ)
    → IsWord val
    → k + 8 ≤ transfer_size
    → ReadsBack (add_uint64 val) get_uint64 val f k
unfolding add_uint64 get_uint64 get_uints
get_uint64-add_uint64 val f k w fits =
    let back : ReadsBack (add_uints (0 ∷ val ∷ [])) (get_uints 2) (0 ∷ val ∷ []) f k =
      get_uints-add_uints (0 ∷ val ∷ []) f k (omega arith, (w, tt)) (omega arith) in
    let (r1, e1, h1) =
      get_uints-first 1 (record { buffer = back.0.buffer; crp = k }) 0 _ _ back.2 in
    let (r2, e2, h2) = get_uints-first 0 r1 val [] _ h1 in (back.0, back.1, (rw (e1, e2) cc))
