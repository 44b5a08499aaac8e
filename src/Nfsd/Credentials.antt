-- ===== src/Nfsd/Credentials.antt =====
-- `get_credentials` of tek/daemons/nfsd.c. The machine name and address of the command line are C
-- strings, here the bytes before the NUL. `verbose` is LOGCREDS, which is 0, and only prints. An
-- `int` is its bit pattern, and pointers have 32 bits.
use tek.Base.{
  ℕ, ◌+◌, ◌*◌, ◌-◌, ◌^◌, ◌%◌, ◌≤◌, ◌<◌, ◌≡◌, refl, Bool, true, false, Bool-cases, inl, inr, Option,
  some, List, [], ◌∷◌, ◌++◌, ltb, leb, le→leb, lt→ltb, ◌==◌, if◌then◌else◌, length, ◌>>=◌, guarded,
  arith,
}
use tek.Nfsd.Message.{Conn, transfer_size, word_at, network, get_uint}
use tek.Nfsd.Message.Bytes.{IsWord, Holds, Holds-right, words, word-Holds}
use tek.Nfsd.Message.RoundTrip.{get_uint-Holds}

-- `ntohl` of the word at a position of the buffer.
unfoldable pub read_word : (ℕ → ℕ) → ℕ → Option ℕ
read_word f k = guarded (leb (k + 4) transfer_size) (word_at f k)

-- Whether `strcmp` of a string and the one in the buffer is zero.
unfoldable pub equals_at : List ℕ → (ℕ → ℕ) → ℕ → Option Bool
equals_at [] f k = guarded (ltb k transfer_size) (f k == 0)
equals_at (c ∷ cs) f k =
    let later = equals_at cs f (k + 1) in
    guarded (ltb k transfer_size) (f k == c) >>= (λ same. if same then later else some false)

-- AUTH_UNIX
abbrev pub auth_unix : ℕ
auth_unix = 1

module _ (bp_machinename bp_addr : List ℕ) where
  -- Whether the name at position `k` may call.
  unfoldable pub admits : (ℕ → ℕ) → ℕ → Option Bool
  admits f k = do
    first ← guarded (ltb k transfer_size) (f k)
    byname ←
        (if first == 0
          then some true
          else if length bp_machinename == 0
          then some true
          else equals_at bp_machinename f k)
    if byname then some true else equals_at bp_addr f k

  -- The branch of AUTH_UNIX, with `ptr` at the place behind the length: `ptr += n` moves by words.
  unfoldable pub unix_user : ℕ → Conn → Option (ℕ × Conn)
  unix_user len request = do
    n ← read_word request.buffer (request.crp + 4)
    known ← admits request.buffer (request.crp + 8)
    if known
        then (do
          uid ← read_word request.buffer ((request.crp + 4 * n + 8) % 2 ^ 32)
          gid ← read_word request.buffer ((request.crp + 4 * n + 12) % 2 ^ 32)
          some (uid, record request { crp = request.crp + len }))
        else some (2 ^ 32 - 1, request)

  unfoldable pub get_credentials : Conn → Option (ℕ × Conn)
  get_credentials request = do
    (flavour, request1) ← get_uint request
    (len, request2) ← get_uint request1
    if flavour == auth_unix
        then unix_user len request2
        else some (0, record request2 { crp = request2.crp + len })

admits_all :
    (bp_addr : List ℕ) (f : ℕ → ℕ) (k : ℕ) → k < transfer_size → admits [] bp_addr f k ≡ some true
unfolding admits
admits_all bp_addr f k h = elim (Bool-cases (f k == 0)) [
  | inl e ↦ rw (lt→ltb k transfer_size h, e) refl
  | inr e ↦ rw (lt→ltb k transfer_size h, e) refl
]

read_word-some : (f : ℕ → ℕ) (k : ℕ) → k + 4 ≤ transfer_size → read_word f k ≡ some (word_at f k)
unfolding read_word
read_word-some f k h = rw (le→leb (k + 4) transfer_size h) refl

unix_user-some :
    (bp_addr : List ℕ) (len n c : ℕ) (f : ℕ → ℕ)
    → word_at f (c + 4) ≡ n
    → c + 4 * n + 16 ≤ transfer_size
    → unix_user [] bp_addr len (record { buffer = f; crp = c })
      ≡ some (word_at f (c + 4 * n + 8), record { buffer = f; crp = c + len })
unfolding unix_user
unix_user-some bp_addr len n c f e fits =
    let near : (c + 4 * n + 8) % 2 ^ 32 ≡ c + 4 * n + 8 = omega arith in
    let next : (c + 4 * n + 12) % 2 ^ 32 ≡ c + 4 * n + 12 = omega arith in
    rw
      (
        read_word-some f (c + 4) (omega arith),
        e,
        admits_all bp_addr f (c + 8) (omega arith),
        near,
        next,
        read_word-some f (c + 4 * n + 8) (omega arith),
        read_word-some f (c + 4 * n + 12) (omega arith),
      )
      refl

placed :
    {f : ℕ → ℕ} {a b c d : ℕ}
    → a ≡ b
    → c ≡ d
    → Path
        (Option (ℕ × Conn))
        (some (word_at f a, record { buffer = f; crp = c }))
        (some (word_at f b, record { buffer = f; crp = d }))
placed {f = f} p q = λ i. some (word_at f (p i), record { buffer = f; crp = q i })

-- Where no machine name was given on the command line, a credential of flavour AUTH_UNIX with a
-- machine name of n bytes is skipped by its length, and the user answered is the word 4 * n bytes
-- behind the start of the name.
pub get_credentials_unix :
    (bp_addr rest : List ℕ) (len stamp n k : ℕ) (f : ℕ → ℕ)
    → IsWord len
    → IsWord n
    → Holds f k (words (auth_unix ∷ len ∷ stamp ∷ n ∷ []) ++ rest)
    → k + 4 * n + 24 ≤ transfer_size
    → get_credentials [] bp_addr (record { buffer = f; crp = k })
      ≡ some (word_at f (k + 16 + 4 * n), record { buffer = f; crp = k + 8 + len })
unfolding get_credentials
get_credentials_unix bp_addr rest len stamp n k f wl wn h fits =
    let t1 : List ℕ = words (len ∷ stamp ∷ n ∷ []) ++ rest in
    let t2 : List ℕ = words (stamp ∷ n ∷ []) ++ rest in
    let t3 : List ℕ = words (n ∷ []) ++ rest in
    let h1 : Holds f (k + 4) t1 = Holds-right (network auth_unix) t1 f k h in
    let h2 : Holds f (k + 4 + 4) t2 = Holds-right (network len) t2 f (k + 4) h1 in
    let h3 : Holds f (k + 4 + 4 + 4) t3 = Holds-right (network stamp) t3 f (k + 4 + 4) h2 in
    let at_user : k + 4 + 4 + 4 * n + 8 ≡ k + 16 + 4 * n = omega arith in
    let at_end : k + 4 + 4 + len ≡ k + 8 + len = omega arith in
    let here : word_at f (k + 4 + 4 + 4) ≡ n = word-Holds n rest f (k + 4 + 4 + 4) wn h3 in
    rw
      (
        get_uint-Holds auth_unix t1 f k (omega arith) h (omega arith),
        get_uint-Holds len t2 f (k + 4) wl h1 (omega arith),
        unix_user-some bp_addr len n (k + 4 + 4) f here (omega arith),
      )
      (placed {f = f} at_user at_end)
