-- ===== src/Nfsd/Validate.antt =====
-- `validate` of tek/daemons/nfsd.c: the header of an RPC call is answered at once where it is not
-- for the service, and skipped where it is. The words of the header are read where they stand;
-- `stack` is what the reply buffer held before.
use tek.Base.{
  ℕ, ◌+◌, ◌*◌, ◌≤◌, ◌≡◌, Bool-cases, inl, inr, refl, ap, Option, none, some, List, [], ◌∷◌, ◌++◌,
  ◌==◌, if◌then◌else◌, length, ◌>>=◌, All, arith,
}
use tek.Nfsd.Message.{Response, Conn, store, network, word_at, add_uints}
use tek.Nfsd.Message.Bytes.{IsWord, Holds, words, word-Holds, Holds-right}
use tek.Nfsd.Message.RoundTrip.{add_uints-some}
pub mod Reply

-- `struct rpcheader`, with `ntohl` on each field.
pub record RpcHeader : Type 0 where
  pub xid : ℕ
  pub msg_type : ℕ
  pub rpcvers : ℕ
  pub prog : ℕ
  pub vers : ℕ
  pub proc : ℕ

unfoldable pub rpcheader : (ℕ → ℕ) → RpcHeader
rpcheader f = record {
  xid = word_at f 0;
  msg_type = word_at f 4;
  rpcvers = word_at f 8;
  prog = word_at f 12;
  vers = word_at f 16;
  proc = word_at f 20;
}

abbrev call : ℕ
call = 0

abbrev reply_code : ℕ
reply_code = 1

abbrev msg_accepted : ℕ
msg_accepted = 0

abbrev msg_denied : ℕ
msg_denied = 1

abbrev prog_mismatch : ℕ
prog_mismatch = 2

abbrev garbage_args : ℕ
garbage_args = 4

-- What `validate` returns, the request behind it, and the reply that it sends.
pub record Validated : Type 0 where
  pub answer : ℕ
  pub request : Conn
  pub sent : Option Response

module _ (stack : ℕ → ℕ) where
  unfoldable pub refuse : Conn → List ℕ → Option Validated
  refuse request ws = do
    reply ← add_uints ws (record { buffer = stack; cwp = 0 })
    some (record { answer = 0; request = request; sent = some reply })

  unfoldable pub validate : ℕ → Conn → Option Validated
  unfolding refuse
  validate prognum request =
      let header = rpcheader request.buffer in
      if header.msg_type == call
      then if header.rpcvers == 2
        then if header.prog == prognum
          then some (record {
            answer = header.vers;
            request = record request { crp = request.crp + 24 };
            sent = none;
          })
          else refuse request (
              header.xid ∷ reply_code ∷ msg_accepted ∷ 0 ∷ 0 ∷ prog_mismatch ∷ prognum ∷ prognum
              ∷ [])
        else refuse request (header.xid ∷ reply_code ∷ msg_denied ∷ prog_mismatch ∷ 2 ∷ 2 ∷ [])
      else refuse request (header.xid ∷ reply_code ∷ msg_accepted ∷ 0 ∷ 0 ∷ garbage_args ∷ [])

  -- The words of a header that stands at the start of a request.
  pub rpcheader-Holds :
      (xid msg_type rpcvers prog vers proc : ℕ) (rest : List ℕ) (f : ℕ → ℕ)
      → All IsWord (xid ∷ msg_type ∷ rpcvers ∷ prog ∷ vers ∷ proc ∷ [])
      → Holds f 0 (words (xid ∷ msg_type ∷ rpcvers ∷ prog ∷ vers ∷ proc ∷ []) ++ rest)
      → rpcheader f ≡ record {
        xid = xid;
        msg_type = msg_type;
        rpcvers = rpcvers;
        prog = prog;
        vers = vers;
        proc = proc;
      }
  unfolding rpcheader
  rpcheader-Holds xid msg_type rpcvers prog vers proc rest f (a, (b, (c, (d, (e, (g, _)))))) h =
      let t1 : List ℕ = words (msg_type ∷ rpcvers ∷ prog ∷ vers ∷ proc ∷ []) ++ rest in
      let t2 : List ℕ = words (rpcvers ∷ prog ∷ vers ∷ proc ∷ []) ++ rest in
      let t3 : List ℕ = words (prog ∷ vers ∷ proc ∷ []) ++ rest in
      let t4 : List ℕ = words (vers ∷ proc ∷ []) ++ rest in
      let t5 : List ℕ = words (proc ∷ []) ++ rest in
      let t6 : List ℕ = words ([]) ++ rest in
      let h1 : Holds f 4 (network msg_type ++ t2) = Holds-right (network xid) t1 f 0 h in
      let h2 : Holds f 8 (network rpcvers ++ t3) = Holds-right (network msg_type) t2 f 4 h1 in
      let h3 : Holds f 12 (network prog ++ t4) = Holds-right (network rpcvers) t3 f 8 h2 in
      let h4 : Holds f 16 (network vers ++ t5) = Holds-right (network prog) t4 f 12 h3 in
      let h5 : Holds f 20 (network proc ++ t6) = Holds-right (network vers) t5 f 16 h4 in
      rw
        (
          word-Holds xid t1 f 0 a h,
          word-Holds msg_type t2 f 4 b h1,
          word-Holds rpcvers t3 f 8 c h2,
          word-Holds prog t4 f 12 d h3,
          word-Holds vers t5 f 16 e h4,
          word-Holds proc t6 f 20 g h5,
        )
        refl

  -- The words of the reply that a header calls for, if any.
  abbrev pub verdict : ℕ → ℕ → ℕ → ℕ → ℕ → Option (List ℕ)
  verdict xid msg_type rpcvers prog prognum =
      if msg_type == 0
      then if rpcvers == 2
        then if prog == prognum
          then none
          else some (xid ∷ 1 ∷ 0 ∷ 0 ∷ 0 ∷ 2 ∷ prognum ∷ prognum ∷ [])
        else some (xid ∷ 1 ∷ 1 ∷ 2 ∷ 2 ∷ 2 ∷ [])
      else some (xid ∷ 1 ∷ 0 ∷ 0 ∷ 0 ∷ 4 ∷ [])

  abbrev pub outcome : ℕ → Conn → Option (List ℕ) → Validated
  outcome vers request none = record {
    answer = vers;
    request = record request { crp = request.crp + 24 };
    sent = none;
  }
  outcome vers request (some ws) = record {
    answer = 0;
    request = request;
    sent = some (record { buffer = store stack 0 (words ws); cwp = 4 * length ws });
  }

  refused :
      (ws : List ℕ) (request : Conn)
      → length ws ≤ 8
      → refuse request ws ≡ some (outcome 0 request (some ws))
  unfolding refuse
  refused ws request h = rw (add_uints-some ws stack 0 (omega arith)) (
      ap
        (λ t. some (record {
          answer = 0;
          request = request;
          sent = some (record { buffer = store stack 0 (words ws); cwp = t });
        }))
        (omega arith))

  -- A request whose buffer begins with the six words of an RPC header is answered by its version and
  -- skipped to the credentials if it is a call of RPC version 2 to the program, and otherwise
  -- answered by 0 with the words of `verdict`, in network byte order.
  pub validate_header :
      (xid msg_type rpcvers prog vers proc prognum : ℕ) (rest : List ℕ) (request : Conn)
      → All IsWord (xid ∷ msg_type ∷ rpcvers ∷ prog ∷ vers ∷ proc ∷ [])
      → Holds request.buffer 0 (words (xid ∷ msg_type ∷ rpcvers ∷ prog ∷ vers ∷ proc ∷ []) ++ rest)
      → validate prognum request
        ≡ some (outcome vers request (verdict xid msg_type rpcvers prog prognum))
  unfolding validate
  validate_header xid msg_type rpcvers prog vers proc prognum rest request ok h =
      rw (rpcheader-Holds xid msg_type rpcvers prog vers proc rest request.buffer ok h)
        (elim (Bool-cases (msg_type == 0)) [
          | inr e ↦ rw (e, refused (xid ∷ 1 ∷ 0 ∷ 0 ∷ 0 ∷ 4 ∷ []) request (omega arith)) refl
          | inl e ↦ rw e (elim (Bool-cases (rpcvers == 2)) [
            | inr e' ↦ rw (e', refused (xid ∷ 1 ∷ 1 ∷ 2 ∷ 2 ∷ 2 ∷ []) request (omega arith)) refl
            | inl e' ↦ rw e' (elim (Bool-cases (prog == prognum)) [
              | inr e'' ↦
                  rw
                    (
                      e'',
                      refused (xid ∷ 1 ∷ 0 ∷ 0 ∷ 0 ∷ 2 ∷ prognum ∷ prognum ∷ []) request
                          (omega arith),
                    )
                    refl
              | inl e'' ↦ rw e'' refl
            ])
          ])
        ])
