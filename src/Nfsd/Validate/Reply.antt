-- ===== src/Nfsd/Validate/Reply.antt =====
-- What the caller learns from the answer of `validate` of tek/daemons/nfsd.c to a bad header.
use tek.Base.{
  ℕ, ◌*◌, ◌≡◌, ◌≢◌, refl, ap, ◌∙◌, true, false, Option, none, some, List, [], ◌∷◌, ◌++◌, ◌==◌,
  if◌then◌else◌, length, All, arith,
}
use tek.Nfsd.Message.{Response, Conn, store}
use tek.Nfsd.Message.Bytes.{IsWord, Holds, words, store-Holds}
use tek.Nfsd.Validate.{validate, verdict, outcome, validate_header}

-- The kinds of reply of RFC 1057, and what is none of them.
pub data Reply : Type 0 where
  success : Reply
  no_program : Reply
  other_versions : ℕ → ℕ → Reply
  no_procedure : Reply
  garbage_arguments : Reply
  other_rpc_versions : ℕ → ℕ → Reply
  unauthentic : ℕ → Reply
  unreadable : Reply

abbrev read_range : (ℕ → ℕ → Reply) → List ℕ → Reply
read_range make (low ∷ (high ∷ [])) = make low high
read_range make _ = unreadable

-- `accept_stat` and what follows it.
abbrev read_accepted : List ℕ → Reply
read_accepted [] = unreadable
read_accepted (stat ∷ ws) =
    if stat == 0
    then success
    else if stat == 1
    then no_program
    else if stat == 2
    then read_range other_versions ws
    else if stat == 3
    then no_procedure
    else if stat == 4
    then garbage_arguments
    else unreadable

-- A verifier without a body, and behind it the rest of an accepted reply.
abbrev read_verifier : List ℕ → Reply
read_verifier (flavor ∷ (size ∷ ws)) = if size == 0 then read_accepted ws else unreadable
read_verifier _ = unreadable

-- `reject_stat` and what follows it.
abbrev read_denied : List ℕ → Reply
read_denied (stat ∷ ws) =
    if stat == 0
    then read_range other_rpc_versions ws
    else if stat == 1
    then elim ws [ [] ↦ unreadable | w ∷ _ ↦ unauthentic w ]
    else unreadable
read_denied [] = unreadable

-- The words of a reply: the number of the call, and what it says of it.
abbrev pub read_reply : List ℕ → Option (ℕ × Reply)
read_reply (xid ∷ (kind ∷ (stat ∷ ws))) = some (
  xid,
  if kind == 1
      then if stat == 0 then read_verifier ws else if stat == 1 then read_denied ws else unreadable
      else unreadable,
)
read_reply _ = none

pub data Fault : Type 0 where
  no_call : Fault
  rpc_version : Fault
  program : Fault

abbrev pub Has : Fault → ℕ → ℕ → ℕ → ℕ → Type 0
Has no_call msg_type rpcvers prog prognum = msg_type ≢ 0
Has rpc_version msg_type rpcvers prog prognum = (msg_type ≡ 0) × (rpcvers ≢ 2)
Has program msg_type rpcvers prog prognum = (msg_type ≡ 0) × (rpcvers ≡ 2) × (prog ≢ prognum)

-- What the caller is told of a fault.
abbrev pub told : Fault → ℕ → Reply
told no_call prognum = garbage_arguments
told rpc_version prognum = unreadable
told program prognum = other_versions prognum prognum

verdict-told :
    (stack : ℕ → ℕ) (fault : Fault) (xid msg_type rpcvers prog prognum : ℕ)
    → Has fault msg_type rpcvers prog prognum
    → (ws : List ℕ) × (verdict stack xid msg_type rpcvers prog prognum ≡ some ws)
      × (read_reply ws ≡ some (xid, told fault prognum))
verdict-told stack no_call xid msg_type rpcvers prog prognum h =
    let a : (msg_type == 0) ≡ false = ground (arith, h) in
    (xid ∷ 1 ∷ 0 ∷ 0 ∷ 0 ∷ 4 ∷ [], rw a refl, refl)
verdict-told stack rpc_version xid msg_type rpcvers prog prognum (z, h) =
    let a : (msg_type == 0) ≡ true = ground (arith, z) in
    let b : (rpcvers == 2) ≡ false = ground (arith, h) in
    (xid ∷ 1 ∷ 1 ∷ 2 ∷ 2 ∷ 2 ∷ [], rw (a, b) refl, refl)
verdict-told stack program xid msg_type rpcvers prog prognum (z, y, h) =
    let a : (msg_type == 0) ≡ true = ground (arith, z) in
    let b : (rpcvers == 2) ≡ true = ground (arith, y) in
    let c : (prog == prognum) ≡ false = ground (arith, h) in
    (xid ∷ 1 ∷ 0 ∷ 0 ∷ 0 ∷ 2 ∷ prognum ∷ prognum ∷ [], rw (a, b, c) refl, refl)

module _ (stack : ℕ → ℕ) where
  -- A request whose header is not that of a call of RPC version 2 to the program is answered with 0, is
  -- left where it is, and a reply is sent, which a caller reads by RFC 1057. It names the number of the
  -- call, and says that the arguments are garbage if the message is no call; it is not one of the
  -- replies of RFC 1057 if the RPC version is not 2; and otherwise, for another program, it says that
  -- the versions of the program go from the program's own number to that number.
  pub validate-read_reply :
      (fault : Fault) (xid msg_type rpcvers prog vers proc prognum : ℕ) (rest : List ℕ)
      (request : Conn)
      → Has fault msg_type rpcvers prog prognum
      → All IsWord (xid ∷ msg_type ∷ rpcvers ∷ prog ∷ vers ∷ proc ∷ [])
      → Holds request.buffer 0 (words (xid ∷ msg_type ∷ rpcvers ∷ prog ∷ vers ∷ proc ∷ []) ++ rest)
      → (reply : Response) × (ws : List ℕ) × (validate stack prognum request
          ≡ some (record { answer = 0; request = request; sent = some reply }))
        × Holds reply.buffer 0 (words ws)
        × (reply.cwp ≡ 4 * length ws)
        × (read_reply ws ≡ some (xid, told fault prognum))
  validate-read_reply fault xid msg_type rpcvers prog vers proc prognum rest request has ok h =
      let (ws, found, says) = verdict-told stack fault xid msg_type rpcvers prog prognum has in
      (
        record { buffer = store stack 0 (words ws); cwp = 4 * length ws },
        ws,
        validate_header stack xid msg_type rpcvers prog vers proc prognum rest request ok h
            ∙ ap (λ o. some (outcome stack vers request o)) found,
        store-Holds (words ws) stack 0,
        refl,
        says,
      )
