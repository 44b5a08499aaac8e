-- ===== src/Nfsd/Programs/Getport.antt =====
-- The answer of the portmapper of tek/daemons/nfsd.c to a caller that asks for a port.
use tek.Base.{
  ℕ, ◌+◌, ◌*◌, ◌≤◌, ◌≡◌, ◌≢◌, ◌⊎◌, refl, ap, ◌∙◌, false, Option, none, some, List, [], ◌∷◌, ◌++◌,
  All, length, ◌==◌, Bool-cases, inl, inr, arith,
}
use mathlib.Core.Path.{subst}
use tek.Nfsd.Message.{Response, transfer_size, store, network, add_uints, get_verifier}
use tek.Nfsd.Message.Bytes.{Holds, Holds-right, IsWord, store-Holds, words}
use tek.Nfsd.Message.RoundTrip.{add_uints-some, get_uint-Holds}
use tek.Nfsd.Validate.{rpcheader-Holds}
use tek.Nfsd.Credentials.{get_credentials}
use tek.Nfsd.Programs.{registered_port, port_words, answered, getport, portmapperprog}

reply_of :
    (ws : List ℕ) (f : ℕ → ℕ)
    → 4 * length ws ≤ transfer_size
    → (reply : Response) × (add_uints ws (record { buffer = f; cwp = 0 }) ≡ some reply)
      × Holds reply.buffer 0 (words ws)
      × (reply.cwp ≡ 4 * length ws)
reply_of ws f fits = (
  record { buffer = store f 0 (words ws); cwp = 0 + 4 * length ws },
  add_uints-some ws f 0 (omega (arith, fits)),
  store-Holds (words ws) f 0,
  omega arith,
)

length-port_words : (xid port : ℕ) → length (port_words xid port) ≤ 7
unfolding port_words
length-port_words xid port = elim (Bool-cases (port == 0)) [
  | inl e ↦ rw e (omega arith)
  | inr e ↦ rw e (omega arith)
]

-- Which port is known for a program, a version and a protocol, by the numbers.
abbrev pub Listens : Option ℕ → ℕ → ℕ → ℕ → Type 0
Listens (some port) prog vers prot =
    (prot ≡ 17)
    × (((prog ≡ 100003) × (port ≡ 2049))
        ⊎ (((prog ≡ 100005) × (port ≡ 6135))
            ⊎ (((prog ≡ 100026) × (port ≡ 2050))
                ⊎ ((prog ≡ 100024) × (vers ≡ 4) × (port ≡ 41045)))))
Listens none prog vers prot =
    (prot ≢ 17)
    ⊎ ((prog ≢ 100003) × (prog ≢ 100005) × (prog ≢ 100026) × ((prog ≢ 100024) ⊎ (vers ≢ 4)))

-- The words of a reply that names a port, and of one that refuses.
abbrev pub reply_words : ℕ → Option ℕ → List ℕ
reply_words xid none = xid ∷ 1 ∷ 0 ∷ 0 ∷ 0 ∷ 1 ∷ []
reply_words xid (some port) = xid ∷ 1 ∷ 0 ∷ 0 ∷ 0 ∷ 0 ∷ port ∷ []

abbrev port_or_0 : Option ℕ → ℕ
port_or_0 none = 0
port_or_0 (some port) = port

registered_port-Listens :
    (answer : Option ℕ) (prog vers prot : ℕ)
    → Listens answer prog vers prot
    → registered_port prog vers prot ≡ port_or_0 answer
unfolding registered_port
registered_port-Listens none prog vers prot (inl p) = ground (arith, p)
registered_port-Listens none prog vers prot (inr (a, b, c, inl d)) = ground (arith, a, b, c, d)
registered_port-Listens none prog vers prot (inr (a, b, c, inr d)) = ground (arith, a, b, c, d)
registered_port-Listens (some port) prog vers prot (p, inl h) = ground (arith, p, h.0, h.1)
registered_port-Listens (some port) prog vers prot (p, inr (inl h)) = ground (arith, p, h.0, h.1)
registered_port-Listens (some port) prog vers prot (p, inr (inr (inl h))) =
    ground (arith, p, h.0, h.1)
registered_port-Listens (some port) prog vers prot (p, inr (inr (inr h))) =
    ground (arith, p, h.0, h.1, h.2)

port-pos : (port prog vers prot : ℕ) → Listens (some port) prog vers prot → (port == 0) ≡ false
port-pos port prog vers prot (p, inl h) = ground (arith, h.1)
port-pos port prog vers prot (p, inr (inl h)) = ground (arith, h.1)
port-pos port prog vers prot (p, inr (inr (inl h))) = ground (arith, h.1)
port-pos port prog vers prot (p, inr (inr (inr h))) = ground (arith, h.2)

port_words-Listens :
    (answer : Option ℕ) (xid prog vers prot : ℕ)
    → Listens answer prog vers prot
    → port_words xid (registered_port prog vers prot) ≡ reply_words xid answer
unfolding port_words
port_words-Listens none xid prog vers prot h =
    rw (registered_port-Listens none prog vers prot h) refl
port_words-Listens (some port) xid prog vers prot h =
    rw (registered_port-Listens (some port) prog vers prot h, port-pos port prog vers prot h) refl

module _ (bp_machinename bp_addr : List ℕ) (stack : ℕ → ℕ) where
  getport-words :
      (xid prog vers prot port k : ℕ) (rest : List ℕ) (f : ℕ → ℕ)
      → All IsWord (prog ∷ vers ∷ prot ∷ port ∷ [])
      → Holds f k (words (prog ∷ vers ∷ prot ∷ port ∷ []) ++ rest)
      → k + 16 ≤ transfer_size
      → (reply : Response) × (getport bp_machinename bp_addr stack xid
            (record { buffer = f; crp = k })
          ≡ some (answered reply))
        × Holds reply.buffer 0 (words (port_words xid (registered_port prog vers prot)))
        × (reply.cwp ≡ 4 * length (port_words xid (registered_port prog vers prot)))
  unfolding getport
  getport-words xid prog vers prot port k rest f w h fits =
      let t1 : List ℕ = words (vers ∷ prot ∷ port ∷ []) ++ rest in
      let t2 : List ℕ = words (prot ∷ port ∷ []) ++ rest in
      let t3 : List ℕ = words (port ∷ []) ++ rest in
      let h1 : Holds f (k + 4) t1 = Holds-right (network prog) t1 f k h in
      let h2 : Holds f (k + 4 + 4) t2 = Holds-right (network vers) t2 f (k + 4) h1 in
      let h3 : Holds f (k + 4 + 4 + 4) t3 = Holds-right (network prot) t3 f (k + 4 + 4) h2 in
      let answer = port_words xid (registered_port prog vers prot) in
      let (reply, written, held, end) =
        reply_of answer stack
          (omega (arith, length-port_words xid (registered_port prog vers prot))) in
      (
        reply,
        rw
            (
              get_uint-Holds prog t1 f k w.0 h (omega (arith, fits)),
              get_uint-Holds vers t2 f (k + 4) w.1.0 h1 (omega (arith, fits)),
              get_uint-Holds prot t3 f (k + 4 + 4) w.1.1.0 h2 (omega (arith, fits)),
              get_uint-Holds port rest f (k + 4 + 4 + 4) w.1.1.1.0 h3 (omega (arith, fits)),
              written,
            )
            refl,
        held,
        end,
      )

  null_auth :
      (rest : List ℕ) (k : ℕ) (f : ℕ → ℕ)
      → Holds f k (words (0 ∷ 0 ∷ []) ++ rest)
      → k + 8 ≤ transfer_size
      → (get_credentials bp_machinename bp_addr (record { buffer = f; crp = k })
          ≡ some (0, record { buffer = f; crp = k + 8 }))
        × (get_verifier (record { buffer = f; crp = k })
            ≡ some (record { buffer = f; crp = k + 8 }))
  unfolding get_credentials get_verifier
  null_auth rest k f h fits =
      let t1 : List ℕ = words (0 ∷ []) ++ rest in
      let h1 : Holds f (k + 4) t1 = Holds-right (network 0) t1 f k h in
      let end : k + 4 + 4 + 0 ≡ k + 8 = omega arith in
      let first = get_uint-Holds 0 t1 f k (omega arith) h (omega (arith, fits)) in
      let second = get_uint-Holds 0 rest f (k + 4) (omega arith) h1 (omega (arith, fits)) in
      (rw (first, second, end) refl, rw (first, second, end) refl)

  -- A call of procedure 3 without credentials and verifier, in a message whose header is that of a call
  -- of RPC version 2 to the portmapper, is answered with the number of the call. By UDP (17) the ports
  -- are 2049 for program 100003, 6135 for 100005, 2050 for 100026 and 41045 for version 4 of 100024:
  -- there the words 1, 0, 0, 0, 0 and the port follow the number, and for every other program,
  -- version or protocol 1, 0, 0, 0 and 1 (PROG_UNAVAIL), and no port.
  pub portmapperprog-getport :
      (answer : Option ℕ) (xid pvers prog vers prot port len : ℕ) (rest : List ℕ) (f : ℕ → ℕ)
      → Listens answer prog vers prot
      → IsWord xid
      → IsWord pvers
      → All IsWord (prog ∷ vers ∷ prot ∷ port ∷ [])
      → Holds f 0 (
          words (xid ∷ 0 ∷ 2 ∷ 100000 ∷ pvers ∷ 3 ∷ [])
          ++ (words (0 ∷ 0 ∷ [])
              ++ (words (0 ∷ 0 ∷ []) ++ (words (prog ∷ vers ∷ prot ∷ port ∷ []) ++ rest))))
      → (reply : Response) × (portmapperprog bp_machinename bp_addr stack len
            (record { buffer = f; crp = 24 })
          ≡ some (answered reply))
        × Holds reply.buffer 0 (words (reply_words xid answer))
        × (reply.cwp ≡ 4 * length (reply_words xid answer))
  unfolding portmapperprog
  portmapperprog-getport answer xid pvers prog vers prot port len rest f listens wx wp w h =
      let args : List ℕ = words (prog ∷ vers ∷ prot ∷ port ∷ []) ++ rest in
      let t2 : List ℕ = words (0 ∷ 0 ∷ []) ++ args in
      let t1 : List ℕ = words (0 ∷ 0 ∷ []) ++ t2 in
      let head : List ℕ = xid ∷ 0 ∷ 2 ∷ 100000 ∷ pvers ∷ 3 ∷ [] in
      let h1 : Holds f 24 t1 = Holds-right (words head) t1 f 0 h in
      let h2 : Holds f 32 t2 = Holds-right (words (0 ∷ 0 ∷ [])) t2 f 24 h1 in
      let h3 : Holds f 40 args = Holds-right (words (0 ∷ 0 ∷ [])) args f 32 h2 in
      let small : All IsWord head =
        (wx, (omega arith, (omega arith, (omega arith, (wp, (omega arith, tt)))))) in
      let header = rpcheader-Holds stack xid 0 2 100000 pvers 3 t1 f small h in
      let same = port_words-Listens answer xid prog vers prot listens in
      let (reply, got, held, end) =
        getport-words xid prog vers prot port 40 rest f w h3 (omega arith) in
      (
        reply,
        rw
            (
              (null_auth t2 24 f h1 (omega arith)).0,
              (null_auth args 32 f h2 (omega arith)).1,
              header,
            )
            got,
        subst (λ ws. Holds reply.buffer 0 (words ws)) same held,
        end ∙ ap (λ ws. 4 * length ws) same,
      )
