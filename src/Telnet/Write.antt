-- ===== src/Telnet/Write.antt =====
-- `writewithlf` of tek/daemons/telnetd.c: output of the shell to the socket, with a line feed
-- and a NUL after each '\n'. The code of '\n' is the parameter `nl`, since UniFLEX's compiler maps it to
-- a carriage return. `accepts k` says whether the k-th call of `write` succeeds; a call that
-- fails sends nothing. `fuel` bounds the rounds, of which each takes a byte at least.
use tek.Base.{
  ℕ, zero, suc, ◌+◌, ◌-◌, ◌≡◌, ◌≤◌, ◌<◌, refl, sym, ap, ◌∙◌, Bool, true, Option, none, some, List,
  [], ◌∷◌, ◌++◌, append_assoc, append-nil, arith, ◌==◌, if◌then◌else◌, length, Bool-cases, inl, inr,
}

-- The chunks written, in order, and the value returned.
pub record Written : Type 0 where
  pub chunks : List (List ℕ)
  pub result : ℕ

-- `char linefeed[] = "\012"`, written with `sizeof(linefeed)`: the terminating NUL goes along.
abbrev pub linefeed : List ℕ
linefeed = 10 ∷ 0 ∷ []

abbrev pub flatten : List (List ℕ) → List ℕ
flatten [] = []
flatten (xs ∷ rest) = xs ++ flatten rest

flatten-append : (xs ys : List (List ℕ)) → flatten (xs ++ ys) ≡ flatten xs ++ flatten ys
flatten-append [] ys = refl
flatten-append (x ∷ xs) ys = rw (flatten-append xs ys, append_assoc x) refl

abbrev cons_line : ℕ → List ℕ × List ℕ → List ℕ × List ℕ
cons_line c (line, rest) = (c ∷ line, rest)

abbrev map_line : ℕ → Option (List ℕ × List ℕ) → Option (List ℕ × List ℕ)
map_line c none = none
map_line c (some p) = some (cons_line c p)

module _ (nl : ℕ) where
  -- `strchr(cwp, '\n')`: the text up to the first '\n' and what follows it. The search ends at a
  -- NUL, such as the one that the function puts behind the buffer.
  unfoldable pub cut_line : List ℕ → Option (List ℕ × List ℕ)
  cut_line [] = none
  cut_line (c ∷ cs) =
      let later = map_line c (cut_line cs) in
      if c == nl then some (c ∷ [], cs) else if c == 0 then none else later

  module _ (accepts : ℕ → Bool) (len : ℕ) where
    -- What is left when no '\n' was found: `if (remain > 0) ...; return len;`
    unfoldable pub finish : ℕ → List ℕ → List (List ℕ) → Written
    finish k [] chunks = record { chunks = chunks; result = len }
    finish k (c ∷ cs) chunks =
        if accepts k
        then record { chunks = chunks ++ ((c ∷ cs) ∷ []); result = len }
        else record { chunks = chunks; result = len - length (c ∷ cs) }

    -- One round of `while (remain > 0)`, with the rounds after it as `again`. `rest` is what
    -- stands at `cwp`, so `remain` is its length; `k` counts the writes made.
    unfoldable pub round :
        (ℕ → List ℕ → List (List ℕ) → Written)
        → ℕ
        → List ℕ
        → List (List ℕ)
        → Option (List ℕ × List ℕ)
        → Written
    unfolding finish
    round again k rest chunks none = finish k rest chunks
    round again k rest chunks (some (line, later)) =
        if accepts k
        then again (k + 2) later
            (chunks ++ (line ∷ (if accepts (k + 1) then linefeed ∷ [] else [])))
        else record { chunks = chunks; result = len - length rest }

    unfoldable pub write_loop : ℕ → ℕ → List ℕ → List (List ℕ) → Written
    unfolding finish cut_line round
    write_loop zero k rest chunks = finish k rest chunks
    write_loop (suc fuel) k rest chunks = round (write_loop fuel) k rest chunks (cut_line rest)

  -- `int writewithlf(socket, buffer, len)`, on the `len` bytes of the buffer.
  unfoldable pub writewithlf : (ℕ → Bool) → List ℕ → Written
  unfolding write_loop
  writewithlf accepts buffer = write_loop accepts (length buffer) (length buffer) 0 buffer []

  -- The buffer with `linefeed`, a line feed and a NUL, after each '\n' before the first NUL.
  abbrev pub with_lf : List ℕ → List ℕ
  with_lf [] = []
  with_lf (c ∷ cs) =
      let later = with_lf cs in
      if c == nl then c ∷ (linefeed ++ later) else if c == 0 then c ∷ cs else c ∷ later

  abbrev CutIs : List ℕ → Option (List ℕ × List ℕ) → Type 0
  CutIs buffer none = with_lf buffer ≡ buffer
  CutIs buffer (some (line, rest)) =
      (with_lf buffer ≡ line ++ (linefeed ++ with_lf rest)) × (length rest < length buffer)

  cut_cons :
      (c : ℕ) (cs : List ℕ) (o : Option (List ℕ × List ℕ))
      → CutIs cs o
      → CutIs
          (c ∷ cs)
          (if c == nl then some (c ∷ [], cs) else if c == 0 then none else map_line c o)
  cut_cons c cs none h = elim (Bool-cases (c == nl)) [
    | inl e ↦ rw e (rw (e, with_lf) refl, omega arith)
    | inr e ↦ elim (Bool-cases (c == 0)) [
      | inl z ↦ rw (e, z) (rw (e, z, with_lf) refl)
      | inr z ↦ rw (e, z) (rw (e, z, h, with_lf) refl)
    ]
  ]
  cut_cons c cs (some (line, rest)) h = elim (Bool-cases (c == nl)) [
    | inl e ↦ rw e (rw (e, with_lf) refl, omega arith)
    | inr e ↦ elim (Bool-cases (c == 0)) [
      | inl z ↦ rw (e, z) (rw (e, z, with_lf) refl)
      | inr z ↦ rw (e, z) (rw (e, z, h.0, with_lf) refl, omega arith)
    ]
  ]

  cut_line-CutIs : (buffer : List ℕ) → CutIs buffer (cut_line buffer)
  unfolding cut_line
  cut_line-CutIs [] = refl
  cut_line-CutIs (c ∷ cs) = cut_cons c cs (cut_line cs) (cut_line-CutIs cs)

  abbrev AllAccepted : (ℕ → Bool) → Type 0
  AllAccepted accepts = (k : ℕ) → accepts k ≡ true

  -- What is written in the end, given that every write succeeds.
  abbrev Delivers : List (List ℕ) → List ℕ → ℕ → Written → Type 0
  Delivers chunks rest len w =
      (flatten w.chunks ≡ flatten chunks ++ with_lf rest) × (w.result ≡ len)

  finish-Delivers :
      (accepts : ℕ → Bool) (len k : ℕ) (rest : List ℕ) (chunks : List (List ℕ))
      → AllAccepted accepts
      → with_lf rest ≡ rest
      → Delivers chunks rest len (finish accepts len k rest chunks)
  unfolding finish
  finish-Delivers accepts len k [] chunks all h = (sym (append-nil (flatten chunks)), refl)
  finish-Delivers accepts len k (c ∷ cs) chunks all h =
      rw (all k) (flatten-append chunks ((c ∷ cs) ∷ []) ∙ rw (append-nil, h) refl, refl)

  round-Delivers :
      (accepts : ℕ → Bool) (len fuel k : ℕ) (again : ℕ → List ℕ → List (List ℕ) → Written)
      (rest : List ℕ) (chunks : List (List ℕ)) (o : Option (List ℕ × List ℕ))
      → AllAccepted accepts
      → length rest ≤ suc fuel
      → CutIs rest o
      → ((k : ℕ) (rest : List ℕ) (chunks : List (List ℕ))
          → length rest ≤ fuel
          → Delivers chunks rest len (again k rest chunks))
      → Delivers chunks rest len (round accepts len again k rest chunks o)
  unfolding round
  round-Delivers accepts len fuel k again rest chunks none all h c ih =
      finish-Delivers accepts len k rest chunks all c
  round-Delivers accepts len fuel k again rest chunks (some (line, later)) all h (cut, less) ih =
      let (bytes, result) = ih (k + 2) later (chunks ++ (line ∷ linefeed ∷ [])) (omega arith) in
      rw (all k, all (k + 1))
        (
          bytes
              ∙ ap (λ t. t ++ with_lf later) (flatten-append chunks (line ∷ linefeed ∷ []))
              ∙ append_assoc (flatten chunks) (line ++ (linefeed ++ [])) (with_lf later)
              ∙ ap (λ t. flatten chunks ++ t)
                  (append_assoc line linefeed (with_lf later) ∙ sym cut),
          result,
        )

  write_loop-Delivers :
      (accepts : ℕ → Bool) (len fuel k : ℕ) (rest : List ℕ) (chunks : List (List ℕ))
      → AllAccepted accepts
      → length rest ≤ fuel
      → Delivers chunks rest len (write_loop accepts len fuel k rest chunks)
  unfolding write_loop
  write_loop-Delivers accepts len zero k [] chunks all h =
      finish-Delivers accepts len k [] chunks all refl
  write_loop-Delivers accepts len zero k (c ∷ cs) chunks all h = absurd (omega arith)
  write_loop-Delivers accepts len (suc fuel) k rest chunks all h =
      round-Delivers accepts len fuel k (write_loop accepts len fuel) rest chunks (cut_line rest)
        all h (cut_line-CutIs rest)
        λ k rest chunks h. write_loop-Delivers accepts len fuel k rest chunks all h

  -- Where every write succeeds, the bytes sent are the buffer's with two bytes put in after each
  -- '\n' (the code `nl`), a line feed (10) and a NUL (0), up to the first NUL of the buffer, and unchanged from there; the
  -- length of the buffer is returned.
  pub writewithlf_all :
      (accepts : ℕ → Bool) (buffer : List ℕ)
      → AllAccepted accepts
      → (flatten (writewithlf accepts buffer).chunks ≡ with_lf buffer)
        × ((writewithlf accepts buffer).result ≡ length buffer)
  unfolding writewithlf
  writewithlf_all accepts buffer all =
      write_loop-Delivers accepts (length buffer) (length buffer) 0 buffer [] all (omega arith)
