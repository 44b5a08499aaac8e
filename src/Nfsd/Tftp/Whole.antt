-- ===== src/Nfsd/Tftp/Whole.antt =====
-- The packets of a transfer by tftp of tek/daemons/nfsd.c, taken together.
use tek.Base.{
  ℕ, zero, suc, ◌+◌, ◌*◌, ◌/◌, ◌≤◌, ◌≡◌, refl, ap, ◌∙◌, true, some, List, [], ◌∷◌, ◌++◌,
  append_assoc, append-nil, take, drop, take-append-drop, length-take, length-drop, length, All,
  Bool-cases, inl, inr, arith,
}
use tek.Nfsd.Tftp.{Received, block_size, tftp_rrq, data_packet, acknowledges, send_blocks, tftp}

-- The contents of the packets, one behind the other.
abbrev pub payloads : List (List ℕ) → List ℕ
payloads [] = []
payloads (p ∷ ps) = drop 4 p ++ payloads ps

payload : (n : ℕ) (xs : List ℕ) → drop 4 (data_packet n xs) ≡ xs
unfolding data_packet
payload n xs = refl

-- All blocks from a number on are acknowledged.
abbrev pub Acknowledged : ℕ → ℕ → (ℕ → Received) → Type 0
Acknowledged blocknum zero peer = Unit
Acknowledged blocknum (suc n) peer =
    (acknowledges blocknum (peer blocknum) ≡ true) × Acknowledged (blocknum + 1) n peer

abbrev pub blocks : ℕ → ℕ
blocks n = (n + 511) / block_size

send_blocks-whole :
    (rounds blocknum n : ℕ) (content : List ℕ) (peer : ℕ → Received)
    → length content ≤ rounds
    → blocks (length content) ≡ n
    → Acknowledged blocknum n peer
    → (payloads (send_blocks rounds blocknum content peer) ≡ content)
      × (length (send_blocks rounds blocknum content peer) ≡ n)
unfolding send_blocks
send_blocks-whole zero b n [] peer enough count acks = (refl, omega (arith, count))
send_blocks-whole zero b n (c ∷ cs) peer enough count acks = absurd (omega (arith, enough))
send_blocks-whole (suc rounds) b n [] peer enough count acks = (refl, omega (arith, count))
send_blocks-whole (suc rounds) b zero (c ∷ cs) peer enough count acks =
    absurd (omega (arith, count))
send_blocks-whole (suc rounds) b (suc n) (c ∷ cs) peer enough count acks =
    let xs : List ℕ = c ∷ cs in
    let less = length-drop block_size xs in
    let (rest, more) =
      send_blocks-whole rounds (b + 1) n (drop block_size xs) peer (omega (arith, less, enough))
        (omega (arith, less, count)) acks.1 in
    (rw (acks.0, rest) (take-append-drop block_size xs), rw acks.0 (ap suc more))

pub send_blocks-prefix :
    (rounds blocknum : ℕ) (content : List ℕ) (peer : ℕ → Received)
    → (rest : List ℕ) × (payloads (send_blocks rounds blocknum content peer) ++ rest ≡ content)
unfolding send_blocks
send_blocks-prefix zero b content peer = (content, refl)
send_blocks-prefix (suc rounds) b [] peer = ([], refl)
send_blocks-prefix (suc rounds) b (c ∷ cs) peer =
    let xs : List ℕ = c ∷ cs in
    let front : List ℕ = take block_size xs in
    let later = send_blocks rounds (b + 1) (drop block_size xs) peer in
    let (r, made) = send_blocks-prefix rounds (b + 1) (drop block_size xs) peer in
    elim (Bool-cases (acknowledges b (peer b))) [
      | inl e ↦
          let whole : (front ++ payloads later) ++ r ≡ xs =
            append_assoc front (payloads later) r
            ∙ (ap (λ t. front ++ t) made ∙ take-append-drop block_size xs) in
          (r, rw e whole)
      | inr e ↦
          let whole : (front ++ []) ++ drop block_size xs ≡ xs =
            ap (λ t. t ++ drop block_size xs) (append-nil front) ∙ take-append-drop block_size xs in
          (drop block_size xs, rw e whole)
    ]

-- A request to read a file whose blocks the peer acknowledges, one after the other, is answered with
-- the whole file, in as many packets as it has blocks of 512 bytes, the last one counted in part.
pub tftp-whole :
    (content : List ℕ) (peer : ℕ → Received)
    → Acknowledged 1 (blocks (length content)) peer
    → (payloads (tftp tftp_rrq (some content) peer) ≡ content)
      × (length (tftp tftp_rrq (some content) peer) ≡ blocks (length content))
unfolding tftp
tftp-whole content peer acks =
    send_blocks-whole (length content) 1 (blocks (length content)) content peer (omega arith) refl
      acks

full_packet :
    (b : ℕ) (xs : List ℕ)
    → block_size ≤ length xs
    → length (data_packet b (take block_size xs)) ≡ 516
unfolding data_packet
full_packet b xs long = let len = length-take block_size xs in omega (arith, len, long)

send_blocks-full :
    (rounds blocknum n : ℕ) (content : List ℕ) (peer : ℕ → Received)
    → length content ≡ 512 * n
    → All (λ p. length p ≡ 516) (send_blocks rounds blocknum content peer)
unfolding send_blocks
send_blocks-full zero b n content peer even = tt
send_blocks-full (suc rounds) b n [] peer even = tt
send_blocks-full (suc rounds) b zero (c ∷ cs) peer even = absurd (omega (arith, even))
send_blocks-full (suc rounds) b (suc n) (c ∷ cs) peer even =
    let xs : List ℕ = c ∷ cs in
    let rest =
      send_blocks-full rounds (b + 1) n (drop block_size xs) peer
        (omega (arith, length-drop block_size xs, even)) in
    (
      full_packet b xs (omega (arith, even)),
      elim (Bool-cases (acknowledges b (peer b))) [ inl e ↦ rw e rest | inr e ↦ rw e tt ],
    )

-- A file of a whole number of blocks is sent in packets of 516 bytes only, whatever the peer answers:
-- no shorter packet tells it that the file is at its end.
pub tftp-full :
    (content : List ℕ) (n : ℕ) (peer : ℕ → Received)
    → length content ≡ 512 * n
    → All (λ p. length p ≡ 516) (tftp tftp_rrq (some content) peer)
unfolding tftp
tftp-full content n peer even = send_blocks-full (length content) 1 n content peer even
