-- ===== src/Nfsd/Tftp.antt =====
-- The file transfer `tftp` of tek/daemons/nfsd.c, for a file that could be opened, whose content is
-- given. What the peer answers to each packet is given, and `sendto` sends all of a packet.
use tek.Base.{
  ℕ, zero, suc, ◌+◌, ◌-◌, ◌*◌, ◌/◌, ◌%◌, ◌^◌, Bool, true, false, ◌&&◌, Option, none, some, length,
  List, [], ◌∷◌, ◌++◌, take, drop, ◌==◌, if◌then◌else◌,
}
pub mod Whole
mod Runs

-- What `recvfrom` brings in: nothing, or the first two shorts of a packet.
pub data Received : Type 0 where
  failed : Received
  packet : ℕ → ℕ → Received

abbrev pub tftp_rrq : ℕ
tftp_rrq = 1

abbrev pub tftp_data : ℕ
tftp_data = 3

abbrev pub tftp_ack : ℕ
tftp_ack = 4

-- `fread(buffer, 1, 512, fp)`
abbrev pub block_size : ℕ
block_size = 512

abbrev pub short_bytes : ℕ → List ℕ
short_bytes v = (v / 2 ^ 8 % 256) ∷ (v % 256) ∷ []

unfoldable pub data_packet : ℕ → List ℕ → List ℕ
data_packet blocknum content = short_bytes tftp_data ++ (short_bytes blocknum ++ content)

-- Whether the answer acknowledges the block; a number received has 16 bits, `blocknum` has not.
unfoldable pub acknowledges : ℕ → Received → Bool
acknowledges blocknum failed = false
acknowledges blocknum (packet opcode n) = (opcode == tftp_ack) && (n == blocknum)

-- The packets that are sent, from a block on, with what is left to be read of the file.
unfoldable pub send_blocks : ℕ → ℕ → List ℕ → (ℕ → Received) → List (List ℕ)
unfolding data_packet acknowledges
send_blocks zero blocknum content peer = []
send_blocks (suc rounds) blocknum [] peer = []
send_blocks (suc rounds) blocknum (c ∷ cs) peer =
    let content = c ∷ cs in
    let rest = send_blocks rounds (blocknum + 1) (drop block_size content) peer in
    data_packet blocknum (take block_size content)
    ∷ (if acknowledges blocknum (peer blocknum) then rest else [])

-- `add_uint16` of the error and of its number 1, the text with its NUL, of which 16 bytes are counted,
-- and a 0.
abbrev pub not_found : List ℕ
not_found =
    short_bytes 5
    ++ (short_bytes 1
        ++ (70
            ∷ 105
            ∷ 108
            ∷ 101
            ∷ 32
            ∷ 110
            ∷ 111
            ∷ 116
            ∷ 32
            ∷ 102
            ∷ 111
            ∷ 117
            ∷ 110
            ∷ 100
            ∷ 46
            ∷ 0
            ∷ short_bytes 0))

-- Every round takes a byte of the file at least.
unfoldable pub tftp : ℕ → Option (List ℕ) → (ℕ → Received) → List (List ℕ)
unfolding send_blocks
tftp opcode none peer = if opcode == tftp_rrq then not_found ∷ [] else []
tftp opcode (some content) peer =
    if opcode == tftp_rrq then send_blocks (length content) 1 content peer else []
