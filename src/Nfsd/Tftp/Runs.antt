-- ===== src/Nfsd/Tftp/Runs.antt =====
-- The theorems on the file transfer at small files.
use tek.Base.{ℕ, ◌≡◌, refl, some, length, replicate, All}
use tek.Nfsd.Tftp.{Received, packet, acknowledges, tftp}
use tek.Nfsd.Tftp.Whole.{payloads, tftp-whole, tftp-full}

abbrev good_peer : ℕ → Received
good_peer k = packet 4 k

tftp-whole_example :
    (payloads (tftp 1 (some (replicate 600 7)) good_peer) ≡ replicate 600 7)
    × (length (tftp 1 (some (replicate 600 7)) good_peer) ≡ 2)
unfolding acknowledges
tftp-whole_example = tftp-whole (replicate 600 7) good_peer (refl, (refl, tt))

tftp-full_example : All (λ p. length p ≡ 516) (tftp 1 (some (replicate 512 7)) good_peer)
tftp-full_example = tftp-full (replicate 512 7) 1 good_peer refl
