-- ===== src/Defrag/Scan/Totals.antt =====
-- The scan of a whole disk stays in the map, and its totals balance.
use Prim.Native.Nat.{bit_and}
use tek.Base.{
  ℕ, zero, suc, ◌+◌, ◌-◌, ◌*◌, ◌/◌, ◌%◌, ◌^◌, ◌≤◌, ◌<◌, ◌≡◌, refl, ◌∙◌, Bool, ◌||◌, not, Option,
  some, List, [], ◌∷◌, append-nil, ◌⊎◌, ◌==◌, length, length-replicate, drop, replicate, Bool-cases,
  Option-cases, inl, inr, arith,
}
use tek.Defrag.Bitmap.{Geometry, geometry, clear_map}
use tek.Defrag.Bitmap.Bits.{Bytes, used_bits, weight}
use tek.Defrag.Account.{build_map, Env, State, set_oor}
use tek.Defrag.Account.Balance.{
  Covers, IsSound, set_oor-IsSound, mapblock-IsSound, indirect-IsSound,
}
use tek.Defrag.Follow.{mark_in_map}
use tek.Defrag.Follow.Visits.{Visit, part, indirect, stray, visit, run, file_visits}
use tek.Defrag.Follow.Order.{mark_in_map-eq-outcome}
use tek.Defrag.Scan.{
  Counts, no_counts, count_fdn, env_for, scan_fdn, scan_block, scan_blocks, cleared,
  builds_fdns_map, s_ifmt, s_ifreg, s_ifdir, fd_blk,
}

module _ (env : Env) (size : ℕ) (covers : Covers env size)
    (mode : env.mappingmode ≡ build_map) where
  visit-IsSound :
      (v : Visit) (s : State)
      → IsSound size s
      → (s' : State) × (visit env v s ≡ some s') × IsSound size s'
  unfolding visit
  visit-IsSound (part b) s h = mapblock-IsSound env size covers b s mode h
  visit-IsSound (indirect b) s h = indirect-IsSound env size covers b s mode h
  visit-IsSound stray s h = (set_oor env s, refl, set_oor-IsSound env size covers h)

  run-IsSound :
      (vs : List Visit) (s : State)
      → IsSound size s
      → (s' : State) × (run env vs s ≡ some s') × IsSound size s'
  unfolding run
  run-IsSound [] s h = (s, refl, h)
  run-IsSound (v ∷ vs) s h =
      let (s1, first, h1) = visit-IsSound v s h in
      let (s2, rest, h2) = run-IsSound vs s1 h1 in (s2, (rw (first, rest) refl), h2)

  -- Following any descriptor on any disk stays in the map and keeps the accounts sound, if the map
  -- has a bit for every block of the range.
  pub mark_in_map-IsSound :
      (disk : ℕ → Option (ℕ → ℕ)) (fd_blk : ℕ → ℕ) (s : State)
      → IsSound size s
      → (err : Bool) × (s' : State) × (mark_in_map env disk fd_blk s ≡ some (err, s'))
        × IsSound size s'
  mark_in_map-IsSound disk fd_blk s h =
      let start : State = record s { blkcount = 0; cids = []; blocks = [] } in
      let h' : IsSound size start = record {
        bytes = h.bytes;
        sized = h.sized;
        dups_fit = h.dups_fit;
        oors_fit = h.oors_fit;
        balance = h.balance;
      } in
      let w = file_visits env disk fd_blk in
      let (s', done, sound) = run-IsSound w.0 start h' in
      (w.1, s', mark_in_map-eq-outcome env disk fd_blk s ∙ (rw done refl), sound)

module _ (sizes : Geometry) (badblocks : Bool) (disk : ℕ → Option (ℕ → ℕ)) (size : ℕ)
    (covers : (sizes.maxvld - sizes.minvld) / 8 < size) where
  scan_fdn-IsSound :
      (fdnno : ℕ) (fdnbuf : ℕ → ℕ) (k : ℕ) (c : Counts) (s : State)
      → IsSound size s
      → (c' : Counts) × (s' : State) × (scan_fdn sizes badblocks disk fdnno fdnbuf k (c, s)
          ≡ some (c', s'))
        × IsSound size s'
  unfolding scan_fdn
  scan_fdn-IsSound fdnno fdnbuf k c s h =
      let filetype : ℕ = bit_and (fdnbuf k) s_ifmt in
      elim (Bool-cases ((filetype == s_ifreg) || (filetype == s_ifdir))) [
        | inr other ↦ rw other (count_fdn filetype c, s, refl, h)
        | inl followed ↦
            (let (err, s', done, sound) =
                mark_in_map-IsSound (env_for sizes badblocks disk fdnno filetype) size covers refl
                  disk (λ j. fdnbuf (k + fd_blk + j)) s h in
              rw (followed, done) (count_fdn filetype c, s', refl, sound))
      ]

  scan_block-IsSound :
      (fdnno : ℕ) (fdnbuf : ℕ → ℕ) (k left : ℕ) (c : Counts) (s : State)
      → IsSound size s
      → (c' : Counts) × (s' : State) × (scan_block sizes badblocks disk fdnno fdnbuf k left (c, s)
          ≡ some (c', s'))
        × IsSound size s'
  unfolding scan_block
  scan_block-IsSound fdnno fdnbuf k zero c s h = (c, s, refl, h)
  scan_block-IsSound fdnno fdnbuf k (suc left) c s h =
      let (c1, s1, first, h1) = scan_fdn-IsSound fdnno fdnbuf k c s h in
      let (c2, s2, rest, h2) = scan_block-IsSound fdnno fdnbuf (k + 64) left c1 s1 h1 in
      (c2, s2, (rw (first, rest) refl), h2)

  scan_blocks-IsSound :
      (fdnno fdnbno left : ℕ) (c : Counts) (s : State)
      → IsSound size s
      → (c' : Counts) × (s' : State) × (scan_blocks sizes badblocks disk fdnno fdnbno left (c, s)
          ≡ some (c', s'))
        × IsSound size s'
  unfolding scan_blocks
  scan_blocks-IsSound fdnno fdnbno zero c s h = (c, s, refl, h)
  scan_blocks-IsSound fdnno fdnbno (suc left) c s h = elim (Option-cases (disk (fdnbno + 1))) [
    | inl e ↦
        rw (e, scan_blocks) (scan_blocks-IsSound ((fdnno + 8) % 2 ^ 16) (fdnbno + 1) left c s h)
    | inr (fdnbuf, e) ↦
        (let (c1, s1, first, h1) = scan_block-IsSound fdnno fdnbuf 0 8 c s h in
          let (c2, s2, rest, h2) = scan_blocks-IsSound fdnno (fdnbno + 1) left c1 s1 h1 in
          (c2, s2, (rw (e, scan_blocks, first, rest) refl), h2))
  ]

zeros-Bytes : (n : ℕ) → Bytes (replicate n 0)
zeros-Bytes zero = tt
zeros-Bytes (suc n) = (omega arith, zeros-Bytes n)

used_bits-zeros : (n : ℕ) → used_bits (replicate n 0) ≡ 0
unfolding weight
used_bits-zeros zero = refl
used_bits-zeros (suc n) = omega (arith, used_bits-zeros n)

drop_all {ℓ} : {A : Type ℓ} (xs : List A) → drop (length xs) xs ≡ []
drop_all [] = refl
drop_all (x ∷ xs) = drop_all xs

clear_map_all :
    (mapbuf : List ℕ)
    → length mapbuf % 4 ≡ 0
    → length mapbuf < 2 ^ 18
    → clear_map mapbuf ≡ replicate (length mapbuf) 0
unfolding clear_map
clear_map_all mapbuf h small =
    let whole : length mapbuf / 4 % 2 ^ 16 * 4 ≡ length mapbuf = omega arith in
    rw (whole, drop_all mapbuf, append-nil {A = ℕ} (replicate (length mapbuf) 0)) refl

cleared-IsSound :
    (sizes : Geometry) (badblocks : Bool) (disk : ℕ → Option (ℕ → ℕ)) (mapbuf : List ℕ)
    → length mapbuf % 4 ≡ 0
    → length mapbuf < 2 ^ 18
    → IsSound (length mapbuf) (cleared sizes badblocks disk mapbuf)
cleared-IsSound sizes badblocks disk mapbuf h small =
    let clear = clear_map_all mapbuf h small in
    let n : ℕ = length mapbuf in
    record {
      bytes = (rw clear (zeros-Bytes n));
      sized = (rw clear (length-replicate n 0));
      dups_fit = omega arith;
      oors_fit = omega arith;
      balance = (rw (clear, used_bits-zeros n) refl);
    }

-- On every disk with at least five blocks of descriptors, whose sizes pass the tests of main, and
-- with a map whose size is a multiple of four and below 2^18, the whole scan stays in the map, the tables of
-- duplicates and of descriptors with blocks out of range do not outgrow their arrays, and the blocks
-- counted for files, directories and indirect blocks are, modulo 2 ^ 32, the bits set in the map and
-- the duplicates.
pub builds_fdns_map_balance :
    (maxvld sszfdn swapbeg swapsize : ℕ) (badblocks : Bool) (disk : ℕ → Option (ℕ → ℕ))
    (mapbuf : List ℕ)
    → 5 ≤ sszfdn
    → sszfdn + 2 < maxvld
    → (swapbeg ≡ 0) ⊎ (maxvld < swapbeg)
    → length mapbuf ≡ (geometry maxvld sszfdn swapbeg swapsize).mapsize
    → length mapbuf % 4 ≡ 0
    → length mapbuf < 2 ^ 18
    → (found : Bool) × (c : Counts) × (s : State) × (builds_fdns_map
          (geometry maxvld sszfdn swapbeg swapsize)
          badblocks
          disk
          sszfdn
          mapbuf
        ≡ some (found, c, s))
      × IsSound (length mapbuf) s
unfolding builds_fdns_map geometry
builds_fdns_map_balance maxvld sszfdn swapbeg swapsize badblocks disk mapbuf fdns room swap sized
      whole small =
    let g : Geometry = geometry maxvld sszfdn swapbeg swapsize in
    let covers : (maxvld - (sszfdn + 2)) / 8 < length mapbuf = ground arith in
    let (c, s, done, sound) =
      scan_blocks-IsSound g badblocks disk (length mapbuf) covers 1 1 sszfdn no_counts
        (cleared g badblocks disk mapbuf) (cleared-IsSound g badblocks disk mapbuf whole small) in
    (not (length s.dups == 0) || not (length s.oors == 0), c, s, (rw done refl), sound)
