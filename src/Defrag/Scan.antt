-- ===== src/Defrag/Scan.antt =====
-- `builds_fdns_map` of tek/devtools/defrag.c: the map and the accounts of a whole disk. A block of
-- descriptors that cannot be read is passed over. The numbers of the descriptors are counted as the
-- source counts them: `fdnno` grows only over a block that cannot be read.
use Prim.Native.Nat.{bit_and}
use tek.Base.{
  ℕ, zero, suc, ◌+◌, ◌-◌, ◌*◌, ◌/◌, ◌%◌, ◌^◌, Bool, true, false, ◌||◌, not, Option, none, some,
  List, [], ◌∷◌, ltb, ◌==◌, if◌then◌else◌, length, ◌>>=◌,
}
use tek.Defrag.Bitmap.{Geometry, clear_map}
use tek.Defrag.Account.{MapMode, build_map, Env, State, incr, s_ifdir}
use tek.Defrag.Follow.{mark_in_map}
pub mod Totals

abbrev pub s_ifmt : ℕ
s_ifmt = 207

abbrev pub s_ifreg : ℕ
s_ifreg = 1

abbrev pub s_ifblk : ℕ
s_ifblk = 3

abbrev pub s_ifchr : ℕ
s_ifchr = 5

-- FDNPB, and the size of a descriptor with the place of its block list.
abbrev pub fdnpb : ℕ
fdnpb = 8

abbrev pub fdnsiz : ℕ
fdnsiz = 64

abbrev pub fd_blk : ℕ
fd_blk = 9

pub record Counts : Type 0 where
  pub freefdns : ℕ
  pub usedfdns : ℕ
  pub blkfdns : ℕ
  pub chrfdns : ℕ
  pub dirfdns : ℕ
  pub regfdns : ℕ

abbrev pub no_counts : Counts
no_counts = record {
  freefdns = 0;
  usedfdns = 0;
  blkfdns = 0;
  chrfdns = 0;
  dirfdns = 0;
  regfdns = 0;
}

-- `++usedfdns` and the switch on the type.
unfoldable pub count_fdn : ℕ → Counts → Counts
count_fdn filetype c =
    if filetype == 0
    then record c { freefdns = incr c.freefdns }
    else let c' = record c { usedfdns = incr c.usedfdns } in
      if filetype == s_ifreg
      then record c' { regfdns = incr c.regfdns }
      else if filetype == s_ifdir
      then record c' { dirfdns = incr c.dirfdns }
      else if filetype == s_ifchr
      then record c' { chrfdns = incr c.chrfdns }
      else if filetype == s_ifblk
      then record c' { blkfdns = incr c.blkfdns }
      else c'

module _ (sizes : Geometry) (badblocks : Bool) (disk : ℕ → Option (ℕ → ℕ)) where
  abbrev pub env_for : ℕ → ℕ → Env
  env_for fdnno filetype = record {
    sizes = sizes;
    badblocks = badblocks;
    fdnno = fdnno;
    filetype = filetype;
    mappingmode = build_map;
  }

  -- One descriptor, at position `k` of a block.
  unfoldable pub scan_fdn : ℕ → (ℕ → ℕ) → ℕ → Counts × State → Option (Counts × State)
  unfolding count_fdn
  scan_fdn fdnno fdnbuf k (c, s) =
      let filetype = bit_and (fdnbuf k) s_ifmt in
      let c' = count_fdn filetype c in
      if (filetype == s_ifreg) || (filetype == s_ifdir)
      then (do
        (err, s') ← mark_in_map (env_for fdnno filetype) disk (λ j. fdnbuf (k + fd_blk + j)) s
        some (c', s'))
      else some (c', s)

  unfoldable pub scan_block : ℕ → (ℕ → ℕ) → ℕ → ℕ → Counts × State → Option (Counts × State)
  unfolding scan_fdn
  scan_block fdnno fdnbuf k zero r = some r
  scan_block fdnno fdnbuf k (suc left) r = do
    r' ← scan_fdn fdnno fdnbuf k r
    scan_block fdnno fdnbuf (k + fdnsiz) left r'

  -- The blocks from `fdnbno` on, `left` of them.
  unfoldable pub scan_blocks : ℕ → ℕ → ℕ → Counts × State → Option (Counts × State)
  unfolding scan_block
  scan_blocks fdnno fdnbno zero r = some r
  scan_blocks fdnno fdnbno (suc left) r = elim (disk (fdnbno + 1)) [
    | none ↦ scan_blocks ((fdnno + fdnpb) % 2 ^ 16) (fdnbno + 1) left r
    | some fdnbuf ↦ (do
      r' ← scan_block fdnno fdnbuf 0 fdnpb r
      scan_blocks fdnno (fdnbno + 1) left r')
  ]

  abbrev pub cleared : List ℕ → State
  cleared mapbuf = record {
    mapbuf = clear_map mapbuf;
    dups = [];
    oors = [];
    dupblks = 0;
    oorblks = 0;
    regblks = 0;
    dirblks = 0;
    mapblks = 0;
    blkcount = 0;
    blocks = [];
    cids = [];
  }

  -- The answer is whether there were duplicates or blocks out of range.
  unfoldable pub builds_fdns_map : ℕ → List ℕ → Option (Bool × Counts × State)
  unfolding scan_blocks
  builds_fdns_map sszfdn mapbuf = do
    (c, s) ← scan_blocks 1 1 sszfdn (no_counts, cleared mapbuf)
    some (not (length s.dups == 0) || not (length s.oors == 0), c, s)
