-- ===== src/Vtemu/Args.antt =====
-- The numbers of an escape sequence: `asciinum`, `asciinum2` and the `strchr` of tek/wmgr/vtemu.c.
-- `seq` is the array `escseq`; every position read lies below 16, see `asciinum2`, which reads
-- `msg[0..7]` and up to four characters behind a semicolon among them.
pub mod Decimal
use tek.Base.{
  ℕ, zero, suc, ◌+◌, ◌-◌, ◌*◌, Bool, true, false, ◌&&◌, ◌||◌, ltb, leb, ◌==◌, if◌then◌else◌,
}

abbrev pub isdigit : ℕ → Bool
isdigit c = leb b'0' c && leb c b'9'

-- `for(c=0; c<4; c++)`, with the rounds left
unfoldable pub number : ℕ → (ℕ → ℕ) → ℕ → ℕ → ℕ
number zero seq k i = i
number (suc left) seq k i =
    let rest = number left seq (k + 1) (i * 10 + (seq k - b'0')) in
    if isdigit (seq k) then rest else i

unfoldable pub asciinum : (ℕ → ℕ) → ℕ → ℕ → ℕ
unfolding number
asciinum seq msg defval = let i = number 4 seq msg 0 in if i == 0 then defval else i

-- `for(c=0; c<8; c++)`; a `char` is signed, so a byte from 128 on is below 0x40.
unfoldable pub second : ℕ → (ℕ → ℕ) → ℕ → ℕ → ℕ
unfolding asciinum
second zero seq k defval = defval
second (suc left) seq k defval =
    let rest = second left seq (k + 1) defval in
    if seq k == b';'
    then asciinum seq (k + 1) defval
    else if leb 0x40 (seq k) && ltb (seq k) 0x80
    then defval
    else rest

unfoldable pub asciinum2 : (ℕ → ℕ) → ℕ → ℕ → ℕ
unfolding second
asciinum2 seq msg defval = second 8 seq msg defval

-- `strchr(msg, ';') != NULL` over at most `left` characters
unfoldable pub has_semicolon : ℕ → (ℕ → ℕ) → ℕ → Bool
has_semicolon zero seq k = false
has_semicolon (suc left) seq k =
    let rest = has_semicolon left seq (k + 1) in
    if seq k == b';' then true else if seq k == 0 then false else rest
