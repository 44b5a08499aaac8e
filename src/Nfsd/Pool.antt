-- ===== src/Nfsd/Pool.antt =====
-- The pool of path components of tek/daemons/nfsd.c: add_subpath, encodepath and decodepath.
-- The packed strings of `stringcache` stand here as the list of its strings in order, which is what
-- `subpaths[]` refers to; the sizes of the two blocks are kept beside it, and `none` is an access
-- behind a block or behind the caller's array of tokens. The string at the start of a new block is
-- what malloc left there, here `fresh`; malloc does not fail.
pub mod Paths
pub mod Decode
use tek.Base.{
  ℕ, zero, suc, ◌+◌, ◌-◌, ◌/◌, ◌^◌, Bool, true, false, ◌&&◌, Option, none, some, List, [], ◌∷◌,
  ◌++◌, ltb, leb, ◌==◌, if◌then◌else◌, length, get_elem?, ◌>>=◌, guarded,
}

abbrev pub Str : Type 0
Str = List ℕ

pub record Pool : Type 0 where
  pub strings : List Str
  pub subpaths_len : ℕ
  pub stringcachelen : ℕ

-- Before the first call, when both pointers are NULL.
pub data Cache : Type 0 where
  unset : Cache
  allocated : Pool → Cache

-- `strcmp` is zero.
unfoldable pub same : Str → Str → Bool
same [] [] = true
same [] (b ∷ t) = false
same (a ∷ s) [] = false
same (a ∷ s) (b ∷ t) = (a == b) && same s t

-- The bytes of the strings with their NULs: `ptr - stringcache` behind the last string.
unfoldable pub used : List Str → ℕ
used [] = 0
used (s ∷ ss) = length s + 1 + used ss

unfoldable pub find : Str → List Str → ℕ → Option ℕ
find path [] n = none
find path (s ∷ ss) n = let later = find path ss (n + 1) in if same path s then some n else later

-- `none` of the Cache gives the first blocks; the block of strings is not looked at then.
unfoldable pub room : Str → Str → Cache → Pool
unfolding used
room fresh path unset = record { strings = fresh ∷ []; subpaths_len = 1024; stringcachelen = 2048 }
room fresh path (allocated pool) = record {
  strings = pool.strings;
  subpaths_len =
      if leb pool.subpaths_len (length pool.strings)
      then pool.subpaths_len + pool.subpaths_len / 2
      else pool.subpaths_len;
  stringcachelen =
      if ltb pool.stringcachelen (used pool.strings + (length path + 1))
      then pool.stringcachelen + pool.stringcachelen / 2
      else pool.stringcachelen;
}

-- `short n` of the search does not go past 2^15 strings: it wraps, and the search leaves the array.
abbrev pub short_end : ℕ
short_end = 2 ^ 15

-- `strcpy` behind the last string and the new entry of `subpaths[]`, in bounds or not.
unfoldable pub append : Str → Pool → Option Pool
unfolding used
append path pool =
    guarded
      (leb (used pool.strings + (length path + 1)) pool.stringcachelen
        && ltb (length pool.strings) pool.subpaths_len
        && ltb (length pool.strings) short_end)
      (record pool { strings = pool.strings ++ (path ∷ []) })

-- The search has answered.
unfoldable pub entered : Str → Pool → Option ℕ → Option (ℕ × Pool)
unfolding append
entered path pool (some n) = some (n, pool)
entered path pool none = do pool' ← append path pool; some (length pool'.strings - 1, pool')

unfoldable pub add_subpath : Str → Str → Cache → Option (ℕ × Pool)
unfolding room entered
add_subpath fresh path cache =
    let pool = room fresh path cache in entered path pool (find path pool.strings 0)

-- '/'
abbrev pub slash : ℕ
slash = 47

abbrev pub nonempty : Str → List Str → List Str
nonempty [] ts = ts
nonempty (c ∷ cs) ts = (c ∷ cs) ∷ ts

-- `strtok(working, "/")` until it answers NULL: the pieces between slashes that are not empty.
-- `piece` is what stands since the last slash.
unfoldable pub tokens : Str → Str → List Str
tokens piece [] = nonempty piece []
tokens piece (c ∷ cs) =
    let more = tokens (piece ++ (c ∷ [])) cs in
    let next = tokens [] cs in if c == slash then nonempty piece next else more

-- The loop of encodepath: the numbers stored, in order, with the number of places left for them.
unfoldable pub encode_tokens : Str → List Str → ℕ → Cache → Option (List ℕ × Cache)
encode_tokens fresh [] left cache = some ([], cache)
encode_tokens fresh (t ∷ ts) zero cache = none
encode_tokens fresh (t ∷ ts) (suc left) cache = do
  (i, pool) ← add_subpath fresh t cache
  (is, cache') ← encode_tokens fresh ts left (allocated pool)
  some (i ∷ is, cache')

-- `char working[1024]`
abbrev pub working_size : ℕ
working_size = 1024

unfoldable pub encodepath : Str → Str → ℕ → Cache → Option (List ℕ × Cache)
unfolding encode_tokens tokens
encodepath fresh filepath places cache =
    guarded (ltb (length filepath) working_size) filepath
    >>= (λ working. encode_tokens fresh (tokens [] working) places cache)

-- The loop of decodepath up to the token 0; `none` is a token behind the end of `subpaths[]` or
-- an array without a token 0.
unfoldable pub decode_tokens : List Str → List ℕ → Option Str
decode_tokens strings [] = none
decode_tokens strings (i ∷ is) =
    let later = decode_tokens strings is in
    if i == 0
    then some []
    else (do s ← get_elem? strings i; rest ← later; some (slash ∷ (s ++ rest)))

unfoldable pub decodepath : List ℕ → Cache → Option Str
unfolding decode_tokens
decodepath encoded unset = some []
decodepath encoded (allocated pool) = decode_tokens pool.strings encoded
