-- ===== src/Telnet.antt =====
-- The option parser of the telnet daemon, tek/daemons/telnetd.c: `sendopt`, `parseopt`,
-- `parseoptdat` and `parse`. `Machine` holds the fields of `struct termstate` that the parser
-- reads and writes, with the three-byte messages written to the socket; `TermState` adds the
-- input buffer `bi`. The command codes are those of os2.0/lib/include/net/telnet.h.
pub mod Compact
pub mod Stream
pub mod Negotiate
pub mod Subneg
pub mod Write
mod Runs
use tek.Base.{
  ℕ, zero, suc, ◌+◌, ◌-◌, ◌*◌, Bool, true, false, ◌||◌, Option, none, some, List, [], ◌∷◌, ◌++◌,
  ltb, ◌==◌, if◌then◌else◌, length, get_elem?, get_or, set, ◌>>=◌,
}

abbrev pub iac : ℕ
iac = 255

abbrev pub dont : ℕ
dont = 254

abbrev pub do_opt : ℕ
do_opt = 253

abbrev pub wont : ℕ
wont = 252

abbrev pub will : ℕ
will = 251

abbrev pub sb : ℕ
sb = 250

abbrev pub se : ℕ
se = 240

abbrev pub t_echo : ℕ
t_echo = 1

abbrev pub t_sga : ℕ
t_sga = 3

abbrev pub terminal_type : ℕ
terminal_type = 24

abbrev pub naws : ℕ
naws = 31

abbrev pub terminal_speed : ℕ
terminal_speed = 32

abbrev pub linemode : ℕ
linemode = 34

-- `sizeof(ts->optdata)`
abbrev pub optdata_size : ℕ
optdata_size = 256

pub data State : Type 0 where
  state_normal state_iac state_opt state_sb state_optdat state_se : State

pub record Machine : Type 0 where
  pub state : State
  pub code : ℕ
  pub optdata : List ℕ
  pub optlen : ℕ
  pub cols : ℕ
  pub lines : ℕ
  pub sent : List (List ℕ)

unfoldable pub sendopt : Machine → ℕ → ℕ → Machine
sendopt ts code option = record ts { sent = ts.sent ++ ((iac ∷ code ∷ option ∷ []) ∷ []) }

-- The cases of the switch on `option` that answer nothing.
abbrev pub is_silent : ℕ → Bool
is_silent option = option == t_echo || option == t_sga || option == naws || option == linemode

abbrev pub is_terminal : ℕ → Bool
is_terminal option = option == terminal_type || option == terminal_speed

unfoldable pub parseopt : Machine → ℕ → ℕ → Machine
unfolding sendopt
parseopt ts code option =
    if is_silent option
    then ts
    else if is_terminal option
    then sendopt ts do_opt option
    else if code == will || code == wont
    then sendopt ts dont option
    else sendopt ts wont option

-- `ntohs(*(unsigned short *) (data + i))`
abbrev pub ntohs_at : List ℕ → ℕ → ℕ
ntohs_at bytes i = get_or bytes i 0 * 256 + get_or bytes (i + 1) 0

unfoldable pub parseoptdat : Machine → ℕ → List ℕ → ℕ → Machine
parseoptdat ts option bytes len =
    let c = ntohs_at bytes 0 in
    let l = ntohs_at bytes 2 in
    if option == naws
    then (if len == 4
        then record ts {
          cols = if c == 0 then ts.cols else c;
          lines = if l == 0 then ts.lines else l;
        }
        else ts)
    else ts

-- The switch of `parse` on one byte, with the byte that the case stores through `q`, if any.
unfoldable pub step_in : State → Machine → ℕ → Machine × Option ℕ
unfolding parseopt parseoptdat
step_in state_normal ts c =
    if c == iac then (record ts { state = state_iac }, none) else (ts, some c)
step_in state_iac ts c =
    if c == iac
    then (record ts { state = state_normal }, some c)
    else if c == will || c == wont || c == do_opt || c == dont
    then (record ts { code = c; state = state_opt }, none)
    else if c == sb
    then (record ts { state = state_sb }, none)
    else (record ts { state = state_normal }, none)
step_in state_opt ts c =
    let answered = parseopt ts ts.code c in (record answered { state = state_normal }, none)
step_in state_sb ts c = (record ts { code = c; optlen = 0; state = state_optdat }, none)
step_in state_optdat ts c =
    if c == iac
    then (record ts { state = state_se }, none)
    else if ltb ts.optlen optdata_size
    then (record ts { optdata = set ts.optdata ts.optlen c; optlen = ts.optlen + 1 }, none)
    else (ts, none)
step_in state_se ts c =
    let taken = if c == se then parseoptdat ts ts.code ts.optdata ts.optlen else ts in
    (record taken { state = state_normal }, none)

abbrev pub step : Machine → ℕ → Machine × Option ℕ
step ts c = step_in ts.state ts c

-- `struct buffer`, with `start` and `end` as positions in the array.
pub record Buffer : Type 0 where
  pub bytes : List ℕ
  pub start : ℕ
  pub end : ℕ

pub record TermState : Type 0 where
  pub machine : Machine
  pub bi : Buffer

-- What the loop of `parse` changes: the machine, the array and the position `q`.
pub record Cursor : Type 0 where
  pub machine : Machine
  pub bytes : List ℕ
  pub q : ℕ

-- `*q++ = c`, where the case stores a byte. `none` is a store out of the array.
abbrev pub store : Cursor → Machine × Option ℕ → Option Cursor
store k (ts, none) = some (record k { machine = ts })
store k (ts, some c) =
    if ltb k.q (length k.bytes)
    then some (record { machine = ts; bytes = set k.bytes k.q c; q = k.q + 1 })
    else none

-- `while (p < ts->bi.end)`, with the rounds left and `p`. `none` is an access out of the array.
unfoldable pub parse_loop : ℕ → ℕ → Cursor → Option Cursor
parse_loop zero p k = some k
parse_loop (suc left) p k = do
  c ← get_elem? k.bytes p
  k' ← store k (step k.machine c)
  parse_loop left (p + 1) k'

unfoldable pub parse : TermState → Option TermState
unfolding parse_loop
parse ts = do
  k ←
      parse_loop (ts.bi.end - ts.bi.start) ts.bi.start
        (record { machine = ts.machine; bytes = ts.bi.bytes; q = ts.bi.start })
  some (record {
    machine = k.machine;
    bi = record { bytes = k.bytes; start = ts.bi.start; end = k.q };
  })
