-- ===== src/Wmgr/Events.antt =====
-- The keyboard of tek/wmgr/events.c: readkeyboardevents on the words of the event queue. A word has
-- its type in the bits 12 to 15 and its parameter in the low 12 bits; `time` is what the calls of
-- EGetTime answer, by their number. `none` is an access out of an array or a call of EGetNext on an
-- empty queue.
use Prim.Native.Nat.{bit_or}
use tek.Base.{
  ℕ, zero, suc, ◌+◌, ◌*◌, ◌/◌, ◌%◌, ◌^◌, Bool, true, false, ◌||◌, not, Option, none, some, List, [],
  ◌∷◌, ◌++◌, ltb, ◌==◌, if◌then◌else◌, length, get_or, ◌>>=◌,
}
pub mod Queue
pub mod Repeat

abbrev pub shifted : List ℕ
shifted =
    0 ∷ 0 ∷ 0 ∷ 0 ∷ 0 ∷ 0 ∷ 0 ∷ 0 ∷ 0 ∷ 0 ∷ 0 ∷ 0 ∷ 0 ∷ 0 ∷ 0 ∷ 0 ∷ 0 ∷ 0 ∷ 0 ∷ 0 ∷ 0 ∷ 0 ∷ 0 ∷ 0
    ∷ 0 ∷ 0 ∷ 0 ∷ 0 ∷ 0 ∷ 0 ∷ 0 ∷ 0 ∷ 0 ∷ 0 ∷ 0 ∷ 0 ∷ 0 ∷ 0 ∷ 0 ∷ 34 ∷ 0 ∷ 0 ∷ 0 ∷ 0 ∷ 60 ∷ 95 ∷ 62
    ∷ 63 ∷ 41 ∷ 33 ∷ 64 ∷ 35 ∷ 36 ∷ 37 ∷ 94 ∷ 38 ∷ 42 ∷ 40 ∷ 0 ∷ 58 ∷ 0 ∷ 43 ∷ 0 ∷ 0 ∷ 0 ∷ 0 ∷ 0 ∷ 0
    ∷ 0 ∷ 0 ∷ 0 ∷ 0 ∷ 0 ∷ 0 ∷ 0 ∷ 0 ∷ 0 ∷ 0 ∷ 0 ∷ 0 ∷ 0 ∷ 0 ∷ 0 ∷ 0 ∷ 0 ∷ 0 ∷ 0 ∷ 0 ∷ 0 ∷ 0 ∷ 0
    ∷ 123 ∷ 96 ∷ 125 ∷ 0 ∷ 0 ∷ 0 ∷ 65 ∷ 66 ∷ 67 ∷ 68 ∷ 69 ∷ 70 ∷ 71 ∷ 72 ∷ 73 ∷ 74 ∷ 75 ∷ 76 ∷ 77
    ∷ 78 ∷ 79 ∷ 80 ∷ 81 ∷ 82 ∷ 83 ∷ 84 ∷ 85 ∷ 86 ∷ 87 ∷ 88 ∷ 89 ∷ 90 ∷ 126 ∷ 0 ∷ 0 ∷ 0 ∷ 127 ∷ []

-- `buffer` has the characters that were put in it.
pub record Keyboard : Type 0 where
  pub keymap : ℕ → ℕ
  pub timestamp : ℕ
  pub lastkey : ℕ
  pub lastrepeat : ℕ
  pub calls : ℕ
  pub buffer : List ℕ

abbrev pub etype : ℕ → ℕ
etype evalue = evalue / 4096 % 16

abbrev pub eparam : ℕ → ℕ
eparam evalue = evalue % 4096

abbrev pub e_deltatime : ℕ
e_deltatime = 0

abbrev pub e_press : ℕ
e_press = 3

abbrev pub e_release : ℕ
e_release = 4

abbrev pub e_abstime : ℕ
e_abstime = 5

abbrev pub set_key : (ℕ → ℕ) → ℕ → ℕ → ℕ → ℕ
set_key keymap k v j = if j == k then v else keymap j

-- The character of a key below 0x80 under the modifier keys 0x88, 0x89 and 0x8a.
abbrev pub with_shift : (ℕ → ℕ) → ℕ → ℕ
with_shift keymap ch =
    if not (keymap 136 == 0) || not (keymap 137 == 0)
    then (if get_or shifted ch 0 == 0 then ch else get_or shifted ch 0)
    else ch

abbrev pub with_control : (ℕ → ℕ) → ℕ → ℕ
with_control keymap ch = if keymap 138 == 0 then ch else (ch + 160) % 256

unfoldable pub key_char : (ℕ → ℕ) → ℕ → ℕ
key_char keymap ch = with_control keymap (with_shift keymap ch)

module _ (time : ℕ → ℕ) where
  -- The characters are put into `buffer`, and the key repeats after 750 ms.
  unfoldable pub type_key : ℕ → Keyboard → Keyboard
  unfolding key_char
  type_key k s =
      let ch = key_char s.keymap k in
      record s {
        buffer = s.buffer ++ (ch ∷ []);
        lastkey = ch;
        lastrepeat = (time s.calls + 750) % 2 ^ 32;
        calls = s.calls + 1;
      }

  unfoldable pub press : ℕ → Keyboard → Option Keyboard
  unfolding type_key
  press k s =
      let s' = record s { keymap = set_key s.keymap k 1 } in
      if ltb k 256 then some (if ltb k 128 then type_key k s' else s') else none

  unfoldable pub release_key : ℕ → Keyboard → Option Keyboard
  release_key k s =
      if ltb k 256 then some (record s { keymap = set_key s.keymap k 0; lastkey = 0 }) else none

  -- The case E_ABSTIME takes two words more.
  unfoldable pub set_time : List ℕ → Keyboard → Option (List ℕ × Keyboard)
  set_time (timehi ∷ timelo ∷ queue) s =
      some (queue, record s { timestamp = bit_or (timehi * 2 ^ 16 % 2 ^ 32) timelo })
  set_time queue s = none

  unfoldable pub dispatch : ℕ → ℕ → List ℕ → Keyboard → Option (List ℕ × Keyboard)
  unfolding press release_key set_time
  dispatch type param queue s =
      if type == e_abstime
      then set_time queue s
      else if type == e_deltatime
      then some (queue, record s { timestamp = (s.timestamp + param) % 2 ^ 32 })
      else if type == e_press
      then (do s' ← press param s; some (queue, s'))
      else if type == e_release
      then (do s' ← release_key param s; some (queue, s'))
      else some (queue, s)

  -- `while (ecount-- > 0 && total < maxlen)`
  unfoldable pub read_loop : ℕ → ℕ → List ℕ → Keyboard → Option (List ℕ × Keyboard)
  unfolding dispatch
  read_loop maxlen zero queue s = some (queue, s)
  read_loop maxlen (suc ecount) [] s = some ([], s)
  read_loop maxlen (suc ecount) (evalue ∷ queue) s =
      if ltb (length s.buffer) maxlen
      then (do
        (queue', s') ← dispatch (etype evalue) (eparam evalue) queue s
        read_loop maxlen ecount queue' s')
      else some (evalue ∷ queue, s)

  -- With no event in the queue the last key repeats every 25 ms.
  unfoldable pub repeat_key : Keyboard → Keyboard
  repeat_key s =
      if s.lastkey == 0
      then s
      else let currtime = time s.calls in
        let s' = record s { calls = s.calls + 1 } in
        if ltb s.lastrepeat currtime
        then record s' {
          buffer = s.buffer ++ (s.lastkey ∷ []);
          lastrepeat = (currtime + 25) % 2 ^ 32;
        }
        else s'

  -- The number that is answered is the length of `buffer`.
  unfoldable pub readkeyboardevents : ℕ → List ℕ → Keyboard → Option (List ℕ × Keyboard)
  unfolding read_loop repeat_key
  readkeyboardevents maxlen [] s = some ([], repeat_key (record s { buffer = [] }))
  readkeyboardevents maxlen (evalue ∷ queue) s =
      read_loop maxlen (suc (length queue)) (evalue ∷ queue) (record s { buffer = [] })
