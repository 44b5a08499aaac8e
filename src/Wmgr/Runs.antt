-- ===== src/Wmgr/Runs.antt =====
-- The theorems on tek/wmgr/events.c at small queues.
use tek.Base.{ℕ, ◌*◌, ◌≤◌, ◌≡◌, ◌⊎◌, some, List, [], ◌∷◌, ◌++◌, length, arith}
use tek.Wmgr.Events.{Keyboard, readkeyboardevents}
use tek.Wmgr.Events.Queue.{
  Event, key_down, abs_time, words, last_of, key_state, readkeyboardevents-words,
}

abbrev idle : Keyboard
idle = record {
  keymap = λ j. 0;
  timestamp = 0;
  lastkey = 0;
  lastrepeat = 0;
  calls = 0;
  buffer = [];
}

abbrev clock : ℕ → ℕ
clock n = 1000 * n

-- Shift, a letter and the time, of which a buffer of one character takes the first two.
readkeyboardevents-words_example :
    (taken left : List Event) × (s' : Keyboard) × (key_down 136 ∷ key_down 97 ∷ abs_time 1 2 ∷ []
      ≡ taken ++ left)
    × (readkeyboardevents clock 1 (words (key_down 136 ∷ key_down 97 ∷ abs_time 1 2 ∷ [])) idle
        ≡ some (words left, s'))
    × (length s'.buffer ≤ 1)
    × (s'.keymap 97 ≡ key_state (last_of 97 taken) 0)
    × ((left ≡ []) ⊎ (length s'.buffer ≡ 1))
readkeyboardevents-words_example =
    readkeyboardevents-words clock 1 (key_down 136) (key_down 97 ∷ abs_time 1 2 ∷ []) idle 97
      ((omega arith), ((omega arith), (tt, tt)))
