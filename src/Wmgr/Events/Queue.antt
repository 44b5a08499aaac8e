-- ===== src/Wmgr/Events/Queue.antt =====
-- The events of the queue, and what reading them does to the key map.
use tek.Base.{
  ℕ, zero, suc, ◌+◌, ◌*◌, ◌/◌, ◌%◌, ◌^◌, ◌≤◌, ◌<◌, ◌≡◌, refl, ap, ◌∙◌, ◌⊎◌, Bool, true, false,
  Option, none, some, List, [], ◌∷◌, ◌++◌, All, ltb, lt→ltb, ◌==◌, if◌then◌else◌, length,
  length-append, Bool-cases, inl, inr, arith,
}
use tek.Wmgr.Events.{
  Keyboard, etype, eparam, set_key, type_key, press, release_key, set_time, dispatch, read_loop,
  readkeyboardevents,
}

pub data Event : Type 0 where
  delta_time : ℕ → Event
  x_mouse : ℕ → Event
  y_mouse : ℕ → Event
  key_down : ℕ → Event
  key_up : ℕ → Event
  abs_time : ℕ → ℕ → Event

-- The first word of an event, the words behind it, and a queue of events.
abbrev pub word : Event → ℕ
word (delta_time d) = d
word (x_mouse x) = 4096 + x
word (y_mouse y) = 2 * 4096 + y
word (key_down k) = 3 * 4096 + k
word (key_up k) = 4 * 4096 + k
word (abs_time hi lo) = 5 * 4096

abbrev pub extra : Event → List ℕ
extra (delta_time d) = []
extra (x_mouse x) = []
extra (y_mouse y) = []
extra (key_down k) = []
extra (key_up k) = []
extra (abs_time hi lo) = hi ∷ lo ∷ []

abbrev pub words : List Event → List ℕ
words [] = []
words (e ∷ es) = word e ∷ (extra e ++ words es)

-- A parameter has 12 bits, and a key a place in the key map.
abbrev pub IsEvent : Event → Type 0
IsEvent (delta_time d) = d < 4096
IsEvent (x_mouse x) = x < 4096
IsEvent (y_mouse y) = y < 4096
IsEvent (key_down k) = k < 256
IsEvent (key_up k) = k < 256
IsEvent (abs_time hi lo) = Unit

-- Whether an event puts a key down or up, and the last such event of a list.
abbrev pub own : ℕ → Event → Option Bool
own j (delta_time d) = none
own j (x_mouse x) = none
own j (y_mouse y) = none
own j (key_down k) = if j == k then some true else none
own j (key_up k) = if j == k then some false else none
own j (abs_time hi lo) = none

abbrev pub later : Option Bool → Option Bool → Option Bool
later (some b) first = some b
later none first = first

abbrev pub last_of : ℕ → List Event → Option Bool
last_of j [] = none
last_of j (e ∷ es) = later (last_of j es) (own j e)

abbrev pub key_state : Option Bool → ℕ → ℕ
key_state none before = before
key_state (some true) before = 1
key_state (some false) before = 0

key_state-later :
    (a b : Option Bool) (n : ℕ) → key_state a (key_state b n) ≡ key_state (later a b) n
key_state-later none b n = refl
key_state-later (some true) b n = refl
key_state-later (some false) b n = refl

flag : (n : ℕ) (b : Bool) → (if b then 1 else 0) ≡ key_state (some b) n
flag n true = refl
flag n false = refl

key_state-set_key :
    (keymap : ℕ → ℕ) (k j : ℕ) (b : Bool)
    → set_key keymap k (if b then 1 else 0) j
      ≡ key_state (if j == k then some b else none) (keymap j)
key_state-set_key keymap k j b = elim (Bool-cases (j == k)) [
  | inl e ↦ rw e (flag (keymap j) b)
  | inr e ↦ rw e refl
]

module _ (time : ℕ → ℕ) where
  type_key-grows :
      (k : ℕ) (s : Keyboard)
      → (length (type_key time k s).buffer ≡ length s.buffer + 1)
        × ((type_key time k s).keymap ≡ s.keymap)
  unfolding type_key
  type_key-grows k s = (length-append s.buffer _, refl)

  -- What one event does.
  abbrev Takes : Event → List ℕ → Keyboard → ℕ → Type 0
  Takes e queue s j =
      (s' : Keyboard) × (dispatch time (etype (word e)) (eparam (word e)) (extra e ++ queue) s
        ≡ some (queue, s'))
      × (length s'.buffer ≤ length s.buffer + 1)
      × (s'.keymap j ≡ key_state (own j e) (s.keymap j))

  press-Takes :
      (k : ℕ) (queue : List ℕ) (s : Keyboard) (j : ℕ) → k < 256 → Takes (key_down k) queue s j
  unfolding dispatch press
  press-Takes k queue s j h =
      let ty : (3 * 4096 + k) / 4096 % 16 ≡ 3 = omega (arith, h) in
      let par : (3 * 4096 + k) % 4096 ≡ k = omega (arith, h) in
      let key : ltb k 256 ≡ true = lt→ltb k 256 h in
      let s1 : Keyboard = record s { keymap = set_key s.keymap k 1 } in
      let down : s1.keymap j ≡ key_state (own j (key_down k)) (s.keymap j) =
        key_state-set_key s.keymap k j true in
      elim (Bool-cases (ltb k 128)) [
        | inl char ↦
            (let (grows, same) = type_key-grows k s1 in
              (
                type_key time k s1,
                (rw (ty, par, key, char) refl),
                omega (arith, grows),
                ap (λ f. f j) same ∙ down,
              ))
        | inr other ↦ (s1, (rw (ty, par, key, other) refl), omega arith, down)
      ]

  event-Takes : (e : Event) (queue : List ℕ) (s : Keyboard) (j : ℕ) → IsEvent e → Takes e queue s j
  unfolding dispatch release_key set_time
  event-Takes (delta_time d) queue s j h =
      let ty : d / 4096 % 16 ≡ 0 = omega (arith, h) in
      (record s { timestamp = (s.timestamp + d % 4096) % 2 ^ 32 }, (rw ty refl), omega arith, refl)
  event-Takes (x_mouse x) queue s j h =
      let ty : (4096 + x) / 4096 % 16 ≡ 1 = omega (arith, h) in (s, (rw ty refl), omega arith, refl)
  event-Takes (y_mouse y) queue s j h =
      let ty : (2 * 4096 + y) / 4096 % 16 ≡ 2 = omega (arith, h) in
      (s, (rw ty refl), omega arith, refl)
  event-Takes (key_down k) queue s j h = press-Takes k queue s j h
  event-Takes (key_up k) queue s j h =
      let ty : (4 * 4096 + k) / 4096 % 16 ≡ 4 = omega (arith, h) in
      let par : (4 * 4096 + k) % 4096 ≡ k = omega (arith, h) in
      let key : ltb k 256 ≡ true = lt→ltb k 256 h in
      (
        record s { keymap = set_key s.keymap k 0; lastkey = 0 },
        (rw (ty, par, key) refl),
        omega arith,
        key_state-set_key s.keymap k j false,
      )
  event-Takes (abs_time hi lo) queue s j h = (_, refl, omega arith, refl)

  -- The events that were taken and those that are left.
  abbrev pub Reads : ℕ → ℕ → List Event → Keyboard → ℕ → Type 0
  Reads maxlen ecount es s j =
      (taken left : List Event) × (s' : Keyboard) × (es ≡ taken ++ left)
      × (read_loop time maxlen ecount (words es) s ≡ some (words left, s'))
      × (length s'.buffer ≤ maxlen)
      × (s'.keymap j ≡ key_state (last_of j taken) (s.keymap j))
      × ((left ≡ []) ⊎ (length s'.buffer ≡ maxlen))

  read_loop-Reads :
      (maxlen ecount : ℕ) (es : List Event) (s : Keyboard) (j : ℕ)
      → length (words es) ≤ ecount
      → All IsEvent es
      → length s.buffer ≤ maxlen
      → Reads maxlen ecount es s j
  unfolding read_loop
  read_loop-Reads maxlen zero [] s j enough events fits =
      ([], [], s, refl, refl, fits, refl, inl refl)
  read_loop-Reads maxlen zero (e ∷ es) s j enough events fits = absurd (omega arith)
  read_loop-Reads maxlen (suc ecount) [] s j enough events fits =
      ([], [], s, refl, refl, fits, refl, inl refl)
  read_loop-Reads maxlen (suc ecount) (e ∷ es) s j enough events fits =
      elim (Bool-cases (ltb (length s.buffer) maxlen)) [
        | inr full ↦ ([], e ∷ es, s, refl, (rw full refl), fits, refl, inr (ground arith))
        | inl room ↦
            (let (s1, step, grows, key) = event-Takes e (words es) s j events.0 in
              let fits1 : length s1.buffer ≤ maxlen = ground arith in
              let (taken, left, s2, split, rest, fits2, keys, end_of) =
                read_loop-Reads maxlen ecount es s1 j
                  (omega (arith, length-append (extra e) (words es))) events.1 fits1 in
              (
                e ∷ taken,
                left,
                s2,
                ap (λ t. e ∷ t) split,
                (rw (room, step) rest),
                fits2,
                keys
                    ∙ ap (key_state (last_of j taken)) key
                    ∙ key_state-later (last_of j taken) (own j e) (s.keymap j),
                end_of,
              ))
      ]

  -- A queue that is not empty is read in order: the events are split into those taken and those left
  -- in the queue, no more characters are put out than the buffer has room for, a key is as the last
  -- event taken for it says, else as it was, and events are left only where the buffer is full.
  pub readkeyboardevents-words :
      (maxlen : ℕ) (e : Event) (es : List Event) (s : Keyboard) (j : ℕ)
      → All IsEvent (e ∷ es)
      → (taken left : List Event) × (s' : Keyboard) × (e ∷ es ≡ taken ++ left)
        × (readkeyboardevents time maxlen (words (e ∷ es)) s ≡ some (words left, s'))
        × (length s'.buffer ≤ maxlen)
        × (s'.keymap j ≡ key_state (last_of j taken) (s.keymap j))
        × ((left ≡ []) ⊎ (length s'.buffer ≡ maxlen))
  unfolding readkeyboardevents
  readkeyboardevents-words maxlen e es s j events =
      read_loop-Reads maxlen (suc (length (extra e ++ words es))) (e ∷ es)
        (record s { buffer = [] }) j (omega arith) events (omega arith)
