-- ===== src/Wmgr/Events/Repeat.antt =====
-- The repetition of the last key.
use tek.Base.{
  ℕ, ◌+◌, ◌%◌, ◌^◌, ◌<◌, ◌≡◌, refl, ap, ◌∙◌, Bool, true, false, some, [], ◌∷◌, ltb, lt→ltb, ◌==◌,
  if◌then◌else◌, arith,
}
use tek.Wmgr.Events.{Keyboard, key_char, type_key, repeat_key, readkeyboardevents}

module _ (time : ℕ → ℕ) where
  poll :
      (maxlen : ℕ) (s : Keyboard) (b : Bool)
      → (s.lastkey == 0) ≡ false
      → ltb s.lastrepeat (time s.calls) ≡ b
      → (s' : Keyboard) × (readkeyboardevents time maxlen [] s ≡ some ([], s'))
        × (s'.buffer ≡ (if b then s.lastkey ∷ [] else []))
        × (s'.lastkey ≡ s.lastkey)
        × (s'.lastrepeat ≡ (if b then (time s.calls + 25) % 2 ^ 32 else s.lastrepeat))
        × (s'.calls ≡ s.calls + 1)
  unfolding readkeyboardevents repeat_key
  poll maxlen s true key late = (
    record s {
      calls = s.calls + 1;
      buffer = s.lastkey ∷ [];
      lastrepeat = (time s.calls + 25) % 2 ^ 32;
    },
    (rw (key, late) refl),
    refl,
    refl,
    refl,
    refl,
  )
  poll maxlen s false key late =
      (record s { calls = s.calls + 1; buffer = [] }, (rw (key, late) refl), refl, refl, refl, refl)

  -- A key that was typed to a character other than 0, and is polled for with no events in the queue
  -- more than 750 ms later, is answered again; the poll behind that one answers the character once
  -- more if it is more than 25 ms later, else nothing. The clock does not wrap meanwhile.
  pub readkeyboardevents-type_key :
      (maxlen k : ℕ) (s : Keyboard)
      → (key_char s.keymap k == 0) ≡ false
      → time s.calls + 750 < time (s.calls + 1)
      → time (s.calls + 1) + 25 < 2 ^ 32
      → (s1 s2 : Keyboard) × (readkeyboardevents time maxlen [] (type_key time k s) ≡ some ([], s1))
        × (s1.buffer ≡ key_char s.keymap k ∷ [])
        × (readkeyboardevents time maxlen [] s1 ≡ some ([], s2))
        × (s2.buffer ≡ (
            if ltb (time (s.calls + 1) + 25) (time (s.calls + 1 + 1))
            then key_char s.keymap k ∷ []
            else []))
  unfolding type_key
  readkeyboardevents-type_key maxlen k s char late clock =
      let t : ℕ = time (s.calls + 1) in
      let due : ltb ((time s.calls + 750) % 2 ^ 32) t ≡ true =
        lt→ltb ((time s.calls + 750) % 2 ^ 32) t (omega (arith, late, clock)) in
      let (s1, first, out1, key1, repeat1, calls1) =
        poll maxlen (type_key time k s) true char due in
      let again : ltb s1.lastrepeat (time s1.calls) ≡ ltb (t + 25) (time (s.calls + 1 + 1)) =
        ap (λ r. ltb r (time s1.calls)) (repeat1 ∙ omega (arith, clock))
        ∙ ap (λ c. ltb (t + 25) (time c)) calls1 in
      let (s2, second, out2, key2, repeat2, calls2) =
        poll maxlen s1 (ltb (t + 25) (time (s.calls + 1 + 1))) (ap (λ c. c == 0) key1 ∙ char)
          again in
      (
        s1,
        s2,
        first,
        out1,
        second,
        out2 ∙ ap (λ c. if ltb (t + 25) (time (s.calls + 1 + 1)) then c ∷ [] else []) key1,
      )
