-- ===== src/Wmgr/Stack/Exit.antt =====
-- The loop of cleanup_and_exit of tek/wmgr/wmgr.c, which ends the windows one after the other.
use tek.Base.{
  ℕ, zero, suc, ◌<◌, ◌≡◌, ◌≢◌, ◌⊎◌, true, false, Option, none, some, List, [], ◌∷◌, map, ltb,
  if◌then◌else◌, ◌>>=◌,
}
use tek.Wmgr.Stack.{Window, Call, terminate, Windows, call}
use tek.Wmgr.Stack.Slots.{Session, is_login, window_destroy}

module _ (maxw line : ℕ) (session : Option Session) where
  -- `while (numwindows > 0)`; SIGDEAD is ignored here, so that nothing else changes the windows.
  unfoldable pub end_windows : ℕ → Windows → Option Windows
  end_windows zero s = none
  end_windows (suc rounds) s =
      let rest = (do
        s1 ← window_destroy maxw line session 0 (call (terminate (s.allwindows 0).pid) s)
        end_windows rounds s1) in
      if ltb 0 s.numwindows then rest else some s

  unfoldable pub cleanup_and_exit : ℕ → Windows → Option Windows
  unfolding end_windows
  cleanup_and_exit rounds s = end_windows rounds (record s { closing_down = true })

-- The slots in the order in which they are ended: each time the last one has come to slot 0.
abbrev pub down_from : ℕ → List ℕ
down_from zero = []
down_from (suc k) = suc k ∷ down_from k

abbrev pub kills : (ℕ → Window) → List ℕ → List Call
kills f ws = map (λ v. terminate (f v).pid) ws

-- WINLOGIN is at slot 1 only, or is all there is.
abbrev pub Quiet : ℕ → (ℕ → Window) → Type 0
Quiet n f = (n ≡ 1) ⊎ ((j : ℕ) → j < n → j ≢ 1 → is_login (f j).type ≡ false)

abbrev pub ended : ℕ → List ℕ
ended zero = []
ended (suc k) = 0 ∷ down_from k
