-- ===== src/Wmgr/Stack/Runs.antt =====
-- The theorems on the windows of tek/wmgr/wmgr.c at a console, a login and two shells.
use tek.Base.{
  ℕ, ◌≡◌, refl, true, false, Option, none, some, List, [], ◌∷◌, All, ◌>>=◌, ◌==◌, if◌then◌else◌,
  inl, inr, arith,
}
use tek.Base.Int.{pos}
use tek.Wmgr.Rect.{Rect}
use tek.Wmgr.Paint.{Area, area_of, Drawn, rect_areas_outside, paint}
use tek.Wmgr.Paint.Outside.{contains, hits, NearArea}
use tek.Wmgr.Paint.Regions.{hits-rect_areas_outside}
use tek.Wmgr.Paint.Owner.{painters, owner_at, paint-owner}
use tek.Wmgr.Stack.{WinType, winshell, winconsole, winlogin, Window, Windows, window_top, set_next}
use tek.Wmgr.Stack.Slots.{Session, window_create, window_destroy, take_out}
use tek.Wmgr.Stack.Chain.{IsStack, Kept}
use tek.Wmgr.Stack.Top.{window_top-IsStack}
use tek.Wmgr.Stack.Close.{ids, window_destroy-IsStack}
use tek.Wmgr.Stack.Open.{window_create-IsStack}
use tek.Wmgr.Stack.Reach.{no_windows, created, topped, destroyed, Listed, Reached-Listed}

abbrev area : Rect
area = record { x = pos 48; y = pos 48; w = pos 672; h = pos 416 }

abbrev a_window : WinType → Option ℕ → ℕ → Window
a_window t below pid = record {
  next = below;
  oldrect = area;
  windowrect = area;
  contentrect = area;
  master = pid;
  slave = pid;
  pid = pid;
  dirty = 0;
  dirtylines = 0;
  xon = true;
  type = t;
}

abbrev slots : ℕ → Window
slots v =
    if v == 0
    then a_window winconsole none 100
    else if v == 1
    then a_window winlogin (some 0) 101
    else if v == 2
    then a_window winshell (some 1) 102
    else a_window winshell (some 2) 103

-- From the front: slots 3, 2, 1, 0.
abbrev four_windows : Windows
four_windows = record {
  allwindows = slots;
  numwindows = 4;
  wintopmost = some 3;
  closing_down = false;
  log = [];
}

four_windows-IsStack : IsStack four_windows (3 ∷ 2 ∷ 1 ∷ 0 ∷ [])
four_windows-IsStack = record {
  chain = (refl, (refl, (refl, (refl, refl))));
  distinct = (
    (omega arith, (omega arith, (omega arith, tt))),
    ((omega arith, (omega arith, tt)), ((omega arith, tt), (tt, tt))),
  );
  listed = (omega arith, (omega arith, (omega arith, (omega arith, tt))));
  all = refl;
}

abbrev new_session : Session
new_session = record { pid = 104; slave = 8; master = 9 }

window_top-IsStack_example :
    (s' : Windows) × (window_top 1 four_windows ≡ some (true, s'))
    × IsStack s' (1 ∷ 3 ∷ 2 ∷ 0 ∷ [])
    × Kept four_windows s'
window_top-IsStack_example =
    window_top-IsStack four_windows (3 ∷ 2 ∷ []) (0 ∷ []) 1 four_windows-IsStack

window_create-IsStack_example :
    (s' : Windows) × (window_create 8 16 (some new_session) (pos 70) (pos 20) winshell four_windows
      ≡ some (5, s'))
    × IsStack s' (4 ∷ 3 ∷ 2 ∷ 1 ∷ 0 ∷ [])
    × (ids s' (4 ∷ 3 ∷ 2 ∷ 1 ∷ 0 ∷ []) ≡ (104, winshell) ∷ ids four_windows (3 ∷ 2 ∷ 1 ∷ 0 ∷ []))
window_create-IsStack_example =
    window_create-IsStack 8 16 new_session (pos 70) (pos 20) winshell four_windows
      (3 ∷ 2 ∷ 1 ∷ 0 ∷ []) four_windows-IsStack refl (omega arith)

window_destroy-IsStack_example :
    (s' : Windows) × (window_destroy 8 16 none 2 four_windows ≡ some s')
    × IsStack s' (2 ∷ 1 ∷ 0 ∷ [])
    × (ids s' (2 ∷ 1 ∷ 0 ∷ []) ≡ ids four_windows (3 ∷ 1 ∷ 0 ∷ []))
window_destroy-IsStack_example =
    window_destroy-IsStack 8 16 none four_windows (3 ∷ []) (1 ∷ 0 ∷ []) 2 3 four_windows-IsStack
      refl (omega arith) refl (inr (omega arith, (omega arith, tt)))

-- With the login at the front: slots 1, 3, 2, 0.
abbrev login_first : Windows
login_first = record {
  allwindows = set_next (set_next slots 1 (some 3)) 2 (some 0);
  numwindows = 4;
  wintopmost = some 1;
  closing_down = true;
  log = [];
}

-- The pointer to the window that moved to slot 2 is given slot 0: that window is in the list no more.
shell_lost : (take_out 2 login_first >>= (λ s. some (s.allwindows 1).next)) ≡ some (some 0)
unfolding take_out
shell_lost = refl

abbrev screen : Area
screen = record { x = 32768; y = 32768; w = 640; h = 480 }

screen-NearArea : NearArea screen
screen-NearArea = ((omega arith, omega arith), (omega arith, omega arith))

area-NearArea : NearArea (area_of area)
area-NearArea = ((omega arith, omega arith), (omega arith, omega arith))

hits-rect_areas_outside_example :
    (hits (rect_areas_outside screen (area_of area)) 32770 32900 ≡ 1)
    × All NearArea (rect_areas_outside screen (area_of area))
unfolding contains
hits-rect_areas_outside_example =
    hits-rect_areas_outside screen (area_of area) 32770 32900 screen-NearArea area-NearArea

paint-owner_example :
    (ds : List Drawn) × (paint 4 (some 3) screen four_windows ≡ some ds)
    × ((px py : ℕ)
        → painters ds px py ≡ (
            if contains screen px py
            then owner_at four_windows (3 ∷ 2 ∷ 1 ∷ 0 ∷ []) px py ∷ []
            else []))
paint-owner_example =
    paint-owner four_windows (3 ∷ 2 ∷ 1 ∷ 0 ∷ []) 4 (some 3) screen four_windows-IsStack.chain
      four_windows-IsStack.listed
      (area-NearArea, (area-NearArea, (area-NearArea, (area-NearArea, tt)))) screen-NearArea
      (omega arith)

abbrev empty_screen : Windows
empty_screen = record {
  allwindows = slots;
  numwindows = 0;
  wintopmost = none;
  closing_down = false;
  log = [];
}

abbrev state_of : {A : Type 0} → Windows → Option (A × Windows) → Windows
state_of s none = s
state_of s (some (answer, s')) = s'

-- A console on the empty screen, a shell above it, the console at the front, and without the shell.
abbrev one_console : Windows
one_console =
    state_of empty_screen
      (window_create 8 16 (some new_session) (pos 32) (pos 32) winconsole empty_screen)

abbrev console_and_shell : Windows
console_and_shell =
    state_of one_console
      (window_create 8 16 (some new_session) (pos 64) (pos 64) winshell one_console)

abbrev console_first : Windows
console_first = state_of console_and_shell (window_top 0 console_and_shell)

abbrev shell_closed : Windows
shell_closed = elim (window_destroy 8 16 none 1 console_first) [ none ↦ console_first | some s ↦ s ]

one_console-created :
    window_create 8 16 (some new_session) (pos 32) (pos 32) winconsole empty_screen
    ≡ some (1, one_console)
unfolding window_create window_top
one_console-created = refl

console_and_shell-created :
    window_create 8 16 (some new_session) (pos 64) (pos 64) winshell one_console
    ≡ some (2, console_and_shell)
unfolding window_create window_top
console_and_shell-created = refl

console_first-topped : window_top 0 console_and_shell ≡ some (true, console_first)
unfolding window_create window_top
console_first-topped = refl

shell_closed-destroyed : window_destroy 8 16 none 1 console_first ≡ some shell_closed
unfolding window_destroy window_create window_top
shell_closed-destroyed = refl

Reached-Listed_example : Listed 8 16 shell_closed
unfolding window_create window_top
Reached-Listed_example = Reached-Listed 8 16 shell_closed (
    destroyed console_first shell_closed none 1 1
      (topped console_and_shell console_first 0 true
        (created one_console console_and_shell new_session (pos 64) (pos 64) winshell 2
          (created empty_screen one_console new_session (pos 32) (pos 32) winconsole 1
            (no_windows empty_screen refl refl) refl (omega arith) one_console-created)
          refl (omega arith) console_and_shell-created)
        (omega arith) console_first-topped)
      refl (omega arith) refl (inr (inl refl)) shell_closed-destroyed)
