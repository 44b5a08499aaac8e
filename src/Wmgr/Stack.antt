-- ===== src/Wmgr/Stack.antt =====
-- The windows of tek/wmgr/wmgr.c: the slots of `allwindows` and the list from `wintopmost` down that
-- their `next` pointers make. A pointer to a window is its index, NULL is `none`. `none` as an answer
-- is an access out of the array or through NULL, or a walk that does not end. What the emulator of a
-- window holds, and the drawing, are left out; `log` has the calls in their order.
use tek.Base.{
  ℕ, zero, suc, ◌+◌, ◌-◌, ◌^◌, Bool, true, false, ◌&&◌, not, Option, none, some, List, [], ◌∷◌,
  ◌++◌, ltb, ◌==◌, if◌then◌else◌, ◌>>=◌, guarded,
}
use Prim.Native.Nat.{bit_or}
use tek.Vtemu.State.{update}
use tek.Wmgr.Rect.{Rect}
pub mod Slots
pub mod Chain
pub mod Top
pub mod Destroy
pub mod TakeOut
pub mod Close
pub mod Open
pub mod Reach
pub mod Every
pub mod Exit
mod Runs

-- WINSHELL, WINCONSOLE and WINLOGIN
pub data WinType : Type 0 where
  winshell : WinType
  winconsole : WinType
  winlogin : WinType

pub record Window : Type 0 where
  pub next : Option ℕ
  pub oldrect : Rect
  pub windowrect : Rect
  pub contentrect : Rect
  pub master : ℕ
  pub slave : ℕ
  pub pid : ℕ
  pub dirty : ℕ
  pub dirtylines : ℕ
  pub xon : Bool
  pub type : WinType

pub data Call : Type 0 where
  vt_blur : ℕ → Call
  vt_focus : ℕ → Call
  set_clip : Rect → Call
  welcome : ℕ → Call
  need_login : ℕ → Call
  paint : Rect → Call
  terminate : ℕ → Call

pub record Windows : Type 0 where
  pub allwindows : ℕ → Window
  pub numwindows : ℕ
  pub wintopmost : Option ℕ
  pub closing_down : Bool
  pub log : List Call

abbrev pub max_windows : ℕ
max_windows = 32

abbrev pub dirtyframe : ℕ
dirtyframe = 2

abbrev pub alldirty : ℕ
alldirty = 2 ^ 32 - 1

-- `p == &allwindows[w]`
abbrev pub is_ptr : Option ℕ → ℕ → Bool
is_ptr none w = false
is_ptr (some a) w = a == w

abbrev pub set_next : (ℕ → Window) → ℕ → Option ℕ → ℕ → Window
set_next f w p = update f w (record (f w) { next = p })

-- `if (prevwin) prevwin->next = win->next;`
abbrev pub unlink : Option ℕ → ℕ → (ℕ → Window) → ℕ → Window
unlink none win f = f
unlink (some prevwin) win f = set_next f prevwin (f win).next

unfoldable pub validwin : ℕ → Windows → Bool
validwin win s = ltb win s.numwindows

abbrev pub call : Call → Windows → Windows
call c s = record s { log = s.log ++ (c ∷ []) }

-- The part of WindowTop behind the search: unlink the window and put it at the front.
unfoldable pub to_front : Option ℕ → ℕ → Windows → Windows
to_front prevwin win s = record s {
  allwindows = set_next (unlink prevwin win s.allwindows) win s.wintopmost;
  wintopmost = some win;
}

-- `while (awin)`; each round goes one window down, so that a list of all windows ends in time.
unfoldable pub find_window : ℕ → Option ℕ → Option ℕ → ℕ → Windows → Option Windows
unfolding to_front
find_window zero prevwin awin win s = none
find_window (suc rounds) prevwin none win s = some s
find_window (suc rounds) prevwin (some a) win s =
    let rest = find_window rounds (some a) (s.allwindows a).next win s in
    if a == win then some (to_front prevwin win s) else rest

abbrev pub make_dirty : ℕ → Windows → Windows
make_dirty win s = record s {
  allwindows = update s.allwindows win (record (s.allwindows win) {
    dirty = bit_or (s.allwindows win).dirty dirtyframe;
    dirtylines = alldirty;
  });
}

abbrev pub blur : Option ℕ → Windows → Windows
blur none s = s
blur (some w) s = call (vt_blur w) s

-- The answer is whether the window is valid; the source answers 0 or -1.
unfoldable pub window_top : ℕ → Windows → Option (Bool × Windows)
unfolding validwin find_window
window_top win s =
    let clip = λ (s' : Windows). call (set_clip (s'.allwindows win).windowrect) s' in
    if not (validwin win s)
    then some (false, s)
    else if is_ptr s.wintopmost win
    then some (true, clip s)
    else (do
      let s1 = blur s.wintopmost s
      s2 ← find_window (s.numwindows + 1) none s1.wintopmost win s1
      some (true, clip (make_dirty win (call (vt_focus win) s2))))
