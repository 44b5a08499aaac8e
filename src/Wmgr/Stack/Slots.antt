-- ===== src/Wmgr/Stack/Slots.antt =====
-- WindowCreate, WindowDestroy and cleanup_window of tek/wmgr/wmgr.c. `maxw` and `line` are the size of
-- a glyph of the font; `session` is what window_session makes: a process with its two ends of a
-- pseudo terminal, or none.
use tek.Base.{
  ℕ, zero, suc, ◌+◌, ◌-◌, ◌*◌, Bool, true, false, ◌&&◌, ◌||◌, not, Option, none, some, ltb, ◌==◌,
  if◌then◌else◌, ◌>>=◌, guarded,
}
use tek.Base.Int.{ℤ, pos, negsuc, to_short, align8}
use tek.Vtemu.State.{update}
use tek.Wmgr.Rect.{Rect, rect_inset}
use tek.Wmgr.Stack.{
  WinType, winshell, winconsole, winlogin, Window, set_clip, welcome, need_login, paint, Windows,
  max_windows, dirtyframe, alldirty, is_ptr, unlink, call, window_top,
}

pub record Session : Type 0 where
  pub pid : ℕ
  pub slave : ℕ
  pub master : ℕ

abbrev pub is_console : WinType → Bool
is_console winconsole = true
is_console _ = false

abbrev pub is_login : WinType → Bool
is_login winlogin = true
is_login _ = false

abbrev pub is_shell : WinType → Bool
is_shell winshell = true
is_shell _ = false

abbrev pub rows_of : WinType → ℕ
rows_of wintype = if is_console wintype then 16 else 32

-- The rectangle of the content; the one of the window is the same with a border of 16 on each side.
unfoldable pub content_at : ℕ → ℕ → ℤ → ℤ → WinType → Rect
content_at maxw line x y wintype = record {
  x = to_short (align8 x);
  y = to_short y;
  w = to_short (pos (80 * maxw));
  h = to_short (pos (rows_of wintype * line));
}

-- The first loop of WindowDestroy: `i` rounds from `awin` on.
unfoldable pub unlink_all : ℕ → Option ℕ → Option ℕ → ℕ → (ℕ → Window) → Option (ℕ → Window)
unlink_all zero prevwin awin wid f = some f
unlink_all (suc i) prevwin none wid f = none
unlink_all (suc i) prevwin (some a) wid f =
    let f' = if a == wid then unlink prevwin a f else f in unlink_all i (some a) (f' a).next wid f'

abbrev pub any_shell : ℕ → (ℕ → Window) → Bool
any_shell zero f = false
any_shell (suc n) f = is_shell (f n).type || any_shell n f

-- "reclaim the window slot by swapping with last entry", and what is done to `wintopmost` before.
unfoldable pub redirect : ℕ → ℕ → (ℕ → Window) → ℕ → Window
redirect n last f j =
    if ltb j n && is_ptr (f j).next last then record (f j) { next = some 0 } else f j

unfoldable pub reclaim : ℕ → ℕ → Windows → Windows
unfolding redirect
reclaim wid last s =
    let top = if is_ptr s.wintopmost wid then (s.allwindows wid).next else s.wintopmost in
    record s {
      wintopmost = if is_ptr top last then some wid else top;
      allwindows = redirect s.numwindows last (update s.allwindows wid (s.allwindows last));
      numwindows = last;
    }

-- WindowDestroy up to `numwindows--`. With WINSHELL windows left, a WINLOGIN window is destroyed in a
-- loop that only a signal ends: `none`.
unfoldable pub take_out : ℕ → Windows → Option Windows
unfolding unlink_all reclaim
take_out wid s = do
  slot ← guarded (ltb wid max_windows && ltb 0 s.numwindows) wid
  f ← unlink_all s.numwindows none s.wintopmost wid s.allwindows
  let wait_for_shells = is_login (f wid).type && any_shell s.numwindows f
  guarded (not wait_for_shells) (reclaim wid (s.numwindows - 1) (record s { allwindows = f }))

-- `for(i=0; i<numwindows; i++) if (allwindows[i].pid == pid)`
unfoldable pub find_pid : ℕ → ℕ → ℕ → (ℕ → Window) → Option ℕ
find_pid zero i pid f = none
find_pid (suc left) i pid f =
    let rest = find_pid left (i + 1) pid f in if (f i).pid == pid then some i else rest

abbrev pub retop : Windows → Option (Bool × Windows)
retop s = elim s.wintopmost [ none ↦ some (false, s) | some w ↦ window_top w s ]

module _ (maxw line : ℕ) (session : Option Session) where
  abbrev pub placed : ℤ → ℤ → WinType → Window → Window
  placed x y wintype win =
      let r = content_at maxw line x y wintype in
      record win { type = wintype; contentrect = r; windowrect = rect_inset r (negsuc 15) }

  abbrev pub started : Session → Windows → Window → Window
  started p s win = record win {
    pid = p.pid;
    master = p.master;
    slave = p.slave;
    dirty = dirtyframe;
    dirtylines = alldirty;
    xon = true;
    next = s.wintopmost;
  }

  abbrev pub added : ℕ → Session → Window → Windows → Windows
  added n p win s = record s {
    allwindows = update s.allwindows n (started p s win);
    wintopmost = some n;
    numwindows = n + 1;
  }

  unfoldable pub fill_slot : ℕ → ℤ → ℤ → WinType → Windows → Option (ℕ × Windows)
  unfolding content_at
  fill_slot n x y wintype s =
      let win = placed x y wintype (s.allwindows n) in
      elim session [
        | none ↦ some (0, record s { allwindows = update s.allwindows n win })
        | some p ↦ (do
          let s1 = added n p win s
          (valid, s2) ← window_top n (if is_console wintype then s1 else call (welcome n) s1)
          some (n + 1, if is_login wintype then call (need_login n) s2 else s2))
      ]

  -- The answer is the number of windows, 0 for -1 and for -2. The new window is at the front, so that
  -- WindowTop only sets the clip.
  unfoldable pub window_create : ℤ → ℤ → WinType → Windows → Option (ℕ × Windows)
  unfolding fill_slot
  window_create x y wintype s =
      let created = (do
        n ← guarded (ltb s.numwindows max_windows) s.numwindows
        fill_slot n x y wintype s) in
      if s.closing_down then some (0, s) else created

  unfoldable pub redraw : Window → Windows → Option Windows
  redraw old s = do
    (valid, s1) ← if ltb 0 s.numwindows then retop s else some (false, s)
    let s2 = call (paint old.windowrect) (call (set_clip old.windowrect) s1)
    if is_login old.type
        then (do (n, s3) ← window_create (pos 64) (pos 64) winlogin s2; some s3)
        else some s2

  -- The rest of WindowDestroy; "refreshing not needed" when closing down.
  unfoldable pub refresh : Window → Windows → Option Windows
  unfolding redraw
  refresh old s = if s.closing_down then some s else redraw old s

  unfoldable pub window_destroy : ℕ → Windows → Option Windows
  unfolding take_out refresh
  window_destroy wid s = do s1 ← take_out wid s; refresh (s.allwindows wid) s1

  unfoldable pub cleanup_window : ℕ → Windows → Option Windows
  unfolding window_destroy find_pid
  cleanup_window pid s = elim (find_pid s.numwindows 0 pid s.allwindows) [
    | none ↦ some s
    | some i ↦ window_destroy i s
  ]
