-- ===== src/Nfsd/Sattr3.antt =====
-- The reader of attributes of version 3, get_sattr3 and get_sattrguard3 of tek/daemons/nfsd.c as built
-- for the 4404 (TEK4404, NO_GROUPS and ONLY_MTIME defined). `now` is what time() answers.
pub mod Reads
use tek.Base.{
  ℕ, zero, suc, ◌+◌, ◌-◌, ◌*◌, ◌%◌, ◌^◌, ◌≤◌, ◌<◌, ◌≡◌, ◌≢◌, refl, sym, ap, ◌∙◌, Bool, true, false,
  Option, none, some, List, [], ◌∷◌, ◌++◌, append_assoc, All, length, ◌==◌, if◌then◌else◌, ◌>>=◌,
  arith,
}
use tek.Nfsd.Message.{Conn, transfer_size, network, get_uint}
use tek.Nfsd.Message.Bytes.{Holds, Holds-right, IsWord, words}
use tek.Nfsd.Message.RoundTrip.{get_uint-Holds}
use tek.Nfsd.Modes.{nfsmode2host}
use tek.Nfsd.Attributes.{Stat}

-- `if (get_uint(request)) x = get_uint(request);`
unfoldable pub get_optional : Conn → Option (Option ℕ × Conn)
get_optional request = do
  (given, r1) ← get_uint request
  if given == 0 then some (none, r1) else (do (v, r2) ← get_uint r1; some (some v, r2))

-- The size has two words, of which the second counts.
unfoldable pub get_size3 : Conn → Option (Option ℕ × Conn)
get_size3 request = do
  (given, r1) ← get_uint request
  if given == 0
      then some (none, r1)
      else (do (high, r2) ← get_uint r1; (low, r3) ← get_uint r2; some (some low, r3))

abbrev pub set_to_server_time : ℕ
set_to_server_time = 1

abbrev pub set_to_client_time : ℕ
set_to_client_time = 2

unfoldable pub get_time3 : ℕ → Conn → Option (Option ℕ × Conn)
get_time3 now request = do
  (time_how, r1) ← get_uint request
  if time_how == set_to_server_time
      then some (some now, r1)
      else if time_how == set_to_client_time
      then (do (first, r2) ← get_uint r1; (second, r3) ← get_uint r2; some (some second, r3))
      else some (none, r1)

abbrev pub or_else : Option ℕ → ℕ → ℕ
or_else none v = v
or_else (some a) v = a

-- The time of the last access is read and dropped, with the group.
unfoldable pub get_sattr3 : ℕ → Stat → Conn → Option (Stat × Conn)
unfolding get_optional get_size3 get_time3
get_sattr3 now info request = do
  (mode, r1) ← get_optional request
  (uid, r2) ← get_optional r1
  (gid, r3) ← get_optional r2
  (size, r4) ← get_size3 r3
  (atime, r5) ← get_time3 now r4
  (mtime, r6) ← get_time3 now r5
  some (
    record info {
      st_mode = elim mode [ none ↦ 2 ^ 16 - 1 | some m ↦ nfsmode2host m ] % 2 ^ 8;
      st_uid = or_else uid (2 ^ 32 - 1) % 2 ^ 16;
      st_size = or_else size (2 ^ 32 - 1);
      st_mtime = or_else mtime info.st_mtime;
    },
    r6,
  )

unfoldable pub get_sattrguard3 : Conn → Option Conn
unfolding get_size3
get_sattrguard3 request = do (skipped, r1) ← get_size3 request; some r1
