-- ===== src/Tar/Header/Modes.antt =====
-- The permissions that are stored in a header and listed from it.
use tek.Base.{ℕ, ◌+◌, ◌*◌, ◌/◌, ◌%◌, ◌<◌, ◌≡◌, refl, ap, ◌∙◌, true, ltb, ltb→lt, lt→ltb, arith}
use tek.Base.Exhaust.{all_below-holds, agree_below}
use tek.Tar.Header.{tarperm_of, tomodes_mode, getdir_mode}

tarperm-bound : (p : ℕ) → p < 256 → tarperm_of p < 4096
unfolding tarperm_of
tarperm-bound p h =
    ltb→lt (tarperm_of p) 4096 (all_below-holds 256 (λ q. ltb (tarperm_of q) 4096) p h refl)

getdir_mode-tarperm : (p : ℕ) → p < 256 → (getdir_mode (tarperm_of p * 256)).1 ≡ p % 128
unfolding getdir_mode tarperm_of
getdir_mode-tarperm p h =
    agree_below 256 (λ q. (getdir_mode (tarperm_of q * 256)).1) (λ q. q % 128) p h refl

getdir_mode-low : (i : ℕ) → (getdir_mode i).0 ≡ i % 256
unfolding getdir_mode
getdir_mode-low i = refl

-- The permissions are read from the bits above the eight lowest.
getdir_mode_cong : (i j : ℕ) → i / 256 ≡ j / 256 → (getdir_mode i).1 ≡ (getdir_mode j).1
unfolding getdir_mode
getdir_mode_cong i j e = rw e refl

getdir_mode-number :
    (i t m p : ℕ)
    → m < 128
    → i ≡ t * 256 + m
    → (getdir_mode (t * 256)).1 ≡ p
    → getdir_mode i ≡ (m, p)
getdir_mode-number i t m p hm e perms =
    let low : (getdir_mode i).0 ≡ m = getdir_mode-low i ∙ omega (arith, e, hm) in
    let high : (getdir_mode i).1 ≡ p =
      getdir_mode_cong i (t * 256) (omega (arith, e, hm)) ∙ perms in
    ap (λ a. (a, (getdir_mode i).1)) low ∙ ap (λ a. (m, a)) high

tomodes_mode_lem :
    (m p : ℕ) → m < 128 → tarperm_of p < 4096 → tomodes_mode m p ≡ tarperm_of p * 256 + m
unfolding tomodes_mode
tomodes_mode_lem m p hm bound =
    let positive : ltb m 128 ≡ true = lt→ltb m 128 hm in rw positive (omega (arith, bound, hm))

-- The mode and the permissions that a header is made with are read from it, but for the highest bit
-- of the permissions, which has no meaning. A mode has its sign bit clear.
pub getdir_mode-tomodes_mode :
    (st_mode st_perm : ℕ)
    → st_mode < 128
    → st_perm < 256
    → getdir_mode (tomodes_mode st_mode st_perm) ≡ (st_mode, st_perm % 128)
getdir_mode-tomodes_mode st_mode st_perm hm hp =
    let bound : tarperm_of st_perm < 4096 = tarperm-bound st_perm hp in
    getdir_mode-number (tomodes_mode st_mode st_perm) (tarperm_of st_perm) st_mode (st_perm % 128)
      hm (tomodes_mode_lem st_mode st_perm hm bound) (getdir_mode-tarperm st_perm hp)
