-- ===== src/Nfsd/Mounts.antt =====
-- The table of mounts of tek/daemons/nfsd.c: make_fsid enters a file handle and
-- release_filehandle takes one out. `mount_array` has 8 places and the path of a handle 10;
-- `none` is an access behind an array.
use Prim.Native.Nat.{bit_xor}
use tek.Base.{
  ℕ, zero, suc, ◌+◌, ◌-◌, ◌*◌, ◌/◌, ◌%◌, ◌^◌, Bool, true, false, ◌&&◌, Option, none, some, ltb,
  ◌==◌, if◌then◌else◌, ◌>>=◌, guarded,
}
pub mod Table

pub record Filehandle : Type 0 where
  pub len : ℕ
  pub inode : ℕ
  pub dev : ℕ
  pub fsid : ℕ
  pub pathtokens : ℕ → ℕ

pub record Mounts : Type 0 where
  pub mount_array : ℕ → Filehandle
  pub mount_count : ℕ

abbrev pub max_mounts : ℕ
max_mounts = 8

abbrev pub max_tokens : ℕ
max_tokens = 10

abbrev pub put {ℓ} : {A : Type ℓ} → (ℕ → A) → ℕ → A → ℕ → A
put f k a j = if j == k then a else f j

-- `memcmp` of the first `n` tokens, which is zero where they are the same.
unfoldable pub same_tokens : ℕ → (ℕ → ℕ) → (ℕ → ℕ) → Bool
same_tokens zero f g = true
same_tokens (suc n) f g = same_tokens n f g && (f n == g n)

-- The loop of release_filehandle with `left` mounts to look at; `tokens` is what encodepath made of
-- the path.
unfoldable pub release_from : (ℕ → ℕ) → ℕ → ℕ → Mounts → Mounts
release_from tokens n zero mounts = mounts
release_from tokens n (suc left) mounts =
    let later = release_from tokens (n + 1) left mounts in
    if same_tokens max_tokens (mounts.mount_array n).pathtokens tokens then later else record {
      mount_array = put mounts.mount_array n (mounts.mount_array (mounts.mount_count - 1));
      mount_count = mounts.mount_count - 1;
    }

unfoldable pub release_filehandle : (ℕ → ℕ) → Mounts → Mounts
unfolding release_from
release_filehandle tokens mounts = release_from tokens 0 mounts.mount_count mounts

-- The loop of make_fsid from token `n` on, with `left` places behind it in the array: the hash and
-- the count of tokens, or `none` where the path has no end in the array.
unfoldable pub hash_tokens : (ℕ → ℕ) → ℕ → ℕ → ℕ → Option (ℕ × ℕ)
hash_tokens tokens n zero hash = none
hash_tokens tokens n (suc left) hash =
    let later = hash_tokens tokens (n + 1) left (bit_xor hash (tokens n) * 16777619 % 2 ^ 32) in
    if tokens n == 0 then some (hash, n) else later

-- The count is below 16, so that it fits the low four bits that are cleared for it. The handle is
-- stored before the count is tested.
unfoldable pub make_fsid : Filehandle → Mounts → Option (ℕ × Mounts)
make_fsid handle mounts = do
  (hash, n) ← hash_tokens handle.pathtokens 0 max_tokens 170
  stored ← guarded (ltb mounts.mount_count max_mounts) (record {
    mount_array = put mounts.mount_array mounts.mount_count handle;
    mount_count = mounts.mount_count + 1;
  })
  some (hash / 16 * 16 + n, stored)
