-- ===== src/Nfsd/Mounts/Table.antt =====
-- What make_fsid and release_filehandle do to the table of mounts.
use Prim.Native.Nat.{bit_xor}
use tek.Base.{
  ℕ, zero, suc, ◌+◌, ◌-◌, ◌*◌, ◌/◌, ◌%◌, ◌^◌, ◌<◌, ◌≤◌, ◌≡◌, ◌≢◌, refl, ap, ◌∙◌, true, false, none,
  some, ltb, ◌==◌, arith, Option-cases, inl, inr, lt→ltb,
}
use tek.Nfsd.Mounts.{
  Filehandle, Mounts, max_mounts, max_tokens, put, same_tokens, release_from, release_filehandle,
  hash_tokens, make_fsid,
}

-- The tokens from `n` on are not zero for `k` places, and zero behind them.
abbrev pub PathEnds : (ℕ → ℕ) → ℕ → ℕ → Type 0
PathEnds tokens n zero = tokens n ≡ 0
PathEnds tokens n (suc k) = (tokens n ≢ 0) × PathEnds tokens (n + 1) k

hash_tokens-some :
    (k left n hash : ℕ) (tokens : ℕ → ℕ)
    → PathEnds tokens n k
    → k < left
    → (end_hash : ℕ) × (hash_tokens tokens n left hash ≡ some (end_hash, n + k))
unfolding hash_tokens
hash_tokens-some k zero n hash tokens h less = absurd (omega arith)
hash_tokens-some zero (suc left) n hash tokens h less =
    (hash, rw h (ap (λ t. some (hash, t)) (omega arith)))
hash_tokens-some (suc k) (suc left) n hash tokens h less =
    let (end_hash, e) =
      hash_tokens-some k left (n + 1) (bit_xor hash (tokens n) * 16777619 % 2 ^ 32) tokens h.1
        (omega arith) in
    let more : (tokens n == 0) ≡ false = ground (arith, h.0) in
    (end_hash, rw (more, e) (ap (λ t. some (end_hash, t)) (omega arith)))

put_self : (f : ℕ → Filehandle) (n : ℕ) (a : Filehandle) → put f n a n ≡ a
put_self f n a = ground arith

-- A handle whose path has k tokens, k below 10, is entered in a table that is not full: behind the
-- mounts that stand there, with an identifier whose low four bits are k.
pub make_fsid_entered :
    (handle : Filehandle) (mounts : Mounts) (k : ℕ)
    → PathEnds handle.pathtokens 0 k
    → k < max_tokens
    → mounts.mount_count < max_mounts
    → (result : ℕ) × (after : Mounts) × (make_fsid handle mounts ≡ some (result, after))
      × (result % 16 ≡ k)
      × (after.mount_count ≡ mounts.mount_count + 1)
      × (after.mount_array mounts.mount_count ≡ handle)
unfolding make_fsid
make_fsid_entered handle mounts k h short room =
    let (hash, e) = hash_tokens-some k max_tokens 0 170 handle.pathtokens h short in
    (
      hash / 16 * 16 + (0 + k),
      record {
        mount_array = put mounts.mount_array mounts.mount_count handle;
        mount_count = mounts.mount_count + 1;
      },
      (rw (e, lt→ltb mounts.mount_count max_mounts room) refl),
      omega arith,
      refl,
      put_self mounts.mount_array mounts.mount_count handle,
    )

-- A table with 8 mounts is overrun by the next handle, whatever its path.
pub make_fsid_full :
    (handle : Filehandle) (mounts : Mounts)
    → max_mounts ≤ mounts.mount_count
    → make_fsid handle mounts ≡ none
unfolding make_fsid
make_fsid_full handle mounts full =
    let no_room : ltb mounts.mount_count max_mounts ≡ false = ground arith in
    elim (Option-cases (hash_tokens handle.pathtokens 0 max_tokens 170)) [
      | inl e ↦ rw e refl
      | inr (_, e) ↦ rw (e, no_room) refl
    ]

-- The mounts from `n` on have the tokens for `k` places, and the one behind them does not.
abbrev FirstOther : (ℕ → Filehandle) → (ℕ → ℕ) → ℕ → ℕ → Type 0
FirstOther f tokens n zero = same_tokens max_tokens (f n).pathtokens tokens ≡ false
FirstOther f tokens n (suc k) =
    (same_tokens max_tokens (f n).pathtokens tokens ≡ true) × FirstOther f tokens (n + 1) k

release_from-other :
    (k left n : ℕ) (tokens : ℕ → ℕ) (mounts : Mounts)
    → FirstOther mounts.mount_array tokens n k
    → k < left
    → release_from tokens n left mounts ≡ record {
      mount_array = put mounts.mount_array (n + k) (mounts.mount_array (mounts.mount_count - 1));
      mount_count = mounts.mount_count - 1;
    }
unfolding release_from
release_from-other k zero n tokens mounts h less = absurd (omega arith)
release_from-other zero (suc left) n tokens mounts h less = rw h (
    ap
      (λ t. record {
        mount_array = put mounts.mount_array t (mounts.mount_array (mounts.mount_count - 1));
        mount_count = mounts.mount_count - 1;
      })
      (omega arith))
release_from-other (suc k) (suc left) n tokens mounts h less =
    rw (h.0, release_from-other k left (n + 1) tokens mounts h.1 (omega arith))
      (ap
        (λ t. record {
          mount_array = put mounts.mount_array t (mounts.mount_array (mounts.mount_count - 1));
          mount_count = mounts.mount_count - 1;
        })
        (omega arith))

-- The first mount whose tokens are NOT those of the path gives its place to the last mount, and the
-- table is shorter by one; the mounts before it, which have the tokens of the path, stay.
pub release_filehandle_other :
    (k : ℕ) (tokens : ℕ → ℕ) (mounts : Mounts)
    → FirstOther mounts.mount_array tokens 0 k
    → k < mounts.mount_count
    → release_filehandle tokens mounts ≡ record {
      mount_array = put mounts.mount_array k (mounts.mount_array (mounts.mount_count - 1));
      mount_count = mounts.mount_count - 1;
    }
unfolding release_filehandle
release_filehandle_other k tokens mounts h less =
    release_from-other k mounts.mount_count 0 tokens mounts h less
    ∙ ap
        (λ t. record {
          mount_array = put mounts.mount_array t (mounts.mount_array (mounts.mount_count - 1));
          mount_count = mounts.mount_count - 1;
        })
        (omega arith)
