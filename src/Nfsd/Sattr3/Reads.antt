-- ===== src/Nfsd/Sattr3/Reads.antt =====
-- get_sattr3 of tek/daemons/nfsd.c on attributes as RFC 1813 writes them.
use tek.Base.{
  ℕ, ◌+◌, ◌-◌, ◌*◌, ◌%◌, ◌^◌, ◌≤◌, ◌≡◌, refl, Option, none, some, List, [], ◌∷◌, ◌++◌, length,
  arith,
}
use tek.Nfsd.Message.{Conn, transfer_size, network}
use tek.Nfsd.Message.Bytes.{Holds, Holds-right, IsWord, words}
use tek.Nfsd.Message.RoundTrip.{get_uint-Holds}
use tek.Nfsd.Modes.{nfsmode2host}
use tek.Nfsd.Attributes.{Stat}
use tek.Nfsd.Sattr3.{get_optional, get_size3, get_time3, or_else, get_sattr3}

-- What a reader makes of some words, wherever they stand in a message.
abbrev pub Reads {ℓ} : {A : Type ℓ} → (Conn → Option (A × Conn)) → List ℕ → A → Type ℓ
Reads get ws a =
    (f : ℕ → ℕ) (k : ℕ) (rest : List ℕ)
    → Holds f k (words ws ++ rest)
    → k + 4 * length ws ≤ transfer_size
    → get (record { buffer = f; crp = k })
      ≡ some (a, record { buffer = f; crp = k + 4 * length ws })

-- A value that may be missing, as RFC 1813 writes it.
abbrev pub optional : Option ℕ → List ℕ
optional none = 0 ∷ []
optional (some v) = 1 ∷ v ∷ []

abbrev pub size3 : Option ℕ → List ℕ
size3 none = 0 ∷ []
size3 (some v) = 1 ∷ 0 ∷ v ∷ []

-- Left as it is, the time of the server, or a time of the client in seconds and nanoseconds.
pub data Time3 : Type 0 where
  unchanged : Time3
  of_server : Time3
  of_client : ℕ → ℕ → Time3

abbrev pub time3 : Time3 → List ℕ
time3 unchanged = 0 ∷ []
time3 of_server = 1 ∷ []
time3 (of_client s n) = 2 ∷ s ∷ n ∷ []

-- The time that is stored.
abbrev pub stored_time : ℕ → Time3 → Option ℕ
stored_time now unchanged = none
stored_time now of_server = some now
stored_time now (of_client s n) = some n

abbrev pub IsOptional : Option ℕ → Type 0
IsOptional none = Unit
IsOptional (some v) = IsWord v

abbrev pub IsTime : Time3 → Type 0
IsTime unchanged = Unit
IsTime of_server = Unit
IsTime (of_client s n) = IsWord s × IsWord n

ends_at :
    {A : Type 0} (a : A) (f : ℕ → ℕ) (i j : ℕ)
    → i ≡ j
    → Path
        (Option (A × Conn))
        (some (a, record { buffer = f; crp = i }))
        (some (a, record { buffer = f; crp = j }))
ends_at a f i j e = λ t. some (a, record { buffer = f; crp = e t })

get_optional-Reads : (o : Option ℕ) → IsOptional o → Reads get_optional (optional o) o
unfolding get_optional
get_optional-Reads none w f k rest h fits =
    rw (get_uint-Holds 0 rest f k (omega arith) h (omega (arith, fits)))
      (ends_at none f (k + 4) (k + 4 * 1) (omega arith))
get_optional-Reads (some v) w f k rest h fits =
    let h1 : Holds f (k + 4) (words (v ∷ []) ++ rest) =
      Holds-right (network 1) (words (v ∷ []) ++ rest) f k h in
    rw
      (
        get_uint-Holds 1 (words (v ∷ []) ++ rest) f k (omega arith) h (omega (arith, fits)),
        get_uint-Holds v rest f (k + 4) w h1 (omega (arith, fits)),
      )
      (ends_at (some v) f (k + 4 + 4) (k + 4 * 2) (omega arith))

get_size3-Reads : (o : Option ℕ) → IsOptional o → Reads get_size3 (size3 o) o
unfolding get_size3
get_size3-Reads none w f k rest h fits =
    rw (get_uint-Holds 0 rest f k (omega arith) h (omega (arith, fits)))
      (ends_at none f (k + 4) (k + 4 * 1) (omega arith))
get_size3-Reads (some v) w f k rest h fits =
    let t1 : List ℕ = words (0 ∷ v ∷ []) ++ rest in
    let t2 : List ℕ = words (v ∷ []) ++ rest in
    let h1 : Holds f (k + 4) t1 = Holds-right (network 1) t1 f k h in
    let h2 : Holds f (k + 4 + 4) t2 = Holds-right (network 0) t2 f (k + 4) h1 in
    rw
      (
        get_uint-Holds 1 t1 f k (omega arith) h (omega (arith, fits)),
        get_uint-Holds 0 t2 f (k + 4) (omega arith) h1 (omega (arith, fits)),
        get_uint-Holds v rest f (k + 4 + 4) w h2 (omega (arith, fits)),
      )
      (ends_at (some v) f (k + 4 + 4 + 4) (k + 4 * 3) (omega arith))

get_time3-Reads :
    (now : ℕ) (t : Time3) → IsTime t → Reads (get_time3 now) (time3 t) (stored_time now t)
unfolding get_time3
get_time3-Reads now unchanged w f k rest h fits =
    rw (get_uint-Holds 0 rest f k (omega arith) h (omega (arith, fits)))
      (ends_at none f (k + 4) (k + 4 * 1) (omega arith))
get_time3-Reads now of_server w f k rest h fits =
    rw (get_uint-Holds 1 rest f k (omega arith) h (omega (arith, fits)))
      (ends_at (some now) f (k + 4) (k + 4 * 1) (omega arith))
get_time3-Reads now (of_client s n) w f k rest h fits =
    let t1 : List ℕ = words (s ∷ n ∷ []) ++ rest in
    let t2 : List ℕ = words (n ∷ []) ++ rest in
    let h1 : Holds f (k + 4) t1 = Holds-right (network 2) t1 f k h in
    let h2 : Holds f (k + 4 + 4) t2 = Holds-right (network s) t2 f (k + 4) h1 in
    rw
      (
        get_uint-Holds 2 t1 f k (omega arith) h (omega (arith, fits)),
        get_uint-Holds s t2 f (k + 4) w.0 h1 (omega (arith, fits)),
        get_uint-Holds n rest f (k + 4 + 4) w.1 h2 (omega (arith, fits)),
      )
      (ends_at (some n) f (k + 4 + 4 + 4) (k + 4 * 3) (omega arith))

length-optional : (o : Option ℕ) → length (optional o) ≤ 2
length-optional none = omega arith
length-optional (some v) = omega arith

length-size3 : (o : Option ℕ) → length (size3 o) ≤ 3
length-size3 none = omega arith
length-size3 (some v) = omega arith

length-time3 : (t : Time3) → length (time3 t) ≤ 3
length-time3 unchanged = omega arith
length-time3 of_server = omega arith
length-time3 (of_client s n) = omega arith

length-words : (vs : List ℕ) → length (words vs) ≡ 4 * length vs
length-words [] = omega arith
length-words (v ∷ vs) = omega (arith, length-words vs)

-- What stands behind some words.
behind :
    (vs : List ℕ) (rest : List ℕ) (f : ℕ → ℕ) (k : ℕ)
    → Holds f k (words vs ++ rest)
    → Holds f (k + 4 * length vs) rest
behind vs rest f k h =
    let e : k + length (words vs) ≡ k + 4 * length vs = omega (arith, length-words vs) in
    rw (← e) (Holds-right (words vs) rest f k h)

-- The attributes that a client may set, each of which may be missing, are read as they were written,
-- one after the other, with the default where one is missing; a time of the client is stored as its
-- nanoseconds, and its seconds are dropped. The reader ends behind them.
pub get_sattr3-Reads :
    (now : ℕ) (info : Stat) (mode uid gid size : Option ℕ) (atime mtime : Time3) (f : ℕ → ℕ) (k : ℕ)
    (rest : List ℕ)
    → IsOptional mode
      × (IsOptional uid × (IsOptional gid × (IsOptional size × (IsTime atime × IsTime mtime))))
    → Holds f k (
        words (optional mode)
        ++ (words (optional uid)
            ++ (words (optional gid)
                ++ (words (size3 size) ++ (words (time3 atime) ++ (words (time3 mtime) ++ rest))))))
    → k + 64 ≤ transfer_size
    → (end : ℕ) × (get_sattr3 now info (record { buffer = f; crp = k })
        ≡ some (
          record info {
            st_mode = elim mode [ none ↦ 2 ^ 16 - 1 | some m ↦ nfsmode2host m ] % 2 ^ 8;
            st_uid = or_else uid (2 ^ 32 - 1) % 2 ^ 16;
            st_size = or_else size (2 ^ 32 - 1);
            st_mtime = or_else (stored_time now mtime) info.st_mtime;
          },
          record { buffer = f; crp = end },
        ))
      × Holds f end rest
unfolding get_sattr3
get_sattr3-Reads now info mode uid gid size atime mtime f k rest w h fits =
    let t6 = words (time3 mtime) ++ rest in
    let t5 = words (time3 atime) ++ t6 in
    let t4 = words (size3 size) ++ t5 in
    let t3 = words (optional gid) ++ t4 in
    let t2 = words (optional uid) ++ t3 in
    let k2 = k + 4 * length (optional mode) in
    let k3 = k2 + 4 * length (optional uid) in
    let k4 = k3 + 4 * length (optional gid) in
    let k5 = k4 + 4 * length (size3 size) in
    let k6 = k5 + 4 * length (time3 atime) in
    let h2 : Holds f k2 t2 = behind (optional mode) t2 f k h in
    let h3 : Holds f k3 t3 = behind (optional uid) t3 f k2 h2 in
    let h4 : Holds f k4 t4 = behind (optional gid) t4 f k3 h3 in
    let h5 : Holds f k5 t5 = behind (size3 size) t5 f k4 h4 in
    let h6 : Holds f k6 t6 = behind (time3 atime) t6 f k5 h5 in
    let la = length-optional mode in
    let lb = length-optional uid in
    let lc = length-optional gid in
    let ld = length-size3 size in
    let le = length-time3 atime in
    let lf = length-time3 mtime in
    (
      k6 + 4 * length (time3 mtime),
      rw
          (
            get_optional-Reads mode w.0 f k t2 h (omega (arith, fits, la)),
            get_optional-Reads uid w.1.0 f k2 t3 h2 (omega (arith, fits, la, lb)),
            get_optional-Reads gid w.1.1.0 f k3 t4 h3 (omega (arith, fits, la, lb, lc)),
            get_size3-Reads size w.1.1.1.0 f k4 t5 h4 (omega (arith, fits, la, lb, lc, ld)),
            get_time3-Reads now atime w.1.1.1.1.0 f k5 t6 h5
                (omega (arith, fits, la, lb, lc, ld, le)),
            get_time3-Reads now mtime w.1.1.1.1.1 f k6 rest h6
                (omega (arith, fits, la, lb, lc, ld, le, lf)),
          )
          refl,
      behind (time3 mtime) rest f k6 h6,
    )
