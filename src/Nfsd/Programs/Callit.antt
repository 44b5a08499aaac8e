-- ===== src/Nfsd/Programs/Callit.antt =====
-- The request that the portmapper of tek/daemons/nfsd.c makes of a call-it.
use tek.Base.{
  ℕ, zero, suc, ◌+◌, ◌-◌, ◌≤◌, ◌<◌, ◌≡◌, ◌≢◌, ◌⊎◌, refl, sym, ap, ◌∙◌, true, false, ◌&&◌, Option,
  none, some, List, [], ◌∷◌, ◌++◌, All, length, ltb, leb, lt→ltb, ◌==◌, if◌then◌else◌, ==_iff,
  Bool-cases, inl, inr, arith,
}
use tek.Nfsd.Message.{transfer_size, store, network}
use tek.Nfsd.Message.Bytes.{Holds, Holds-right, IsWord, store-Holds, store_below, words}
use tek.Nfsd.Message.RoundTrip.{get_uint-Holds}
use tek.Nfsd.Programs.{
  Service, mount_service, lock_service, nfs_service, nfs3_service, dispatch, called, roll_back,
  callit,
}

abbrev rolled : ℕ → ℕ → ℕ → (ℕ → ℕ) → ℕ → ℕ
rolled n lo d f j = if leb lo j && ltb j (lo + n) then f (j + d) else f j

rolled_step :
    (n lo d j : ℕ) (f : ℕ → ℕ)
    → 0 < d
    → rolled n (lo + 1) d (λ i. if i == lo then f (lo + d) else f i) j ≡ rolled (suc n) lo d f j
rolled_step n lo d j f pos_d =
    let above = leb (lo + 1) j && ltb j (lo + 1 + n) in
    let here = leb lo j && ltb j (lo + suc n) in
    elim (Bool-cases (j == lo)) [
      | inl e ↦
          let at : j ≡ lo = (==_iff j lo).0 e in
          let a : above ≡ false = ground (arith, at) in
          let b : here ≡ true = ground (arith, at) in rw (a, e, b) (ap (λ i. f (i + d)) (sym at))
      | inr e ↦
          let same : above ≡ here = ground (arith, e) in
          elim (Bool-cases here) [
            | inl k ↦
                let past : (j + d == lo) ≡ false = ground (arith, k, pos_d) in
                rw (same, k, past) refl
            | inr k ↦ rw (same, k, e) refl
          ]
    ]

nothing : (lo d j : ℕ) (f : ℕ → ℕ) → f j ≡ rolled 0 lo d f j
nothing lo d j f = let off : leb lo j && ltb j (lo + 0) ≡ false = ground arith in rw off refl

-- The copy goes upwards, so that no byte is read behind its change.
roll_back-rolled :
    (n lo d : ℕ) (f : ℕ → ℕ)
    → 0 < d
    → lo + d + n ≤ transfer_size
    → (g : ℕ → ℕ) × (roll_back n lo (lo + d) f ≡ some g) × ((j : ℕ) → g j ≡ rolled n lo d f j)
unfolding roll_back
roll_back-rolled zero lo d f pos_d fits = (f, refl, λ j. nothing lo d j f)
roll_back-rolled (suc n) lo d f pos_d fits =
    let f' : ℕ → ℕ = λ i. if i == lo then f (lo + d) else f i in
    let (g, made, at) = roll_back-rolled n (lo + 1) d f' pos_d (omega (arith, fits)) in
    let low : ltb (lo + d) transfer_size ≡ true =
      lt→ltb (lo + d) transfer_size (omega (arith, fits)) in
    let next : lo + d + 1 ≡ lo + 1 + d = omega arith in
    (g, rw (low, next) made, λ j. at j ∙ rolled_step n lo d j f pos_d)

Holds-rolled :
    (args : List ℕ) (n lo d k : ℕ) (f g : ℕ → ℕ)
    → ((j : ℕ) → g j ≡ rolled n lo d f j)
    → lo ≤ k
    → k + length args ≤ lo + n
    → Holds f (k + d) args
    → Holds g k args
Holds-rolled [] n lo d k f g at low fits h = tt
Holds-rolled (a ∷ args) n lo d k f g at low fits h =
    let inside : leb lo k && ltb k (lo + n) ≡ true = ground (arith, low, fits) in
    let here : rolled n lo d f k ≡ f (k + d) = rw inside refl in
    let next : k + 1 + d ≡ k + d + 1 = omega arith in
    (
      at k ∙ (here ∙ h.0),
      Holds-rolled args n lo d (k + 1) f g at (omega (arith, low)) (omega (arith, fits))
          (rw next h.1),
    )

unchanged :
    (args : List ℕ) (i k v : ℕ) (f : ℕ → ℕ)
    → i < k
    → Holds f k args
    → Holds (λ j. if j == i then v else f j) k args
unchanged [] i k v f low h = tt
unchanged (a ∷ args) i k v f low h =
    let past : (k == i) ≡ false = ground (arith, low) in
    (rw past h.0, unchanged args i (k + 1) v f (omega (arith, low)) h.1)

-- Bytes below are stored.
Holds-store_above :
    (args : List ℕ) (vs : List ℕ) (i k : ℕ) (f : ℕ → ℕ)
    → i + length vs ≤ k
    → Holds f k args
    → Holds (store f i vs) k args
Holds-store_above args [] i k f low h = h
Holds-store_above args (v ∷ vs) i k f low h =
    Holds-store_above args vs (i + 1) k (λ j. if j == i then v else f j) (omega (arith, low))
      (unchanged args i k v f (omega (arith, low)) h)

-- Which of its functions the server has for a program and a version, by the numbers that
-- programs are registered under.
abbrev pub Serves : Option Service → ℕ → ℕ → Type 0
Serves (some mount_service) prog vers = prog ≡ 100005
Serves (some lock_service) prog vers = prog ≡ 100024
Serves (some nfs_service) prog vers = (prog ≡ 100003) × (vers ≡ 2)
Serves (some nfs3_service) prog vers = (prog ≡ 100003) × (vers ≡ 3)
Serves none prog vers =
    (prog ≢ 100005) × (prog ≢ 100024) × ((prog ≢ 100003) ⊎ ((vers ≢ 2) × (vers ≢ 3)))

dispatch-Serves :
    (target : Option Service) (prog vers : ℕ)
    → Serves target prog vers
    → dispatch prog vers ≡ target
unfolding dispatch
dispatch-Serves (some mount_service) prog vers h = ground (arith, h)
dispatch-Serves (some lock_service) prog vers h = ground (arith, h)
dispatch-Serves (some nfs_service) prog vers h = ground (arith, h.0, h.1)
dispatch-Serves (some nfs3_service) prog vers h = ground (arith, h.0, h.1)
dispatch-Serves none prog vers (a, b, inl c) = ground (arith, a, b, c)
dispatch-Serves none prog vers (a, b, inr c) = ground (arith, a, b, c.0, c.1)

module _ (bp_machinename bp_addr : List ℕ) (stack : ℕ → ℕ) where
  -- In the build for the 4404 a call-it that names a program, a version and a procedure goes to the
  -- function for program 100005 (mount), 100024 (lock), 100003 version 2 or 100003 version 3, and
  -- to no function for any other program or version. The request that goes there has the procedure
  -- in its header, the rest of the header as it was, and the arguments, their length first, where
  -- the three words were. The message ends with the arguments, and the 12 bytes behind it, which
  -- are read, are in the buffer.
  pub callit-moved :
      (target : Option Service) (prog vers proc k len : ℕ) (args : List ℕ) (f : ℕ → ℕ)
      → Serves target prog vers
      → All IsWord (prog ∷ vers ∷ proc ∷ [])
      → Holds f k (words (prog ∷ vers ∷ proc ∷ []) ++ args)
      → 24 ≤ k
      → len ≡ k + 12 + length args
      → len + 12 ≤ transfer_size
      → (g : ℕ → ℕ) × (callit bp_machinename bp_addr stack len (record { buffer = f; crp = k })
          ≡ some (called target (record { buffer = g; crp = 24 })))
        × Holds g 20 (network proc)
        × Holds g k args
        × ((j : ℕ) → j < 20 → g j ≡ f j)
  unfolding callit
  callit-moved target prog vers proc k len args f serves w h low all fits =
      let t1 : List ℕ = words (vers ∷ proc ∷ []) ++ args in
      let t2 : List ℕ = words (proc ∷ []) ++ args in
      let h1 : Holds f (k + 4) t1 = Holds-right (network prog) t1 f k h in
      let h2 : Holds f (k + 4 + 4) t2 = Holds-right (network vers) t2 f (k + 4) h1 in
      let h3 : Holds f (k + 12) args = Holds-right (words (prog ∷ vers ∷ proc ∷ [])) args f k h in
      let (g, made, at) =
        roll_back-rolled (len - k) k 12 f (omega arith) (omega (arith, fits, all)) in
      let end : k + 4 + 4 + 4 ≡ k + 12 = omega arith in
      let moved : Holds g k args =
        Holds-rolled args (len - k) k 12 k f g at (omega arith) (omega (arith, all)) h3 in
      (
        store g 20 (network proc),
        rw
            (
              get_uint-Holds prog t1 f k w.0 h (omega (arith, fits, all)),
              get_uint-Holds vers t2 f (k + 4) w.1.0 h1 (omega (arith, fits, all)),
              get_uint-Holds proc args f (k + 4 + 4) w.1.1.0 h2 (omega (arith, fits, all)),
              end,
              made,
              dispatch-Serves target prog vers serves,
            )
            refl,
        store-Holds (network proc) g 20,
        Holds-store_above args (network proc) 20 k g (omega (arith, low)) moved,
        λ j below.
            store_below (network proc) g 20 j below
            ∙ (at j
                ∙ (let off : leb k j && ltb j (k + (len - k)) ≡ false =
                      ground (arith, low, below) in
                    rw off refl)),
      )
