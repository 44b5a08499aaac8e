-- ===== src/Nfsd/Pool/Paths.antt =====
-- Paths through the pool: what encodepath stores, decodepath gives back.
use tek.Base.{
  ℕ, zero, suc, ◌+◌, ◌-◌, ◌≤◌, ◌<◌, ◌≡◌, ◌≢◌, refl, sym, ap, ◌∙◌, true, &&-left, &&-right, some,
  List, [], ◌∷◌, ◌++◌, append-nil, ltb, leb, le→leb, lt→ltb, ◌==◌, ==_iff, length, length-append,
  get_elem?, arith, Bool-cases, Option-cases, inl, inr,
}
use tek.Nfsd.Pool.{
  Str, Pool, Cache, unset, allocated, same, used, find, room, append, entered, add_subpath,
  short_end,
}

same-eq : (s t : Str) → same s t ≡ true → s ≡ t
unfolding same
same-eq [] [] h = refl
same-eq [] (b ∷ t) h = cc
same-eq (a ∷ s) [] h = cc
same-eq (a ∷ s) (b ∷ t) h =
    let first : a ≡ b = (==_iff a b).0 (&&-left (a == b) (same s t) h) in
    rw (first, same-eq s t (&&-right (a == b) (same s t) h)) refl

find-some :
    (path : Str) (ss : List Str) (n i : ℕ)
    → find path ss n ≡ some i
    → (k : ℕ) × (i ≡ n + k) × (get_elem? ss k ≡ some path)
unfolding find
find-some path [] n i h = cc
find-some path (s ∷ ss) n i h = elim (Bool-cases (same path s)) [
  | inl e ↦
      (let h' : some n ≡ some i = (rw e at h) in
        (0, (let e' : n ≡ i = cc in omega arith), ap some (sym (same-eq path s e))))
  | inr e ↦
      (let (k, at_k, found) = find-some path ss (n + 1) i (rw e at h) in
        (suc k, omega arith, found))
]

pub get_elem?-left :
    (xs ys : List Str) (i : ℕ) (x : Str) → get_elem? xs i ≡ some x → get_elem? (xs ++ ys) i ≡ some x
get_elem?-left [] ys i x h = cc
get_elem?-left (y ∷ xs) ys zero x h = h
get_elem?-left (y ∷ xs) ys (suc i) x h = get_elem?-left xs ys i x h

get_elem?-last : (xs : List Str) (x : Str) → get_elem? (xs ++ (x ∷ [])) (length xs) ≡ some x
get_elem?-last [] x = refl
get_elem?-last (y ∷ xs) x = get_elem?-last xs x

used-append : (xs : List Str) (x : Str) → used (xs ++ (x ∷ [])) ≡ used xs + (length x + 1)
unfolding used
used-append [] x = omega arith
used-append (y ∷ xs) x = omega (arith, used-append xs x)

-- The strings of a cache, once its blocks are there.
abbrev pub opened : Cache → List Str
opened unset = [] ∷ []
opened (allocated pool) = pool.strings

-- The empty string comes first, and both blocks hold what they should and are not below their
-- first sizes.
abbrev pub IsSound : Pool → Type 0
IsSound pool =
    (get_elem? pool.strings 0 ≡ some [])
    × (used pool.strings ≤ pool.stringcachelen)
    × (2048 ≤ pool.stringcachelen)
    × (length pool.strings ≤ pool.subpaths_len)
    × (1024 ≤ pool.subpaths_len)

abbrev pub IsValid : Cache → Type 0
IsValid unset = Unit
IsValid (allocated pool) = IsSound pool

-- A string that is no part of a path is never looked for.
abbrev pub IsComponent : Str → Type 0
IsComponent s = (s ≢ []) × (length s < 1024)

room-fits :
    (path : Str) (cache : Cache)
    → IsValid cache
    → length path < 1024
    → IsSound (room [] path cache)
      × (used (room [] path cache).strings + (length path + 1)
          ≤ (room [] path cache).stringcachelen)
      × (length (room [] path cache).strings < (room [] path cache).subpaths_len)
      × ((room [] path cache).strings ≡ opened cache)
unfolding room used
room-fits path unset v h =
    ((refl, omega arith, omega arith, omega arith, omega arith), omega arith, omega arith, refl)
room-fits path (allocated pool) (e, a, b, c, d) h =
    ((e, ground arith, ground arith, ground arith, ground arith), ground arith, ground arith, refl)

-- The pool behind a call: a valid one that goes on the strings before, with at most n more.
abbrev pub Grown : ℕ → Cache → Cache → Type 0
Grown n before after =
    IsValid after × ((ext : List Str) × (opened after ≡ opened before ++ ext) × (length ext ≤ n))

added :
    (path : Str) (p : Pool)
    → IsSound p
    → length path < 1024
    → used p.strings + (length path + 1) ≤ p.stringcachelen
    → length p.strings < p.subpaths_len
    → length p.strings < short_end
    → (p' : Pool) × (append path p ≡ some p') × IsSound p' × (p'.strings ≡ p.strings ++ (path ∷ []))
unfolding append
added path p (first, a, b, c, d) short fits space few =
    let bytes : leb (used p.strings + (length path + 1)) p.stringcachelen ≡ true =
      le→leb (used p.strings + (length path + 1)) p.stringcachelen fits in
    let slots : ltb (length p.strings) p.subpaths_len ≡ true =
      lt→ltb (length p.strings) p.subpaths_len space in
    (
      record p { strings = p.strings ++ (path ∷ []) },
      (rw (bytes, slots, lt→ltb (length p.strings) short_end few) refl),
      (
        get_elem?-left p.strings (path ∷ []) 0 [] first,
        omega (arith, used-append p.strings path),
        b,
        omega (arith, length-append p.strings (path ∷ [])),
        d,
      ),
      refl,
    )

not_first :
    (path : Str) (p : Pool) (i : ℕ)
    → get_elem? p.strings 0 ≡ some []
    → get_elem? p.strings i ≡ some path
    → path ≢ []
    → i ≢ 0
not_first path p i first here filled at_first =
    let both : some path ≡ some [] = sym here ∙ ap (get_elem? p.strings) at_first ∙ first in
    filled cc

-- The number that add_subpath answers stands for the component, and is not 0.
pub add_subpath-some :
    (path : Str) (cache : Cache)
    → IsValid cache
    → IsComponent path
    → length (opened cache) < short_end
    → (i : ℕ) × (pool : Pool) × (add_subpath [] path cache ≡ some (i, pool))
      × Grown 1 cache (allocated pool)
      × (get_elem? pool.strings i ≡ some path)
      × (i ≢ 0)
unfolding add_subpath entered
add_subpath-some path cache v (filled, short) few =
    let p : Pool = room [] path cache in
    let (sound, fits, space, same_strings) = room-fits path cache v short in
    elim (Option-cases (find path p.strings 0)) [
      | inr (i, e) ↦
          (let (k, at_k, found) = find-some path p.strings 0 i e in
            let here : get_elem? p.strings i ≡ some path =
              (let ik : k ≡ i = omega arith in ap (get_elem? p.strings) (sym ik) ∙ found) in
            (
              i,
              p,
              ap (entered path p) e,
              (sound, ([], same_strings ∙ sym (append-nil (opened cache)), omega arith)),
              here,
              not_first path p i (sound.0) here filled,
            ))
      | inl e ↦
          (let (p', made, sound', strings') =
              added path p sound short fits space (omega (arith, ap length same_strings, few)) in
            let last : length p'.strings - 1 ≡ length p.strings =
              omega (arith, ap length strings', length-append p.strings (path ∷ [])) in
            let here : get_elem? p'.strings (length p'.strings - 1) ≡ some path =
              ap (λ ss. get_elem? ss (length p'.strings - 1)) strings'
              ∙ ap (get_elem? (p.strings ++ (path ∷ []))) last
              ∙ get_elem?-last p.strings path in
            (
              length p'.strings - 1,
              p',
              ap (entered path p) e ∙ (rw made refl),
              (
                sound',
                (path ∷ [], strings' ∙ ap (λ ss. ss ++ (path ∷ [])) same_strings, omega arith),
              ),
              here,
              not_first path p' (length p'.strings - 1) (sound'.0) here filled,
            ))
    ]
