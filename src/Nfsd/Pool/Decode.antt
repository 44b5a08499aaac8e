-- ===== src/Nfsd/Pool/Decode.antt =====
-- encodepath and then decodepath, from any state of the pool.
use tek.Base.{
  ℕ, zero, suc, ◌+◌, ◌≤◌, ◌<◌, ◌≡◌, ◌≢◌, refl, sym, ap, ◌∙◌, false, none, some, List, [], ◌∷◌, ◌++◌,
  append_assoc, append-nil, lt→ltb, ◌==◌, length, length-append, get_elem?, All, >>=-eq-some, arith,
  Bool-cases, inl, inr,
}
use tek.Nfsd.Pool.{
  Str, Pool, Cache, unset, allocated, add_subpath, slash, nonempty, tokens, encode_tokens,
  working_size, encodepath, decode_tokens, decodepath, short_end,
}
use tek.Nfsd.Pool.Paths.{
  opened, IsValid, IsSound, IsComponent, Grown, add_subpath-some, get_elem?-left,
}

-- A path with each of the components behind a slash.
abbrev pub render : List Str → Str
render [] = []
render (t ∷ ts) = slash ∷ (t ++ render ts)

-- The components stored in a pool decode to the path made of them.
encode_tokens-some :
    (ts : List Str) (left : ℕ) (cache : Cache)
    → IsValid cache
    → All IsComponent ts
    → length ts ≤ left
    → length (opened cache) + length ts ≤ short_end
    → (encoded : List ℕ) × (after : Cache) × (encode_tokens [] ts left cache
        ≡ some (encoded, after))
      × Grown (length ts) cache after
      × (decode_tokens (opened after) (encoded ++ (0 ∷ [])) ≡ some (render ts))
      × (length encoded ≡ length ts)
      × All (λ i. i ≢ 0) encoded
unfolding encode_tokens decode_tokens
encode_tokens-some [] left cache v ok h few =
    ([], cache, refl, (v, ([], sym (append-nil (opened cache)), omega arith)), refl, refl, tt)
encode_tokens-some (t ∷ ts) zero cache v ok h few = absurd (omega arith)
encode_tokens-some (t ∷ ts) (suc left) cache v ok h few =
    let (i, pool, stored, (v', (ext, e, le)), here, more) =
      add_subpath-some t cache v ok.0 (omega arith) in
    let count : length pool.strings ≡ length (opened cache) + length ext =
      ap length e ∙ length-append (opened cache) ext in
    let (rest, after, encoded, (v'', (ext', e', le')), decoded, count', nonzero) =
      encode_tokens-some ts left (allocated pool) v' ok.1 (omega arith)
        (omega (arith, count, le)) in
    let still : get_elem? (opened after) i ≡ some t =
      ap (λ ss. get_elem? ss i) e' ∙ get_elem?-left pool.strings ext' i t here in
    let not_end : (i == 0) ≡ false = ground (arith, more) in
    (
      i ∷ rest,
      after,
      (rw (stored, encoded) refl),
      (
        v'',
        (
          ext ++ ext',
          e' ∙ ap (λ ss. ss ++ ext') e ∙ append_assoc (opened cache) ext ext',
          omega (arith, length-append ext ext', le, le'),
        ),
      ),
      (rw (not_end, still, decoded) refl),
      ap suc count',
      (more, nonzero),
    )

nonempty-IsComponent :
    (piece : Str) (ts : List Str)
    → length piece < 1024
    → All IsComponent ts
    → All IsComponent (nonempty piece ts)
nonempty-IsComponent [] ts h ok = ok
nonempty-IsComponent (c ∷ cs) ts h ok = (((λ e. cc), h), ok)

tokens-IsComponent :
    (path piece : Str) → length piece + length path < 1024 → All IsComponent (tokens piece path)
unfolding tokens
tokens-IsComponent [] piece h = nonempty-IsComponent piece [] (omega arith) tt
tokens-IsComponent (c ∷ path) piece h = elim (Bool-cases (c == slash)) [
  | inl e ↦ rw e (
      nonempty-IsComponent piece (tokens [] path) (omega arith)
        (tokens-IsComponent path [] (omega arith)))
  | inr e ↦
      rw e
        (tokens-IsComponent path (piece ++ (c ∷ [])) (omega (arith, length-append piece (c ∷ []))))
]

decode_unset :
    (encoded : List ℕ) (path : Str) → decode_tokens ([] ∷ []) encoded ≡ some path → [] ≡ path
unfolding decode_tokens
decode_unset [] path h = cc
decode_unset (zero ∷ rest) path h = cc
decode_unset (suc i ∷ rest) path h =
    let more : (suc i == 0) ≡ false = ground arith in
    let h' : none ≡ some path = (rw more at h) in cc

-- The tokens of a path in the cache that it was encoded into.
decode_after :
    (path : Str) (encoded : List ℕ) (after : Cache)
    → decode_tokens (opened after) encoded ≡ some path
    → decodepath encoded after ≡ some path
unfolding decodepath
decode_after path encoded unset h = ap some (decode_unset encoded path h)
decode_after path encoded (allocated pool) h = h

-- The tokens of a path, which are as many as its components and are not zero.
pub encodepath-tokens :
    (filepath : Str) (places : ℕ) (cache : Cache)
    → IsValid cache
    → length filepath < working_size
    → length (tokens [] filepath) ≤ places
    → length (opened cache) + length (tokens [] filepath) ≤ short_end
    → (encoded : List ℕ) × (after : Cache) × (encodepath [] filepath places cache
        ≡ some (encoded, after))
      × Grown (length (tokens [] filepath)) cache after
      × (decodepath (encoded ++ (0 ∷ [])) after ≡ some (render (tokens [] filepath)))
      × (length encoded ≡ length (tokens [] filepath))
      × All (λ i. i ≢ 0) encoded
unfolding encodepath
encodepath-tokens filepath places cache v short fits few =
    let (encoded, after, made, grown, decoded, count, nonzero) =
      encode_tokens-some (tokens [] filepath) places cache v
        (tokens-IsComponent filepath [] (omega arith)) fits few in
    (
      encoded,
      after,
      (rw (lt→ltb (length filepath) working_size short, made) refl),
      grown,
      decode_after (render (tokens [] filepath)) (encoded ++ (0 ∷ [])) after decoded,
      count,
      nonzero,
    )

-- From any valid pool, where a new block of strings begins with a NUL, a path of less than 1024
-- bytes with no more components than the caller has places, and with room for them below 2^15 strings, is encoded without an access behind an
-- array, the pool stays valid and keeps its strings in their places, and the tokens with a 0 behind
-- them decode to the components of the path, each behind one slash.
pub decodepath-encodepath :
    (filepath : Str) (places : ℕ) (cache : Cache)
    → IsValid cache
    → length filepath < working_size
    → length (tokens [] filepath) ≤ places
    → length (opened cache) + length (tokens [] filepath) ≤ short_end
    → (encoded : List ℕ) × (after : Cache) × (encodepath [] filepath places cache
        ≡ some (encoded, after))
      × Grown (length (tokens [] filepath)) cache after
      × (decodepath (encoded ++ (0 ∷ [])) after ≡ some (render (tokens [] filepath)))
decodepath-encodepath filepath places cache v short fits few =
    let (encoded, after, made, grown, decoded, count, nonzero) =
      encodepath-tokens filepath places cache v short fits few in
    (encoded, after, made, grown, decoded)

-- A path that decodes in a pool decodes to the same in every later pool.
decode_tokens-append :
    (strings ext : List Str) (encoded : List ℕ) (path : Str)
    → decode_tokens strings encoded ≡ some path
    → decode_tokens (strings ++ ext) encoded ≡ some path
unfolding decode_tokens
decode_tokens-append strings ext [] path h = cc
decode_tokens-append strings ext (i ∷ rest) path h = elim (Bool-cases (i == 0)) [
  | inl e ↦ rw e (rw e at h)
  | inr e ↦
      (let (s, found, later) = >>=-eq-some (get_elem? strings i) _ (rw e at h) in
        let (tail, decoded, joined) = >>=-eq-some (decode_tokens strings rest) _ later in
        rw
          (
            e,
            get_elem?-left strings ext i s found,
            decode_tokens-append strings ext rest tail decoded,
          )
          joined)
]

-- In a sound pool with less than 2^15 strings, another component is entered or found without an
-- access behind an array, and a path that decodes before decodes to the same after.
pub decodepath-add_subpath :
    (encoded : List ℕ) (component path : Str) (pool : Pool)
    → IsSound pool
    → IsComponent component
    → length pool.strings < short_end
    → decodepath encoded (allocated pool) ≡ some path
    → (i : ℕ) × (after : Pool) × (add_subpath [] component (allocated pool) ≡ some (i, after))
      × (decodepath encoded (allocated after) ≡ some path)
unfolding decodepath
decodepath-add_subpath encoded component path pool v ok few h =
    let (i, pool', stored, (_, (ext, e, _)), _, _) =
      add_subpath-some component (allocated pool) v ok few in
    (
      i,
      pool',
      stored,
      ap (λ ss. decode_tokens ss encoded) e ∙ decode_tokens-append pool.strings ext encoded path h,
    )
