-- ===== src/Telnet/Compact.antt =====
-- `parse` works in place: it reads at `p` and stores at `q` in one array. Here it meets a plain
-- fold over the bytes, which is what the other modules reason about.
use tek.Base.{
  ℕ, ◌+◌, ◌-◌, ◌<◌, ◌≡◌, refl, sym, ap, ◌∙◌, Option, none, some, List, [], ◌∷◌, ◌++◌, append_assoc,
  append-nil, arith, ◌>>=◌, lt→ltb, length, length-append, get_elem?, get_elem?-append_len,
  set-append_len,
}
use tek.Telnet.{Machine, Cursor, TermState, step, store, parse_loop, parse}

-- The bytes that a case stores, as a list.
abbrev pub stored : Option ℕ → List ℕ
stored none = []
stored (some c) = c ∷ []

-- The machine after the bytes, and the bytes that it let through.
unfoldable pub run : Machine → List ℕ → Machine × List ℕ
run m [] = (m, [])
run m (c ∷ cs) = let r = run (step m c).0 cs in (r.0, stored (step m c).1 ++ r.1)

snoc {ℓ} : {A : Type ℓ} (xs : List A) (x : A) → (y : A) × (ys : List A) × (xs ++ (x ∷ []) ≡ y ∷ ys)
snoc [] x = (x, [], refl)
snoc (y ∷ ys) x = (y, ys ++ (x ∷ []), refl)

-- The array is what is done, a gap of bytes read and dropped, what is to be read, and the rest.
abbrev laid : List ℕ → List ℕ → List ℕ → List ℕ → List ℕ
laid done gap todo rest = done ++ (gap ++ (todo ++ rest))

abbrev cursor : Machine → List ℕ → List ℕ → Cursor
cursor m done bytes = record { machine = m; bytes = bytes; q = length done }

abbrev Compacts : Machine × List ℕ → List ℕ → ℕ → List ℕ → Option Cursor → Type 0
Compacts r done size rest result =
    (junk : List ℕ) × (result ≡ some (cursor r.0 (done ++ r.1) ((done ++ r.1) ++ (junk ++ rest))))
    × (length r.1 + length junk ≡ size)

-- The rest of the loop from any place, which is what the induction hands on.
abbrev Rest : List ℕ → List ℕ → Type 0
Rest todo rest =
    (m : Machine) (done gap : List ℕ) (p : ℕ)
    → p ≡ length done + length gap
    → Compacts (run m todo) done (length gap + length todo) rest
        (parse_loop (length todo) p (cursor m done (laid done gap todo rest)))

laid_split :
    (done gap cs rest gs : List ℕ) (c g : ℕ)
    → gap ++ (c ∷ []) ≡ g ∷ gs
    → laid done gap (c ∷ cs) rest ≡ done ++ (g ∷ (gs ++ (cs ++ rest)))
laid_split done gap cs rest gs c g e =
    ap (λ t. done ++ t)
      (sym (append_assoc gap (c ∷ []) (cs ++ rest)) ∙ ap (λ t. t ++ (cs ++ rest)) e)

store-some :
    (m m' : Machine) (done tail : List ℕ) (g d : ℕ)
    → store (cursor m done (done ++ (g ∷ tail))) (m', some d)
      ≡ some (cursor m' (done ++ (d ∷ [])) ((done ++ (d ∷ [])) ++ tail))
store-some m m' done tail g d =
    let inside : length done < length (done ++ (g ∷ tail)) =
      omega (arith, length-append done (g ∷ tail)) in
    let moved : length done + 1 ≡ length (done ++ (d ∷ [])) =
      omega (arith, length-append done (d ∷ [])) in
    rw
      (
        lt→ltb (length done) (length (done ++ (g ∷ tail))) inside,
        set-append_len done tail g d (length done) refl,
        append_assoc,
        moved,
      )
      refl

-- One round, on what the switch answered.
round :
    (r : Machine × Option ℕ) (m : Machine) (c : ℕ) (cs done gap rest : List ℕ) (p : ℕ)
    → p ≡ length done + length gap
    → Rest cs rest
    → let t = run r.0 cs in
      Compacts
        (t.0, stored r.1 ++ t.1)
        done
        (length gap + length (c ∷ cs))
        rest
        (store (cursor m done (laid done gap (c ∷ cs) rest)) r >>= parse_loop (length cs) (p + 1))
round (m', none) m c cs done gap rest p e later =
    let (junk, returns, room) =
      later m' done (gap ++ (c ∷ [])) (p + 1) (omega (arith, length-append gap (c ∷ []))) in
    (
      junk,
      rw (append_assoc gap (c ∷ []) (cs ++ rest)) at returns,
      omega (arith, length-append gap (c ∷ [])),
    )
round (m', some d) m c cs done gap rest p e later =
    let (g, gs, split) = snoc gap c in
    let (junk, returns, room) =
      later m' (done ++ (d ∷ [])) gs (p + 1)
        (omega (arith, length-append gap (c ∷ []), ap length split, length-append done (d ∷ []))) in
    (
      junk,
      ap (λ t. store (cursor m done t) (m', some d) >>= parse_loop (length cs) (p + 1))
            (laid_split done gap cs rest gs c g split)
          ∙ ap (λ t. t >>= parse_loop (length cs) (p + 1))
              (store-some m m' done (gs ++ (cs ++ rest)) g d)
          ∙ (rw (append_assoc done (d ∷ []) (run m' cs).1) at returns),
      omega (arith, length-append gap (c ∷ []), ap length split),
    )

parse_loop-run : (todo rest : List ℕ) → Rest todo rest
unfolding parse_loop run
parse_loop-run [] rest m done gap p e = (gap, rw append-nil, omega arith)
parse_loop-run (c ∷ cs) rest m done gap p e =
    let here : get_elem? (laid done gap (c ∷ cs) rest) p ≡ some c =
      rw (← append_assoc done gap (c ∷ (cs ++ rest))) (
        get_elem?-append_len (done ++ gap) (cs ++ rest) c p
          (omega (arith, length-append done gap))) in
    rw here (round (step m c) m c cs done gap rest p e (parse_loop-run cs rest))

-- `parse` on a window `todo` of the array, between `done` and `rest`: it never leaves the array,
-- and what it lets through stands at the front of the window, bounded by the new `end`; the bytes
-- outside the window stay as they are.
abbrev pub window : Machine → List ℕ → List ℕ → List ℕ → TermState
window m done todo rest = record {
  machine = m;
  bi = record {
    bytes = done ++ (todo ++ rest);
    start = length done;
    end = length done + length todo;
  };
}

abbrev pub compacted : Machine × List ℕ → List ℕ → List ℕ → List ℕ → TermState
compacted r done junk rest = record {
  machine = r.0;
  bi = record {
    bytes = (done ++ r.1) ++ (junk ++ rest);
    start = length done;
    end = length (done ++ r.1);
  };
}

-- On a window of its buffer `parse` stays inside the array, ends in the state that the fold over
-- the window's bytes ends in, and leaves the bytes that the fold let through at the front of the
-- window, followed by as many old bytes as were dropped. All outside the window is unchanged.
pub parse-run :
    (m : Machine) (done todo rest : List ℕ)
    → (junk : List ℕ) × (parse (window m done todo rest)
        ≡ some (compacted (run m todo) done junk rest))
      × (length (run m todo).1 + length junk ≡ length todo)
unfolding parse
parse-run m done todo rest =
    let (junk, returns, room) = parse_loop-run todo rest m done [] (length done) (omega arith) in
    let rounds : length done + length todo - length done ≡ length todo = omega arith in
    (junk, rw (rounds, returns), omega arith)
