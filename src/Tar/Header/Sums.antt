-- ===== src/Tar/Header/Sums.antt =====
-- The checksum of a header.
use tek.Base.{
  ℕ, zero, suc, ◌+◌, ◌%◌, ◌^◌, ◌<◌, ◌≡◌, ◌≢◌, refl, sym, ap, ◌∙◌, List, [], ◌∷◌, ◌++◌, append_assoc,
  length, take, drop, replicate, length-append, arith,
}
use tek.Tar.Header.{signed_char, add_all, checksum, chksum_at, chksum_size}
use tek.Tar.Tape.Record.{take-append_len}

drop-append_len {ℓ} : {A : Type ℓ} (xs ys : List A) (n : ℕ) → length xs ≡ n → drop n (xs ++ ys) ≡ ys
drop-append_len [] ys zero h = refl
drop-append_len [] ys (suc n) h = absurd (omega arith)
drop-append_len (x ∷ xs) ys zero h = absurd (omega arith)
drop-append_len (x ∷ xs) ys (suc n) h = drop-append_len xs ys n (omega arith)

-- A header, whatever stands in its field for the checksum, has the checksum of the header with
-- blanks there, and is left so by the function: a reader that compares the field with it computes
-- what the writer stored.
pub checksum-field :
    (front field rear : List ℕ)
    → length front ≡ chksum_at
    → length field ≡ chksum_size
    → checksum (front ++ (field ++ rear)) ≡ (
      add_all (front ++ (replicate chksum_size 32 ++ rear)) 0,
      front ++ (replicate chksum_size 32 ++ rear),
    )
unfolding checksum
checksum-field front field rear hf hs =
    let kept : take chksum_at (front ++ (field ++ rear)) ≡ front =
      take-append_len front (field ++ rear) chksum_at hf in
    let behind : drop (chksum_at + chksum_size) (front ++ (field ++ rear)) ≡ rear =
      ap (drop 156) (sym (append_assoc front field rear))
      ∙ drop-append_len (front ++ field) rear 156 (omega (arith, length-append front field)) in
    rw (kept, behind) refl

-- The sum is linear in each byte.
add_all-append : (xs ys : List ℕ) (i : ℕ) → add_all (xs ++ ys) i ≡ add_all ys (add_all xs i)
add_all-append [] ys i = refl
add_all-append (x ∷ xs) ys i = add_all-append xs ys ((i + signed_char x) % 2 ^ 32)

abbrev total : List ℕ → ℕ
total [] = 0
total (b ∷ bs) = signed_char b + total bs

add_all-total : (bs : List ℕ) (i : ℕ) → i < 2 ^ 32 → add_all bs i ≡ (i + total bs) % 2 ^ 32
add_all-total [] i h = omega (arith, h)
add_all-total (b ∷ bs) i h =
    add_all-total bs ((i + signed_char b) % 2 ^ 32) (omega arith) ∙ omega arith

signed_char-distinct :
    (b c n : ℕ)
    → b < 256
    → c < 256
    → (n + signed_char b) % 2 ^ 32 ≡ (n + signed_char c) % 2 ^ 32
    → b ≡ c
signed_char-distinct b c n hb hc e = ground arith

sum_one_byte :
    (xs ys : List ℕ) (b c : ℕ)
    → b < 256
    → c < 256
    → add_all (xs ++ (b ∷ ys)) 0 ≡ add_all (xs ++ (c ∷ ys)) 0
    → b ≡ c
sum_one_byte xs ys b c hb hc e =
    let expand : (d : ℕ)
        → add_all (xs ++ (d ∷ ys)) 0 ≡ (total xs + total ys + signed_char d) % 2 ^ 32 =
      λ d.
        add_all-append xs (d ∷ ys) 0
        ∙ ap (λ i. add_all (d ∷ ys) i) (add_all-total xs 0 (omega arith))
        ∙ add_all-total (d ∷ ys) ((0 + total xs) % 2 ^ 32) (omega arith)
        ∙ omega arith in
    signed_char-distinct b c (total xs + total ys) hb hc (sym (expand b) ∙ e ∙ expand c)

-- Two headers that differ in one byte before the field have different checksums, whatever stands in
-- their fields.
pub checksum-one_byte :
    (xs ys field field' rear : List ℕ) (b c : ℕ)
    → length xs + length ys + 1 ≡ chksum_at
    → length field ≡ chksum_size
    → length field' ≡ chksum_size
    → b < 256
    → c < 256
    → b ≢ c
    → (checksum ((xs ++ (b ∷ ys)) ++ (field ++ rear))).0
      ≢ (checksum ((xs ++ (c ∷ ys)) ++ (field' ++ rear))).0
checksum-one_byte xs ys field field' rear b c size hf hf' hb hc ne same =
    let blank : List ℕ = replicate chksum_size 32 ++ rear in
    let left : length (xs ++ (b ∷ ys)) ≡ chksum_at =
      omega (arith, size, length-append xs (b ∷ ys)) in
    let right : length (xs ++ (c ∷ ys)) ≡ chksum_at =
      omega (arith, size, length-append xs (c ∷ ys)) in
    let sums =
      sym (ap (λ r. r.0) (checksum-field (xs ++ (b ∷ ys)) field rear left hf))
      ∙ same
      ∙ ap (λ r. r.0) (checksum-field (xs ++ (c ∷ ys)) field' rear right hf') in
    ne (
      sum_one_byte xs (ys ++ blank) b c hb hc (
        ap (λ t. add_all t 0) (sym (append_assoc xs (b ∷ ys) blank))
        ∙ sums
        ∙ ap (λ t. add_all t 0) (append_assoc xs (c ∷ ys) blank)))
