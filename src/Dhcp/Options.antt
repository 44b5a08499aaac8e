-- ===== src/Dhcp/Options.antt =====
-- The options of a packet, read as RFC 2132 says.
use tek.Base.{
  ℕ, zero, suc, ◌+◌, ◌%◌, ◌<◌, ◌≡◌, refl, sym, ap, ◌∙◌, false, List, [], ◌∷◌, ◌++◌, append-nil,
  ◌==◌, if◌then◌else◌, length, take, drop, arith,
}
use tek.Dhcp.{bytes4, fill_dhcp_option, fill_dhcp_discovery_options, fill_dhcp_request_options}

-- A code, a length and as many bytes; the code 0 stands alone, and 255 ends the options.
abbrev pub value : (List ℕ → List (ℕ × List ℕ)) → ℕ → List ℕ → List (ℕ × List ℕ)
value go code [] = []
value go code (len ∷ bs) = (code, take len bs) ∷ go (drop len bs)

unfoldable pub options : ℕ → List ℕ → List (ℕ × List ℕ)
options zero bs = []
options (suc n) [] = []
options (suc n) (code ∷ bs) =
    if code == 255 then [] else if code == 0 then options n bs else value (λ t. options n t) code bs

take_all : (xs ys : List ℕ) → take (length xs) (xs ++ ys) ≡ xs
take_all [] ys = refl
take_all (x ∷ xs) ys = ap (λ t. x ∷ t) (take_all xs ys)

drop_all : (xs ys : List ℕ) → drop (length xs) (xs ++ ys) ≡ ys
drop_all [] ys = refl
drop_all (x ∷ xs) ys = drop_all xs ys

options-fill :
    (n code : ℕ) (data' rest : List ℕ)
    → (code == 255) ≡ false
    → (code == 0) ≡ false
    → length data' < 256
    → options (suc n) (fill_dhcp_option code data' (length data') ++ rest)
      ≡ (code, data') ∷ options n rest
unfolding options fill_dhcp_option
options-fill n code data' rest no_end no_pad h =
    let len : length data' % 256 ≡ length data' = omega (arith, h) in
    let whole : take (length data') data' ≡ data' =
      ap (take (length data')) (sym (append-nil data')) ∙ take_all data' [] in
    rw (len, whole, no_end, no_pad, take_all data' rest, drop_all data' rest) refl

options_end : (n : ℕ) → options n (fill_dhcp_option 255 (0 ∷ []) 1) ≡ []
unfolding options fill_dhcp_option
options_end zero = refl
options_end (suc n) = refl

-- A reader that takes four options or more finds in a DISCOVER and in a REQUEST the options that were
-- filled in, for a host name of less than 256 bytes.
pub options-fill_dhcp :
    (n : ℕ) (name : List ℕ) (req_ip : ℕ)
    → length name < 256
    → (options (4 + n) (fill_dhcp_discovery_options name)
        ≡ (53, 1 ∷ []) ∷ (55, 1 ∷ 3 ∷ 6 ∷ 15 ∷ []) ∷ (12, name) ∷ [])
      × (options (4 + n) (fill_dhcp_request_options name req_ip)
          ≡ (53, 3 ∷ []) ∷ (50, bytes4 req_ip) ∷ (12, name) ∷ [])
unfolding fill_dhcp_discovery_options fill_dhcp_request_options
options-fill_dhcp n name req_ip h =
    let more : 4 + n ≡ suc (suc (suc (suc n))) = omega arith in
    let rest : options (suc (suc n))
          (fill_dhcp_option 12 name (length name) ++ fill_dhcp_option 255 (0 ∷ []) 1)
        ≡ (12, name) ∷ [] =
      options-fill (suc n) 12 name (fill_dhcp_option 255 (0 ∷ []) 1) refl refl h
      ∙ ap (λ t. (12, name) ∷ t) (options_end (suc n)) in
    (
      (rw more (
          options-fill (suc (suc (suc n))) 53 (1 ∷ []) _ refl refl (omega arith)
          ∙ ap (λ t. (53, 1 ∷ []) ∷ t)
              (options-fill (suc (suc n)) 55 (1 ∷ 3 ∷ 6 ∷ 15 ∷ []) _ refl refl (omega arith)
                ∙ ap (λ t. (55, 1 ∷ 3 ∷ 6 ∷ 15 ∷ []) ∷ t) rest))),
      (rw more (
          options-fill (suc (suc (suc n))) 53 (3 ∷ []) _ refl refl (omega arith)
          ∙ ap (λ t. (53, 3 ∷ []) ∷ t)
              (options-fill (suc (suc n)) 50 (bytes4 req_ip) _ refl refl (omega arith)
                ∙ ap (λ t. (50, bytes4 req_ip) ∷ t) rest))),
    )
