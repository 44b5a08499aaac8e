-- ===== src/Dhcp/Handshake.antt =====
-- The exchange with the server.
use tek.Base.{
  ℕ, ◌^◌, ◌<◌, ◌≡◌, refl, ap, ◌∙◌, true, false, Option, none, List, [], ◌∷◌, ◌++◌, All, ◌==◌,
  ==_iff, get_or, arith,
}
use tek.Dhcp.{
  Dhcp, bytes4, word_at, layout, Received, failed, got, bound, discovery, request, answer, is_offer,
  wait, dhcp_main,
}

word_at-bytes4 : (n : ℕ) → n < 2 ^ 32 → word_at (bytes4 n) 0 ≡ n
word_at-bytes4 n h = omega (arith, h)

-- The fields of a packet that the client reads.
layout-words :
    (d : Dhcp) (opts : List ℕ)
    → (get_or (layout d ++ opts) 0 0 ≡ d.opcode)
      × (word_at (layout d ++ opts) 4 ≡ word_at (bytes4 d.xid) 0)
      × (word_at (layout d ++ opts) 16 ≡ word_at (bytes4 d.yiaddr) 0)
unfolding layout
layout-words d opts = (refl, refl, refl)

-- A packet that is passed over.
abbrev pub IsOther : ℕ → Received → Type 0
IsOther xid failed = ⊥
IsOther xid (got b) = is_offer xid b ≡ false

module _ (mac name : List ℕ) (server xid xid' : ℕ) (sent_error : ℕ → Option ℕ) where
  wait-skips :
      (before after : List Received)
      → All (IsOther xid) before
      → wait mac name server xid xid' sent_error (before ++ after)
        ≡ wait mac name server xid xid' sent_error after
  unfolding wait
  wait-skips [] after h = refl
  wait-skips (failed ∷ before) after h = absurd h.0
  wait-skips (got b ∷ before) after h = rw (h.0) (wait-skips before after h.1)

  wait_offer :
      (b : List ℕ) (after : List Received) (yiaddr : ℕ)
      → (get_or b 0 0 == 2) ≡ true
      → (word_at b 4 == xid) ≡ true
      → word_at b 16 ≡ yiaddr
      → sent_error 1 ≡ none
      → wait mac name server xid xid' sent_error (got b ∷ after)
        ≡ (discovery mac name server xid ∷ request mac name server xid' yiaddr ∷ [], bound yiaddr)
  unfolding wait answer
  wait_offer b after yiaddr op number address sent =
      rw (op, number, sent)
        (ap (λ a. (discovery mac name server xid ∷ request mac name server xid' a ∷ [], bound a))
          address)

  -- Where both packets can be sent, and a reply with the number of the DISCOVER arrives behind others
  -- that are passed over, the client asks for the address that the first such reply offers, and ends
  -- with it.
  pub dhcp_main-offer :
      (before after : List Received) (reply : Dhcp) (opts : List ℕ)
      → sent_error 0 ≡ none
      → sent_error 1 ≡ none
      → All (IsOther xid) before
      → reply.opcode ≡ 2
      → reply.xid ≡ xid
      → xid < 2 ^ 32
      → reply.yiaddr < 2 ^ 32
      → dhcp_main mac name server xid xid' sent_error
          (before ++ (got (layout reply ++ opts) ∷ after))
        ≡ (
          discovery mac name server xid ∷ request mac name server xid' reply.yiaddr ∷ [],
          bound reply.yiaddr,
        )
  unfolding dhcp_main
  dhcp_main-offer before after reply opts sent0 sent1 others code same fits fits' =
      let b : List ℕ = layout reply ++ opts in
      let (op, number, offered) = layout-words reply opts in
      let op_ok : (get_or b 0 0 == 2) ≡ true = (==_iff (get_or b 0 0) 2).1 (op ∙ code) in
      let number_ok : (word_at b 4 == xid) ≡ true =
        (==_iff (word_at b 4) xid).1
          (number ∙ word_at-bytes4 reply.xid (omega (arith, same, fits)) ∙ same) in
      let address : word_at b 16 ≡ reply.yiaddr = offered ∙ word_at-bytes4 reply.yiaddr fits' in
      rw (sent0, dhcp_main)
        (wait-skips before (got b ∷ after) others
          ∙ wait_offer b after reply.yiaddr op_ok number_ok address sent1)
