-- ===== src/Dhcp.antt =====
-- The DHCP client, tek/utils/dhcp.c. A packet is the list of its bytes; the interface's address, the
-- host's name, the server's address, the number drawn for `xid`, and what sendto and recvfrom answer
-- are parameters.
use tek.Base.{
  ℕ, zero, suc, ◌+◌, ◌*◌, ◌/◌, ◌%◌, ◌^◌, Bool, true, false, ◌&&◌, Option, none, some, List, [], ◌∷◌,
  ◌++◌, ◌==◌, if◌then◌else◌, length, get_or, take, replicate,
}
pub mod Options
pub mod Handshake
mod Runs

abbrev pub dhcp_option_discover : ℕ
dhcp_option_discover = 1

abbrev pub dhcp_option_offer : ℕ
dhcp_option_offer = 2

abbrev pub dhcp_option_request : ℕ
dhcp_option_request = 3

abbrev pub message_type_dns : ℕ
message_type_dns = 6

abbrev pub message_type_hostname : ℕ
message_type_hostname = 12

abbrev pub message_type_domain_name : ℕ
message_type_domain_name = 15

abbrev pub message_type_req_ip : ℕ
message_type_req_ip = 50

abbrev pub message_type_dhcp : ℕ
message_type_dhcp = 53

abbrev pub message_type_parameter_req_list : ℕ
message_type_parameter_req_list = 55

abbrev pub message_type_end : ℕ
message_type_end = 255

abbrev pub dhcp_magic_cookie : ℕ
dhcp_magic_cookie = 1669485411

pub record Dhcp : Type 0 where
  pub opcode : ℕ
  pub htype : ℕ
  pub hlen : ℕ
  pub hops : ℕ
  pub xid : ℕ
  pub secs : ℕ
  pub flags : ℕ
  pub ciaddr : ℕ
  pub yiaddr : ℕ
  pub siaddr : ℕ
  pub giaddr : ℕ
  pub chaddr : List ℕ
  pub bp_sname : List ℕ
  pub bp_file : List ℕ
  pub magic_cookie : ℕ

-- An `unsigned int` and an `unsigned short` in memory.
abbrev pub bytes4 : ℕ → List ℕ
bytes4 n = (n / 2 ^ 24 % 256) ∷ (n / 2 ^ 16 % 256) ∷ (n / 2 ^ 8 % 256) ∷ (n % 256) ∷ []

abbrev pub bytes2 : ℕ → List ℕ
bytes2 n = (n / 2 ^ 8 % 256) ∷ (n % 256) ∷ []

abbrev pub word_at : List ℕ → ℕ → ℕ
word_at b i =
    get_or b i 0 * 2 ^ 24
    + get_or b (i + 1) 0 * 2 ^ 16
    + get_or b (i + 2) 0 * 2 ^ 8
    + get_or b (i + 3) 0

-- The struct in memory, up to `bp_options`.
unfoldable pub layout : Dhcp → List ℕ
layout d =
    (d.opcode ∷ d.htype ∷ d.hlen ∷ d.hops ∷ [])
    ++ (bytes4 d.xid
        ++ (bytes2 d.secs
            ++ (bytes2 d.flags
                ++ (bytes4 d.ciaddr
                    ++ (bytes4 d.yiaddr
                        ++ (bytes4 d.siaddr
                            ++ (bytes4 d.giaddr
                                ++ (d.chaddr
                                    ++ (d.bp_sname ++ (d.bp_file ++ bytes4 d.magic_cookie))))))))))

-- The struct as built for the 4404, without the broadcast flag.
unfoldable pub dhcp_output : List ℕ → ℕ → ℕ → Dhcp
dhcp_output mac server xid = record {
  opcode = 1;
  htype = 1;
  hlen = 6;
  hops = 0;
  xid = xid;
  secs = 255;
  flags = 0;
  ciaddr = 0;
  yiaddr = 0;
  siaddr = server;
  giaddr = 0;
  chaddr = take 6 mac ++ replicate 10 0;
  bp_sname = replicate 64 0;
  bp_file = replicate 128 0;
  magic_cookie = dhcp_magic_cookie;
}

-- The length is an `unsigned char`.
unfoldable pub fill_dhcp_option : ℕ → List ℕ → ℕ → List ℕ
fill_dhcp_option code data' len = code ∷ (len % 256) ∷ take (len % 256) data'

unfoldable pub fill_dhcp_discovery_options : List ℕ → List ℕ
unfolding fill_dhcp_option
fill_dhcp_discovery_options name =
    fill_dhcp_option message_type_dhcp (dhcp_option_discover ∷ []) 1
    ++ (fill_dhcp_option message_type_parameter_req_list
          (1 ∷ 3 ∷ message_type_dns ∷ message_type_domain_name ∷ []) 4
        ++ (fill_dhcp_option message_type_hostname name (length name)
            ++ fill_dhcp_option message_type_end (0 ∷ []) 1))

unfoldable pub fill_dhcp_request_options : List ℕ → ℕ → List ℕ
unfolding fill_dhcp_option
fill_dhcp_request_options name req_ip =
    fill_dhcp_option message_type_dhcp (dhcp_option_request ∷ []) 1
    ++ (fill_dhcp_option message_type_req_ip (bytes4 req_ip) 4
        ++ (fill_dhcp_option message_type_hostname name (length name)
            ++ fill_dhcp_option message_type_end (0 ∷ []) 1))

-- What recvfrom answers: an error, or the buffer, zero behind the bytes received.
pub data Received : Type 0 where
  failed : Received
  got : List ℕ → Received

-- How the program ends; with none of these it waits.
pub data Ending : Type 0 where
  exited : ℕ → Ending
  waiting : Ending
  bound : ℕ → Ending

abbrev pub discovery : List ℕ → List ℕ → ℕ → ℕ → List ℕ
discovery mac name server xid =
    layout (dhcp_output mac server xid) ++ fill_dhcp_discovery_options name

abbrev pub request : List ℕ → List ℕ → ℕ → ℕ → ℕ → List ℕ
request mac name server xid req_ip =
    layout (dhcp_output mac server xid) ++ fill_dhcp_request_options name req_ip

abbrev pub is_offer : ℕ → List ℕ → Bool
is_offer xid b = (get_or b 0 0 == dhcp_option_offer) && (word_at b 4 == xid)

-- `dhcp_output` draws a number for each packet: `xid` for the first and `xid'` for the second.
module _ (mac name : List ℕ) (server xid xid' : ℕ) (sent_error : ℕ → Option ℕ) where
  -- The packets sent, and the end. 251 is the status -5.
  unfoldable pub answer : ℕ → List (List ℕ) × Ending
  answer yiaddr = (
    discovery mac name server xid ∷ request mac name server xid' yiaddr ∷ [],
    elim (sent_error 1) [ some errno ↦ exited errno | none ↦ bound yiaddr ],
  )

  unfoldable pub wait : List Received → List (List ℕ) × Ending
  unfolding answer
  wait [] = (discovery mac name server xid ∷ [], waiting)
  wait (failed ∷ rs) = (discovery mac name server xid ∷ [], exited 251)
  wait (got b ∷ rs) = let more = wait rs in if is_offer xid b then answer (word_at b 16) else more

  unfoldable pub dhcp_main : List Received → List (List ℕ) × Ending
  unfolding wait
  dhcp_main rs = elim (sent_error 0) [
    | some errno ↦ (discovery mac name server xid ∷ [], exited errno)
    | none ↦ wait rs
  ]
