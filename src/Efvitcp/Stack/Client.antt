-- ===== src/Efvitcp/Stack/Client.antt =====
-- `TcpClient` of efvitcp/TcpClient.h: one connection, of identifier 0.
use Prim.Native.String.{String}
use pollnet.Base.{
  ℕ, zero, suc, ◌-◌, Bool, true, false, not, ◌&&◌, leb, ◌+◌, ◌*◌, ◌%◌, ◌^◌, Option, none, some,
  ◌==◌, ◌∷◌, if◌then◌else◌,
}
use pollnet.Base.Buf.{Buf}
use pollnet.Wire.{le32}
use pollnet.Efvitcp.Table.{conn_hash_key, find_conn_entry}
use pollnet.Efvitcp.Conn.{Conf, Conn, Handler}
use pollnet.Efvitcp.Conn.Bufs.{get_send_buf}
use pollnet.Efvitcp.Conn.Send.{on_close, close}
use pollnet.Efvitcp.Conn.Setup.{reset, send_syn}
use pollnet.Efvitcp.Conn.Syn.{on_syn, on_establish}
use pollnet.Efvitcp.Conn.Pack.{flag, on_pack}
use pollnet.Efvitcp.Core as CoreMod
use pollnet.Efvitcp.Core.{Core, add_entry}
use pollnet.Efvitcp.Core.Replies.{rsp_rst}
use pollnet.Efvitcp.Filter.{Round, del_filter, set_client_filter}
use pollnet.Efvitcp.Stack.{Stack, refused, with_core, call}

-- `hexchartoi` of `getDestMac`, which says whether the digit is one.
unfoldable pub hex_digit : ℕ → Option ℕ
hex_digit c =
    if leb 48 c && leb c 57
    then some (c - 48)
    else if leb 65 c && leb c 70
    then some (c - 65 + 10)
    else if leb 97 c && leb c 102
    then some (c - 97 + 10)
    else none

abbrev pub digit_or : Option ℕ → ℕ
digit_or none = 0
digit_or (some n) = n

abbrev pub is_digit : Option ℕ → Bool
is_digit none = false
is_digit (some n) = true

-- Whether the digits of the first bytes are all digits.
unfoldable pub all_digits : ℕ → Buf → Bool
unfolding hex_digit
all_digits zero text = true
all_digits (suc n) text =
    is_digit (hex_digit (text (3 * n)))
    && (is_digit (hex_digit (text (3 * n + 1))) && all_digits n text)

pub data MacResult : Type 0 where
  no_mac : String → MacResult
  mac : Buf → MacResult

-- The end of `getDestMac`: the ARP table's text and its length.
unfoldable pub parse_mac : ℕ → Buf → MacResult
unfolding all_digits
parse_mac len text =
    if (len == 17) && all_digits 6 text
    then mac (λ i.
      (digit_or (hex_digit (text (3 * i))) * 16 + digit_or (hex_digit (text (3 * i + 1)))) % 2 ^ 8)
    else no_mac "Invalid dest mac addr"

-- What `getDestMac` finds: each step by whether it succeeds, and the text at last.
unfoldable pub get_dest_mac : Bool → Bool → Bool → Bool → Option (ℕ × Buf) → MacResult
unfolding parse_mac
get_dest_mac pipe gateway arp_file header hw =
    if not pipe
    then no_mac "/usr/sbin/ip route get failed"
    else if not gateway
    then no_mac "Can't find gw by /usr/sbin/ip route get"
    else if not arp_file
    then no_mac "Can't open /proc/net/arp"
    else if not header
    then no_mac "Invalid file /proc/net/arp"
    else elim hw as (λ o. MacResult) [
      | none ↦ no_mac "Can't find dest ip from arp cache, please ping dest ip first"
      | some t ↦ parse_mac t.0 t.1
    ]

module _ (core_conf : CoreMod.Conf) (conf : Conf) where
  -- The end of `connect`, with the addresses in network order.
  unfoldable pub begin_connect : ℕ → Buf → ℕ → ℕ → Stack → Stack
  unfolding call reset send_syn add_entry conn_hash_key find_conn_entry
  begin_connect local_port dst_mac remote_ip server_port s =
      let now = s.core.wheel.now_ts in
      let s =
        call core_conf conf 0
          (λ c. send_syn conf now (reset conf now local_port dst_mac remote_ip server_port c)) s in
      let key = conn_hash_key remote_ip server_port in
      let c = record s.core { conn_cnt = s.core.conn_cnt + 1 } in
      let i = find_conn_entry core_conf.total c.tbl_mask c.conn_tbl key in
      record s { core = add_entry core_conf i key 0 c }

  -- `connect`: what `inet_pton` and `getDestMac` give, and what `setClientFilter` does.
  unfoldable pub connect :
      Option ℕ → MacResult → ℕ → (ℕ → Round) → ℕ → Stack → Stack × Option String
  unfolding set_client_filter begin_connect
  connect none m local_port rounds server_port s =
      if s.core.conn_cnt == 0
      then (s, some "Invalid server ip")
      else (s, some "Connection already exists")
  connect (some remote_ip) (no_mac e) local_port rounds server_port s =
      if s.core.conn_cnt == 0 then (s, some e) else (s, some "Connection already exists")
  connect (some remote_ip) (mac dst_mac) local_port rounds server_port s =
      let f = set_client_filter local_port (remote_ip, server_port) rounds s.filters in
      let s' = record s { filters = f.filters } in
      if not (s.core.conn_cnt == 0)
      then (s, some "Connection already exists")
      else elim f.err as (λ o. Stack × Option String) [
        | some e ↦ (s', some e)
        | none ↦ (begin_connect f.local_port dst_mac remote_ip server_port s', none)
      ]

  -- `TcpClient::close`
  unfoldable pub close_client : Stack → Stack
  unfolding call close del_filter
  close_client s =
      let s' = call core_conf conf 0 (close conf s.core.wheel.now_ts) s in
      record s' { filters = del_filter s'.filters }

module _ (conf : Conf) where
  -- The number that is acknowledged in SYN-SENT is the next one to be sent.
  unfoldable pub acks_syn : Buf → Conn → Bool
  acks_syn d c = flag 4 d && (le32 d 42 == (get_send_buf conf c.snd.send_next c.snd).seq_num)

module _ (core_conf : CoreMod.Conf) (conf : Conf) (h : Handler) where
  -- A frame in SYN-SENT.
  unfoldable pub on_syn_sent : Buf → Stack → Stack
  unfolding acks_syn rsp_rst call on_close on_syn on_establish on_pack
  on_syn_sent d s =
      let now = s.core.wheel.now_ts in
      if not (acks_syn conf d (s.conns 0))
      then with_core (rsp_rst d) s
      else if flag 2 d
      then call core_conf conf 0 (on_close conf false) (record s { told = refused ∷ s.told })
      else if not (flag 1 d)
      then s
      else call core_conf conf 0
          (λ c. on_pack conf now h d (on_establish conf now h d (on_syn conf d c))) s

  -- What `poll` hands to `pollNet`.
  unfoldable pub on_frame : ℕ → ℕ → Buf → Stack → Stack
  unfolding on_syn_sent rsp_rst call on_pack
  on_frame key i d s =
      if not ((s.core.conn_tbl i).key == key)
      then with_core (rsp_rst d) s
      else if not (s.conns 0).established
      then on_syn_sent d s
      else call core_conf conf 0 (on_pack conf s.core.wheel.now_ts h d) s
