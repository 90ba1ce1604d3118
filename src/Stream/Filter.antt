-- ===== src/Stream/Filter.antt =====
-- What `initFilter` and `filterPacket` of TcpStream.h let pass.
use pollnet.Base.{ℕ, ◌^◌, ◌<◌, ◌≡◌, ◌↔◌, ◌⊎◌, true, false, List, Option, some, arith}
use pollnet.Base.Buf.{Buf}
use pollnet.Wire.{
  IsBytes, be16, be32, le16, le32, le16-lt, le32-lt, swap16, swap32, swap16-le16, swap32-le32,
  swap16-swap16, swap32-swap32, ether_type, protocol, ip_src, ip_dst, port_src, port_dst,
}
use pollnet.Stream.{TcpStream, init_filter, differs, filter_packet}

-- A filter word of 0 lets everything pass, any other only itself.
abbrev pub Accepts : ℕ → ℕ → Type 0
Accepts filter value = (filter ≡ 0) ⊎ (filter ≡ value)

differs-Accepts : (f v : ℕ) → (differs f v ≡ false) ↔ Accepts f v
differs-Accepts f v = ground arith

-- Comparing swapped words is comparing the words.
word_lem :
    (x v u : ℕ)
    → x < 2 ^ 32
    → v < 2 ^ 32
    → swap32 v ≡ u
    → (differs (swap32 x) v ≡ false) ↔ Accepts x u
word_lem x v u h k e = ground (arith, swap32-swap32 x h, swap32-swap32 v k)

half_lem :
    (x v u : ℕ)
    → x < 2 ^ 16
    → v < 2 ^ 16
    → swap16 v ≡ u
    → (differs (swap16 x) v ≡ false) ↔ Accepts x u
half_lem x v u h k e = ground (arith, swap16-swap16 x h, swap16-swap16 v k)

filter_packet_iff :
    (s : TcpStream) (d : Buf)
    → (filter_packet s d ≡ true) ↔ (
        (ether_type d ≡ 8)
        × (protocol d ≡ 6)
        × (differs s.filter_src_ip (ip_src d) ≡ false)
        × (differs s.filter_dst_ip (ip_dst d) ≡ false)
        × (differs s.filter_src_port (port_src d) ≡ false)
        × (differs s.filter_dst_port (port_dst d) ≡ false))
unfolding filter_packet
filter_packet_iff s d = ground arith

-- For an address and port that the parser accepts, or 0 for any, `initFilter` makes `filterPacket`
-- accept exactly the packets whose bytes on the wire say IPv4, TCP, and these addresses and ports.
pub filter_packet-init_filter :
    (inet_pton : List ℕ → Option ℕ) (s : TcpStream) (src_ip dst_ip : List ℕ)
    (a b src_port dst_port : ℕ) (d : Buf)
    → inet_pton src_ip ≡ some (swap32 a)
    → inet_pton dst_ip ≡ some (swap32 b)
    → a < 2 ^ 32
    → b < 2 ^ 32
    → src_port < 2 ^ 16
    → dst_port < 2 ^ 16
    → IsBytes d
    → (filter_packet (init_filter inet_pton s src_ip src_port dst_ip dst_port) d ≡ true) ↔ (
        (be16 d 12 ≡ 0x0800)
        × (d 23 ≡ 6)
        × Accepts a (be32 d 26)
        × Accepts b (be32 d 30)
        × Accepts src_port (be16 d 34)
        × Accepts dst_port (be16 d 36))
unfolding init_filter
filter_packet-init_filter inet_pton s src_ip dst_ip a b src_port dst_port d pa pb ha hb hs hd w = (
  λ h.
      let k = (filter_packet_iff f d).0 h in
      (
        ether.0 (k.0),
        k.1,
        (word a 26 ha).0 (rw pa at k.2),
        (word b 30 hb).0 (rw pb at k.3),
        (half src_port 34 hs).0 k.4,
        (half dst_port 36 hd).0 k.5,
      ),
  λ k. (filter_packet_iff f d).1 (
    ether.1 k.0,
    k.1,
    rw pa ((word a 26 ha).1 k.2),
    rw pb ((word b 30 hb).1 k.3),
    (half src_port 34 hs).1 k.4,
    (half dst_port 36 hd).1 k.5,
  ),
)
  where
    f : TcpStream
    f = init_filter inet_pton s src_ip src_port dst_ip dst_port

    ether : (ether_type d ≡ 8) ↔ (be16 d 12 ≡ 0x0800)
    ether = (λ e. omega (arith, w 12, w 13), λ e. omega (arith, w 12, w 13))

    word : (x i : ℕ) → x < 2 ^ 32 → (differs (swap32 x) (le32 d i) ≡ false) ↔ Accepts x (be32 d i)
    word x i h = word_lem x (le32 d i) (be32 d i) h (le32-lt d i w) (swap32-le32 d i w)

    half : (x i : ℕ) → x < 2 ^ 16 → (differs (swap16 x) (le16 d i) ≡ false) ↔ Accepts x (be16 d i)
    half x i h = half_lem x (le16 d i) (be16 d i) h (le16-lt d i w) (swap16-le16 d i w)
