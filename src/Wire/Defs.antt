-- ===== src/Wire/Defs.antt =====
-- The reads of header fields, and the byte-order conversions of the C library.
use pollnet.Base.{ℕ, ◌+◌, ◌*◌, ◌/◌, ◌%◌, ◌^◌}
use pollnet.Base.Buf.{Buf}

-- A `uint16_t` and a `uint32_t` of the host at an offset.
abbrev pub le16 : Buf → ℕ → ℕ
le16 d i = d i + 256 * d (i + 1)

abbrev pub le32 : Buf → ℕ → ℕ
le32 d i = d i + 256 * d (i + 1) + 2 ^ 16 * d (i + 2) + 2 ^ 24 * d (i + 3)

-- `htons`, `ntohs`
abbrev pub swap16 : ℕ → ℕ
swap16 x = 256 * (x % 256) + x / 256 % 256

-- `htonl`, `ntohl`
abbrev pub swap32 : ℕ → ℕ
swap32 x =
    2 ^ 24 * (x % 256) + 2 ^ 16 * (x / 256 % 256) + 256 * (x / 2 ^ 16 % 256) + x / 2 ^ 24 % 256

-- `EtherHeader::etherType`
abbrev pub ether_type : Buf → ℕ
ether_type d = le16 d 12

-- `IpHeader`: totalLength, protocol, ipSrc, ipDst
abbrev pub total_length : Buf → ℕ
total_length d = le16 d 16

abbrev pub protocol : Buf → ℕ
protocol d = d 23

abbrev pub ip_src : Buf → ℕ
ip_src d = le32 d 26

abbrev pub ip_dst : Buf → ℕ
ip_dst d = le32 d 30

-- `TcpHeader`: portSrc, portDst, sequenceNumber, dataOffset and synFlag
abbrev pub port_src : Buf → ℕ
port_src d = le16 d 34

abbrev pub port_dst : Buf → ℕ
port_dst d = le16 d 36

abbrev pub sequence_number : Buf → ℕ
sequence_number d = le32 d 38

-- The bit-field after the low nibble `reserved`.
abbrev pub data_offset : Buf → ℕ
data_offset d = d 46 / 16 % 16

abbrev pub syn_flag : Buf → ℕ
syn_flag d = d 47 / 2 % 2
