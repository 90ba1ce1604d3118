-- ===== src/Stream/Tests.antt =====
-- Packets, runs of `handlePacket`, and the theorems at inputs that exercise it.
use pollnet.Base.{
  ℕ, zero, suc, ◌+◌, ◌-◌, ◌≤◌, ◌≡◌, ◌↔◌, refl, Bool, true, false, List, [], ◌∷◌, Option, some, none,
  length, arith, min,
}
use pollnet.Base.Word.{add32}
use pollnet.Base.Buf.{of_list, bytes, memcpy}
use pollnet.Wire.{all_bytes-IsBytes, swap32}
use pollnet.Segs.{seg, place, skip, reach, splice}
use pollnet.Stream.{
  TcpStream, Outcome, init_filter, filter_packet, sync, cut, packet_seq, drop_gap, compact,
  keep_packet, keep_buffer, is_full, store, handle_packet,
}
use pollnet.Stream.Filter.{Accepts, filter_packet-init_filter}
use pollnet.Stream.Invariant.{IsLive, SizeOk, handle_packet-IsLive}
use pollnet.Stream.Content.{IsContent, Carries}
use pollnet.Stream.Position.{position}
use pollnet.Stream.Delivery.{handle_packet-Delivers}
use pollnet.Stream.Latest.{handle_packet-Latest}
use pollnet.Stream.Bounds.{handle_packet-recvbuf}

-- A packet of 10.0.0.1:80 to 10.0.0.2:81, with three bytes of payload, that begins at `seq`.
abbrev packet : ℕ → ℕ → List ℕ
packet seq flags =
    0
    ∷ 0
    ∷ 0
    ∷ 0
    ∷ 0
    ∷ 0
    ∷ 0
    ∷ 0
    ∷ 0
    ∷ 0
    ∷ 0
    ∷ 0
    ∷ 8
    ∷ 0
    ∷ 0x45
    ∷ 0
    ∷ 0
    ∷ 43
    ∷ 0
    ∷ 0
    ∷ 0
    ∷ 0
    ∷ 64
    ∷ 6
    ∷ 0
    ∷ 0
    ∷ 10
    ∷ 0
    ∷ 0
    ∷ 1
    ∷ 10
    ∷ 0
    ∷ 0
    ∷ 2
    ∷ 0
    ∷ 80
    ∷ 0
    ∷ 81
    ∷ 0
    ∷ 0
    ∷ 0
    ∷ seq
    ∷ 0
    ∷ 0
    ∷ 0
    ∷ 0
    ∷ 0x50
    ∷ flags
    ∷ 0
    ∷ 0
    ∷ 0
    ∷ 0
    ∷ 0
    ∷ 0
    ∷ (seq + 1)
    ∷ (seq + 2)
    ∷ (seq + 3)
    ∷ []

-- The stream whose byte number `q` is `q + 1`.
abbrev counting : ℕ → ℕ
counting q = q + 1

-- A handler that takes all but the last byte.
abbrev leaves_one : List ℕ → ℕ
leaves_one xs = min 1 (length xs)

leaves_one-bound : (xs : List ℕ) → leaves_one xs ≤ length xs
leaves_one-bound xs = omega arith

abbrev fresh : TcpStream
fresh = record {
  init_stream = false;
  filter_src_ip = 0;
  filter_dst_ip = 0;
  filter_src_port = 0;
  filter_dst_port = 0;
  buf_seq = 0;
  segs = [];
  recvbuf = λ p. 0;
}

-- Bytes 10 and 11 are taken, 12 waits, and 17 .. 19 came early.
abbrev waiting : TcpStream
waiting = record fresh {
  init_stream = true;
  buf_seq = 10;
  segs = seg 2 3 ∷ seg 7 10 ∷ [];
  recvbuf = λ p. p + 11;
}

size_16 : SizeOk 16
size_16 = record { at_least = omega arith; at_most = omega arith }

waiting-IsLive : IsLive true 16 waiting
waiting-IsLive = record {
  tidy = record {
    seq_lt = omega arith;
    order = omega arith;
    count = omega arith;
    single = λ e. cc;
  };
  front = omega arith;
}

waiting-IsContent : IsContent counting waiting
waiting-IsContent p e = ground arith

packet-Carries : Carries counting (of_list (packet 13 0))
unfolding packet_seq
packet-Carries zero h = refl
packet-Carries (suc zero) h = refl
packet-Carries (suc (suc zero)) h = refl
packet-Carries (suc (suc (suc k))) h = absurd (omega arith)

-- `handlePacket` in a buffer of 16 bytes, with all that it calls.
runs : Bool → TcpStream → List ℕ → Outcome
unfolding handle_packet sync cut drop_gap store is_full place skip reach splice keep_packet
    keep_buffer compact memcpy bytes packet_seq
runs wait s p = handle_packet 16 leaves_one wait s (of_list p)

-- Bytes 13 .. 15 arrive in order, and are passed on with the one that waits.
in_order_run : (runs true waiting (packet 13 0)).1 ≡ some (13 ∷ 14 ∷ 15 ∷ 16 ∷ [])
unfolding runs
in_order_run = refl

-- Bytes 14 .. 16 leave a hole before them, and none after.
early_run : (runs true waiting (packet 14 0)).1 ≡ none
unfolding runs
early_run = refl

early_segs : (runs true waiting (packet 14 0)).0.segs ≡ seg 2 3 ∷ seg 4 10 ∷ []
unfolding runs
early_segs = refl

handle_packet-IsLive_example :
    IsLive true 16 (handle_packet 16 leaves_one true waiting (of_list (packet 14 0))).0
handle_packet-IsLive_example =
    handle_packet-IsLive size_16 leaves_one leaves_one-bound waiting (of_list (packet 14 0))
      (λ i. waiting-IsLive)

handle_packet-recvbuf_example :
    (handle_packet 16 leaves_one true waiting (of_list (packet 14 0))).0.recvbuf 16 ≡ 27
handle_packet-recvbuf_example =
    handle_packet-recvbuf size_16 leaves_one leaves_one-bound waiting (of_list (packet 14 0)) 16
      (λ i. waiting-IsLive) (omega arith)

-- The byte that waits and the three new ones are passed on, and the position moves by three.
handle_packet-Delivers_example :
    IsContent counting (runs true waiting (packet 13 0)).0
    × ((true ≡ true)
        × (◌≡◌ {A = List ℕ} (13 ∷ 14 ∷ 15 ∷ 16 ∷ []) (bytes (λ k. counting (add32 12 k)) 4))
        × (position (runs true waiting (packet 13 0)).0 ≡ 15))
unfolding runs
handle_packet-Delivers_example =
    handle_packet-Delivers counting size_16 leaves_one leaves_one-bound waiting
      (of_list (packet 13 0)) (λ i. (waiting-IsLive, waiting-IsContent)) packet-Carries

abbrev alone : TcpStream
alone = record waiting { segs = seg 2 3 ∷ [] }

alone-IsLive : IsLive false 16 alone
alone-IsLive = record {
  tidy = record {
    seq_lt = omega arith;
    order = omega arith;
    count = omega arith;
    single = λ e. refl;
  };
  front = omega arith;
}

alone-IsContent : IsContent counting alone
alone-IsContent p e = ground arith

late-Carries : Carries counting (of_list (packet 15 0))
unfolding packet_seq
late-Carries zero h = refl
late-Carries (suc zero) h = refl
late-Carries (suc (suc zero)) h = refl
late-Carries (suc (suc (suc k))) h = absurd (omega arith)

-- Byte 12 is dropped, 13 and 14 are missed, and 15 .. 17 are passed on.
handle_packet-Latest_example :
    (xs : List ℕ) × ((runs false alone (packet 15 0)).1 ≡ some xs)
    × ((runs false alone (packet 15 0)).2 ≡ true)
    × (xs ≡ bytes (λ k. counting (add32 15 k)) (length xs))
    × (position (runs false alone (packet 15 0)).0 ≡ add32 15 (length xs - leaves_one xs))
    × IsContent counting (runs false alone (packet 15 0)).0
unfolding runs
handle_packet-Latest_example =
    handle_packet-Latest counting size_16 leaves_one leaves_one-bound alone (of_list (packet 15 0))
      (λ i. (alone-IsLive, alone-IsContent)) late-Carries refl refl

-- 10.0.0.1 as a text of code points, and a parser that knows it alone, and "0.0.0.0".
abbrev text : List ℕ
text = 49 ∷ 48 ∷ []

abbrev parser : List ℕ → Option ℕ
parser [] = some (swap32 0)
parser (c ∷ cs) = some (swap32 0x0a00_0001)

filter_packet-init_filter_example :
    (filter_packet (init_filter parser fresh text 80 [] 0) (of_list (packet 13 0)) ≡ true) ↔ (
      (◌≡◌ {A = ℕ} 0x0800 0x0800)
      × (◌≡◌ {A = ℕ} 6 6)
      × Accepts 0x0a00_0001 0x0a00_0001
      × Accepts 0 0x0a00_0002
      × Accepts 80 80
      × Accepts 0 81)
filter_packet-init_filter_example =
    filter_packet-init_filter parser fresh text [] 0x0a00_0001 0 80 0 (of_list (packet 13 0)) refl
      refl (omega arith) (omega arith) (omega arith) (omega arith)
      (all_bytes-IsBytes (packet 13 0) refl)
