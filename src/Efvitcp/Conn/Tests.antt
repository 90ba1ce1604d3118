-- ===== src/Efvitcp/Conn/Tests.antt =====
-- `TcpConn` of efvitcp/TcpConn.h at concrete values, and the theorems there.
use pollnet.Base.{
  ℕ, ◌+◌, ◌-◌, ◌%◌, ◌≤◌, ◌≡◌, ◌⊎◌, refl, ap, true, false, ◌&&◌, none, List, [], ◌∷◌, arith, min,
  ◌==◌, if◌then◌else◌,
}
use pollnet.Base.Buf.{Buf, of_list, memcpy}
use pollnet.Wire.{all_bytes-IsBytes}
use pollnet.Efvitcp.Csum.{ones_sum}
use pollnet.Efvitcp.Conn.{Conn, is_closed}
use pollnet.Efvitcp.Conn.Bufs.{has_stamps, get_ack_buf}
use pollnet.Efvitcp.Conn.Copy.{copy_and_sum}
use pollnet.Efvitcp.Conn.Send.{send, get_sendable, close}
use pollnet.Efvitcp.Conn.Setup.{reset, send_syn}
use pollnet.Efvitcp.Conn.Syn.{on_syn, on_establish}
use pollnet.Efvitcp.Conn.Ack.{cubic_root, advance_una, send_unsent}
use pollnet.Efvitcp.Conn.Text.{take_text}
use pollnet.Efvitcp.Conn.Pack.{Pack, is_unacceptable, cut_text}
use pollnet.Efvitcp.Conn.Window.{IsCarried}
use pollnet.Efvitcp.Conn.Receive.{take_text-cut_text}
use pollnet.Efvitcp.Conn.Accept.{IsQueue, send-get_sendable}
use pollnet.Efvitcp.Conn.Bytes.{byte_sum}
use pollnet.Efvitcp.Conn.Sum.{copy_and_sum-byte_sum}
use pollnet.Efvitcp.Conn.Closing.{IsEnded, Ends, close-Ends}
use pollnet.Efvitcp.Conn.Retry.{fires, fires-is_closed}
use pollnet.Efvitcp.Conn.Free.{FreeBelow, get_ack_buf-FreeBelow}
use pollnet.Efvitcp.Conn.Flow.{
  IsStopped, backlog, send_unsent-IsStopped, Advanced, advance_una-Advanced,
}
use pollnet.Efvitcp.Conn.Content.{IsReceived}
use pollnet.Efvitcp.Conn.Stored.{IsStored}
use pollnet.Segs.{skip}
use pollnet.Efvitcp.Conn.Deliver.{Delivers}
use pollnet.Efvitcp.Conn.Offer.{last_frame, IsFrame, send_syn-Agreed}
use pollnet.Efvitcp.Conn.Settle.{Agreed}
use pollnet.Efvitcp.Conn.Examples.{conf, blank, fresh, handler, begun, opening, busy}

busy-IsQueue : IsQueue conf busy.snd
busy-IsQueue = record {
  una_word = omega arith;
  next_word = omega arith;
  nonempty = omega arith;
  fits = omega arith;
  small = omega arith;
  filled = omega arith;
  fresh = λ e. absurd (omega (arith, e));
}

send-get_sendable_example :
    let (c', n) = send conf 7 (λ i. i) 9 false busy in
    IsQueue conf c'.snd × (n ≡ min 9 (get_sendable conf busy))
send-get_sendable_example = send-get_sendable conf 7 (λ i. i) 9 false busy busy-IsQueue

abbrev some_bytes : List ℕ
some_bytes = 1 ∷ 2 ∷ 3 ∷ 4 ∷ 5 ∷ 6 ∷ 7 ∷ 8 ∷ 9 ∷ 10 ∷ 250 ∷ 251 ∷ 252 ∷ 253 ∷ 254 ∷ []

copy_and_sum-byte_sum_example :
    let (mem', sum) = copy_and_sum (λ p. 0) 3 (of_list some_bytes) 15 in
    ((p : ℕ) → mem' p ≡ memcpy (λ p. 0) 3 (of_list some_bytes) 15 p)
    × (ones_sum sum ≡ ones_sum (byte_sum 3 (of_list some_bytes) 15))
copy_and_sum-byte_sum_example =
    copy_and_sum-byte_sum (λ p. 0) 3 (of_list some_bytes) 15 (all_bytes-IsBytes some_bytes refl)
      (omega arith) (omega arith)

cubic_root_1000 : cubic_root 8 1000 1 124 ≡ 10
unfolding cubic_root
cubic_root_1000 = refl

close-Ends_example :
    let c' = close conf 7 busy in IsEnded c' × Ends busy.effects c'.effects × (close conf 7 c' ≡ c')
unfolding is_closed
close-Ends_example = close-Ends conf 7 busy refl

fires-is_closed_example :
    is_closed (fires conf handler (1 ∷ 2 ∷ 3 ∷ []) (record busy { established = false })) ≡ true
fires-is_closed_example =
    fires-is_closed conf handler 1 (2 ∷ 3 ∷ []) (record busy { established = false }) refl

get_ack_buf-FreeBelow_example : FreeBelow conf busy.snd 4 (get_ack_buf conf busy).1
get_ack_buf-FreeBelow_example = get_ack_buf-FreeBelow conf busy busy-IsQueue (omega arith)

send_unsent-IsStopped_example :
    let c' = send_unsent conf 7 1 busy in
    IsStopped conf c'.snd × (c'.snd.send_una ≡ 0) × (backlog c'.snd ≤ 1)
send_unsent-IsStopped_example =
    send_unsent-IsStopped conf 7 1 busy (omega arith, omega arith) (omega arith)

advance_una-Advanced_example : Advanced conf 110 busy.snd (advance_una conf 2 110 busy).snd
advance_una-Advanced_example =
    advance_una-Advanced conf 110 2 busy (omega arith) (omega arith) (omega arith)

-- A frame of a stream that counts, with two old bytes, three new ones and a FIN.
abbrev receiving : Conn
receiving = record busy { rcv = record busy.rcv { recv_buf_seq = 500 } }

receiving-IsReceived : IsReceived (λ n. n % 256) 4096 receiving.rcv
receiving-IsReceived = record {
  seq_word = omega arith;
  order = (omega arith, omega arith);
  count = omega arith;
  content = λ p k. absurd (ground arith);
}

abbrev pack : Pack
pack = record { seq_num = 498; off = 0; size = 6; stamps = none }

pack-IsCarried : IsCarried (λ n. n % 256) pack true (λ i. (498 + i) % 256)
pack-IsCarried = record {
  word = omega arith;
  short = omega arith;
  with_fin = omega arith;
  bytes = λ k h. omega arith;
}

take_text-cut_text_example :
    let t = (cut_text conf pack true receiving).0 in
    let c' = take_text conf handler t (λ i. (498 + i) % 256) receiving in
    IsReceived (λ n. n % 256) 4096 c'.rcv
    × ((5 ≤ skip t.loc receiving.rcv.segs) ⊎ IsStored t receiving.rcv c'.rcv)
    × Delivers (λ n. n % 256) handler receiving c'
unfolding is_unacceptable cut_text
take_text-cut_text_example =
    take_text-cut_text (λ n. n % 256) conf handler pack true (λ i. (498 + i) % 256) receiving
      (omega arith) (record { rcv = λ xs c. refl; bound = λ xs c. omega arith })
      receiving-IsReceived pack-IsCarried refl refl

-- The frame of the SYN that was sent, behind its Ethernet header.
abbrev syn_frame : Buf
syn_frame i = if i == 46 then 160 else (last_frame blank opening.effects).area (i - 54)

behind_46 : (area : Buf) (k : ℕ) → (if 54 + k == 46 then 160 else area (54 + k - 54)) ≡ area k
behind_46 area k = let e : 54 + k - 54 ≡ k = omega arith in ground (arith, ap area e)

syn_frame-IsFrame : IsFrame syn_frame (last_frame blank opening.effects)
unfolding reset send_syn
syn_frame-IsFrame = record {
  offset = refl;
  same = λ k h. behind_46 (last_frame blank opening.effects).area k;
}

send_syn-Agreed_example :
    Agreed conf
      (has_stamps conf begun)
      (conf.window_scale && begun.has_ws)
      1000
      begun.recv_wnd_shift
      fresh
      (on_syn conf syn_frame fresh)
unfolding reset memcpy
send_syn-Agreed_example =
    send_syn-Agreed conf conf 1000 begun fresh syn_frame blank (omega arith)
      (refl, refl, refl, refl) (omega arith) syn_frame-IsFrame

-- Both ends agree, and the data that one sends then takes one frame.
abbrev opened : Conn
opened =
    on_establish conf 1030 handler syn_frame
      (on_syn conf syn_frame (record opening { recv_wnd_shift = 3 }))

opened_smss : opened.snd.smss ≡ 1448
unfolding reset send_syn on_syn on_establish memcpy
opened_smss = refl

opened_sends : (send conf 1040 (of_list some_bytes) 15 false opened).1 ≡ 15
unfolding reset send_syn on_syn on_establish send memcpy
opened_sends = refl
