-- ===== src/Efvitcp/Conn/Pack.antt =====
-- `onPack` and `onTimer` of efvitcp/TcpConn.h: the checks of an arriving frame, in the order of the
-- steps of RFC 793, and what the timers do.
use pollnet.Base.{
  ℕ, zero, suc, ◌+◌, ◌-◌, ◌*◌, ◌/◌, ◌%◌, ◌^◌, Bool, true, false, not, ◌&&◌, ◌||◌, Option, none,
  some, length, set, ltb, leb, ◌==◌, if◌then◌else◌, min,
}
use pollnet.Base.Word.{add32, sub32, is_neg32}
use pollnet.Base.Buf.{Buf, shift, bytes}
use pollnet.Wire.{swap16, swap32, le32, sequence_number, total_length, data_offset, syn_flag}
use pollnet.Segs.{seg, at, skip, slot_end}
use pollnet.Efvitcp.Conn.{
  Conf, Conn, Handler, on_reset, on_timeout, on_more_sendable, on_closed, on_fin, on_user_timeout,
  tell,
}
use pollnet.Efvitcp.Conn.Bufs.{bit, has_stamps, get_rmss, update_both_wnd_seq, start_resend_timer}
use pollnet.Efvitcp.Conn.Send.{send_ack, on_close, close}
use pollnet.Efvitcp.Conn.Syn.{peer_window}
use pollnet.Efvitcp.Conn.Ack.{advance_una, on_new_ack, on_dup_ack, send_unsent, resend_una}
use pollnet.Efvitcp.Conn.Text.{Text, max_recv_segs, skip_old, put_seg, clip, set_rcv, take_text}

-- The flags of `TcpHeader`.
abbrev pub flag : ℕ → Buf → Bool
flag i d = d 47 / 2 ^ i % 2 == 1

-- `tsval` and `tsecr`, where the option is found: `while (opt + 10 <= data)`.
unfoldable pub find_stamps : ℕ → Buf → ℕ → ℕ → Option (ℕ × ℕ)
find_stamps zero d opt end = none
find_stamps (suc fuel) d opt end =
    let kind = d opt in
    let len = d (opt + 1) in
    let rest = find_stamps fuel d (if leb kind 1 then opt + 1 else opt + 2 + (len - 2)) end in
    if not (leb (opt + 10) end)
    then none
    else if not (leb kind 1) && ((kind == 8) && (len == 10))
    then some (swap32 (le32 d (opt + 2)), swap32 (le32 d (opt + 6)))
    else rest

-- A frame's numbers: the text lies at `off` and takes `size` numbers with its FIN.
pub record Pack : Type 0 where
  pub seq_num : ℕ
  pub off : ℕ
  pub size : ℕ
  pub stamps : Option (ℕ × ℕ)

module _ (conf : Conf) where
  unfoldable pub read_pack : Buf → Conn → Pack
  unfolding find_stamps
  read_pack d c =
      let end = 34 + data_offset d * 4 in
      record {
        seq_num = add32 (swap32 (sequence_number d)) (syn_flag d);
        off = end;
        size = add32 (sub32 (14 + min (swap16 (total_length d)) 1500) end) (bit (flag 0 d));
        stamps =
            if not (has_stamps conf c)
            then none
            else if leb 66 end && (le32 d 54 == swap32 0x0101080a)
            then some (swap32 (le32 d 58), swap32 (le32 d 62))
            else find_stamps (end - 54) d 54 end;
      }

  -- `recent_ts` follows the frame that the next acknowledgement answers.
  unfoldable pub note_stamps : Pack → Conn → Conn
  note_stamps p c = elim p.stamps as (λ o. Conn) [
    | none ↦ c
    | some s ↦
        let ahead = sub32 p.seq_num c.last_ack_seq in
        if (is_neg32 ahead || (ahead == 0)) && not (is_neg32 (sub32 s.0 c.recent_ts))
        then record c { recent_ts = s.0 }
        else c
  ]

  abbrev pub text_of : Pack → Conn → Text
  text_of p c =
      let loc = sub32 p.seq_num c.rcv.recv_buf_seq in
      record { loc = loc; loc_end = add32 loc p.size; off = p.off }

  -- The first check: neither end of the frame is in the window, or its timestamp is old.
  unfoldable pub is_unacceptable : Pack → Conn → Bool
  is_unacceptable p c =
      let t = text_of p c in
      let expected = (at c.rcv.segs 0).second in
      let after = sub32 t.loc_end expected in
      let past = sub32 t.loc_end conf.conn_recv_buf_size in
      let is_old = elim p.stamps as (λ o. Bool) [
        | none ↦ false
        | some s ↦ conf.timestamp && is_neg32 (sub32 s.0 c.recent_ts)
      ] in
      ((is_neg32 (sub32 t.loc expected) || not (is_neg32 (sub32 t.loc conf.conn_recv_buf_size)))
        && ((is_neg32 after || (after == 0)) || (not (is_neg32 past) && not (past == 0))))
      || is_old

  -- The text that is new and in the window, and whether its FIN is.
  unfoldable pub cut_text : Pack → Bool → Conn → Text × Bool
  unfolding skip_old clip
  cut_text p fin c =
      let t = skip_old (at c.rcv.segs 0).second (text_of p c) in
      clip conf.conn_recv_buf_size fin (record t { loc_end = sub32 t.loc_end (bit fin) })

  -- The peer's window, and whether it was moved.
  unfoldable pub update_window : Buf → Conn → Conn × Bool
  update_window d c =
      let new_seq = add32 (swap32 (le32 d 42)) (peer_window conf d c) in
      let ahead = sub32 new_seq c.snd.send_wnd_seq in
      if not c.fin_sent && (not (is_neg32 ahead) && not (ahead == 0))
      then (record c { snd = record c.snd { send_wnd_seq = new_seq } }, true)
      else (c, false)

module _ (conf : Conf) (now_ts : ℕ) (h : Handler) where
  -- The fifth check: what is acknowledged leaves the buffers, and what waits may be sent.
  unfoldable pub process_ack : Pack → Buf → Conn → Conn
  unfolding update_window advance_una on_new_ack on_dup_ack update_both_wnd_seq send_unsent tell
  process_ack p d c =
      let (c0, window_updated) = update_window conf d c in
      let old_una = c0.snd.send_una in
      let c1 = advance_una conf (sub32 c0.snd.send_next old_una) (swap32 (le32 d 42)) c0 in
      let is_new = not (old_una == c1.snd.send_una) in
      let echo = elim p.stamps as (λ o. Option ℕ) [
        | none ↦ none
        | some s ↦ if conf.timestamp then some s.1 else none
      ] in
      let is_dup =
        not (c1.snd.send_una == c1.snd.send_next) && (not window_updated && (p.size == 0)) in
      let (c2, tmp_cwnd) =
        if is_new
        then (on_new_ack conf now_ts old_una echo c1, 0)
        else if is_dup
        then on_dup_ack conf now_ts c1
        else (c1, 0) in
      let c3 = update_both_wnd_seq conf c2 in
      let c4 = send_unsent conf now_ts (sub32 c3.snd.data_next c3.snd.send_next + 1) c3 in
      let c5 =
        if conf.congestion == 0
        then c4
        else update_both_wnd_seq conf
            (record c4 { cong = record c4.cong { cwnd = sub32 c4.cong.cwnd tmp_cwnd } }) in
      if is_new then tell h on_more_sendable c5 else c5

  -- The eighth check, the FIN: it takes a number behind the text.
  unfoldable pub take_fin : Conn → Conn
  unfolding tell
  take_fin c =
      let s = at c.rcv.segs 0 in
      let c1 =
        set_rcv (λ r. record r { segs = set r.segs 0 (seg s.first (s.second + 1)) })
          (record c { pending_ack = true; fin_received = true }) in
      tell h (on_fin (bytes (shift c1.rcv.recv_buf s.first) (s.second - s.first))) c1

  -- The last steps: the acknowledgement, and the end of both directions.
  unfoldable pub finish_pack : Bool → Conn → Conn
  unfolding send_ack tell on_close
  finish_pack immediate c =
      let waiting = sub32 (add32 c.rcv.recv_buf_seq (at c.rcv.segs 0).second) c.last_ack_seq in
      let c1 =
        if c.pending_ack
        then send_ack conf now_ts (immediate || leb (2 * get_rmss conf c) waiting) c
        else c in
      if (c1.fin_sent && c1.fin_received)
        && (c1.established && (c1.snd.send_una == c1.snd.data_next))
      then on_close conf true (tell h on_closed c1)
      else c1

  -- The seventh step, and those behind it: a full buffer ends the connection.
  unfoldable pub process_text : Pack → Buf → Conn → Conn
  unfolding cut_text put_seg take_text take_fin finish_pack close tell
  process_text p d c =
      let (t, fin_in) = cut_text conf p (flag 0 d) c in
      let size = sub32 t.loc_end t.loc in
      let c1 = take_text conf h t d (record c { pending_ack = true }) in
      let segs = c.rcv.segs in
      let new_hole =
        (skip t.loc segs == slot_end t.loc t.loc_end segs) && ltb (skip t.loc segs) max_recv_segs in
      let immediate = ltb 1 (length segs) || new_hole in
      let fin_text = fin_in && ((at (put_seg t.loc t.loc_end segs) 0).second == t.loc_end) in
      let fin_bare = fin_in && (t.loc == (at segs 0).second) in
      if c.fin_received
      then finish_pack false c
      else if is_neg32 size || (size == 0)
      then (if fin_bare then finish_pack true (take_fin c) else finish_pack false c)
      else if (at c1.rcv.segs 0).second == conf.conn_recv_buf_size
      then close conf now_ts (tell h on_reset c1)
      else if fin_text
      then finish_pack true (take_fin c1)
      else finish_pack immediate c1

  unfoldable pub on_pack : Buf → Conn → Conn
  unfolding read_pack note_stamps is_unacceptable send_ack on_close tell process_ack process_text
  on_pack d c =
      let p = read_pack conf d c in
      let c = note_stamps conf p c in
      if is_unacceptable conf p c
      then (if flag 2 d then c else send_ack conf now_ts false c)
      else if flag 2 d
      then on_close conf false
          (if not c.fin_sent || not c.fin_received then tell h on_reset c else c)
      else if not (flag 4 d)
      then c
      else process_text p d (process_ack p d c)

  -- `onTimer`, of a timer that is unlinked already.
  unfoldable pub on_resend : Conn → Conn
  unfolding resend_una update_both_wnd_seq start_resend_timer close tell
  on_resend c =
      let c1 = resend_una conf now_ts (c.retries == 0) c in
      let g = c1.cong in
      let smss = c1.snd.smss in
      let g' = record g { cwnd = smss; cong_av = false } in
      let g'' =
        if conf.congestion == 2
        then record g' { cubic_k = 0; cubic_wmax = g.ssthresh / smss }
        else g' in
      let c2 =
        if conf.congestion == 0 then c1 else update_both_wnd_seq conf (record c1 { cong = g'' }) in
      let limit = min 31 (if c.established then conf.tcp_retries else conf.syn_retries) in
      if leb limit c.retries
      then close conf now_ts (tell h on_timeout c)
      else start_resend_timer (record c2 {
        cong = record c2.cong { fast_re = false; in_recover = true; recover = c2.snd.send_next };
        rto = min conf.max_rto_ms (c2.rto * 2 % 2 ^ 32);
      })

  unfoldable pub on_timer : ℕ → Conn → Conn
  unfolding on_resend send_ack tell
  on_timer timer_id c =
      if timer_id == 0
      then on_resend c
      else if timer_id == 1
      then send_ack conf now_ts true c
      else tell h (on_user_timeout (timer_id - 2)) c
