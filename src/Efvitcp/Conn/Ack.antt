-- ===== src/Efvitcp/Conn/Ack.antt =====
-- The acknowledgement of an arriving frame, in `onPack` of efvitcp/TcpConn.h: the round trip time, the
-- congestion window, the retransmission `resendUna`, and the data that the window lets go.
use pollnet.Base.{
  ℕ, zero, suc, ◌+◌, ◌-◌, ◌*◌, ◌/◌, ◌%◌, ◌^◌, Bool, true, false, not, ◌&&◌, ◌||◌, Option, none,
  some, ltb, leb, ◌==◌, if◌then◌else◌, min, max,
}
use pollnet.Base.Word.{add32, sub32, is_neg32, asr32, abs32, sub64, asr64}
use pollnet.Wire.{swap32, le32}
use pollnet.Efvitcp.Csum.{fold, set_var16, set_var_word}
use pollnet.Efvitcp.Conn.{Conf, Conn, sends, emit, set_timer}
use pollnet.Efvitcp.Conn.Bufs.{
  bit, get_send_buf, set_send_buf, get_send_seq, has_stamps, get_recv_window_size, update_rto,
  update_last_ack, start_resend_timer, send_buf, advance_next, advance_data, with_fin, put32,
}

-- The smoothed round trip time and its deviation, after a measurement.
unfoldable pub update_rtt : ℕ → Conn → Conn
update_rtt rtt c =
    let rttvar = sub32 c.rttvar (asr32 (sub32 c.rttvar (abs32 (sub32 rtt c.srtt))) 2) in
    record c { rttvar = rttvar; srtt = sub32 c.srtt (asr32 (sub32 c.srtt rtt) 3) }

-- The largest `r` below 125 whose cube is at most `wmax`: the loop on `l` and `r`.
unfoldable pub cubic_root : ℕ → ℕ → ℕ → ℕ → ℕ
cubic_root zero wmax l r = r
cubic_root (suc fuel) wmax l r =
    let m = (l + r) / 2 in
    let is_low = leb (m * m * m) wmax in
    let rest = cubic_root fuel wmax (if is_low then m + 1 else l) (if is_low then r else m - 1) in
    if leb l r then rest else r

-- `W_cubic`, in 64 bits: `t_k` is negative before the plateau.
unfoldable pub w_cubic : ℕ → ℕ → ℕ → ℕ → ℕ
w_cubic duration cubic_k cubic_wmax smss =
    let t_k = sub64 (duration / 1024) cubic_k in
    (asr64 (t_k * t_k * t_k % 2 ^ 64) 2 + cubic_wmax) * smss % 2 ^ 64

-- The window in congestion avoidance, after `duration` in it.
unfoldable pub avoid : Conf → ℕ → Conn → ℕ
unfolding w_cubic
avoid conf duration c =
    let g = c.cong in
    let smss = c.snd.smss in
    let est = g.ssthresh + 3 * smss % 2 ^ 32 * duration / (7 * c.srtt % 2 ^ 32) in
    let cubic = w_cubic duration g.cubic_k g.cubic_wmax smss in
    if conf.congestion == 1
    then min (2 ^ 30) (g.ssthresh + smss * duration / c.srtt)
    else if not (conf.congestion == 2)
    then g.cwnd
    else if ltb cubic est
    then min (2 ^ 30) est
    else if ltb g.cwnd cubic
    then (g.cwnd + smss * (cubic - g.cwnd) % 2 ^ 64 / g.cwnd) % 2 ^ 32
    else g.cwnd

module _ (conf : Conf) (now_ts : ℕ) where
  -- The congestion window grows when new data is acknowledged outside of a recovery.
  unfoldable pub grow : ℕ → Conn → Conn
  unfolding avoid
  grow newly_acked_size c =
      let g = c.cong in
      let g' = if g.cong_av then g else record g { cong_av = true; cong_av_ts = now_ts } in
      if conf.congestion == 0
      then c
      else if ltb g.cwnd g.ssthresh
      then record c { cong = record g { cwnd = add32 g.cwnd (min c.snd.smss newly_acked_size) } }
      else if ltb g.cwnd (2 ^ 30)
      then record c {
        cong = record g' {
          cwnd = avoid conf (sub32 now_ts g'.cong_av_ts) (record c { cong = g' });
        };
      }
      else c

module _ (conf : Conf) where
  -- `ssthresh` after a loss.
  unfoldable pub new_ssthresh : Conn → ℕ
  new_ssthresh c =
      let s = c.snd in
      let flight = sub32 (get_send_seq conf s.send_next s) (get_send_seq conf s.send_una s) in
      if conf.congestion == 1
      then max (flight / 2) (s.smss * 2 % 2 ^ 32)
      else if conf.congestion == 2
      then max (c.cong.cwnd - c.cong.cwnd / 4) (s.smss * 2 % 2 ^ 32)
      else c.cong.ssthresh

module _ (conf : Conf) (now_ts : ℕ) where
  -- The oldest buffer in flight is sent again: its words that change are exchanged in its checksum.
  unfoldable pub resend_una : Bool → Conn → Conn
  unfolding update_last_ack get_recv_window_size set_var16 set_var_word fold new_ssthresh
  resend_una reset_ssthresh c =
      let (c1, ack_num) = update_last_ack (record c { retries = (c.retries + 1) % 32 }) in
      let una = get_send_buf conf c1.snd.send_una c1.snd in
      let (sum1, ack) = set_var_word true una.ack_num ack_num (2 ^ 16 - 1 - una.checksum) in
      let (sum2, window) = set_var16 true una.window_size (get_recv_window_size conf c1) sum1 in
      let (sum3, now) = set_var_word true (le32 una.area 4) (swap32 now_ts) sum2 in
      let (sum4, recent) = set_var_word true (le32 una.area 8) (swap32 c1.recent_ts) sum3 in
      let stamps = has_stamps conf c1 in
      let b = record una {
        ack_num = ack;
        window_size = window;
        checksum = fold (if stamps then sum4 else sum2);
        area = if stamps then put32 (put32 una.area 4 now) 8 recent else una.area;
      } in
      let b' = record b { avail = false; send_ts = now_ts } in
      let c2 = emit (sends b) (record c1 { snd = set_send_buf conf c1.snd.send_una b' c1.snd }) in
      if reset_ssthresh
      then record c2 { cong = record c2.cong { ssthresh = new_ssthresh conf c2 } }
      else c2

module _ (conf : Conf) where
  -- `while (send_una != send_next && ...) send_una++`
  unfoldable pub advance_una : ℕ → ℕ → Conn → Conn
  advance_una zero ack_num c = c
  advance_una (suc fuel) ack_num c =
      let s = c.snd in
      let una = add32 s.send_una 1 in
      let rest = advance_una fuel ack_num (record c { snd = record s { send_una = una } }) in
      if not (s.send_una == s.send_next) && not (is_neg32 (sub32 ack_num (get_send_seq conf una s)))
      then rest
      else c

module _ (conf : Conf) (now_ts : ℕ) where
  -- The timers and the congestion control after new data was acknowledged.
  unfoldable pub recover_or_grow : ℕ → Conn → Conn
  unfolding resend_una grow
  recover_or_grow newly_acked_size c =
      let g = c.cong in
      let past = sub32 c.snd.send_una g.recover in
      let whole = record g {
        in_recover = if is_neg32 past || (past == 0) then g.in_recover else false;
        fast_re = false;
        cwnd = if conf.congestion == 0 then g.cwnd else g.ssthresh;
      } in
      if not g.in_recover
      then grow conf now_ts newly_acked_size c
      else if is_neg32 past
      then resend_una conf now_ts false c
      else record c { cong = whole }

  -- New data was acknowledged: `old_una` is where `send_una` stood, `echo` is `tsecr`.
  unfoldable pub on_new_ack : ℕ → Option ℕ → Conn → Conn
  unfolding update_rtt update_rto start_resend_timer recover_or_grow
  on_new_ack old_una echo c =
      let s = c.snd in
      let acked = get_send_buf conf old_una s in
      let newly = sub32 (get_send_seq conf s.send_una s) (swap32 acked.seq_num) in
      let send_ts = elim echo as (λ o. ℕ) [ none ↦ acked.send_ts | some t ↦ t ] in
      let past = sub32 now_ts send_ts in
      let rtt = if is_neg32 past then 1 else max 1 past in
      let c1 = record c { cong = record c.cong { dup_ack_cnt = 0 }; retries = 0 } in
      let c2 = set_timer 0 none (update_rto conf (update_rtt rtt c1)) in
      recover_or_grow newly (if s.send_una == s.send_next then c2 else start_resend_timer c2)

  -- What the third duplicate makes of the congestion control.
  unfoldable pub enter_recovery : Conn → Conn
  unfolding resend_una cubic_root
  enter_recovery c =
      let g = record c.cong { fast_re = true; in_recover = true; recover = c.snd.send_next } in
      let c1 = resend_una conf now_ts true (record c { cong = g }) in
      let h = c1.cong in
      let smss = c1.snd.smss in
      let wmax = h.cwnd / smss in
      let h' =
        if conf.congestion == 1
        then record h { cwnd = (h.ssthresh + 3 * smss) % 2 ^ 32 }
        else if conf.congestion == 2
        then record h { cubic_wmax = wmax; cwnd = h.ssthresh; cubic_k = cubic_root 8 wmax 1 124 }
        else h in
      record c1 { cong = if conf.congestion == 0 then h' else record h' { cong_av = false } }

  -- A duplicate acknowledgement, and `tmp_cwnd`.
  unfoldable pub on_dup_ack : Conn → Conn × ℕ
  unfolding enter_recovery
  on_dup_ack c =
      let n = add32 c.cong.dup_ack_cnt 1 in
      let c1 = record c { cong = record c.cong { dup_ack_cnt = n } } in
      let g = c1.cong in
      let smss = c.snd.smss in
      let tmp_cwnd = n * smss % 2 ^ 32 in
      if (n == 3) && not g.in_recover
      then (enter_recovery c1, 0)
      else if conf.congestion == 0
      then (c1, 0)
      else if g.fast_re
      then (record c1 { cong = record g { cwnd = add32 g.cwnd smss } }, 0)
      else (record c1 { cong = record g { cwnd = add32 g.cwnd tmp_cwnd } }, tmp_cwnd)

  -- One round of the loop that sends what waits, with `data_size`.
  unfoldable pub send_waiting : ℕ → Conn → Conn
  unfolding send_buf advance_data advance_next
  send_waiting data_size c =
      let s = c.snd in
      let next = get_send_buf conf s.send_next s in
      let c1 = record c { snd = set_send_buf conf s.send_next (with_fin c.fin_sent next) s } in
      if s.data_next == s.send_next
      then advance_next conf now_ts data_size (
          advance_data
            (send_buf conf now_ts (data_size - bit c.fin_sent) s.data_sum s.send_next c1))
      else advance_next conf now_ts data_size
          (send_buf conf now_ts data_size next.ack_num s.send_next c)

  -- `while (uint32_t data_size = ...)`
  unfoldable pub send_unsent : ℕ → Conn → Conn
  unfolding send_waiting
  send_unsent zero c = c
  send_unsent (suc fuel) c =
      let s = c.snd in
      let data_size = if s.data_next == s.send_next then s.data_next_size else s.smss in
      let over = sub32 (add32 (get_send_seq conf s.send_next s) data_size) s.both_wnd_seq in
      let rest = send_unsent fuel (send_waiting data_size c) in
      if data_size == 0 then c else if is_neg32 over || (over == 0) then rest else c
