-- ===== src/Efvitcp/Conn/Send.antt =====
-- What the user of a connection calls: `getSendable`, `send`, `sendv`, `sendFin`, `close` and the user
-- timers of efvitcp/TcpConn.h, with `sendPartial`, `sendAck` and `onClose` behind them.
use pollnet.Base.{
  ℕ, zero, suc, ◌+◌, ◌-◌, ◌*◌, ◌%◌, ◌^◌, Bool, true, false, not, ◌&&◌, ◌||◌, Option, none, some,
  List, [], ◌∷◌, ◌==◌, if◌then◌else◌, min, max,
}
use pollnet.Base.Word.{add32, sub32, is_neg32}
use pollnet.Base.Buf.{Buf, shift}
use pollnet.Wire.{swap16, swap32}
use pollnet.Segs.{at}
use pollnet.Efvitcp.Csum.{add16}
use pollnet.Efvitcp.Conn.{Conf, Conn, del_entry, enter_tw, emit, set_timer, is_closed}
use pollnet.Efvitcp.Conn.Bufs.{
  get_send_buf, set_send_buf, get_send_seq, has_stamps, send_buf, advance_next, advance_data,
  get_ack_buf, with_fin, with_rst,
}
use pollnet.Efvitcp.Conn.Copy.{copy_and_sum}

module _ (conf : Conf) where
  -- `send_una + Conf::ConnSendBufCnt - 1 == data_next`
  abbrev pub bufs_full : Conn → Bool
  bufs_full c = sub32 (add32 c.snd.send_una conf.conn_send_buf_cnt) 1 == c.snd.data_next

  unfoldable pub get_sendable : Conn → ℕ
  get_sendable c =
      let s = c.snd in
      if c.fin_sent
      then 0
      else sub32
          (sub32 (sub32 (add32 s.send_una conf.conn_send_buf_cnt) 1) s.data_next * s.smss % 2 ^ 32)
          s.data_next_size

  unfoldable pub get_immediately_sendable : Conn → ℕ
  unfolding get_sendable
  get_immediately_sendable c =
      let s = c.snd in
      let wnd = sub32 (sub32 s.both_wnd_seq (get_send_seq conf s.send_next s)) s.data_next_size in
      if not (s.data_next == s.send_next)
      then 0
      else min (if is_neg32 wnd then 0 else wnd) (get_sendable c)

module _ (conf : Conf) (now_ts : ℕ) where
  -- The data is appended to the buffer that is being filled.
  unfoldable pub append : Buf → ℕ → Conn → Conn
  unfolding copy_and_sum
  append src size c =
      let s = c.snd in
      let next = get_send_buf conf s.data_next s in
      let dst = (if has_stamps conf c then 12 else 0) + s.data_next_size in
      let (area, sum) = copy_and_sum next.area dst src size in
      record c {
        snd = record (set_send_buf conf s.data_next (record next { area = area }) s) {
          data_sum = add32 s.data_sum sum;
          data_next_size = add32 s.data_next_size size;
        };
      }

  -- Nothing waits before the buffer that is being filled, and the window has room for it.
  unfoldable pub can_send : Conn → Bool
  can_send c =
      let s = c.snd in
      let over = sub32 (add32 (get_send_seq conf s.data_next s) s.data_next_size) s.both_wnd_seq in
      (s.data_next == s.send_next) && (is_neg32 over || (over == 0))

  -- The buffer is sent, or it waits with its sum in `ack_num`; the next one is filled then.
  unfoldable pub finish_buf : Conn → Conn
  unfolding can_send send_buf advance_next advance_data
  finish_buf c =
      let s = c.snd in
      let next = get_send_buf conf s.data_next s in
      if can_send c
      then advance_data (
          advance_next conf now_ts s.data_next_size
            (send_buf conf now_ts s.data_next_size s.data_sum s.data_next c))
      else advance_data (record c {
        snd = set_send_buf conf s.data_next (record next { ack_num = s.data_sum }) s;
      })

  -- One round of `sendPartial`, with `size_to_append`.
  unfoldable pub send_round : Buf → ℕ → Bool → Conn → Conn
  unfolding append can_send finish_buf
  send_round src size last c =
      let c = append src size c in
      if (c.snd.data_next_size == c.snd.smss) || (last && can_send c) then finish_buf c else c

  -- `sendPartial`, and the number of bytes that it took.
  unfoldable pub send_partial : ℕ → Buf → ℕ → Bool → Conn → Conn × ℕ
  unfolding send_round
  send_partial zero src size last c = (c, 0)
  send_partial (suc fuel) src size last c =
      let n = min (sub32 c.snd.smss c.snd.data_next_size) size in
      let rest = send_partial fuel (shift src n) (size - n) last (send_round src n last c) in
      if (size == 0) || bufs_full conf c then (c, 0) else (rest.0, n + rest.1)

  unfoldable pub send : Buf → ℕ → Bool → Conn → Conn × ℕ
  unfolding send_partial
  send src size more c = if c.fin_sent then (c, 0) else send_partial size src size (not more) c

  -- The vectors are base addresses with sizes.
  unfoldable pub send_vectors : List (Buf × ℕ) → Conn → Conn × ℕ
  unfolding send_partial
  send_vectors [] c = (c, 0)
  send_vectors (v ∷ []) c = send_partial v.1 v.0 v.1 true c
  send_vectors (v ∷ w ∷ vs) c =
      let (c', n) = send_partial v.1 v.0 v.1 false c in
      let rest = send_vectors (w ∷ vs) c' in (rest.0, add32 n rest.1)

  unfoldable pub sendv : List (Buf × ℕ) → Conn → Conn × ℕ
  unfolding send_vectors
  sendv vs c = if c.fin_sent then (c, 0) else send_vectors vs c

  -- `timers[1]` is linked, unless it is already.
  unfoldable pub delay_ack : Conn → Conn
  delay_ack c = elim (c.timers 1) as (λ o. Conn) [
    | none ↦ set_timer 1 (some (max 1 conf.delayed_ack_ms)) c
    | some t ↦ c
  ]

  unfoldable pub send_ack_with : Bool → Conn × Option ℕ → Conn
  unfolding send_buf delay_ack
  send_ack_with immediate (c, none) = delay_ack c
  send_ack_with immediate (c, some idx) =
      let b = record (get_send_buf conf idx c.snd) {
        seq_num = (get_send_buf conf c.snd.send_next c.snd).seq_num;
      } in
      if (conf.delayed_ack_ms == 0) || immediate
      then send_buf conf now_ts 0 0 idx (record c { snd = set_send_buf conf idx b c.snd })
      else delay_ack c

  -- `sendAck`
  unfoldable pub send_ack : Bool → Conn → Conn
  unfolding get_ack_buf send_ack_with
  send_ack immediate c = send_ack_with immediate (get_ack_buf conf c)

module _ (conf : Conf) where
  -- `onClose`: the entry of the table ends.
  unfoldable pub on_close : Bool → Conn → Conn
  unfolding is_closed
  on_close to_time_wait c =
      let s = c.snd in
      let c' = record c {
        fin_sent = true;
        fin_received = true;
        established = false;
        timers = λ j. none;
      } in
      let b = record (get_send_buf conf 0 s) {
        seq_num = (get_send_buf conf s.send_next s).seq_num;
        ack_num = swap32 (add32 c.rcv.recv_buf_seq (at c.rcv.segs 0).second);
      } in
      if is_closed c
      then c
      else if to_time_wait
      then emit (enter_tw b c.has_ts c.recent_ts) (record c' { snd = set_send_buf conf 0 b s })
      else emit del_entry c'

module _ (conf : Conf) (now_ts : ℕ) where
  -- With a buffer that is free, the peer of an open connection is sent a RST.
  unfoldable pub send_rst : Conn × Option ℕ → Conn
  unfolding send_buf
  send_rst (c, none) = c
  send_rst (c, some idx) =
      let b = record (get_send_buf conf idx c.snd) {
        seq_num = (get_send_buf conf c.snd.send_next c.snd).seq_num;
      } in
      if c.established
      then send_buf conf now_ts 0 (swap16 4) idx
          (record c { snd = set_send_buf conf idx (with_rst b) c.snd })
      else c

  unfoldable pub close : Conn → Conn
  unfolding is_closed get_ack_buf send_rst on_close
  close c = if is_closed c then c else on_close conf false (send_rst (get_ack_buf conf c))

  unfoldable pub send_fin : Conn → Conn
  unfolding close send_buf advance_next advance_data
  send_fin c =
      let s = c.snd in
      let c' = record c {
        fin_sent = true;
        snd = record s {
          data_sum = add16 s.data_sum (swap16 1);
          data_next_size = add32 s.data_next_size 1;
        };
      } in
      let b = with_fin true (get_send_buf conf s.data_next s) in
      let alone = (s.data_next == s.send_next) && (c'.snd.data_next_size == 1) in
      let sent =
        send_buf conf now_ts 0 c'.snd.data_sum s.data_next
          (record c' { snd = set_send_buf conf s.data_next b c'.snd }) in
      if c.fin_sent
      then c
      else if bufs_full conf c
      then close c
      else if alone
      then advance_data (advance_next conf now_ts 1 sent)
      else c'

-- `setUserTimer`
unfoldable pub set_user_timer : ℕ → ℕ → Conn → Conn
set_user_timer timer_id duration c =
    set_timer (2 + timer_id) (if duration == 0 then none else some duration) c
