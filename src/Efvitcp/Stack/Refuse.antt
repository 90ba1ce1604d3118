-- ===== src/Efvitcp/Stack/Refuse.antt =====
-- A connection that is refused: the SYN of efvitcp/TcpConn.h, the answer of `rspRst` of
-- efvitcp/Core.h at the other end, and what efvitcp/TcpClient.h makes of it.
use pollnet.Base.{
  ℕ, ◌/◌, ◌^◌, ◌<◌, ◌≡◌, ◌≢◌, refl, sym, ap, subst, ◌∙◌, true, false, none, [], ◌∷◌, List, arith,
  ==_iff,
}
use pollnet.Base.Word.{add32}
use pollnet.Base.Buf.{Buf}
use pollnet.Wire.{swap32, le32}
use pollnet.Efvitcp.Conn.{Conf, Conn, SendBuf, del_entry}
use pollnet.Efvitcp.Table.{empty_key, home}
use pollnet.Efvitcp.Core.Ids.{IsIds, del_entry-IsIds}
use pollnet.Efvitcp.Conn.Setup.{send_syn}
use pollnet.Efvitcp.Conn.Pack.{flag}
use pollnet.Efvitcp.Conn.{Handler, is_closed}
use pollnet.Efvitcp.Conn.Send.{on_close}
use pollnet.Efvitcp.Core as CoreMod
use pollnet.Efvitcp.Core.{Core}
use pollnet.Efvitcp.Core.Replies.{rst_buf, rsp_rst, seg_len, with_flags, sum_rst, send_frame}
use pollnet.Efvitcp.Core.Checked.{rsp_rst-sends}
use pollnet.Efvitcp.Stack.{Stack, refused, call, finish_call, conn_key, do_effect, do_effects}
use pollnet.Efvitcp.Stack.Client.{acks_syn, on_syn_sent}
use pollnet.Efvitcp.Stack.Syn.{Carries, sent_syn, sent_syn-IsSyn, next_seq, send_syn-next}

rst_buf-fields :
    (d : Buf) (b : SendBuf)
    → flag 4 d ≡ false
    → ((rst_buf d b).ack_num ≡ swap32 (add32 (swap32 (le32 d 38)) (seg_len d)))
      × ((rst_buf d b).offset_flags ≡ with_flags 5 true true b.offset_flags)
unfolding rst_buf
rst_buf-fields d b e = rw e (refl, refl)

set_flags :
    (d : Buf) (flags : ℕ)
    → flags < 2 ^ 16
    → d 47 ≡ with_flags 5 true true flags / 256
    → (flag 4 d ≡ true) × (flag 2 d ≡ true)
set_flags d flags h e = (ground (arith, h), ground (arith, h))

-- The answer of the other end, whose last buffer is free.
abbrev pub answer : SendBuf → List SendBuf → SendBuf
answer x [] = x
answer x (b ∷ bs) = b

rsp_rst-fields :
    (x : SendBuf) (d : Buf) (r : Core)
    → flag 4 d ≡ false
    → flag 2 d ≡ false
    → r.rst.avail ≡ true
    → let b = answer x (rsp_rst d r).sent in
      (b.ack_num ≡ swap32 (add32 (swap32 (le32 d 38)) (seg_len d)))
      × (b.offset_flags ≡ with_flags 5 true true r.rst.offset_flags)
unfolding send_frame sum_rst
rsp_rst-fields x d r e f a = rw (rsp_rst-sends d r f a) (rst_buf-fields d r.rst e)

-- The RST that answers the SYN acknowledges it.
rsp_rst-acks_syn :
    (conf : Conf) (now_ts : ℕ) (c : Conn) (x : SendBuf) (r : Core) (d d' : Buf)
    → c.pending_ack ≡ false
    → r.rst.offset_flags < 2 ^ 16
    → r.rst.avail ≡ true
    → Carries d (sent_syn conf now_ts c x)
    → Carries d' (answer x (rsp_rst d r).sent)
    → (acks_syn conf d' (send_syn conf now_ts c) ≡ true) × (flag 2 d' ≡ true)
unfolding acks_syn
rsp_rst-acks_syn conf now_ts c x r d d' p o free k l =
    let v = sent_syn-IsSyn conf now_ts c x d p k in
    let (a, f) = rsp_rst-fields x d r v.no_ack v.no_rst free in
    let (acked, reset) = set_flags d' r.rst.offset_flags o (l.flags ∙ ap (λ n. n / 256) f) in
    let same : le32 d' 42 ≡ next_seq conf (send_syn conf now_ts c) =
      l.ack
      ∙ a
      ∙ ap (λ n. swap32 (add32 (swap32 (le32 d 38)) n)) v.takes
      ∙ ap (λ n. swap32 (add32 (swap32 n) 1)) v.number
      ∙ sym (send_syn-next conf now_ts c) in
    (rw acked ((==_iff _ _).1 same), reset)

-- What `onClose` does to an open connection and to the core.
abbrev closed : Conn → Conn
closed c = record c {
  fin_sent = true;
  fin_received = true;
  established = false;
  timers = λ j. none;
  effects = del_entry ∷ [];
}

on_close-closed :
    (conf : Conf) (c : Conn)
    → is_closed c ≡ false
    → on_close conf false (record c { effects = [] }) ≡ closed c
unfolding on_close is_closed
on_close-closed conf c o = simp o

finish_call-closed :
    (core_conf : CoreMod.Conf) (conf : Conf) (c : Conn) (s : Stack)
    → let s' = finish_call core_conf conf 0 (closed c) s in
      (is_closed (s'.conns 0) ≡ true)
      × (s'.told ≡ s.told)
      × (s'.core ≡ CoreMod.del_entry core_conf (conn_key conf c) s.core)
unfolding finish_call do_effects do_effect is_closed
finish_call-closed core_conf conf c s = (refl, refl, refl)

on_close-call :
    (core_conf : CoreMod.Conf) (conf : Conf) (s : Stack)
    → is_closed (s.conns 0) ≡ false
    → let s' = call core_conf conf 0 (on_close conf false) s in
      (is_closed (s'.conns 0) ≡ true)
      × (s'.told ≡ s.told)
      × (s'.core ≡ CoreMod.del_entry core_conf (conn_key conf (s.conns 0)) s.core)
unfolding call
on_close-call core_conf conf s o =
    subst
      (λ c.
        let s' = finish_call core_conf conf 0 c s in
        (is_closed (s'.conns 0) ≡ true)
        × (s'.told ≡ s.told)
        × (s'.core ≡ CoreMod.del_entry core_conf (conn_key conf (s.conns 0)) s.core))
      (sym (on_close-closed conf (s.conns 0) o)) (finish_call-closed core_conf conf (s.conns 0) s)

refuse :
    (core_conf : CoreMod.Conf) (conf : Conf) (h : Handler) (d : Buf) (s : Stack)
    → acks_syn conf d (s.conns 0) ≡ true
    → flag 2 d ≡ true
    → on_syn_sent core_conf conf h d s
      ≡ call core_conf conf 0 (on_close conf false) (record s { told = refused ∷ s.told })
unfolding on_syn_sent
refuse core_conf conf h d s a f = simp (a, f)

-- A client's SYN is answered by a RST of another host, where the last buffer is free. When the
-- client, whose SYN it was, gets that RST, in a table in order that holds the connection's key, it
-- reports the refusal and nothing else, the connection is closed, its key is in the table no more,
-- and the table and the identifiers are in order.
pub rsp_rst-on_syn_sent :
    (core_conf : CoreMod.Conf) (conf : Conf) (h : Handler) (now_ts p stop : ℕ) (c : Conn)
    (x : SendBuf) (r : Core) (d d' : Buf) (s : Stack)
    → c.pending_ack ≡ false
    → s.conns 0 ≡ send_syn conf now_ts c
    → is_closed (s.conns 0) ≡ false
    → r.rst.offset_flags < 2 ^ 16
    → r.rst.avail ≡ true
    → Carries d (sent_syn conf now_ts c x)
    → Carries d' (answer x (rsp_rst d r).sent)
    → home s.core.tbl_mask empty_key ≡ 0
    → IsIds core_conf s.core
    → (s.core.conn_tbl p).key ≡ conn_key conf (s.conns 0)
    → conn_key conf (s.conns 0) ≢ empty_key
    → p < stop
    → (s.core.conn_tbl stop).key ≡ empty_key
    → stop < core_conf.total
    → let s' = on_syn_sent core_conf conf h d' s in
      (s'.told ≡ refused ∷ s.told)
      × (is_closed (s'.conns 0) ≡ true)
      × IsIds core_conf s'.core
      × ((q : ℕ) → (s'.core.conn_tbl q).key ≢ conn_key conf (s.conns 0))
rsp_rst-on_syn_sent core_conf conf h now_ts p stop c x r d d' s a e o f free k l z v g n t w u =
    let (acked, reset) = rsp_rst-acks_syn conf now_ts c x r d d' a f free k l in
    let acked' = subst (λ b. acks_syn conf d' b ≡ true) (sym e) acked in
    let s1 : Stack = record s { told = refused ∷ s.told } in
    let (x1, x2, x3) = on_close-call core_conf conf s1 o in
    let (y1, y2) = del_entry-IsIds core_conf s.core p stop z v (λ q. n (sym g ∙ q)) t w u in
    let key = conn_key conf (s.conns 0) in
    let same : CoreMod.del_entry core_conf (s.core.conn_tbl p).key s.core
        ≡ (call core_conf conf 0 (on_close conf false) s1).core =
      ap (λ m. CoreMod.del_entry core_conf m s.core) g ∙ sym x3 in
    subst
      (λ (s' : Stack).
        (s'.told ≡ refused ∷ s.told)
        × (is_closed (s'.conns 0) ≡ true)
        × IsIds core_conf s'.core
        × ((q : ℕ) → (s'.core.conn_tbl q).key ≢ key))
      (sym (refuse core_conf conf h d' s acked' reset))
      (
        x2,
        x1,
        subst (IsIds core_conf) same y1,
        λ q. subst (λ (b : Core). (b.conn_tbl q).key ≢ key) same (λ m. y2 q (m ∙ sym g)),
      )
