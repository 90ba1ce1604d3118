-- ===== src/Efvitcp/Wheel.antt =====
-- The two-level timer wheel of efvitcp/Core.h: `addTimer` and `pollTime`. A slot's ring of nodes is
-- the list of them from `slot->next` on. A tick is 2^20 ns.
pub mod Due
pub mod Run
use pollnet.Base.{
  ℕ, zero, suc, ◌+◌, ◌-◌, ◌*◌, ◌/◌, ◌%◌, ◌^◌, ◌≤◌, ◌<◌, ◌≡◌, ◌⊎◌, inl, inr, refl, Bool, true, false,
  List, [], ◌∷◌, ◌++◌, arith, if◌then◌else◌, ◌==◌, leb, ltb, min, ◌∙◌, ap, sym, Bool-cases,
}
use pollnet.Base.Word.{add32, sub32}

-- `TimerNode`, without its links.
pub record Node : Type 0 where
  pub conn_id : ℕ
  pub expire_ts : ℕ

-- `now_ts` and `timer_slots[0]`, `timer_slots[1]`
pub record Wheel : Type 0 where
  pub now_ts : ℕ
  pub short : ℕ → List Node
  pub long : ℕ → List Node

-- `TimerSlots`
abbrev pub timer_slots : ℕ
timer_slots = 256

-- Write a slot.
abbrev pub with_slot : (ℕ → List Node) → ℕ → List Node → ℕ → List Node
with_slot slots i nodes j = if j == i then nodes else slots j

-- `addTimer`: a duration of up to 256 ticks goes into the first level, and leaves `expire_ts`; a
-- longer one is cut to what the second level can hold.
unfoldable pub add_timer : ℕ → Node → Wheel → Wheel
add_timer duration_ts node w =
    let short_slot = add32 w.now_ts duration_ts % timer_slots in
    let cut = min duration_ts (timer_slots * (timer_slots + 1) - 1 - w.now_ts % timer_slots) in
    let expire_ts = add32 w.now_ts cut in
    let long_slot = expire_ts / timer_slots % timer_slots in
    if leb duration_ts timer_slots
    then record w { short = with_slot w.short short_slot (node ∷ w.short short_slot) }
    else record w {
      long = with_slot w.long long_slot (record node { expire_ts = expire_ts } ∷ w.long long_slot);
    }

-- The nodes of a slot of the second level, one after the other.
pub add_all : List Node → Wheel → Wheel
unfolding add_timer
add_all [] w = w
add_all (node ∷ nodes) w = add_all nodes (add_timer (sub32 node.expire_ts w.now_ts) node w)

-- Every 256 ticks the next slot of the second level is emptied into the first one.
pub cascade : Wheel → Wheel
unfolding add_all
cascade w =
    let i = w.now_ts / timer_slots % timer_slots in
    let w' = add_all (w.long i) w in
    if w.now_ts % timer_slots == 0 then record w' { long = with_slot w'.long i [] } else w

-- The slot of the tick is emptied.
pub expire : Wheel → Wheel × List Node
expire w =
    let i = w.now_ts % timer_slots in (record w { short = with_slot w.short i [] }, w.short i)

-- `pollTime` at the time `ts`, up to the calls for the nodes that it has taken out: one tick, if the
-- time has moved on.
unfoldable pub poll_time : ℕ → Wheel → Wheel × List Node
unfolding cascade expire
poll_time ts w =
    if ts == w.now_ts then (w, []) else expire (cascade (record w { now_ts = add32 w.now_ts 1 }))
