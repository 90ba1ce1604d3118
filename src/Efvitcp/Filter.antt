-- ===== src/Efvitcp/Filter.antt =====
-- The filters of efvitcp/Core.h: `delFilter`, `setClientFilter` with `autoGetPort`, `setServerFilter`.
pub mod Install
use Prim.Native.String.{String}
use pollnet.Base.{
  List, [], ◌∷◌, ℕ, zero, suc, ◌+◌, ◌-◌, ◌≤◌, ◌<◌, ◌≡◌, ◌≢◌, ◌⊎◌, Bool, true, false, Option, none,
  some, ◌==◌, refl, if◌then◌else◌, arith, inl, inr, Bool-cases,
}

-- What the adapter passes on: to a local port, for a client from one peer only.
pub record Filter : Type 0 where
  pub local_port : ℕ
  pub remote : Option (ℕ × ℕ)

-- The filters on the adapter: the one that `filter_cookie` names, if it is still in place, and those
-- that no cookie names any more.
pub record Filters : Type 0 where
  pub cookie : Option Filter
  pub lost : List Filter

-- `delFilter`: `ef_vi_filter_del` takes the cookie's filter away.
unfoldable pub del_filter : Filters → Filters
del_filter s = record s { cookie = none }

-- `ef_vi_filter_add` puts a filter in place, whose cookie is written over the last one.
abbrev pub and_lost : Option Filter → List Filter → List Filter
and_lost none fs = fs
and_lost (some f) fs = f ∷ fs

abbrev pub put_filter : Filter → Filters → Filters
put_filter f s = record { cookie = some f; lost = and_lost s.cookie s.lost }

-- What `::socket`, `bind` and `getsockname` make of a port that is asked for.
pub data Port : Type 0 where
  no_socket : Port
  no_bind : Port
  given : ℕ → Port

-- `autoGetPort`: an error, or a port.
pub data PortResult : Type 0 where
  failed : String → PortResult
  port : ℕ → PortResult

unfoldable pub auto_get_port : Port → PortResult
auto_get_port no_socket = failed "socket failed"
auto_get_port no_bind = failed "bind failed"
auto_get_port (given p) = port p

-- What `ef_vi_filter_add` makes of a filter.
pub data Added : Type 0 where
  added : Added
  exists : Added
  refused : Added

-- A round's calls: the port that the system offers, whether the filter can be specified, and the
-- result of adding it.
pub record Round : Type 0 where
  pub offered : Port
  pub specified : Bool
  pub result : Added

-- The result of setting a filter: the error, the local port, and the filters then.
pub record Set : Type 0 where
  pub err : Option String
  pub local_port : ℕ
  pub filters : Filters

-- The calls for one port; `none` continues with the next round.
unfoldable pub add_filter : Filter → Round → ℕ → Filters → Option Set
add_filter f r p s = elim r.specified as (λ b. Option Set) [
  | false ↦
      some (record { err = some "ef_filter_spec_set_ip4_full failed"; local_port = p; filters = s })
  | true ↦ elim r.result as (λ a. Option Set) [
    | added ↦ some (record { err = none; local_port = p; filters = put_filter f s })
    | exists ↦ none
    | refused ↦ some (record { err = some "ef_vi_filter_add failed"; local_port = p; filters = s })
  ]
]

abbrev pub wanted : ℕ × ℕ → ℕ → Filter
wanted remote p = record { local_port = p; remote = some remote }

-- A round, with the port before it, and what `autoGetPort` gives.
unfoldable pub round : Bool → ℕ × ℕ → Round → ℕ → PortResult → Filters → Option Set × ℕ
unfolding add_filter
round false remote r p o s = (add_filter (wanted remote p) r p s, p)
round true remote r p (failed e) s =
    (some (record { err = some e; local_port = p; filters = s }), p)
round true remote r p (port q) s = (add_filter (wanted remote q) r q s, q)

abbrev pub or_else : Option Set → Set → Set
or_else none s = s
or_else (some s') s = s'

module _ (auto_gen : Bool) (remote : ℕ × ℕ) (rounds : ℕ → Round) where
  -- `while (retries--)`
  unfoldable pub retry : ℕ → ℕ → ℕ → Filters → Set
  unfolding round auto_get_port
  retry zero i p s = record { err = some "no available port"; local_port = p; filters = s }
  retry (suc retries) i p s =
      let (done, p') = round auto_gen remote (rounds i) p (auto_get_port (rounds i).offered) s in
      or_else done (retry retries (i + 1) p' s)

-- `setClientFilter`: the old filter goes first.
unfoldable pub set_client_filter : ℕ → ℕ × ℕ → (ℕ → Round) → Filters → Set
unfolding del_filter retry
set_client_filter local_port_be remote rounds s =
    let auto_gen = local_port_be == 0 in
    retry auto_gen remote rounds (if auto_gen then 10 else 1) 0 local_port_be (del_filter s)

-- The calls of `setServerFilter` for the filter.
unfoldable pub add_server_filter : ℕ → Bool → Added → Filters → Set
add_server_filter p false a s = record {
  err = some "ef_filter_spec_set_ip4_local failed";
  local_port = p;
  filters = s;
}
add_server_filter p true added s = record {
  err = none;
  local_port = p;
  filters = put_filter (record { local_port = p; remote = none }) s;
}
add_server_filter p true exists s = record {
  err = some "ef_vi_filter_add failed";
  local_port = p;
  filters = s;
}
add_server_filter p true refused s = record {
  err = some "ef_vi_filter_add failed";
  local_port = p;
  filters = s;
}

-- `setServerFilter`
unfoldable pub set_server_filter : ℕ → Bool → Added → Filters → Set
unfolding del_filter add_server_filter
set_server_filter p specified a s = add_server_filter p specified a (del_filter s)
