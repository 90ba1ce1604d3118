-- ===== src/Efvitcp/Filter/Install.antt =====
-- What `setClientFilter` and `setServerFilter` of efvitcp/Core.h leave in place.
use pollnet.Base.{
  ℕ, zero, suc, ◌+◌, ◌≡◌, ◌≢◌, Bool, true, false, Option, none, some, ◌==◌, refl, arith,
  if◌then◌else◌, ◌∙◌,
}
use pollnet.Efvitcp.Filter.{
  Port, PortResult, failed, port, auto_get_port, or_else, Added, added, exists, refused, Round, Set,
  add_filter, wanted, round, retry, set_client_filter, Filters, del_filter, add_server_filter,
  set_server_filter,
}

-- No other filter is in place than before. With an error the cookie's filter is gone; without one it is
-- the given one.
abbrev pub IsInstalled : Filters → Option (ℕ × ℕ) → Set → Type 0
IsInstalled old remote s = (s.filters.lost ≡ old.lost) × (elim s.err as (λ o. Type 0) [
  | none ↦ s.filters.cookie ≡ some (record { local_port = s.local_port; remote = remote })
  | some e ↦ s.filters.cookie ≡ none
])

-- What a round with no filter at its begin ends with.
abbrev Ends : Bool → ℕ × ℕ → ℕ → Filters → Option Set → Type 0
Ends auto_gen remote p old none = Unit {0}
Ends auto_gen remote p old (some s) =
    IsInstalled old (some remote) s × (auto_gen ≡ false → s.local_port ≡ p)

module _ (auto_gen : Bool) (remote : ℕ × ℕ) (s : Filters) (e : s.cookie ≡ none) where
  add_filter-Ends :
      (p q : ℕ) (specified : Bool) (result : Added) (offered : Port)
      → (auto_gen ≡ false → q ≡ p)
      → Ends auto_gen remote p s (
          add_filter
            (wanted remote q)
            (record { offered = offered; specified = specified; result = result })
            q
            s)
  unfolding add_filter
  add_filter-Ends p q false result offered h = ((refl, e), h)
  add_filter-Ends p q true added offered h = ((rw e refl, refl), h)
  add_filter-Ends p q true exists offered h = tt
  add_filter-Ends p q true refused offered h = ((refl, e), h)

  or_else-Ends :
      (p p' : ℕ) (done : Option Set) (t : Set)
      → Ends auto_gen remote p s done
      → (auto_gen ≡ false → p' ≡ p)
      → Ends auto_gen remote p' s (some t)
      → Ends auto_gen remote p s (some (or_else done t))
  or_else-Ends p p' none t h k (a, b) = (a, λ f. b f ∙ k f)
  or_else-Ends p p' (some u) t h k l = h

-- A round ends with what it wants, or goes on with the port that was given.
round-Ends :
    (auto_gen : Bool) (remote : ℕ × ℕ) (s : Filters) (e : s.cookie ≡ none) (r : Round) (p : ℕ)
    (o : PortResult)
    → let (done, p') = round auto_gen remote r p o s in
      Ends auto_gen remote p s done × (auto_gen ≡ false → p' ≡ p)
unfolding round
round-Ends false remote s e r p o =
    (add_filter-Ends false remote s e p p r.specified r.result r.offered (λ f. refl), λ f. refl)
round-Ends true remote s e r p (failed m) = (((refl, e), λ f. refl), λ f. cc)
round-Ends true remote s e r p (port q) =
    (add_filter-Ends true remote s e p q r.specified r.result r.offered (λ f. cc), λ f. cc)

retry-Ends :
    (auto_gen : Bool) (remote : ℕ × ℕ) (rounds : ℕ → Round) (s : Filters)
    → s.cookie ≡ none
    → (retries i p : ℕ)
    → Ends auto_gen remote p s (some (retry auto_gen remote rounds retries i p s))
unfolding retry
retry-Ends auto_gen remote rounds s e zero i p = ((refl, e), λ f. refl)
retry-Ends auto_gen remote rounds s e (suc retries) i p =
    let o = auto_get_port (rounds i).offered in
    let (done, p') = round auto_gen remote (rounds i) p o s in
    let (a, b) = round-Ends auto_gen remote s e (rounds i) p o in
    or_else-Ends auto_gen remote s e p p' done (retry auto_gen remote rounds retries (i + 1) p' s) a
      b (retry-Ends auto_gen remote rounds s e retries (i + 1) p')

add_server_filter-IsInstalled :
    (p : ℕ) (specified : Bool) (result : Added) (s : Filters)
    → s.cookie ≡ none
    → IsInstalled s none (add_server_filter p specified result s)
unfolding add_server_filter
add_server_filter-IsInstalled p false result s e = (refl, e)
add_server_filter-IsInstalled p true added s e = (rw e refl, refl)
add_server_filter-IsInstalled p true exists s e = (refl, e)
add_server_filter-IsInstalled p true refused s e = (refl, e)

-- Whatever the system and the adapter return, and whatever filters were in place before: the one that
-- the cookie named is gone, and no other has come or gone but the new one. Without an error the
-- cookie names the new one, for a client that of the peer and the local port, for a server that of
-- the port; with an error it names none. A local port that a client asks for is kept.
pub set_client_filter-IsInstalled :
    (local_port_be : ℕ) (remote : ℕ × ℕ) (rounds : ℕ → Round) (specified : Bool) (result : Added)
    (old : Filters)
    → let s = set_client_filter local_port_be remote rounds old in
      IsInstalled old (some remote) s
      × (local_port_be ≢ 0 → s.local_port ≡ local_port_be)
      × IsInstalled old none (set_server_filter local_port_be specified result old)
unfolding set_client_filter set_server_filter
set_client_filter-IsInstalled p remote rounds specified result old =
    let auto_gen = p == 0 in
    let (a, b) =
      retry-Ends auto_gen remote rounds (del_filter old) refl (if auto_gen then 10 else 1) 0 p in
    (
      a,
      λ n. b (ground (arith, n)),
      add_server_filter-IsInstalled p specified result (del_filter old) refl,
    )
