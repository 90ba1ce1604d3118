-- ===== src/Socket/Handle.antt =====
-- A descriptor and how Socket.h sets it up: the chain of system calls of an `init`, of which the
-- first that fails closes the descriptor with its own reason. Shared by `SocketTcpServer`,
-- `SocketUdpReceiver`, `SocketUdpSender` and `SocketEthReceiver`.
use Prim.Native.String.{String}
use pollnet.Base.{
  ℕ, ◌+◌, ◌≡◌, ◌⊎◌, refl, not, Option-cases, inl, inr, Bool, true, false, Option, none, some, List,
  [], ◌∷◌, arith, one, count,
}
use pollnet.Socket.Os.{LastError, Descriptor, opened, no_descriptor}

-- What a call of an `init` makes of a descriptor.
pub data Setting : Type 0 where
  nonblocking reuses_addr bound listening connected member multicast_ttl promiscuous : Setting

-- `fd_`, `last_error_`, and the descriptors that were given to `::close`. `settings` is what the system
-- has made of the descriptor `fd_` since `::socket`, the last first.
pub record Handle : Type 0 where
  pub fd : Option ℕ
  pub last_error : LastError
  pub closed : List ℕ
  pub settings : List Setting

unfoldable pub is_closed : Handle → Bool
is_closed h = elim h.fd [ none ↦ true | some fd ↦ false ]

-- `close(reason)`, which saves the reason with the errno.
unfoldable pub close : String → ℕ → Handle → Handle
close reason errno h = elim h.fd [
  | none ↦ h
  | some fd ↦ record h {
    fd = none;
    last_error = record { reason = reason; errno = some errno };
    closed = fd ∷ h.closed;
    settings = [];
  }
]

-- A call of the chain: what it makes of the descriptor, the reason that its failure is saved with, and
-- its result, `none` or an errno.
pub record Step : Type 0 where
  pub setting : Setting
  pub reason : String
  pub result : Option ℕ

abbrev pub step : Setting → String → Option ℕ → Step
step setting reason result = record { setting = setting; reason = reason; result = result }

unfoldable pub set_up : List Step → Handle → Handle × Bool
unfolding close
set_up [] h = (h, true)
set_up (step ∷ steps) h = elim step.result [
  | some e ↦ (close step.reason e h, false)
  | none ↦ set_up steps (record h { settings = step.setting ∷ h.settings })
]

-- `fd_` takes what `::socket` returns, whatever it held before.
unfoldable pub open_handle : Descriptor → List Step → Handle → Handle × Bool
unfolding set_up
open_handle (no_descriptor e) steps h = (
  record h {
    fd = none;
    last_error = record { reason = "socket error"; errno = some e };
    settings = [];
  },
  false,
)
open_handle (opened fd) steps h = set_up steps (record h { fd = some fd; settings = [] })

-- The error of a call that failed, or else that of the calls behind it.
abbrev pub or_later : String → Option ℕ → Option LastError → Option LastError
or_later reason none later = later
or_later reason (some e) later = some (record { reason = reason; errno = some e })

-- The first call of the chain that fails.
abbrev first_failure : List Step → Option LastError
first_failure [] = none
first_failure (step ∷ steps) = or_later step.reason step.result (first_failure steps)

-- What all of the chain makes of a descriptor.
abbrev all_settings : List Step → List Setting → List Setting
all_settings [] ss = ss
all_settings (step ∷ steps) ss = all_settings steps (step.setting ∷ ss)

abbrev pub held : ℕ → Option ℕ → ℕ
held x none = 0
held x (some fd) = one x fd

pub Descriptor-cases :
    (d : Descriptor) → ((fd : ℕ) × (d ≡ opened fd)) ⊎ ((e : ℕ) × (d ≡ no_descriptor e))
Descriptor-cases (opened fd) = inl (fd, refl)
Descriptor-cases (no_descriptor e) = inr (e, refl)

-- How often `x` is held or was closed.
abbrev pub owned : ℕ → Handle → ℕ
owned x h = held x h.fd + count x h.closed

set_up-owned : (x : ℕ) (steps : List Step) (h : Handle) → owned x (set_up steps h).0 ≡ owned x h
unfolding set_up close
set_up-owned x [] h = refl
set_up-owned x (step ∷ steps) h =
    ground (arith, set_up-owned x steps (record h { settings = step.setting ∷ h.settings }))

-- What a chain has reached: no call failed, and the descriptor is open with these settings; or it is
-- closed and the error is the given one.
abbrev pub Reached : Option LastError → List Setting → Handle → Handle → Bool → Type 0
Reached none ss h h' ok = (ok ≡ true) × (h' ≡ record h { settings = ss })
Reached (some error) ss h h' ok =
    (ok ≡ false) × (h'.fd ≡ none) × (h'.last_error ≡ error) × (h'.settings ≡ [])

set_up-Reached :
    (fd : ℕ) (steps : List Step) (h : Handle)
    → h.fd ≡ some fd
    → let (h', ok) = set_up steps h in
      Reached (first_failure steps) (all_settings steps h.settings) h h' ok
unfolding set_up close
set_up-Reached fd [] h e = (refl, refl)
set_up-Reached fd (step ∷ steps) h e = elim (Option-cases step.result) [
  | inl g ↦
      let h1 : Handle = record h { settings = step.setting ∷ h.settings } in
      rw g (
        again (first_failure steps) (all_settings steps h1.settings) h1 _ _
          (set_up-Reached fd steps h1 e))
  | inr (errno, g) ↦ rw (g, e) (refl, refl, refl, refl)
]
  where
    again :
        (error : Option LastError) (ss : List Setting) (h1 h' : Handle) (ok : Bool)
        → Reached error ss h1 h' ok
        → Reached error ss (record h1 { settings = h.settings }) h' ok
    again none ss h1 h' ok r = r
    again (some error) ss h1 h' ok r = r

-- `::socket` has given the descriptor `x`, so many times.
abbrev pub given : ℕ → Descriptor → ℕ
given x (opened fd) = one x fd
given x (no_descriptor e) = 0

abbrev pub Begun : Descriptor → Option LastError → List Setting → Handle → Handle → Bool → Type 0
Begun (no_descriptor e) error ss h h' ok =
    (ok ≡ false)
    × (h'.last_error ≡ record { reason = "socket error"; errno = some e })
    × (h'.settings ≡ [])
Begun (opened fd) error ss h h' ok = Reached error ss (record h { fd = some fd }) h' ok

-- What an `init` leaves, given the error of its calls, if one fails, and what they make of a
-- descriptor: it holds a descriptor if and only if it succeeds, and that has all of the settings; it
-- neither loses one nor closes one twice; and its error is that of `::socket`, or else the given one.
pub record Opens (d : Descriptor) (error : Option LastError) (ss : List Setting) (h h' : Handle)
    (ok : Bool) : Type 0 where
  pub held_if : is_closed h' ≡ not ok
  pub owns : (x : ℕ) → owned x h' ≡ owned x h + given x d
  pub begun : Begun d error ss h h' ok

Reached-held :
    (error : Option LastError) (ss : List Setting) (fd : ℕ) (h h' : Handle) (ok : Bool)
    → h.fd ≡ some fd
    → Reached error ss h h' ok
    → is_closed h' ≡ not ok
unfolding is_closed
Reached-held none ss fd h h' ok e (a, b) = rw (a, b, e) refl
Reached-held (some error) ss fd h h' ok e (a, b, _, _) = rw (a, b) refl

Reached-begins :
    (error : Option LastError) (ss : List Setting) (h h' : Handle) (ok : Bool)
    → Reached error ss (record h { settings = [] }) h' ok
    → Reached error ss h h' ok
Reached-begins none ss h h' ok r = r
Reached-begins (some error) ss h h' ok r = r

pub open_handle-Opens :
    (d : Descriptor) (steps : List Step) (h : Handle)
    → h.fd ≡ none
    → let (h', ok) = open_handle d steps h in
      Opens d (first_failure steps) (all_settings steps []) h h' ok
unfolding open_handle is_closed
open_handle-Opens (no_descriptor e) steps h c = record {
  held_if = refl;
  owns = λ x. ground arith;
  begun = (refl, refl, refl);
}
open_handle-Opens (opened fd) steps h c =
    let h0 : Handle = record h { fd = some fd; settings = [] } in
    let r = set_up-Reached fd steps h0 refl in
    record {
      held_if = Reached-held (first_failure steps) (all_settings steps []) fd h0 _ _ refl r;
      owns = λ x. ground (arith, set_up-owned x steps h0);
      begun =
          Reached-begins (first_failure steps) (all_settings steps []) (record h { fd = some fd }) _
            _ r;
    }
