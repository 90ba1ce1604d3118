-- ===== src/Socket/Os.antt =====
-- What the system calls of Socket.h return. A failure carries `errno`.
use pollnet.Base.{ℕ, List, Option}
use Prim.Native.String.{String}

-- `::read` of at most so many bytes: some of them, the end of the stream, or a failure.
pub data ReadResult : Type 0 where
  got : List ℕ → ReadResult
  eof : ReadResult
  would_block : ReadResult
  read_failed : ℕ → ReadResult

-- `::send` of some bytes: room for so many of them, none at the moment (EAGAIN), or a failure.
pub data SendResult : Type 0 where
  accepts : ℕ → SendResult
  send_again : SendResult
  send_failed : ℕ → SendResult

-- The text of `last_error_`: the reason, and `errno` where it is asked for.
pub record LastError : Type 0 where
  pub reason : String
  pub errno : Option ℕ

-- `::socket`.
pub data Descriptor : Type 0 where
  opened : ℕ → Descriptor
  no_descriptor : ℕ → Descriptor
