-- ===== src/Efvitcp/Table/Key.antt =====
-- The keys of the connection table.
use pollnet.Base.{ℕ, ◌+◌, ◌*◌, ◌/◌, ◌%◌, ◌^◌, ◌<◌, ◌≡◌, ap, sym, ◌∙◌, arith}
use pollnet.Wire.{swap16, swap32, swap16-swap16, swap32-swap32}
use pollnet.Efvitcp.Table.{conn_hash_key, empty_key}

parts_lem :
    (a b p q : ℕ)
    → a < 2 ^ 32
    → b < 2 ^ 32
    → p < 2 ^ 16
    → q < 2 ^ 16
    → a * 2 ^ 15 + p % 2 ^ 15 + p / 2 ^ 15 * 2 ^ 47 ≡ b * 2 ^ 15 + q % 2 ^ 15 + q / 2 ^ 15 * 2 ^ 47
    → (a ≡ b) × (p ≡ q)
parts_lem a b p q h k l m e = (omega arith, omega arith)

-- Addresses and ports have the same key only if they are the same; and no key is `EmptyKey`.
pub conn_hash_key-injective :
    (ip ip' port port' : ℕ)
    → ip < 2 ^ 32
    → ip' < 2 ^ 32
    → port < 2 ^ 16
    → port' < 2 ^ 16
    → conn_hash_key ip port ≡ conn_hash_key ip' port'
    → (ip ≡ ip') × (port ≡ port') × (conn_hash_key ip port < empty_key)
unfolding conn_hash_key
conn_hash_key-injective ip ip' port port' a b c d e =
    let (x, y) =
      parts_lem (swap32 ip) (swap32 ip') (swap16 port) (swap16 port') (omega arith) (omega arith)
        (omega arith) (omega arith) e in
    (
      sym (swap32-swap32 ip a) ∙ ap swap32 x ∙ swap32-swap32 ip' b,
      sym (swap16-swap16 port c) ∙ ap swap16 y ∙ swap16-swap16 port' d,
      omega arith,
    )
