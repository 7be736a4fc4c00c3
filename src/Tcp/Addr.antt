-- ===== src/Tcp/Addr.antt =====
-- The addresses of tcp_linux.go and common/addrkey.go, and the keys and hash numbers made of them.
-- An IPv4 address is the number that its four bytes are in big-endian order.
use tcpraw.Base.{
  ℕ, ◌+◌, ◌/◌, ◌^◌, ◌≡◌, ◌≢◌, refl, ◌%◌, ◌⊎◌, inl, inr, Bool, ◌&&◌, ◌==◌, bit_xor, u16, u64, Run,
  ok, panic,
}

pub data Ip : Type 0 where
  v4 v6 : ℕ → Ip

-- A value of net.Addr: nil, a *net.TCPAddr, or another type.
pub data NetAddr : Type 0 where
  no_addr other_addr : NetAddr
  tcp_addr : Ip → ℕ → NetAddr

pub record AddrKey : Type 0 where
  pub dip : ℕ
  pub dport : ℕ

abbrev pub same_key : AddrKey → AddrKey → Bool
same_key a b = (a.dip == b.dip) && (a.dport == b.dport)

-- The three lines `ip ^= ip >> ...`.
abbrev pub spread : ℕ → ℕ
spread ip =
    let ip₁ = bit_xor ip (ip / 2 ^ 20) in
    let ip₂ = bit_xor ip₁ (ip₁ / 2 ^ 14) in bit_xor ip₂ (ip₂ / 2 ^ 9)

-- `addrToHashNumber`
unfoldable pub addr_to_hash_number : NetAddr → Run ℕ
addr_to_hash_number no_addr = panic
addr_to_hash_number other_addr = panic
addr_to_hash_number (tcp_addr (v6 ip) port) = ok 0
addr_to_hash_number (tcp_addr (v4 ip) port) = ok (u64 (spread ip + port))

-- `addrSplit`
unfoldable pub addr_split : NetAddr → Run AddrKey
addr_split no_addr = ok (record { dip = 0; dport = 0 })
addr_split other_addr = panic
addr_split (tcp_addr (v6 ip) port) = ok (record { dip = 0; dport = 0 })
addr_split (tcp_addr (v4 ip) port) = ok (record { dip = ip; dport = u16 port })

-- `HashNumber`, an int of 64 bits, which the sum of a uint32 and a uint16 does not overflow.
unfoldable pub hash_number : AddrKey → ℕ
hash_number key = spread key.dip + key.dport

-- `AddrToKey` of common/addrkey.go.
unfoldable pub addr_to_key : NetAddr → Run AddrKey
addr_to_key no_addr = panic
addr_to_key other_addr = panic
addr_to_key (tcp_addr (v6 ip) port) = panic
addr_to_key (tcp_addr (v4 ip) port) = ok (record { dip = ip; dport = u16 port })

-- An IPv4 address has one key, the same for the flow table and for the listener: its four bytes, and
-- its port modulo 2^16. For every other value of net.Addr the listener's key is a panic.
pub addr_to_key-addr_split :
    (addr : NetAddr)
    → ((ip port : ℕ) × (addr ≡ tcp_addr (v4 ip) port)
        × (addr_to_key addr ≡ ok (record { dip = ip; dport = port % 65536 }))
        × (addr_split addr ≡ ok (record { dip = ip; dport = port % 65536 })))
      ⊎ (((ip port : ℕ) → addr ≢ tcp_addr (v4 ip) port) × (addr_to_key addr ≡ panic))
unfolding addr_to_key addr_split
addr_to_key-addr_split no_addr = inr ((λ ip port e. cc), refl)
addr_to_key-addr_split other_addr = inr ((λ ip port e. cc), refl)
addr_to_key-addr_split (tcp_addr (v6 ip) port) = inr ((λ ip' port' e. cc), refl)
addr_to_key-addr_split (tcp_addr (v4 ip) port) = inl (ip, port, refl, refl, refl)
