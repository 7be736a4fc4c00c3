-- ===== src/Tcp/Filter.antt =====
-- The socket filters of sockfilter.go, as the instructions that the program gives to the kernel. The
-- kernel's machine is a parameter with the behaviour that its documentation states for the operation
-- codes that the filters use.
use tcpraw.Base.{
  ℕ, ◌+◌, ◌*◌, ◌%◌, ◌≤◌, ◌<◌, ◌≡◌, ap, ◌∙◌, Bool, ◌&&◌, ◌==◌, List, [], ◌∷◌, if◌then◌else◌, length,
  drop, get_or, bit_and, Bytes, Bool-cases, inl, inr, arith,
}
use tcpraw.Tcp.Conn.Capture.{get_ipv4_header_len}

pub record Instr : Type 0 where
  pub op : ℕ
  pub jt : ℕ
  pub jf : ℕ
  pub k : ℕ

abbrev pub instr : ℕ → ℕ → ℕ → ℕ → Instr
instr op jt jf k = record { op = op; jt = jt; jf = jf; k = k }

-- The program of `SetBPFFilterPortByPacketConn` and of `SetBPFFilterPort`.
abbrev pub port_filter : ℕ → List Instr
port_filter port =
    instr 0x30 0 0 9
    ∷ instr 0x15 0 6 6
    ∷ instr 0x28 0 0 6
    ∷ instr 0x45 4 0 0x1fff
    ∷ instr 0xb1 0 0 0
    ∷ instr 0x48 0 0 2
    ∷ instr 0x15 0 1 port
    ∷ instr 0x06 0 0 0x40000
    ∷ instr 0x06 0 0 0
    ∷ []

-- The program of `attachBPFFilter`.
abbrev pub drop_all_filter : List Instr
drop_all_filter = instr 0x06 0 0 0 ∷ []

-- The two bytes at an index, in big-endian order.
abbrev pub half : Bytes → ℕ → ℕ
half p i = 256 * get_or p i 0 + get_or p (i + 1) 0

-- The machine runs instructions from values of its accumulator and its index register on a packet;
-- the result is how much of the packet is kept. These are the loads of a byte and of a half word,
-- the load of a header length, the jumps and the return.
pub record IsMachine (exec : List Instr → ℕ → ℕ → Bytes → ℕ) : Type 0 where
  pub load_byte :
      (k a x : ℕ) (later : List Instr) (p : Bytes)
      → k < length p
      → exec (instr 0x30 0 0 k ∷ later) a x p ≡ exec later (get_or p k 0) x p
  pub load_half :
      (k a x : ℕ) (later : List Instr) (p : Bytes)
      → k + 1 < length p
      → exec (instr 0x28 0 0 k ∷ later) a x p ≡ exec later (half p k) x p
  pub load_half_at :
      (k a x : ℕ) (later : List Instr) (p : Bytes)
      → x + k + 1 < length p
      → exec (instr 0x48 0 0 k ∷ later) a x p ≡ exec later (half p (x + k)) x p
  pub load_length :
      (k a x : ℕ) (later : List Instr) (p : Bytes)
      → k < length p
      → exec (instr 0xb1 0 0 k ∷ later) a x p ≡ exec later a (get_or p k 0 % 16 * 4) p
  pub jump_equal :
      (jt jf k a x : ℕ) (later : List Instr) (p : Bytes)
      → exec (instr 0x15 jt jf k ∷ later) a x p
        ≡ exec (drop (if a == k then jt else jf) later) a x p
  pub jump_set :
      (jt jf k a x : ℕ) (later : List Instr) (p : Bytes)
      → exec (instr 0x45 jt jf k ∷ later) a x p
        ≡ exec (drop (if bit_and a k == 0 then jf else jt) later) a x p
  pub return :
      (k a x : ℕ) (later : List Instr) (p : Bytes) → exec (instr 0x06 0 0 k ∷ later) a x p ≡ k

-- The datagram carries TCP, is the first or only fragment, and its segment is for this port.
abbrev pub is_tcp : Bytes → Bool
is_tcp p = get_or p 9 0 == 6

abbrev pub is_at_start : Bytes → Bool
is_at_start p = bit_and (half p 6) 0x1fff == 0

-- A header length that getIPv4HeaderLen gives is the one in the first byte.
get_ipv4_header_len-byte :
    (p : Bytes) (l : ℕ)
    → get_ipv4_header_len p ≡ l
    → 0 < l
    → (get_or p 0 0 % 16 * 4 ≡ l) × (20 ≤ length p) × (20 ≤ l)
unfolding get_ipv4_header_len
get_ipv4_header_len-byte p l e pos = ground (arith, e)

module _ (exec : List Instr → ℕ → ℕ → Bytes → ℕ) (law : IsMachine exec) (port : ℕ) (p : Bytes)
    (l : ℕ) (header : get_ipv4_header_len p ≡ l) (pos : 0 < l) (whole : l + 4 ≤ length p) where
  abbrev rejects : List Instr
  rejects = instr 0x06 0 0 0 ∷ []

  abbrev accepts : List Instr
  accepts = instr 0x06 0 0 0x40000 ∷ rejects

  -- The last four instructions: the comparison of the port.
  exec-port :
      (a : ℕ)
      → exec (instr 0x48 0 0 2 ∷ instr 0x15 0 1 port ∷ accepts) a l p
        ≡ (if half p (l + 2) == port then 0x40000 else 0)
  exec-port a =
      law.load_half_at 2 a l (instr 0x15 0 1 port ∷ accepts) p (omega (arith, whole))
      ∙ law.jump_equal 0 1 port (half p (l + 2)) l accepts p
      ∙ elim (Bool-cases (half p (l + 2) == port)) [
        | inl same ↦ rw same (law.return 0x40000 (half p (l + 2)) l rejects p)
        | inr other ↦ rw other (law.return 0 (half p (l + 2)) l [] p)
      ]

  -- From the test of the fragment on.
  exec-fragment :
      (a x : ℕ)
      → exec (drop 1 (drop 1 (port_filter port))) a x p
        ≡ (if is_at_start p then (if half p (l + 2) == port then 0x40000 else 0) else 0)
  exec-fragment a x =
      let (len, big, _) = get_ipv4_header_len-byte p l header pos in
      law.load_half 6 a x _ p (omega (arith, big))
      ∙ law.jump_set 4 0 0x1fff (half p 6) x
          (instr 0xb1 0 0 0 ∷ instr 0x48 0 0 2 ∷ instr 0x15 0 1 port ∷ accepts) p
      ∙ elim (Bool-cases (is_at_start p)) [
        | inl first ↦ rw first (
            law.load_length 0 (half p 6) x (instr 0x48 0 0 2 ∷ instr 0x15 0 1 port ∷ accepts) p
              (omega (arith, big))
            ∙ ap (λ n. exec (instr 0x48 0 0 2 ∷ instr 0x15 0 1 port ∷ accepts) (half p 6) n p) len
            ∙ exec-port (half p 6))
        | inr later ↦ rw later (law.return 0 (half p 6) x [] p)
      ]

  -- The filter for a port, on a datagram whose header length getIPv4HeaderLen finds and which has
  -- the ports of its segment: it keeps the datagrams with the protocol TCP and fragment offset zero
  -- of which the segment's destination port is this port, and no other.
  pub port_filter-keeps :
      exec (port_filter port) 0 0 p
      ≡ (if is_tcp p && is_at_start p && (half p (l + 2) == port) then 0x40000 else 0)
  port_filter-keeps =
      let (_, big, _) = get_ipv4_header_len-byte p l header pos in
      law.load_byte 9 0 0 (drop 1 (port_filter port)) p (omega (arith, big))
      ∙ law.jump_equal 0 6 6 (get_or p 9 0) 0 (drop 1 (drop 1 (port_filter port))) p
      ∙ elim (Bool-cases (is_tcp p)) [
        | inl tcp ↦ elim (Bool-cases (is_at_start p)) [
          | inl first ↦ rw tcp (exec-fragment (get_or p 9 0) 0 ∙ rw first)
          | inr later ↦ rw tcp (exec-fragment (get_or p 9 0) 0 ∙ rw later)
        ]
        | inr other ↦ rw other (law.return 0 (get_or p 9 0) 0 [] p)
      ]
