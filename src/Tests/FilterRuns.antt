-- ===== src/Tests/FilterRuns.antt =====
-- A machine for socket filters, and a datagram to the port of the filter.
use tcpraw.Base.{
  ℕ, zero, suc, ◌+◌, ◌*◌, ◌%◌, ◌≡◌, refl, ◌==◌, ltb, lt→ltb, List, [], ◌∷◌, if◌then◌else◌, length,
  drop, get_or, bit_and, Bytes, arith,
}
use tcpraw.Tcp.Conn.Capture.{get_ipv4_header_len}
use tcpraw.Tcp.Filter.{Instr, half, port_filter, IsMachine, port_filter-keeps}

-- The machine passes over `skip` instructions.
abbrev run_from : List Instr → ℕ → ℕ → ℕ → Bytes → ℕ
run_from [] skip a x p = 0
run_from (i ∷ later) (suc skip) a x p = run_from later skip a x p
run_from (i ∷ later) zero a x p =
    let next = λ (skip' a' x' : ℕ). run_from later skip' a' x' p in
    if i.op == 0x30
    then if ltb i.k (length p) then next 0 (get_or p i.k 0) x else 0
    else if i.op == 0x28
    then if ltb (i.k + 1) (length p) then next 0 (half p i.k) x else 0
    else if i.op == 0x48
    then if ltb (x + i.k + 1) (length p) then next 0 (half p (x + i.k)) x else 0
    else if i.op == 0xb1
    then if ltb i.k (length p) then next 0 a (get_or p i.k 0 % 16 * 4) else 0
    else if i.op == 0x15
    then next (if a == i.k then i.jt else i.jf) a x
    else if i.op == 0x45
    then next (if bit_and a i.k == 0 then i.jf else i.jt) a x
    else i.k

abbrev machine : List Instr → ℕ → ℕ → Bytes → ℕ
machine prog a x p = run_from prog 0 a x p

run_from-drop :
    (prog : List Instr) (skip a x : ℕ) (p : Bytes)
    → run_from prog skip a x p ≡ run_from (drop skip prog) 0 a x p
run_from-drop [] zero a x p = refl
run_from-drop [] (suc skip) a x p = refl
run_from-drop (i ∷ later) zero a x p = refl
run_from-drop (i ∷ later) (suc skip) a x p = run_from-drop later skip a x p

machine-IsMachine : IsMachine machine
machine-IsMachine = record {
  load_byte = λ k a x later p within. rw (lt→ltb k (length p) within);
  load_half = λ k a x later p within. rw (lt→ltb (k + 1) (length p) within);
  load_half_at = λ k a x later p within. rw (lt→ltb (x + k + 1) (length p) within);
  load_length = λ k a x later p within. rw (lt→ltb k (length p) within);
  jump_equal = λ jt jf k a x later p. run_from-drop later (if a == k then jt else jf) a x p;
  jump_set = λ jt jf k a x later p. run_from-drop later (if bit_and a k == 0 then jf else jt) a x p;
  return = λ k a x later p. refl;
}

-- A header of twenty bytes with TCP, the flag of more fragments and offset zero; port 9191.
abbrev datagram : Bytes
datagram =
    0x45 ∷ 0 ∷ 0 ∷ 24 ∷ 0 ∷ 1 ∷ 0x20 ∷ 0 ∷ 64 ∷ 6 ∷ 0 ∷ 0 ∷ 10 ∷ 0 ∷ 0 ∷ 1 ∷ 10 ∷ 0 ∷ 0 ∷ 2 ∷ 15
    ∷ 160 ∷ 35 ∷ 231 ∷ []

port_filter-keeps_example : machine (port_filter 9191) 0 0 datagram ≡ 0x40000
unfolding get_ipv4_header_len
port_filter-keeps_example =
    port_filter-keeps machine machine-IsMachine 9191 datagram 20 refl (omega arith) (omega arith)
