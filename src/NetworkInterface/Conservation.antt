-- ===== src/NetworkInterface/Conservation.antt =====
-- The datagrams that libsponge/network_interface.cc is given, counted over any calls.
use csed353_tcp.Prelude.{
  ℕ, ◌+◌, ◌≡◌, ap, sym, ◌∙◌, Option, some, List, [], ◌∷◌, arith, ◌>>=◌, suc, bind-eq-some,
  some-injective,
}
use csed353_tcp.Ethernet.{EthernetFrame}
use csed353_tcp.Ipv4.{Ipv4Datagram}
use csed353_tcp.NetworkInterface.{NetworkInterface, send_datagram, recv_frame, tick}
use csed353_tcp.NetworkInterface.Carried.{carried, Carries, send_datagram-Carries, recv_frame-Keeps}

-- The calls that an owner makes, and what they do in order. An exception ends them.
pub data Call : Type 0 where
  send : ℕ → Ipv4Datagram → ℕ → Call
  receive : EthernetFrame → Call
  pass : ℕ → Call

abbrev pub step : NetworkInterface → Call → Option NetworkInterface
step n (send past_end dgram ip) = send_datagram past_end n dgram ip
step n (receive frame) = recv_frame n frame >>= λ (m, _). some m
step n (pass ms) = some (tick n ms)

abbrev pub run : NetworkInterface → List Call → Option NetworkInterface
run n [] = some n
run n (c ∷ cs) = step n c >>= λ m. run m cs

-- How many datagrams the calls send.
abbrev pub sends : List Call → ℕ
sends [] = 0
sends (send past_end dgram ip ∷ cs) = suc (sends cs)
sends (receive frame ∷ cs) = sends cs
sends (pass ms ∷ cs) = sends cs

step-Carries : (n : NetworkInterface) (c : Call) → Carries n (sends (c ∷ [])) (step n c)
unfolding tick
step-Carries n (send past_end dgram ip) m h = send_datagram-Carries past_end n dgram ip m h
step-Carries n (receive frame) m h =
    let (r, f, e) = bind-eq-some (recv_frame n frame) _ m h in
    sym (ap carried (some-injective e)) ∙ recv_frame-Keeps n frame r f ∙ omega arith
step-Carries n (pass ms) m h = sym (ap carried (some-injective h)) ∙ omega arith

sends-suc : (c : Call) (cs : List Call) → sends (c ∷ cs) ≡ sends (c ∷ []) + sends cs
sends-suc (send past_end dgram ip) cs = omega arith
sends-suc (receive frame) cs = omega arith
sends-suc (pass ms) cs = omega arith

-- After any calls of `send_datagram`, `recv_frame` and `tick` that do not throw, the frames of type
-- IPv4 that were queued and the datagrams that wait are together as many as before, and one more for
-- each call of `send_datagram`.
pub carried-run :
    (n m : NetworkInterface) (cs : List Call) → run n cs ≡ some m → carried m ≡ carried n + sends cs
carried-run n m [] h = sym (ap carried (some-injective h)) ∙ omega arith
carried-run n m (c ∷ cs) h =
    let (q, f, e) = bind-eq-some (step n c) _ m h in
    let first : carried q ≡ carried n + sends (c ∷ []) = step-Carries n c q f in
    let rest : carried m ≡ carried q + sends cs = carried-run q m cs e in
    omega (arith, sends-suc c cs, first, rest)
