-- ===== src/Router/Network/Forwarded.antt =====
-- What `route` of libsponge/router.cc does with the datagrams that its interfaces have received.
use csed353_tcp.Prelude.{
  ℕ, zero, suc, ◌+◌, ◌≡◌, refl, ap, sym, ◌∙◌, Option, Option-cases, none, some, List, [], ◌∷◌,
  arith, inl, inr, length, get_elem?, bind-eq-some, some-injective,
}
use csed353_tcp.Ipv4.{Ipv4Datagram}
use csed353_tcp.NetworkInterface
use csed353_tcp.NetworkInterface.{NetworkInterface}
use csed353_tcp.NetworkInterface.Carried.{carried, send_datagram-Carries}
use csed353_tcp.Router.{Route, Sending, route_one_datagram}
use csed353_tcp.Router.Network.{
  AsyncNetworkInterface, Router, interface, replace, read_part, chosen, send_on, route_one,
  route_queue,
}

-- The queues of received datagrams, and how many they hold.
abbrev pub Queues : Type 0
Queues = List (List Ipv4Datagram)

abbrev pub queues : List AsyncNetworkInterface → Queues
queues [] = []
queues (a ∷ xs) = a.datagrams_out ∷ queues xs

abbrev pub queued : Queues → ℕ
queued [] = 0
queued (q ∷ qs) = length q + queued qs

-- How many datagrams the interfaces have sent or keep waiting.
abbrev pub all_carried : List AsyncNetworkInterface → ℕ
all_carried [] = 0
all_carried (a ∷ xs) = carried a.interface + all_carried xs

-- How many datagrams of a queue, and of all queues, have a route and a time to live.
abbrev pub sent : Option (Sending ℕ) → ℕ
sent none = 0
sent (some s) = 1

abbrev pub forwarded_of : List (Route ℕ) → List Ipv4Datagram → ℕ
forwarded_of table [] = 0
forwarded_of table (d ∷ ds) =
    sent (route_one_datagram (λ n. n) table (read_part d)) + forwarded_of table ds

abbrev pub forwarded : List (Route ℕ) → Queues → ℕ
forwarded table [] = 0
forwarded table (q ∷ qs) = forwarded_of table q + forwarded table qs

pub all_carried-replace :
    (n : ℕ) (a b : AsyncNetworkInterface) (xs : List AsyncNetworkInterface)
    → get_elem? xs n ≡ some b
    → all_carried (replace n a xs) + carried b.interface ≡ all_carried xs + carried a.interface
unfolding replace
all_carried-replace n a b [] h = cc
all_carried-replace zero a b (c ∷ xs) h =
    let e : carried c.interface ≡ carried b.interface =
      ap (λ (x : AsyncNetworkInterface). carried x.interface) (some-injective h) in
    omega (arith, e)
all_carried-replace (suc n) a b (c ∷ xs) h = omega (arith, all_carried-replace n a b xs h)

queues-replace :
    (n : ℕ) (a b : AsyncNetworkInterface) (xs : List AsyncNetworkInterface)
    → get_elem? xs n ≡ some b
    → a.datagrams_out ≡ b.datagrams_out
    → queues (replace n a xs) ≡ queues xs
unfolding replace
queues-replace n a b [] h e = cc
queues-replace zero a b (c ∷ xs) h e =
    ap (λ q. q ∷ queues xs)
      (e ∙ ap (λ (x : AsyncNetworkInterface). x.datagrams_out) (sym (some-injective h)))
queues-replace (suc n) a b (c ∷ xs) h e = ap (◌∷◌ c.datagrams_out) (queues-replace n a b xs h e)

-- From `r` to `q` the interfaces get `k` datagrams more; the table and the queues stay.
pub record Moved (r : Router) (k : ℕ) (q : Router) : Type 0 where
  pub same_table : q.routing_table ≡ r.routing_table
  pub same_queues : queues q.interfaces ≡ queues r.interfaces
  pub more : all_carried q.interfaces ≡ all_carried r.interfaces + k

module _ (past_end : NetworkInterface → ℕ) where
  send_on-Moved :
      (r q : Router) (dgram : Ipv4Datagram) (s : Sending ℕ)
      → send_on past_end r dgram s ≡ some q
      → Moved r 1 q
  unfolding send_on interface
  send_on-Moved r q dgram s h =
      let (a, found, h1) = bind-eq-some (interface r s.interface_num) _ q h in
      let (n, done, h2) =
        bind-eq-some
          (NetworkInterface.send_datagram (past_end a.interface) a.interface dgram s.next_hop) _ q
          h1 in
      let e = some-injective h2 in
      let b : AsyncNetworkInterface = record a { interface = n } in
      let one : carried n ≡ carried a.interface + 1 =
        send_datagram-Carries (past_end a.interface) a.interface dgram s.next_hop n done in
      let sum = all_carried-replace s.interface_num b a r.interfaces found in
      record {
        same_table = ap (λ (x : Router). x.routing_table) (sym e);
        same_queues =
            ap (λ (x : Router). queues x.interfaces) (sym e)
            ∙ queues-replace s.interface_num b a r.interfaces found refl;
        more = ap (λ (x : Router). all_carried x.interfaces) (sym e) ∙ omega (arith, sum, one);
      }

  route_one-Moved :
      (r q : Router) (dgram : Ipv4Datagram)
      → route_one past_end r dgram ≡ some q
      → Moved r (sent (chosen r dgram)) q
  unfolding route_one
  route_one-Moved r q dgram h = elim (Option-cases (chosen r dgram)) [
    | inl e ↦
        let same : r ≡ q = some-injective (sym (rw (e, route_one) refl) ∙ h) in
        let none_sent : sent (chosen r dgram) ≡ 0 = ap sent e in
        record {
          same_table = ap (λ (x : Router). x.routing_table) (sym same);
          same_queues = ap (λ (x : Router). queues x.interfaces) (sym same);
          more =
              ap (λ (x : Router). all_carried x.interfaces) (sym same) ∙ omega (arith, none_sent);
        }
    | inr (s, e) ↦
        let step : route_one past_end r dgram ≡ send_on past_end r dgram s =
          rw (e, route_one) refl in
        let one_sent : sent (chosen r dgram) ≡ 1 = ap sent e in
        let m = send_on-Moved r q dgram s (sym step ∙ h) in
        record {
          same_table = m.same_table;
          same_queues = m.same_queues;
          more = omega (arith, m.more, one_sent);
        }
  ]

  pub route_queue-Moved :
      (queue : List Ipv4Datagram) (r q : Router)
      → route_queue past_end r queue ≡ some q
      → Moved r (forwarded_of r.routing_table queue) q
  unfolding route_queue
  route_queue-Moved [] r q h =
      let same : r ≡ q = some-injective h in
      record {
        same_table = ap (λ (x : Router). x.routing_table) (sym same);
        same_queues = ap (λ (x : Router). queues x.interfaces) (sym same);
        more = ap (λ (x : Router). all_carried x.interfaces) (sym same) ∙ omega arith;
      }
  route_queue-Moved (dgram ∷ queue) r q h =
      let (p, h1, h2) = bind-eq-some (route_one past_end r dgram) _ q h in
      let m = route_one-Moved r p dgram h1 in
      let n = route_queue-Moved queue p q h2 in
      let left : forwarded_of p.routing_table queue ≡ forwarded_of r.routing_table queue =
        ap (λ t. forwarded_of t queue) m.same_table in
      record {
        same_table = n.same_table ∙ m.same_table;
        same_queues = n.same_queues ∙ m.same_queues;
        more = omega (arith, n.more, m.more, left);
      }
