-- ===== src/Router/Forwarding.antt =====
-- What `route_one_datagram` (libsponge/router.cc) sends.
use csed353_tcp.Prelude.{
  ℕ, ◌≤◌, ◌≡◌, ◌⊎◌, inl, inr, refl, ◌||◌, ◌==◌, ◌-◌, none, some, Option, Option-cases, List, arith,
  Bool-cases, subst,
}
use csed353_tcp.Router.{Route, scan, route_one_datagram, Datagram, Sending}
use csed353_tcp.Router.Choice.{All, Unmatched, Longest, longest_match, Chosen}

module _ {Address : Type 0} (from_ipv4_numeric : ℕ → Address) where
  -- The address of the next hop by a route: its own, or the destination for a direct one.
  abbrev pub hop : Route Address → Datagram → Address
  hop r dgram = elim r.next_hop [ none ↦ from_ipv4_numeric dgram.dst | some address ↦ address ]

  -- The datagram was sent by the longest match, with hops left.
  pub record Sent (table : List (Route Address)) (dgram : Datagram) (s : Sending Address)
      : Type 0 where
    pub route : Route Address
    pub longest : Longest dgram.dst table route
    pub alive : 2 ≤ dgram.ttl
    pub interface_of : s.interface_num ≡ route.interface_num
    pub unchanged : s.dgram ≡ dgram
    pub next_hop_of : s.next_hop ≡ hop route dgram

  abbrev pub Routed : List (Route Address) → Datagram → Option (Sending Address) → Type 0
  Routed table dgram none = All (Unmatched dgram.dst) table ⊎ (dgram.ttl ≤ 1)
  Routed table dgram (some s) = Sent table dgram s

  -- A datagram is dropped only if no route matches or its TTL is at most one; otherwise it is sent, as it
  -- is, on the interface of the longest match, to the next hop of that route, or to its destination
  -- if the route is direct.
  pub route_one_datagram-Routed :
      (table : List (Route Address)) (dgram : Datagram)
      → Routed table dgram (route_one_datagram from_ipv4_numeric table dgram)
  unfolding route_one_datagram
  route_one_datagram-Routed table dgram = elim (Option-cases (scan dgram.dst table none)) [
    | inl e ↦
        let c : Chosen dgram.dst table none =
          subst (Chosen dgram.dst table) e (longest_match dgram.dst table) in
        let sent : none ≡ route_one_datagram from_ipv4_numeric table dgram = ground (arith, e) in
        subst (Routed table dgram) sent (inl c)
    | inr (r, e) ↦
        let l : Chosen dgram.dst table (some r) =
          subst (Chosen dgram.dst table) e (longest_match dgram.dst table) in
        elim (Bool-cases (dgram.ttl == 0 || dgram.ttl - 1 == 0)) [
          | inl dead ↦
              let sent : none ≡ route_one_datagram from_ipv4_numeric table dgram =
                ground (arith, e, dead) in
              subst (Routed table dgram) sent (inr (ground (arith, dead)))
          | inr alive ↦
              let s : Sending Address = record {
                interface_num = r.interface_num;
                dgram = dgram;
                next_hop = hop r dgram;
              } in
              let sent : some s ≡ route_one_datagram from_ipv4_numeric table dgram =
                ground (arith, e, alive) in
              subst (Routed table dgram) sent (record {
                route = r;
                longest = l;
                alive = ground (arith, alive);
                interface_of = refl;
                unchanged = refl;
                next_hop_of = refl;
              })
        ]
  ]
