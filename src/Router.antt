-- ===== src/Router.antt =====
-- libsponge/router.hh and router.cc: the routing table and the choice of a route. An address is a
-- parameter, as is the one that stands for a number; what is sent is the result, beside the number of
-- the interface. The message that `add_route` prints is left out.
pub mod Choice
pub mod Forwarding
pub mod Network
use csed353_tcp.Prelude.{
  ℕ, ◌-◌, ◌/◌, ◌^◌, Bool, true, false, ◌&&◌, ◌||◌, Option, none, some, List, [], ◌∷◌, ◌++◌, ltb,
  leb, ◌==◌, if◌then◌else◌,
}

-- class Routingtable: a line of the table.
pub record Route (Address : Type 0) : Type 0 where
  pub route_prefix : ℕ
  pub prefix_length : ℕ
  pub next_hop : Option Address
  pub interface_num : ℕ

-- The fields of an Internet datagram that are read.
pub record Datagram : Type 0 where
  pub dst : ℕ
  pub ttl : ℕ

-- A call of `send_datagram` of an interface.
pub record Sending (Address : Type 0) : Type 0 where
  pub interface_num : ℕ
  pub dgram : Datagram
  pub next_hop : Address

unfoldable pub add_route :
    {Address : Type 0} → List (Route Address) → ℕ → ℕ → Option Address → ℕ → List (Route Address)
add_route table route_prefix prefix_length next_hop interface_num =
    table
    ++ record {
      route_prefix = route_prefix;
      prefix_length = prefix_length;
      next_hop = next_hop;
      interface_num = interface_num;
    }
      ∷ []

-- The leading `len` bits of a 32-bit number, for lengths of at most 32; a shift by 32 is avoided.
abbrev pub leading : ℕ → ℕ → ℕ
leading len n = if ltb 0 len then n / (2 ^ (32 - len)) else 0

unfoldable pub matches : {Address : Type 0} → ℕ → Route Address → Bool
matches dst o = leading o.prefix_length o.route_prefix == leading o.prefix_length dst

-- One round of the loop; `none` stands for `max` being -1, and otherwise `max` is the length of the
-- route that was found.
unfoldable pub pick :
    {Address : Type 0} → ℕ → Option (Route Address) → Route Address → Option (Route Address)
unfolding matches
pick dst none o = if matches dst o then some o else none
pick dst (some r) o =
    if matches dst o && ltb r.prefix_length o.prefix_length then some o else some r

unfoldable pub scan :
    {Address : Type 0} → ℕ → List (Route Address) → Option (Route Address) → Option (Route Address)
unfolding pick
scan dst [] best = best
scan dst (o ∷ rest) best = scan dst rest (pick dst best o)

module _ {Address : Type 0} (from_ipv4_numeric : ℕ → Address) where
  unfoldable pub route_one_datagram : List (Route Address) → Datagram → Option (Sending Address)
  unfolding scan
  route_one_datagram table dgram = elim (scan dgram.dst table none) [
    | none ↦ none
    | some matched ↦
        if dgram.ttl == 0 || dgram.ttl - 1 == 0
        then none
        else some (record {
          interface_num = matched.interface_num;
          dgram = dgram;
          next_hop = elim matched.next_hop [
            | none ↦ from_ipv4_numeric dgram.dst
            | some address ↦ address
          ];
        })
  ]
