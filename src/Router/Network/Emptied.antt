-- ===== src/Router/Network/Emptied.antt =====
-- What `route` of libsponge/router.cc leaves.
use csed353_tcp.Prelude.{
  ℕ, zero, suc, ◌+◌, ◌≡◌, refl, ap, ◌∙◌, subst, some, List, [], ◌∷◌, arith, length, drop, get_elem?,
  drop_all, bind-eq-some, some-injective,
}
use csed353_tcp.Ipv4.{Ipv4Datagram}
use csed353_tcp.NetworkInterface.{NetworkInterface}
use csed353_tcp.Router.Network.{
  AsyncNetworkInterface, Router, interface, replace, route_queue, route_from, route,
}
use csed353_tcp.Router.Network.Forwarded.{
  Queues, queues, queued, all_carried, forwarded, forwarded_of, route_queue-Moved,
  all_carried-replace,
}

-- The queues with one of them emptied.
abbrev clear : ℕ → Queues → Queues
clear n [] = []
clear zero (q ∷ qs) = [] ∷ qs
clear (suc n) (q ∷ qs) = q ∷ clear n qs

queues-clear :
    (n : ℕ) (a : AsyncNetworkInterface) (xs : List AsyncNetworkInterface)
    → a.datagrams_out ≡ []
    → queues (replace n a xs) ≡ clear n (queues xs)
unfolding replace
queues-clear n a [] e = refl
queues-clear zero a (x ∷ xs) e = ap (λ q. q ∷ queues xs) e
queues-clear (suc n) a (x ∷ xs) e = ap (◌∷◌ x.datagrams_out) (queues-clear n a xs e)

get-queues :
    (n : ℕ) (a : AsyncNetworkInterface) (xs : List AsyncNetworkInterface)
    → get_elem? xs n ≡ some a
    → get_elem? (queues xs) n ≡ some a.datagrams_out
get-queues n a [] h = cc
get-queues zero a (x ∷ xs) h =
    ap (λ (y : AsyncNetworkInterface). some y.datagrams_out) (some-injective h)
get-queues (suc n) a (x ∷ xs) h = get-queues n a xs h

drop-get :
    (n : ℕ) (q : List Ipv4Datagram) (qs : Queues)
    → get_elem? qs n ≡ some q
    → drop n qs ≡ q ∷ drop (suc n) qs
drop-get n q [] h = cc
drop-get zero q (p ∷ qs) h = ap (λ t. t ∷ qs) (some-injective h)
drop-get (suc n) q (p ∷ qs) h = drop-get n q qs h

drop-clear : (n : ℕ) (qs : Queues) → drop (suc n) (clear n qs) ≡ drop (suc n) qs
drop-clear n [] = refl
drop-clear zero (q ∷ qs) = refl
drop-clear (suc n) (q ∷ qs) = drop-clear n qs

length-clear : (n : ℕ) (qs : Queues) → length (clear n qs) ≡ length qs
length-clear n [] = refl
length-clear zero (q ∷ qs) = refl
length-clear (suc n) (q ∷ qs) = ap suc (length-clear n qs)

queued-clear :
    (n : ℕ) (q : List Ipv4Datagram) (qs : Queues)
    → get_elem? qs n ≡ some q
    → queued (clear n qs) + length q ≡ queued qs
queued-clear n q [] h = cc
queued-clear zero q (p ∷ qs) h =
    omega (arith, ap (λ (t : List Ipv4Datagram). length t) (some-injective h))
queued-clear (suc n) q (p ∷ qs) h = omega (arith, queued-clear n q qs h)

length-queues : (xs : List AsyncNetworkInterface) → length (queues xs) ≡ length xs
length-queues [] = refl
length-queues (x ∷ xs) = ap suc (length-queues xs)

-- From `r` to `q` the queues from `i` on are emptied, and what has a route is carried on.
record Emptied (i : ℕ) (r q : Router) : Type 0 where
  same_table : q.routing_table ≡ r.routing_table
  more :
      all_carried q.interfaces
      ≡ all_carried r.interfaces + forwarded r.routing_table (drop i (queues r.interfaces))
  taken :
      queued (queues q.interfaces) + queued (drop i (queues r.interfaces))
      ≡ queued (queues r.interfaces)

module _ (past_end : NetworkInterface → ℕ) where
  route_from-Emptied :
      (k i : ℕ) (r q : Router)
      → i + k ≡ length (queues r.interfaces)
      → route_from past_end i k r ≡ some q
      → Emptied i r q
  unfolding route_from interface
  route_from-Emptied zero i r q size h =
      let same : r ≡ q = some-injective h in
      let none_left : drop i (queues r.interfaces) ≡ [] =
        drop_all i (queues r.interfaces) (omega (arith, size)) in
      subst (Emptied i r) same (record {
        same_table = refl;
        more = rw none_left (omega arith);
        taken = rw none_left (omega arith);
      })
  route_from-Emptied (suc k) i r q size h =
      let (a, found, h1) = bind-eq-some (interface r i) _ q h in
      let (p, moved, h2) = bind-eq-some (route_queue past_end r a.datagrams_out) _ q h1 in
      let (b, found', h3) = bind-eq-some (interface p i) _ q h2 in
      let m = route_queue-Moved past_end a.datagrams_out r p moved in
      let c : AsyncNetworkInterface = record b { datagrams_out = [] } in
      let next : Router = record p { interfaces = replace i c p.interfaces } in
      let qs : Queues = queues r.interfaces in
      let cleared : queues next.interfaces ≡ clear i qs =
        queues-clear i c p.interfaces refl ∙ ap (clear i) m.same_queues in
      let d : drop i qs ≡ a.datagrams_out ∷ drop (suc i) qs =
        drop-get i a.datagrams_out qs (get-queues i a r.interfaces found) in
      let d' : drop (suc i) (queues next.interfaces) ≡ drop (suc i) qs =
        ap (drop (suc i)) cleared ∙ drop-clear i qs in
      let lengths : length (queues next.interfaces) ≡ length qs =
        ap (λ (t : Queues). length t) cleared ∙ length-clear i qs in
      let rest : Emptied (suc i) next q =
        route_from-Emptied k (suc i) next q (omega (arith, size, lengths)) h3 in
      let kept = all_carried-replace i c b p.interfaces found' in
      let left : forwarded next.routing_table (drop (suc i) (queues next.interfaces))
          ≡ forwarded r.routing_table (drop (suc i) qs) =
        ap (forwarded p.routing_table) d' ∙ ap (λ t. forwarded t (drop (suc i) qs)) m.same_table in
      let split : forwarded r.routing_table (drop i qs)
          ≡ forwarded_of r.routing_table a.datagrams_out
            + forwarded r.routing_table (drop (suc i) qs) =
        ap (forwarded r.routing_table) d in
      let first = queued-clear i a.datagrams_out qs (get-queues i a r.interfaces found) in
      record {
        same_table = rest.same_table ∙ m.same_table;
        more = omega (arith, rest.more, kept, m.more, left, split);
        taken = omega (arith, rest.taken, first, ap queued cleared, ap queued d, ap queued d');
      }

-- When `route` returns, no interface of the router has a received datagram left; the routing table is as
-- it was; and the frames of type IPv4 and the datagrams that wait, over all interfaces, are as many as
-- before and one more for each received datagram for which `route_one_datagram` sends something.
pub route-Emptied :
    (past_end : NetworkInterface → ℕ) (r q : Router)
    → route past_end r ≡ some q
    → (queued (queues q.interfaces) ≡ 0)
      × (q.routing_table ≡ r.routing_table)
      × (all_carried q.interfaces
          ≡ all_carried r.interfaces + forwarded r.routing_table (queues r.interfaces))
unfolding route
route-Emptied past_end r q h =
    let e =
      route_from-Emptied past_end (length r.interfaces) 0 r q
        (omega (arith, length-queues r.interfaces)) h in
    (omega (arith, e.taken), e.same_table, e.more)
