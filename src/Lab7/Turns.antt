-- ===== src/Lab7/Turns.antt =====
-- The turns in which the router of apps/lab7.cc sends frames to the host.
use csed353_tcp.Prelude.{
  ℕ, zero, suc, ◌<◌, ◌≡◌, refl, sym, ◌∙◌, some, Option-cases, inl, inr, List, [], ◌∷◌, ◌++◌, Bytes,
  length, get_elem?, u64_mod,
}
use csed353_tcp.Adapter.{Address}
use csed353_tcp.Buffer.{views}
use csed353_tcp.Descriptor.{Kernel}
use csed353_tcp.Descriptor.Documented.{shown, IsStream, IsBlocking}
use csed353_tcp.Descriptor.Writes.{write_all_lem}
use csed353_tcp.Ethernet
use csed353_tcp.Ethernet.{EthernetFrame}
use csed353_tcp.Lab7.{Network, frames_at, with_frames, router_to_host}
use csed353_tcp.NetworkInterface.{NetworkInterface}
use csed353_tcp.Router.Network.{Router, AsyncNetworkInterface, interface, replace}
use csed353_tcp.Sockets.{UdpKernel}

get_elem?-replace :
    (n : ℕ) (a b : AsyncNetworkInterface) (others : List AsyncNetworkInterface)
    → get_elem? others n ≡ some b
    → get_elem? (replace n a others) n ≡ some a
unfolding replace
get_elem?-replace n a b [] h = cc
get_elem?-replace zero a b (x ∷ xs) h = refl
get_elem?-replace (suc n) a b (x ∷ xs) h = get_elem?-replace n a b xs h

-- What waits at a side is what was put there.
frames_at-with_frames :
    (r : Router) (side : ℕ) (f : EthernetFrame) (fs frames : List EthernetFrame)
    → frames_at r side ≡ f ∷ fs
    → (q : Router) × (with_frames r side frames ≡ some q) × (frames_at q side ≡ frames)
unfolding with_frames interface
frames_at-with_frames r side f fs frames h = elim (Option-cases (interface r side)) [
  | inl e ↦ absurd (let bad : [] ≡ f ∷ fs = sym (rw (e, frames_at) refl) ∙ h in cc)
  | inr (a, e) ↦
      let b : AsyncNetworkInterface = record a {
        interface = record (a.interface) { frames_out = frames };
      } in
      let q : Router = record r { interfaces = replace side b r.interfaces } in
      let there : interface q side ≡ some b = get_elem?-replace side b a r.interfaces e in
      (q, rw e refl, rw (there, frames_at) refl)
]

-- On a blocking descriptor on which `writev` does as it is documented and does not fail, a turn of the
-- second rule, at an interface at which frames wait, returns: the bytes of the first frame, if they are
-- less than 2 ^ 64, have gone to the host, whole and behind what had been sent, and exactly the other
-- frames still wait there.
pub router_to_host-sends :
    {W : Type 0} (k : Kernel W) (u : UdpKernel W) (past_end : NetworkInterface → ℕ)
    (bounce_address : Address) (host_side internet_side : ℕ) {sent : W → ℕ → Bytes} (s : Network W)
    (f : EthernetFrame) (fs : List EthernetFrame)
    → IsStream k sent
    → IsBlocking k s.frame_fd.fd
    → frames_at s.router host_side ≡ f ∷ fs
    → length (shown (views (Ethernet.serialize f))) < u64_mod
    → (t : Network W) × (router_to_host k u past_end bounce_address host_side internet_side s
        ≡ some t)
      × (frames_at t.router host_side ≡ fs)
      × (sent t.world s.frame_fd.fd
          ≡ sent s.world s.frame_fd.fd ++ shown (views (Ethernet.serialize f)))
unfolding router_to_host
router_to_host-sends k u past_end bounce_address host_side internet_side {sent} s f fs stream takes
      h small =
    let (d, w, e, now) =
      write_all_lem k s.frame_fd s.world (views (Ethernet.serialize f)) small stream takes in
    let (q, c, left) = frames_at-with_frames s.router host_side f fs fs h in
    (
      record s { world = w; frame_fd = d; router = q },
      rw (h, router_to_host) (rw e (rw c refl)),
      left,
      now,
    )
