-- ===== src/EventLoop/Served.antt =====
-- The busy wait that `wait_next_event` of libsponge/util/eventloop.cc looks for after a callback.
use csed353_tcp.Prelude.{◌≡◌, refl, false, ◌&&◌, some, ◌==◌, Option-cases, inl, inr}
use csed353_tcp.EventLoop.{Rule, service_count, serve}

-- A callback that moves the count of its rule, or after which the interest is lost, passes the test.
pub serve-calm :
    {S : Type 0} (rule : Rule S) (s : S)
    → ((t : S)
        → rule.callback s ≡ some t
        → (service_count rule s == service_count rule t && rule.interest t) ≡ false)
    → serve rule s ≡ rule.callback s
unfolding serve
serve-calm rule s calm = elim (Option-cases (rule.callback s)) [
  | inl e ↦ rw e refl
  | inr (t, e) ↦ rw e (rw (calm t e) refl)
]
