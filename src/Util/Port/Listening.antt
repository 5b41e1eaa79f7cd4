-- ===== src/Util/Port/Listening.antt =====
-- Which ports cirrinad/util/util.go reads from netstat's output.
use cirrina.Prelude.{ℕ, ◌≡◌, ok}
use cirrina.Util.Json.{Json, object, Items, cons, Fields}
use cirrina.Util.Port.{parse_netstat_socket}

-- Some object among the sockets is read as a socket that listens on `p`.
pub data Listens (p : ℕ) : Items → Type 0 where
  here :
      {s : Fields} {items : Items}
      → parse_netstat_socket s ≡ ok p
      → Listens p (cons (object s) items)
  later : {j : Json} {items : Items} → Listens p items → Listens p (cons j items)
