-- ===== src/TcpClient/Owned.antt =====
-- The socket that a client has, and those that it has closed.
use cpp_network_obj.Base.{
  ℕ, ◌≡◌, refl, sym, false, Option, none, some, List, [], ◌∷◌, ◌++◌, append-nil, if◌then◌else◌,
  Option-cases, inl, inr,
}
use cpp_network_obj.Buffer.{Socket, invalid_socket, fd, is_valid}
use cpp_network_obj.Client.{CellClient, destroy}
use cpp_network_obj.Client
use cpp_network_obj.TcpClient.{TcpClient, close, init_socket}

-- The sockets that the destructor of _pClient would close.
abbrev owned_by : Option CellClient → List Socket
owned_by none = []
owned_by (some c) = destroy c

abbrev pub owned : TcpClient → List Socket
owned t = owned_by t.client

-- InitSocket and Close account for each socket once: whatever the client had is closed, once; after
-- InitSocket it has the new socket, or none where socket() failed; after Close it has none and is not
-- connected, and a second Close changes nothing.
pub init_socket-owned :
    (reply : Socket) (send_size recv_size : ℕ) (send_raw recv_raw : List ℕ) (t : TcpClient)
    → let t' = (init_socket reply send_size recv_size send_raw recv_raw t).1 in
      (t'.closed ≡ t.closed ++ owned t)
      × (owned t' ≡ (if is_valid reply then reply ∷ [] else []))
      × ((close t).closed ≡ t.closed ++ owned t)
      × (owned (close t) ≡ [])
      × ((close t).is_connect ≡ false)
      × (close (close t) ≡ close t)
unfolding init_socket close destroy Client.create
init_socket-owned invalid_socket send_size recv_size send_raw recv_raw t =
    elim (Option-cases t.client) [
      | inl e ↦ (
        rw e (sym (append-nil t.closed)),
        rw e refl,
        rw e (sym (append-nil t.closed)),
        rw e refl,
        rw e refl,
        rw e refl,
      )
      | inr (c, e) ↦ (rw e refl, rw e refl, rw e refl, rw e refl, rw e refl, rw e refl)
    ]
init_socket-owned (fd n) send_size recv_size send_raw recv_raw t = elim (Option-cases t.client) [
  | inl e ↦ (
    rw e (sym (append-nil t.closed)),
    refl,
    rw e (sym (append-nil t.closed)),
    rw e refl,
    rw e refl,
    rw e refl,
  )
  | inr (c, e) ↦ (rw e refl, refl, rw e refl, rw e refl, rw e refl, rw e refl)
]
