-- ===== src/TcpClient.antt =====
-- depends/include/EasyTcpClient.hpp: the client side of a connection. A subclass answers the messages
-- with a handler on its own state `S`.
pub mod Owned
pub mod Select
pub mod Epoll
pub mod Sets
pub mod Ends
pub mod Alike
use cpp_network_obj.Base.{
  ℕ, suc, ◌+◌, ◌<◌, ◌≡◌, Bool, true, false, Option, none, some, List, [], ◌++◌, ℤ, pos, negsuc,
  if◌then◌else◌, ◌>>=◌,
}
use cpp_network_obj.Buffer.{
  Socket, invalid_socket, fd, is_valid, socket_error, RecvReply, SendReply,
}
use cpp_network_obj.Client.{CellClient, recv_data, destroy}
use cpp_network_obj.Client
use cpp_network_obj.Client.Drain.{Handler, drain}
use cpp_network_obj.Server.{is_error}

-- `client` is _pClient; `next_id` the static counter of CELLClient, and `closed` the sockets closed.
pub record TcpClient : Type 0 where
  pub client : Option CellClient
  pub is_connect : Bool
  pub next_id : ℕ
  pub closed : List Socket

-- Close
unfoldable pub close : TcpClient → TcpClient
close t = elim t.client [
  | none ↦ record t { is_connect = false }
  | some c ↦ record t { client = none; is_connect = false; closed = t.closed ++ destroy c }
]

abbrev pub is_some : {A : Type 0} → Option A → Bool
is_some none = false
is_some (some a) = true

-- InitSocket, where socket() returned `reply`, over the unset bytes of the new buffers.
unfoldable pub init_socket : Socket → ℕ → ℕ → List ℕ → List ℕ → TcpClient → Socket × TcpClient
unfolding close
init_socket reply send_size recv_size send_raw recv_raw t =
    let t' : TcpClient = if is_some t.client then close t else t in
    if is_valid reply
    then (let (c, next) = Client.create t'.next_id reply send_size recv_size send_raw recv_raw in
        (reply, record t' { client = some c; next_id = next }))
    else (reply, t')

-- isRun
abbrev pub is_run : TcpClient → Option CellClient
is_run t = if t.is_connect then t.client else none

-- Connect to an address, where connect() returned `ret`, of a client that has its socket.
unfoldable pub connected : ℤ → TcpClient → ℤ × TcpClient
connected ret t = if is_error ret then (ret, t) else (ret, record t { is_connect = true })

-- What Connect does, with the default sizes of the buffers.
unfoldable pub connect : ℤ → Socket → ℕ → ℕ → List ℕ → List ℕ → TcpClient → ℤ × TcpClient
unfolding init_socket connected
connect ret reply send_size recv_size send_raw recv_raw t = elim t.client [
  | some c ↦ connected ret t
  | none ↦
      let (sock, t') = init_socket reply send_size recv_size send_raw recv_raw t in
      if is_valid sock then connected ret t' else (socket_error, t')
]

-- SendData, for a header and for some bytes.
unfoldable pub send_header : List ℕ → TcpClient → ℤ × TcpClient
send_header mem t = elim (is_run t) [
  | none ↦ (socket_error, t)
  | some c ↦ let (ret, c') = Client.send_header c mem in (ret, record t { client = some c' })
]

unfoldable pub send_data : List ℕ → TcpClient → ℤ × TcpClient
send_data bytes t = elim (is_run t) [
  | none ↦ (socket_error, t)
  | some c ↦ let (ret, c') = Client.send_data c bytes in (ret, record t { client = some c' })
]

abbrev pub is_positive : ℤ → Bool
is_positive (pos n) = elim n [ ℕ.zero ↦ false | suc m ↦ true ]
is_positive (negsuc n) = false

module _ {S : Type 0} (handle : Handler S) where
  -- RecvData of a client that runs, with the fuel for the loop over the messages.
  unfoldable pub recv_run : ℕ → RecvReply → S → CellClient → Option (ℤ × S × CellClient)
  unfolding drain
  recv_run fuel reply s c = recv_data c reply >>= λ (ret, c').
      if is_positive ret
      then (drain handle fuel s c' >>= λ (s', c''). some (ret, s', c''))
      else some (ret, s, c')

  -- RecvData
  unfoldable pub recv_messages : ℕ → RecvReply → S → TcpClient → Option (ℤ × S × TcpClient)
  unfolding recv_run
  recv_messages fuel reply s t = elim (is_run t) [
    | none ↦ some (pos 0, s, t)
    | some c ↦
        recv_run fuel reply s c >>= λ (ret, s', c'). some (ret, s', record t { client = some c' })
  ]
