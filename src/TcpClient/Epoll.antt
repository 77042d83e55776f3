-- ===== src/TcpClient/Epoll.antt =====
-- depends/include/EasyEpollClient.hpp: a client that waits with epoll.
use cpp_network_obj.Base.{
  ℕ, Bool, true, false, Option, none, some, List, [], ◌∷◌, ℤ, pos, negsuc, take, if◌then◌else◌,
  ◌>>=◌,
}
use cpp_network_obj.Buffer.{Socket, is_valid, RecvReply, SendReply}
use cpp_network_obj.Client.{need_write, send_data_real}
use cpp_network_obj.Client.Drain.{Handler}
use cpp_network_obj.Epoll.{Epoll, CtlOp, create, destroy, ctl, wait}
use cpp_network_obj.Server.{is_error}
use cpp_network_obj.TcpClient.{TcpClient, is_some, is_run, recv_messages}
use cpp_network_obj.TcpClient

-- An epoll_event: the pointer of each is to the client, unless it is null.
pub record ClientEvent : Type 0 where
  pub present : Bool
  pub input : Bool
  pub output : Bool

-- What the kernel does in a call of OnRun: the result of epoll_wait and whether errno is EINTR, the
-- events, and the results of recv and send for each.
pub record EpollRound : Type 0 where
  pub waited : ℤ
  pub eintr : Bool
  pub events : List (ClientEvent × RecvReply × SendReply)

pub record EpollClient : Type 0 where
  pub tcp : TcpClient
  pub ep : Epoll

-- OnInitSocket, where epoll_create returned `reply`, of a client that has its socket.
unfoldable pub on_init_socket : ℤ → EpollClient → Option EpollClient
unfolding ctl
on_init_socket reply e = e.tcp.client >>= λ c.
    some (record e { ep = ctl CtlOp.ctl_add c.sockfd false (create reply 1 e.ep).1 })

-- Close
unfoldable pub close : EpollClient → EpollClient
unfolding destroy TcpClient.close
close e = record { tcp = TcpClient.close e.tcp; ep = destroy e.ep }

-- InitSocket with the Close and OnInitSocket of this class, where socket() and epoll_create returned
-- the replies.
unfoldable pub init_socket :
    Socket → ℤ → ℕ → ℕ → List ℕ → List ℕ → EpollClient → Option (Socket × EpollClient)
unfolding close on_init_socket TcpClient.init_socket
init_socket reply epoll_reply send_size recv_size send_raw recv_raw e =
    let e' : EpollClient = if is_some e.tcp.client then close e else e in
    let (sock, tcp') = TcpClient.init_socket reply send_size recv_size send_raw recv_raw e'.tcp in
    if is_valid sock
    then (on_init_socket epoll_reply (record e' { tcp = tcp' }) >>= λ e''. some (sock, e''))
    else some (sock, record e' { tcp = tcp' })

module _ {S : Type 0} (handle : Handler S) where
  -- The second part of the loop's body: pClient->SendDataReal(), undefined once it is deleted.
  unfoldable pub send_event : SendReply → S → EpollClient → Option (S × EpollClient)
  unfolding send_data_real
  send_event reply s e = e.tcp.client >>= λ c. send_data_real c reply >>= λ (ret, c').
      let e' : EpollClient = record e { tcp = record (e.tcp) { client = some c' } } in
      some (s, if is_error ret then close e' else e')

  -- The body of the loop over the events.
  unfoldable pub do_event :
      ℕ → ClientEvent × RecvReply × SendReply → S → EpollClient → Option (S × EpollClient)
  unfolding recv_messages send_event
  do_event fuel (ev, recv, send) s e =
      if ev.present
      then ((if ev.input then recv_messages handle fuel recv s e.tcp else some (pos 0, s, e.tcp))
          >>= λ (ret, s', tcp').
              let e' : EpollClient = record e { tcp = tcp' } in
              if is_error ret
              then some (s', close e')
              else if ev.output
              then send_event send s' e'
              else some (s', e'))
      else some (s, e)

  unfoldable pub do_events :
      ℕ → List (ClientEvent × RecvReply × SendReply) → S → EpollClient → Option (S × EpollClient)
  unfolding do_event
  do_events fuel [] s e = some (s, e)
  do_events fuel (ev ∷ evs) s e = do_event fuel ev s e >>= λ (s', e'). do_events fuel evs s' e'

  -- OnRun
  unfoldable pub on_run : ℕ → EpollRound → S → EpollClient → Option (Bool × S × EpollClient)
  unfolding do_events ctl wait
  on_run fuel round s e = elim (is_run e.tcp) [
    | none ↦ some (false, s, e)
    | some c ↦
        let e' : EpollClient = record e { ep = ctl CtlOp.ctl_mod c.sockfd (need_write c) e.ep } in
        elim (wait round.waited round.eintr) [
          | negsuc n ↦ some (false, s, e')
          | pos n ↦ do_events fuel (take n round.events) s e' >>= λ (s', e''). some (true, s', e'')
        ]
  ]
