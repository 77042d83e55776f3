-- ===== src/TcpClient/Alike.antt =====
-- A call of OnRun with epoll does what a call with select() does, but for its result.
use cpp_network_obj.Base.{Bool, true, false, ◌&&◌, Option, some, [], ◌∷◌, pos, ◌>>=◌}
use cpp_network_obj.Buffer.{RecvReply, SendReply}
use cpp_network_obj.Client.{CellClient, need_write}
use cpp_network_obj.TcpClient.{TcpClient}
use cpp_network_obj.TcpClient.Select.{ClientRound}
use cpp_network_obj.TcpClient.Epoll.{ClientEvent, EpollRound, EpollClient}
use cpp_network_obj.TcpClient.Epoll

-- The event of the client, with the kernel's answers.
abbrev pub event_of : CellClient → ClientRound → ClientEvent × RecvReply × SendReply
event_of c round = (
  record { present = true; input = round.readable; output = need_write c && round.writable },
  round.recv,
  round.send,
)

abbrev pub one_event : CellClient → ClientRound → EpollRound
one_event c round = record { waited = pos 1; eintr = false; events = event_of c round ∷ [] }

-- What a call leaves of the connection, with the result `true`.
abbrev pub with_true : {S : Type 0} → Option (Bool × S × TcpClient) → Option (Bool × S × TcpClient)
with_true r = r >>= λ (go, s, t). some (true, s, t)

abbrev pub connection :
    {S : Type 0} → Option (Bool × S × EpollClient) → Option (Bool × S × TcpClient)
connection r = r >>= λ (go, s, e). some (go, s, e.tcp)
