-- ===== src/TcpClient/Select.antt =====
-- depends/include/EasySelectClient.hpp, as built on Linux: OnRun of a client that waits with select().
-- The two sets are cleared by each call, so that they are no state.
use cpp_network_obj.Base.{
  ℕ, Bool, true, false, Option, none, some, ℤ, pos, negsuc, if◌then◌else◌, ◌>>=◌,
}
use cpp_network_obj.Buffer.{Socket, invalid_socket, fd, RecvReply, SendReply}
use cpp_network_obj.Client.{need_write, send_data_real}
use cpp_network_obj.Client.Drain.{Handler}
use cpp_network_obj.FdSet.{FdBits, add, has}
use cpp_network_obj.Server.{is_error}
use cpp_network_obj.TcpClient.{TcpClient, is_run, close, recv_messages}

-- What the kernel does in a call of OnRun: the result of select(), whether the
-- socket is found readable and writable, and the results of recv and send. errno is not looked at.
pub record ClientRound : Type 0 where
  pub selected : ℤ
  pub readable : Bool
  pub writable : Bool
  pub recv : RecvReply
  pub send : SendReply

-- The client's bit in a set after select().
abbrev keep : (bits : FdBits) → Bool → Socket → bits.Bits → bits.Bits
keep bits ready invalid_socket b = b
keep bits ready (fd n) b = if ready then b else bits.clr n b

module _ {S : Type 0} (handle : Handler S) where
  -- SendDataReal of _pClient, which is undefined once it is deleted, and what follows it.
  unfoldable pub send_part : SendReply → S → TcpClient → Option (Bool × S × TcpClient)
  unfolding send_data_real
  send_part reply s t = t.client >>= λ c. send_data_real c reply >>= λ (ret, c').
      let t' : TcpClient = record t { client = some c' } in
      some (if is_error ret then (false, s, close t') else (true, s, t'))

  -- The two parts that follow select(), where `readable` and `writable` are what the sets say.
  unfoldable pub transfer :
      ℕ → Bool → Bool → ClientRound → S → TcpClient → Option (Bool × S × TcpClient)
  unfolding recv_messages send_part
  transfer fuel readable writable round s t =
      (if readable then recv_messages handle fuel round.recv s t else some (pos 0, s, t))
      >>= λ (ret, s', t').
          if is_error ret
          then some (false, s', close t')
          else if writable
          then send_part round.send s' t'
          else some (true, s', t')

  -- The rest of OnRun, for a client with the socket that has something to send if `asked`.
  unfoldable pub run_selected :
      (bits : FdBits)
      → ℕ
      → Socket
      → Bool
      → ClientRound
      → S
      → TcpClient
      → Option (Bool × S × TcpClient)
  unfolding transfer
  run_selected bits fuel sock asked round s t = add bits sock bits.zeros >>= λ r.
      (if asked then add bits sock bits.zeros else some bits.zeros) >>= λ w. elim round.selected [
        | negsuc n ↦ some (false, s, close t)
        | pos n ↦ has bits sock (keep bits round.readable sock r) >>= λ readable.
            has bits sock (if asked then keep bits round.writable sock w else w) >>= λ writable.
            transfer fuel readable writable round s t
      ]

  -- OnRun
  unfoldable pub on_run :
      (bits : FdBits) → ℕ → ClientRound → S → TcpClient → Option (Bool × S × TcpClient)
  unfolding run_selected
  on_run bits fuel round s t = elim (is_run t) [
    | none ↦ some (false, s, t)
    | some c ↦ run_selected bits fuel c.sockfd (need_write c) round s t
  ]
