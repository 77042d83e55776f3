-- ===== src/Client/Drain.antt =====
-- The loop that dispatches the complete messages of a client, which CELLServer::DoMsg and
-- EasyTcpClient::RecvData share: while (hasMsg()) { OnNetMsg(front_msg()); pop_front_msg(); }
pub mod Stuck
pub mod Parting
pub mod Messages
pub mod Reassembly
use cpp_network_obj.Base.{ℕ, zero, suc, Bool, true, false, Option, none, some, List, ◌>>=◌}
use cpp_network_obj.Client.{CellClient, has_msg, front_msg, pop_front_msg}

-- A handler is given the object's state, the client, and the memory at the message.
abbrev pub Handler : Type 0 → Type 0
Handler S = S → CellClient → List ℕ → Option (S × CellClient)

-- `none` once the fuel is used up, too.
unfoldable pub drain : {S : Type 0} → Handler S → ℕ → S → CellClient → Option (S × CellClient)
drain handle zero s c = none
drain handle (suc fuel) s c = elim (has_msg c) [
  | true ↦
      handle s c (front_msg c) >>= λ (s', c'). pop_front_msg c' >>= λ c''. drain handle fuel s' c''
  | false ↦ some (s, c)
]
