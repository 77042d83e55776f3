-- ===== src/NetEvent.antt =====
-- depends/include/INetEvent.hpp: what a server tells its owner. A callback is given the owner's
-- state; OnNetMsg may change the client, and is given the memory at the message.
use cpp_network_obj.Client.{CellClient}
use cpp_network_obj.Client.Drain.{Handler}

pub record NetEvent (S : Type 0) : Type 0 where
  pub on_net_join : S → CellClient → S
  pub on_net_leave : S → CellClient → S
  pub on_net_msg : Handler S
  pub on_net_recv : S → CellClient → S
