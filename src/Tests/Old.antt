-- ===== src/Tests/Old.antt =====
-- The old server at concrete inputs.
use cpp_network_obj.Base.{[], replicate}
use cpp_network_obj.Buffer.{fd}
use cpp_network_obj.OldServer.{buff_size, ClientSocket}

-- A buffer with room for one byte before it is sent.
abbrev old_client : ClientSocket
old_client = record {
  sockfd = fd 5;
  msg_buf = [];
  last_pos = 0;
  send_buf = replicate buff_size 0;
  last_send_pos = 51199;
}
