-- ===== src/OldServer/Sending.antt =====
-- The stream of bytes that SendData of the old ClientSocket makes.
use cpp_network_obj.Base.{ℕ, ◌<◌, ◌≡◌, some, List, [], ◌++◌, ℤ, length, take, concat, All}
use cpp_network_obj.Buffer.{SendReply}
use cpp_network_obj.OldServer.{buff_size, ClientSocket, send_loop}

pub record IsOpen (c : ClientSocket) : Type 0 where
  pub block : length c.send_buf ≡ buff_size
  pub inside : c.last_send_pos < buff_size

abbrev pub queued : ClientSocket → List ℕ
queued c = take c.last_send_pos c.send_buf

-- The end of a call of SendData whose calls of send() all succeed.
pub record Streamed (fuel : ℕ) (replies : ℕ → SendReply) (n : ℕ) (bytes : List ℕ) (ret : ℤ)
    (c : ClientSocket) : Type 0 where
  pub result : ℤ
  pub out : List (List ℕ)
  pub client : ClientSocket
  pub runs : send_loop fuel replies n bytes ret c ≡ some (result, out, client)
  pub flow : concat out ++ queued client ≡ queued c ++ bytes
  pub whole : All (λ chunk. length chunk ≡ buff_size) out
  pub still_open : IsOpen client
  pub unsent : out ≡ [] → result ≡ ret
