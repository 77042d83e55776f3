-- ===== src/Buffer/Spec.antt =====
-- The calls of a CELLBuffer, and the bounded queue of bytes that it promises to be.
use cpp_network_obj.Base.{
  ℕ, ◌+◌, Bool, true, false, ◌&&◌, Option, none, some, List, [], ◌∷◌, ◌++◌, ℤ, pos, length, take,
  drop, leb, ltb, ◌==◌, if◌then◌else◌, ◌>>=◌,
}
use cpp_network_obj.Buffer.{
  Socket, is_valid, SendReply, send_failed, sent, RecvReply, recv_failed, received, socket_error,
}
use cpp_network_obj.Buffer.Framing.{is_ready}

-- What a client asks of a buffer, with the kernel's reply where the buffer asks the kernel.
pub data Op : Type 0 where
  do_push : List ℕ → Op
  do_pop : ℕ → Op
  do_write : Socket → SendReply → Op
  do_read : RecvReply → Op
  do_has_msg : Op
  do_data : ℕ → Op

-- What comes out of it: the Boolean of `push` and `hasMsg`, the bytes read through data(), the `int` of
-- the transfers, and for write2socket also the bytes that send() is called with.
pub data Output : Type 0 where
  flag : Bool → Output
  ret : ℤ → Output
  seen : List ℕ → Output
  wrote : List ℕ → ℤ → Output
  done : Output

-- The abstract component: a queue of at most `cap` bytes.
unfoldable pub step : ℕ → List ℕ → Op → Option (Output × List ℕ)
step cap q (do_push bytes) =
    if leb (length q + length bytes) cap then some (flag true, q ++ bytes) else some (flag false, q)
step cap q (do_pop n) = if leb n (length q) then some (done, drop n q) else none
step cap q (do_write sock send_failed) =
    some (if ltb 0 (length q) && is_valid sock then wrote q socket_error else wrote [] (pos 0), q)
step cap q (do_write sock (sent n)) =
    if ltb 0 (length q) && is_valid sock
    then (if n == 0
        then some (wrote q socket_error, q)
        else if leb n (length q)
        then some (wrote q (pos n), drop n q)
        else none)
    else some (wrote [] (pos 0), q)
step cap q (do_read recv_failed) =
    some (ret (if ltb (length q) cap then socket_error else pos 0), q)
step cap q (do_read (received bytes)) =
    if ltb (length q) cap
    then (if length bytes == 0
        then some (ret socket_error, q)
        else if leb (length q + length bytes) cap
        then some (ret (pos (length bytes)), q ++ bytes)
        else none)
    else some (ret (pos 0), q)
step cap q do_has_msg = some (flag (is_ready q), q)
step cap q (do_data n) = if leb n (length q) then some (seen (take n q), q) else none

unfoldable pub run : ℕ → List ℕ → List Op → Option (List Output)
run cap q [] = some []
run cap q (op ∷ ops) = step cap q op >>= λ (out, q'). run cap q' ops >>= λ outs. some (out ∷ outs)
