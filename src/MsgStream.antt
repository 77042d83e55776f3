-- ===== src/MsgStream.antt =====
-- depends/include/CELLMsgStream.hpp: streams over a message, whose first two bytes are its length.
pub mod Finish
use cpp_network_obj.Base.{ℕ, Bool, false, Option, List, length, take}
use cpp_network_obj.Message.{data_length, code, Cmd}
use cpp_network_obj.Stream.{
  CellStream, push, set_write_pos, write, write_array, read_or, create_over,
}
use cpp_network_obj.Stream

-- CELLReadStream(pData, nSize, bDelete): all of it counts as written.
unfoldable pub read_stream_over : List ℕ → ℕ → Bool → CellStream
unfolding create_over
read_stream_over chars n owned = push (create_over chars n owned) n

-- CELLReadStream(header), for a header that points to `mem`.
unfoldable pub read_stream : List ℕ → CellStream
unfolding read_stream_over
read_stream mem = read_stream_over mem (data_length mem) false

unfoldable pub get_net_cmd : CellStream → ℕ × CellStream
unfolding read_or
get_net_cmd s = read_or 2 (code Cmd.error) s

-- CELLWriteStream(pData, nSize, bDelete) and CELLWriteStream(nSize): two bytes are set aside.
unfoldable pub write_stream_over : List ℕ → ℕ → Bool → CellStream
unfolding create_over write
write_stream_over chars n owned = (write 2 0 (create_over chars n owned)).1

unfoldable pub write_stream : ℕ → List ℕ → CellStream
unfolding Stream.create write
write_stream n raw = (write 2 0 (Stream.create n raw)).1

unfoldable pub set_net_cmd : ℕ → CellStream → CellStream
unfolding write
set_net_cmd cmd s = (write 2 cmd s).1

-- WriteString(str, len), and the two others with the length of the string.
unfoldable pub write_string : List ℕ → CellStream → Option (Bool × CellStream)
unfolding write_array
write_string chars s = write_array 1 chars s

-- finsh: the length goes to the front.
unfoldable pub finish : CellStream → CellStream
unfolding write
finish s = set_write_pos ((write 2 s.write_pos (set_write_pos s 0)).1) s.write_pos

-- data() with length(): the bytes that the program sends of a stream.
unfoldable pub message : CellStream → List ℕ
message s = take s.write_pos s.mem
