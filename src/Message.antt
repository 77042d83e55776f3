-- ===== src/Message.antt =====
-- depends/include/MessageHeader.hpp: the commands and the message structs, as bytes in memory.
-- An `unsigned short` takes two bytes and an `int` four; none of the structs has padding.
-- Fields that a constructor leaves unset are arguments of the message.
pub mod Layout
pub mod Ids
use cpp_network_obj.Base.{
  ℕ, suc, ◌+◌, ◌<◌, ◌^◌, ◌≡◌, List, [], ◌∷◌, ◌++◌, length, take, drop, slice, le_encode, le_decode,
  leb, Option, some, none, if◌then◌else◌,
}

-- enum CMD
pub data Cmd : Type 0 where
  login login_result logout logout_result new_user_join c2s_heart s2c_heart error : Cmd

abbrev pub code : Cmd → ℕ
code login = 10
code login_result = 11
code logout = 12
code logout_result = 13
code new_user_join = 14
code c2s_heart = 15
code s2c_heart = 16
code error = 17

-- The structs, with the values of their fields. An `int` is its 32-bit pattern.
pub data NetMsg : Type 0 where
  data_header : NetMsg
  login_msg : (user_name pass_word chars : List ℕ) (msg_id : ℕ) → NetMsg
  login_r : (result : ℕ) (chars : List ℕ) (msg_id : ℕ) → NetMsg
  logout_msg : (user_name : List ℕ) → NetMsg
  logout_r : (result : ℕ) → NetMsg
  user_join : (scok : ℕ) → NetMsg
  c2s_heart_msg : NetMsg
  s2c_heart_msg : NetMsg

-- `cmd`, as each constructor sets it.
abbrev pub cmd : NetMsg → Cmd
cmd data_header = error
cmd (login_msg u p d i) = login
cmd (login_r r d i) = login_result
cmd (logout_msg u) = logout
cmd (logout_r r) = logout_result
cmd (user_join s) = new_user_join
cmd c2s_heart_msg = c2s_heart
cmd s2c_heart_msg = s2c_heart

-- `dataLength`, as each constructor sets it: sizeof of the struct.
abbrev pub size_of : NetMsg → ℕ
size_of data_header = 4
size_of (login_msg u p d i) = 100
size_of (login_r r d i) = 100
size_of (logout_msg u) = 36
size_of (logout_r r) = 8
size_of (user_join s) = 8
size_of c2s_heart_msg = 4
size_of s2c_heart_msg = 4

-- The fields behind the header.
unfoldable pub body : NetMsg → List ℕ
body data_header = []
body (login_msg u p d i) = u ++ (p ++ (d ++ le_encode 4 i))
body (login_r r d i) = le_encode 4 r ++ (d ++ le_encode 4 i)
body (logout_msg u) = u
body (logout_r r) = le_encode 4 r
body (user_join s) = le_encode 4 s
body c2s_heart_msg = []
body s2c_heart_msg = []

-- The struct in memory.
unfoldable pub bytes : NetMsg → List ℕ
unfolding body
bytes m = le_encode 2 (size_of m) ++ (le_encode 2 (code (cmd m)) ++ body m)

-- header->dataLength and header->cmd, read through a pointer to memory.
unfoldable pub data_length : List ℕ → ℕ
data_length mem = le_decode (slice 0 2 mem)

unfoldable pub cmd_field : List ℕ → ℕ
cmd_field mem = le_decode (slice 2 2 mem)

-- ((netmsg_Login*)header)->msgID; netmsg_LoginR has its msgID at the same place.
unfoldable pub msg_id_field : List ℕ → ℕ
msg_id_field mem = le_decode (slice 96 4 mem)

-- The same, where nothing has looked at the length: `none` where the memory ends before the field does.
unfoldable pub read_msg_id : List ℕ → Option ℕ
read_msg_id mem = if leb 100 (length mem) then some (msg_id_field mem) else none

-- The char arrays have the lengths that the structs declare.
abbrev pub IsWellSized : NetMsg → Type 0
IsWellSized (login_msg u p d i) = (length u ≡ 32) × (length p ≡ 32) × (length d ≡ 28) × (i < 2 ^ 32)
IsWellSized (login_r r d i) = (length d ≡ 88) × (i < 2 ^ 32)
IsWellSized (logout_msg u) = length u ≡ 32
IsWellSized m = 0 < size_of m
