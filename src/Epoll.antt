-- ===== src/Epoll.antt =====
-- depends/include/CELLEpoll.hpp: an epoll descriptor of the system. What epoll_create and epoll_wait
-- return is an argument. The result of epoll_ctl, which no caller of `ctl` looks at, is left out; the
-- calls are kept.
use cpp_network_obj.Base.{
  ℕ, Bool, true, false, List, [], ◌∷◌, ◌++◌, ℤ, pos, negsuc, leb_ℤ, if◌then◌else◌,
}
use cpp_network_obj.Buffer.{Socket}
use cpp_network_obj.Server.{is_error}

-- EPOLL_CTL_ADD and EPOLL_CTL_MOD, the operations that the program uses.
pub data CtlOp : Type 0 where
  ctl_add ctl_mod : CtlOp

-- A call of epoll_ctl: EPOLLIN is always asked for, EPOLLOUT if `output` is set.
pub record Ctl : Type 0 where
  pub op : CtlOp
  pub sock : Socket
  pub output : Bool

-- `has_events` says whether _pEvents is set; `closed` are the descriptors closed so far.
pub record Epoll : Type 0 where
  pub epfd : ℤ
  pub max_events : ℕ
  pub has_events : Bool
  pub calls : List Ctl
  pub closed : List ℤ

pub unset : Epoll
unset = record { epfd = negsuc 0; max_events = 1; has_events = false; calls = []; closed = [] }

-- destory
unfoldable pub destroy : Epoll → Epoll
destroy ep =
    if leb_ℤ (pos 1) ep.epfd
    then record ep { epfd = negsuc 0; has_events = false; closed = ep.closed ++ ep.epfd ∷ [] }
    else record ep { has_events = false }

-- create, where epoll_create returned `reply`.
unfoldable pub create : ℤ → ℕ → Epoll → ℤ × Epoll
unfolding destroy
create reply n ep =
    let ep' = if leb_ℤ (pos 1) ep.epfd then destroy ep else ep in
    if is_error reply
    then (reply, record ep' { epfd = reply })
    else (reply, record ep' { epfd = reply; has_events = true; max_events = n })

unfoldable pub ctl : CtlOp → Socket → Bool → Epoll → Epoll
ctl op sock output ep = record ep {
  calls = ep.calls ++ (record { op = op; sock = sock; output = output }) ∷ [];
}

-- wait, where epoll_wait returned `ret`.
unfoldable pub wait : ℤ → Bool → ℤ
wait ret eintr = if is_error ret then (if eintr then pos 0 else ret) else ret
