-- ===== src/Tests/Endings.antt =====
-- The clients of a thread of the client application at concrete inputs.
use cpp_network_obj.Base.{
  ◌≡◌, refl, Bool, true, false, none, List, [], ◌∷◌, ℤ, pos, negsuc, ◌+ℤ◌, replicate, ◌>>=◌,
}
use cpp_network_obj.Buffer.{Socket, fd}
use cpp_network_obj.MyClient.Setup.{Reply, Options, make_all, connect_all, close_all}
use cpp_network_obj.MyClient.Ending.{sockets, connects, Ended, ending}
use cpp_network_obj.MyClient.Missing.{ending-null}

abbrev few : Options
few = record {
  check_msg_id = true;
  send_size = 8;
  recv_size = 8;
  send_raw = replicate 8 0;
  recv_raw = replicate 8 0;
}

-- A client that is made or not, its socket, and the result of connect().
abbrev reply : Bool → Socket → ℤ → Reply
reply made sock connect = record {
  made = made;
  run = true;
  sock = sock;
  epoll = pos 9;
  connect = connect;
}

-- The third client cannot connect, and the fourth is then not tried.
abbrev failing : List Reply
failing =
    reply true (fd 4) (pos 0)
    ∷ reply true (fd 5) (pos 0)
    ∷ reply true (fd 6) (negsuc 0)
    ∷ reply true (fd 7) (pos 0)
    ∷ []

failing-sockets : sockets failing ≡ fd 4 ∷ fd 5 ∷ fd 6 ∷ []
failing-sockets = refl

failing-connects : connects failing (pos 0) ≡ pos 2
unfolding ◌+ℤ◌
failing-connects = refl

ending_example : Ended few failing (make_all few failing) (pos 0)
ending_example = ending few failing (pos 0) (refl, (refl, (refl, (refl, tt))))

-- The thread is stopped after it has made one client of two.
abbrev interrupted : List Reply
interrupted = reply true (fd 4) (pos 0) ∷ reply false (fd 5) (pos 0) ∷ []

ending-null_example :
    (connect_all few interrupted (make_all few interrupted) (pos 0) >>= λ (n', slots).
    close_all slots)
    ≡ none
ending-null_example = ending-null few interrupted (pos 0) refl
