-- ===== src/MyClient/Ending.antt =====
-- What WorkThread closes at its end, of the clients that it has made and connected.
use cpp_network_obj.Base.{
  ℕ, ◌&&◌, ◌≡◌, refl, ap, sym, subst, Bool, true, false, not, Option, some, List, [], ◌∷◌, ◌++◌, ℤ,
  pos, ◌+ℤ◌, All, if◌then◌else◌,
}
use cpp_network_obj.Buffer.{Socket, invalid_socket, fd, is_valid}
use cpp_network_obj.Client
use cpp_network_obj.Epoll
use cpp_network_obj.Server.{is_error}
use cpp_network_obj.TcpClient.{connected}
use cpp_network_obj.TcpClient
use cpp_network_obj.TcpClient.Epoll.{init_socket, on_init_socket, close}
use cpp_network_obj.MyClient.{create}
use cpp_network_obj.MyClient.Work.{Member}
use cpp_network_obj.MyClient.Setup.{
  Reply, Options, new_member, make_all, connect_one, connect_all, close_all,
}

-- The sockets that the thread makes: the loop ends where the thread is stopped, and where socket() or
-- connect() fails.
abbrev pub sockets : List Reply → List Socket
sockets [] = []
sockets (r ∷ rs) =
    if r.run
    then (if is_valid r.sock then r.sock ∷ (if is_error r.connect then [] else sockets rs) else [])
    else []

-- How many clients are connected.
abbrev pub connects : List Reply → ℤ → ℤ
connects [] n = n
connects (r ∷ rs) n =
    if r.run
    then (if is_valid r.sock
        then (if is_error r.connect then n else connects rs (n +ℤ pos 1))
        else n)
    else n

abbrev pub AllMade : List Reply → Type 0
AllMade = All (λ r. r.made ≡ true)

-- Clients that were only made have no socket to close.
make_all-close : (o : Options) (rs : List Reply) → AllMade rs → close_all (make_all o rs) ≡ some []
unfolding make_all close_all close TcpClient.close
make_all-close o [] h = refl
make_all-close o (r ∷ rs) (made, h) = rw made (rw (make_all-close o rs h) refl)

-- The client that a step leaves, and what it would close.
record Connected (o : Options) (r : Reply) (go : Bool) (socks : List Socket) : Type 0 where
  member : Member
  runs : connect_one o r (new_member o) ≡ some (go, member)
  closes : (close member.1).tcp.closed ≡ socks

-- A client that has its socket and its epoll, before or after connect().
abbrev open_member : Options → ℕ → ℤ → Bool → Member
open_member o k epoll is_connect =
    let (c, next) = Client.create 1 (fd k) o.send_size o.recv_size o.send_raw o.recv_raw in
    (
      create o.check_msg_id,
      record {
        tcp = record { client = some c; is_connect = is_connect; next_id = next; closed = [] };
        ep = Epoll.ctl Epoll.CtlOp.ctl_add (fd k) false (Epoll.create epoll 1 Epoll.unset).1;
      },
    )

step-Connected :
    (o : Options) (made run : Bool) (sock : Socket) (epoll connect : ℤ) (b : Bool)
    → is_error connect ≡ b
    → let r : Reply = record {
      made = made;
      run = run;
      sock = sock;
      epoll = epoll;
      connect = connect;
    } in
      Connected o r (is_valid sock && not b) (if is_valid sock then sock ∷ [] else [])
unfolding connect_one init_socket on_init_socket connected close TcpClient.init_socket
    TcpClient.close Client.create Client.destroy Epoll.create Epoll.ctl Epoll.destroy
step-Connected o made run invalid_socket epoll connect b e = record {
  member = _;
  runs = refl;
  closes = refl;
}
step-Connected o made run (fd k) epoll connect true e = record {
  member = open_member o k epoll false;
  runs = rw e (rw e refl);
  closes = refl;
}
step-Connected o made run (fd k) epoll connect false e = record {
  member = open_member o k epoll true;
  runs = rw e (rw e refl);
  closes = refl;
}

-- The end of the thread's clients, from where the loop that connects them stands.
pub record Ended (o : Options) (rs : List Reply) (slots : List (Option Member)) (n : ℤ)
    : Type 0 where
  pub left : List (Option Member)
  pub runs : connect_all o rs slots n ≡ some (connects rs n, left)
  pub closes : close_all left ≡ some (sockets rs)

-- The rest of the clients were only made.
stopped :
    {o : Options} (r : Reply) (rs : List Reply) {go : Bool} {socks : List Socket}
    → AllMade rs
    → (c : Connected o r go socks) → close_all (some c.member ∷ make_all o rs) ≡ some (socks ++ [])
unfolding close_all
stopped r rs h c = rw (make_all-close _ rs h) (ap (λ s. some (s ++ [])) c.closes)

-- One client of the loop.
ending_step :
    (o : Options) (r : Reply) (rs : List Reply) (n : ℤ)
    → AllMade rs
    → ((n : ℤ) → Ended o rs (make_all o rs) n)
    → (run v b : Bool) → r.run ≡ run
    → is_valid r.sock ≡ v
    → is_error r.connect ≡ b
    → Connected o r (v && not b) (if v then r.sock ∷ [] else [])
    → Ended o (r ∷ rs) (some (new_member o) ∷ make_all o rs) n
unfolding connect_all close_all close TcpClient.close
ending_step o r rs n h rec false v b run valid e c = record {
  left = some (new_member o) ∷ make_all o rs;
  runs = rw run refl;
  closes = rw run (rw (make_all-close o rs h) refl);
}
ending_step o r rs n h rec true false b run valid e c = record {
  left = some c.member ∷ make_all o rs;
  runs = rw run (rw c.runs (rw valid refl));
  closes = rw (stopped r rs h c) (rw run (rw valid refl));
}
ending_step o r rs n h rec true true true run valid e c = record {
  left = some c.member ∷ make_all o rs;
  runs = rw run (rw c.runs (rw valid (rw e refl)));
  closes = rw (stopped r rs h c) (rw run (rw valid (rw e refl)));
}
ending_step o r rs n h rec true true false run valid e c =
    let rest = rec (n +ℤ pos 1) in
    record {
      left = some c.member ∷ rest.left;
      runs = rw run (rw c.runs (rw valid (rw rest.runs (rw e refl))));
      closes = rw rest.closes (rw c.closes (rw run (rw valid (rw e refl))));
    }

make_all-made :
    (o : Options) (r : Reply) (rs : List Reply)
    → r.made ≡ true
    → make_all o (r ∷ rs) ≡ some (new_member o) ∷ make_all o rs
unfolding make_all
make_all-made o r rs m = rw m refl

-- Where every client was made, the loop that connects the clients runs to its end, and nConnect counts the
-- clients that were connected; the closing loop, with no round of the main loop before it, runs to its end
-- and closes each socket that was made, once and in order, also of the client whose connect() failed, and
-- no other.
pub ending : (o : Options) (rs : List Reply) (n : ℤ) → AllMade rs → Ended o rs (make_all o rs) n
unfolding make_all connect_all close_all
ending o [] n h = record { left = []; runs = refl; closes = refl }
ending o (r ∷ rs) n (m, h) =
    subst (λ slots. Ended o (r ∷ rs) slots n) (sym (make_all-made o r rs m))
      (ending_step o r rs n h (λ n. ending o rs n h) r.run (is_valid r.sock) (is_error r.connect)
        refl refl refl
        (step-Connected o r.made r.run r.sock r.epoll r.connect (is_error r.connect) refl))
