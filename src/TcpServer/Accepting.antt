-- ===== src/TcpServer/Accepting.antt =====
-- The sockets that a server owns, and what accepting a connection does to them.
use mathlib.Core.List.{Perm, perm_middle}
use mathlib.Core.List.Perm
use cpp_network_obj.Base.{
  ℕ, ◌≡◌, refl, ap, sym, subst, ◌∙◌, true, false, some, List, [], ◌∷◌, ◌++◌, leb_ℤ, map,
  append_assoc, append-nil, Bool-cases, inl, inr,
}
use cpp_network_obj.Buffer.{Socket, fd}
use cpp_network_obj.Client.{CellClient}
use cpp_network_obj.Client
use cpp_network_obj.Server.{CellServer, add_client}
use cpp_network_obj.Server.Sweep.{sockets, worker_sockets}
use cpp_network_obj.TcpServer.{TcpServer, add_client_to_servers, accept}
use cpp_network_obj.TcpServer.Balance.{add_client_to_servers_lem}

abbrev pub all_sockets : List CellServer → List Socket
all_sockets [] = []
all_sockets (srv ∷ rest) = worker_sockets srv ++ all_sockets rest

map-snoc :
    (cs : List CellClient) (c : CellClient)
    → map (λ x. x.sockfd) (cs ++ c ∷ []) ≡ map (λ x. x.sockfd) cs ++ c.sockfd ∷ []
map-snoc [] c = refl
map-snoc (x ∷ cs) c = ap (◌∷◌ x.sockfd) (map-snoc cs c)

pub add_client-Perm :
    (srv : CellServer) (c : CellClient) (rest : List Socket)
    → Perm (worker_sockets (add_client srv c) ++ rest) (c.sockfd ∷ (worker_sockets srv ++ rest))
unfolding add_client
add_client-Perm srv c rest =
    let served = sockets srv.clients in
    let waiting = map (λ x. x.sockfd) srv.clients_buff in
    subst (λ l. Perm l (c.sockfd ∷ ((served ++ waiting) ++ rest)))
      (sym (
        ap (λ l. (served ++ l) ++ rest) (map-snoc srv.clients_buff c)
        ∙ ap (λ l. l ++ rest) (sym (append_assoc served waiting (c.sockfd ∷ [])))
        ∙ append_assoc (served ++ waiting) (c.sockfd ∷ []) rest))
      (perm_middle (served ++ waiting) rest)

all_sockets-Perm :
    (before : List CellServer) (srv : CellServer) (behind : List CellServer) (c : CellClient)
    → Perm
        (all_sockets (before ++ (add_client srv c ∷ behind)))
        (c.sockfd ∷ all_sockets (before ++ (srv ∷ behind)))
all_sockets-Perm [] srv behind c = add_client-Perm srv c (all_sockets behind)
all_sockets-Perm (x ∷ before) srv behind c =
    Perm.trans (Perm.append_left (worker_sockets x) (all_sockets-Perm before srv behind c))
      (perm_middle (worker_sockets x) (all_sockets (before ++ (srv ∷ behind))))

-- The sockets of the server's connections, open and closed.
abbrev pub connections : TcpServer → List Socket
connections t = all_sockets t.servers ++ t.closed

-- Where there is a worker, Accept returns the new socket and accounts for it exactly once: it is
-- closed at once if the client counter has reached the limit, and the workers are then as before;
-- otherwise nothing is closed and the socket is one more of the workers'.
pub accept-connections :
    (n : ℕ) (t : TcpServer) (send_raw recv_raw : List ℕ) (srv : CellServer) (rest : List CellServer)
    → t.servers ≡ srv ∷ rest
    → (t' : TcpServer) × (accept t (fd n) send_raw recv_raw ≡ some (fd n, t'))
      × Perm (connections t') (fd n ∷ connections t)
      × (leb_ℤ t.max_client t.counters.client_count ≡ true → t'.servers ≡ t.servers)
      × (leb_ℤ t.max_client t.counters.client_count ≡ false → t'.closed ≡ t.closed)
unfolding accept Client.create
accept-connections n t send_raw recv_raw srv rest e =
    elim (Bool-cases (leb_ℤ t.max_client t.counters.client_count)) [
      | inl h ↦ (
        record t { closed = t.closed ++ fd n ∷ [] },
        rw h,
        subst (λ l. Perm l (fd n ∷ connections t))
            (append_assoc (all_sockets t.servers) t.closed (fd n ∷ []))
            (subst (λ l. Perm (connections t ++ fd n ∷ []) (fd n ∷ l)) (append-nil (connections t))
              (perm_middle (connections t) [])),
        (λ k. refl),
        (λ k. absurd (differ (sym h ∙ k))),
      )
      | inr h ↦
          let (c, next) =
            Client.create t.next_id (fd n) t.send_buff_size t.recv_buff_size send_raw recv_raw in
          let (f, found) = add_client_to_servers_lem c srv rest in
          let servers = f.before ++ (add_client f.chosen c ∷ f.behind) in
          (
            record t { servers = servers; next_id = next },
            rw h (rw (ap (add_client_to_servers c) e ∙ found)),
            Perm.append_right t.closed (
                subst (λ l. Perm (all_sockets servers) (fd n ∷ all_sockets l)) (sym (e ∙ f.parts))
                  (all_sockets-Perm f.before f.chosen f.behind c)),
            (λ k. absurd (differ (sym k ∙ h))),
            (λ k. refl),
          )
    ]
  where
    differ : true ≡ false → ⊥
    differ p = cc
