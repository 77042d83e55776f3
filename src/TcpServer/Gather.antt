-- ===== src/TcpServer/Gather.antt =====
-- The sockets of all workers of a server, put together.
use mathlib.Core.List.{Perm, perm_append_comm, perm_middle}
use mathlib.Core.List.Perm
use cpp_network_obj.Base.{
  ℕ, ◌+◌, ◌≡◌, refl, sym, subst, ℤ, List, [], ◌∷◌, ◌++◌, All, map, concat, length, append_assoc,
  arith,
}
use cpp_network_obj.Buffer.{Socket}
use cpp_network_obj.Server.{CellServer, add_client}
use cpp_network_obj.Server.Sweep.{worker_sockets}
use cpp_network_obj.Client.{CellClient}
use cpp_network_obj.Server.Turn.{Turned}
use cpp_network_obj.TcpServer.Accepting.{add_client-Perm}

-- The workers, each with the fields that its poller adds.
abbrev pub Workers : Type 0 → Type 0
Workers P = List (P × CellServer)

-- The sockets that a worker has closed, and those that it has.
abbrev pub owned : CellServer → List Socket
owned srv = srv.closed ++ worker_sockets srv

pub append_swap : (xs ys zs : List Socket) → Perm (xs ++ (ys ++ zs)) (ys ++ (xs ++ zs))
append_swap xs ys zs =
    subst (λ l. Perm l (ys ++ (xs ++ zs))) (append_assoc xs ys zs)
      (subst (Perm ((xs ++ ys) ++ zs)) (append_assoc ys xs zs)
        (Perm.append_right zs (perm_append_comm xs ys)))

-- The sockets of a worker before and after its round.
pub turned-owned :
    {S : Type 0} {count : S → ℤ} {s s' : S} {srv srv' : CellServer}
    → Turned count s srv s' srv'
    → Perm (owned srv') (owned srv)
turned-owned {srv = srv} {srv' = srv'} t =
    subst (λ l. Perm (l ++ worker_sockets srv') (owned srv)) (sym t.closes)
      (subst (λ l. Perm l (owned srv)) (sym (append_assoc srv.closed t.shut (worker_sockets srv')))
        (Perm.append_left srv.closed
          (Perm.trans (perm_append_comm t.shut (worker_sockets srv')) t.balance)))

module _ {P : Type 0} where
  abbrev pub gather : (CellServer → List Socket) → Workers P → List Socket
  gather f ws = concat (map (λ w. f w.1) ws)

  -- The number of clients that are served.
  abbrev pub served : Workers P → ℕ
  served [] = 0
  served (w ∷ ws) = length w.1.clients + served ws

  -- One worker's part may stand in front.
  pub gather-front :
      (f : CellServer → List Socket) (before behind : Workers P) (w : P × CellServer)
      → Perm (gather f (before ++ (w ∷ behind))) (f w.1 ++ gather f (before ++ behind))
  gather-front f [] behind w = Perm.refl (f w.1 ++ gather f behind)
  gather-front f (x ∷ before) behind w =
      Perm.trans (Perm.append_left (f x.1) (gather-front f before behind w))
        (append_swap (f x.1) (f w.1) (gather f (before ++ behind)))

  pub served-front :
      (before behind : Workers P) (w : P × CellServer)
      → served (before ++ (w ∷ behind)) ≡ length w.1.clients + served (before ++ behind)
  served-front [] behind w = refl
  served-front (x ∷ before) behind w = omega (arith, served-front before behind w)

  pub All-replace :
      (Q : P × CellServer → Type 0) (before behind : Workers P) (w w' : P × CellServer)
      → All Q (before ++ (w ∷ behind))
      → Q w'
      → All Q (before ++ (w' ∷ behind))
  All-replace Q [] behind w w' (q, h) q' = (q', h)
  All-replace Q (x ∷ before) behind w w' (q, h) q' = (q, All-replace Q before behind w w' h q')

  pub All-at :
      (Q : P × CellServer → Type 0) (before behind : Workers P) (w : P × CellServer)
      → All Q (before ++ (w ∷ behind))
      → Q w
  All-at Q [] behind w (q, h) = q
  All-at Q (x ∷ before) behind w (q, h) = All-at Q before behind w h

  -- A client that is handed to a worker: one more socket.
  pub accepted_open :
      (before behind : Workers P) (p : P) (srv : CellServer) (c : CellClient)
      → Perm
          (gather worker_sockets (before ++ ((p, add_client srv c) ∷ behind)))
          (c.sockfd ∷ gather worker_sockets (before ++ ((p, srv) ∷ behind)))
  accepted_open before behind p srv c =
      Perm.trans (gather-front worker_sockets before behind (p, add_client srv c)) (
        Perm.trans (add_client-Perm srv c (gather worker_sockets (before ++ behind)))
          (Perm.cons c.sockfd (Perm.symm (gather-front worker_sockets before behind (p, srv)))))

  pub accepted_owned :
      (before behind : Workers P) (p : P) (srv : CellServer) (c : CellClient)
      → Perm
          (gather owned (before ++ ((p, add_client srv c) ∷ behind)))
          (c.sockfd ∷ gather owned (before ++ ((p, srv) ∷ behind)))
  unfolding add_client
  accepted_owned before behind p srv c =
      let rest = gather owned (before ++ behind) in
      let srv' = add_client srv c in
      Perm.trans (gather-front owned before behind (p, srv')) (
        subst (λ l. Perm l (c.sockfd ∷ gather owned (before ++ ((p, srv) ∷ behind))))
          (sym (append_assoc srv.closed (worker_sockets srv') rest))
          (Perm.trans (Perm.append_left srv.closed (add_client-Perm srv c rest)) (
            Perm.trans (perm_middle srv.closed (worker_sockets srv ++ rest)) (
              Perm.cons c.sockfd (
                subst (λ l. Perm l (gather owned (before ++ ((p, srv) ∷ behind))))
                  (append_assoc srv.closed (worker_sockets srv) rest)
                  (Perm.symm (gather-front owned before behind (p, srv))))))))

  pub turned-open :
      {S : Type 0} {count : S → ℤ} {s s' : S} {srv srv' : CellServer} (before behind : Workers P)
      (p p' : P)
      → (t : Turned count s srv s' srv')
      → Perm
          (gather worker_sockets (before ++ ((p, srv) ∷ behind)))
          (t.shut ++ gather worker_sockets (before ++ ((p', srv') ∷ behind)))
  turned-open {srv = srv} {srv' = srv'} before behind p p' t =
      let rest = gather worker_sockets (before ++ behind) in
      Perm.trans (gather-front worker_sockets before behind (p, srv)) (
        Perm.trans (Perm.append_right rest (Perm.symm t.balance)) (
          Perm.trans (Perm.append_right rest (perm_append_comm (worker_sockets srv') t.shut)) (
            subst (λ l. Perm l (t.shut ++ gather worker_sockets (before ++ ((p', srv') ∷ behind))))
              (sym (append_assoc t.shut (worker_sockets srv') rest))
              (Perm.append_left t.shut
                (Perm.symm (gather-front worker_sockets before behind (p', srv')))))))
