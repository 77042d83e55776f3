-- ===== src/OldTcpServer/Joins.antt =====
-- What accepting does in the old server, and how its choice of a worker compares with the present one.
use cpp_network_obj.Base.{
  ℕ, zero, suc, ◌+◌, ◌≤◌, ◌≡◌, refl, ap, sym, ◌∙◌, some, List, [], ◌∷◌, pos, ◌+ℤ◌, length,
  length-append, map, ltb, arith, Bool-cases, inl, inr,
}
use cpp_network_obj.Buffer.{fd}
use cpp_network_obj.Server
use cpp_network_obj.TcpServer
use cpp_network_obj.OldServer.{ClientSocket}
use cpp_network_obj.OldServer
use cpp_network_obj.OldTcpServer.{
  CellServer, TcpServer, get_client_count, add_client, min_worker, add_at, on_net_join, accept,
}

-- The clients of all workers, served or waiting.
abbrev pub total : List CellServer → ℕ
total [] = 0
total (w ∷ ws) = get_client_count w + total ws

-- The chosen index is that of a worker: the best so far, or one of the rest.
min_worker-inside :
    (best n i : ℕ) (ws : List CellServer)
    → best + 1 ≤ i + length ws
    → min_worker best n i ws + 1 ≤ i + length ws
unfolding min_worker
min_worker-inside best n i [] h = h
min_worker-inside best n i (w ∷ ws) h = elim (Bool-cases (ltb (get_client_count w) n)) [
  | inl e ↦ rw e (omega (arith, min_worker-inside i (get_client_count w) (i + 1) ws (omega arith)))
  | inr e ↦ rw e (omega (arith, min_worker-inside best n (i + 1) ws (omega (arith, h))))
]

one_more :
    (w : CellServer) (c : ClientSocket) → get_client_count (add_client w c) ≡ get_client_count w + 1
unfolding get_client_count add_client
one_more w c = omega (arith, length-append w.clients_buff (c ∷ []))

add_at-total :
    (i : ℕ) (c : ClientSocket) (ws : List CellServer)
    → i + 1 ≤ length ws
    → total (add_at i c ws) ≡ total ws + 1
unfolding add_at
add_at-total i c [] h = absurd (omega arith)
add_at-total zero c (w ∷ ws) h = omega (arith, one_more w c)
add_at-total (suc i) c (w ∷ ws) h = omega (arith, add_at-total i c ws (omega arith))

pos_next : (k : ℕ) → pos k +ℤ pos 1 ≡ pos (k + 1)
unfolding ◌+ℤ◌
pos_next k = ground arith

-- Where there is a worker, Accept hands the new socket's client to a worker and counts it at once: the
-- workers have one client more, served or waiting, and so has the count; nothing is closed. So the
-- count keeps being the number of the clients of all workers.
pub accept-total :
    (n : ℕ) (t : TcpServer) (w : CellServer) (ws : List CellServer)
    → t.servers ≡ w ∷ ws
    → t.client_count ≡ pos (total t.servers)
    → (t' : TcpServer) × (accept (fd n) t ≡ some (fd n, t'))
      × (total t'.servers ≡ total t.servers + 1)
      × (t'.client_count ≡ pos (total t'.servers))
      × (t'.closed ≡ t.closed)
unfolding accept on_net_join
accept-total n t w ws e counted =
    let i = min_worker 0 (get_client_count w) 0 (w ∷ ws) in
    let c = OldServer.create (fd n) in
    let inside : i + 1 ≤ length (w ∷ ws) =
      omega (arith, min_worker-inside 0 (get_client_count w) 0 (w ∷ ws) (omega arith)) in
    let more : total (add_at i c (w ∷ ws)) ≡ total t.servers + 1 =
      add_at-total i c (w ∷ ws) inside ∙ ap (λ l. total l + 1) (sym e) in
    (
      record t { servers = add_at i c (w ∷ ws); client_count = t.client_count +ℤ pos 1 },
      rw e refl,
      more,
      ap (λ x. x +ℤ pos 1) counted ∙ pos_next (total t.servers) ∙ ap pos (sym more),
      refl,
    )

-- On workers with the same numbers of clients, the old server and the present one choose the same.
pub min_worker-min_index :
    (best n i : ℕ) (olds : List CellServer) (news : List Server.CellServer)
    → map get_client_count olds ≡ map Server.get_client_count news
    → min_worker best n i olds ≡ TcpServer.min_index best n i news
unfolding min_worker TcpServer.min_index
min_worker-min_index best n i [] [] e = refl
min_worker-min_index best n i [] (x ∷ news) e = cc
min_worker-min_index best n i (w ∷ olds) [] e = cc
min_worker-min_index best n i (w ∷ olds) (x ∷ news) e =
    let head : get_client_count w ≡ Server.get_client_count x = cc in
    let tail : map get_client_count olds ≡ map Server.get_client_count news = cc in
    elim (Bool-cases (ltb (get_client_count w) n)) [
      | inl h ↦ rw h (
          rw (ap (λ k. ltb k n) (sym head) ∙ h) (
            min_worker-min_index i (get_client_count w) (i + 1) olds news tail
            ∙ ap (λ k. TcpServer.min_index i k (i + 1) news) head))
      | inr h ↦ rw h (
          rw (ap (λ k. ltb k n) (sym head) ∙ h)
            (min_worker-min_index best n (i + 1) olds news tail))
    ]
