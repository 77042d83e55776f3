-- ===== src/OldTcpServer/Rounds.antt =====
-- What the old server closes, round by round.
use cpp_network_obj.Base.{
  ℕ, ◌≡◌, refl, ap, sym, ◌∙◌, Bool, true, false, Option, some, List, [], ◌∷◌, ◌++◌, pos, negsuc,
  ◌<◌, lt→ltb, leb_ℤ, replicate, append_assoc, append-nil, ◌>>=◌, Bool-cases, inl, inr, arith,
  length,
}
use cpp_network_obj.Buffer.{invalid_socket, fd}
use cpp_network_obj.OldTcpServer.{TcpServer, close, is_run, time4msg, on_run}

-- The loop of server/bak/server.cpp, which does not look at the result of OnRun, while select() fails:
-- for each round, whether a second has passed, and by how much the result lies below -1.
abbrev pub failing : ℕ → List (Bool × ℕ) → TcpServer → Option TcpServer
failing fd_setsize [] t = some t
failing fd_setsize ((elapsed, k) ∷ rounds) t =
    on_run fd_setsize elapsed (negsuc k) false invalid_socket t >>= λ r.
    failing fd_setsize rounds r.1

below_zero : (k : ℕ) → leb_ℤ (pos 0) (negsuc k) ≡ false
below_zero k = ground arith

round_closes :
    (fd_setsize n k : ℕ) (elapsed : Bool) (t : TcpServer)
    → t.sock ≡ fd n
    → n < fd_setsize
    → (t' : TcpServer) × (on_run fd_setsize elapsed (negsuc k) false invalid_socket t
        ≡ some (false, t'))
      × (t'.sock ≡ t.sock)
      × (t'.closed ≡ t.closed ++ t.sock ∷ [])
unfolding on_run time4msg close is_run
round_closes fd_setsize n k elapsed t sock inside =
    let bound = lt→ltb n fd_setsize inside in
    elim (Bool-cases elapsed) [
      | inl e ↦ (
        record t { recv_count = 0; msg_count = 0; closed = t.closed ++ t.sock ∷ [] },
        rw e (rw sock (rw bound (rw (below_zero k) refl))),
        refl,
        refl,
      )
      | inr e ↦ (
        record t { closed = t.closed ++ t.sock ∷ [] },
        rw e (rw sock (rw bound (rw (below_zero k) refl))),
        refl,
        refl,
      )
    ]

-- A server with an open listening socket, inside the set of select(), while select() fails: each round
-- of the main loop closes the same descriptor once more, although after the first it is no longer the
-- server's, and the server goes on running; its destructor then closes it once more again.
pub failing-closed :
    (fd_setsize n : ℕ) (rounds : List (Bool × ℕ)) (t : TcpServer)
    → t.sock ≡ fd n
    → n < fd_setsize
    → (t' : TcpServer) × (failing fd_setsize rounds t ≡ some t')
      × (t'.closed ≡ t.closed ++ replicate (length rounds) (fd n))
      × (is_run t' ≡ true)
      × ((close t').closed ≡ t.closed ++ (replicate (length rounds) (fd n) ++ fd n ∷ []))
unfolding is_run close
failing-closed fd_setsize n [] t sock inside =
    (t, refl, sym (append-nil t.closed), rw sock refl, rw sock refl)
failing-closed fd_setsize n ((elapsed, k) ∷ rounds) t sock inside =
    let (t₁, ran, same, closed₁) = round_closes fd_setsize n k elapsed t sock inside in
    let (t', rest, closed', runs, again) =
      failing-closed fd_setsize n rounds t₁ (same ∙ sock) inside in
    let first : t₁.closed ≡ t.closed ++ fd n ∷ [] = closed₁ ∙ ap (λ k. t.closed ++ k ∷ []) sock in
    (
      t',
      rw ran rest,
      closed'
          ∙ ap (λ l. l ++ replicate (length rounds) (fd n)) first
          ∙ append_assoc t.closed (fd n ∷ []) _,
      runs,
      again
          ∙ ap (λ l. l ++ (replicate (length rounds) (fd n) ++ fd n ∷ [])) first
          ∙ append_assoc t.closed (fd n ∷ []) _,
    )
