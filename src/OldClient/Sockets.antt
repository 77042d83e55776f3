-- ===== src/OldClient/Sockets.antt =====
-- The socket of the old client, over any sequence of calls.
use cpp_network_obj.Base.{
  ℕ, ◌≡◌, sym, ap, ◌∙◌, Bool, Option, some, List, [], ◌∷◌, ◌++◌, ℤ, append_assoc, append-nil,
  if◌then◌else◌, ◌>>=◌, >>=-eq-some,
}
use cpp_network_obj.Buffer.{Socket, invalid_socket, is_valid, SendReply, RecvReply}
use cpp_network_obj.Server.Dispatch.{same_some}
use cpp_network_obj.OldClient.Owned.{
  one, owned, close-owned, init_socket-owned_lem, connect-owned, on_run-owned, send_data-owned,
}
use cpp_network_obj.OldClient.{TcpClient, close, init_socket, connect, on_run, send_data}

-- The calls of a client, each with the replies of the system.
pub data Op : Type 0 where
  do_init_socket : Socket → Op
  do_connect : Socket → ℤ → Op
  do_on_run : ℕ → ℤ → Bool → RecvReply → Op
  do_send_data : Option (List ℕ) → SendReply → Op
  do_close : Op

-- The client after a call.
abbrev after : ℕ → Op → TcpClient → Option TcpClient
after fd_setsize (do_init_socket reply) c = some (init_socket reply c).1
after fd_setsize (do_connect reply ret) c = some (connect reply ret c).1
after fd_setsize (do_on_run fuel ret ready reply) c =
    on_run fd_setsize fuel ret ready reply c >>= λ r. some r.1
after fd_setsize (do_send_data mem reply) c = some (send_data mem reply c).1
after fd_setsize do_close c = some (close c)

-- The sockets that socket() makes in a call.
abbrev made : Op → TcpClient → List Socket
made (do_init_socket reply) c = one reply
made (do_connect reply ret) c = if is_valid c.sock then [] else one reply
made _ c = []

-- The client after some calls, and the sockets made by them.
abbrev pub calls : ℕ → List Op → TcpClient → Option (List Socket × TcpClient)
calls fd_setsize [] c = some ([], c)
calls fd_setsize (op ∷ ops) c = after fd_setsize op c >>= λ c'.
    calls fd_setsize ops c' >>= λ (socks, c''). some (made op c ++ socks, c'')

after-owned :
    (fd_setsize : ℕ) (op : Op) (c c' : TcpClient)
    → after fd_setsize op c ≡ some c'
    → owned c' ≡ owned c ++ made op c
after-owned fd_setsize (do_init_socket reply) c c' h =
    ap owned (sym (same_some h)) ∙ init_socket-owned_lem reply c
after-owned fd_setsize (do_connect reply ret) c c' h =
    ap owned (sym (same_some h)) ∙ connect-owned reply ret c
after-owned fd_setsize (do_on_run fuel ret ready reply) c c' h =
    let (r, ran, ends) = >>=-eq-some (on_run fd_setsize fuel ret ready reply c) (λ r. some r.1) h in
    ap owned (sym (same_some ends))
    ∙ on_run-owned fd_setsize fuel ret ready reply c r ran
    ∙ sym (append-nil (owned c))
after-owned fd_setsize (do_send_data mem reply) c c' h =
    ap owned (sym (same_some h)) ∙ send_data-owned mem reply c ∙ sym (append-nil (owned c))
after-owned fd_setsize do_close c c' h =
    ap owned (sym (same_some h)) ∙ (close-owned c).0 ∙ sym (append-nil (owned c))

-- Over any sequence of calls that return: the sockets that the client has closed and the one that it
-- has are those from before followed by those that socket() has made, none lost and none closed twice.
-- A Close then leaves it no socket, and has closed all of them.
pub calls-owned :
    (fd_setsize : ℕ) (ops : List Op) (c c' : TcpClient) (socks : List Socket)
    → calls fd_setsize ops c ≡ some (socks, c')
    → (owned c' ≡ owned c ++ socks)
      × ((close c').sock ≡ invalid_socket)
      × ((close c').closed ≡ owned c ++ socks)
calls-owned fd_setsize ops c c' socks h =
    let kept = go ops c c' socks h in
    let (same, gone) = close-owned c' in
    (
      kept,
      gone,
      sym (append-nil (close c').closed)
          ∙ ap (λ k. (close c').closed ++ one k) (sym gone)
          ∙ same
          ∙ kept,
    )
  where
    go :
        (ops : List Op) (c c' : TcpClient) (socks : List Socket)
        → calls fd_setsize ops c ≡ some (socks, c')
        → owned c' ≡ owned c ++ socks
    go [] c c' socks h =
        ap (λ r. owned r.1) (sym (same_some h))
        ∙ sym (append-nil (owned c))
        ∙ ap (λ r. owned c ++ r.0) (same_some h)
    go (op ∷ ops) c c' socks h =
        let (c₁, first, h₁) =
          >>=-eq-some (after fd_setsize op c)
            (λ c₁. calls fd_setsize ops c₁ >>= λ (l, c₂). some (made op c ++ l, c₂)) h in
        let ((l, c₂), rest, h₂) =
          >>=-eq-some (calls fd_setsize ops c₁) (λ (l, c₂). some (made op c ++ l, c₂)) h₁ in
        ap (λ r. owned r.1) (sym (same_some h₂))
        ∙ go ops c₁ c₂ l rest
        ∙ ap (λ x. x ++ l) (after-owned fd_setsize op c c₁ first)
        ∙ append_assoc (owned c) (made op c) l
        ∙ ap (λ r. owned c ++ r.0) (same_some h₂)
