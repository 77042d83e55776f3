-- ===== src/Client/Sending.antt =====
-- The bytes that a client is asked to send, and those that the kernel takes.
use cpp_network_obj.Base.{
  ℕ, ◌≡◌, refl, ap, sym, ◌∙◌, Option, some, List, [], ◌∷◌, ◌++◌, ℤ, pos, negsuc, min, length, take,
  append-nil, append_assoc, take-append-drop, ◌>>=◌, arith, ◌&&◌, ltb, ◌==◌, Bool-cases, inl, inr,
}
use cpp_network_obj.Buffer.{
  CellBuffer, Socket, is_valid, socket_error, contents, SendReply, send_failed, sent, push,
  write_to_socket, after_send,
}
use cpp_network_obj.Buffer.Invariant.{IsValid, push-IsValid, after_send-IsValid}
use cpp_network_obj.Buffer.Queue.{contents-push, contents-after_send}
use cpp_network_obj.Client.{CellClient, send_data, send_data_real, reset_dt_send}

-- SendData of some bytes; SendDataReal where send() takes at most `k` of the bytes that it is
-- offered, or fails.
pub data Send : Type 0 where
  submit : List ℕ → Send
  flush : ℕ → Send
  fail : Send

-- How many bytes a returned value stands for.
abbrev pub amount : ℤ → ℕ
amount (pos n) = n
amount (negsuc n) = 0

abbrev pub kernel : Send → CellClient → SendReply
kernel (flush k) c = sent (min k c.send_buff.last)
kernel _ c = send_failed

-- The bytes that the kernel took and those that were accepted, told from the returned values alone.
unfoldable pub sends : CellClient → List Send → Option (List ℕ × List ℕ × CellClient)
sends c [] = some ([], [], c)
sends c (submit bytes ∷ ops) =
    let (ret, c') = send_data c bytes in
    sends c' ops >>= λ (taken, accepted, c'').
    some (taken, take (amount ret) bytes ++ accepted, c'')
sends c (op ∷ ops) = send_data_real c (kernel op c) >>= λ (ret, c').
    sends c' ops >>= λ (taken, accepted, c'').
    some (take (amount ret) (contents c.send_buff) ++ taken, accepted, c'')

-- One call: what it takes from the front of the buffer and what it adds behind.
record Moved (b b' : CellBuffer) (out accepted : List ℕ) : Type 0 where
  valid : IsValid b'
  flow : out ++ contents b' ≡ contents b ++ accepted

take_all : (xs : List ℕ) → take (length xs) xs ≡ xs
take_all [] = refl
take_all (x ∷ xs) = ap (◌∷◌ x) (take_all xs)

submit-Moved :
    (c : CellClient) (bytes : List ℕ)
    → IsValid c.send_buff
    → let (ret, c') = send_data c bytes in
      Moved c.send_buff c'.send_buff [] (take (amount ret) bytes)
unfolding send_data push
submit-Moved c bytes v = record {
  valid = push-IsValid {b = c.send_buff} bytes v;
  flow = ground (
    arith,
    contents-push {b = c.send_buff} bytes v,
    take_all bytes,
    append-nil (contents c.send_buff),
  );
}

-- What a call of write2socket does, as the sending of some bytes.
abbrev Writes : CellBuffer → Socket → SendReply → Type 0
Writes b sock reply =
    (ret : ℤ) × (b' : CellBuffer) × (write_to_socket b sock reply ≡ some (ret, b'))
    × Moved b b' (take (amount ret) (contents b)) []

idle-Moved : {b : CellBuffer} → IsValid b → Moved b b [] []
idle-Moved {b} v = record { valid = v; flow = sym (append-nil (contents b)) }

failed-Writes : (b : CellBuffer) (sock : Socket) → IsValid b → Writes b sock send_failed
unfolding write_to_socket
failed-Writes b sock v = elim (Bool-cases (ltb 0 b.last && is_valid sock)) [
  | inl e ↦ (socket_error, b, rw e, idle-Moved v)
  | inr e ↦ (pos 0, b, rw e, idle-Moved v)
]

sent-Writes :
    (b : CellBuffer) (sock : Socket) (k : ℕ) → IsValid b → Writes b sock (sent (min k b.last))
unfolding write_to_socket
sent-Writes b sock k v =
    let n = min k b.last in
    elim (Bool-cases (ltb 0 b.last && is_valid sock)) [
      | inr e ↦ (pos 0, b, rw e, idle-Moved v)
      | inl e ↦ elim (Bool-cases (n == 0)) [
        | inl z ↦ (socket_error, b, rw e (rw z), idle-Moved v)
        | inr z ↦ (
          pos n,
          after_send b n,
          rw e (rw z (ground arith)),
          record {
            valid = after_send-IsValid {b = b} n v (omega arith);
            flow =
                ap (◌++◌ (take n (contents b))) (contents-after_send {b = b} n v (omega arith))
                ∙ take-append-drop n (contents b)
                ∙ sym (append-nil (contents b));
          },
        )
      ]
    ]

kernel-Writes :
    (c : CellClient) (op : Send) → IsValid c.send_buff → Writes c.send_buff c.sockfd (kernel op c)
kernel-Writes c (submit bytes) v = failed-Writes c.send_buff c.sockfd v
kernel-Writes c (flush k) v = sent-Writes c.send_buff c.sockfd k v
kernel-Writes c fail v = failed-Writes c.send_buff c.sockfd v

-- The end of a sequence of calls.
pub record Sent (c : CellClient) (ops : List Send) : Type 0 where
  pub taken : List ℕ
  pub accepted : List ℕ
  pub client : CellClient
  pub runs : sends c ops ≡ some (taken, accepted, client)
  pub valid : IsValid client.send_buff
  pub flow : taken ++ contents client.send_buff ≡ contents c.send_buff ++ accepted

Sent-flow :
    (out taken kept accepted more before now : List ℕ)
    → out ++ now ≡ before ++ more
    → taken ++ kept ≡ now ++ accepted
    → (out ++ taken) ++ kept ≡ before ++ (more ++ accepted)
Sent-flow out taken kept accepted more before now h k =
    append_assoc out taken kept
    ∙ ap (◌++◌ out) k
    ∙ sym (append_assoc out now accepted)
    ∙ ap (λ l. l ++ accepted) h
    ∙ append_assoc before more accepted

-- A call of SendDataReal, and the calls after it.
real-Sent :
    (c : CellClient) (op : Send) (ops : List Send)
    → IsValid c.send_buff
    → ((c' : CellClient) → IsValid c'.send_buff → Sent c' ops)
    → (r : ℤ × CellClient) × (o : Sent r.1 ops) × (send_data_real c (kernel op c) ≡ some r)
      × ((take (amount r.0) (contents c.send_buff) ++ o.taken) ++ contents o.client.send_buff
          ≡ contents c.send_buff ++ o.accepted)
unfolding send_data_real reset_dt_send
real-Sent c op ops v rest =
    let (ret, b, e, m) = kernel-Writes c op v in
    let c' : CellClient = record c { dt_send = pos 0; send_buff = b } in
    let o = rest c' m.valid in
    (
      (ret, c'),
      o,
      rw e,
      Sent-flow (take (amount ret) (contents c.send_buff)) o.taken (contents o.client.send_buff)
          o.accepted [] (contents c.send_buff) (contents b) m.flow o.flow,
    )

-- Whatever is submitted and whatever the kernel does, for a valid buffer every sequence of SendData
-- and SendDataReal returns, and the bytes that the kernel took followed by those still in the
-- buffer are the bytes that the buffer held at first followed by those that SendData accepted.
pub sends-Sent : (ops : List Send) (c : CellClient) → IsValid c.send_buff → Sent c ops
unfolding sends
sends-Sent [] c v = record {
  taken = [];
  accepted = [];
  client = c;
  runs = refl;
  valid = v;
  flow = sym (append-nil (contents c.send_buff));
}
sends-Sent (submit bytes ∷ ops) c v =
    let (ret, c') = send_data c bytes in
    let m = submit-Moved c bytes v in
    let o = sends-Sent ops c' m.valid in
    record {
      taken = o.taken;
      accepted = take (amount ret) bytes ++ o.accepted;
      client = o.client;
      runs = rw o.runs;
      valid = o.valid;
      flow =
          Sent-flow [] o.taken (contents o.client.send_buff) o.accepted (take (amount ret) bytes)
            (contents c.send_buff) (contents c'.send_buff) m.flow o.flow;
    }
sends-Sent (flush k ∷ ops) c v =
    let (r, o, e, flows) = real-Sent c (flush k) ops v (λ c' v'. sends-Sent ops c' v') in
    record {
      taken = take (amount r.0) (contents c.send_buff) ++ o.taken;
      accepted = o.accepted;
      client = o.client;
      runs = rw e (rw o.runs);
      valid = o.valid;
      flow = flows;
    }
sends-Sent (fail ∷ ops) c v =
    let (r, o, e, flows) = real-Sent c fail ops v (λ c' v'. sends-Sent ops c' v') in
    record {
      taken = take (amount r.0) (contents c.send_buff) ++ o.taken;
      accepted = o.accepted;
      client = o.client;
      runs = rw e (rw o.runs);
      valid = o.valid;
      flow = flows;
    }
