-- ===== src/Client/Drain/Reassembly.antt =====
-- A connection's stream of bytes, cut into pieces by the network and put together again.
use cpp_network_obj.Base.{
  ℕ, suc, ◌+◌, ◌-◌, ◌≤◌, ◌<◌, ◌≡◌, refl, ap, ap₂, sym, subst, ◌∙◌, true, false, Option, some, List,
  [], ◌∷◌, ◌++◌, length, take, drop, concat, All, append-nil, append_assoc, ◌>>=◌, arith,
  length-append, ◌==◌, if◌then◌else◌, All-append_left, All-append_right, min, pos, length-overwrite,
  length-take, length-drop, take-append-drop, take-nil,
}
use cpp_network_obj.Buffer.{CellBuffer, contents, filled, received, read_from_socket}
use cpp_network_obj.Buffer.Invariant.{IsValid}
use cpp_network_obj.Buffer.Queue.{length-contents, contents-filled}
use cpp_network_obj.Buffer.Framing.{IsFramed, is_ready, is_ready-framed}
use cpp_network_obj.Client.{CellClient, recv_data}
use cpp_network_obj.Client.Drain.{Handler, drain}
use cpp_network_obj.Client.Drain.Parting.{Parted, part, room, length-concat-le}
use cpp_network_obj.Client.Drain.Messages.{HandlerLaws, logged, Drained, drain_messages}

-- The rounds of the event loop at a socket. `pending` are the bytes of the stream that recv() has
-- not returned yet, and each round the network offers at most the next `k` of them; recv() stores
-- as many as the buffer has room for. A round with nothing to read does not reach the client. The
-- fuel of the dispatch loop is enough for any buffer whose messages have a header.
unfoldable pub pump :
    {S : Type 0} → Handler S → List ℕ → List ℕ → S → CellClient → Option (List ℕ × S × CellClient)
pump handle [] pending s c = some (pending, s, c)
pump handle (k ∷ ks) pending s c =
    let n = min k (c.recv_buff.size - c.recv_buff.last) in
    let skip = pump handle ks pending s c in
    let go = recv_data c (received (take n pending)) >>= λ (ret, c').
    drain handle (suc c'.recv_buff.size) s c' >>= λ (s', c'').
    pump handle ks (drop n pending) s' c'' in
    if length (take n pending) == 0 then skip else go

recv_data_lem :
    (c : CellClient) (bytes : List ℕ)
    → 0 < length bytes
    → c.recv_buff.last + length bytes ≤ c.recv_buff.size
    → recv_data c (received bytes)
      ≡ some (pos (length bytes), record c { recv_buff = filled c.recv_buff bytes })
unfolding recv_data read_from_socket filled
recv_data_lem c bytes h k = ground arith

filled-IsValid :
    {b : CellBuffer} (bytes : List ℕ)
    → IsValid b
    → b.last + length bytes ≤ b.size
    → IsValid (filled b bytes)
unfolding filled
filled-IsValid {b} bytes v h = ground (arith, length-overwrite b.last bytes b.mem)

module _ {S : Type 0} {handle : Handler S} (laws : HandlerLaws handle) where
  -- One round in which something arrives: the messages that it completes are dispatched.
  round :
      (bytes : List ℕ) (ms : List (List ℕ)) (r p : List ℕ) (s : S) (log : List (List ℕ))
      (c : CellClient)
      → c.recv_buff.last + length bytes ≤ c.recv_buff.size
      → IsValid c.recv_buff
      → laws.Inv c
      → All IsFramed ms
      → (parted : Parted ms r (contents c.recv_buff ++ bytes) p)
      → Drained handle laws
          (suc c.recv_buff.size)
          s
          log
          (record c { recv_buff = filled c.recv_buff bytes })
          parted.first
          parted.left
  round bytes ms r p s log c k v i fs parted =
      drain_messages laws parted.first (suc c.recv_buff.size) s log _ parted.left few
        (filled-IsValid bytes v k) (laws.Inv-recv_buff c _ i) framed
        (contents-filled {b = c.recv_buff} bytes v ∙ parted.arrived) parted.stops
    where
      framed : All IsFramed parted.first
      framed =
          All-append_left IsFramed parted.first parted.second (subst (All IsFramed) parted.parts fs)

      few : length parted.first < suc c.recv_buff.size
      few = omega (
        arith,
        length-concat-le parted.first framed,
        ap length parted.arrived,
        length-append (concat parted.first) parted.left,
        length-append (contents c.recv_buff) bytes,
        length-contents v,
      )

-- How much of the stream a round takes.
abbrev portion : CellClient → ℕ → ℕ
portion c k = min k (c.recv_buff.size - c.recv_buff.last)

module _ {S : Type 0} (handle : Handler S) where
  pump_skip :
      (k : ℕ) (ks pending : List ℕ) (s : S) (c : CellClient)
      → length (take (portion c k) pending) ≡ 0
      → pump handle (k ∷ ks) pending s c ≡ pump handle ks pending s c
  unfolding pump
  pump_skip k ks pending s c h = rw h

  pump_go :
      (k : ℕ) (ks pending : List ℕ) (s : S) (c : CellClient) (s' : S) (c' : CellClient)
      → let bytes = take (portion c k) pending in
        0 < length bytes
        → c.recv_buff.last + length bytes ≤ c.recv_buff.size
        → drain handle (suc c.recv_buff.size) s (record c { recv_buff = filled c.recv_buff bytes })
          ≡ some (s', c')
        → pump handle (k ∷ ks) pending s c ≡ pump handle ks (drop (portion c k) pending) s' c'
  unfolding pump filled
  pump_go k ks pending s c s' c' h fits e =
      let bytes = take (portion c k) pending in ground (arith, recv_data_lem c bytes h fits)

-- The state after some rounds, of a stream of the messages `ms` and the rest `r`.
record Pumped {S : Type 0} (handle : Handler S) (laws : HandlerLaws handle) (ks : List ℕ)
    (pending : List ℕ) (s : S) (log : List (List ℕ)) (c : CellClient) (ms : List (List ℕ))
    (r : List ℕ) : Type 0 where
  first : List (List ℕ)
  second : List (List ℕ)
  unread : List ℕ
  state : S
  client : CellClient
  parts : ms ≡ first ++ second
  runs : pump (logged handle) ks pending (s, log) c ≡ some (unread, (state, log ++ first), client)
  remains : contents client.recv_buff ++ unread ≡ concat second ++ r
  stops : is_ready (contents client.recv_buff) ≡ false
  progress : length unread ≤ length pending - length ks

module _ {S : Type 0} {handle : Handler S} (laws : HandlerLaws handle) where
  pumped :
      (size : ℕ) (ks : List ℕ) (ms : List (List ℕ)) (r pending : List ℕ) (s : S)
      (log : List (List ℕ)) (c : CellClient)
      → IsValid c.recv_buff
      → laws.Inv c
      → All IsFramed ms
      → c.recv_buff.size ≡ size
      → All (λ m. length m ≤ size) ms
      → length r < size
      → is_ready r ≡ false
      → All (λ k. 0 < k) ks
      → contents c.recv_buff ++ pending ≡ concat ms ++ r
      → is_ready (contents c.recv_buff) ≡ false
      → Pumped handle laws ks pending s log c ms r
  unfolding filled pump
  pumped size [] ms r pending s log c v i fs z fit h stop ks e q = record {
    first = [];
    second = ms;
    unread = pending;
    state = s;
    client = c;
    parts = refl;
    runs = ap (λ l. some (pending, (s, l), c)) (sym (append-nil log));
    remains = e;
    stops = q;
    progress = omega arith;
  }
  pumped size (k ∷ ks) ms r [] s log c v i fs z fit h stop (kp, kps) e q =
      let rest = pumped size ks ms r [] s log c v i fs z fit h stop kps e q in
      record {
        first = rest.first;
        second = rest.second;
        unread = rest.unread;
        state = rest.state;
        client = rest.client;
        parts = rest.parts;
        runs =
            pump_skip (logged handle) k ks [] (s, log) c (ap length (take-nil (portion c k)))
            ∙ rest.runs;
        remains = rest.remains;
        stops = rest.stops;
        progress = omega (arith, rest.progress);
      }
  pumped size (k ∷ ks) ms r (x ∷ xs) s log c v i fs z fit h stop (kp, kps) e q =
      let pending = x ∷ xs in
      let n = portion c k in
      let bytes = take n pending in
      let space = room size ms r (contents c.recv_buff) pending fs fit h e q in
      let parted : Parted ms r (contents c.recv_buff ++ bytes) (drop n pending) =
        part ms r (contents c.recv_buff ++ bytes) (drop n pending) fs stop (
          append_assoc (contents c.recv_buff) bytes (drop n pending)
          ∙ ap (◌++◌ (contents c.recv_buff)) (take-append-drop n pending)
          ∙ e) in
      let d =
        round laws bytes ms r (drop n pending) s log c (omega (arith, length-take n pending)) v i fs
          parted in
      let rest =
        pumped size ks parted.second r (drop n pending) d.state (log ++ parted.first) d.client
          d.valid d.inv
          (All-append_right IsFramed parted.first parted.second
            (subst (All IsFramed) parted.parts fs))
          (d.size ∙ z)
          (All-append_right (λ m. length m ≤ size) parted.first parted.second
            (subst (All (λ m. length m ≤ size)) parted.parts fit))
          h stop kps (ap (λ l. l ++ drop n pending) d.left ∙ parted.to_come)
          (ap is_ready d.left ∙ parted.stops) in
      record {
        first = parted.first ++ rest.first;
        second = rest.second;
        unread = rest.unread;
        state = rest.state;
        client = rest.client;
        parts =
            parted.parts
            ∙ ap (◌++◌ parted.first) rest.parts
            ∙ sym (append_assoc parted.first rest.first rest.second);
        runs =
            pump_go (logged handle) k ks pending (s, log) c (d.state, log ++ parted.first) d.client
              (omega (arith, length-take n pending, space, length-contents v))
              (omega (arith, length-take n pending)) d.runs
            ∙ rest.runs
            ∙ ap (λ l. some (rest.unread, (rest.state, l), rest.client))
                (append_assoc log parted.first rest.first);
        remains = rest.remains;
        stops = rest.stops;
        progress = omega (arith, rest.progress, length-drop n pending, space, length-contents v);
      }

-- The end of a delivery: nothing is unread, every message has been logged, the rest is kept.
pub record Delivered {S : Type 0} (handle : Handler S) (ks stream : List ℕ) (s : S) (c : CellClient)
    (ms : List (List ℕ)) (r : List ℕ) : Type 0 where
  pub state : S
  pub client : CellClient
  pub runs : pump (logged handle) ks stream (s, []) c ≡ some ([], (state, ms), client)
  pub left : contents client.recv_buff ≡ r

length_zero : (xs : List ℕ) → length xs ≤ 0 → xs ≡ []
length_zero [] h = refl
length_zero (x ∷ xs) h = absurd (omega arith)

none_left :
    (second : List (List ℕ)) (r q : List ℕ)
    → All IsFramed second
    → q ++ [] ≡ concat second ++ r
    → is_ready q ≡ false
    → (second ≡ []) × (q ≡ r)
none_left [] r q fs e stop = (refl, sym (append-nil q) ∙ e)
none_left (m ∷ ms) r q (fm, fs) e stop = absurd (
    true_false (
      sym (is_ready-framed m (concat ms ++ r) fm)
      ∙ ap is_ready (sym (append_assoc m (concat ms) r) ∙ sym e ∙ append-nil q)
      ∙ stop))
  where
    true_false : true ≡ false → ⊥
    true_false e = cc

module _ {S : Type 0} {handle : Handler S} (laws : HandlerLaws handle) where
  -- Let a client with a valid and empty receive buffer be sent a stream of messages and a rest that
  -- is no whole message. Every message has its header and its own length in its length field, and
  -- fits in the buffer; the rest is shorter than the buffer. However the network cuts the stream
  -- into pieces of at least one byte, once there are as many rounds as the stream has bytes all of
  -- it is read, the handler has been given exactly the messages, each once and in order, and the
  -- rest stays in the buffer.
  pub reassembly :
      (ks : List ℕ) (ms : List (List ℕ)) (r : List ℕ) (s : S) (c : CellClient)
      → IsValid c.recv_buff
      → laws.Inv c
      → contents c.recv_buff ≡ []
      → All IsFramed ms
      → All (λ m. length m ≤ c.recv_buff.size) ms
      → length r < c.recv_buff.size
      → is_ready r ≡ false
      → All (λ k. 0 < k) ks
      → length (concat ms ++ r) ≤ length ks
      → Delivered handle ks (concat ms ++ r) s c ms r
  unfolding is_ready
  reassembly ks ms r s c v i empty fs fit h stop pos_ks enough =
      let p =
        pumped laws c.recv_buff.size ks ms r (concat ms ++ r) s [] c v i fs refl fit h stop pos_ks
          (ap (λ l. l ++ (concat ms ++ r)) empty) (rw empty) in
      let done : p.unread ≡ [] = length_zero p.unread (omega (arith, p.progress)) in
      let (none_second, left) =
        none_left p.second r (contents p.client.recv_buff)
          (All-append_right IsFramed p.first p.second (subst (All IsFramed) p.parts fs))
          (ap (◌++◌ (contents p.client.recv_buff)) (sym done) ∙ p.remains) p.stops in
      record {
        state = p.state;
        client = p.client;
        runs =
            p.runs
            ∙ ap₂ (λ u l. some (u, (p.state, l), p.client)) done
                (sym (p.parts ∙ ap (◌++◌ p.first) none_second ∙ append-nil p.first));
        left = left;
      }
