-- ===== src/Client/Drain/Messages.antt =====
-- What the dispatch loop does with a receive buffer that holds whole messages and a rest.
use cpp_network_obj.Base.{
  ℕ, zero, suc, ◌+◌, ◌≤◌, ◌<◌, ◌≡◌, refl, ap, sym, subst, ◌∙◌, true, false, some, List, [], ◌∷◌,
  ◌++◌, length, take, drop, concat, All, append-nil, append_assoc, ◌>>=◌, arith, take-take,
  take-append_eq, drop-append_eq, length-append,
}
use cpp_network_obj.Message.{data_length}
use cpp_network_obj.Buffer.{CellBuffer, contents, popped, pop}
use cpp_network_obj.Buffer
use cpp_network_obj.Buffer.Invariant.{IsValid, pop-IsValid}
use cpp_network_obj.Buffer.Queue.{length-contents, contents-popped}
use cpp_network_obj.Buffer.Framing.{
  IsFramed, is_ready, has_msg-is_ready, is_ready-framed, data_length-framed, data_length-take,
}
use cpp_network_obj.Client.{CellClient, has_msg, front_msg, pop_front_msg}
use cpp_network_obj.Client.Drain.{Handler, drain}

-- What the loop needs of a handler: while `Inv` holds of the client it returns, leaves the receive
-- buffer alone and keeps `Inv`, which does not depend on that buffer. The message is in memory.
pub record HandlerLaws {S : Type 0} (handle : Handler S) : Type 1 where
  pub Inv : CellClient → Type 0
  pub Inv-recv_buff : (c : CellClient) (b : CellBuffer) → Inv c → Inv (record c { recv_buff = b })
  pub returns :
      (s : S) (c : CellClient) (mem : List ℕ)
      → Inv c
      → data_length mem ≤ length mem
      → (r : S × CellClient) × (handle s c mem ≡ some r) × (r.1.recv_buff ≡ c.recv_buff) × Inv r.1

-- The handler, with a log of the messages that it was given.
abbrev pub logged : {S : Type 0} → Handler S → Handler (S × List (List ℕ))
logged handle (s, log) c mem =
    handle s c mem >>= λ (s', c'). some ((s', log ++ take (data_length mem) mem ∷ []), c')

-- What is at the front of a buffer that holds a message first.
record Front (b : CellBuffer) (m rest : List ℕ) : Type 0 where
  valid : IsValid b
  framed : IsFramed m
  holds : contents b ≡ m ++ rest

module _ {b : CellBuffer} {m rest : List ℕ} (f : Front b m rest) where
  Front-last : length m + length rest ≡ b.last
  Front-last = omega (arith, length-contents f.valid, ap length f.holds, length-append m rest)

  Front-has_msg : Buffer.has_msg b ≡ true
  Front-has_msg = has_msg-is_ready f.valid ∙ ap is_ready f.holds ∙ is_ready-framed m rest f.framed

  Front-data_length : data_length b.mem ≡ length m
  Front-data_length =
      sym (data_length-take b.last b.mem (omega (arith, Front-last, f.framed.0)))
      ∙ ap data_length f.holds
      ∙ data_length-framed m rest f.framed

  Front-inside : data_length b.mem ≤ length b.mem
  Front-inside = omega (arith, Front-data_length, Front-last, f.valid.block, f.valid.within)

  Front-frame : take (data_length b.mem) b.mem ≡ m
  Front-frame =
      ap (λ k. take k b.mem) Front-data_length
      ∙ sym (take-take (length m) b.last b.mem (omega (arith, Front-last)))
      ∙ ap (take (length m)) f.holds
      ∙ take-append_eq (length m) m rest refl

  Front-rest : contents (popped b (length m)) ≡ rest
  Front-rest =
      contents-popped {b = b} (length m) f.valid (omega (arith, Front-last))
      ∙ ap (drop (length m)) f.holds
      ∙ drop-append_eq (length m) m rest refl

  Front-pop : pop b (data_length b.mem) ≡ some (popped b (length m))
  unfolding pop
  Front-pop = ground (arith, Front-data_length, Front-last)

  Front-IsValid : IsValid (popped b (length m))
  Front-IsValid = pop-IsValid {b = b} (data_length b.mem) f.valid Front-pop

  Front-size : (popped b (length m)).size ≡ b.size
  unfolding popped
  Front-size = refl

-- The client after its first message is removed.
abbrev next : CellClient → ℕ → CellClient
next c n = record c { recv_buff = popped c.recv_buff n }

pop_front_msg_lem :
    {c : CellClient} {m rest : List ℕ}
    → Front c.recv_buff m rest
    → pop_front_msg c ≡ some (next c (length m))
unfolding pop_front_msg
pop_front_msg_lem {c} f = rw (Front-has_msg f, Front-pop f)

-- The end of a run of the loop: the messages logged, and what is left in the buffer.
pub record Drained {S : Type 0} (handle : Handler S) (laws : HandlerLaws handle) (fuel : ℕ) (s : S)
    (log : List (List ℕ)) (c : CellClient) (ms : List (List ℕ)) (rest : List ℕ) : Type 0 where
  pub state : S
  pub client : CellClient
  pub runs : drain (logged handle) fuel (s, log) c ≡ some ((state, log ++ ms), client)
  pub left : contents client.recv_buff ≡ rest
  pub valid : IsValid client.recv_buff
  pub size : client.recv_buff.size ≡ c.recv_buff.size
  pub inv : laws.Inv client

module _ {S : Type 0} (handle : Handler S) where
  pub drain_stop :
      (fuel : ℕ) (s : S) (c : CellClient)
      → has_msg c ≡ false
      → drain handle (suc fuel) s c ≡ some (s, c)
  unfolding drain
  drain_stop fuel s c h = rw (h, drain)

  pub drain_step :
      (fuel : ℕ) (s s' : S) (c c' c'' : CellClient)
      → has_msg c ≡ true
      → handle s c (front_msg c) ≡ some (s', c')
      → pop_front_msg c' ≡ some c''
      → drain handle (suc fuel) s c ≡ drain handle fuel s' c''
  unfolding drain
  drain_step fuel s s' c c' c'' h e p = rw (h, drain) (rw e (rw p))

module _ {S : Type 0} {handle : Handler S} (laws : HandlerLaws handle) where
  drain_rest :
      (fuel : ℕ) (s : S) (log : List (List ℕ)) (c : CellClient) (rest : List ℕ)
      → IsValid c.recv_buff
      → laws.Inv c
      → contents c.recv_buff ≡ rest
      → is_ready rest ≡ false
      → Drained handle laws (suc fuel) s log c [] rest
  unfolding has_msg
  drain_rest fuel s log c rest v i e stop = record {
    state = s;
    client = c;
    runs =
        drain_stop (logged handle) fuel (s, log) c (has_msg-is_ready v ∙ ap is_ready e ∙ stop)
        ∙ ap (λ l. some ((s, l), c)) (sym (append-nil log));
    left = e;
    valid = v;
    size = refl;
    inv = i;
  }

  -- A run of the loop over whole messages and a rest that is none, with one more round of fuel than
  -- messages, gives each message to the handler once and in order, and leaves the rest.
  pub drain_messages :
      (ms : List (List ℕ)) (fuel : ℕ) (s : S) (log : List (List ℕ)) (c : CellClient) (rest : List ℕ)
      → length ms < fuel
      → IsValid c.recv_buff
      → laws.Inv c
      → All IsFramed ms
      → contents c.recv_buff ≡ concat ms ++ rest
      → is_ready rest ≡ false
      → Drained handle laws fuel s log c ms rest
  unfolding has_msg front_msg
  drain_messages ms zero s log c rest h v i fs e stop = elim h [ ]
  drain_messages [] (suc fuel) s log c rest h v i fs e stop =
      drain_rest fuel s log c rest v i e stop
  drain_messages (m ∷ ms) (suc fuel) s log c rest h v i (fm, fs) e stop =
      let f : Front c.recv_buff m (concat ms ++ rest) = record {
        valid = v;
        framed = fm;
        holds = e ∙ append_assoc m (concat ms) rest;
      } in
      let ((s', c'), returned, same, i') = laws.returns s c c.recv_buff.mem i (Front-inside f) in
      let f' : Front c'.recv_buff m (concat ms ++ rest) =
        subst (λ b. Front b m (concat ms ++ rest)) (sym same) f in
      let after =
        drain_messages ms fuel s' (log ++ m ∷ []) (next c' (length m)) rest (omega arith)
          (Front-IsValid f') (laws.Inv-recv_buff c' _ i') fs (Front-rest f') stop in
      record {
        state = after.state;
        client = after.client;
        runs =
            drain_step (logged handle) fuel (s, log) (s', log ++ m ∷ []) c c' (next c' (length m))
              (Front-has_msg f)
              (rw returned (ap (λ x. some ((s', log ++ x ∷ []), c')) (Front-frame f)))
              (pop_front_msg_lem f')
            ∙ after.runs
            ∙ ap (λ l. some ((after.state, l), after.client)) (append_assoc log (m ∷ []) ms);
        left = after.left;
        valid = after.valid;
        size = after.size ∙ Front-size f' ∙ ap (λ b. b.size) same;
        inv = after.inv;
      }
